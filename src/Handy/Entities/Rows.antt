-- ===== src/Handy/Entities/Rows.antt =====
-- Tests of every row of a table.
use gnugol.Base.{Bool, true, ◌&&◌, List, [], ◌∷◌, ◌≡◌, arith, All}
use gnugol.Handy.Entities.{EntityMap}

unfoldable pub all_rows : (EntityMap → Bool) → List EntityMap → Bool
all_rows test [] = true
all_rows test (e ∷ es) = test e && all_rows test es

pub all_rows_sound :
    (P : EntityMap → Type 0) (test : EntityMap → Bool)
    (sound : (e : EntityMap) → test e ≡ true → P e) (es : List EntityMap)
    → all_rows test es ≡ true
    → All P es
unfolding all_rows
all_rows_sound P test sound [] h = tt
all_rows_sound P test sound (e ∷ es) h =
    (sound e (ground arith), all_rows_sound P test sound es (ground arith))
