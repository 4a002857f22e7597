-- ===== src/Format/Lines/Parts.antt =====
-- The formats of each table accept the arguments that they are given.
use gnugol.Base.{
  ℕ, zero, suc, ◌≤◌, ◌<◌, ◌≡◌, refl, Bool, true, ◌&&◌, List, [], ◌∷◌, ℤ, pos, negsuc, arith, Bytes,
  length, ok,
}
use gnugol.Clib.Printf.{Arg, pieces, accepts}
use gnugol.Format.Lines.{entry, level_of}

unfoldable pub all_accept : List Bytes → List Arg → Bool
unfolding pieces accepts
all_accept [] args = true
all_accept (format ∷ table) args = accepts (pieces format) args && all_accept table args

pub entry-accepts :
    (table : List Bytes) (args : List Arg) (i : ℕ)
    → all_accept table args ≡ true
    → i < length table
    → (format : Bytes) × (entry table i ≡ ok format) × (accepts (pieces format) args ≡ true)
unfolding all_accept
entry-accepts [] args i h bound = absurd (omega arith)
entry-accepts (format ∷ table) args zero h bound = (format, refl, ground arith)
entry-accepts (format ∷ table) args (suc i) h bound =
    entry-accepts table args i (ground arith) (omega arith)

pub level_of-le : (z : ℤ) → level_of z ≤ 5
unfolding level_of
level_of-le (pos n) = ground arith
level_of-le (negsuc n) = ground arith

pub entry_in :
    (table : List Bytes) (i : ℕ) → i < length table → (text : Bytes) × (entry table i ≡ ok text)
entry_in [] i h = absurd (omega arith)
entry_in (text ∷ table) zero h = (text, refl)
entry_in (text ∷ table) (suc i) h = entry_in table i (omega arith)
