-- ===== src/Handy/Strip/Texts.antt =====
-- Clean texts: what strip_html prints of a text without entities.
use mathlib.Core.Bool.{not, ◌&&◌, ◌||◌}
use mathlib.Core.List.{reverse_aux}
use gnugol.Base.{
  ℕ, ◌<◌, ◌≡◌, refl, Bool, true, Option, none, some, [], ◌∷◌, ◌==◌, arith, Bytes, IsText,
}

-- A byte that may stand in a clean text.
unfoldable pub is_plain : ℕ → Bool
is_plain c = not (c == b'<' || (c == b'>' || (c == b'&' || (c == b'\n' || (c == b'\r' || c == 0)))))

-- A blank follows a byte that is none, and a period follows no period.
abbrev pub may_follow : Option ℕ → ℕ → Bool
may_follow none c = not (c == b' ')
may_follow (some d) c = not ((c == b' ' && d == b' ') || (c == b'.' && d == b'.'))

-- No tags, entities, newlines, runs of blanks or periods, and no blank at the start.
unfoldable pub clean_after : Option ℕ → Bytes → Bool
unfolding is_plain
clean_after before [] = true
clean_after before (c ∷ cs) = is_plain c && (may_follow before c && clean_after (some c) cs)

abbrev pub is_clean : Bytes → Bool
is_clean = clean_after none

abbrev pub top : Bytes → Option ℕ
top [] = none
top (c ∷ cs) = some c

-- The same, of a text whose last byte comes first.
pub clean_back : Bytes → Bool
clean_back [] = true
clean_back (c ∷ cs) = is_plain c && (may_follow (top cs) c && clean_back cs)

pub clean_back-cons :
    (c : ℕ) (cs : Bytes)
    → clean_back (c ∷ cs) ≡ (is_plain c && (may_follow (top cs) c && clean_back cs))
unfolding clean_back
clean_back-cons c cs = refl

pub clean_after_nil : (before : Option ℕ) → clean_after before [] ≡ true
unfolding clean_after
clean_after_nil before = refl

pub clean_back_nil : clean_back [] ≡ true
unfolding clean_back
clean_back_nil = refl

-- A clean text holds no NUL.
pub clean_after-IsText : (before : Option ℕ) (cs : Bytes) → clean_after before cs ≡ true → IsText cs
unfolding clean_after
clean_after-IsText before [] h = tt
clean_after-IsText before (c ∷ cs) h =
    let rest : clean_after (some c) cs ≡ true = ground arith in
    let text : 0 < c = ground arith in (text, clean_after-IsText (some c) cs rest)

pub clean_after-reverse_aux :
    (out cs : Bytes)
    → clean_back out ≡ true
    → clean_after (top out) cs ≡ true
    → is_clean (reverse_aux out cs) ≡ true
unfolding clean_back clean_after
clean_after-reverse_aux [] cs back after = after
clean_after-reverse_aux (c ∷ out) cs back after =
    clean_after-reverse_aux out (c ∷ cs) (ground arith) (ground arith)
