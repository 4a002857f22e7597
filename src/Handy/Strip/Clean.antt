-- ===== src/Handy/Strip/Clean.antt =====
-- What `strip_html` makes of a text with no entities: a clean text.
use mathlib.Core.Bool.{not, ◌&&◌, ◌||◌}
use gnugol.Base.{
  ℕ, ◌+◌, ◌≡◌, ◌≢◌, refl, Bool, true, false, none, [], ◌∷◌, ltb, ◌==◌, if◌then◌else◌, arith, Bytes,
  All, length, reverse, Result, ok, fault, overrun, underrun, bad_read, assertion, ◌>>=◌,
  Bool-cases, inl, inr, get_elem?-All, sym, length-reverse, until_nul, until_nul_lem,
}
use gnugol.Handy.Entities.{Utf8}
use gnugol.Handy.Strip.Bounds.{Outcome}
use gnugol.Handy.Strip.{
  Strip, initial, ends_in_word, on_blank, on_period, on_other, on_semicolon, step, strip_loop,
  strip_html,
}
use gnugol.Handy.Strip.Texts.{
  is_plain, is_clean, top, clean_back, clean_back-cons, clean_after_nil, clean_back_nil,
  clean_after-IsText, clean_after-reverse_aux,
}

abbrev pub NoEntity : Bytes → Type 0
NoEntity = All (λ c. c ≢ b'&')

abbrev pub ends_in : ℕ → Bytes → Bool
ends_in d [] = false
ends_in d (c ∷ cs) = c == d

pub record Tidy (s : Strip) : Type 0 where
  pub clean : clean_back s.out ≡ true
  pub outside : s.inentity ≡ false
  pub dotted : (s.inperiod == 1) ≡ ends_in b'.' s.out
  pub spaced : (s.isspace && ends_in_word s.out) ≡ false

abbrev pub Yields : {A : Type 0} → (A → Type 0) → Result A → Type 0
Yields P (ok t) = P t
Yields P (fault _) = Unit

pub Yields-ok : {A : Type 0} (P : A → Type 0) (m : Result A) (a : A) → m ≡ ok a → Yields P m → P a
Yields-ok P m a run y = rw run at y

pub Yields-bind :
    {A B : Type 0} (P : A → Type 0) (Q : B → Type 0) (m : Result A) (f : A → Result B)
    → Yields P m
    → ((a : A) → P a → Yields Q (f a))
    → Yields Q (m >>= f)
Yields-bind P Q (ok a) f h k = k a h
Yields-bind P Q (fault _) f h k = tt

plain_blank : is_plain b' ' ≡ true
unfolding is_plain
plain_blank = refl

plain_period : is_plain b'.' ≡ true
unfolding is_plain
plain_period = refl

plain_semicolon : is_plain b';' ≡ true
unfolding is_plain
plain_semicolon = refl

abbrev pub with_out : Strip → Bytes → Strip
with_out s out = record s { out = out }

module _ (len : ℕ) (s : Strip) where
  on_blank-Tidy :
      (out : Bytes) → Tidy (with_out s out) → Yields Tidy (on_blank len (with_out s out))
  unfolding on_blank
  on_blank-Tidy [] v = ground (arith, plain_blank, clean_back-cons b' ' [])
  on_blank-Tidy (c ∷ out) v = ground (arith, plain_blank, clean_back-cons b' ' (c ∷ out))

  on_period-Tidy :
      (out : Bytes) → Tidy (with_out s out) → Yields Tidy (on_period len (with_out s out))
  unfolding on_period
  on_period-Tidy [] v = ground (arith, plain_period, clean_back-cons b'.' [])
  on_period-Tidy (c ∷ []) v =
      ground (arith, plain_period, clean_back-cons b'.' (c ∷ []), clean_back-cons c [])
  on_period-Tidy (c ∷ d ∷ out) v =
      ground (arith, plain_period, clean_back-cons b'.' (c ∷ d ∷ out), clean_back-cons c (d ∷ out))

  on_other-Tidy :
      (out : Bytes) (c : ℕ)
      → Tidy (with_out s out)
      → is_plain c ≡ true
      → c ≢ b' '
      → c ≢ b'.'
      → Yields Tidy (on_other len c (with_out s out))
  unfolding on_other
  on_other-Tidy [] c v plain ne nd = ground (arith, clean_back-cons c [])
  on_other-Tidy (d ∷ out) c v plain ne nd = ground (arith, clean_back-cons c (d ∷ out))

  on_semicolon-Tidy :
      (u : Utf8) (html : Bytes) (i : ℕ) (out : Bytes)
      → Tidy (with_out s out)
      → Yields Tidy (on_semicolon u len html i (with_out s out))
  unfolding on_semicolon
  on_semicolon-Tidy u html i [] v = ground (arith, plain_semicolon, clean_back-cons b';' [])
  on_semicolon-Tidy u html i (c ∷ out) v =
      ground (arith, plain_semicolon, clean_back-cons b';' (c ∷ out))

is_plain_lem :
    (c : ℕ) → c ≢ b'<' → c ≢ b'>' → c ≢ b'&' → c ≢ b'\n' → c ≢ b'\r' → c ≢ 0 → is_plain c ≡ true
unfolding is_plain
is_plain_lem c lt gt amp nl cr nul = ground arith

pub inhtml-Tidy : (s : Strip) (b : Bool) → Tidy s → Tidy (record s { inhtml = b })
inhtml-Tidy s b v = record {
  clean = v.clean;
  outside = v.outside;
  dotted = v.dotted;
  spaced = v.spaced;
}

pub ne→==_false : (a b : ℕ) → a ≢ b → (a == b) ≡ false
ne→==_false a b h = ground arith

module _ (u : Utf8) (len : ℕ) (html : Bytes) where
  -- The cases of the inner `switch`, at a byte that is no '&'.
  shown-Tidy :
      (i c : ℕ) (s : Strip)
      → c ≢ b'&'
      → c ≢ 0
      → Tidy s
      → (c == b'<') ≡ false
      → (c == b'>') ≡ false
      → Yields Tidy (
          if c == b';'
          then on_semicolon u len html i s
          else if c == b' ' || (c == b'\n' || c == b'\r')
          then on_blank len s
          else if c == b'.'
          then on_period len s
          else on_other len c s)
  shown-Tidy i c s amp nul v lt gt = elim (Bool-cases (c == b';')) [
    | inl e ↦ rw e (on_semicolon-Tidy len s u html i s.out v)
    | inr semicolon ↦ rw semicolon (elim (Bool-cases (c == b' ' || (c == b'\n' || c == b'\r'))) [
      | inl e ↦ rw e (on_blank-Tidy len s s.out v)
      | inr blank ↦ rw blank (elim (Bool-cases (c == b'.')) [
        | inl e ↦ rw e (on_period-Tidy len s s.out v)
        | inr period ↦ rw period (
            on_other-Tidy len s s.out c v (ground (arith, is_plain_lem c)) (ground arith)
              (ground arith))
      ])
    ])
  ]

  pub step-Tidy :
      (i c : ℕ) (s : Strip) → c ≢ b'&' → c ≢ 0 → Tidy s → Yields Tidy (step u len html i c s)
  unfolding step
  step-Tidy i c s amp nul v = elim (Bool-cases (c == b'<')) [
    | inl e ↦ rw e (inhtml-Tidy s true v)
    | inr lt ↦ rw lt (elim (Bool-cases (c == b'>')) [
      | inl e ↦ rw e (inhtml-Tidy s false v)
      | inr gt ↦ rw gt (elim (Bool-cases s.inhtml) [
        | inl e ↦ simp e v
        | inr kept ↦ simp (kept, ne→==_false c b'&' amp) (shown-Tidy i c s amp nul v lt gt)
      ])
    ])
  ]

  pub strip_loop-Tidy :
      (i : ℕ) (cs : Bytes) (s : Strip)
      → NoEntity cs
      → Tidy s
      → Yields Tidy (strip_loop u len html i cs s)
  unfolding strip_loop
  strip_loop-Tidy i [] s pure v = v
  strip_loop-Tidy i (c ∷ cs) s pure v = elim (Bool-cases (ltb i len && not (c == 0))) [
    | inr stop ↦ rw stop v
    | inl go ↦ rw go (
        Yields-bind Tidy Tidy (step u len html i c s) _ (step-Tidy i c s pure.0 (ground arith) v)
          λ t w. strip_loop-Tidy (i + 1) cs t pure.1 w)
  ]

-- Without entities no step leaves its array.
pub returns_of_NoEntity :
    {A : Type 0} (len : ℕ) (html : Bytes) (P : A → Type 0) (m : Result A)
    → NoEntity html
    → Outcome len html P m
    → (a : A) × (m ≡ ok a) × P a
returns_of_NoEntity len html P (ok a) pure h = (a, refl, h)
returns_of_NoEntity len html P (fault overrun) pure h =
    absurd (get_elem?-All (λ c. c ≢ b'&') html h.from b'&' pure h.ampersand refl)
returns_of_NoEntity len html P (fault underrun) pure h = absurd h
returns_of_NoEntity len html P (fault bad_read) pure h = absurd h
returns_of_NoEntity len html P (fault assertion) pure h = absurd h

pub initial-Tidy : Tidy initial
initial-Tidy = record { clean = clean_back_nil; outside = refl; dotted = refl; spaced = refl }

Tidy-is_clean : (s : Strip) → Tidy s → is_clean (reverse s.out) ≡ true
Tidy-is_clean s v = clean_after-reverse_aux s.out [] v.clean (clean_after_nil (top s.out))

-- The buffer holds no NUL, so `htmlstr` reads as all of it.
pub until_nul-reverse : (s : Strip) → Tidy s → until_nul (reverse s.out) ≡ reverse s.out
until_nul-reverse s v =
    until_nul_lem (reverse s.out) (clean_after-IsText none (reverse s.out) (Tidy-is_clean s v))

pub strip_html-Yields :
    (u : Utf8) (len : ℕ) (html : Bytes)
    → NoEntity html
    → Yields (λ r. (is_clean r.1 ≡ true) × (r.0 ≡ length r.1)) (strip_html u len html)
unfolding strip_html
strip_html-Yields u len html pure =
    Yields-bind Tidy _ (strip_loop u len html 0 html initial) _
      (strip_loop-Tidy u len html 0 html initial pure initial-Tidy)
      λ s v. (
        rw (until_nul-reverse s v) (Tidy-is_clean s v),
        rw (until_nul-reverse s v) (sym (length-reverse s.out)),
      )
