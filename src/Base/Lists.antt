-- ===== src/Base/Lists.antt =====
-- Lists measured and indexed by native numbers, byte strings, and predicates over them.
use Prim.Native.Char.{code}
use Prim.Native.Nat.{ℕ, zero, suc, ◌+◌, ◌-◌, ◌≤◌, ◌<◌, min}
use Prim.Native.String.{String}
use mathlib.Core.Bool.{Bool, true, false, ◌&&◌}
use mathlib.Core.List.{List, [], ◌∷◌, ◌++◌, reverse, reverse-append}
use mathlib.Core.Option.{Option, none, some}
use mathlib.Core.Path.{◌≡◌, refl, ap, ◌∙◌}
use native.Mathlib.Omega.{arith}
use gnugol.Base.Tests.{◌==◌, if◌then◌else◌}

-- A C string or a buffer of bytes.
abbrev pub Bytes : Type 0
Bytes = List ℕ

-- The bytes of an ASCII literal.
abbrev pub codes : String → Bytes
codes String.[] = []
codes (String.◌∷◌ c s) = code c ∷ codes s

module _ {ℓ} {A : Type ℓ} where
  abbrev pub length : List A → ℕ
  length [] = 0
  length (x ∷ xs) = suc (length xs)

  abbrev pub get_elem? : List A → ℕ → Option A
  get_elem? [] i = none
  get_elem? (x ∷ xs) zero = some x
  get_elem? (x ∷ xs) (suc i) = get_elem? xs i

  abbrev pub take : ℕ → List A → List A
  take zero xs = []
  take (suc n) [] = []
  take (suc n) (x ∷ xs) = x ∷ take n xs

  abbrev pub drop : ℕ → List A → List A
  drop zero xs = xs
  drop (suc n) [] = []
  drop (suc n) (x ∷ xs) = drop n xs

  abbrev pub All {κ} : (A → Type κ) → List A → Type κ
  All P [] = Unit
  All P (x ∷ xs) = P x × All P xs

  pub length-append : (xs ys : List A) → length (xs ++ ys) ≡ length xs + length ys
  length-append [] ys = omega arith
  length-append (x ∷ xs) ys = omega (arith, length-append xs ys)

  pub length-prefix : (xs ys : List A) → length xs ≤ length (xs ++ ys)
  length-prefix xs ys = omega (arith, length-append xs ys)

  pub length-take : (n : ℕ) (xs : List A) → length (take n xs) ≡ min n (length xs)
  length-take zero xs = omega arith
  length-take (suc n) [] = omega arith
  length-take (suc n) (x ∷ xs) = omega (arith, length-take n xs)

  pub length-drop : (n : ℕ) (xs : List A) → length (drop n xs) ≡ length xs - n
  length-drop zero xs = omega arith
  length-drop (suc n) [] = omega arith
  length-drop (suc n) (x ∷ xs) = omega (arith, length-drop n xs)

  pub take-all : (n : ℕ) (xs : List A) → length xs ≤ n → take n xs ≡ xs
  take-all zero [] fits = refl
  take-all zero (x ∷ xs) fits = absurd (omega arith)
  take-all (suc n) [] fits = refl
  take-all (suc n) (x ∷ xs) fits = ap (x ∷◌) (take-all n xs (omega arith))

  pub take_append_length : (xs ys : List A) → take (length xs) (xs ++ ys) ≡ xs
  take_append_length [] ys = refl
  take_append_length (x ∷ xs) ys = ap (x ∷◌) (take_append_length xs ys)

  pub get_elem?-All {κ} :
      (P : A → Type κ) (xs : List A) (i : ℕ) (e : A) → All P xs → get_elem? xs i ≡ some e → P e
  get_elem?-All P [] i e all h = cc
  get_elem?-All P (x ∷ xs) zero e all h = let same : x ≡ e = cc in rw (← same) all.0
  get_elem?-All P (x ∷ xs) (suc i) e all h = get_elem?-All P xs i e all.1 h

  pub All-append {κ} : (P : A → Type κ) (xs ys : List A) → All P xs → All P ys → All P (xs ++ ys)
  All-append P [] ys h k = k
  All-append P (x ∷ xs) ys h k = (h.0, All-append P xs ys h.1 k)

module _ {ℓ κ} {A : Type ℓ} (P : A → Type κ) where
  pub All-without : (xs : List A) (x : A) (ys : List A) → All P (xs ++ x ∷ ys) → All P (xs ++ ys)
  All-without [] x ys h = h.1
  All-without (z ∷ xs) x ys h = (h.0, All-without xs x ys h.1)

  pub All-with : (xs : List A) (x : A) (ys : List A) → All P (xs ++ ys) → P x → All P (xs ++ x ∷ ys)
  All-with [] x ys h p = (p, h)
  All-with (z ∷ xs) x ys h p = (h.0, All-with xs x ys h.1 p)

  pub All-at : (xs : List A) (x : A) (ys : List A) → All P (xs ++ x ∷ ys) → P x
  All-at [] x ys h = h.0
  All-at (z ∷ xs) x ys h = All-at xs x ys h.1

module _ {ℓ} {A : Type ℓ} where
  pub length-reverse : (xs : List A) → length (reverse xs) ≡ length xs
  length-reverse [] = refl
  length-reverse (x ∷ xs) =
      ap length (reverse-append (x ∷ []) xs)
      ∙ length-append (reverse xs) (x ∷ [])
      ∙ omega (arith, length-reverse xs)

abbrev pub is_empty : Bytes → Bool
is_empty [] = true
is_empty (c ∷ cs) = false

-- Two byte strings hold the same bytes.
unfoldable pub eq_bytes : Bytes → Bytes → Bool
eq_bytes [] [] = true
eq_bytes (x ∷ xs) (y ∷ ys) = x == y && eq_bytes xs ys
eq_bytes _ _ = false

pub eq_bytes→eq : (xs ys : Bytes) → eq_bytes xs ys ≡ true → xs ≡ ys
unfolding eq_bytes
eq_bytes→eq [] [] h = refl
eq_bytes→eq (x ∷ xs) (y ∷ ys) h = ground (arith, eq_bytes→eq xs ys)
eq_bytes→eq [] (y ∷ ys) h = ground arith
eq_bytes→eq (x ∷ xs) [] h = ground arith

-- What a buffer reads as: the bytes before its first NUL.
unfoldable pub until_nul : Bytes → Bytes
until_nul [] = []
until_nul (c ∷ cs) = if c == 0 then [] else c ∷ until_nul cs

pub length-until_nul : (xs : Bytes) → length (until_nul xs) ≤ length xs
unfolding until_nul
length-until_nul [] = omega arith
length-until_nul (c ∷ cs) = ground (arith, length-until_nul cs)

abbrev pub IsText : Bytes → Type 0
IsText = All (λ c. 0 < c)

pub until_nul-IsText : (xs ys : Bytes) → IsText xs → until_nul (xs ++ ys) ≡ xs ++ until_nul ys
unfolding until_nul
until_nul-IsText [] ys h = refl
until_nul-IsText (c ∷ cs) ys h = ground (arith, until_nul-IsText cs ys h.1)

pub until_nul_lem : (xs : Bytes) → IsText xs → until_nul xs ≡ xs
unfolding until_nul
until_nul_lem [] h = refl
until_nul_lem (c ∷ cs) h = ground (arith, until_nul_lem cs h.1)

-- A test holds of every element.
unfoldable pub all {ℓ} : {A : Type ℓ} → (A → Bool) → List A → Bool
all p [] = true
all p (x ∷ xs) = p x && all p xs

pub all_sound {ℓ κ} :
    {A : Type ℓ} (P : A → Type κ) (p : A → Bool)
    → ((x : A) → p x ≡ true → P x)
    → (xs : List A) → all p xs ≡ true
    → All P xs
unfolding all
all_sound P p sound [] h = tt
all_sound P p sound (x ∷ xs) h = (sound x (ground arith), all_sound P p sound xs (ground arith))
