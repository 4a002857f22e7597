-- ===== src/Base/Results.antt =====
-- What a C function does: a value, or a step that leaves the bounds of an object.
use mathlib.Core.Bool.{Bool, true, false}
use mathlib.Core.Path.{◌≡◌, refl}
use gnugol.Base.Tests.{if◌then◌else◌}

-- `overrun` is a write past the end of an array, `underrun` one before its start, `bad_read` a
-- read outside an array or through `NULL`, and `assertion` a failed `assert`.
pub data Fault : Type 0 where
  overrun underrun bad_read assertion : Fault

pub data Result {ℓ} (A : Type ℓ) : Type ℓ where
  fault : Fault → Result A
  ok : A → Result A

module _ {ℓ κ} {A : Type ℓ} {B : Type κ} where
  infixl 5 ◌>>=◌
  -- One step and, unless it faults, the next.
  abbrev pub ◌>>=◌ : Result A → (A → Result B) → Result B
  fault why >>= next = fault why
  ok value >>= next = next value

pub >>=-assoc {ℓ κ μ} :
    {A : Type ℓ} {B : Type κ} {C : Type μ} (m : Result A) (f : A → Result B) (g : B → Result C)
    → ((m >>= f) >>= g) ≡ (m >>= λ a. f a >>= g)
>>=-assoc (fault why) f g = refl
>>=-assoc (ok value) f g = refl

pub >>=-cong {ℓ κ} :
    {A : Type ℓ} {B : Type κ} (m : Result A) (f g : A → Result B)
    → ((a : A) → f a ≡ g a)
    → (m >>= f) ≡ (m >>= g)
>>=-cong (fault why) f g same = refl
>>=-cong (ok value) f g same = same value

-- What holds of the value, if there is one.
abbrev pub After {ℓ κ} : {A : Type ℓ} → (A → Type κ) → Result A → Type κ
After P (fault why) = Unit
After P (ok value) = P value

module _ {ℓ κ ν} {A : Type ℓ} {B : Type κ} (Q : B → Type ν) where
  pub After-bind {μ} :
      (P : A → Type μ) (m : Result A) (f : A → Result B)
      → After P m
      → ((a : A) → P a → After Q (f a))
      → After Q (m >>= f)
  After-bind P (fault why) f h k = tt
  After-bind P (ok value) f h k = k value h

  -- The next step, whatever the first one gives.
  pub After-next : (m : Result A) (f : A → Result B) → ((a : A) → After Q (f a)) → After Q (m >>= f)
  After-next (fault why) f k = tt
  After-next (ok value) f k = k value

pub After-cong {ℓ κ μ} :
    {A : Type ℓ} {B : Type κ} (P : A → Type μ) (m : Result A) (f g : A → Result B)
    → After P m
    → ((a : A) → P a → f a ≡ g a)
    → (m >>= f) ≡ (m >>= g)
After-cong P (fault why) f g h same = refl
After-cong P (ok value) f g h same = same value h

pub After-if {ℓ κ} :
    {A : Type ℓ} (P : A → Type κ) (b : Bool) (m n : Result A)
    → After P m
    → After P n
    → After P (if b then m else n)
After-if P true m n h k = h
After-if P false m n h k = k

pub >>=-ok {ℓ} : {A : Type ℓ} (m : Result A) → (m >>= λ a. ok a) ≡ m
>>=-ok (fault why) = refl
>>=-ok (ok value) = refl
