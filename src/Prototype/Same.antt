-- ===== src/Prototype/Same.antt =====
-- The stripper of the program agrees with the one that it was made from.
use gnugol.Base.{
  ℕ, ◌+◌, ◌≡◌, ◌≢◌, refl, false, not, ◌&&◌, ◌||◌, [], ◌∷◌, ltb, ◌==◌, arith, Bytes, All, Result, ok,
  fault, Bool-cases, inl, inr, After, After-cong,
}
use gnugol.Handy.Entities.{Utf8}
use gnugol.Handy.Strip.Clean.{Tidy, Yields, step-Tidy, initial-Tidy}
use gnugol.Handy.Strip.{Strip, initial, on_semicolon, step, strip_loop, strip_html}
use gnugol.Prototype.{end_word, first_step, first_loop, first_strip_html}

-- A byte that both read alike: no entity begins there, and it is no newline.
pub record Alike (c : ℕ) : Type 0 where
  pub ampersand : c ≢ b'&'
  pub newline : c ≢ b'\n'
  pub return : c ≢ b'\r'

Yields→After : {A : Type 0} (P : A → Type 0) (m : Result A) → Yields P m → After P m
Yields→After P (ok a) h = h
Yields→After P (fault why) h = tt

module _ (u : Utf8) (len : ℕ) (html : Bytes) where
  end_word-on_semicolon :
      (i : ℕ) (s : Strip) → s.inentity ≡ false → end_word len html i s ≡ on_semicolon u len html i s
  unfolding end_word on_semicolon
  end_word-on_semicolon i s outside = simp outside

  first_step-step :
      (i c : ℕ) (s : Strip)
      → Alike c
      → s.inentity ≡ false
      → first_step len html i c s ≡ step u len html i c s
  unfolding first_step step
  first_step-step i c s a outside =
      let blank : (c == b' ' || (c == b'\n' || c == b'\r')) ≡ (c == b' ') =
        ground (arith, a.newline, a.return) in
      rw (blank, end_word-on_semicolon i s outside) refl

  -- The loops agree from any state of a text with no entities.
  first_loop-strip_loop :
      (i : ℕ) (cs : Bytes) (s : Strip)
      → All Alike cs
      → Tidy s
      → first_loop len html i cs s ≡ strip_loop u len html i cs s
  unfolding first_loop strip_loop
  first_loop-strip_loop i [] s h v = refl
  first_loop-strip_loop i (c ∷ cs) s h v = elim (Bool-cases (ltb i len && not (c == 0))) [
    | inr stop ↦ rw stop refl
    | inl go ↦
        rw (go, first_step-step i c s h.0 v.outside)
          (After-cong Tidy (step u len html i c s) (λ t. first_loop len html (i + 1) cs t)
            (λ t. strip_loop u len html (i + 1) cs t)
            (Yields→After Tidy (step u len html i c s)
              (step-Tidy u len html i c s h.0.ampersand (ground arith) v))
            λ t w. first_loop-strip_loop (i + 1) cs t h.1 w)
  ]

-- On a text without `&`, newline and carriage return, the `strip_html` of the prototype and the one
-- that the program made of it leave the same text and return the same length.
pub first_strip_html-strip_html :
    (u : Utf8) (len : ℕ) (html : Bytes)
    → All Alike html
    → first_strip_html len html ≡ strip_html u len html
unfolding first_strip_html strip_html
first_strip_html-strip_html u len html h =
    rw (first_loop-strip_loop u len html 0 html initial h initial-Tidy) refl
