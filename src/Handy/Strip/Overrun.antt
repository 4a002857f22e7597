-- ===== src/Handy/Strip/Overrun.antt =====
-- The write past `char entity[12]` in `strip_html`.
use mathlib.Core.Bool.{not, ◌&&◌}
use gnugol.Base.{
  ℕ, ◌+◌, ◌≤◌, ◌<◌, ◌≡◌, refl, true, [], ◌∷◌, ◌++◌, ltb, ◌==◌, arith, Bytes, length, All, ok, fault,
  overrun,
}
use gnugol.Handy.Entities.{Utf8}
use gnugol.Handy.Strip.Words.{is_word}
use gnugol.Handy.Strip.{
  Strip, initial, on_other, end_entity, on_semicolon, step, strip_loop, strip_html,
}

abbrev pub AllWords : Bytes → Type 0
AllWords = All (λ c. is_word c ≡ true)

-- The machine after the '&' at `htmlstr[0]`.
abbrev in_entity : Strip
in_entity = record initial { inentity = true }

module _ (u : Utf8) (len : ℕ) (html : Bytes) where
  step_word : (i c : ℕ) → is_word c ≡ true → step u len html i c in_entity ≡ ok in_entity
  unfolding step on_other is_word
  step_word i c h = ground arith

  step_far : (i : ℕ) → 12 ≤ i → step u len html i b';' in_entity ≡ fault overrun
  unfolding step on_semicolon end_entity
  step_far i h = ground arith

  strip_loop_far :
      (i : ℕ) (name rest : Bytes)
      → AllWords name
      → i + length name < len
      → 12 ≤ i + length name
      → strip_loop u len html i (name ++ b';' ∷ rest) in_entity ≡ fault overrun
  unfolding strip_loop is_word
  strip_loop_far i [] rest words room far =
      let go : (ltb i len && true) ≡ true = ground arith in rw (go, step_far i (omega arith)) refl
  strip_loop_far i (c ∷ cs) rest words room far =
      let go : (ltb i len && not (c == 0)) ≡ true = ground (arith, words.0) in
      rw (go, step_word i c words.0)
        (strip_loop_far (i + 1) cs rest words.1 (omega arith) (omega arith))

overruns :
    (u : Utf8) (len : ℕ) (name rest : Bytes)
    → AllWords name
    → 11 ≤ length name
    → length name + 1 < len
    → strip_loop u len (b'&' ∷ name ++ b';' ∷ rest) 0 (b'&' ∷ name ++ b';' ∷ rest) initial
      ≡ fault overrun
unfolding strip_loop step
overruns u len name rest words long room =
    let go : (ltb 0 len && true) ≡ true = ground arith in
    rw go (strip_loop_far u len _ 1 name rest words (omega arith) (omega arith))

-- Of a text that begins with an '&', eleven or more ordinary bytes and a ';', with this ';' among the
-- first `len` bytes, `strip_html` writes past the end of `entity`, whatever follows.
pub strip_html_overruns :
    (u : Utf8) (len : ℕ) (name rest : Bytes)
    → AllWords name
    → 11 ≤ length name
    → length name + 1 < len
    → strip_html u len (b'&' ∷ name ++ b';' ∷ rest) ≡ fault overrun
unfolding strip_html
strip_html_overruns u len name rest words long room =
    rw (overruns u len name rest words long room) refl
