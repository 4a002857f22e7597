-- ===== src/Handy/Strip/Words.antt =====
-- What `strip_html` keeps: each ordinary byte outside the tags, in order.
use mathlib.Core.Bool.{not, ◌&&◌, ◌||◌}
use mathlib.Core.List.{reverse_aux}
use gnugol.Base.{
  ℕ, ◌+◌, ◌≤◌, ◌≡◌, ◌≢◌, refl, Bool, true, false, [], ◌∷◌, ltb, ◌==◌, if◌then◌else◌, arith, ◌∙◌,
  Bytes, length, reverse, ok, fault, Result, IsText, Bool-cases, inl, inr,
}
use gnugol.Handy.Entities.{Utf8}
use gnugol.Handy.Strip.{
  Strip, initial, on_blank, on_period, on_other, on_semicolon, step, strip_loop, strip_html,
}
use gnugol.Handy.Strip.Clean.{
  step-Tidy, strip_loop-Tidy, initial-Tidy, until_nul-reverse, NoEntity, Tidy, Yields, Yields-bind,
  Yields-ok, with_out, ne→==_false,
}

-- A byte that the inner `switch` of `strip_html` leaves to its `default`.
unfoldable pub is_word : ℕ → Bool
is_word c = not (
    c == b'<'
    || (c == b'>'
        || (c == b'&'
            || (c == b';'
                || (c == b' ' || (c == b'\n' || (c == b'\r' || (c == b'.' || c == 0))))))))

unfoldable pub words : Bytes → Bytes
unfolding is_word
words [] = []
words (c ∷ cs) = if is_word c then c ∷ words cs else words cs

-- The text less its tags, from inside a tag or outside one.
unfoldable pub outside_tags : Bool → Bytes → Bytes
outside_tags inside [] = []
outside_tags inside (c ∷ cs) =
    let rest = outside_tags (if c == b'<' then true else if c == b'>' then false else inside) cs in
    if c == b'<' || (c == b'>' || inside) then rest else c ∷ rest

words-cons : (c : ℕ) (cs : Bytes) → words (c ∷ cs) ≡ (if is_word c then c ∷ words cs else words cs)
unfolding words
words-cons c cs = refl

module _ (len : ℕ) (s : Strip) where
  on_blank-words :
      (out : Bytes)
      → Yields
          (λ t. (words t.out ≡ words out) × (t.inhtml ≡ s.inhtml))
          (on_blank len (with_out s out))
  unfolding on_blank is_word
  on_blank-words [] = ground (arith, words-cons b' ' [])
  on_blank-words (c ∷ out) = ground (arith, words-cons b' ' (c ∷ out))

  on_period-words :
      (out : Bytes)
      → Tidy (with_out s out)
      → Yields
          (λ t. (words t.out ≡ words out) × (t.inhtml ≡ s.inhtml))
          (on_period len (with_out s out))
  unfolding on_period is_word
  on_period-words [] v = ground (arith, words-cons b'.' [])
  on_period-words (c ∷ out) v = ground (arith, words-cons b'.' (c ∷ out), words-cons b'.' out)

  on_semicolon-words :
      (u : Utf8) (html : Bytes) (i : ℕ) (out : Bytes)
      → Tidy (with_out s out)
      → Yields
          (λ t. (words t.out ≡ words out) × (t.inhtml ≡ s.inhtml))
          (on_semicolon u len html i (with_out s out))
  unfolding on_semicolon is_word
  on_semicolon-words u html i out v = ground (arith, words-cons b';' out)

  on_other-words :
      (c : ℕ) (out : Bytes)
      → Tidy (with_out s out)
      → Yields
          (λ t. (words t.out ≡ words (c ∷ out)) × (t.inhtml ≡ s.inhtml))
          (on_other len c (with_out s out))
  unfolding on_other
  on_other-words c out v = ground arith

-- What one round makes of the kept words.
abbrev hidden : ℕ → Bool → Bool
hidden c inside = c == b'<' || (c == b'>' || inside)

abbrev tag_after : ℕ → Bool → Bool
tag_after c inside = if c == b'<' then true else if c == b'>' then false else inside

record Round (c : ℕ) (inside : Bool) (out : Bytes) (t : Strip) : Type 0 where
  kept : words t.out ≡ (if hidden c inside then words out else words (c ∷ out))
  tag : t.inhtml ≡ tag_after c inside

Yields-map :
    {A : Type 0} (P Q : A → Type 0) (m : Result A) → Yields P m → ((a : A) → P a → Q a) → Yields Q m
Yields-map P Q (ok a) h k = k a h
Yields-map P Q (fault _) h k = tt

Yields-and :
    {A : Type 0} (P Q : A → Type 0) (m : Result A)
    → Yields P m
    → Yields Q m
    → Yields (λ a. P a × Q a) m
Yields-and P Q (ok a) h k = (h, k)
Yields-and P Q (fault _) h k = tt

blank_words : (c : ℕ) (out : Bytes) → is_word c ≡ false → words (c ∷ out) ≡ words out
unfolding words
blank_words c out h = rw h

module _ (u : Utf8) (len : ℕ) (html : Bytes) (i c : ℕ) (s : Strip) where
  shown-words :
      Tidy s
      → Yields
          (λ t. (words t.out ≡ words (c ∷ s.out)) × (t.inhtml ≡ s.inhtml))
          (if c == b';'
            then on_semicolon u len html i s
            else if c == b' ' || (c == b'\n' || c == b'\r')
            then on_blank len s
            else if c == b'.'
            then on_period len s
            else on_other len c s)
  unfolding is_word
  shown-words v = elim (Bool-cases (c == b';')) [
    | inl e ↦
        rw e (rw (blank_words c s.out (ground arith)) (on_semicolon-words len s u html i s.out v))
    | inr semicolon ↦ rw semicolon (elim (Bool-cases (c == b' ' || (c == b'\n' || c == b'\r'))) [
      | inl e ↦ rw e (rw (blank_words c s.out (ground arith)) (on_blank-words len s s.out))
      | inr blank ↦ rw blank (elim (Bool-cases (c == b'.')) [
        | inl e ↦ rw e (rw (blank_words c s.out (ground arith)) (on_period-words len s s.out v))
        | inr period ↦ rw period (on_other-words len s c s.out v)
      ])
    ])
  ]

  step-words : c ≢ b'&' → Tidy s → Yields (Round c s.inhtml s.out) (step u len html i c s)
  unfolding step
  step-words amp v = elim (Bool-cases (c == b'<')) [
    | inl e ↦ rw e (record { kept = rw e refl; tag = rw e refl })
    | inr lt ↦ rw lt (elim (Bool-cases (c == b'>')) [
      | inl e ↦ rw e (record { kept = rw (lt, e) refl; tag = rw (lt, e) refl })
      | inr gt ↦ rw gt (elim (Bool-cases s.inhtml) [
        | inl e ↦ simp e (record { kept = ground arith; tag = ground arith })
        | inr shown ↦
            simp (shown, ne→==_false c b'&' amp)
              (Yields-map _ (Round c false s.out) _ (shown-words v)
                λ t (kept, tag). record { kept = ground arith; tag = ground arith })
      ])
    ])
  ]

reversed_words : (a b : Bytes) → words (reverse_aux a b) ≡ reverse_aux (words a) (words b)
unfolding words
reversed_words [] b = refl
reversed_words (c ∷ a) b = elim (Bool-cases (is_word c)) [
  | inl word ↦ reversed_words a (c ∷ b) ∙ rw word refl
  | inr other ↦ reversed_words a (c ∷ b) ∙ rw other refl
]

-- One round, seen from the text that is still to come.
Round-words :
    (c : ℕ) (cs : Bytes) (s t : Strip)
    → Round c s.inhtml s.out t
    → reverse_aux (words t.out) (words (outside_tags t.inhtml cs))
      ≡ reverse_aux (words s.out) (words (outside_tags s.inhtml (c ∷ cs)))
unfolding outside_tags
Round-words c cs s t r =
    rw (r.tag, r.kept)
      (elim (Bool-cases (hidden c s.inhtml)) [
        | inl e ↦ rw e refl
        | inr shown ↦ rw shown (elim (Bool-cases (is_word c)) [
          | inl word ↦ rw (words-cons, word) (rw (words-cons, word) refl)
          | inr other ↦ rw (words-cons, other) (rw (words-cons, other) refl)
        ])
      ])

module _ (u : Utf8) (len : ℕ) (html : Bytes) where
  strip_loop-words :
      (i : ℕ) (cs : Bytes) (s : Strip)
      → NoEntity cs
      → IsText cs
      → i + length cs ≤ len
      → Tidy s
      → Yields
          (λ t.
            words (reverse t.out) ≡ reverse_aux (words s.out) (words (outside_tags s.inhtml cs)))
          (strip_loop u len html i cs s)
  unfolding strip_loop
  strip_loop-words i [] s pure text room v = unfold outside_tags in reversed_words s.out []
  strip_loop-words i (c ∷ cs) s pure text room v =
      let go : (ltb i len && not (c == 0)) ≡ true = ground (arith, text.0) in
      let both =
        Yields-and Tidy (Round c s.inhtml s.out) (step u len html i c s)
          (step-Tidy u len html i c s pure.0 (ground (arith, text.0)) v)
          (step-words u len html i c s pure.0 v) in
      rw go (
        Yields-bind _ _ (step u len html i c s) _ both λ t (w, r).
          Yields-map _ _ (strip_loop u len html (i + 1) cs t)
            (strip_loop-words (i + 1) cs t pure.1 text.1 (omega arith) w)
            λ z e. e ∙ Round-words c cs s t r)

-- On a text with no '&' and of at most `len` bytes, `strip_html` drops nothing but tags, blanks,
-- periods and semicolons: the ordinary bytes of what it returns are those outside the tags.
pub strip_html-words :
    (u : Utf8) (len : ℕ) (html : Bytes) (r : ℕ × Bytes)
    → NoEntity html
    → IsText html
    → length html ≤ len
    → strip_html u len html ≡ ok r
    → words r.1 ≡ words (outside_tags false html)
unfolding strip_html
strip_html-words u len html r pure nonzero room run =
    Yields-ok (λ (r : ℕ × Bytes). words r.1 ≡ words (outside_tags false html)) _ r run
      (Yields-bind _ _ (strip_loop u len html 0 html initial) _
        (Yields-and _ _ (strip_loop u len html 0 html initial)
          (strip_loop-Tidy u len html 0 html initial pure initial-Tidy)
          (strip_loop-words u len html 0 html initial pure nonzero (omega arith) initial-Tidy))
        λ s (v, e). rw (until_nul-reverse s v) (unfold words in e))
