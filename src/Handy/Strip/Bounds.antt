-- ===== src/Handy/Strip/Bounds.antt =====
-- The memory safety of `strip_html`: what bounds its writes, and the one write that nothing bounds.
use gnugol.Base.{
  ap, ◌∙◌, After, ℕ, suc, zero, ◌+◌, ◌-◌, ◌≤◌, ◌<◌, ◌≡◌, refl, true, false, some, [], ◌∷◌, ◌++◌,
  leb, ltb, ◌==◌, if◌then◌else◌, arith, Bytes, length, take, drop, get_elem?, reverse, length-take,
  length-append, length-reverse, length-until_nul, Result, ok, fault, overrun, underrun, bad_read,
  assertion, ◌>>=◌, Bool-cases, inl, inr,
}
use native.Mathlib.Numerals.{add-one}
use mathlib.Core.Bool.{not, ◌&&◌}
use gnugol.Handy.Entities.{Utf8}
use gnugol.Handy.Entities.Width.{substitute_utf8-bounded}
use gnugol.Handy.Strip.Names.{tag_after, name_scan, Named, step-Named}
use gnugol.Handy.Strip.{
  slice, Strip, initial, on_blank, on_period, on_other, room as room_for, end_entity, on_semicolon,
  step, strip_loop, strip_html,
}

-- An entity of twelve or more bytes within the first `len`: an '&' outside every tag, and a ';' outside
-- every tag twelve or more bytes behind it, with nothing between them, outside tags, that ends an
-- entity or begins another.
pub record LongEntity (len : ℕ) (html : Bytes) : Type 0 where
  pub from : ℕ
  pub to : ℕ
  pub ampersand : get_elem? html from ≡ some b'&'
  pub semicolon : get_elem? html to ≡ some b';'
  pub far : from + 12 ≤ to
  pub within : to < len
  pub shown : tag_after false (take from html) ≡ false
  pub name : name_scan (some false) (slice html (suc from) to) ≡ some false

-- What the loop keeps between rounds, at `htmlstr[i]`.
record Inv (html : Bytes) (i : ℕ) (s : Strip) : Type 0 where
  behind : length s.out ≤ i
  dotted : s.inperiod ≡ 1 → 0 < length s.out
  unspaced : s.inentity ≡ true → s.isspace ≡ false
  undotted : s.inentity ≡ true → s.inperiod ≡ 0
  before : s.inentity ≡ true → length s.out ≤ s.entitypos
  opened : s.inentity ≡ true → s.entitypos < i
  marked : s.inentity ≡ true → get_elem? html s.entitypos ≡ some b'&'

-- A step either keeps `P`, or writes past `entity` because of a long entity.
abbrev pub Outcome : {A : Type 0} → ℕ → Bytes → (A → Type 0) → Result A → Type 0
Outcome len html P (ok t) = P t
Outcome len html P (fault overrun) = LongEntity len html
Outcome len html P (fault _) = ⊥

Outcome-bind :
    {A B : Type 0} (len : ℕ) (html : Bytes) (P : A → Type 0) (Q : B → Type 0) (m : Result A)
    (f : A → Result B)
    → Outcome len html P m
    → ((a : A) → P a → Outcome len html Q (f a))
    → Outcome len html Q (m >>= f)
Outcome-bind len html P Q (ok a) f h k = k a h
Outcome-bind len html P Q (fault overrun) f h k = h
Outcome-bind len html P Q (fault underrun) f h k = absurd h
Outcome-bind len html P Q (fault bad_read) f h k = absurd h
Outcome-bind len html P Q (fault assertion) f h k = absurd h

slice_head :
    (html : Bytes) (p n a : ℕ)
    → get_elem? html p ≡ some a
    → take (suc n) (drop p html) ≡ a ∷ take n (drop (suc p) html)
slice_head [] p n a h = cc
slice_head (x ∷ xs) zero n a h = ground arith
slice_head (x ∷ xs) (suc p) n a h = slice_head xs p n a h

module _ (len : ℕ) (html : Bytes) (i : ℕ) (s : Strip) (v : Inv html i s) (room : i < len) where
  on_blank-Inv : Outcome len html (Inv html (i + 1)) (on_blank len s)
  unfolding on_blank
  on_blank-Inv = ground arith

  on_period-Inv : Outcome len html (Inv html (i + 1)) (on_period len s)
  unfolding on_period
  on_period-Inv = ground arith

  on_other-Inv : (c : ℕ) → Outcome len html (Inv html (i + 1)) (on_other len c s)
  unfolding on_other
  on_other-Inv c = ground arith

  -- The decoded bytes fit behind `out`, where the entity stood.
  decoded-Inv :
      (n : ℕ) (bytes : Bytes)
      → s.inentity ≡ true
      → i ≡ s.entitypos + suc n
      → length bytes ≤ n + 2
      → Outcome len html (Inv html (i + 1)) (
          if leb (length s.out + length bytes) len
          then ok (record s { out = reverse bytes ++ s.out; inentity = false })
          else fault overrun)
  decoded-Inv n bytes inside gap width = ground (
    arith,
    v.before inside,
    v.undotted inside,
    length-append (reverse bytes) s.out,
    length-reverse bytes,
  )

  end_entity-Inv :
      (u : Utf8)
      → get_elem? html i ≡ some b';'
      → s.inentity ≡ true
      → s.inhtml ≡ false
      → Named html i s
      → Outcome len html (Inv html (i + 1)) (end_entity u len html i s)
  unfolding end_entity
  end_entity-Inv u here inside shown named = elim (Bool-cases (leb 12 (i - s.entitypos))) [
    | inl far ↦ rw far (record {
      from = s.entitypos;
      to = i;
      ampersand = v.marked inside;
      semicolon = here;
      far = ground (arith, v.opened inside);
      within = room;
      shown = named.begun inside;
      name = named.named inside ∙ ap some shown;
    })
    | inr near ↦
        let n : ℕ = i - s.entitypos - 1 in
        let gap : i - s.entitypos ≡ suc n = ground (arith, v.opened inside) in
        let name = take n (drop (suc s.entitypos) html) in
        let (bytes, written, width) =
          substitute_utf8-bounded u (room_for len (length s.out)) name in
        rw near (
          rw gap (
            rw (slice_head html s.entitypos n b'&' (v.marked inside)) (
              rw written (
                decoded-Inv n bytes inside (ground (arith, v.opened inside))
                  (omega (arith, length-take n (drop (suc s.entitypos) html)))))))
  ]

  on_semicolon-Inv :
      (u : Utf8)
      → get_elem? html i ≡ some b';'
      → s.inhtml ≡ false
      → Named html i s
      → Outcome len html (Inv html (i + 1)) (on_semicolon u len html i s)
  unfolding on_semicolon
  on_semicolon-Inv u here shown named = elim (Bool-cases s.inentity) [
    | inl inside ↦
        simp (v.unspaced inside, v.undotted inside, inside)
          (end_entity-Inv u here inside shown named)
    | inr outside ↦ ground arith
  ]

  step-Inv :
      (u : Utf8) (c : ℕ)
      → get_elem? html i ≡ some c
      → Named html i s
      → Outcome len html (Inv html (i + 1)) (step u len html i c s)
  unfolding step
  step-Inv u c here named =
      ground (arith, on_semicolon-Inv u, on_blank-Inv, on_period-Inv, on_other-Inv c)

-- Both invariants after a step.
abbrev Both : Bytes → ℕ → Strip → Type 0
Both html i s = Inv html i s × Named html i s

Outcome-Both :
    (len : ℕ) (html : Bytes) (i : ℕ) (m : Result Strip)
    → Outcome len html (Inv html i) m
    → After (Named html i) m
    → Outcome len html (Both html i) m
Outcome-Both len html i (ok t) h k = (h, k)
Outcome-Both len html i (fault overrun) h k = h
Outcome-Both len html i (fault underrun) h k = h
Outcome-Both len html i (fault bad_read) h k = h
Outcome-Both len html i (fault assertion) h k = h

get_elem?_of_drop :
    (html : Bytes) (i c : ℕ) (cs : Bytes)
    → drop i html ≡ c ∷ cs
    → (get_elem? html i ≡ some c) × (drop (suc i) html ≡ cs)
get_elem?_of_drop [] zero c cs h = ground arith
get_elem?_of_drop [] (suc i) c cs h = ground arith
get_elem?_of_drop (x ∷ xs) zero c cs h = ground arith
get_elem?_of_drop (x ∷ xs) (suc i) c cs h = get_elem?_of_drop xs i c cs h

-- The loop has written at most as many bytes as it has read.
abbrev Bounded : ℕ → Bytes → Strip → Type 0
Bounded len html s = (length s.out ≤ len) × (length s.out ≤ length html)

strip_loop-Bounded :
    (u : Utf8) (len : ℕ) (html : Bytes) (i : ℕ) (cs : Bytes) (s : Strip)
    → drop i html ≡ cs
    → i + length cs ≡ length html
    → i ≤ len
    → Both html i s
    → Outcome len html (Bounded len html) (strip_loop u len html i cs s)
unfolding strip_loop
strip_loop-Bounded u len html i [] s rest size within v = (omega arith, omega arith)
strip_loop-Bounded u len html i (c ∷ cs) s rest size within v =
    let (here, next) = get_elem?_of_drop html i c cs rest in
    elim (Bool-cases (ltb i len && not (c == 0))) [
      | inr stop ↦ rw stop (omega arith, omega arith)
      | inl go ↦ rw go (
          Outcome-bind len html (Both html (i + 1)) (Bounded len html) (step u len html i c s) _
            (Outcome-Both len html (i + 1) (step u len html i c s)
              (step-Inv len html i s v.0 (ground arith) u c here v.1)
              (step-Named html i c s here v.1 u len v.0.unspaced v.0.undotted v.0.opened))
            λ t w.
              strip_loop-Bounded u len html (i + 1) cs t (rw add-one next) (omega arith)
                (ground arith) w)
    ]

-- `strip_html` returns a length and a text within `len` and within the text that it was given; or it
-- writes past the end of an array, and then the first `len` bytes of the text hold a long entity: an
-- '&' and, twelve or more bytes behind it, a ';', both outside every tag, with no '&', ';', blank,
-- newline or carriage return outside a tag between them.
pub strip_html-bounded :
    (u : Utf8) (len : ℕ) (html : Bytes)
    → Outcome len html
        (λ r. (r.0 ≤ len) × (r.0 ≤ length html) × (length r.1 ≤ r.0))
        (strip_html u len html)
unfolding strip_html
strip_html-bounded u len html =
    Outcome-bind len html (Bounded len html) _ (strip_loop u len html 0 html initial) _
      (strip_loop-Bounded u len html 0 html initial refl (omega arith) (omega arith) start)
      λ s (within, behind).
        (within, behind, omega (arith, length-until_nul (reverse s.out), length-reverse s.out))
  where
    start : Both html 0 initial
    start = (
      ground arith,
      record { tags = unfold tag_after in refl; begun = λ inside. cc; named = λ inside. cc },
    )
