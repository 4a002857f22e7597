-- ===== src/Handy/Strip/Names.antt =====
-- The stretch of a text in which `strip_html` reads the name of an entity.
use gnugol.Base.{
  ℕ, zero, suc, ◌+◌, ◌-◌, ◌≤◌, ◌<◌, ◌≡◌, refl, ap, sym, ◌∙◌, subst, Bool, true, false, not, ◌&&◌,
  ◌||◌, Option, none, some, [], ◌∷◌, ◌++◌, leb, ◌==◌, if◌then◌else◌, arith, Bytes, length, take,
  drop, get_elem?, Result, ok, fault, Bool-cases, inl, inr, After, After-next,
}
use gnugol.Handy.Entities.{Utf8, substitute_utf8}
use gnugol.Handy.Strip.{
  Strip, push, pop_onto, slice, on_blank, on_period, on_other, room, end_entity, on_semicolon, step,
}

-- Whether a tag is open behind a byte.
unfoldable pub tag_step : Bool → ℕ → Bool
tag_step tag c = if c == b'<' then true else if c == b'>' then false else tag

unfoldable pub tag_after : Bool → Bytes → Bool
tag_after tag [] = tag
tag_after tag (c ∷ cs) = tag_after (tag_step tag c) cs

-- Outside a tag these end an entity, or begin another.
unfoldable pub ends_name : ℕ → Bool
ends_name c = c == b'&' || (c == b';' || (c == b' ' || (c == b'\n' || c == b'\r')))

-- Behind an '&': whether a tag is open, or `none` where the entity was ended.
unfoldable pub name_step : Option Bool → ℕ → Option Bool
name_step none c = none
name_step (some tag) c =
    if not (c == b'<' || c == b'>') && (not tag && ends_name c) then none else some (tag_step tag c)

unfoldable pub name_scan : Option Bool → Bytes → Option Bool
name_scan tag [] = tag
name_scan tag (c ∷ cs) = name_scan (name_step tag c) cs

tag_after-snoc :
    (cs : Bytes) (tag : Bool) (c : ℕ) → tag_after tag (cs ++ c ∷ []) ≡ tag_step (tag_after tag cs) c
unfolding tag_after
tag_after-snoc [] tag c = refl
tag_after-snoc (d ∷ cs) tag c = tag_after-snoc cs (tag_step tag d) c

name_scan-snoc :
    (cs : Bytes) (tag : Option Bool) (c : ℕ)
    → name_scan tag (cs ++ c ∷ []) ≡ name_step (name_scan tag cs) c
unfolding name_scan
name_scan-snoc [] tag c = refl
name_scan-snoc (d ∷ cs) tag c = name_scan-snoc cs (name_step tag d) c

take-snoc : (xs : Bytes) (n c : ℕ) → get_elem? xs n ≡ some c → take (suc n) xs ≡ take n xs ++ c ∷ []
take-snoc [] n c h = cc
take-snoc (x ∷ xs) zero c h = ground arith
take-snoc (x ∷ xs) (suc n) c h = ap (x ∷◌) (take-snoc xs n c h)

get_elem?-drop : (xs : Bytes) (p n : ℕ) → get_elem? (drop p xs) n ≡ get_elem? xs (p + n)
get_elem?-drop xs zero n = let same : n ≡ 0 + n = omega arith in ap (get_elem? xs) same
get_elem?-drop [] (suc p) n = refl
get_elem?-drop (x ∷ xs) (suc p) n =
    let same : suc (p + n) ≡ suc p + n = omega arith in
    get_elem?-drop xs p n ∙ ap (get_elem? (x ∷ xs)) same

slice-snoc :
    (html : Bytes) (p i c : ℕ)
    → p ≤ i
    → get_elem? html i ≡ some c
    → slice html p (i + 1) ≡ slice html p i ++ c ∷ []
slice-snoc html p i c le here =
    let at : get_elem? (drop p html) (i - p) ≡ some c =
      (let there : i ≡ p + (i - p) = omega arith in
        get_elem?-drop html p (i - p) ∙ subst (λ k. get_elem? html k ≡ some c) there here) in
    let longer : suc (i - p) ≡ i + 1 - p = omega arith in
    subst (λ k. take k (drop p html) ≡ slice html p i ++ c ∷ []) longer
      (take-snoc (drop p html) (i - p) c at)

-- What is kept of the text read up to `htmlstr[i]`: whether a tag is open, and that the bytes behind
-- the '&' of an entity are a name.
pub record Named (html : Bytes) (i : ℕ) (s : Strip) : Type 0 where
  pub tags : tag_after false (take i html) ≡ s.inhtml
  pub begun : s.inentity ≡ true → tag_after false (take s.entitypos html) ≡ false
  pub named :
      s.inentity ≡ true → name_scan (some false) (slice html (suc s.entitypos) i) ≡ some s.inhtml

-- A step that leaves the tag and the entity alone, or ends the entity.
record Same (s t : Strip) : Type 0 where
  tag : t.inhtml ≡ s.inhtml
  entity : t.inentity ≡ s.inentity
  start : t.entitypos ≡ s.entitypos

record Ended (s t : Strip) : Type 0 where
  tag : t.inhtml ≡ s.inhtml
  entity : t.inentity ≡ false

on_blank-Ended : (len : ℕ) (s : Strip) → After (Ended s) (on_blank len s)
unfolding on_blank push
on_blank-Ended len s = ground arith

on_period-Same : (len : ℕ) (s : Strip) → After (Same s) (on_period len s)
unfolding on_period push pop_onto
on_period-Same len s = ground arith

on_other-Same : (len c : ℕ) (s : Strip) → After (Same s) (on_other len c s)
unfolding on_other push
on_other-Same len c s = ground arith

end_entity-Ended :
    (u : Utf8) (len : ℕ) (html : Bytes) (i : ℕ) (s : Strip)
    → After (Ended s) (end_entity u len html i s)
unfolding end_entity
end_entity-Ended u len html i s = elim (Bool-cases (leb 12 (i - s.entitypos))) [
  | inl far ↦ rw far tt
  | inr near ↦ rw near (
      After-next (Ended s) (substitute_utf8 u (room len (length s.out)) (slice html s.entitypos i))
        _
        λ bytes. elim (Bool-cases (leb (length s.out + length bytes) len)) [
          | inl fits ↦ rw fits (record { tag = refl; entity = refl })
          | inr over ↦ rw over tt
        ])
]

on_semicolon-Ended :
    (u : Utf8) (len : ℕ) (html : Bytes) (i : ℕ) (s : Strip)
    → (s.inentity ≡ true → s.isspace ≡ false)
    → (s.inentity ≡ true → s.inperiod ≡ 0)
    → After (Ended s) (on_semicolon u len html i s)
unfolding on_semicolon push
on_semicolon-Ended u len html i s calm still = elim (Bool-cases s.inentity) [
  | inl inside ↦ simp (calm inside, still inside, inside) (end_entity-Ended u len html i s)
  | inr outside ↦ ground arith
]

module _ (html : Bytes) (i c : ℕ) (s : Strip) (here : get_elem? html i ≡ some c)
    (v : Named html i s) where
  next_tag :
      (t : Strip) → t.inhtml ≡ tag_step s.inhtml c → tag_after false (take (i + 1) html) ≡ t.inhtml
  next_tag t h =
      let one : suc i ≡ i + 1 = omega arith in
      subst (λ k. tag_after false (take k html) ≡ t.inhtml) one
        (ap (tag_after false) (take-snoc html i c here)
          ∙ tag_after-snoc (take i html) false c
          ∙ ap (λ b. tag_step b c) v.tags
          ∙ sym h)

  -- The entity goes on.
  goes_on-Named :
      (t : Strip)
      → t.inhtml ≡ tag_step s.inhtml c
      → t.inentity ≡ s.inentity
      → t.entitypos ≡ s.entitypos
      → (s.inentity ≡ true → s.entitypos < i)
      → name_step (some s.inhtml) c ≡ some t.inhtml
      → Named html (i + 1) t
  goes_on-Named t tag entity start opened named = record {
    tags = next_tag t tag;
    begun = λ inside. ap (λ p. tag_after false (take p html)) start ∙ v.begun (sym entity ∙ inside);
    named = λ inside.
        let within : s.inentity ≡ true = sym entity ∙ inside in
        ap (λ p. name_scan (some false) (slice html (suc p) (i + 1))) start
        ∙ ap (name_scan (some false))
            (slice-snoc html (suc s.entitypos) i c (omega (arith, opened within)) here)
        ∙ name_scan-snoc (slice html (suc s.entitypos) i) (some false) c
        ∙ ap (λ n. name_step n c) (v.named within)
        ∙ named;
  }

  ended-Named :
      (t : Strip) → t.inhtml ≡ tag_step s.inhtml c → t.inentity ≡ false → Named html (i + 1) t
  ended-Named t tag ended = record {
    tags = next_tag t tag;
    begun = λ inside. let no = sym ended ∙ inside in cc;
    named = λ inside. let no = sym ended ∙ inside in cc;
  }

  begins-Named :
      (t : Strip)
      → t.inhtml ≡ tag_step s.inhtml c
      → t.entitypos ≡ i
      → s.inhtml ≡ false
      → t.inhtml ≡ false
      → Named html (i + 1) t
  begins-Named t tag start outside still = record {
    tags = next_tag t tag;
    begun = λ inside. ap (λ p. tag_after false (take p html)) start ∙ v.tags ∙ outside;
    named = λ inside.
        ap (λ p. name_scan (some false) (slice html (suc p) (i + 1))) start
        ∙ ap (λ n. name_scan (some false) (take n (drop (suc i) html)))
            (let none_left : i + 1 - suc i ≡ 0 = omega arith in none_left)
        ∙ unfold name_scan in ap some (sym still);
  }

  -- What ends the entity, and what leaves it alone.
  After-Ended :
      (m : Result Strip)
      → tag_step s.inhtml c ≡ s.inhtml
      → After (Ended s) m
      → After (Named html (i + 1)) m
  After-Ended (fault why) keeps h = tt
  After-Ended (ok t) keeps h = ended-Named t (h.tag ∙ sym keeps) h.entity

  After-Same :
      (m : Result Strip)
      → tag_step s.inhtml c ≡ s.inhtml
      → (s.inentity ≡ true → s.entitypos < i)
      → name_step (some s.inhtml) c ≡ some s.inhtml
      → After (Same s) m
      → After (Named html (i + 1)) m
  After-Same (fault why) keeps opened named h = tt
  After-Same (ok t) keeps opened named h =
      goes_on-Named t (h.tag ∙ sym keeps) h.entity h.start opened (named ∙ ap some (sym h.tag))

  outside-Named :
      (u : Utf8) (len : ℕ)
      → (s.inentity ≡ true → s.isspace ≡ false)
      → (s.inentity ≡ true → s.inperiod ≡ 0)
      → (s.inentity ≡ true → s.entitypos < i)
      → tag_step s.inhtml c ≡ s.inhtml
      → (c == b'<') ≡ false
      → (c == b'>') ≡ false
      → After (Named html (i + 1)) (step u len html i c s)
  unfolding step
  outside-Named u len calm still opened keeps no_open no_close = elim (Bool-cases s.inhtml) [
    | inl tag ↦
        simp (no_open, no_close, tag)
          (goes_on-Named s (sym keeps) refl refl opened
            (unfold name_step tag_step in rw (no_open, no_close, tag) refl))
    | inr shown ↦ elim (Bool-cases (c == b'&')) [
      | inl begins ↦
          simp (no_open, no_close, shown, begins)
            (begins-Named
              (record s {
                isspace = false;
                inhtml = false;
                inperiod = 0;
                inentity = true;
                entitypos = i;
              })
              (sym shown ∙ sym keeps) refl shown refl)
      | inr no_begin ↦ elim (Bool-cases (c == b';')) [
        | inl ends ↦
            simp (no_open, no_close, shown, no_begin, ends)
              (After-Ended (on_semicolon u len html i s) keeps
                (on_semicolon-Ended u len html i s calm still))
        | inr no_end ↦ elim (Bool-cases (c == b' ' || (c == b'\n' || c == b'\r'))) [
          | inl blank ↦
              simp (no_open, no_close, shown, no_begin, no_end, blank)
                (After-Ended (on_blank len s) keeps (on_blank-Ended len s))
          | inr no_blank ↦
              let named : name_step (some s.inhtml) c ≡ some s.inhtml =
                unfold name_step tag_step ends_name in
                rw (no_open, no_close, shown, no_begin, no_end, no_blank) refl in
              elim (Bool-cases (c == b'.')) [
                | inl dot ↦
                    simp (no_open, no_close, shown, no_begin, no_end, no_blank, dot)
                      (After-Same (on_period len s) keeps opened named (on_period-Same len s))
                | inr no_dot ↦
                    simp (no_open, no_close, shown, no_begin, no_end, no_blank, no_dot)
                      (After-Same (on_other len c s) keeps opened named (on_other-Same len c s))
              ]
        ]
      ]
    ]
  ]

  pub step-Named :
      (u : Utf8) (len : ℕ)
      → (s.inentity ≡ true → s.isspace ≡ false)
      → (s.inentity ≡ true → s.inperiod ≡ 0)
      → (s.inentity ≡ true → s.entitypos < i)
      → After (Named html (i + 1)) (step u len html i c s)
  step-Named u len calm still opened = elim (Bool-cases (c == b'<')) [
    | inl opens ↦
        unfold step in
        rw opens (
          goes_on-Named (record s { inhtml = true }) (unfold tag_step in ground arith) refl refl
            opened (unfold name_step tag_step in ground arith))
    | inr no_open ↦ elim (Bool-cases (c == b'>')) [
      | inl closes ↦
          unfold step in
          rw (no_open, closes)
            (goes_on-Named (record s { inhtml = false }) (unfold tag_step in ground arith) refl refl
              opened (unfold name_step tag_step in ground arith))
      | inr no_close ↦
          let keeps : tag_step s.inhtml c ≡ s.inhtml =
            unfold tag_step in rw (no_open, no_close) refl in
          outside-Named u len calm still opened keeps no_open no_close
    ]
  ]
