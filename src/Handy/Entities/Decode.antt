-- ===== src/Handy/Entities/Decode.antt =====
-- `substitute_utf8` decodes each entity of the table, and writes '?' for any other name.
use gnugol.Base.{
  ℕ, ◌≤◌, ◌≡◌, ◌≢◌, refl, sym, ap, Bool, true, false, not, ◌&&◌, some, [], ◌∷◌, ◌++◌, ltb, ◌==◌,
  if◌then◌else◌, arith, Bytes, All, length, get_elem?, get_elem?-All, Option-cases, ok, inl, inr,
}
use gnugol.Clib.Search.{strcmp, bsearch, bsearch_sound, strcmp-eq}
use gnugol.Handy.Entities.Rows.{all_rows, all_rows_sound}
use gnugol.Handy.Entities.{
  EntityMap, emap, Utf8, entity_cmp, named_value, entity_value, chop_semicolon, substitute_utf8,
}

no_semicolon : Bytes → Bool
no_semicolon [] = true
no_semicolon (c ∷ cs) = not (c == b';') && no_semicolon cs

abbrev Decodes : EntityMap → Type 0
Decodes e = (entity_value e.entity ≡ e.utf8) × (no_semicolon e.entity ≡ true)

decodes : EntityMap → Bool
decodes e = entity_value e.entity == e.utf8 && no_semicolon e.entity

emap_decodes : all_rows decodes emap ≡ true
unfolding all_rows emap decodes entity_value strcmp no_semicolon
emap_decodes = refl

emap-Decodes : All Decodes emap
emap-Decodes = all_rows_sound Decodes decodes sound emap emap_decodes
  where
    sound : (e : EntityMap) → decodes e ≡ true → Decodes e
    sound e h = unfold decodes in (ground arith, ground arith)

chop_semicolon_none : (name : Bytes) → no_semicolon name ≡ true → chop_semicolon name ≡ name
unfolding chop_semicolon no_semicolon
chop_semicolon_none [] h = refl
chop_semicolon_none (c ∷ []) h = ground arith
chop_semicolon_none (c ∷ d ∷ cs) h =
    let rest : no_semicolon (d ∷ cs) ≡ true = ground arith in
    ap (c ∷◌) (chop_semicolon_none (d ∷ cs) rest)

chop_semicolon-append : (name : Bytes) → chop_semicolon (name ++ b';' ∷ []) ≡ name
unfolding chop_semicolon
chop_semicolon-append [] = refl
chop_semicolon-append (c ∷ []) = refl
chop_semicolon-append (c ∷ d ∷ cs) = ap (c ∷◌) (chop_semicolon-append (d ∷ cs))

-- With room for four bytes and a NUL, each row's name is replaced by the character of its code
-- point, with its closing ';' or without.
pub substitute_utf8-emap :
    (u : Utf8) (lenstr i : ℕ) (e : EntityMap)
    → get_elem? emap i ≡ some e
    → 5 ≤ lenstr
    → (substitute_utf8 u lenstr (b'&' ∷ e.entity) ≡ ok (u.u8_wc_toutf8 e.utf8))
      × (substitute_utf8 u lenstr (b'&' ∷ e.entity ++ b';' ∷ []) ≡ ok (u.u8_wc_toutf8 e.utf8))
unfolding substitute_utf8
substitute_utf8-emap u lenstr i e row room =
    let (value, plain) = get_elem?-All Decodes emap i e emap-Decodes row in
    let enough : ltb lenstr 5 ≡ false = ground arith in
    (
      rw (enough, chop_semicolon_none e.entity plain, value) refl,
      rw (enough, chop_semicolon-append e.entity, value) refl,
    )

named_value_unknown : (name : Bytes) → All (λ e. e.entity ≢ name) emap → named_value name ≡ b'?'
unfolding named_value entity_cmp
named_value_unknown name absent =
    elim (Option-cases (bsearch (entity_cmp name) emap (length emap))) [
      | inl missing ↦ rw (missing, named_value) refl
      | inr (e, found) ↦
          let (other, same) =
            bsearch_sound (λ e. e.entity ≢ name) (entity_cmp name) emap (length emap) e absent
              found in
          absurd (other (sym (strcmp-eq name e.entity same)))
    ]

-- Any other name that does not begin with '#' is replaced by a question mark, where there is room
-- for four bytes and a NUL, and else by nothing.
substitute_utf8_unknown :
    (u : Utf8) (lenstr c : ℕ) (cs : Bytes)
    → All (λ e. e.entity ≢ c ∷ cs) emap
    → c ≢ b'#'
    → substitute_utf8 u lenstr (b'&' ∷ (c ∷ cs) ++ b';' ∷ [])
      ≡ ok (if ltb lenstr 5 then [] else u.u8_wc_toutf8 b'?')
unfolding substitute_utf8 entity_value
substitute_utf8_unknown u lenstr c cs absent ne =
    rw (chop_semicolon-append (c ∷ cs)) (ground (arith, named_value_unknown (c ∷ cs) absent))
