-- ===== src/Handy/Entities/Width.antt =====
-- How many bytes `substitute_utf8` writes, against the length of the entity that it replaces.
use gnugol.Base.{
  ℕ, ◌+◌, ◌≤◌, ◌≡◌, refl, true, some, [], ◌∷◌, leb, ltb, arith, Bytes, All, length, Option-cases,
  ok, inl, inr, ◌%◌, ◌^◌, if◌then◌else◌,
}
use gnugol.Clib.Search.{bsearch, bsearch_sound, strcmp-eq}
use gnugol.Clib.Number.{strtoul}
use gnugol.Handy.Entities.Rows.{all_rows, all_rows_sound}
use gnugol.Handy.Entities.{
  EntityMap, emap, Utf8, utf8_width, entity_cmp, named_value, entity_value, chop_semicolon,
  substitute_utf8,
}

-- A row's character takes no more bytes than its name, '&' and ';'.
abbrev Narrow : EntityMap → Type 0
Narrow e = utf8_width e.utf8 ≤ length e.entity + 2

emap_rows : all_rows (λ e. leb (utf8_width e.utf8) (length e.entity + 2)) emap ≡ true
unfolding all_rows emap
emap_rows = refl

emap-Narrow : All Narrow emap
emap-Narrow = all_rows_sound Narrow _ (λ e h. ground arith) emap emap_rows

found_row :
    (name : Bytes) (e : EntityMap)
    → bsearch (entity_cmp name) emap (length emap) ≡ some e
    → utf8_width e.utf8 ≤ length name + 2
unfolding entity_cmp
found_row name e found =
    let (narrow, same) =
      bsearch_sound Narrow (entity_cmp name) emap (length emap) e emap-Narrow found in
    rw (strcmp-eq name e.entity same) narrow

named_value-Narrow : (name : Bytes) → utf8_width (named_value name) ≤ length name + 2
unfolding named_value
named_value-Narrow name = elim (Option-cases (bsearch (entity_cmp name) emap (length emap))) [
  | inl missing ↦ rw (missing, named_value) (omega arith)
  | inr (e, found) ↦ rw (found, named_value) (found_row name e found)
]

width-le-four : (ch : ℕ) → utf8_width ch ≤ 4
width-le-four ch = ground arith

length-chop_semicolon : (name : Bytes) → length (chop_semicolon name) ≤ length name
unfolding chop_semicolon
length-chop_semicolon [] = omega arith
length-chop_semicolon (c ∷ []) = ground arith
length-chop_semicolon (c ∷ d ∷ cs) = omega (arith, length-chop_semicolon (d ∷ cs))

entity_value-Narrow : (name : Bytes) → utf8_width (entity_value name) ≤ length name + 2
unfolding entity_value strtoul
entity_value-Narrow [] = named_value-Narrow []
entity_value-Narrow (c ∷ []) = ground (arith, named_value-Narrow (c ∷ []))
entity_value-Narrow (c ∷ d ∷ cs) =
    ground (arith, named_value-Narrow (c ∷ d ∷ cs), width-le-four (strtoul (d ∷ cs) % 2 ^ 32))

-- The decoded bytes never outnumber the bytes from '&' to ';' that they replace.
pub substitute_utf8-bounded :
    (u : Utf8) (lenstr : ℕ) (name : Bytes)
    → (bytes : Bytes) × (substitute_utf8 u lenstr (b'&' ∷ name) ≡ ok bytes)
      × (length bytes ≤ length name + 2)
unfolding substitute_utf8
substitute_utf8-bounded u lenstr name = (
  if ltb lenstr 5 then [] else u.u8_wc_toutf8 (entity_value (chop_semicolon name)),
  refl,
  ground (
    arith,
    u.u8_wc_toutf8_width (entity_value (chop_semicolon name)),
    entity_value-Narrow (chop_semicolon name),
    length-chop_semicolon name,
  ),
)
