-- ===== src/Handy/Entities.antt =====
-- Entities of src/common/handy.c: the lookup in `emap`, and `substitute_utf8`.
mod Table
mod Rows
pub mod Width
pub mod Decode
use Prim.Native.Nat.{Ordering}
use gnugol.Base.{
  ℕ, ◌+◌, ◌≤◌, ◌%◌, ◌^◌, Bool, true, false, Option, none, some, List, [], ◌∷◌, ltb, ◌==◌,
  if◌then◌else◌, Bytes, length, Result, ok, fault, assertion,
}
use gnugol.Clib.Number.{strtoul}
use gnugol.Clib.Search.{strcmp, bsearch}
pub use Table.{EntityMap}
unfoldable pub use Table.{emap}

-- The bytes that UTF-8 takes for a code point; none from 0x110000 on.
abbrev pub utf8_width : ℕ → ℕ
utf8_width ch =
    if ltb ch 0x80
    then 1
    else if ltb ch 0x800
    then 2
    else if ltb ch 0x10000
    then 3
    else if ltb ch 0x110000
    then 4
    else 0

-- `u8_wc_toutf8` of the bundled UTF-8 library, with the size of what it writes.
pub record Utf8 : Type 0 where
  pub u8_wc_toutf8 : ℕ → Bytes
  pub u8_wc_toutf8_width : (ch : ℕ) → length (u8_wc_toutf8 ch) ≤ utf8_width ch

-- `entity_cmp`, with the key that it is called with.
unfoldable pub entity_cmp : Bytes → EntityMap → Ordering
unfolding strcmp
entity_cmp key hay = strcmp key hay.entity

-- `bsearch(entity,emap,ENTITIES,…)`, and '?' for an unknown name.
unfoldable pub named_value : Bytes → ℕ
unfolding bsearch entity_cmp emap
named_value name = elim (bsearch (entity_cmp name) emap (length emap)) [
  | none ↦ b'?'
  | some e ↦ e.utf8
]

-- The code point of an entity, without its '&'.
unfoldable pub entity_value : Bytes → ℕ
unfolding strtoul named_value
entity_value [] = named_value []
entity_value (c ∷ cs) = if c == b'#' then strtoul cs % 2 ^ 32 else named_value (c ∷ cs)

-- `if(entity[len-1]==';') entity[len-1] = '\0';`
unfoldable pub chop_semicolon : Bytes → Bytes
chop_semicolon [] = []
chop_semicolon (c ∷ []) = if c == b';' then [] else c ∷ []
chop_semicolon (c ∷ d ∷ cs) = c ∷ chop_semicolon (d ∷ cs)

module _ (u : Utf8) where
  -- The bytes that `substitute_utf8(string,lenstr,entity)` writes before its NUL.
  unfoldable pub substitute_utf8 : ℕ → Bytes → Result Bytes
  substitute_utf8 lenstr [] = fault assertion
  substitute_utf8 lenstr (c ∷ name) =
      if c == b'&'
      then ok (if ltb lenstr 5 then [] else u.u8_wc_toutf8 (entity_value (chop_semicolon name)))
      else fault assertion
