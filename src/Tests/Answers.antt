-- ===== src/Tests/Answers.antt =====
-- A small JSON library with one answer, and options for a query.
use gnugol.Base.{
  ℕ, ◌≡◌, refl, Bool, true, false, Option, none, some, inl, inr, List, [], ◌∷◌, ◌||◌, if◌then◌else◌,
  Bytes, codes, eq_bytes, get_elem?, length,
}
use gnugol.Engines.Key.{Environment, unopened}
use gnugol.Handy.Request.{Curl}
use gnugol.Query.{QueryOptions, Buffer, zeroed, format_org}
use gnugol.Search.Duck.{duck_fields}
use gnugol.Search.Json.{JsonLibrary, string_field}
use gnugol.Search.Prints.{Row, RowAt}
use gnugol.Search.Query.{Services}
use gnugol.Tests.Handy.{encoder}

-- The values of a small JSON library: those of one fixed answer.
pub data Value : Type 0 where
  root topics entry words : Value

abbrev pub lookup : Value → Bytes → Option Value
lookup root key = if eq_bytes key (codes "RelatedTopics") then some topics else none
lookup entry key =
    if eq_bytes key (codes "FirstURL") || eq_bytes key (codes "Text") then some words else none
lookup topics key = none
lookup words key = none

abbrev pub is_entry : Value → Bool
is_entry root = true
is_entry entry = true
is_entry topics = false
is_entry words = false

abbrev pub is_row : Value → Bool
is_row topics = true
is_row root = false
is_row entry = false
is_row words = false

abbrev pub string_of : Value → Option Bytes
string_of words = some (codes "ab")
string_of root = none
string_of entry = none
string_of topics = none

abbrev pub library : List Value → JsonLibrary
library entries = record {
  Json = Value;
  loads = λ t. if eq_bytes t (codes "{") then inl (1, codes "end") else inr root;
  object_get = lookup;
  is_object = is_entry;
  is_array = is_row;
  is_number = λ v. false;
  array_size = λ v. length entries;
  array_get = λ v i. get_elem? entries i;
  string_value = string_of;
}

abbrev pub curl : Bytes → Curl
curl text = record {
  init = true;
  malloc = true;
  chunks = λ url. codes "{" ∷ text ∷ [];
  status = λ url. 0;
  code = λ url. 200;
}

abbrev pub no_env : Environment
no_env = record { home = none; file = λ path. unopened 2; sysconfdir = [] }

abbrev pub services : Bytes → Services
services text = record {
  json = library (entry ∷ entry ∷ []);
  curl = curl text;
  env = no_env;
  utf8 = encoder;
}

abbrev pub row : Row
row = record { url = codes "ab"; title = codes "ab"; snippet = codes "ab" }

unfoldable pub options : QueryOptions
unfolding zeroed
options =
    let buffer : Buffer = record { size = 100; len = 0; s = some [] } in
    record zeroed {
      format = format_org;
      out = buffer;
      wrn = buffer;
      err = buffer;
      keywords = codes "ab";
    }

pub row-RowAt :
    (more : List Value) (i : ℕ)
    → get_elem? more i ≡ some entry
    → RowAt (library more) encoder duck_fields topics i row
unfolding string_field eq_bytes
row-RowAt more i at = record {
  value = entry;
  at = at;
  object = refl;
  url = refl;
  title = refl;
  snippet = refl;
}
