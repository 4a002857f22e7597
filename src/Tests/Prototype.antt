-- ===== src/Tests/Prototype.antt =====
-- src/prototypes/wikipedia.c at concrete inputs.
use gnugol.Base.{
  ◌<◌, ◌≡◌, refl, not, Bool, true, false, Option, some, none, List, ◌++◌, if◌then◌else◌, inr, pos,
  length, until_nul, ok, fault, underrun, ◌&&◌, ◌==◌, Bytes, codes, all, all_sound, All, arith,
  eq_bytes, [], ◌∷◌,
}
use gnugol.Handy.Strip.{strip_html, on_other, push}
use gnugol.Prototype.Same.{Alike, first_strip_html-strip_html}
use gnugol.Prototype.{first_strip_html, first_loop, first_step, substitute, replaced, replacements}
use gnugol.Handy.Entities.{chop_semicolon}
use gnugol.Clib.Printf.{sprintf, pieces, fill, convert}
use gnugol.Engines.Key.{trim}
use gnugol.Handy.Request.{jsonrequest, receive, write_response}
use gnugol.Search.Json.{JsonLibrary, string_field}
use gnugol.Prototype.Answers.{
  template, Keys, Found, base_of, use_key, first_setup, found_strings, found_at, results_in,
  first_main,
}
use gnugol.Prototype.Answers.Printed.{
  Reads, spaced, query_of, first_main-outline, Entry, Stripped, outline,
}
use gnugol.Tests.Answers.{curl}
use gnugol.Tests.Handy.{encoder}

abbrev html : Bytes
html = codes "a <b>tag</b>  and dots ... ;"

alike : All Alike html
unfolding all
alike =
    all_sound Alike (λ c. not (c == b'&') && (not (c == b'\n') && not (c == b'\r')))
      (λ c h. record { ampersand = ground arith; newline = ground arith; return = ground arith })
      html refl

middle_dot : substitute (codes "&middot") ≡ 0xC2 ∷ 0xB7 ∷ []
unfolding substitute replaced replacements chop_semicolon eq_bytes
middle_dot = refl

first_strip_html-strip_html_example : first_strip_html 28 html ≡ strip_html encoder 28 html
first_strip_html-strip_html_example = first_strip_html-strip_html encoder 28 html alike

-- The values of one answer.
data Value : Type 0 where
  top response rows row word : Value

abbrev lookup : Value → Bytes → Option Value
lookup top key = if eq_bytes key (codes "responseData") then some response else none
lookup response key = if eq_bytes key (codes "results") then some rows else none
lookup row key = some word
lookup rows key = none
lookup word key = none

abbrev is_row : Value → Bool
is_row row = true
is_row top = false
is_row response = false
is_row rows = false
is_row word = false

abbrev is_rows : Value → Bool
is_rows rows = true
is_rows row = false
is_rows top = false
is_rows response = false
is_rows word = false

abbrev string_of : Value → Option Bytes
string_of word = some (codes "ab")
string_of row = none
string_of rows = none
string_of top = none
string_of response = none

-- An array of one row, and of one that is none.
abbrev library : JsonLibrary
library = record {
  Json = Value;
  loads = λ t. inr top;
  object_get = lookup;
  is_object = is_row;
  is_array = is_rows;
  is_number = λ v. false;
  array_size = λ v. 2;
  array_get = λ v i. if i == 0 then some row else some word;
  string_value = string_of;
}

abbrev keys : Keys
keys = record { home = some (codes "/h"); file = λ path. some (codes "k \n") }

abbrev base : Bytes
base = template ++ codes "&key=k&rsz=large"

abbrev words : List Bytes
words = codes "free" ∷ codes "gnu" ∷ []

base_is_set : first_setup keys ≡ ok base
unfolding first_setup use_key base_of trim sprintf pieces fill convert until_nul
base_is_set = refl

answered : jsonrequest (curl (codes "}")) (query_of base words) ≡ some (codes "{}")
unfolding jsonrequest receive write_response until_nul
answered = refl

results_found : results_in library top ≡ some rows
unfolding results_in eq_bytes
results_found = refl

abbrev ab : Found
ab = record { url = codes "ab"; title = codes "ab"; content = codes "ab" }

read_rows : Reads library rows 2 0 (ab ∷ []) false
unfolding found_at found_strings string_field
read_rows = (refl, (refl, refl))

short_query : length (query_of base words) < 2048
unfolding spaced
short_query = omega arith

no_key_file : use_key none ≡ fault underrun
unfolding use_key
no_key_file = refl

abbrev ab_entry : Entry
ab_entry = record { found = ab; heading = codes "ab"; summary = codes "ab" }

ab-Stripped : Stripped ab_entry
unfolding first_strip_html first_loop first_step on_other push until_nul
ab-Stripped = record {
  short_title = omega arith;
  short_content = omega arith;
  title_length = 2;
  content_length = 2;
  title = refl;
  content = refl;
}

first_main-outline_example :
    first_main library keys (curl (codes "}")) words
    ≡ ok (
      pos 0,
      if false
          then (codes "* Search: <keywords>" ++ outline (ab_entry ∷ [])) ++ codes "\n"
          else codes "* Search: <keywords>" ++ outline (ab_entry ∷ []),
    )
first_main-outline_example =
    first_main-outline library keys (curl (codes "}")) base (codes "{}") words top rows
      (ab_entry ∷ []) false base_is_set (omega arith) (omega arith) short_query answered refl
      results_found read_rows (ab-Stripped, tt)
