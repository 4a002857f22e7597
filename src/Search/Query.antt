-- ===== src/Search/Query.antt =====
-- What the plugins of src/engines have in common: the steps of `setup`, and the request.
use gnugol.Base.{
  ℕ, ◌-◌, Bool, ◌&&◌, ◌||◌, Option, none, some, inl, inr, List, [], ◌∷◌, ◌++◌, ltb, leb,
  if◌then◌else◌, ℤ, pos, negsuc, above, nonzero, get_elem?, Bytes, codes, length, take, Result, ok,
  fault, bad_read, ◌>>=◌,
}
use gnugol.Clib.Printf.{Arg, str, num, sprintf}
use gnugol.Engines.Key.{Environment, failed, found, gnugol_read_key}
use gnugol.Format.Buffers.{oute, outw}
use gnugol.Handy.Entities.{Utf8}
use gnugol.Handy.Request.{Curl, jsonrequest}
use gnugol.Query.{QueryOptions}
use gnugol.Search.Json.{JsonLibrary, Answer}

-- What a plugin calls.
pub record Services : Type 1 where
  pub json : JsonLibrary
  pub curl : Curl
  pub env : Environment
  pub utf8 : Utf8

-- `if(q->debug > level) GNUGOL_OUTW(q,…)`
unfoldable pub trace : ℕ → QueryOptions → Bytes → List Arg → Result QueryOptions
unfolding outw
trace level q format args = if above q.debug level then outw q format args else ok q

-- `if(q->debug) GNUGOL_OUTW(q,…)`
unfoldable pub trace_any : QueryOptions → Bytes → List Arg → Result QueryOptions
unfolding outw
trace_any q format args = if nonzero q.debug then outw q format args else ok q

-- `if(q->safe < 0) q->safe = 0; if(q->safe > 2) q->safe = 2;`
abbrev pub clamp_safe : ℤ → ℤ
clamp_safe (pos n) = if ltb 2 n then pos 2 else pos n
clamp_safe (negsuc n) = pos 0

-- `if(q->nresults > most) q->nresults = most;`
abbrev pub at_most : ℕ → ℤ → ℤ
at_most most z = if above z most then pos most else z

unfoldable pub safe_map : List Bytes
safe_map = codes "off" ∷ codes "moderate" ∷ codes "active" ∷ []

-- `safe_map[q->safe]`
unfoldable pub safe_name : ℤ → Result Bytes
unfolding safe_map
safe_name (negsuc n) = fault bad_read
safe_name (pos n) = elim (get_elem? safe_map n) [ none ↦ fault bad_read | some name ↦ ok name ]

-- `isalpha` in the C locale.
abbrev pub is_alpha : ℕ → Bool
is_alpha c = (leb b'A' c && leb c b'Z') || (leb b'a' c && leb c b'z')

-- The parameter of a language of at least two letters, as `hl` and `lr` hold it.
unfoldable pub language_parameter : Bytes → Bytes → Bytes
language_parameter prefix [] = []
language_parameter prefix (c ∷ []) = []
language_parameter prefix (c ∷ d ∷ cs) =
    if is_alpha c && is_alpha d then prefix ++ c ∷ d ∷ [] else []

-- The key that was read, if it was, in `char key[256]`.
unfoldable pub read_key : Environment → Bytes → Result (Option Bytes)
read_key env keyfile = gnugol_read_key env 256 keyfile >>= λ r.
    ok (elim r [ failed errno ↦ none | found key ↦ some key ])

abbrev pub url_size : ℕ
url_size = 2048

-- `size = snprintf(string,URL_SIZE,…)`: the size, and what `string` reads as.
unfoldable pub print_url : Bytes → List Arg → Result (ℕ × Bytes)
unfolding sprintf
print_url format args = do text ← sprintf format args; ok (length text, take (url_size - 1) text)

abbrev with_querystr : QueryOptions → ℕ × Bytes → Answer
with_querystr q (size, string) = do
  last ← trace 9 (record q { querystr = string }) (codes "Exiting Setup\n") []
  ok (pos size, last)

-- The end of most of the functions `setup`: the check of the size, and the copy to `q->querystr`.
unfoldable pub store_url : QueryOptions → ℕ × Bytes → Answer
unfolding trace oute
store_url q (size, string) =
    if ltb 2048 size
    then (do
      told ← oute q (codes "Size of URL exceeds space set aside for it") []
      ok (negsuc 0, told))
    else with_querystr q (size, string)

-- `q->engine_name` as `%s` prints it.
abbrev pub name_of : QueryOptions → Bytes
name_of q = elim q.engine_name [ none ↦ codes "(null)" | some name ↦ name ]

-- `if(q->debug) GNUGOL_OUTW(q,format,q->engine_name,q->querystr)`
abbrev pub trace_url : Bytes → QueryOptions → Result QueryOptions
trace_url format q = trace_any q format (str (name_of q) ∷ str q.querystr ∷ [])

module _ (s : Services) where
  -- `json_loads`, and the message where it fails.
  unfoldable pub parse_answer : Bytes → ℤ → QueryOptions → (s.json.Json → Answer) → Answer
  unfolding oute
  parse_answer text code q body = elim (s.json.loads text) [
    | inl (line, message) ↦ (do
      told ← oute q (codes "error: on line %d: %s\n") (num line ∷ str message ∷ [])
      ok (code, told))
    | inr root ↦ body root
  ]

  -- `jsonrequest`, and the message where it fails.
  unfoldable pub fetch : Bytes → ℤ → QueryOptions → (Bytes → Answer) → Answer
  unfolding oute
  fetch refusal code q body = elim (jsonrequest s.curl q.querystr) [
    | none ↦ (do told ← oute q refusal (str q.querystr ∷ []); ok (code, told))
    | some text ↦ body text
  ]

  -- Both, where nothing stands between them and both return `code`.
  unfoldable pub request : Bytes → ℤ → QueryOptions → (s.json.Json → Answer) → Answer
  request refusal code q body = fetch refusal code q λ text. parse_answer text code q body
