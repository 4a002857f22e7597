-- ===== src/Search/Stack.antt =====
-- src/engines/stackapps.c.
use gnugol.Base.{
  ℕ, zero, suc, ◌+◌, ◌-◌, Option, none, some, [], ◌∷◌, pos, negsuc, Bytes, codes, take, Result, ok,
  ◌>>=◌,
}
use gnugol.Clib.Printf.{str, int, sprintf}
use gnugol.Format.Lines.{gnugol_result_out_long}
use gnugol.Format.Options.{gnugol_header_out, gnugol_footer_out}
use gnugol.Query.{QueryOptions}
use gnugol.Search.Google.{recommend_key}
use gnugol.Search.Json.{Answer, get_array, get_array_idx, get_string, get_number}
use gnugol.Search.Query.{
  Services, trace, trace_any, trace_url, clamp_safe, at_most, safe_name, read_key, print_url,
  store_url, request,
}

abbrev pub stack_site : Bytes
stack_site = codes "http://api.stackoverflow.com/1.0/search"

abbrev pub stack_license : Bytes
stack_license = codes "http://stackapps.com/apps/register"

abbrev pub stack_key_format : Bytes
stack_key_format =
    codes "A license key to search stackapps is recommended. You can get one from: %s"

unfoldable pub stack_limits : QueryOptions → Result QueryOptions
stack_limits q = do
  name ← safe_name (clamp_safe q.safe)
  safe ←
      trace 5 (record q { safe = clamp_safe q.safe }) (codes "stackapps: safesearch=%s\n")
        (str name ∷ [])
  trace 4 (record safe { nresults = at_most 100 safe.nresults })
      (codes "stackapps: KEYWORDS = %s\n") (str safe.keywords ∷ [])

-- The URL, with the key where there is one.
unfoldable pub stack_url : QueryOptions → Option Bytes → Result (ℕ × Bytes)
stack_url q none =
    print_url (codes "%s?pagesize=%d&intitle=%s")
      (str stack_site ∷ int q.nresults ∷ str q.keywords ∷ [])
stack_url q (some key) =
    print_url (codes "%s?key=%s&pagesize=%d&intitle=%s")
      (str stack_site ∷ str key ∷ int q.nresults ∷ str q.keywords ∷ [])

-- `snprintf(buffer,1024,…)`
abbrev question_url : Bytes → Result Bytes
question_url path = sprintf (codes "http://stackoverflow.com%s") (str path ∷ []) >>= λ text.
    ok (take (1024 - 1) text)

module _ (s : Services) where
  -- `setup(q)`
  unfoldable pub stack_setup : QueryOptions → Answer
  stack_setup q = do
    entered ← trace 9 q (codes "stackapps: Entering Setup\n") []
    key ← read_key s.env (codes ".stackappkey")
    keyed ← recommend_key stack_key_format stack_license entered key
    ready ← stack_limits keyed
    url ← stack_url ready key
    store_url ready url

  module _ (print_pointer : Option Bytes → Bytes) where
    -- The loop over the questions, and the footer. `print_pointer` is what `%p` prints, in `char
    -- buffer2[1024]`, for the pointer that `json_string_value` gives.
    unfoldable pub print_questions : ℕ → ℕ → QueryOptions → s.json.Json → Answer
    unfolding get_array_idx get_string get_number sprintf
    print_questions zero i q questions = gnugol_footer_out q >>= λ last. ok (pos 0, last)
    print_questions (suc rounds) i q questions = get_array_idx s.json q questions i λ question.
        get_string s.json q question (codes "question_answers_url") λ path.
          get_string s.json q question (codes "title") λ title.
            get_number s.json q question (codes "score") λ score. question_url path >>= λ url.
            gnugol_result_out_long s.utf8 q (some url)
              (some (print_pointer (s.json.string_value score))) (some title) none
            >>= λ next. print_questions rounds (i + 1) next questions

    -- `search(q)`, from the parsed answer on.
    unfoldable pub stack_results : QueryOptions → s.json.Json → Answer
    unfolding print_questions get_array
    stack_results q root = get_array s.json q root (codes "questions") λ questions.
        gnugol_header_out s.utf8 q >>= λ headed.
        print_questions (s.json.array_size questions) 0 headed questions

    -- `search(q)`
    unfoldable pub stack_search : QueryOptions → Answer
    unfolding request stack_results trace_any
    stack_search q = trace_url (codes "%s: trying url: %s\n") q >>= λ asked.
        request s (codes "url failed to work: %s") (negsuc 0) asked (stack_results asked)
