-- ===== src/Prototype/Answers.antt =====
-- The program of src/prototypes/wikipedia.c: its key, its query, and what it prints of an answer.
-- What it prints to `stderr` is left out, and so is a `read` that fails.
pub mod Printed
use gnugol.Base.{
  ℕ, zero, suc, ◌+◌, ◌-◌, Bool, true, false, Option, none, some, inl, inr, List, [], ◌∷◌, ◌++◌, ltb,
  leb, ◌==◌, if◌then◌else◌, ℤ, pos, negsuc, Bytes, codes, length, take, until_nul, Result, ok,
  fault, overrun, underrun, bad_read, ◌>>=◌,
}
use gnugol.Clib.Printf.{Arg, str, sprintf}
use gnugol.Engines.Key.{trim}
use gnugol.Handy.Request.{Curl, jsonrequest}
use gnugol.Prototype.{first_strip_html}
use gnugol.Search.Json.{JsonLibrary, string_field}

-- `TEMPLATE`
abbrev pub template : Bytes
template = codes "http://ajax.googleapis.com/ajax/services/search/web?v=1.0"

-- `FORMATHTML` and the others; what is none of the others is printed as `html`.
pub data Layout : Type 0 where
  html wiki org term elinks : Layout

-- `getenv("HOME")`, and what the file at a path holds if it can be opened.
pub record Keys : Type 0 where
  pub home : Option Bytes
  pub file : Bytes → Option Bytes

-- `key[size] = '\0'`, and the string that `setup` makes.
unfoldable pub base_of : Bytes → ℕ → Result Bytes
base_of key zero = ok template
base_of key (suc n) =
    if ltb (suc n) 256
    then (do
      text ←
          sprintf (codes "%s&key=%s&rsz=large")
            (str template ∷ str (until_nul (take (suc n) key)) ∷ [])
      ok (take 2046 text))
    else fault overrun

-- `open` gives -1 for a file that is not there, which is not 0: `read` then fails, and `key[-1]` is
-- written.
unfoldable pub use_key : Option Bytes → Result Bytes
unfolding base_of trim
use_key none = fault underrun
use_key (some content) = let key = take 256 content in base_of key (trim key (length key))

-- `setup(string)`
unfoldable pub first_setup : Keys → Result Bytes
unfolding use_key
first_setup keys = elim keys.home [
  | none ↦ fault bad_read
  | some home ↦ use_key (keys.file (take 1023 (home ++ codes "/.googlekey")))
]

-- The strings of a result.
pub record Found : Type 0 where
  pub url : Bytes
  pub title : Bytes
  pub content : Bytes

-- `strcpy(tempstr,text); strip_html(2048,tempstr);`
unfoldable pub copy_stripped : Bytes → Result Bytes
copy_stripped text =
    if leb 2048 (length text)
    then fault overrun
    else (do stripped ← first_strip_html 2048 text; ok stripped.1)

-- What the `switch` in the loop prints.
unfoldable pub found_text : Layout → Found → Result Bytes
unfolding copy_stripped sprintf
found_text wiki r =
    sprintf (codes "[[%s|%s]] %s  \n") (str r.title ∷ str r.url ∷ str r.content ∷ [])
found_text org r = do
  title ← copy_stripped r.title
  head ← sprintf (codes "\n** [[%s][%s]]\n") (str r.url ∷ str title ∷ [])
  content ← copy_stripped r.content
  tail ← sprintf (codes "   %s") (str content ∷ [])
  ok (head ++ tail)
found_text term r = do
  content ← copy_stripped r.content
  sprintf (codes "%s %s %s\n") (str r.url ∷ str r.title ∷ str content ∷ [])
found_text elinks r =
    sprintf (codes "<p><a href=\"%s\">%s</a> %s</p>") (str r.url ∷ str r.title ∷ str r.content ∷ [])
found_text html r =
    sprintf (codes "<a href=\"%s\">%s</a> %s\n") (str r.url ∷ str r.title ∷ str r.content ∷ [])

-- What is printed before the results, and behind them.
unfoldable pub opening : Layout → Bytes
opening html = []
opening wiki = []
opening org = codes "* Search: <keywords>"
opening term = []
opening elinks = codes "<html><head><title>Search for: </title></head><body>"

unfoldable pub closing : Layout → Bytes
closing html = []
closing wiki = []
closing org = codes "\n"
closing term = []
closing elinks = codes "</body></html>"

-- `request`, which is `jsonrequest` of src/common/handy.c under its first name.
abbrev pub first_request : Curl → Bytes → Option Bytes
first_request curl url = jsonrequest curl url

-- What a function returns, and what it has printed.
abbrev pub Shown : Type 0
Shown = Result (ℤ × Bytes)

module _ (j : JsonLibrary) where
  -- `GETARRAYIDX` and the three `GETSTRING`, or `none` where one of them returns 1.
  unfoldable pub found_strings : j.Json → Option Found
  found_strings result = elim (string_field j result (codes "url")) [
    | none ↦ none
    | some url ↦ elim (string_field j result (codes "titleNoFormatting")) [
      | none ↦ none
      | some title ↦ elim (string_field j result (codes "content")) [
        | none ↦ none
        | some content ↦ some (record { url = url; title = title; content = content })
      ]
    ]
  ]

  unfoldable pub found_at : j.Json → ℕ → Option Found
  unfolding found_strings
  found_at results i = elim (j.array_get results i) [
    | none ↦ none
    | some result ↦ if j.is_object result then found_strings result else none
  ]

  -- The loop over the results, and its end.
  unfoldable pub show_results : ℕ → ℕ → Layout → j.Json → Bytes → Shown
  show_results zero i layout results out = ok (pos 0, out ++ closing layout)
  show_results (suc rounds) i layout results out = elim (found_at results i) [
    | none ↦ ok (pos 1, out)
    | some r ↦ (do
      text ← found_text layout r
      show_results rounds (i + 1) layout results (out ++ text))
  ]

  -- The array of the results, or `none` where `GETOBJ` or `GETARRAY` returns 1.
  unfoldable pub results_in : j.Json → Option j.Json
  results_in root = elim (j.object_get root (codes "responseData")) [
    | none ↦ none
    | some response ↦ elim (j.object_get response (codes "results")) [
      | none ↦ none
      | some results ↦ if j.is_array results then some results else none
    ]
  ]

  unfoldable pub show_parsed : Layout → Bytes → Shown
  unfolding results_in show_results
  show_parsed layout text = elim (j.loads text) [
    | inl error ↦ ok (pos 1, [])
    | inr root ↦ elim (results_in root) [
      | none ↦ ok (pos 1, [])
      | some results ↦ show_results (j.array_size results) 0 layout results (opening layout)
    ]
  ]

  -- `getresult(urltxt,format)`
  unfoldable pub getresult : Curl → Bytes → Layout → Shown
  unfolding show_parsed
  getresult curl url layout = elim (first_request curl url) [
    | none ↦ ok (pos 1, [])
    | some text ↦ show_parsed layout text
  ]

-- `usage(msg)`: the status of the program, and what is printed.
abbrev pub first_usage : Bytes → Shown
first_usage msg = ok (negsuc 0, msg ++ codes "\n")

-- `qstring`, of one to three words.
unfoldable pub stored_query : Bytes → Result Bytes
stored_query text = if leb 2048 (length text) then fault overrun else ok text

-- What `%%20` prints, which stands as one more argument here.
abbrev pub space : Arg
space = str (codes "%20")

module _ (j : JsonLibrary) where
  -- `getresult(qstring,FORMATDEFAULT)`, and the end of `main`.
  unfoldable pub ask : Curl → Bytes → Shown
  unfolding stored_query
  ask curl query = do
    stored ← stored_query query
    shown ← getresult j curl stored org
    ok (pos 0, shown.1)

  -- `main`, of the words behind the name of the program.
  unfoldable pub first_main : Keys → Curl → List Bytes → Shown
  unfolding first_setup ask sprintf
  first_main keys curl words = do
    base ← first_setup keys
    elim words [
      | [] ↦ first_usage (codes "keyword keyword keyword")
      | a ∷ more ↦ elim more [
        | [] ↦ sprintf (codes "%s&q=%s") (str base ∷ str a ∷ []) >>= ask curl
        | b ∷ others ↦ elim others [
          | [] ↦ sprintf (codes "%s&q=%s%s%s") (str base ∷ str a ∷ space ∷ str b ∷ []) >>= ask curl
          | c ∷ rest ↦ elim rest [
            | [] ↦
                sprintf (codes "%s&q=%s%s%s%s%s")
                  (str base ∷ str a ∷ space ∷ str b ∷ space ∷ str c ∷ [])
                >>= ask curl
            | d ∷ ds ↦ first_usage (codes "This is only a test proggie, give me a break")
          ]
        ]
      ]
    ]
