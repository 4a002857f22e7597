-- ===== src/Prototype/Answers/Printed.antt =====
-- What the program prints of an answer, and for its words.
use gnugol.Base.{
  if◌then◌else◌, map, All, ℕ, zero, suc, ◌+◌, ◌<◌, ◌≡◌, refl, ap, ◌∙◌, sym, Bool, true, false, none,
  some, inr, List, [], ◌∷◌, ◌++◌, append_assoc, append-nil, leb, ℤ, pos, Bytes, codes, length,
  Result, ok, ◌>>=◌, >>=-assoc, >>=-cong, arith,
}
use gnugol.Clib.Printf.{sprintf, pieces, fill, convert}
use gnugol.Handy.Request.{Curl, jsonrequest}
use gnugol.Prototype.Answers.{
  copy_stripped, Layout, org, Keys, Found, found_text, opening, closing, found_at, show_results,
  results_in, show_parsed, getresult, stored_query, ask, first_main, first_setup,
}
use gnugol.Prototype.{first_strip_html}
use gnugol.Search.Json.{JsonLibrary}

-- The texts of the results, one after the other.
unfoldable pub texts : Layout → List Found → Result Bytes
texts layout [] = ok []
texts layout (r ∷ rs) = do text ← found_text layout r; rest ← texts layout rs; ok (text ++ rest)

-- How it ends: the whole array was printed, or the function gave up before an entry.
abbrev pub ended : Layout → Bool → Bytes → ℤ × Bytes
ended layout true out = (pos 0, out ++ closing layout)
ended layout false out = (pos 1, out)

module _ (j : JsonLibrary) (results : j.Json) where
  -- From the index on, so many entries hold the strings of the rows; then the array ends, or there is
  -- an entry that is no object or that has not the three strings.
  abbrev pub Reads : ℕ → ℕ → List Found → Bool → Type 0
  Reads zero i [] whole = whole ≡ true
  Reads zero i (r ∷ rs) whole = ⊥
  Reads (suc n) i [] whole = (whole ≡ false) × (found_at j results i ≡ none)
  Reads (suc n) i (r ∷ rs) whole = (found_at j results i ≡ some r) × Reads n (i + 1) rs whole

  show_results-texts :
      (layout : Layout) (n i : ℕ) (rs : List Found) (whole : Bool) (out : Bytes)
      → Reads n i rs whole
      → show_results j n i layout results out
        ≡ (texts layout rs >>= λ t. ok (ended layout whole (out ++ t)))
  unfolding show_results texts
  show_results-texts layout zero i [] whole out h = rw (h, append-nil out) refl
  show_results-texts layout zero i (r ∷ rs) whole out h = absurd h
  show_results-texts layout (suc n) i [] whole out (h, k) =
      rw (show_results, k, h, append-nil out) refl
  show_results-texts layout (suc n) i (r ∷ rs) whole out (h, k) =
      rw (show_results, h)
        (>>=-cong (found_text layout r) _ _ (λ text.
            show_results-texts layout n (i + 1) rs whole (out ++ text) k
            ∙ >>=-cong (texts layout rs) _ _
                (λ t. ap (λ o. ok (ended layout whole o)) (append_assoc out text t))
            ∙ sym (>>=-assoc (texts layout rs) _ _))
          ∙ sym (>>=-assoc (found_text layout r) _ _))

  getresult-texts :
      (curl : Curl) (layout : Layout) (url text : Bytes) (root : j.Json) (rs : List Found)
      (whole : Bool)
      → jsonrequest curl url ≡ some text
      → j.loads text ≡ inr root
      → results_in j root ≡ some results
      → Reads (j.array_size results) 0 rs whole
      → getresult j curl url layout
        ≡ (texts layout rs >>= λ t. ok (ended layout whole (opening layout ++ t)))
  unfolding getresult show_parsed
  getresult-texts curl layout url text root rs whole answered parsed found reads =
      rw (getresult, answered, show_parsed, parsed, found)
        (show_results-texts layout (j.array_size results) 0 rs whole (opening layout) reads)

-- The words, with `%20` between them.
unfoldable pub spaced : List Bytes → Bytes
spaced [] = []
spaced (w ∷ []) = w
spaced (w ∷ v ∷ ws) = w ++ (codes "%20" ++ spaced (v ∷ ws))

-- What is asked for.
abbrev pub query_of : Bytes → List Bytes → Bytes
query_of base words = base ++ (codes "&q=" ++ spaced words)

main_asks :
    (j : JsonLibrary) (keys : Keys) (curl : Curl) (base : Bytes) (words : List Bytes)
    → first_setup keys ≡ ok base
    → 0 < length words
    → length words < 4
    → first_main j keys curl words ≡ ask j curl (query_of base words)
unfolding first_main spaced sprintf pieces fill convert
main_asks j keys curl base [] h some_words few = absurd (omega arith)
main_asks j keys curl base (a ∷ []) h some_words few = rw (first_main, h, append-nil a) refl
main_asks j keys curl base (a ∷ b ∷ []) h some_words few = rw (first_main, h, append-nil b) refl
main_asks j keys curl base (a ∷ b ∷ c ∷ []) h some_words few = rw (first_main, h, append-nil c) refl
main_asks j keys curl base (a ∷ b ∷ c ∷ d ∷ ds) h some_words few = absurd (omega arith)

-- A result, with its title and its content as they are without tags.
pub record Entry : Type 0 where
  pub found : Found
  pub heading : Bytes
  pub summary : Bytes

-- The stripper makes the texts of the entry from those of the result, which are short enough for it.
pub record Stripped (e : Entry) : Type 0 where
  pub short_title : length e.found.title < 2048
  pub short_content : length e.found.content < 2048
  pub title_length : ℕ
  pub content_length : ℕ
  pub title : first_strip_html 2048 e.found.title ≡ ok (title_length, e.heading)
  pub content : first_strip_html 2048 e.found.content ≡ ok (content_length, e.summary)

-- The outline: a link to the URL with the stripped title, and the stripped content under it.
unfoldable pub outline : List Entry → Bytes
outline [] = []
outline (e ∷ es) =
    (codes "\n** [[" ++ (e.found.url ++ (codes "][" ++ (e.heading ++ codes "]]\n"))))
    ++ (codes "   " ++ e.summary)
    ++ outline es

copied :
    (text stripped : Bytes) (n : ℕ)
    → length text < 2048
    → first_strip_html 2048 text ≡ ok (n, stripped)
    → copy_stripped text ≡ ok stripped
unfolding copy_stripped
copied text stripped n short run =
    let room : leb 2048 (length text) ≡ false = ground arith in rw (room, run) refl

found_text-outline :
    (e : Entry)
    → Stripped e
    → found_text org e.found
      ≡ ok (
          (codes "\n** [[" ++ (e.found.url ++ (codes "][" ++ (e.heading ++ codes "]]\n"))))
          ++ (codes "   " ++ e.summary))
unfolding found_text sprintf pieces fill convert
found_text-outline e h =
    rw
      (
        found_text,
        copied e.found.title e.heading h.title_length h.short_title h.title,
        copied e.found.content e.summary h.content_length h.short_content h.content,
        append-nil e.summary,
      )
      refl

texts-outline :
    (es : List Entry) → All Stripped es → texts org (map (λ e. e.found) es) ≡ ok (outline es)
unfolding texts outline
texts-outline [] h = refl
texts-outline (e ∷ es) h = rw (found_text-outline e h.0, texts-outline es h.1) refl

ended_out :
    (whole : Bool) (out : Bytes)
    → (ended org whole out).1 ≡ (if whole then out ++ codes "\n" else out)
unfolding closing
ended_out true out = refl
ended_out false out = refl

pub first_main-outline :
    (j : JsonLibrary) (keys : Keys) (curl : Curl) (base text : Bytes) (words : List Bytes)
    (root results : j.Json) (es : List Entry) (whole : Bool)
    → first_setup keys ≡ ok base
    → 0 < length words
    → length words < 4
    → length (query_of base words) < 2048
    → jsonrequest curl (query_of base words) ≡ some text
    → j.loads text ≡ inr root
    → results_in j root ≡ some results
    → Reads j results (j.array_size results) 0 (map (λ e. e.found) es) whole
    → All Stripped es
    → first_main j keys curl words
      ≡ ok (
        pos 0,
        if whole
            then (codes "* Search: <keywords>" ++ outline es) ++ codes "\n"
            else codes "* Search: <keywords>" ++ outline es,
      )
unfolding ask stored_query opening closing
first_main-outline j keys curl base text words root results es whole h some_words few short answered
      parsed found reads stripped =
    let room : leb 2048 (length (query_of base words)) ≡ false = ground arith in
    main_asks j keys curl base words h some_words few
    ∙ rw
        (
          ask,
          room,
          getresult-texts j results curl org (query_of base words) text root (map (λ e. e.found) es)
              whole answered parsed found reads,
          texts-outline es stripped,
        )
        (ap (λ o. ok (pos 0, o)) (ended_out whole (codes "* Search: <keywords>" ++ outline es)))
