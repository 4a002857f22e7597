-- ===== src/Search/Keyed.antt =====
-- What `setup` makes of the options and of a key: src/engines/googlev1.c, src/engines/googlev2.c and
-- src/engines/stackapps.c.
use gnugol.Base.{
  ℕ, zero, suc, ◌≡◌, refl, true, false, Option, none, some, [], ◌∷◌, ltb, arith, if◌then◌else◌, ℤ,
  pos, negsuc, above, Bytes, codes, length, take, Result, ok, ◌>>=◌, append-nil, After, After-cong,
  After-next,
}
use gnugol.Clib.Printf.{str, sprintf}
use gnugol.Format.Buffers.{oute, append}
use gnugol.Query.{QueryOptions}
use gnugol.Search.Custom.{custom_license, custom_url, custom_setup}
use gnugol.Search.Google.{
  google_license, key_format, recommend_key, google_limits, url_without_key, google_url,
  google_setup,
}
use gnugol.Search.Json.{Answer}
use gnugol.Search.Query.{Services, clamp_safe, safe_name, read_key, print_url}
use gnugol.Search.Stack.{stack_license, stack_key_format, stack_limits, stack_url, stack_setup}
use gnugol.Search.Urls.{trace-quiet, store_url-quiet}
use gnugol.Search.Forms.{google, custom, stack, Keyed, keyfile_of, level_name, url_of, limited}

-- The message where there is no key.
abbrev pub advise : Keyed → QueryOptions → Option Bytes → Result QueryOptions
advise google = recommend_key key_format google_license
advise custom = recommend_key key_format custom_license
advise stack = recommend_key stack_key_format stack_license

safe_name-level_name : (z : ℤ) → safe_name (clamp_safe z) ≡ ok (level_name (clamp_safe z))
unfolding safe_name level_name
safe_name-level_name (negsuc n) = refl
safe_name-level_name (pos zero) = refl
safe_name-level_name (pos (suc zero)) = refl
safe_name-level_name (pos (suc (suc zero))) = refl
safe_name-level_name (pos (suc (suc (suc n)))) =
    let over : ltb 2 (suc (suc (suc n))) ≡ true = ground arith in rw over refl

abbrev printed : Bytes → Result (ℕ × Bytes)
printed text = ok (length text, take 2047 text)

google_url-url_of :
    (q : QueryOptions) (key : Option Bytes)
    → safe_name q.safe ≡ ok (level_name q.safe)
    → google_url q key ≡ printed (url_of google q key)
unfolding google_url url_without_key print_url url_of
google_url-url_of q none named = rw (named, append-nil) refl
google_url-url_of q (some key) named = rw (named, append-nil) refl

custom_url-url_of :
    (q : QueryOptions) (key : Option Bytes)
    → safe_name q.safe ≡ ok (level_name q.safe)
    → custom_url q key ≡ printed (url_of custom q key)
unfolding custom_url url_without_key print_url url_of
custom_url-url_of q none named = rw (named, append-nil) refl
custom_url-url_of q (some key) named = rw append-nil refl

stack_url-url_of :
    (q : QueryOptions) (key : Option Bytes) → stack_url q key ≡ printed (url_of stack q key)
unfolding stack_url print_url url_of
stack_url-url_of q none = rw append-nil refl
stack_url-url_of q (some key) = rw append-nil refl

-- Nothing is traced.
abbrev pub Quiet : QueryOptions → Type 0
Quiet q = q.debug ≡ pos 0

Quiet-above : (q : QueryOptions) (level : ℕ) → Quiet q → above q.debug level ≡ false
Quiet-above q level quiet = rw quiet (ground arith)

google_limits-limited : (q : QueryOptions) → Quiet q → google_limits q ≡ ok (limited google q)
unfolding google_limits
google_limits-limited q quiet =
    let safe =
      trace-quiet 5 (record q { safe = clamp_safe q.safe }) (codes "google: safesearch=%s\n")
        (str (level_name (clamp_safe q.safe)) ∷ []) (Quiet-above q 5 quiet) in
    let ready =
      trace-quiet 4 (limited google q) (codes "google: KEYWORDS = %s\n") (str q.keywords ∷ [])
        (Quiet-above q 4 quiet) in
    rw (safe_name-level_name q.safe, safe, ready) refl

stack_limits-limited : (q : QueryOptions) → Quiet q → stack_limits q ≡ ok (limited stack q)
unfolding stack_limits
stack_limits-limited q quiet =
    let safe =
      trace-quiet 5 (record q { safe = clamp_safe q.safe }) (codes "stackapps: safesearch=%s\n")
        (str (level_name (clamp_safe q.safe)) ∷ []) (Quiet-above q 5 quiet) in
    let ready =
      trace-quiet 4 (limited stack q) (codes "stackapps: KEYWORDS = %s\n") (str q.keywords ∷ [])
        (Quiet-above q 4 quiet) in
    rw (safe_name-level_name q.safe, safe, ready) refl

advise-Quiet :
    (site : Keyed) (q : QueryOptions) (key : Option Bytes)
    → Quiet q
    → After Quiet (advise site q key)
unfolding recommend_key oute
advise-Quiet google q (some key) quiet = quiet
advise-Quiet custom q (some key) quiet = quiet
advise-Quiet stack q (some key) quiet = quiet
advise-Quiet google q none quiet =
    After-next Quiet (sprintf key_format _) _
      λ text. After-next Quiet (append q.err text) _ λ b. quiet
advise-Quiet custom q none quiet =
    After-next Quiet (sprintf key_format _) _
      λ text. After-next Quiet (append q.err text) _ λ b. quiet
advise-Quiet stack q none quiet =
    After-next Quiet (sprintf stack_key_format _) _
      λ text. After-next Quiet (append q.err text) _ λ b. quiet

-- What is made of a URL.
abbrev pub stored : QueryOptions → Bytes → Answer
stored q url =
    if ltb 2048 (length url)
    then (do
      told ← oute q (codes "Size of URL exceeds space set aside for it") []
      ok (negsuc 0, told))
    else ok (pos (length url), record q { querystr = take 2047 url })

module _ (s : Services) (q : QueryOptions) where
  abbrev pub setup_of : Keyed → Answer
  setup_of google = google_setup s q
  setup_of custom = custom_setup s q
  setup_of stack = stack_setup s q

  -- Where nothing is traced and the key is read or missing, the site's `setup` reports a missing key,
  -- limits the safe level to 0 up to 2 and the results to what the site allows, and makes the URL of
  -- the site's form. If this has more than 2048 bytes, -1 is returned, with a message in `err`;
  -- otherwise its size is returned, and `querystr` holds its first 2047 bytes.
  pub setup_of-url_of :
      (site : Keyed) (key : Option Bytes)
      → Quiet q
      → read_key s.env (keyfile_of site) ≡ ok key
      → setup_of site ≡ (
          advise site q key >>= λ told.
          stored (limited site told) (url_of site (limited site told) key))
  unfolding google_setup custom_setup stack_setup
  setup_of-url_of google key quiet read =
      let entered = trace-quiet 9 q (codes "Entering Setup\n") [] (Quiet-above q 9 quiet) in
      rw (entered, read)
        (After-cong Quiet (advise google q key) _ _ (advise-Quiet google q key quiet) λ told still.
          rw
            (
              google_limits-limited told still,
              google_url-url_of (limited google told) key (safe_name-level_name told.safe),
            )
            (store_url-quiet (limited google told) _ _ (Quiet-above told 9 still)))
  setup_of-url_of custom key quiet read =
      let entered = trace-quiet 9 q (codes "Entering Setup\n") [] (Quiet-above q 9 quiet) in
      rw (entered, read)
        (After-cong Quiet (advise custom q key) _ _ (advise-Quiet custom q key quiet) λ told still.
          rw
            (
              google_limits-limited told still,
              custom_url-url_of (limited custom told) key (safe_name-level_name told.safe),
            )
            (store_url-quiet (limited custom told) _ _ (Quiet-above told 9 still)))
  setup_of-url_of stack key quiet read =
      let entered =
        trace-quiet 9 q (codes "stackapps: Entering Setup\n") [] (Quiet-above q 9 quiet) in
      rw (entered, read)
        (After-cong Quiet (advise stack q key) _ _ (advise-Quiet stack q key quiet) λ told still.
          rw (stack_limits-limited told still, stack_url-url_of (limited stack told) key)
            (store_url-quiet (limited stack told) _ _ (Quiet-above told 9 still)))
