-- ===== src/Search/Urls.antt =====
-- What the plugins' `setup` makes of the options.
use gnugol.Base.{
  ℕ, zero, suc, ◌≡◌, refl, true, false, List, [], ◌∷◌, ◌++◌, ltb, arith, if◌then◌else◌, ℤ, pos,
  negsuc, above, Bytes, codes, length, take, ok, ◌>>=◌, append-nil,
}
use gnugol.Clib.Printf.{Arg, str}
use gnugol.Format.Buffers.{oute}
use gnugol.Query.{QueryOptions}
use gnugol.Search.Duck.{duck_site, duck_setup}
use gnugol.Search.Query.{trace, clamp_safe, at_most, safe_name, print_url, store_url}

-- The options as `setup` of src/engines/duck.c leaves them, but for the URL.
abbrev pub duck_ready : QueryOptions → QueryOptions
duck_ready q = record q { safe = clamp_safe q.safe; nresults = at_most 8 q.nresults }

-- The whole URL.
unfoldable pub duck_url : QueryOptions → Bytes
duck_url q = duck_site ++ (codes "&q=" ++ q.keywords)

pub trace-quiet :
    (level : ℕ) (q : QueryOptions) (format : Bytes) (args : List Arg)
    → above q.debug level ≡ false
    → trace level q format args ≡ ok q
unfolding trace
trace-quiet level q format args quiet = rw quiet refl

safe_name-clamp_safe : (z : ℤ) → (name : Bytes) × (safe_name (clamp_safe z) ≡ ok name)
safe_name-clamp_safe (pos zero) = unfold safe_name in (_, refl)
safe_name-clamp_safe (pos (suc zero)) = unfold safe_name in (_, refl)
safe_name-clamp_safe (pos (suc (suc zero))) = unfold safe_name in (_, refl)
safe_name-clamp_safe (pos (suc (suc (suc n)))) =
    let over : ltb 2 (suc (suc (suc n))) ≡ true = ground arith in
    rw over (unfold safe_name in (_, refl))
safe_name-clamp_safe (negsuc n) = unfold safe_name in (_, refl)

print_url-duck_url :
    (q : QueryOptions)
    → print_url (codes "%s&q=%s") (str duck_site ∷ str q.keywords ∷ [])
      ≡ ok (length (duck_url q), take 2047 (duck_url q))
unfolding print_url duck_url
print_url-duck_url q = rw append-nil refl

pub store_url-quiet :
    (q : QueryOptions) (size : ℕ) (string : Bytes)
    → above q.debug 9 ≡ false
    → store_url q (size, string) ≡ (
        if ltb 2048 size
        then (do
          told ← oute q (codes "Size of URL exceeds space set aside for it") []
          ok (negsuc 0, told))
        else ok (pos size, record q { querystr = string }))
unfolding store_url
store_url-quiet q size string quiet =
    let silent =
      trace-quiet 9 (record q { querystr = string }) (codes "Exiting Setup\n") [] quiet in
    rw silent refl

-- Where nothing is traced, `duck_setup` limits the safe level to 0 up to 2 and the results to 8 and
-- makes the URL of the keywords. If this has more than 2048 bytes, -1 is returned, with a message
-- in `err`; otherwise its size is returned, and `querystr` holds its first 2047 bytes.
pub duck_setup-duck_url :
    (q : QueryOptions)
    → q.debug ≡ pos 0
    → duck_setup q ≡ (
        if ltb 2048 (length (duck_url q))
        then (do
          told ← oute (duck_ready q) (codes "Size of URL exceeds space set aside for it") []
          ok (negsuc 0, told))
        else ok (
          pos (length (duck_url q)),
          record (duck_ready q) { querystr = take 2047 (duck_url q) },
        ))
unfolding duck_setup
duck_setup-duck_url q quiet =
    let nine : above q.debug 9 ≡ false = rw quiet (ground arith) in
    let five : above q.debug 5 ≡ false = rw quiet (ground arith) in
    let four : above q.debug 4 ≡ false = rw quiet (ground arith) in
    let (name, named) = safe_name-clamp_safe q.safe in
    let limited = record q { safe = clamp_safe q.safe } in
    let entered = trace-quiet 9 q (codes "Entering Setup\n") [] nine in
    let safe = trace-quiet 5 limited (codes "duck: safesearch=%s\n") (str name ∷ []) five in
    let ready =
      trace-quiet 4 (duck_ready q) (codes "duck: KEYWORDS = %s\n") (str q.keywords ∷ []) four in
    let stored =
      store_url-quiet (duck_ready q) (length (duck_url q)) (take 2047 (duck_url q)) nine in
    rw (entered, named, safe, ready, print_url-duck_url q) stored
