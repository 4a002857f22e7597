-- ===== src/Udp/Request.antt =====
-- What `build_query` writes.
use gnugol.Answer.{QueryData}
use gnugol.Base.{
  length-prefix, is_empty, ap, ℕ, ◌+◌, ◌<◌, ◌≡◌, refl, sym, Bool, true, false, not, ◌&&◌, List, [],
  ◌∷◌, ◌++◌, ltb, if◌then◌else◌, pos, nonzero, Bytes, codes, length, ok, arith, append-nil,
  length-append,
}
use gnugol.Udp.{Undefined, cat, cat_if, print_if, is_int, head_line, body, build_query}

-- A word of the request, where it is asked for.
abbrev pub word : Bool → Bytes → Bytes
word on text = if on then text else []

-- The words, one behind the other.
abbrev pub appended : Bytes → List Bytes → Bytes
appended text [] = text
appended text (w ∷ ws) = appended (text ++ w) ws

abbrev pub head : Undefined → QueryData → Bytes
head undefined q = appended (codes "GET GNGL/" ++ undefined.version ++ codes " ") (
    word q.options.urls (codes "LNK ")
    ∷ word (nonzero q.options.titles) (codes "TLE ")
    ∷ word (nonzero q.options.snippets) (codes "SNP ")
    ∷ word q.options.ads (codes "ADS ")
    ∷ word q.options.misc (codes "MSC ")
    ∷ word q.options.prime (codes "PRM ")
    ∷ codes "\n"
    ∷ [])

-- The whole request.
abbrev pub whole_request : Undefined → QueryData → Bytes
whole_request undefined q = (head undefined q ++ body q.keywords) ++ codes "\nEND\n"

cat_fits :
    (size : ℕ) (text query : Bytes)
    → length (query ++ text) < size
    → cat size text query ≡ ok (query ++ text)
unfolding cat
cat_fits size text query h =
    let room : ltb (length query + length text) size ≡ true =
      ground (arith, length-append query text) in
    rw room refl

-- A word that is asked for is written behind the others, if all fits.
cat_if_fits :
    (size : ℕ) (on : Bool) (text query : Bytes)
    → length (query ++ word on text) < size
    → cat_if size on text query ≡ ok (query ++ word on text)
unfolding cat_if
cat_if_fits size true text query h = cat_fits size text query h
cat_if_fits size false text query h = ap ok (sym (append-nil query))

head_line-head :
    (undefined : Undefined) (size : ℕ) (q : QueryData)
    → is_int q.options.position 0 ≡ true
    → is_int q.options.nresults 10 ≡ true
    → length (head undefined q) < size
    → head_line undefined size q ≡ ok (head undefined q)
unfolding head_line print_if
head_line-head undefined size q first ten fits =
    let a0 : Bytes = codes "GET GNGL/" ++ undefined.version ++ codes " " in
    let a1 : Bytes = a0 ++ word q.options.urls (codes "LNK ") in
    let a2 : Bytes = a1 ++ word (nonzero q.options.titles) (codes "TLE ") in
    let a3 : Bytes = a2 ++ word (nonzero q.options.snippets) (codes "SNP ") in
    let a4 : Bytes = a3 ++ word q.options.ads (codes "ADS ") in
    let a5 : Bytes = a4 ++ word q.options.misc (codes "MSC ") in
    let a6 : Bytes = a5 ++ word q.options.prime (codes "PRM ") in
    let l6 : length a6 < size = omega (arith, length-prefix a6 (codes "\n")) in
    let l5 : length a5 < size =
      omega (arith, length-prefix a5 (word q.options.prime (codes "PRM "))) in
    let l4 : length a4 < size =
      omega (arith, length-prefix a4 (word q.options.misc (codes "MSC "))) in
    let l3 : length a3 < size =
      omega (arith, length-prefix a3 (word q.options.ads (codes "ADS "))) in
    let l2 : length a2 < size =
      omega (arith, length-prefix a2 (word (nonzero q.options.snippets) (codes "SNP "))) in
    let l1 : length a1 < size =
      omega (arith, length-prefix a1 (word (nonzero q.options.titles) (codes "TLE "))) in
    let l0 : length a0 < size =
      omega (arith, length-prefix a0 (word q.options.urls (codes "LNK "))) in
    rw
      (
        cat_fits size a0 [] l0,
        cat_if_fits size q.options.urls (codes "LNK ") a0 l1,
        cat_if_fits size (nonzero q.options.titles) (codes "TLE ") a1 l2,
        cat_if_fits size (nonzero q.options.snippets) (codes "SNP ") a2 l3,
        cat_if_fits size q.options.ads (codes "ADS ") a3 l4,
        cat_if_fits size q.options.misc (codes "MSC ") a4 l5,
        cat_if_fits size q.options.prime (codes "PRM ") a5 l6,
        first,
        ten,
        cat_fits size (codes "\n") a6 fits,
      )
      refl

-- With room for it, no keywords only where the connection is primed, and the position and the
-- number of results left at 0 and 10, `build_query` returns 0 and writes the whole request: the
-- words asked for in their order, the keywords or an empty line, and `END`.
pub build_query-whole_request :
    (undefined : Undefined) (size : ℕ) (q : QueryData)
    → is_int q.options.position 0 ≡ true
    → is_int q.options.nresults 10 ≡ true
    → (is_empty q.keywords && not q.options.prime) ≡ false
    → length (whole_request undefined q) < size
    → build_query undefined size q ≡ ok (pos 0, record q { query = whole_request undefined q })
unfolding build_query
build_query-whole_request undefined size q first ten filled fits =
    let l1 : length (head undefined q ++ body q.keywords) < size =
      omega (arith, length-prefix (head undefined q ++ body q.keywords) (codes "\nEND\n")) in
    let l0 : length (head undefined q) < size =
      omega (arith, length-prefix (head undefined q) (body q.keywords)) in
    rw
      (
        head_line-head undefined size q first ten l0,
        filled,
        cat_fits size (body q.keywords) (head undefined q) l1,
        cat_fits size (codes "\nEND\n") (head undefined q ++ body q.keywords) fits,
      )
      refl
