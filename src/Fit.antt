-- ===== src/Fit.antt =====
-- src/gnugold/oldsrc/fit_results.c, less `build_query`: the server's answer as one text.
pub mod Sections
pub mod Faults
pub mod Refused
pub mod RoundTrip
use gnugol.Base.{
  ℕ, zero, suc, ◌+◌, ◌-◌, ◌*◌, Bool, true, false, not, ◌&&◌, Option, none, some, List, [], ◌∷◌,
  ◌++◌, ltb, leb, ◌==◌, if◌then◌else◌, ℤ, pos, negsuc, is_neg, above, nonzero, Bytes, codes, length,
  get_elem?, drop, Result, ok, fault, overrun, bad_read, ◌>>=◌,
}
use gnugol.Clib.Printf.{str, sprintf}
use gnugol.Query.{QueryOptions}

-- One kind of results: how many bytes each counts for, the index of the last one, and the texts.
pub record Kind : Type 0 where
  pub nbytes : List ℕ
  pub last : ℕ
  pub texts : List Bytes

-- The part of `QueryData` that the packing uses.
pub record Results : Type 0 where
  pub options : QueryOptions
  pub nresults : ℕ
  pub links : Kind
  pub snippets : Kind
  pub titles : Kind
  pub ads : Kind
  pub misc : Kind

-- `q->nlinkbytes[i]`, if it is wanted.
unfoldable pub bytes_at : Bool → Kind → ℕ → Result ℕ
bytes_at false kind i = ok 0
bytes_at true kind i = elim (get_elem? kind.nbytes i) [ none ↦ fault bad_read | some n ↦ ok n ]

-- `MAX_MTU - 40`
abbrev pub enough : ℕ
enough = 1240

-- One round of the count.
unfoldable pub count_at : Results → ℕ → ℕ → Result ℕ
unfolding bytes_at
count_at q i nbytes = do
  links ← bytes_at q.options.urls q.links i
  snippets ← bytes_at (nonzero q.options.snippets) q.snippets i
  titles ← bytes_at (nonzero q.options.titles) q.titles i
  ads ← bytes_at q.options.ads q.ads i
  misc ← bytes_at q.options.misc q.misc i
  ok (nbytes + links + snippets + titles + ads + misc)

-- The loop of the count, with its rounds up to `nresults-1`.
unfoldable pub count : Results → ℕ → ℕ → ℕ → Result ℕ
unfolding count_at
count q zero i nbytes = ok nbytes
count q (suc rounds) i nbytes = elim (ltb nbytes enough) [
  | false ↦ ok nbytes
  | true ↦ (do more ← count_at q i nbytes; count q rounds (i + 1) more)
]

abbrev pub one_if : Bool → ℕ
one_if on = if on then 1 else 0

-- `calloc(nbytes + 8*resulttypes,1)`; an option that is a negative `int` is left out of the model.
abbrev pub natural : ℤ → ℕ
natural (pos n) = n
natural (negsuc n) = 0

abbrev pub resulttypes : QueryOptions → ℕ
resulttypes o = one_if o.urls + natural o.snippets + natural o.titles + one_if o.ads + one_if o.misc

-- `strcat(b,text)` in `capacity` bytes.
unfoldable pub strcat : ℕ → Bytes → Bytes → Result Bytes
strcat capacity text b =
    if ltb (length b + length text) capacity then ok (b ++ text) else fault overrun

-- The loop over so many texts from the first on.
unfoldable pub strcat_all : ℕ → ℕ → List Bytes → Bytes → Result Bytes
unfolding strcat
strcat_all capacity zero texts b = ok b
strcat_all capacity (suc n) [] b = fault bad_read
strcat_all capacity (suc n) (t ∷ ts) b = do
  longer ← strcat capacity t b
  strcat_all capacity n ts longer

-- A section, from its name to `END`.
unfoldable pub put_section : ℕ → Bool → Bytes → Kind → Bytes → Result Bytes
unfolding strcat strcat_all
put_section capacity wanted name kind b =
    if wanted && ltb 0 kind.last
    then (do
      named ← strcat capacity name b
      filled ← strcat_all capacity (kind.last + 1) kind.texts named
      strcat capacity (codes "END\n") filled)
    else ok b

-- What `compress_results` ends with: a result, or the end of its body without one, with `b`.
pub data Compressed : Type 0 where
  returned : ℤ → Compressed
  fell_off : Bytes → Compressed

unfoldable pub put_sections : ℕ → Results → Result Bytes
unfolding put_section
put_sections capacity q = do
  links ← put_section capacity q.options.urls (codes "LNK\n") q.links []
  snippets ← put_section capacity (nonzero q.options.snippets) (codes "SNP\n") q.snippets links
  titles ← put_section capacity (nonzero q.options.titles) (codes "TLE\n") q.titles snippets
  ads ← put_section capacity q.options.ads (codes "ADS\n") q.ads titles
  put_section capacity q.options.misc (codes "MSC\n") q.misc ads

-- `compress_results(q,packet,size)`
unfoldable pub compress_results : Results → ℕ → Result Compressed
unfolding count put_sections
compress_results q size = do
  nbytes ← count q (q.nresults - 1) 0 0
  if nbytes == 0
      then ok (returned (pos 0))
      else if ltb (4 * size) nbytes
      then ok (returned (negsuc 0))
      else (do b ← put_sections (nbytes + 8 * resulttypes q.options) q; ok (fell_off b))

-- `(result = compress_results(q,buffer,results) > 0)`: the value of a call that fell off its end is
-- undefined.
unfoldable pub is_compressed : Compressed → Result Bool
is_compressed (returned n) = ok (above n 0)
is_compressed (fell_off b) = fault bad_read

-- The loop of `fit_buffer`, with `results` left, and what is returned behind it.
unfoldable pub fit_loop : Results → ℕ → Result ℤ
unfolding compress_results is_compressed
fit_loop q zero = ok (pos 0)
fit_loop q (suc results) = do
  answer ← compress_results q (suc results)
  fits ← is_compressed answer
  elim fits [ true ↦ ok (pos 1) | false ↦ fit_loop q results ]

-- `fit_buffer(results,buffer_size,q)`; `result` is read uninitialised where the loop has no round.
unfoldable pub fit_buffer : ℕ → Results → Result ℤ
unfolding fit_loop
fit_buffer results q =
    let rounds = if ltb q.nresults results then q.nresults else results in
    if rounds == 0 then fault bad_read else fit_loop q rounds

-- The name of the file of `update_filesystem`, where `[2]` and `[16]` are printed as they stand; it
-- reads behind a `sha` of fewer than four bytes.
unfoldable pub cache_file : Bytes → Result Bytes
unfolding sprintf
cache_file sha = if ltb (length sha) 4 then fault bad_read else (do
  name ←
      sprintf (codes "%s/queries/%s[2]/%s[2]/%s[16]")
        (str (codes "/var/cache/gnugol") ∷ str sha ∷ str (drop 2 sha) ∷ str (drop 4 sha) ∷ [])
  if leb 4096 (length name) then fault overrun else ok name)

-- `update_filesystem(sha,q)`, with whether a file can be opened; it writes nothing.
unfoldable pub update_filesystem : (Bytes → Bool) → Bytes → Result ℤ
unfolding cache_file
update_filesystem opens sha = do name ← cache_file sha; ok (if opens name then pos 0 else negsuc 0)

-- `lookaside_cache`
unfoldable pub lookaside_cache : Results → ℤ
lookaside_cache q = pos 1
