-- ===== src/Fit/Faults.antt =====
-- How the packing of src/gnugold/oldsrc/fit_results.c can fail.
use gnugol.Base.{
  ℕ, zero, suc, ◌+◌, ◌-◌, ◌*◌, Bool, true, false, ◌&&◌, none, some, List, [], ◌∷◌, ltb, ◌==◌,
  if◌then◌else◌, Bytes, codes, length, get_elem?, Result, ok, fault, overrun, underrun, bad_read,
  assertion, nonzero, ◌>>=◌, Option, Bool-cases, inl, inr,
}
use gnugol.Fit.{
  Kind, Results, Compressed, returned, fell_off, bytes_at, count_at, count, enough, strcat,
  strcat_all, put_section, put_sections, resulttypes, compress_results, is_compressed, fit_loop,
}

-- It reads what is not there or leaves an array, if it fails.
abbrev pub Expected : {A : Type 0} → Result A → Type 0
Expected (ok a) = Unit
Expected (fault bad_read) = Unit
Expected (fault overrun) = Unit
Expected (fault underrun) = ⊥
Expected (fault assertion) = ⊥

Expected-bind :
    {A B : Type 0} (m : Result A) (f : A → Result B)
    → Expected m
    → ((a : A) → Expected (f a))
    → Expected (m >>= f)
Expected-bind (ok a) f h k = k a
Expected-bind (fault bad_read) f h k = tt
Expected-bind (fault overrun) f h k = tt
Expected-bind (fault underrun) f h k = h
Expected-bind (fault assertion) f h k = h

Expected-if :
    {A : Type 0} (b : Bool) (m n : Result A)
    → Expected m
    → Expected n
    → Expected (if b then m else n)
Expected-if true m n h k = h
Expected-if false m n h k = k

read_of : (o : Option ℕ) → Expected (elim o [ none ↦ fault bad_read | some n ↦ ok n ])
read_of none = tt
read_of (some n) = tt

bytes_at-Expected : (wanted : Bool) (kind : Kind) (i : ℕ) → Expected (bytes_at wanted kind i)
unfolding bytes_at
bytes_at-Expected false kind i = tt
bytes_at-Expected true kind i = read_of (get_elem? kind.nbytes i)

count_at-Expected : (q : Results) (i nbytes : ℕ) → Expected (count_at q i nbytes)
unfolding count_at
count_at-Expected q i nbytes =
    Expected-bind (bytes_at q.options.urls q.links i) _ (bytes_at-Expected q.options.urls q.links i)
      λ links.
        Expected-bind (bytes_at (nonzero q.options.snippets) q.snippets i) _
          (bytes_at-Expected (nonzero q.options.snippets) q.snippets i)
          λ snippets.
            Expected-bind (bytes_at (nonzero q.options.titles) q.titles i) _
              (bytes_at-Expected (nonzero q.options.titles) q.titles i)
              λ titles.
                Expected-bind (bytes_at q.options.ads q.ads i) _
                  (bytes_at-Expected q.options.ads q.ads i)
                  λ ads.
                    Expected-bind (bytes_at q.options.misc q.misc i) _
                      (bytes_at-Expected q.options.misc q.misc i) λ misc. tt

count-Expected : (q : Results) (n i nbytes : ℕ) → Expected (count q n i nbytes)
unfolding count
count-Expected q zero i nbytes = tt
count-Expected q (suc n) i nbytes = on (ltb nbytes enough) (
    Expected-bind (count_at q i nbytes) _ (count_at-Expected q i nbytes)
      λ longer. count-Expected q n (i + 1) longer)
  where
    on :
        (more : Bool)
        → Expected (count_at q i nbytes >>= λ longer. count q n (i + 1) longer)
        → Expected (elim more [
          | false ↦ ok nbytes
          | true ↦ (count_at q i nbytes >>= λ longer. count q n (i + 1) longer)
        ])
    on true h = h
    on false h = tt

strcat-Expected : (capacity : ℕ) (text b : Bytes) → Expected (strcat capacity text b)
unfolding strcat
strcat-Expected capacity text b = Expected-if (ltb (length b + length text) capacity) _ _ tt tt

strcat_all-Expected :
    (capacity n : ℕ) (texts : List Bytes) (b : Bytes) → Expected (strcat_all capacity n texts b)
unfolding strcat_all
strcat_all-Expected capacity zero texts b = tt
strcat_all-Expected capacity (suc n) [] b = tt
strcat_all-Expected capacity (suc n) (t ∷ ts) b =
    Expected-bind (strcat capacity t b) _ (strcat-Expected capacity t b)
      λ longer. strcat_all-Expected capacity n ts longer

put_section-Expected :
    (capacity : ℕ) (wanted : Bool) (name : Bytes) (kind : Kind) (b : Bytes)
    → Expected (put_section capacity wanted name kind b)
unfolding put_section
put_section-Expected capacity wanted name kind b =
    Expected-if (wanted && ltb 0 kind.last) _ _
      (Expected-bind (strcat capacity name b) _ (strcat-Expected capacity name b) λ named.
        Expected-bind (strcat_all capacity (kind.last + 1) kind.texts named) _
          (strcat_all-Expected capacity (kind.last + 1) kind.texts named)
          λ filled. strcat-Expected capacity (codes "END\n") filled)
      tt

put_sections-Expected : (capacity : ℕ) (q : Results) → Expected (put_sections capacity q)
unfolding put_sections
put_sections-Expected capacity q =
    Expected-bind _ _ (put_section-Expected capacity q.options.urls (codes "LNK\n") q.links [])
      λ links.
        Expected-bind _ _
          (put_section-Expected capacity (nonzero q.options.snippets) (codes "SNP\n") q.snippets
            links)
          λ snippets.
            Expected-bind _ _
              (put_section-Expected capacity (nonzero q.options.titles) (codes "TLE\n") q.titles
                snippets)
              λ titles.
                Expected-bind _ _
                  (put_section-Expected capacity q.options.ads (codes "ADS\n") q.ads titles)
                  λ ads. put_section-Expected capacity q.options.misc (codes "MSC\n") q.misc ads

compress_results-Expected : (q : Results) (size : ℕ) → Expected (compress_results q size)
unfolding compress_results
compress_results-Expected q size =
    Expected-bind (count q (q.nresults - 1) 0 0) _ (count-Expected q (q.nresults - 1) 0 0) λ nbytes.
      Expected-if (nbytes == 0) _ _ tt (
        Expected-if (ltb (4 * size) nbytes) _ _ tt (
          Expected-bind (put_sections (nbytes + 8 * resulttypes q.options) q) _
            (put_sections-Expected (nbytes + 8 * resulttypes q.options) q) λ b. tt))

is_compressed-Expected : (c : Compressed) → Expected (is_compressed c)
unfolding is_compressed
is_compressed-Expected (returned n) = tt
is_compressed-Expected (fell_off b) = tt

pub fit_loop-Expected : (q : Results) (results : ℕ) → Expected (fit_loop q results)
unfolding fit_loop
fit_loop-Expected q zero = tt
fit_loop-Expected q (suc results) =
    Expected-bind (compress_results q (suc results)) _ (compress_results-Expected q (suc results))
      λ c. Expected-bind (is_compressed c) _ (is_compressed-Expected c) λ fits.
        elim (Bool-cases fits) [
          | inl on ↦ rw on tt
          | inr off ↦ rw off (fit_loop-Expected q results)
        ]
