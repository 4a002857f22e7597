-- ===== src/Search/Prints.antt =====
-- What the plugins print of an answer.
use gnugol.Base.{
  ℕ, suc, ◌+◌, ◌≡◌, refl, sym, ◌∙◌, subst, true, false, none, some, List, [], ◌∷◌, arith, pos,
  Bytes, length, Result, ok, ◌>>=◌, >>=-assoc, >>=-cong,
}
use gnugol.Format.Lines.{gnugol_result_out}
use gnugol.Format.Options.{gnugol_header_out, gnugol_footer_out}
use gnugol.Handy.Entities.{Utf8}
use gnugol.Query.{QueryOptions}
use gnugol.Search.Json.{
  JsonLibrary, get_array_idx, string_field, gave_up, get_array_idx-some, get_string-some,
  get_string-none,
}
use gnugol.Search.Results.{Fields, print_result, print_entries, print_array}

-- A result as the program prints it.
pub record Row : Type 0 where
  pub url : Bytes
  pub title : Bytes
  pub snippet : Bytes

-- The results, one after the other.
unfoldable pub print_rows : Utf8 → QueryOptions → List Row → Result QueryOptions
print_rows u q [] = ok q
print_rows u q (r ∷ rs) =
    gnugol_result_out u q (some r.url) (some r.title) (some r.snippet) >>= λ next.
    print_rows u next rs

module _ (j : JsonLibrary) (u : Utf8) (f : Fields) (results : j.Json) where
  -- The value at the index is an object with the row's three strings.
  pub record RowAt (i : ℕ) (r : Row) : Type 0 where
    pub value : j.Json
    pub at : j.array_get results i ≡ some value
    pub object : j.is_object value ≡ true
    pub url : string_field j value f.url ≡ some r.url
    pub title : string_field j value f.title ≡ some r.title
    pub snippet : string_field j value f.snippet ≡ some r.snippet

  -- From the index on the array holds the rows.
  abbrev pub RowsFrom : ℕ → List Row → Type 0
  RowsFrom i [] = Unit {0}
  RowsFrom i (r ∷ rs) = RowAt i r × RowsFrom (i + 1) rs

  round :
      (rounds i : ℕ) (q : QueryOptions) (r : Row)
      → RowAt i r
      → print_entries j u f (suc rounds) i q results ≡ (
          gnugol_result_out u q (some r.url) (some r.title) (some r.snippet) >>= λ next.
          print_entries j u f rounds (i + 1) next results)
  unfolding print_entries print_result
  round rounds i q r row =
      get_array_idx-some j q results i row.value _ row.at row.object
      ∙ get_string-some j q row.value f.url r.url _ row.url
      ∙ get_string-some j q row.value f.title r.title _ row.title
      ∙ get_string-some j q row.value f.snippet r.snippet _ row.snippet

  print_entries-print_rows :
      (rs : List Row) (i : ℕ) (q : QueryOptions)
      → RowsFrom i rs
      → print_entries j u f (length rs) i q results
        ≡ (print_rows u q rs >>= λ last. gnugol_footer_out last >>= λ foot. ok (pos 0, foot))
  unfolding print_rows
  print_entries-print_rows [] i q rows = unfold print_entries in refl
  print_entries-print_rows (r ∷ rs) i q rows =
      round (length rs) i q r rows.0
      ∙ >>=-cong (gnugol_result_out u q (some r.url) (some r.title) (some r.snippet)) _ _
          (λ next. print_entries-print_rows rs (i + 1) next rows.1)
      ∙ sym (>>=-assoc (gnugol_result_out u q (some r.url) (some r.title) (some r.snippet)) _ _)

  -- On an array that holds just the rows, the header is printed, then each row once and in their
  -- order, and then the footer; and 0 is returned.
  pub print_array-print_rows :
      (rs : List Row) (q : QueryOptions)
      → j.array_size results ≡ length rs
      → RowsFrom 0 rs
      → print_array j u f q results ≡ (
          gnugol_header_out u q >>= λ headed.
          print_rows u headed rs >>= λ last. gnugol_footer_out last >>= λ foot. ok (pos 0, foot))
  unfolding print_array
  print_array-print_rows rs q size rows =
      rw size
        (>>=-cong (gnugol_header_out u q) _ _ λ headed. print_entries-print_rows rs 0 headed rows)

  -- What makes the loop give up at the index.
  pub data BadAt (i : ℕ) : Type 0 where
    past : j.array_get results i ≡ none → BadAt i
    scalar :
        (value : j.Json) → j.array_get results i ≡ some value → j.is_object value ≡ false → BadAt i
    no_url :
        (value : j.Json)
        → j.array_get results i ≡ some value
        → j.is_object value ≡ true
        → string_field j value f.url ≡ none
        → BadAt i

  gives_up :
      (rounds i : ℕ) (q : QueryOptions)
      → BadAt i
      → print_entries j u f (suc rounds) i q results ≡ gave_up q
  unfolding print_entries print_result
  gives_up rounds i q (past at) = unfold get_array_idx in rw (at, get_array_idx) refl
  gives_up rounds i q (scalar value at other) =
      unfold get_array_idx in rw (at, other, get_array_idx) refl
  gives_up rounds i q (no_url value at object missing) =
      get_array_idx-some j q results i value _ at object ∙ get_string-none j q value f.url _ missing

  print_entries_bad :
      (rs : List Row) (rounds i bad all : ℕ) (q : QueryOptions)
      → RowsFrom i rs
      → bad ≡ i + length rs
      → all ≡ length rs + suc rounds
      → BadAt bad
      → print_entries j u f all i q results ≡ (print_rows u q rs >>= λ last. gave_up last)
  unfolding print_rows
  print_entries_bad [] rounds i bad all q rows at size stop =
      let here : bad ≡ i = omega arith in
      let left : all ≡ suc rounds = omega arith in
      rw left (gives_up rounds i q (subst BadAt here stop))
  print_entries_bad (r ∷ rs) rounds i bad all q rows at size stop =
      let left : all ≡ suc (length rs + suc rounds) = omega arith in
      rw left (
        round (length rs + suc rounds) i q r rows.0
        ∙ >>=-cong (gnugol_result_out u q (some r.url) (some r.title) (some r.snippet)) _ _ (λ next.
          print_entries_bad rs rounds (i + 1) bad (length rs + suc rounds) next rows.1 (omega arith)
            refl stop)
        ∙ sym (>>=-assoc (gnugol_result_out u q (some r.url) (some r.title) (some r.snippet)) _ _))

  -- On an array that holds the rows, then an entry that is missing, that is no object or that has no
  -- string for the URL, and any number of further entries, the header is printed, then each of the
  -- rows once and in their order; then 1 is returned, and neither a further entry nor the footer is
  -- printed.
  pub print_array_bad :
      (rs : List Row) (rounds : ℕ) (q : QueryOptions)
      → j.array_size results ≡ length rs + suc rounds
      → RowsFrom 0 rs
      → BadAt (length rs)
      → print_array j u f q results
        ≡ (gnugol_header_out u q >>= λ headed. print_rows u headed rs >>= λ last. ok (pos 1, last))
  unfolding print_array
  print_array_bad rs rounds q size rows stop = rw size (
      >>=-cong (gnugol_header_out u q) _ _ λ headed.
        print_entries_bad rs rounds 0 (length rs) (length rs + suc rounds) headed rows (omega arith)
          refl stop)
