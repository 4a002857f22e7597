-- ===== src/Search/Results.antt =====
-- The loops of the plugins over an answer.
use gnugol.Base.{ℕ, zero, suc, ◌+◌, some, pos, Bytes, ok, ◌>>=◌}
use gnugol.Format.Lines.{gnugol_result_out}
use gnugol.Format.Options.{gnugol_header_out, gnugol_footer_out}
use gnugol.Handy.Entities.{Utf8}
use gnugol.Query.{QueryOptions}
use gnugol.Search.Json.{JsonLibrary, Answer, get_array_idx, get_string}

-- The fields of a result that are its URL, its title and its snippet.
pub record Fields : Type 0 where
  pub url : Bytes
  pub title : Bytes
  pub snippet : Bytes

module _ (j : JsonLibrary) (u : Utf8) (f : Fields) where
  -- The body of the loop, and what `next` does behind it.
  unfoldable pub print_result : QueryOptions → j.Json → (QueryOptions → Answer) → Answer
  print_result q result next = get_string j q result f.url λ url.
      get_string j q result f.title λ title.
        get_string j q result f.snippet
          λ snippet. gnugol_result_out u q (some url) (some title) (some snippet) >>= next

  -- The loop from the index `i` on, with the rounds that are left, and the footer.
  unfoldable pub print_entries : ℕ → ℕ → QueryOptions → j.Json → Answer
  print_entries zero i q results = gnugol_footer_out q >>= λ last. ok (pos 0, last)
  print_entries (suc rounds) i q results =
      get_array_idx j q results i
        λ result. print_result q result λ next. print_entries rounds (i + 1) next results

  -- The header, the loop and the footer.
  unfoldable pub print_array : QueryOptions → j.Json → Answer
  print_array q results =
      gnugol_header_out u q >>= λ headed. print_entries (j.array_size results) 0 headed results
