-- ===== src/Tests/Fit.antt =====
-- src/gnugold/oldsrc/fit_results.c at concrete inputs.
use gnugol.Answer.Lines.{is_entry, IsEntry, section}
use gnugol.Answer.RoundTrip.{Carried, answer, stored}
use gnugol.Answer.{QueryData, answer_parse}
use gnugol.Base.{
  ◌==◌, ◌-◌, ◌+◌, ◌*◌, ◌<◌, ◌≡◌, refl, true, some, List, [], ◌∷◌, map, pos, Bytes, codes, length,
  all, all_sound, eq_bytes, ok, fault, overrun, arith,
}
use gnugol.Fit.Refused.{Unfit, rounds, is_zero, fit_buffer-Unfit}
use gnugol.Fit.RoundTrip.{Counted, compress_results-answer_parse, compress_results_overruns}
use gnugol.Fit.Sections.{Lined, Packed}
use gnugol.Fit.{
  Kind, Results, bytes_at, count_at, count, fell_off, compress_results, fit_buffer, resulttypes,
}
use gnugol.Query.{QueryOptions, zeroed}

abbrev links : List Bytes
links = codes "http://a" ∷ codes "http://b" ∷ []

abbrev snippets : List Bytes
snippets = codes "x" ∷ codes "y" ∷ []

abbrev nothing : Kind
nothing = record { nbytes = []; last = 0; texts = [] }

abbrev url_options : QueryOptions
url_options = record zeroed { urls = true }

abbrev both_options : QueryOptions
both_options = record zeroed { urls = true; snippets = pos 1 }

-- The bytes are counted with the newlines and the NULs.
abbrev results : Results
results = record {
  options = both_options;
  nresults = 3;
  links = record {
    nbytes = 10 ∷ 10 ∷ [];
    last = 1;
    texts = codes "http://a\n" ∷ codes "http://b\n" ∷ [];
  };
  snippets = record { nbytes = 3 ∷ 3 ∷ []; last = 1; texts = codes "x\n" ∷ codes "y\n" ∷ [] };
  titles = nothing;
  ads = nothing;
  misc = nothing;
}

-- The bytes are counted with the newlines.
abbrev urls_only : Results
urls_only = record results {
  options = url_options;
  links = record {
    nbytes = 9 ∷ 9 ∷ [];
    last = 1;
    texts = codes "http://a\n" ∷ codes "http://b\n" ∷ [];
  };
}

abbrev asking : QueryData
asking = record {
  query = [];
  keywords = codes "x";
  options = both_options;
  links = [];
  snippets = [];
  titles = [];
}

links-Lined : Lined results.links links
links-Lined = record { several = omega arith; indexed = refl; texts = refl }

urls-Lined : Lined urls_only.links links
urls-Lined = record { several = omega arith; indexed = refl; texts = refl }

snippets-Lined : Lined results.snippets snippets
snippets-Lined = record { several = omega arith; indexed = refl; texts = refl }

packed : Packed results links snippets []
unfolding zeroed
packed = record {
  urls = refl;
  ads = refl;
  misc = refl;
  links_lined = links-Lined;
  snippets_lined = λ h. snippets-Lined;
  titles_lined = λ h. cc;
}

counted : Counted results 100 26
unfolding zeroed count count_at bytes_at
counted = record { counts = refl; some_bytes = omega arith; few_bytes = omega arith }

urls_counted : Counted urls_only 100 18
unfolding zeroed count count_at bytes_at
urls_counted = record { counts = refl; some_bytes = omega arith; few_bytes = omega arith }

few : (ls : List Bytes) → all is_entry ls ≡ true → length ls < 8 → Carried ls
few ls entries short = record {
  lines = all_sound IsEntry is_entry (λ l h. h) ls entries;
  few = short;
}

links_few : Carried links
unfolding all is_entry eq_bytes
links_few = few links refl (omega arith)

snippets_few : Carried snippets
unfolding all is_entry eq_bytes
snippets_few = few snippets refl (omega arith)

nothing_few : Carried []
unfolding all
nothing_few = few [] refl (omega arith)

room : length (answer both_options links snippets [] []) < 26 + 8 * resulttypes both_options
unfolding zeroed
room = omega arith

compress_results-answer_parse_example :
    (text : Bytes) × (compress_results results 100 ≡ ok (fell_off text))
    × (answer_parse (record asking { query = text })
        ≡ ok (
          pos 2,
          record asking {
            query = text;
            links = map some links;
            snippets = stored both_options.snippets snippets [];
            titles = stored both_options.titles [] [];
          },
        ))
compress_results-answer_parse_example =
    compress_results-answer_parse results asking 100 26 links snippets [] refl packed counted room
      links_few snippets_few nothing_few

exact : 18 + 8 * resulttypes url_options ≡ length (section (codes "LNK") links [])
unfolding zeroed
exact = refl

exact_count_overrun : compress_results urls_only 100 ≡ fault overrun
exact_count_overrun =
    compress_results_overruns urls_only 100 18 links refl urls-Lined urls_counted exact

fit_buffer-Unfit_example :
    Unfit
      (rounds 4 results == 0)
      (is_zero (count results (results.nresults - 1) 0 0))
      (fit_buffer 4 results)
fit_buffer-Unfit_example = fit_buffer-Unfit 4 results
