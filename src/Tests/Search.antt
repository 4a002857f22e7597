-- ===== src/Tests/Search.antt =====
-- src/engines and `jsonrequest` at concrete inputs.
use gnugol.Base.{
  ◌≡◌, refl, true, none, some, [], ◌∷◌, ltb, arith, if◌then◌else◌, pos, codes, eq_bytes, length,
  until_nul, ok, ◌>>=◌,
}
use gnugol.Engines.Key.{opened, gnugol_read_key, key_of, trim}
use gnugol.Format.Options.{gnugol_header_out, gnugol_footer_out}
use gnugol.Handy.Request.{jsonrequest, received, jsonrequest-received}
use gnugol.Search.Duck.{duck_search, duck_fields}
use gnugol.Search.Sites.{duck}
use gnugol.Search.Finds.{Answered, answer, search_of-print_rows}
use gnugol.Search.Stack.{stack_setup}
use gnugol.Search.Forms.{stack}
use gnugol.Search.Keyed.{advise, stored, setup_of-url_of}
use gnugol.Search.Forms.{limited, url_of}
use gnugol.Engines.Load.{Engine, Loader, gnugol_engine_load, gnugol_engine_query}
use gnugol.Search.Plugin.{duck_library, duck_asked, gnugol_engine_query-print_rows}
use gnugol.Search.Prints.{scalar, print_rows, print_array_bad}
use gnugol.Search.Query.{Services, read_key}
use gnugol.Search.Results.{print_array}
use gnugol.Search.Urls.{duck_url}
use gnugol.Tests.Handy.{encoder}
use gnugol.Tests.Answers.{root, topics, entry, library, curl, services, row, options, row-RowAt}

jsonrequest-received_example : jsonrequest (curl (codes "}")) (codes "u") ≡ (
    if ltb (length (received (codes "{" ∷ codes "}" ∷ []))) 65535
    then some (until_nul (received (codes "{" ∷ codes "}" ∷ [])))
    else none)
jsonrequest-received_example =
    jsonrequest-received (curl (codes "}")) (codes "u") refl refl refl refl

bad_row_stops : print_array (library (entry ∷ topics ∷ [])) encoder duck_fields options topics ≡ (
    gnugol_header_out encoder options >>= λ headed.
    print_rows encoder headed (row ∷ []) >>= λ last. ok (pos 1, last))
bad_row_stops =
    print_array_bad (library (entry ∷ topics ∷ [])) encoder duck_fields topics (row ∷ []) 0 options
      refl (row-RowAt (entry ∷ topics ∷ []) 0 refl, tt) (scalar topics refl refl)

options-Answered : Answered (services (codes "}")) options
unfolding received options
options-Answered = record {
  init = refl;
  malloc = refl;
  status = refl;
  code = refl;
  room = omega arith;
}

search_of-print_rows_example : duck_search (services (codes "}")) options ≡ (
    gnugol_header_out encoder options >>= λ headed.
    print_rows encoder headed (row ∷ row ∷ []) >>= λ last.
    gnugol_footer_out last >>= λ foot. ok (pos 0, foot))
unfolding answer received options eq_bytes until_nul
search_of-print_rows_example =
    search_of-print_rows (services (codes "}")) options duck root topics (row ∷ row ∷ []) refl
      options-Answered refl (refl, refl) refl
      (row-RowAt (entry ∷ entry ∷ []) 0 refl, (row-RowAt (entry ∷ entry ∷ []) 1 refl, tt))

abbrev loader : Loader
loader = record {
  malloc = true;
  dlopen = λ path. some (duck_library (services (codes "}")));
  strdup = λ name. some name;
  shared_lib_dir = [];
  so_ext = codes "so";
}

asked-Answered : Answered (services (codes "}")) (duck_asked options)
unfolding received options
asked-Answered = record {
  init = refl;
  malloc = refl;
  status = refl;
  code = refl;
  room = omega arith;
}

gnugol_engine_query-print_rows_example :
    (engine : Engine) × (gnugol_engine_load loader (codes "duck") ≡ some engine)
    × (gnugol_engine_query engine options ≡ (
        gnugol_header_out encoder (duck_asked options) >>= λ headed.
        print_rows encoder headed (row ∷ row ∷ []) >>= λ last.
        gnugol_footer_out last >>= λ foot. ok (pos 0, foot)))
unfolding answer received options eq_bytes until_nul duck_url
gnugol_engine_query-print_rows_example =
    gnugol_engine_query-print_rows loader (services (codes "}")) (codes "duck") options root topics
      (row ∷ row ∷ []) refl refl refl (omega arith) asked-Answered refl refl refl refl
      (row-RowAt (entry ∷ entry ∷ []) 0 refl, (row-RowAt (entry ∷ entry ∷ []) 1 refl, tt))

abbrev keyed : Services
keyed = record (services []) {
  env = record { home = some []; file = λ path. opened (codes "abc\n"); sysconfdir = [] };
}

setup_of-url_of_example : stack_setup keyed options ≡ (
    advise stack options (some (codes "abc")) >>= λ told.
    stored (limited stack told) (url_of stack (limited stack told) (some (codes "abc"))))
unfolding read_key gnugol_read_key key_of trim options
setup_of-url_of_example = setup_of-url_of keyed options stack (some (codes "abc")) refl refl
