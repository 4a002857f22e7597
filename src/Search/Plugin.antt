-- ===== src/Search/Plugin.antt =====
-- src/engines/duck.c as the plugin that src/common/engines.c loads and queries.
use gnugol.Base.{
  ◌<◌, ◌≡◌, refl, ◌∙◌, true, false, take-all, none, some, List, ltb, arith, pos, Bytes, codes,
  length, take, ok, inr, ◌>>=◌,
}
use gnugol.Engines.Load.{
  Library, Engine, Loader, gnugol_engine_load, gnugol_engine_query, libname, engine_of,
}
use gnugol.Format.Options.{gnugol_header_out, gnugol_footer_out}
use gnugol.Query.{QueryOptions}
use gnugol.Search.Duck.{duck_setup, duck_search, duck_fields}
use gnugol.Search.Sites.{duck}
use gnugol.Search.Finds.{Answered, answer, search_of-print_rows}
use gnugol.Search.Prints.{Row, RowsFrom, print_rows}
use gnugol.Search.Query.{Services}
use gnugol.Search.Urls.{duck_ready, duck_url, duck_setup-duck_url}

-- The object that the build makes of the file.
abbrev pub duck_library : Services → Library
duck_library s = record {
  setup = some duck_setup;
  search = some (duck_search s);
  description = none;
}

-- The options that `search` sees.
abbrev pub duck_asked : QueryOptions → QueryOptions
duck_asked q = record (duck_ready q) { querystr = duck_url q }

prepares :
    (q : QueryOptions)
    → q.debug ≡ pos 0
    → length (duck_url q) < 2048
    → duck_setup q ≡ ok (pos (length (duck_url q)), duck_asked q)
prepares q quiet short =
    let fits : ltb 2048 (length (duck_url q)) ≡ false = ground arith in
    let whole : take 2047 (duck_url q) ≡ duck_url q = take-all 2047 (duck_url q) (omega arith) in
    duck_setup-duck_url q quiet ∙ rw (fits, whole) refl

-- Where the object of src/engines/duck.c is loaded, nothing is traced, the URL of the keywords has
-- less than 2048 bytes and is answered with fewer than 65535 bytes that parse to an object whose
-- array `RelatedTopics` holds just the rows, a query of the engine does just what
-- printing the header, then each row once and in their order, then the footer does, and its result is
-- 0 if that leaves no array; where one of these prints does, as at a title or a snippet of 2048 bytes
-- or more, so does the query. The number of rows does not depend on `nresults`.
pub gnugol_engine_query-print_rows :
    (load : Loader) (s : Services) (name : Bytes) (q : QueryOptions) (root topics : s.json.Json)
    (rs : List Row)
    → load.malloc ≡ true
    → load.dlopen (libname load name) ≡ some (duck_library s)
    → q.debug ≡ pos 0
    → length (duck_url q) < 2048
    → Answered s (duck_asked q)
    → s.json.loads (answer s (duck_asked q)) ≡ inr root
    → s.json.object_get root (codes "RelatedTopics") ≡ some topics
    → s.json.is_array topics ≡ true
    → s.json.array_size topics ≡ length rs
    → RowsFrom s.json s.utf8 duck_fields topics 0 rs
    → (engine : Engine) × (gnugol_engine_load load name ≡ some engine)
      × (gnugol_engine_query engine q ≡ (
          gnugol_header_out s.utf8 (duck_asked q) >>= λ headed.
          print_rows s.utf8 headed rs >>= λ last.
          gnugol_footer_out last >>= λ foot. ok (pos 0, foot)))
unfolding gnugol_engine_load gnugol_engine_query
gnugol_engine_query-print_rows load s name q root topics rs room opens quiet short a loads at array
      size rows =
    (
      engine_of load name (duck_library s),
      rw (room, opens) refl,
      rw (prepares q quiet short) (
          search_of-print_rows s (duck_asked q) duck root topics rs quiet a loads (at, array) size
            rows),
    )
