-- ===== src/Tests/Credits.antt =====
-- src/engines/credits.c at concrete inputs.
use gnugol.Base.{
  ◌≡◌, refl, none, some, true, [], ◌∷◌, List, Option, pos, Bytes, codes, eq_bytes, ok, ◌>>=◌,
}
use gnugol.Engines.Load.{Loader}
use gnugol.Format.Options.{gnugol_header_out, gnugol_footer_out}
use gnugol.Query.{QueryOptions, Buffer, zeroed, format_org}
use gnugol.Search.Credits.Outline.{outline, print_items, credits_search-outline}
use gnugol.Search.Credits.Rows.{credits, cmap}
use gnugol.Search.Credits.Shows.{rows_of, credits_search-rows_of}
use gnugol.Search.Credits.{credits_search, plugin_name, search_engines, show_heading}
use gnugol.Search.Prints.{print_rows}
use gnugol.Tests.Handy.{encoder}

other : plugin_name (codes "so") (codes "duck.c") ≡ none
unfolding plugin_name eq_bytes
other = refl

no_dot : plugin_name (codes "so") (codes "torso") ≡ some (codes "to")
unfolding plugin_name eq_bytes
no_dot = refl

abbrev loader : Loader
loader = record {
  malloc = true;
  dlopen = λ path. some (record { setup = none; search = none; description = none });
  strdup = λ name. some name;
  shared_lib_dir = [];
  so_ext = codes "so";
}

abbrev files : Option (List Bytes)
files = some (codes "duck.so" ∷ codes "README" ∷ [])

abbrev asked : Bytes → QueryOptions
unfolding zeroed
asked keywords =
    let buffer : Buffer = record { size = 65536; len = 0; s = some [] } in
    record zeroed {
      format = format_org;
      out = buffer;
      wrn = buffer;
      err = buffer;
      keywords = keywords;
    }

credits_search-rows_of_example : credits_search encoder loader files (asked (codes "keys")) ≡ (
    gnugol_header_out encoder (record (asked (codes "keys")) { indent = pos 2 }) >>= λ headed.
    print_rows encoder headed (rows_of (codes "keys") credits) >>= λ last.
    gnugol_footer_out last >>= λ foot. ok (pos 0, foot))
unfolding asked eq_bytes
credits_search-rows_of_example =
    credits_search-rows_of encoder loader files (asked (codes "keys")) refl refl refl

credits_search-outline_example : credits_search encoder loader files (asked (codes "all")) ≡ (
    show_heading encoder
      (record (asked (codes "all")) { indent = pos 2 })
      (codes "Gnugol's supported search engines")
    >>= λ headed. gnugol_header_out encoder headed >>= λ begun.
        search_engines encoder loader files begun >>= λ listed.
        print_items encoder listed (outline cmap none credits) >>= λ last.
        gnugol_footer_out last >>= λ foot. ok (pos 0, foot))
unfolding asked eq_bytes
credits_search-outline_example =
    credits_search-outline encoder loader files (asked (codes "all")) refl
