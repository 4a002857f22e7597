-- ===== src/Search/Credits.antt =====
-- src/engines/credits.c.
pub mod Rows
pub mod Shows
pub mod Outline
use gnugol.Base.{
  ℕ, ◌+◌, ◌-◌, Bool, true, false, not, ◌||◌, ◌==◌, leb, Option, none, some, List, [], ◌∷◌,
  if◌then◌else◌, ℤ, pos, succ, pred, Bytes, codes, length, take, drop, eq_bytes, Result, ok, ◌>>=◌,
}
use gnugol.Engines.Load.{Engine, Loader, gnugol_engine_load}
use gnugol.Format.Lines.{gnugol_result_out}
use gnugol.Format.Options.{gnugol_header_out, gnugol_footer_out}
use gnugol.Handy.Entities.{Utf8}
use gnugol.Query.{QueryOptions}
use gnugol.Search.Credits.Rows.{Credit, Category, credits, cmap}
use gnugol.Search.Json.{Answer}

-- `q->keywords[0] == '\0'`
abbrev pub no_keywords : QueryOptions → Bool
no_keywords q = elim q.keywords [ [] ↦ true | c ∷ cs ↦ false ]

-- The name of the plugin in a file, if it has one: the file's name less the suffix and the byte
-- before it. What that byte is, is not asked.
unfoldable pub plugin_name : Bytes → Bytes → Option Bytes
plugin_name so_ext file =
    if leb (length file) (length so_ext)
    then none
    else if eq_bytes (drop (length file - length so_ext) file) so_ext
    then some (take (length file - length so_ext - 1) file)
    else none

-- What `header_no` is at a row, and the options: `none` stands for -1.
abbrev pub Shown : Type 0
Shown = Option ℕ × QueryOptions

abbrev pub is_header : Option ℕ → ℕ → Bool
is_header none j = false
is_header (some i) j = i == j

module _ (u : Utf8) where
  -- `gnugol_result_out(q,c[i].url,c[i].name,c[i].desc)`
  unfoldable pub show_credit : QueryOptions → Credit → Result QueryOptions
  show_credit q c = gnugol_result_out u q (some c.url) (some c.name) (some c.desc)

  -- A heading without a URL and a title, one level up.
  unfoldable pub show_heading : QueryOptions → Bytes → Result QueryOptions
  show_heading q text = do
    headed ←
        gnugol_result_out u (record q { indent = pred q.indent }) (some []) (some []) (some text)
    ok (record headed { indent = succ headed.indent })

  -- The body of the inner loop, where the names are equal.
  unfoldable pub show_under : Credit → ℕ → Category → Shown → Result Shown
  show_under c j k (header_no, q) =
      if is_header header_no j
      then (do told ← show_credit q c; ok (header_no, told))
      else (do headed ← show_heading q k.desc; told ← show_credit headed c; ok (some j, told))

  -- The loop over `cmap` from the row `j` on.
  unfoldable pub match_categories : Credit → ℕ → List Category → Shown → Result Shown
  match_categories c j [] at = ok at
  match_categories c j (k ∷ ks) at =
      (if eq_bytes k.catagory c.catagory then show_under c j k at else ok at)
      >>= match_categories c (j + 1) ks

  -- The loop over `c`.
  unfoldable pub match_credits : List Category → List Credit → Shown → Result Shown
  match_credits ks [] at = ok at
  match_credits ks (c ∷ cs) at = match_categories c 0 ks at >>= match_credits ks cs

  -- The loop over `c` where the keywords are a category.
  unfoldable pub pick_credits : List Credit → QueryOptions → Result QueryOptions
  pick_credits [] q = ok q
  pick_credits (c ∷ cs) q =
      (if eq_bytes c.catagory q.keywords then show_credit q c else ok q) >>= pick_credits cs

-- The files are those that `readdir_r` gives before it fails or ends, or `none` where `opendir` fails.
module _ (u : Utf8) (load : Loader) (files : Option (List Bytes)) where
  abbrev show_loaded : QueryOptions → Option Engine → Result QueryOptions
  show_loaded q none = ok q
  show_loaded q (some engine) = gnugol_result_out u q none engine.name (some engine.description)

  abbrev show_engine : QueryOptions → Option Bytes → Result QueryOptions
  show_engine q none = ok q
  show_engine q (some name) = show_loaded q (gnugol_engine_load load name)

  unfoldable pub list_engines : List Bytes → QueryOptions → Result QueryOptions
  unfolding plugin_name
  list_engines [] q = ok q
  list_engines (file ∷ more) q = show_engine q (plugin_name load.so_ext file) >>= list_engines more

  -- `search_engines(q)`
  unfoldable pub search_engines : QueryOptions → Result QueryOptions
  unfolding list_engines
  search_engines q = elim files [
    | none ↦ ok q
    | some names ↦ list_engines names q >>= λ listed.
        gnugol_result_out u listed (some (codes "http://gnugol.taht.net/bugs.html"))
          (some (codes "(more)"))
          (some (
            codes
              "More engines would be AWESOME! Citeseer and Gmane especially! See list on the web site for more...."))
  ]

  abbrev show_all : QueryOptions → Result QueryOptions
  show_all q = do
    headed ← show_heading u q (codes "Gnugol's supported search engines")
    begun ← gnugol_header_out u headed
    listed ← search_engines begun
    (header_no, told) ← match_credits u cmap credits (none, listed)
    gnugol_footer_out told

  abbrev show_engines : QueryOptions → Result QueryOptions
  show_engines q = do
    begun ← gnugol_header_out u q
    listed ← search_engines begun
    gnugol_footer_out listed

  abbrev show_category : QueryOptions → Result QueryOptions
  show_category q = if no_keywords q then ok q else (do
    begun ← gnugol_header_out u q
    told ← pick_credits u credits begun
    gnugol_footer_out told)

  abbrev show_answer : QueryOptions → Result QueryOptions
  show_answer q =
      if eq_bytes (codes "all") q.keywords || no_keywords q
      then show_all q
      else if eq_bytes (codes "engines") q.keywords
      then show_engines q
      else show_category q

  -- `search(q)`
  unfoldable pub credits_search : QueryOptions → Answer
  credits_search q = do told ← show_answer (record q { indent = pos 2 }); ok (pos 0, told)
