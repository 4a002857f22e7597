-- ===== src/Client/Options.antt =====
-- `output_type`, `process_options`, `gnugol_default_language` and `gnugol_default_QueryOptions` of
-- src/clients/gnugol.c, compiled without `HAVE_GNUGOLD`.
pub mod Last
pub mod Output
use gnugol.Base.{
  ℕ, ◌+◌, Bool, true, false, ◌||◌, Option, none, some, List, [], ◌∷◌, ◌++◌, ltb, ◌==◌, ◌%◌,
  if◌then◌else◌, ℤ, pos, negsuc, to_int, Bytes, codes, length, Result, ok, fault, overrun, ◌>>=◌,
}
use gnugol.Clib.Number.{strtoul}
use gnugol.Clib.Search.{strcmp}
use gnugol.Engines.Load.{Engine, Loader, gnugol_engine_load}
use gnugol.Query.{
  Formatter, format_html5, format_html, format_iki, format_wiki, format_xml, format_json,
  format_org, format_term, format_text, format_ssml, format_textile, format_raw, format_mdwn,
  format_info, format_csv, format_sql, format_man, format_dns, format_lisp, QueryOptions,
}
use Prim.Native.Nat.{Ordering}

-- `struct output_types`
pub record OutputType : Type 0 where
  pub id : Formatter
  pub desc : Bytes

abbrev output : Formatter → Bytes → OutputType
output id desc = record { id = id; desc = desc }

-- `output_type`, up to the entry that ends it.
unfoldable pub output_type : List OutputType
output_type =
    output format_html5 (codes "html5")
    ∷ output format_html (codes "html")
    ∷ output format_iki (codes "iki")
    ∷ output format_wiki (codes "wiki")
    ∷ output format_xml (codes "xml")
    ∷ output format_json (codes "json")
    ∷ output format_org (codes "org")
    ∷ output format_term (codes "term")
    ∷ output format_text (codes "text")
    ∷ output format_ssml (codes "ssml")
    ∷ output format_textile (codes "textile")
    ∷ output format_raw (codes "raw")
    ∷ output format_mdwn (codes "mdwn")
    ∷ output format_mdwn (codes "md")
    ∷ output format_mdwn (codes "markdown")
    ∷ output format_info (codes "info")
    ∷ output format_csv (codes "csv")
    ∷ output format_raw (codes "raw")
    ∷ output format_sql (codes "sql")
    ∷ output format_man (codes "man")
    ∷ output format_dns (codes "dns")
    ∷ output format_lisp (codes "lisp")
    ∷ []

-- The loop of the case `'o'`.
unfoldable pub select_format : List OutputType → Bytes → Formatter → Formatter
unfolding strcmp
select_format [] optarg format = format
select_format (t ∷ ts) optarg format =
    select_format ts optarg (elim (strcmp t.desc optarg) [ Ordering.eq ↦ t.id | _ ↦ format ])

-- What a call of `getopt_long` returns: the letter of the option, and `optarg`.
pub record Flag : Type 0 where
  pub opt : ℕ
  pub optarg : Bytes

-- The options, and the list `c_engines`.
pub record Client : Type 0 where
  pub o : QueryOptions
  pub c_engines : List Engine

-- `strtoul(optarg,NULL,10)`, put in an `int`.
abbrev pub number : Bytes → ℤ
number optarg = to_int (strtoul optarg)

-- `BOOLOPT`, and a number put in one bit.
abbrev pub low_bit : Bytes → Bool
low_bit optarg = strtoul optarg % 2 == 1

-- `strcpy` into `char …[12]`.
abbrev pub copy_language : Bytes → Result Bytes
copy_language text = if ltb (length text) 12 then ok text else fault overrun

-- `ListAddTail`, of an engine that is loaded.
abbrev add_engine : Option Engine → List Engine → List Engine
add_engine none engines = engines
add_engine (some engine) engines = engines ++ engine ∷ []

abbrev with_options : QueryOptions → Client → Result (Option Client)
with_options q c = ok (some (record c { o = q }))

-- The `switch`; the client with the option set, or `none` where `usage` ends the program.
unfoldable pub process_option : Loader → Flag → Client → Result (Option Client)
process_option load f c =
    if f.opt == b'a'
    then with_options (record c.o { about = true }) c
    else if f.opt == b'C'
    then with_options (record c.o { charset = some f.optarg }) c
    else if f.opt == b'd'
    then with_options (record c.o { desc = number f.optarg }) c
    else if f.opt == b'D'
    then with_options (record c.o { debug = number f.optarg }) c
    else if f.opt == b'e'
    then ok (
        some (record {
          o = record c.o { engine = true };
          c_engines = add_engine (gnugol_engine_load load f.optarg) c.c_engines;
        }))
    else if f.opt == b'F'
    then with_options (record c.o { footer = low_bit f.optarg }) c
    else if f.opt == b'H'
    then with_options (record c.o { header = low_bit f.optarg }) c
    else if f.opt == b'i'
    then with_options (record c.o { indent = number f.optarg }) c
    else if f.opt == b'l'
    then (copy_language f.optarg >>= λ text. with_options (record c.o { input_language = text }) c)
    else if f.opt == b'L'
    then (copy_language f.optarg >>= λ text. with_options (record c.o { output_language = text }) c)
    else if f.opt == b'n'
    then with_options (record c.o { nresults = number f.optarg }) c
    else if f.opt == b'o'
    then with_options (record c.o { format = select_format output_type f.optarg c.o.format }) c
    else if f.opt == b'p'
    then with_options (record c.o { position = number f.optarg }) c
    else if f.opt == b's'
    then with_options (record c.o { snippets = number f.optarg }) c
    else if f.opt == b'S'
    then with_options (record c.o { safe = number f.optarg }) c
    else if f.opt == b't'
    then with_options (record c.o { titles = number f.optarg }) c
    else if f.opt == b'u'
    then with_options (record c.o { urls = low_bit f.optarg }) c
    else if f.opt == b'U'
    then with_options (record c.o { url_escape = true }) c
    else if f.opt == b'v'
    then with_options (record c.o { verbose = true }) c
    else ok none

-- `process_options(argc,argv,o)`, over what `getopt_long` returns for the arguments.
unfoldable pub process_options : Loader → List Flag → Client → Result (Option Client)
process_options load [] c = ok (some c)
process_options load (f ∷ fs) c = process_option load f c >>= λ next. elim next [
  | none ↦ ok none
  | some c2 ↦ process_options load fs c2
]

-- `gnugol_default_language(q)`, with `getenv("LANG")`.
unfoldable pub gnugol_default_language : Option Bytes → QueryOptions → Result QueryOptions
gnugol_default_language none q = ok (record q { input_language = codes "en_US.utf8" })
gnugol_default_language (some lang) q =
    copy_language lang >>= λ text. ok (record q { input_language = text })

-- `gnugol_default_QueryOptions(q)`
unfoldable pub gnugol_default_QueryOptions : Option Bytes → QueryOptions → Result QueryOptions
unfolding gnugol_default_language
gnugol_default_QueryOptions lang q = gnugol_default_language lang (record q {
  nresults = pos 5;
  position = pos 0;
  urls = true;
  snippets = pos 1;
  titles = pos 1;
  engine_name = some (codes "duck");
  header = true;
  footer = true;
  format = format_org;
  indent = negsuc 0;
  safe = pos 1;
})
