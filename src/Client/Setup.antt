-- ===== src/Client/Setup.antt =====
-- `finish_setup` of src/clients/gnugol.c.
pub mod Keywords
use gnugol.Base.{
  ℕ, ◌+◌, ◌-◌, ◌*◌, Bool, true, false, not, ◌&&◌, ◌||◌, Option, none, some, List, [], ◌∷◌, ◌++◌,
  ltb, ◌==◌, if◌then◌else◌, ℤ, pos, nonzero, Bytes, codes, length, Result, ok, fault, overrun,
  assertion, ◌>>=◌,
}
use gnugol.Client.Options.{Client}
use gnugol.Engines.Load.{Engine, Loader, gnugol_engine_load}
use gnugol.Query.{QueryOptions}
use gnugol.Url.Escape.{url_escape_utf8}

-- `iconv_open` and `iconv`: an error number of the two calls of `iconv_open`, if one fails, and the
-- bytes that a word is converted to, or an error number.
pub record Iconv : Type 0 where
  pub opens : Bytes → Option ℕ
  pub convert : Bytes → Bytes → Result (ℕ × Bytes)

-- How `finish_setup` ends: with an error number, or with 0 and the client.
pub data Ended : Type 0 where
  failed : ℕ → Ended
  ready : Client → Ended

-- `ENOENT` and `EINVAL` of Linux.
abbrev pub no_entry : ℕ
no_entry = 2

abbrev pub invalid : ℕ
invalid = 22

-- The word that `string` is extended with: an error number of `iconv` that is not 0, or 0.
abbrev converted : Iconv → Option Bytes → Bytes → Result (ℕ × Bytes)
converted iconv none arg = ok (0, arg)
converted iconv (some charset) arg = iconv.convert charset arg >>= λ (errno, word).
    if nonzero (pos errno) || ltb 0 (length word) then ok (errno, word) else fault assertion

-- `i+1 < argc`
abbrev pub is_last {ℓ} : {A : Type ℓ} → List A → Bool
is_last [] = true
is_last (a ∷ rest) = false

-- What `strcat` puts behind the word.
abbrev pub separator : Bool → Bool → Bytes
separator escaped true = []
separator escaped false = if escaped then b'+' ∷ [] else b' ' ∷ []

-- `strcat(string,word)` and that of the separator, in `char string[1280]`.
abbrev pub extend : Bytes → Bytes → Result Bytes
extend string more =
    if ltb (length string + length more) 1280 then ok (string ++ more) else fault overrun

-- The loop over the arguments: an error number or 0, and `string`. `>` binds tighter than `+=`:
-- `querylen` counts the words that are longer than 1199 bytes.
unfoldable pub add_words : Iconv → QueryOptions → ℕ → Bytes → List Bytes → Result (ℕ × Bytes)
add_words iconv o querylen string [] = ok (0, string)
add_words iconv o querylen string (arg ∷ args) = converted iconv o.charset arg >>= λ (errno, word).
    let now = querylen + (if ltb (1280 - 80) (length word + 1) then 1 else 0) in
    if nonzero (pos errno)
    then ok (errno, string)
    else if nonzero (pos now)
    then ok (invalid, string)
    else (extend string (word ++ separator o.url_escape (is_last args)) >>= λ longer.
        add_words iconv o now longer args)

-- `char keywords[1024]`
abbrev pub keywords_size : ℕ
keywords_size = 1024

abbrev fits : Bytes → Result Bytes
fits text = if ltb (length text) keywords_size then ok text else fault overrun

-- What is copied to `o->keywords`, and `o->url_escape = 1`.
unfoldable pub set_keywords : QueryOptions → Bytes → Result QueryOptions
set_keywords o string =
    if o.url_escape then (do text ← fits string; ok (record o { keywords = text })) else (do
      escaped ← url_escape_utf8 string
      text ← fits escaped
      ok (record o { keywords = text; url_escape = true }))

-- `if(!(o->urls | o->snippets | o->ads | o->titles)) o->urls = 1;`
abbrev pub some_output : QueryOptions → QueryOptions
some_output o =
    if o.urls || (nonzero o.snippets || (o.ads || nonzero o.titles))
    then o
    else record o { urls = true }

-- `if(o->about) …`
abbrev pub about_output : QueryOptions → QueryOptions
about_output o =
    if o.about
    then record o { engine_name = some (codes "credits"); header_str = some (codes "About: ") }
    else o

-- `gnugol_engine_load`, and `ListAddTail` where it succeeds.
abbrev pub with_engine : Loader → Option Bytes → Client → Option Client
with_engine load none c = none
with_engine load (some name) c = elim (gnugol_engine_load load name) [
  | none ↦ none
  | some engine ↦ some (record c { c_engines = c.c_engines ++ engine ∷ [] })
]

abbrev is_nil {ℓ} : {A : Type ℓ} → List A → Bool
is_nil [] = true
is_nil (a ∷ rest) = false

-- The two conditional loads: the default engine, and the credits.
unfoldable pub load_engines : Loader → Client → Option Client
load_engines load c =
    if c.o.about
    then with_engine load (some (codes "credits")) c
    else if is_nil c.c_engines
    then with_engine load c.o.engine_name c
    else some c

-- `finish_setup` behind the loads.
unfoldable pub finish_words : Iconv → List Bytes → Client → Result Ended
finish_words iconv args c = add_words iconv c.o 0 [] args >>= λ (errno, string).
    if nonzero (pos errno) then ok (failed errno) else (do
      o ← set_keywords c.o string
      ok (ready (record c { o = about_output (some_output o) })))

abbrev pub open_charset : Iconv → Option Bytes → Option ℕ
open_charset iconv none = none
open_charset iconv (some charset) = iconv.opens charset

-- `finish_setup(o,idx,argc,argv)`, for the arguments from `idx` on, with an engine name that is not
-- `NULL`.
unfoldable pub finish_setup : Loader → Iconv → List Bytes → Client → Result Ended
finish_setup load iconv args c = elim (open_charset iconv c.o.charset) [
  | some errno ↦ ok (failed errno)
  | none ↦ elim (load_engines load c) [
    | none ↦ ok (failed no_entry)
    | some loaded ↦ finish_words iconv args loaded
  ]
]
