-- ===== src/Client/Setup/Keywords.antt =====
-- What `finish_setup` makes of the words of a query.
use gnugol.Base.{
  ◌+◌, ◌-◌, Bool-cases, inl, inr, bad_read, ◌≤◌, ◌<◌, ◌≡◌, refl, Bool, true, false, ◌&&◌, none,
  some, List, [], ◌∷◌, ◌++◌, ltb, if◌then◌else◌, arith, Bytes, length, ok, fault, overrun,
  length-append, append_assoc, append-nil, sym, ◌∙◌, ap,
}
use gnugol.Client.Options.{Client}
use gnugol.Client.Setup.{
  Iconv, ready, add_words, separator, is_last, finish_words, finish_setup, load_engines,
  open_charset, set_keywords, some_output, about_output,
}
use gnugol.Engines.Load.{Loader}
use gnugol.Query.{QueryOptions}
use gnugol.Url.Escape.{url_escape_utf8}
use gnugol.Url.RoundTrip.{Ascii, url_escape_utf8-safe, url_unescape_utf8-url_escape_utf8}
use gnugol.Url.Unescape.{url_unescape_utf8}

-- The words with a separator between each two.
unfoldable pub joined : Bool → List Bytes → Bytes
joined escaped [] = []
joined escaped (w ∷ ws) = (w ++ separator escaped (is_last ws)) ++ joined escaped ws

-- Every word has less than 1200 bytes.
unfoldable pub all_short : List Bytes → Bool
all_short [] = true
all_short (w ∷ ws) = ltb (length w) 1200 && all_short ws

-- Short words are appended with their separators, where all of them fit.
add_words-joined :
    (iconv : Iconv) (o : QueryOptions) (string : Bytes) (args : List Bytes)
    → o.charset ≡ none
    → all_short args ≡ true
    → length string < 1280
    → add_words iconv o 0 string args ≡ (
        if ltb (length (string ++ joined o.url_escape args)) 1280
        then ok (0, string ++ joined o.url_escape args)
        else fault overrun)
unfolding add_words joined all_short
add_words-joined iconv o string [] plain short room =
    let t : ltb (length string) 1280 ≡ true = ground arith in rw (append-nil string, t) refl
add_words-joined iconv o string (w ∷ ws) plain short room =
    let more = w ++ separator o.url_escape (is_last ws) in
    let rest = joined o.url_escape ws in
    let small : ltb (1280 - 80) (length w + 1) ≡ false = ground arith in
    let total = length-append string (more ++ rest) in
    let tail = length-append more rest in
    let sum = length-append string more in
    rw (plain, small)
      (elim (Bool-cases (ltb (length string + length more) 1280)) [
        | inl e ↦ rw e (
            rw (← append_assoc string more rest)
              (add_words-joined iconv o (string ++ more) ws plain (ground arith) (ground arith)))
        | inr e ↦
            let over : ltb (length (string ++ (more ++ rest))) 1280 ≡ false = ground arith in
            rw (e, over) refl
      ])

-- Behind the loads of the engines.
setup_of_words :
    (load : Loader) (iconv : Iconv) (args : List Bytes) (c loaded : Client)
    → c.o.charset ≡ none
    → load_engines load c ≡ some loaded
    → finish_setup load iconv args c ≡ finish_words iconv args loaded
unfolding finish_setup
setup_of_words load iconv args c loaded plain loads =
    let open_none : open_charset iconv c.o.charset ≡ none = ap (open_charset iconv) plain in
    rw (finish_setup, open_none, loads) refl

outputs :
    (o : QueryOptions)
    → ((about_output (some_output o)).keywords ≡ o.keywords)
      × ((about_output (some_output o)).url_escape ≡ o.url_escape)
outputs o = ground arith

set_keywords-escaped :
    (o : QueryOptions) (s out : Bytes)
    → o.url_escape ≡ false
    → url_escape_utf8 s ≡ ok out
    → length out < 1024
    → set_keywords o s ≡ ok (record o { keywords = out; url_escape = true })
unfolding set_keywords
set_keywords-escaped o s out raw run small =
    let room : ltb (length out) 1024 ≡ true = ground arith in simp (raw, run, room)

-- Where no character set is given, the engines are loaded, every word has less than 1200 bytes and
-- the words with the separators between them have more than 1279, `string` is overrun: the check of
-- `querylen` does not add the lengths up.
pub finish_setup_overruns :
    (load : Loader) (iconv : Iconv) (args : List Bytes) (c loaded : Client)
    → c.o.charset ≡ none
    → load_engines load c ≡ some loaded
    → loaded.o.charset ≡ none
    → all_short args ≡ true
    → 1280 ≤ length (joined loaded.o.url_escape args)
    → finish_setup load iconv args c ≡ fault overrun
unfolding finish_words
finish_setup_overruns load iconv args c loaded plain loads still short long =
    let over : ltb (length (joined loaded.o.url_escape args)) 1280 ≡ false = ground arith in
    let words = add_words-joined iconv loaded.o [] args still short (omega arith) in
    setup_of_words load iconv args c loaded plain loads ∙ rw (words, over) refl

-- Where no character set is given, before and after the engines are loaded, they are loaded, the words
-- do not count as escaped, every word has less than 1200 bytes, and the words with blanks between them are ASCII and at most 341 bytes in all, the setup succeeds: the
-- keywords are those words in their escaped form, which `url_unescape_utf8` turns back to them where
-- it has room; and the keywords count as escaped.
pub finish_setup-keywords :
    (load : Loader) (iconv : Iconv) (args : List Bytes) (c loaded : Client) (junk : Bytes)
    → c.o.charset ≡ none
    → load_engines load c ≡ some loaded
    → loaded.o.charset ≡ none
    → loaded.o.url_escape ≡ false
    → all_short args ≡ true
    → Ascii (joined false args)
    → length (joined false args) ≤ 341
    → (after : Client) × (finish_setup load iconv args c ≡ ok (ready after))
      × (after.o.url_escape ≡ true)
      × (url_escape_utf8 (joined false args) ≡ ok after.o.keywords)
      × (url_unescape_utf8 (0 ∷ junk) after.o.keywords ≡ (
          if ltb (length (joined false args)) (length after.o.keywords)
          then ok (length (joined false args), joined false args)
          else fault bad_read))
unfolding finish_words
finish_setup-keywords load iconv args c loaded junk plain loads still raw short ascii small =
    let s = joined false args in
    let (out, run, _, _, _, bound) = url_escape_utf8-safe s ascii in
    let same : joined loaded.o.url_escape args ≡ s = ap (λ b. joined b args) raw in
    let fit : ltb (length s) 1280 ≡ true = ground arith in
    let words = add_words-joined iconv loaded.o [] args still short (omega arith) in
    let kept = set_keywords-escaped loaded.o s out raw run (omega arith) in
    let q = record loaded.o { keywords = out; url_escape = true } in
    let (keywords, escaped) = outputs q in
    (
      record loaded { o = about_output (some_output q) },
      setup_of_words load iconv args c loaded plain loads ∙ rw (words, same, fit, kept) refl,
      escaped,
      run ∙ ap ok (sym keywords),
      rw keywords (url_unescape_utf8-url_escape_utf8 s out junk ascii run),
    )
