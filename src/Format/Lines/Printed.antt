-- ===== src/Format/Lines/Printed.antt =====
-- What a line of output shows.
use gnugol.Base.{
  ℕ, ◌+◌, ◌≤◌, ◌<◌, ◌≡◌, refl, Bool, true, false, List, [], ◌∷◌, arith, Bytes, length, ok, ◌>>=◌,
  All,
}
use gnugol.Clib.Printf.{Arg, str, pieces, fill-accepts, sprintf, Infix, arg_text}
use gnugol.Format.Buffers.{append, outf}
use gnugol.Format.Lines.Parts.{all_accept, entry-accepts, entry_in, level_of-le}
use gnugol.Format.Lines.{Line, out, entry, org_line, result_line, emit, line_of, put_result, bit}
use gnugol.Format.Options.{stripped}
use gnugol.Format.Tables.{
  levels, hashes, org_format_str, wiki_format_str, text_format_str, html_format_str,
  mdwn_format_str, textile_format_str,
}
use gnugol.Handy.Entities.{Utf8}
use gnugol.Query.{
  format_none, format_raw, format_ssml, format_json, format_dns, Formatter, format_term,
  format_text, format_html, format_html5, format_elinks, format_wiki, format_iki, format_org,
  format_mdwn, format_textile, format_csv, format_sql, format_man, format_info, format_lisp,
  format_xml, QueryOptions,
}

-- The formats whose lines come from a table.
unfoldable pub is_tabular : Formatter → Bool
is_tabular format_iki = true
is_tabular format_wiki = true
is_tabular format_org = true
is_tabular format_textile = true
is_tabular format_mdwn = true
is_tabular format_term = true
is_tabular format_text = true
is_tabular format_html5 = true
is_tabular format_html = true
is_tabular format_elinks = true
is_tabular _ = false

-- A line that prints the URL, the title and the snippet.
record Prints (l : Line) (text : Bytes) : Type 0 where
  url : Infix l.u text
  title : Infix l.striptitle text
  snippet : Infix l.stripsnip text

printed :
    (table : List Bytes) (args : List Arg) (i : ℕ)
    → all_accept table args ≡ true
    → i < length table
    → (format : Bytes) × (entry table i ≡ ok format)
      × (text : Bytes) × (sprintf format args ≡ ok text)
      × All (λ a. Infix (arg_text a) text) args
unfolding sprintf
printed table args i accept bound =
    let (format, found, fits) = entry-accepts table args i accept bound in
    let (text, run, all) = fill-accepts (pieces format) args fits in (format, found, text, run, all)

abbrev Printed : Formatter → Line → Type 0
Printed f l =
    (format : Bytes) × (args : List Arg) × (text : Bytes) × (result_line org_line f l
      ≡ ok (out format args))
    × (sprintf format args ≡ ok text)
    × Prints l text

module _ (l : Line) (small : l.offset < 8) (near : l.level < 6) where
  wiki-Printed : Printed format_wiki l
  unfolding result_line wiki_format_str hashes all_accept
  wiki-Printed =
      let (stars, level) = entry_in hashes l.level near in
      let args = str stars ∷ str l.striptitle ∷ str l.u ∷ str l.padstr ∷ str l.stripsnip ∷ [] in
      let (format, found, text, run, all) = printed wiki_format_str args l.offset refl small in
      (
        format,
        args,
        text,
        rw found (rw level refl),
        run,
        record { url = all.1.1.0; title = all.1.0; snippet = all.1.1.1.1.0 },
      )

  org-Printed : Printed format_org l
  unfolding result_line org_format_str levels all_accept
  org-Printed =
      let (stars, level) = entry_in levels l.level near in
      let args = str stars ∷ str l.u ∷ str l.striptitle ∷ str l.padstr ∷ str l.stripsnip ∷ [] in
      let (format, found, text, run, all) = printed org_format_str args l.offset refl small in
      (
        format,
        args,
        text,
        rw found (rw level refl),
        run,
        record { url = all.1.0; title = all.1.1.0; snippet = all.1.1.1.1.0 },
      )

  textile-Printed : Printed format_textile l
  unfolding result_line textile_format_str all_accept
  textile-Printed =
      let args = str l.padstr ∷ str l.striptitle ∷ str l.u ∷ str l.padstr ∷ str l.stripsnip ∷ [] in
      let (format, found, text, run, all) = printed textile_format_str args l.offset refl small in
      (
        format,
        args,
        text,
        rw found refl,
        run,
        record { url = all.1.1.0; title = all.1.0; snippet = all.1.1.1.1.0 },
      )

  mdwn-Printed : Printed format_mdwn l
  unfolding result_line mdwn_format_str all_accept
  mdwn-Printed =
      let args = str l.padstr ∷ str l.striptitle ∷ str l.u ∷ str l.padstr ∷ str l.stripsnip ∷ [] in
      let (format, found, text, run, all) = printed mdwn_format_str args l.offset refl small in
      (
        format,
        args,
        text,
        rw found refl,
        run,
        record { url = all.1.1.0; title = all.1.0; snippet = all.1.1.1.1.0 },
      )

  text-Printed : Printed format_text l
  unfolding result_line text_format_str all_accept
  text-Printed =
      let args = str l.u ∷ str l.striptitle ∷ str l.stripsnip ∷ [] in
      let (format, found, text, run, all) = printed text_format_str args l.offset refl small in
      (
        format,
        args,
        text,
        rw found refl,
        run,
        record { url = all.0; title = all.1.0; snippet = all.1.1.0 },
      )

  html-Printed : Printed format_html l
  unfolding result_line html_format_str all_accept
  html-Printed =
      let args = str l.u ∷ str l.striptitle ∷ str l.stripsnip ∷ [] in
      let (format, found, text, run, all) = printed html_format_str args l.offset refl small in
      (
        format,
        args,
        text,
        rw found refl,
        run,
        record { url = all.0; title = all.1.0; snippet = all.1.1.0 },
      )

  tabular-Printed : (f : Formatter) → is_tabular f ≡ true → Printed f l
  unfolding is_tabular result_line
  tabular-Printed format_iki h = wiki-Printed
  tabular-Printed format_wiki h = wiki-Printed
  tabular-Printed format_org h = org-Printed
  tabular-Printed format_textile h = textile-Printed
  tabular-Printed format_mdwn h = mdwn-Printed
  tabular-Printed format_term h = text-Printed
  tabular-Printed format_text h = text-Printed
  tabular-Printed format_html5 h = html-Printed
  tabular-Printed format_html h = html-Printed
  tabular-Printed format_elinks h = html-Printed
  tabular-Printed format_none h = cc
  tabular-Printed format_raw h = cc
  tabular-Printed format_ssml h = cc
  tabular-Printed format_json h = cc
  tabular-Printed format_xml h = cc
  tabular-Printed format_csv h = cc
  tabular-Printed format_sql h = cc
  tabular-Printed format_man h = cc
  tabular-Printed format_dns h = cc
  tabular-Printed format_info h = cc
  tabular-Printed format_lisp h = cc

bit-le : (text : Bytes) (value : ℕ) → bit text value ≤ value
bit-le [] value = omega arith
bit-le (c ∷ text) value = omega arith

line_of-offset : (q : QueryOptions) (u t s a b : Bytes) → (line_of q u t s a b).offset < 8
unfolding line_of
line_of-offset q u t s a b =
    let x = bit-le u 1 in let y = bit-le t 2 in let z = bit-le s 4 in omega arith

line_of-level : (q : QueryOptions) (u t s a b : Bytes) → (line_of q u t s a b).level < 6
unfolding line_of
line_of-level q u t s a b = let x = level_of-le q.indent in omega arith

-- Where the format is one of the ten whose lines stand in a table, and the title and the snippet
-- are stripped, a result is one text that holds the URL, the stripped title and the stripped
-- snippet, appended to `out`; the result is counted; and nothing else of the options changes.
pub put_result-Prints :
    (enc : Utf8) (q : QueryOptions) (u t s title snippet : Bytes)
    → is_tabular q.format ≡ true
    → stripped enc t ≡ ok title
    → stripped enc s ≡ ok snippet
    → (text : Bytes) × Infix u text
      × Infix title text
      × Infix snippet text
      × (put_result enc q u t s ≡ (
          append q.out text >>= λ b.
          ok (record q { out = b; returned_results = q.returned_results + 1 })))
unfolding put_result outf emit line_of
put_result-Prints enc q u t s title snippet tab t_ok s_ok =
    let l = line_of q u t s title snippet in
    let (format, args, text, eq, run, p) =
      tabular-Printed l (line_of-offset q u t s title snippet) (line_of-level q u t s title snippet)
        q.format tab in
    (text, p.url, p.title, p.snippet, rw (s_ok, t_ok, eq, run) refl)
