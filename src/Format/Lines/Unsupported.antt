-- ===== src/Format/Lines/Unsupported.antt =====
-- The formats that `gnugol_result_out` does not support.
use gnugol.Base.{◌+◌, ◌≡◌, refl, Bool, true, false, Bytes, codes, ok, ◌>>=◌}
use gnugol.Format.Buffers.{append, outw}
use gnugol.Clib.Printf.{sprintf}
use gnugol.Format.Lines.{Line, warn, org_line, result_line, emit, line_of, put_result}
use gnugol.Format.Options.{stripped}
use gnugol.Handy.Entities.{Utf8}
use gnugol.Query.{
  Formatter, format_none, format_raw, format_term, format_text, format_html, format_html5,
  format_elinks, format_wiki, format_iki, format_org, format_ssml, format_json, format_xml,
  format_mdwn, format_csv, format_sql, format_textile, format_man, format_dns, format_info,
  format_lisp, QueryOptions,
}

-- The formats that the `switch` names as unsupported.
unfoldable pub is_unsupported : Formatter → Bool
is_unsupported format_info = true
is_unsupported format_csv = true
is_unsupported format_man = true
is_unsupported format_xml = true
is_unsupported format_sql = true
is_unsupported format_lisp = true
is_unsupported _ = false

abbrev pub complaint : Bytes
complaint = codes "format: Output format unsupported\n"

unsupported_line :
    (f : Formatter) (l : Line)
    → is_unsupported f ≡ true
    → result_line org_line f l ≡ ok (warn complaint)
unfolding is_unsupported result_line
unsupported_line format_none l h = cc
unsupported_line format_raw l h = cc
unsupported_line format_term l h = cc
unsupported_line format_text l h = cc
unsupported_line format_html l h = cc
unsupported_line format_html5 l h = cc
unsupported_line format_elinks l h = cc
unsupported_line format_wiki l h = cc
unsupported_line format_iki l h = cc
unsupported_line format_org l h = cc
unsupported_line format_ssml l h = cc
unsupported_line format_json l h = cc
unsupported_line format_xml l h = refl
unsupported_line format_mdwn l h = cc
unsupported_line format_csv l h = refl
unsupported_line format_sql l h = refl
unsupported_line format_textile l h = cc
unsupported_line format_man l h = refl
unsupported_line format_dns l h = cc
unsupported_line format_info l h = refl
unsupported_line format_lisp l h = refl

-- Where the format is one that the code does not support, and the title and the snippet are
-- stripped, a result prints nothing to `out`: it appends a complaint to `wrn`. It is counted as a
-- result all the same.
put_result_unsupported :
    (enc : Utf8) (q : QueryOptions) (u t s title snippet : Bytes)
    → is_unsupported q.format ≡ true
    → stripped enc t ≡ ok title
    → stripped enc s ≡ ok snippet
    → put_result enc q u t s ≡ (
        append q.wrn complaint >>= λ b.
        ok (record q { wrn = b; returned_results = q.returned_results + 1 }))
unfolding put_result emit outw sprintf
put_result_unsupported enc q u t s title snippet h t_ok s_ok =
    rw (s_ok, t_ok, unsupported_line q.format (line_of q u t s title snippet) h) refl
