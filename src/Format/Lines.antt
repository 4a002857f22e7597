-- ===== src/Format/Lines.antt =====
-- `gnugol_result_out` and `gnugol_result_out_long` of src/common/format.c.
mod Parts
pub mod Printed
pub mod Unsupported
use gnugol.Base.{
  is_empty, ℕ, zero, suc, ◌+◌, Bool, true, false, ◌&&◌, Option, none, some, List, [], ◌∷◌,
  if◌then◌else◌, ℤ, pos, negsuc, above, is_neg, nonzero, Bytes, codes, get_elem?, Result, ok, fault,
  bad_read, ◌>>=◌,
}
use gnugol.Clib.Printf.{Arg, str, num}
use gnugol.Format.Buffers.{outf, outw}
use gnugol.Format.Options.{nullp, stripped}
use gnugol.Format.Tables.{
  levels, hashes, org_format_str, org_format_str_long, wiki_format_str, text_format_str,
  html_format_str, mdwn_format_str, textile_format_str,
}
use gnugol.Handy.Entities.{Utf8}
use gnugol.Query.{
  Formatter, format_none, format_raw, format_term, format_text, format_html, format_html5,
  format_elinks, format_wiki, format_iki, format_org, format_ssml, format_json, format_xml,
  format_mdwn, format_csv, format_sql, format_textile, format_man, format_dns, format_info,
  format_lisp, QueryOptions,
}

-- `if(level > 5) level = 5; if(level < 0) level = 2;`
unfoldable pub level_of : ℤ → ℕ
level_of (pos n) = if above (pos n) 5 then 5 else n
level_of (negsuc n) = 2

-- `NULLPINT(u,1) | NULLPINT(t,2) | NULLPINT(s,4)`
abbrev pub bit : Bytes → ℕ → ℕ
bit text value = if is_empty text then 0 else value

blanks : ℕ → Bytes
blanks zero = []
blanks (suc n) = b' ' ∷ blanks n

-- `padstr`: `level + 1` blanks, or none.
unfoldable pub padstr_of : ℕ → Bytes → Bytes → Bytes → Bytes
unfolding blanks
padstr_of level u t s =
    if is_empty s then [] else if is_empty t && is_empty u then [] else blanks (level + 1)

-- What the `switch` on the format reads.
pub record Line : Type 0 where
  pub offset : ℕ
  pub level : ℕ
  pub u : Bytes
  pub t : Bytes
  pub s : Bytes
  pub striptitle : Bytes
  pub stripsnip : Bytes
  pub padstr : Bytes
  pub returned_results : ℕ

-- The call that the `switch` makes: one of `GNUGOL_OUTF`, or of `GNUGOL_OUTW`.
pub data Emit : Type 0 where
  out : Bytes → List Arg → Emit
  warn : Bytes → Emit

-- `table[i]`
abbrev pub entry : List Bytes → ℕ → Result Bytes
entry table i = elim (get_elem? table i) [ none ↦ fault bad_read | some text ↦ ok text ]

abbrev wiki_line : Line → Result Emit
wiki_line l = do
  format ← entry wiki_format_str l.offset
  stars ← entry hashes l.level
  ok (out format (str stars ∷ str l.striptitle ∷ str l.u ∷ str l.padstr ∷ str l.stripsnip ∷ []))

abbrev pub org_line : Line → Result Emit
org_line l = do
  format ← entry org_format_str l.offset
  stars ← entry levels l.level
  ok (out format (str stars ∷ str l.u ∷ str l.striptitle ∷ str l.padstr ∷ str l.stripsnip ∷ []))

abbrev pub org_line_long : Bytes → Line → Result Emit
org_line_long stripdesc l = do
  format ← entry org_format_str_long l.offset
  stars ← entry levels l.level
  ok (
      out format (
        str stars
        ∷ str l.u
        ∷ str l.striptitle
        ∷ str stripdesc
        ∷ str l.padstr
        ∷ str l.stripsnip
        ∷ []))

abbrev padded_line : List Bytes → Line → Result Emit
padded_line table l = do
  format ← entry table l.offset
  ok (out format (str l.padstr ∷ str l.striptitle ∷ str l.u ∷ str l.padstr ∷ str l.stripsnip ∷ []))

abbrev bare_line : List Bytes → Line → Result Emit
bare_line table l = do
  format ← entry table l.offset
  ok (out format (str l.u ∷ str l.striptitle ∷ str l.stripsnip ∷ []))

abbrev ssml_line : Line → Result Emit
ssml_line l = ok (
    out (codes "%s <mark name='%d'>%s</mark>.")
      (str l.stripsnip ∷ num l.returned_results ∷ str l.u ∷ []))

abbrev unsupported : Result Emit
unsupported = ok (warn (codes "format: Output format unsupported\n"))

abbrev default_line : Line → Result Emit
default_line l = ok (out (codes "<a href=\"%s\">%s</a> %s\n") (str l.u ∷ str l.t ∷ str l.s ∷ []))

-- The `switch` on the format; the two functions differ in the line for `FORMATORG`.
unfoldable pub result_line : (Line → Result Emit) → Formatter → Line → Result Emit
result_line org format_iki l = wiki_line l
result_line org format_wiki l = wiki_line l
result_line org format_ssml l = ssml_line l
result_line org format_org l = org l
result_line org format_textile l = padded_line textile_format_str l
result_line org format_mdwn l = padded_line mdwn_format_str l
result_line org format_term l = bare_line text_format_str l
result_line org format_text l = bare_line text_format_str l
result_line org format_html5 l = bare_line html_format_str l
result_line org format_html l = bare_line html_format_str l
result_line org format_elinks l = bare_line html_format_str l
result_line org format_info l = unsupported
result_line org format_csv l = unsupported
result_line org format_man l = unsupported
result_line org format_xml l = unsupported
result_line org format_sql l = unsupported
result_line org format_lisp l = unsupported
result_line org format_none l = default_line l
result_line org format_raw l = default_line l
result_line org format_json l = default_line l
result_line org format_dns l = default_line l

unfoldable pub emit : QueryOptions → Emit → Result QueryOptions
emit q (out format args) = outf q format args
emit q (warn text) = outw q text []

-- The values that both functions compute before the `switch`.
unfoldable pub line_of : QueryOptions → Bytes → Bytes → Bytes → Bytes → Bytes → Line
line_of q u t s striptitle stripsnip = record {
  offset = bit u 1 + bit t 2 + bit s 4;
  level = level_of q.indent;
  u = u;
  t = t;
  s = s;
  striptitle = striptitle;
  stripsnip = stripsnip;
  padstr = padstr_of (level_of q.indent) u t s;
  returned_results = q.returned_results + 1;
}

-- `if(!q->titles) t = "";` and its kin
abbrev pub shown : Bool → Option Bytes → Bytes
shown true text = nullp text
shown false text = []

-- `gnugol_result_out` behind its early return.
unfoldable pub put_result : Utf8 → QueryOptions → Bytes → Bytes → Bytes → Result QueryOptions
put_result enc q u t s = do
  stripsnip ← stripped enc s
  striptitle ← stripped enc t
  line ← result_line org_line q.format (line_of q u t s striptitle stripsnip)
  emit (record q { returned_results = q.returned_results + 1 }) line

-- `gnugol_result_out(q,url,title,snippet)`
unfoldable pub gnugol_result_out :
    Utf8 → QueryOptions → Option Bytes → Option Bytes → Option Bytes → Result QueryOptions
gnugol_result_out enc q url title snippet =
    let t = shown (nonzero q.titles) title in
    let u = shown q.urls url in
    let s = shown (nonzero q.snippets) snippet in
    if is_empty t && (is_empty u && is_empty s) then ok q else put_result enc q u t s

-- `gnugol_result_out_long` behind its early return.
unfoldable pub put_result_long :
    Utf8 → QueryOptions → Bytes → Bytes → Bytes → Bytes → Result QueryOptions
put_result_long enc q u t s d = do
  stripsnip ← stripped enc s
  striptitle ← stripped enc t
  stripdesc ← stripped enc d
  line ← result_line (org_line_long stripdesc) q.format (line_of q u t s striptitle stripsnip)
  emit (record q { returned_results = q.returned_results + 1 }) line

-- `gnugol_result_out_long(q,url,title,description,snippet)`
unfoldable pub gnugol_result_out_long :
    Utf8
    → QueryOptions
    → Option Bytes
    → Option Bytes
    → Option Bytes
    → Option Bytes
    → Result QueryOptions
gnugol_result_out_long enc q url title description snippet =
    let t = shown (nonzero q.titles) title in
    let u = shown q.urls url in
    let s = shown (nonzero q.snippets) snippet in
    let d = nullp description in
    if is_empty t && (is_empty u && (is_empty s && is_empty d))
    then ok q
    else put_result_long enc q u t s d
