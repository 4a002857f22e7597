-- ===== src/Format/Options.antt =====
-- `gnugol_init_QueryOptions`, `gnugol_reset_QueryOptions`, `gnugol_free_QueryOptions`,
-- `gnugol_header_out`, `gnugol_footer_out` and `gnugol_keywords_out` of src/common/format.c.
use gnugol.Base.{
  ℕ, ◌*◌, Bool, true, false, ◌||◌, Option, none, some, [], ◌∷◌, ltb, if◌then◌else◌, Bytes, codes,
  length, Result, ok, fault, overrun, ◌>>=◌, length,
}
use gnugol.Clib.Printf.{str}
use gnugol.Format.Buffers.{outf}
use gnugol.Handy.Entities.{Utf8}
use gnugol.Handy.Strip.{strip_html}
use gnugol.Query.{
  Formatter, format_html5, format_html, format_elinks, format_ssml, format_org, format_mdwn,
  format_term, QueryOptions, Buffer, zeroed,
}

abbrev pub snippet_size : ℕ
snippet_size = 2048

-- `NULLP(str)`
abbrev pub nullp : Option Bytes → Bytes
nullp none = []
nullp (some text) = text

abbrev is_null : Option Bytes → Bool
is_null none = true
is_null (some text) = false

-- What the three calls of `malloc` return: `none`, or the memory as it reads.
pub record Memory : Type 0 where
  pub err : Option Bytes
  pub out : Option Bytes
  pub wrn : Option Bytes

-- `gnugol_init_QueryOptions(q)`: whether it failed, and `*q`.
unfoldable pub gnugol_init_QueryOptions : Memory → Bool × QueryOptions
unfolding zeroed
gnugol_init_QueryOptions m = (
  is_null m.err || (is_null m.out || is_null m.wrn),
  record zeroed {
    out = record { size = 64 * 1024; len = 0; s = m.out };
    err = record { size = 4 * 1024; len = 0; s = m.err };
    wrn = record { size = 4 * 1024; len = 0; s = m.wrn };
  },
)

abbrev emptied : Buffer → Buffer
emptied b = record b { len = 0 }

-- `gnugol_reset_QueryOptions(q)`
unfoldable pub gnugol_reset_QueryOptions : QueryOptions → QueryOptions
unfolding zeroed
gnugol_reset_QueryOptions q = record zeroed {
  out = emptied q.out;
  err = emptied q.err;
  wrn = emptied q.wrn;
}

abbrev freed : Buffer
freed = record { size = 0; len = 0; s = none }

-- `gnugol_free_QueryOptions(q)`, compiled without `NDEBUG`.
unfoldable pub gnugol_free_QueryOptions : QueryOptions → QueryOptions
gnugol_free_QueryOptions q = record q { out = freed; err = freed; wrn = freed }

-- `strcpy` into `char …[2048]`, and `STRIPHTML` of it.
unfoldable pub stripped : Utf8 → Bytes → Result Bytes
stripped u text =
    if ltb (length text) snippet_size
    then (do (_, kept) ← strip_html u snippet_size text; ok kept)
    else fault overrun

abbrev html5_head : Bytes
html5_head = codes "<html><head><meta charset=\"UTF-8\"><title>%s%s</title></head><body>"

abbrev html_head : Bytes
html_head =
    codes
      "<html><head><meta http-equiv=\"Content-Type\" content=\"text/html; charset=utf-8\"><title>%s%s</title></head><body>"

abbrev ssml_head : Bytes
ssml_head = codes "Result for <emphasis level='moderate'> %s </emphasis>\n"

-- The `switch` of `gnugol_header_out`.
unfoldable pub header_line : Formatter → QueryOptions → Bytes → Result QueryOptions
header_line format_html5 q buffer = outf q html5_head (str (nullp q.header_str) ∷ str buffer ∷ [])
header_line format_html q buffer = outf q html_head (str (nullp q.header_str) ∷ str buffer ∷ [])
header_line format_elinks q buffer = outf q html_head (str (nullp q.header_str) ∷ str buffer ∷ [])
header_line format_ssml q buffer = outf q ssml_head (str buffer ∷ [])
header_line _ q buffer = ok q

-- `gnugol_header_out(q)`. The keywords are shorter than the buffer that they are copied to.
unfoldable pub gnugol_header_out : Utf8 → QueryOptions → Result QueryOptions
unfolding header_line
gnugol_header_out u q =
    if q.header then (do buffer ← stripped u q.keywords; header_line q.format q buffer) else ok q

-- The `switch` of `gnugol_footer_out`.
unfoldable pub footer_line : Formatter → QueryOptions → Result QueryOptions
footer_line format_html5 q = outf q (codes "</body></html>") []
footer_line format_html q = outf q (codes "</body></html>") []
footer_line format_elinks q = outf q (codes "</body></html>") []
footer_line format_org q = outf q (codes "\n") []
footer_line format_mdwn q = outf q (codes "\n") []
footer_line format_term q = outf q (codes "\n") []
footer_line _ q = ok q

-- `gnugol_footer_out(q)`
unfoldable pub gnugol_footer_out : QueryOptions → Result QueryOptions
unfolding footer_line
gnugol_footer_out q = if q.footer then footer_line q.format q else ok q

-- `gnugol_keywords_out(q)`
unfoldable pub gnugol_keywords_out : QueryOptions → QueryOptions
gnugol_keywords_out q = q
