-- ===== src/Format/Keeps.antt =====
-- What the functions that print leave as it was: the keywords.
use gnugol.Base.{◌≡◌, Option, List, [], Bytes, ok, After, After-if, After-next, ◌+◌}
use gnugol.Clib.Printf.{Arg, sprintf}
use gnugol.Format.Buffers.{append, outf, outw}
use gnugol.Format.Lines.{
  Emit, out, warn, emit, put_result, gnugol_result_out, result_line, org_line,
}
use gnugol.Format.Options.{header_line, gnugol_header_out, stripped}
use gnugol.Handy.Entities.{Utf8}
use gnugol.Query.{QueryOptions, Formatter, format_html5, format_html, format_elinks, format_ssml}

-- The options that have the keywords.
abbrev pub Has : Bytes → QueryOptions → Type 0
Has keywords q = q.keywords ≡ keywords

module _ (k : Bytes) where
  outf-Has :
      (q : QueryOptions) (format : Bytes) (args : List Arg)
      → Has k q
      → After (Has k) (outf q format args)
  unfolding outf
  outf-Has q format args h =
      After-next (Has k) (sprintf format args) _
        λ text. After-next (Has k) (append q.out text) _ λ b. h

  outw-Has :
      (q : QueryOptions) (format : Bytes) (args : List Arg)
      → Has k q
      → After (Has k) (outw q format args)
  unfolding outw
  outw-Has q format args h =
      After-next (Has k) (sprintf format args) _
        λ text. After-next (Has k) (append q.wrn text) _ λ b. h

  emit-Has : (q : QueryOptions) (line : Emit) → Has k q → After (Has k) (emit q line)
  unfolding emit
  emit-Has q (out format args) h = outf-Has q format args h
  emit-Has q (warn text) h = outw-Has q text [] h

  header_line-Has :
      (f : Formatter) (q : QueryOptions) (buffer : Bytes)
      → Has k q
      → After (Has k) (header_line f q buffer)
  unfolding header_line
  header_line-Has format_html5 q buffer h = outf-Has q _ _ h
  header_line-Has format_html q buffer h = outf-Has q _ _ h
  header_line-Has format_elinks q buffer h = outf-Has q _ _ h
  header_line-Has format_ssml q buffer h = outf-Has q _ _ h
  header_line-Has _ q buffer h = h

  pub gnugol_header_out-Has :
      (u : Utf8) (q : QueryOptions) → Has k q → After (Has k) (gnugol_header_out u q)
  unfolding gnugol_header_out
  gnugol_header_out-Has u q h =
      After-if (Has k) q.header _ (ok q)
        (After-next (Has k) (stripped u q.keywords) _ λ buffer. header_line-Has q.format q buffer h)
        h

  pub gnugol_result_out-Has :
      (enc : Utf8) (q : QueryOptions) (u t s : Option Bytes)
      → Has k q
      → After (Has k) (gnugol_result_out enc q u t s)
  unfolding gnugol_result_out put_result
  gnugol_result_out-Has enc q u t s h = After-if (Has k) _ (ok q) _ h (
      After-next (Has k) (stripped enc _) _ λ stripsnip.
        After-next (Has k) (stripped enc _) _ λ striptitle.
          After-next (Has k) (result_line org_line q.format _) _
            λ line. emit-Has (record q { returned_results = q.returned_results + 1 }) line h)
