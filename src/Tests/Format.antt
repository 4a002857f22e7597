-- ===== src/Tests/Format.antt =====
-- src/common/format.c and src/include/formats.h at concrete inputs.
use gnugol.Base.{
  ◌+◌, ◌-◌, ◌≡◌, refl, [], ◌∷◌, ◌++◌, Bytes, codes, take, ok, fault, overrun, true, some, arith,
  ◌>>=◌, List, until_nul, pos,
}
use gnugol.Clib.Printf.{Infix}
use gnugol.Format.Buffers.{append}
use gnugol.Format.Buffers.Log.{Holds, append_all, joined, append_all-joined, append_cut}
use gnugol.Format.Lines.{put_result}
use gnugol.Format.Lines.Printed.{is_tabular, put_result-Prints}
use gnugol.Format.Options.{stripped}
use gnugol.Handy.Strip.{strip_html, strip_loop, step, on_semicolon, on_blank, on_period, on_other}
use gnugol.Query.{Buffer, QueryOptions, zeroed, format_org}
use gnugol.Tests.Handy.{encoder}

abbrev buffer : Buffer
buffer = record { size = 8; len = 2; s = some (codes "ab") }

buffer-Holds : Holds buffer (codes "ab")
buffer-Holds = record {
  content = codes "ab";
  memory = refl;
  filled = refl;
  counted = refl;
  room = omega arith;
}

abbrev texts : List Bytes
texts = codes "cd" ∷ codes "e" ∷ []

append_all-joined_example :
    (c : Buffer) × (append_all buffer texts ≡ ok c) × Holds c (codes "ab" ++ joined texts)
append_all-joined_example = append_all-joined buffer (codes "ab") texts buffer-Holds (omega arith)

cut_then_overrun :
    (c : Buffer) × (append buffer (codes "cdefghijk") ≡ ok c)
    × (c.s ≡ some (codes "ab" ++ take (8 - 2 - 1) (codes "cdefghijk")))
    × (append c (codes "l") ≡ fault overrun)
cut_then_overrun =
    append_cut buffer (codes "ab") (codes "cdefghijk") (codes "l") buffer-Holds (omega arith)

abbrev org : QueryOptions
unfolding zeroed
org = record zeroed { format = format_org; indent = pos 1; out = buffer; wrn = buffer }

title_strips : stripped encoder (codes "<b>T</b>") ≡ ok (codes "T")
unfolding stripped strip_html strip_loop step on_semicolon on_blank on_period on_other until_nul
title_strips = refl

snippet_strips : stripped encoder (codes "a  b") ≡ ok (codes "a b")
unfolding stripped strip_html strip_loop step on_semicolon on_blank on_period on_other until_nul
snippet_strips = refl

org_tabular : is_tabular org.format ≡ true
unfolding is_tabular zeroed org
org_tabular = refl

put_result-Prints_example :
    (text : Bytes) × Infix (codes "u:") text
    × Infix (codes "T") text
    × Infix (codes "a b") text
    × (put_result encoder org (codes "u:") (codes "<b>T</b>") (codes "a  b") ≡ (
        append org.out text >>= λ b.
        ok (record org { out = b; returned_results = org.returned_results + 1 })))
put_result-Prints_example =
    put_result-Prints encoder org (codes "u:") (codes "<b>T</b>") (codes "a  b") (codes "T")
      (codes "a b") org_tabular title_strips snippet_strips
