-- ===== src/Fit/RoundTrip.antt =====
-- What `compress_results` packs, and what the parser makes of it.
use gnugol.Answer.Lines.{section, lines_onto}
use gnugol.Answer.RoundTrip.{Carried, answer, stored, answer_parse-answer}
use gnugol.Answer.{QueryData, answer_parse}
use gnugol.Base.{
  if_false, ℕ, ◌+◌, ◌-◌, ◌*◌, ◌≤◌, ◌<◌, ◌≡◌, refl, ap, sym, ◌∙◌, true, false, some, List, [], ◌++◌,
  map, ltb, ◌==◌, pos, Bytes, codes, length, length-append, length-prefix, ok, fault, overrun,
  ◌>>=◌, arith,
}
use gnugol.Fit.Sections.{
  Lined, Packed, put_sections-answer, strcat_all-lines, strcat-fits, section-append,
}
use gnugol.Fit.{
  Kind, Results, count, strcat, put_section, put_sections, fell_off, compress_results, resulttypes,
}

-- The count lets the results through, and makes `b` so large.
pub record Counted (q : Results) (size nbytes : ℕ) : Type 0 where
  pub counts : count q (q.nresults - 1) 0 0 ≡ ok nbytes
  pub some_bytes : 0 < nbytes
  pub few_bytes : nbytes ≤ 4 * size

compress-put_sections :
    (q : Results) (size nbytes : ℕ)
    → Counted q size nbytes
    → compress_results q size
      ≡ (put_sections (nbytes + 8 * resulttypes q.options) q >>= λ b. ok (fell_off b))
unfolding compress_results
compress-put_sections q size nbytes c =
    let busy : (nbytes == 0) ≡ false = ground (arith, c.some_bytes) in
    let small : ltb (4 * size) nbytes ≡ false = ground (arith, c.few_bytes) in
    rw (c.counts, busy, small) refl

-- Where the URLs are asked for, and no ads and no misc, the texts of each kind that is asked for are
-- two or more lines, each with its newline, and the bytes that are counted are more than none and at
-- most four times `size`, and leave room for more than the text: `compress_results` packs an answer
-- that `answer_parse`, with the same options, reads back. The URLs, and the snippets and titles that
-- are asked for, stand in its arrays in order, if they are fewer than eight of each and none ends in
-- `END`.
pub compress_results-answer_parse :
    (q : Results) (d : QueryData) (size nbytes : ℕ) (links snippets titles : List Bytes)
    → d.options ≡ q.options
    → Packed q links snippets titles
    → Counted q size nbytes
    → length (answer q.options links snippets titles []) < nbytes + 8 * resulttypes q.options
    → Carried links
    → Carried snippets
    → Carried titles
    → (text : Bytes) × (compress_results q size ≡ ok (fell_off text))
      × (answer_parse (record d { query = text })
          ≡ ok (
            pos (length links),
            record d {
              query = text;
              links = map some links;
              snippets = stored d.options.snippets snippets d.snippets;
              titles = stored d.options.titles titles d.titles;
            },
          ))
compress_results-answer_parse q d size nbytes links snippets titles same p c room l s t =
    let text : Bytes = answer q.options links snippets titles [] in
    let urls : d.options.urls ≡ true = ap (λ o. o.urls) same ∙ p.urls in
    (
      text,
      compress-put_sections q size nbytes c
          ∙ rw
              (put_sections-answer (nbytes + 8 * resulttypes q.options) q links snippets titles p
                room)
              refl,
      answer_parse-answer (record d { query = text }) links snippets titles [] urls
          (ap (λ o. answer o links snippets titles []) (sym same)) l s t,
    )

strcat-overruns :
    (capacity : ℕ) (text b : Bytes)
    → capacity ≤ length (b ++ text)
    → strcat capacity text b ≡ fault overrun
unfolding strcat
strcat-overruns capacity text b h =
    if_false (ltb (length b + length text) capacity) _ _ (ground (arith, length-append b text))

put_section-overruns :
    (capacity : ℕ) (kind : Kind) (links : List Bytes)
    → Lined kind links
    → capacity ≡ length (section (codes "LNK") links [])
    → put_section capacity true (codes "LNK\n") kind [] ≡ fault overrun
unfolding put_section
put_section-overruns capacity kind links lined exact =
    let filled : Bytes = codes "LNK\n" ++ lines_onto links [] in
    let whole : filled ++ codes "END\n" ≡ section (codes "LNK") links [] =
      section-append (codes "LNK") links [] in
    let size : length (filled ++ codes "END\n") ≡ capacity = ap length whole ∙ sym exact in
    let room : length filled < capacity = omega (arith, length-append filled (codes "END\n")) in
    let named_room : length (codes "LNK\n") < capacity =
      omega (arith, length-prefix (codes "LNK\n") (lines_onto links [])) in
    let some_texts : ltb 0 kind.last ≡ true = ground (arith, lined.several) in
    rw
      (
        some_texts,
        strcat-fits capacity (codes "LNK\n") [] named_room,
        lined.indexed,
        lined.texts,
        strcat_all-lines capacity links (codes "LNK\n") room,
        strcat-overruns capacity (codes "END\n") filled (omega arith),
      )
      refl

put_sections-overruns :
    (capacity : ℕ) (q : Results) (links : List Bytes)
    → q.options.urls ≡ true
    → Lined q.links links
    → capacity ≡ length (section (codes "LNK") links [])
    → put_sections capacity q ≡ fault overrun
unfolding put_sections
put_sections-overruns capacity q links urls lined exact =
    rw (urls, put_section-overruns capacity q.links links lined exact) refl

-- Where the URLs are asked for, their texts are lines, and the count makes `b` just as long as their
-- section, as it does where they alone are asked for and each is counted with its newline, the NUL of
-- the last `strcat` is written behind `b`.
pub compress_results_overruns :
    (q : Results) (size nbytes : ℕ) (links : List Bytes)
    → q.options.urls ≡ true
    → Lined q.links links
    → Counted q size nbytes
    → nbytes + 8 * resulttypes q.options ≡ length (section (codes "LNK") links [])
    → compress_results q size ≡ fault overrun
compress_results_overruns q size nbytes links urls lined c exact =
    compress-put_sections q size nbytes c
    ∙ ap (λ m. m >>= λ b. ok (fell_off b))
        (put_sections-overruns (nbytes + 8 * resulttypes q.options) q links urls lined exact)
