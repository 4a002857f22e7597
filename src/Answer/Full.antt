-- ===== src/Answer/Full.antt =====
-- What `answer_parse` makes of an answer whose URLs fill the array.
use gnugol.Base.{
  suc, ℕ, ◌<◌, ◌≡◌, refl, ap, ◌∙◌, true, false, some, List, [], ◌∷◌, ◌++◌, map, ltb, ◌==◌, ℤ, pos,
  nonzero, Bytes, codes, length, All, arith, ok, subst,
}
use gnugol.Answer.Lines.{
  is_entry, IsEntry, section, ended, lines_onto, read_section-found, line_at_lem, line_after_lem,
  read_entries_full,
}
use gnugol.Answer.RoundTrip.{answer_parse-found, links_found, length-map-some}
use gnugol.Answer.{
  QueryData, parse_titles, parse_snippets, answer_parse, entries_from, next_line, read_section,
  read_entries, reaches, precedes, entry_at,
}
use gnugol.Clib.Strings.{starts, strstr, line_after}

-- The loop over the URLs stops in front of `END`.
entries_from-full :
    (links : List Bytes) (rest : Bytes)
    → All IsEntry links
    → is_entry (codes "LNK") ≡ true
    → length links ≡ 8
    → entries_from (ended rest) (some (section (codes "LNK") links rest))
      ≡ (map some links, some (ended rest))
unfolding entries_from next_line
entries_from-full links rest h named eight =
    rw (line_after_lem (codes "LNK") (lines_onto links (ended rest)) named) (
      subst
        (λ room.
          read_entries (ended rest) room (some (lines_onto links (ended rest)))
          ≡ (map some links, some (ended rest)))
        eight (read_entries_full links rest h))

-- Behind the end, one entry is stored.
read_entries_past :
    (pend l t : Bytes) (room : ℕ)
    → IsEntry l
    → length (l ++ b'\n' ∷ t) < length pend
    → read_entries pend (suc room) (some (l ++ b'\n' ∷ t)) ≡ (some l ∷ [], some t)
unfolding read_entries reaches precedes next_line entry_at
read_entries_past pend l t room h past =
    let no : (length (l ++ b'\n' ∷ t) == length pend) ≡ false = ground arith in
    let stop : ltb (length pend) (length (l ++ b'\n' ∷ t)) ≡ false = ground arith in
    rw (no, stop, line_at_lem l t h, line_after_lem l t h) refl

snippets_past :
    (s : Bytes) (ss : List Bytes) (rest : Bytes)
    → IsEntry s
    → entries_from
        (ended (section (codes "SNP") (s ∷ ss) rest))
        (some (section (codes "SNP") (s ∷ ss) rest))
      ≡ (some s ∷ [], some (lines_onto ss (ended rest)))
unfolding entries_from next_line line_after
snippets_past s ss rest h =
    read_entries_past (ended (section (codes "SNP") (s ∷ ss) rest)) s (lines_onto ss (ended rest)) 7
      h (omega arith)

parse_snippets_past :
    (q : QueryData) (n : ℤ) (s : Bytes) (ss : List Bytes) (rest : Bytes)
    → nonzero q.options.snippets ≡ true
    → nonzero q.options.titles ≡ false
    → IsEntry s
    → parse_snippets n (some (ended (section (codes "SNP") (s ∷ ss) rest))) q
      ≡ ok (n, record q { snippets = some s ∷ [] })
unfolding parse_snippets parse_titles strstr starts
parse_snippets_past q n s ss rest on off h =
    let found : read_section (codes "SNP\n") (some (ended (section (codes "SNP") (s ∷ ss) rest)))
        ≡ ok (some (some s ∷ [], some (lines_onto ss (ended rest)))) =
      read_section-found (codes "SNP\n") (ended (section (codes "SNP") (s ∷ ss) rest))
        (section (codes "SNP") (s ∷ ss) rest) (ended (section (codes "SNP") (s ∷ ss) rest)) refl
        refl
      ∙ ap (λ e. ok (some e)) (snippets_past s ss rest h) in
    simp (on, found, off)

-- Where the URLs and the snippets are asked for, but not the titles, and the answer is a section of
-- exactly eight URLs and one of at least one snippet, whatever follows, with each URL and the first
-- snippet a line: the loop stops before it reads the `END` of the URLs, which is then taken for the
-- end of the snippets, and `answer_parse` stores all the URLs, and of the snippets only the first.
pub answer_parse_full :
    (q : QueryData) (links : List Bytes) (s : Bytes) (ss : List Bytes) (rest : Bytes)
    → q.options.urls ≡ true
    → nonzero q.options.snippets ≡ true
    → nonzero q.options.titles ≡ false
    → length links ≡ 8
    → All IsEntry links
    → IsEntry s
    → q.query ≡ section (codes "LNK") links (section (codes "SNP") (s ∷ ss) rest)
    → answer_parse q ≡ ok (pos 8, record q { links = map some links; snippets = some s ∷ [] })
answer_parse_full q links s ss rest on wanted off eight h k text =
    let more : Bytes = section (codes "SNP") (s ∷ ss) rest in
    let (start, end, named) = links_found links more h in
    answer_parse-found q (section (codes "LNK") links more) (ended more) (map some links)
      (some (ended more)) on (ap (λ u. strstr u (codes "LNK\n")) text ∙ start)
      (ap (λ u. strstr u (codes "END\n")) text ∙ end) (entries_from-full links more h named eight)
    ∙ parse_snippets_past (record q { links = map some links }) (pos (length (map some links))) s ss
        rest wanted off k
    ∙ rw (length-map-some links, eight) refl
