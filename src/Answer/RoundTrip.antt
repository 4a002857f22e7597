-- ===== src/Answer/RoundTrip.antt =====
-- `answer_parse` reads back the sections that an answer was made of.
use gnugol.Base.{
  suc, ap, ◌∙◌, ◌<◌, ◌≡◌, refl, true, Option, some, List, [], ◌∷◌, map, if◌then◌else◌, ℤ, pos,
  nonzero, Bytes, codes, length, All, eq_bytes, ok, Bool-cases, inl, inr,
}
use gnugol.Answer.Lines.{
  is_entry, IsEntry, section, read_section-section, ended, strstr_lines, entries_from-section,
}
use gnugol.Answer.{
  QueryData, parse_titles, parse_snippets, answer_parse, entries_from, read_section,
}
use gnugol.Clib.Strings.{starts, strstr}
use gnugol.Query.{QueryOptions}

-- Lines that an answer can carry: fewer than `MAX_ENTRIES`, each of them a line.
pub record Carried (ls : List Bytes) : Type 0 where
  pub lines : All IsEntry ls
  pub few : length ls < 8

-- A section that is there if it was asked for.
abbrev pub asked : ℤ → Bytes → List Bytes → Bytes → Bytes
asked wanted name ls rest = if nonzero wanted then section name ls rest else rest

-- The array of a section: filled if it was asked for.
abbrev pub stored : ℤ → List Bytes → List (Option Bytes) → List (Option Bytes)
stored wanted ls old = if nonzero wanted then map some ls else old

abbrev pub answer : QueryOptions → (links snippets titles : List Bytes) → Bytes → Bytes
answer o links snippets titles rest =
    section (codes "LNK") links
      (asked o.snippets (codes "SNP") snippets (asked o.titles (codes "TLE") titles rest))

titles_found :
    (ls : List Bytes) (rest : Bytes)
    → Carried ls
    → read_section (codes "TLE\n") (some (section (codes "TLE") ls rest))
      ≡ ok (some (map some ls, some rest))
unfolding starts strstr is_entry eq_bytes
titles_found ls rest h =
    read_section-section (codes "TLE") (codes "TLE\n") ls rest refl refl h.lines h.few

snippets_found :
    (ls : List Bytes) (rest : Bytes)
    → Carried ls
    → read_section (codes "SNP\n") (some (section (codes "SNP") ls rest))
      ≡ ok (some (map some ls, some rest))
unfolding starts strstr is_entry eq_bytes
snippets_found ls rest h =
    read_section-section (codes "SNP") (codes "SNP\n") ls rest refl refl h.lines h.few

parse_titles-asked :
    (n : ℤ) (ls : List Bytes) (rest : Bytes) (q : QueryData)
    → Carried ls
    → parse_titles n (some (asked q.options.titles (codes "TLE") ls rest)) q
      ≡ ok (n, record q { titles = stored q.options.titles ls q.titles })
unfolding parse_titles
parse_titles-asked n ls rest q h = elim (Bool-cases (nonzero q.options.titles)) [
  | inl there ↦ rw (there, titles_found ls rest h) refl
  | inr absent ↦ rw absent refl
]

parse_snippets-asked :
    (n : ℤ) (ls titles : List Bytes) (rest : Bytes) (q : QueryData)
    → Carried ls
    → Carried titles
    → parse_snippets n
        (some (
          asked q.options.snippets
            (codes "SNP")
            ls
            (asked q.options.titles (codes "TLE") titles rest)))
        q
      ≡ ok (
        n,
        record q {
          snippets = stored q.options.snippets ls q.snippets;
          titles = stored q.options.titles titles q.titles;
        },
      )
unfolding parse_snippets
parse_snippets-asked n ls titles rest q h k = elim (Bool-cases (nonzero q.options.snippets)) [
  | inl there ↦
      rw (there, snippets_found ls (asked q.options.titles (codes "TLE") titles rest) h)
        (parse_titles-asked n titles rest (record q { snippets = map some ls }) k)
  | inr absent ↦ rw absent (parse_titles-asked n titles rest q k)
]

-- The sections behind the first are those of the URLs, where both ends of it are found.
pub answer_parse-found :
    (q : QueryData) (start end : Bytes) (entries : List (Option Bytes)) (rest : Option Bytes)
    → q.options.urls ≡ true
    → strstr q.query (codes "LNK\n") ≡ some start
    → strstr q.query (codes "END\n") ≡ some end
    → entries_from end (some start) ≡ (entries, rest)
    → answer_parse q ≡ parse_snippets (pos (length entries)) rest (record q { links = entries })
unfolding answer_parse
answer_parse-found q start end entries rest on h k run = simp (on, h, k, run)

-- The section of the URLs is found.
pub links_found :
    (ls : List Bytes) (rest : Bytes)
    → All IsEntry ls
    → (strstr (section (codes "LNK") ls rest) (codes "LNK\n")
        ≡ some (section (codes "LNK") ls rest))
      × (strstr (section (codes "LNK") ls rest) (codes "END\n") ≡ some (ended rest))
      × (is_entry (codes "LNK") ≡ true)
unfolding starts strstr is_entry eq_bytes
links_found ls rest h = (refl, strstr_lines (codes "LNK" ∷ ls) rest (refl, h), refl)

pub length-map-some : (ls : List Bytes) → length (map some ls) ≡ length ls
length-map-some [] = refl
length-map-some (l ∷ ls) = ap suc (length-map-some ls)

-- An answer of fewer than eight URLs, snippets and titles, in the sections that the options ask
-- for, each line without a newline and not ending in `END`, is read back by `answer_parse` with
-- `urls` set: it returns the number of the URLs, stores every line in its array, in order, and
-- leaves an array that was not asked for as it was.
pub answer_parse-answer :
    (q : QueryData) (links snippets titles : List Bytes) (rest : Bytes)
    → q.options.urls ≡ true
    → q.query ≡ answer q.options links snippets titles rest
    → Carried links
    → Carried snippets
    → Carried titles
    → answer_parse q
      ≡ ok (
        pos (length links),
        record q {
          links = map some links;
          snippets = stored q.options.snippets snippets q.snippets;
          titles = stored q.options.titles titles q.titles;
        },
      )
answer_parse-answer q links snippets titles rest on text h k t =
    let more : Bytes =
      asked q.options.snippets (codes "SNP") snippets
        (asked q.options.titles (codes "TLE") titles rest) in
    let (start, end, named) = links_found links more h.lines in
    answer_parse-found q (section (codes "LNK") links more) (ended more) (map some links)
      (some more) on (ap (λ u. strstr u (codes "LNK\n")) text ∙ start)
      (ap (λ u. strstr u (codes "END\n")) text ∙ end)
      (entries_from-section (codes "LNK") links more named h.lines h.few)
    ∙ rw (length-map-some links) (
        parse_snippets-asked (pos (length links)) snippets titles rest
          (record q { links = map some links }) k t)
