-- ===== src/Answer/Bounds.antt =====
-- No answer makes `answer_parse` write past its arrays.
use gnugol.Answer.{
  QueryData, precedes, reaches, read_entries, entries_from, find, read_section, parse_titles,
  parse_snippets, answer_parse, next_line,
}
use gnugol.Base.{
  if_true, ◌∙◌, not, ◌&&◌, ◌||◌, bad_read, ℕ, zero, suc, ◌≤◌, ◌≡◌, refl, Bool, true, false, Option,
  none, some, List, ℤ, pos, negsuc, nonzero, Bytes, codes, length, Result, ok, fault, After,
  After-if, After-bind, arith, Bool-cases, Option-cases, inl, inr,
}
use gnugol.Clib.Strings.{strstr}

read_entries-bounded :
    (pend : Bytes) (room : ℕ) (p : Option Bytes) → length (read_entries pend room p).0 ≤ room
unfolding read_entries
read_entries-bounded pend zero p = omega arith
read_entries-bounded pend (suc room) p =
    let rest : length (read_entries pend room (next_line p)).0 ≤ room =
      read_entries-bounded pend room (next_line p) in
    elim (Bool-cases (reaches p pend)) [
      | inl there ↦ rw there (omega arith)
      | inr short ↦ elim (Bool-cases (precedes p pend)) [
        | inl inside ↦ rw (short, inside) (omega arith)
        | inr past ↦ rw (short, past) (omega arith)
      ]
    ]

-- The arrays hold what they are given.
pub record Within (q : QueryData) : Type 0 where
  pub links : length q.links ≤ 8
  pub snippets : length q.snippets ≤ 8
  pub titles : length q.titles ≤ 8

-- The number that is returned is not above the size of the arrays.
abbrev pub Few : ℤ → Type 0
Few (pos n) = n ≤ 8
Few (negsuc n) = Unit

abbrev pub Kept : ℤ × QueryData → Type 0
Kept r = Few r.0 × Within r.1

entries_from-bounded :
    (pend : Bytes) (start : Option Bytes) → length (entries_from pend start).0 ≤ 8
unfolding entries_from
entries_from-bounded pend start = read_entries-bounded pend 8 (next_line start)

-- The entries of a section, if it is found.
abbrev Short : Option (List (Option Bytes) × Option Bytes) → Type 0
Short none = Unit
Short (some section) = length section.0 ≤ 8

read_section-Short : (name : Bytes) (p : Option Bytes) → After Short (read_section name p)
unfolding read_section find
read_section-Short name none = tt
read_section-Short name (some p) = elim (Option-cases (strstr p (codes "END\n"))) [
  | inl missing ↦ rw missing tt
  | inr (pend, found) ↦ rw found (entries_from-bounded pend (strstr p name))
]

titles-Kept :
    (n : ℤ) (q : QueryData) (section : Option (List (Option Bytes) × Option Bytes))
    → Few n
    → Within q
    → Short section
    → After Kept (elim section [
      | none ↦ ok (negsuc 0, q)
      | some (entries, rest) ↦ ok (n, record q { titles = entries })
    ])
titles-Kept n q none h w k = (tt, w)
titles-Kept n q (some section) h w k =
    (h, record { links = w.links; snippets = w.snippets; titles = k })

parse_titles-Kept :
    (n : ℤ) (p : Option Bytes) (q : QueryData) → Few n → Within q → After Kept (parse_titles n p q)
unfolding parse_titles
parse_titles-Kept n p q h w =
    After-if Kept (nonzero q.options.titles) _ (ok (n, q))
      (After-bind Kept Short (read_section (codes "TLE\n") p) _
        (read_section-Short (codes "TLE\n") p) λ section k. titles-Kept n q section h w k)
      (h, w)

snippets-Kept :
    (n : ℤ) (q : QueryData) (section : Option (List (Option Bytes) × Option Bytes))
    → Few n
    → Within q
    → Short section
    → After Kept (elim section [
      | none ↦ ok (negsuc 0, q)
      | some (entries, rest) ↦ parse_titles n rest (record q { snippets = entries })
    ])
snippets-Kept n q none h w k = (tt, w)
snippets-Kept n q (some section) h w k =
    parse_titles-Kept n section.1 (record q { snippets = section.0 }) h
      (record { links = w.links; snippets = k; titles = w.titles })

parse_snippets-Kept :
    (n : ℤ) (p : Option Bytes) (q : QueryData)
    → Few n
    → Within q
    → After Kept (parse_snippets n p q)
unfolding parse_snippets
parse_snippets-Kept n p q h w =
    After-if Kept (nonzero q.options.snippets) _ (parse_titles n p q)
      (After-bind Kept Short (read_section (codes "SNP\n") p) _
        (read_section-Short (codes "SNP\n") p) λ section k. snippets-Kept n q section h w k)
      (parse_titles-Kept n p q h w)

links-Kept :
    (q : QueryData) (start end : Option Bytes)
    → Within q
    → After Kept (elim start [
      | none ↦ ok (negsuc 0, q)
      | some pstart ↦ elim end [
        | none ↦ ok (negsuc 1, q)
        | some pend ↦
            let (entries, rest) = entries_from pend (some pstart) in
            parse_snippets (pos (length entries)) rest (record q { links = entries })
      ]
    ])
links-Kept q none end w = (tt, w)
links-Kept q (some start) none w = (tt, w)
links-Kept q (some start) (some end) w =
    let short : length (entries_from end (some start)).0 ≤ 8 =
      entries_from-bounded end (some start) in
    parse_snippets-Kept (pos (length (entries_from end (some start)).0))
      (entries_from end (some start)).1 (record q { links = (entries_from end (some start)).0 })
      short (record { links = short; snippets = w.snippets; titles = w.titles })

answer_parse-After : (q : QueryData) → Within q → After Kept (answer_parse q)
unfolding answer_parse
answer_parse-After q w =
    After-if Kept q.options.urls _ (fault bad_read)
      (links-Kept q (strstr q.query (codes "LNK\n")) (strstr q.query (codes "END\n")) w) tt

-- Only the URLs are asked for.
abbrev pub urls_alone : QueryData → Bool
urls_alone q = q.options.urls && not (nonzero q.options.snippets || nonzero q.options.titles)

sections_alone :
    (n : ℤ) (p : Option Bytes) (q : QueryData)
    → nonzero q.options.snippets ≡ false
    → nonzero q.options.titles ≡ false
    → parse_snippets n p q ≡ ok (n, q)
unfolding parse_snippets parse_titles
sections_alone n p q h k = simp (h, k)

links_alone :
    (q : QueryData) (start end : Option Bytes)
    → nonzero q.options.snippets ≡ false
    → nonzero q.options.titles ≡ false
    → (r : ℤ × QueryData) × ((elim start [
      | none ↦ ok (negsuc 0, q)
      | some pstart ↦ elim end [
        | none ↦ ok (negsuc 1, q)
        | some pend ↦
            let (entries, rest) = entries_from pend (some pstart) in
            parse_snippets (pos (length entries)) rest (record q { links = entries })
      ]
    ])
        ≡ ok r)
links_alone q none end h k = (_, refl)
links_alone q (some start) none h k = (_, refl)
links_alone q (some start) (some end) h k = (
  _,
  sections_alone (pos (length (entries_from end (some start)).0)) (entries_from end (some start)).1
      (record q { links = (entries_from end (some start)).0 }) h k,
)

answer_parse-alone :
    (q : QueryData) → urls_alone q ≡ true → (r : ℤ × QueryData) × (answer_parse q ≡ ok r)
unfolding answer_parse
answer_parse-alone q alone =
    let (r, run) =
      links_alone q (strstr q.query (codes "LNK\n")) (strstr q.query (codes "END\n")) (ground arith)
        (ground arith) in
    let urls : q.options.urls ≡ true = ground arith in
    (r, if_true q.options.urls _ (fault bad_read) urls ∙ run)

-- What the parser may do.
abbrev pub Outcome : QueryData → Result (ℤ × QueryData) → Type 0
Outcome q (ok r) = Kept r
Outcome q (fault why) = urls_alone q ≡ false

outcome :
    (q : QueryData) (m : Result (ℤ × QueryData))
    → After Kept m
    → (urls_alone q ≡ true → (r : ℤ × QueryData) × (m ≡ ok r))
    → Outcome q m
outcome q (ok r) h k = h
outcome q (fault why) h k = elim (Bool-cases (urls_alone q)) [
  | inr more ↦ more
  | inl alone ↦ let (r, run) = k alone in cc
]

-- Whatever text arrives, none of the arrays of `MAX_ENTRIES` pointers gets more than that, and the
-- number that is returned is not above it; and `answer_parse` does return where the URLs are asked
-- for and nothing else.
pub answer_parse-Outcome : (q : QueryData) → Within q → Outcome q (answer_parse q)
answer_parse-Outcome q w =
    outcome q (answer_parse q) (answer_parse-After q w) (answer_parse-alone q)
