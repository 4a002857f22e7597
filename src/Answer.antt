-- ===== src/Answer.antt =====
-- `answer_parse` of src/common/parser.c: the sections of an answer of the server. The pointers that
-- it keeps all point into the one string, so that a pointer is the text from there to the NUL and,
-- of two, the one with more text comes first; `strsep` writes only below the text still read.
-- `NULL` is below them all.
pub mod Lines
pub mod RoundTrip
pub mod Full
pub mod Bounds
use gnugol.Base.{
  ℕ, zero, suc, Bool, true, false, Option, none, some, List, [], ◌∷◌, ltb, ◌==◌, if◌then◌else◌, ℤ,
  pos, negsuc, nonzero, Bytes, codes, length, Result, ok, fault, bad_read, ◌>>=◌,
}
use gnugol.Clib.Strings.{strstr, line_at, line_after}
use gnugol.Query.{QueryOptions}

-- The part of `QueryData` that the parser uses. The entries of an array are those stored, from
-- index 0; each is what the stored pointer reads as.
pub record QueryData : Type 0 where
  pub query : Bytes
  pub keywords : Bytes
  pub options : QueryOptions
  pub links : List (Option Bytes)
  pub snippets : List (Option Bytes)
  pub titles : List (Option Bytes)

-- `MAX_ENTRIES`
abbrev pub max_entries : ℕ
max_entries = 8

-- `pprev < pend`
unfoldable pub precedes : Option Bytes → Bytes → Bool
precedes none pend = true
precedes (some p) pend = ltb (length pend) (length p)

-- `pprev != pend`, the other way round
unfoldable pub reaches : Option Bytes → Bytes → Bool
reaches none pend = false
reaches (some p) pend = length p == length pend

-- What `strsep(&p,"\n")` returns reads as, and what it leaves in `p`.
unfoldable pub entry_at : Option Bytes → Option Bytes
entry_at none = none
entry_at (some p) = some (line_at p)

unfoldable pub next_line : Option Bytes → Option Bytes
next_line none = none
next_line (some p) = line_after p

-- The loop of a section, from `p` on and with room for so many entries: those it stores, and `p`
-- behind it.
unfoldable pub read_entries : Bytes → ℕ → Option Bytes → List (Option Bytes) × Option Bytes
unfolding precedes reaches entry_at next_line
read_entries pend zero p = ([], p)
read_entries pend (suc room) p =
    let rest = read_entries pend room (next_line p) in
    if reaches p pend
    then ([], next_line p)
    else if precedes p pend
    then (entry_at p ∷ rest.0, rest.1)
    else (entry_at p ∷ [], next_line p)

-- `strstr(p,needle)`
unfoldable pub find : Option Bytes → Bytes → Result (Option Bytes)
find none needle = fault bad_read
find (some p) needle = ok (strstr p needle)

-- `p = pstart;`, the `strsep` that skips the name of the section, and the loop.
unfoldable pub entries_from : Bytes → Option Bytes → List (Option Bytes) × Option Bytes
entries_from pend pstart = read_entries pend max_entries (next_line pstart)

-- The sections behind the first: `none` where `END` is missing.
unfoldable pub read_section :
    Bytes → Option Bytes → Result (Option (List (Option Bytes) × Option Bytes))
read_section name p = do
  pstart ← find p name
  pend ← find p (codes "END\n")
  ok (elim pend [ none ↦ none | some e ↦ some (entries_from e pstart) ])

-- `if(q->options.titles) {…}` and what follows, with the result `n1`.
unfoldable pub parse_titles : ℤ → Option Bytes → QueryData → Result (ℤ × QueryData)
parse_titles n p q =
    if nonzero q.options.titles
    then (do
      section ← read_section (codes "TLE\n") p
      elim section [
        | none ↦ ok (negsuc 0, q)
        | some (entries, rest) ↦ ok (n, record q { titles = entries })
      ])
    else ok (n, q)

-- `if(q->options.snippets) {…}` and what follows.
unfoldable pub parse_snippets : ℤ → Option Bytes → QueryData → Result (ℤ × QueryData)
parse_snippets n p q =
    if nonzero q.options.snippets
    then (do
      section ← read_section (codes "SNP\n") p
      elim section [
        | none ↦ ok (negsuc 0, q)
        | some (entries, rest) ↦ parse_titles n rest (record q { snippets = entries })
      ])
    else parse_titles n p q

-- What is returned, and `*q` afterwards. Without `urls`, `p` and `n1` are read uninitialised.
unfoldable pub answer_parse : QueryData → Result (ℤ × QueryData)
answer_parse q =
    if q.options.urls
    then (elim (strstr q.query (codes "LNK\n")) [
      | none ↦ ok (negsuc 0, q)
      | some pstart ↦ elim (strstr q.query (codes "END\n")) [
        | none ↦ ok (negsuc 1, q)
        | some pend ↦
            let (entries, rest) = entries_from pend (some pstart) in
            parse_snippets (pos (length entries)) rest (record q { links = entries })
      ]
    ])
    else fault bad_read
