-- ===== src/Answer/Lines.antt =====
-- The sections of an answer as text, and what `strstr`, `strsep` and the loop find in them.
use gnugol.Base.{
  ℕ, zero, suc, ◌≤◌, ◌<◌, ◌≡◌, refl, ap, ◌∙◌, Bool, true, false, not, ◌&&◌, some, List, [], ◌∷◌,
  ◌++◌, map, ltb, ◌==◌, Bytes, codes, length, All, eq_bytes, arith, ok,
}
use gnugol.Answer.{
  precedes, reaches, entry_at, next_line, read_entries, entries_from, find, read_section,
}
use gnugol.Clib.Strings.{starts, strstr, line_at, line_after}

-- A line of an answer: no newline stands in it, and it does not end in `END`.
unfoldable pub is_entry : Bytes → Bool
unfolding eq_bytes
is_entry [] = true
is_entry (c ∷ cs) = not (c == b'\n') && (not (eq_bytes (c ∷ cs) (codes "END")) && is_entry cs)

abbrev pub IsEntry : Bytes → Type 0
IsEntry l = is_entry l ≡ true

-- The lines, each with its newline, and the rest.
abbrev pub lines_onto : List Bytes → Bytes → Bytes
lines_onto [] rest = rest
lines_onto (l ∷ ls) rest = l ++ b'\n' ∷ lines_onto ls rest

abbrev pub ended : Bytes → Bytes
ended rest = codes "END\n" ++ rest

-- A section: its name, its lines and `END`.
abbrev pub section : Bytes → List Bytes → Bytes → Bytes
section name ls rest = lines_onto (name ∷ ls) (ended rest)

pub line_at_lem : (l t : Bytes) → IsEntry l → line_at (l ++ b'\n' ∷ t) ≡ l
unfolding line_at is_entry
line_at_lem [] t h = refl
line_at_lem (c ∷ cs) t h = ground (arith, line_at_lem cs t)

pub line_after_lem : (l t : Bytes) → IsEntry l → line_after (l ++ b'\n' ∷ t) ≡ some t
unfolding line_after is_entry
line_after_lem [] t h = refl
line_after_lem (c ∷ cs) t h = ground (arith, line_after_lem cs t)

-- `END` and its newline do not begin inside a line.
starts_end :
    (c : ℕ) (cs t : Bytes) → IsEntry (c ∷ cs) → starts (c ∷ cs ++ b'\n' ∷ t) (codes "END\n") ≡ false
unfolding starts is_entry eq_bytes
starts_end c [] t h = ground arith
starts_end c (d ∷ []) t h = ground arith
starts_end c (d ∷ e ∷ []) t h = ground arith
starts_end c (d ∷ e ∷ f ∷ fs) t h = ground arith

IsEntry-tail : (c : ℕ) (cs : Bytes) → IsEntry (c ∷ cs) → IsEntry cs
unfolding is_entry
IsEntry-tail c cs h = ground arith

strstr_line :
    (l t : Bytes) → IsEntry l → strstr (l ++ b'\n' ∷ t) (codes "END\n") ≡ strstr t (codes "END\n")
unfolding strstr starts
strstr_line [] t h = refl
strstr_line (c ∷ cs) t h = rw (starts_end c cs t h) (strstr_line cs t (IsEntry-tail c cs h))

-- The `END` that is found is that of the section.
pub strstr_lines :
    (ls : List Bytes) (rest : Bytes)
    → All IsEntry ls
    → strstr (lines_onto ls (ended rest)) (codes "END\n") ≡ some (ended rest)
unfolding strstr starts
strstr_lines [] rest h = refl
strstr_lines (l ∷ ls) rest h =
    strstr_line l (lines_onto ls (ended rest)) h.0 ∙ strstr_lines ls rest h.1

length_past : (l t : Bytes) → length t < length (l ++ b'\n' ∷ t)
length_past [] t = omega arith
length_past (c ∷ cs) t = omega (arith, length_past cs t)

pub length-lines_onto : (ls : List Bytes) (rest : Bytes) → length rest ≤ length (lines_onto ls rest)
length-lines_onto [] rest = omega arith
length-lines_onto (l ∷ ls) rest =
    omega (arith, length_past l (lines_onto ls rest), length-lines_onto ls rest)

-- A line precedes the end is stored.
read_line :
    (pend l t : Bytes) (room : ℕ)
    → IsEntry l
    → length pend ≤ length t
    → read_entries pend (suc room) (some (l ++ b'\n' ∷ t))
      ≡ (some l ∷ (read_entries pend room (some t)).0, (read_entries pend room (some t)).1)
unfolding read_entries reaches precedes next_line entry_at
read_line pend l t room h below =
    let past : length t < length (l ++ b'\n' ∷ t) = length_past l t in
    let no : (length (l ++ b'\n' ∷ t) == length pend) ≡ false = ground arith in
    let yes : ltb (length pend) (length (l ++ b'\n' ∷ t)) ≡ true = ground arith in
    rw (no, yes, line_at_lem l t h, line_after_lem l t h) refl

-- The line of the end is not.
read_end :
    (rest : Bytes) (room : ℕ)
    → read_entries (ended rest) (suc room) (some (ended rest)) ≡ ([], some rest)
unfolding read_entries reaches next_line line_after
read_end rest room =
    let same : (length (ended rest) == length (ended rest)) ≡ true = ground arith in rw same refl

-- The loop stores the lines of a section that has room, and stands behind it.
read_entries_fitting :
    (ls : List Bytes) (rest : Bytes) (room : ℕ)
    → All IsEntry ls
    → length ls < room
    → read_entries (ended rest) room (some (lines_onto ls (ended rest))) ≡ (map some ls, some rest)
read_entries_fitting ls rest zero h fits = absurd (omega arith)
read_entries_fitting [] rest (suc room) h fits = read_end rest room
read_entries_fitting (l ∷ ls) rest (suc room) h fits =
    read_line (ended rest) l (lines_onto ls (ended rest)) room h.0
      (length-lines_onto ls (ended rest))
    ∙ rw (read_entries_fitting ls rest room h.1 (omega arith)) refl

-- A loop without room for more than the lines stops at the end, which is still to be read.
pub read_entries_full :
    (ls : List Bytes) (rest : Bytes)
    → All IsEntry ls
    → read_entries (ended rest) (length ls) (some (lines_onto ls (ended rest)))
      ≡ (map some ls, some (ended rest))
unfolding read_entries
read_entries_full [] rest h = refl
read_entries_full (l ∷ ls) rest h =
    read_line (ended rest) l (lines_onto ls (ended rest)) (length ls) h.0
      (length-lines_onto ls (ended rest))
    ∙ rw (read_entries_full ls rest h.1) refl

-- Both ends of a section are found.
pub read_section-found :
    (name p start end : Bytes)
    → strstr p name ≡ some start
    → strstr p (codes "END\n") ≡ some end
    → read_section name (some p) ≡ ok (some (entries_from end (some start)))
unfolding read_section find
read_section-found name p start end h k = rw (k, h) refl

pub entries_from-section :
    (name : Bytes) (ls : List Bytes) (rest : Bytes)
    → IsEntry name
    → All IsEntry ls
    → length ls < 8
    → entries_from (ended rest) (some (section name ls rest)) ≡ (map some ls, some rest)
unfolding entries_from next_line
entries_from-section name ls rest named h fits =
    rw (line_after_lem name (lines_onto ls (ended rest)) named)
      (read_entries_fitting ls rest 8 h fits)

-- A section that follows is read as a whole.
pub read_section-section :
    (name heading : Bytes) (ls : List Bytes) (rest : Bytes)
    → IsEntry name
    → strstr (section name ls rest) heading ≡ some (section name ls rest)
    → All IsEntry ls
    → length ls < 8
    → read_section heading (some (section name ls rest)) ≡ ok (some (map some ls, some rest))
read_section-section name heading ls rest named found h fits =
    read_section-found heading (section name ls rest) (section name ls rest) (ended rest) found
      (strstr_lines (name ∷ ls) rest (named, h))
    ∙ ap (λ e. ok (some e)) (entries_from-section name ls rest named h fits)
