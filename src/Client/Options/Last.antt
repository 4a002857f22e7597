-- ===== src/Client/Options/Last.antt =====
-- What `process_options` leaves in the options.
use gnugol.Base.{
  ℕ, ◌≡◌, refl, Bool, true, false, ◌&&◌, ◌||◌, ◌∙◌, ℤ, not, Option, none, some, List, [], ◌∷◌, ◌++◌,
  ltb, ◌==◌, arith, Bytes, codes, length, Result, ok, fault,
}
use gnugol.Client.Options.{Flag, Client, process_option, process_options, number}
use gnugol.Engines.Load.{Loader}
use gnugol.Query.{QueryOptions}

-- No option has the letter.
unfoldable pub lacks : ℕ → List Flag → Bool
lacks opt [] = true
lacks opt (f ∷ fs) = not (f.opt == opt) && lacks opt fs

-- The options that set an `int` to a number.
pub data IntOption : Type 0 where
  desc_opt debug_opt indent_opt nresults_opt position_opt snippets_opt safe_opt titles_opt :
      IntOption

unfoldable pub letter : IntOption → ℕ
letter desc_opt = b'd'
letter debug_opt = b'D'
letter indent_opt = b'i'
letter nresults_opt = b'n'
letter position_opt = b'p'
letter snippets_opt = b's'
letter safe_opt = b'S'
letter titles_opt = b't'

unfoldable pub field : IntOption → QueryOptions → ℤ
field desc_opt q = q.desc
field debug_opt q = q.debug
field indent_opt q = q.indent
field nresults_opt q = q.nresults
field position_opt q = q.position
field snippets_opt q = q.snippets
field safe_opt q = q.safe
field titles_opt q = q.titles

is_letter : Bytes → ℕ → Bool
is_letter [] opt = false
is_letter (c ∷ cs) opt = opt == c || is_letter cs opt

-- A letter that `process_options` knows, with a language that fits.
unfoldable pub is_valid : Flag → Bool
unfolding is_letter
is_valid f =
    is_letter (codes "aCdDeFHinopsStuUv") f.opt
    || ((f.opt == b'l' || f.opt == b'L') && ltb (length f.optarg) 12)

unfoldable pub all_valid : List Flag → Bool
all_valid [] = true
all_valid (f ∷ fs) = is_valid f && all_valid fs

returns : Result (Option Client) → Bool
returns (ok (some c)) = true
returns (ok none) = false
returns (fault e) = false

returns_lem : (r : Result (Option Client)) → returns r ≡ true → (c : Client) × (r ≡ ok (some c))
unfolding returns
returns_lem (ok (some c)) h = (c, refl)
returns_lem (ok none) h = cc
returns_lem (fault e) h = cc

process_option-returns :
    (load : Loader) (f : Flag) (c : Client)
    → is_valid f ≡ true
    → returns (process_option load f c) ≡ true
unfolding is_valid returns process_option is_letter
process_option-returns load f c h = ground arith

keeps :
    (k : IntOption) (load : Loader) (f : Flag) (c after : Client)
    → (f.opt == letter k) ≡ false
    → process_option load f c ≡ ok (some after)
    → field k after.o ≡ field k c.o
unfolding process_option letter field
keeps desc_opt load f c after h run = ground arith
keeps debug_opt load f c after h run = ground arith
keeps indent_opt load f c after h run = ground arith
keeps nresults_opt load f c after h run = ground arith
keeps position_opt load f c after h run = ground arith
keeps snippets_opt load f c after h run = ground arith
keeps safe_opt load f c after h run = ground arith
keeps titles_opt load f c after h run = ground arith

sets :
    (k : IntOption) (load : Loader) (text : Bytes) (c : Client)
    → (after : Client) × (process_option load (record { opt = letter k; optarg = text }) c
        ≡ ok (some after))
      × (field k after.o ≡ number text)
unfolding process_option letter field
sets desc_opt load text c = (_, refl, refl)
sets debug_opt load text c = (_, refl, refl)
sets indent_opt load text c = (_, refl, refl)
sets nresults_opt load text c = (_, refl, refl)
sets position_opt load text c = (_, refl, refl)
sets snippets_opt load text c = (_, refl, refl)
sets safe_opt load text c = (_, refl, refl)
sets titles_opt load text c = (_, refl, refl)

process_options_keeps :
    (k : IntOption) (load : Loader) (fs : List Flag) (c : Client)
    → all_valid fs ≡ true
    → lacks (letter k) fs ≡ true
    → (after : Client) × (process_options load fs c ≡ ok (some after))
      × (field k after.o ≡ field k c.o)
unfolding process_options all_valid lacks
process_options_keeps k load [] c valid h = (c, refl, refl)
process_options_keeps k load (f ∷ fs) c valid h =
    let (next, run) =
      returns_lem (process_option load f c) (process_option-returns load f c (ground arith)) in
    let same = keeps k load f c next (ground arith) run in
    let (after, runs, rest) = process_options_keeps k load fs next (ground arith) (ground arith) in
    (after, rw run runs, rest ∙ same)

pub process_options_last :
    (k : IntOption) (load : Loader) (before behind : List Flag) (text : Bytes) (c : Client)
    → all_valid before ≡ true
    → all_valid behind ≡ true
    → lacks (letter k) behind ≡ true
    → (after : Client) × (process_options load
          (before ++ record { opt = letter k; optarg = text } ∷ behind)
          c
        ≡ ok (some after))
      × (field k after.o ≡ number text)
unfolding process_options all_valid
process_options_last k load [] behind text c known valid h =
    let (next, run, set) = sets k load text c in
    let (after, runs, same) = process_options_keeps k load behind next valid h in
    (after, rw run runs, same ∙ set)
process_options_last k load (f ∷ before) behind text c known valid h =
    let (next, run) =
      returns_lem (process_option load f c) (process_option-returns load f c (ground arith)) in
    let (after, runs, set) =
      process_options_last k load before behind text next (ground arith) valid h in
    (after, rw run runs, set)
