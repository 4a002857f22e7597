-- ===== src/Prototype.antt =====
-- `strip_html` and `substitute_utf8` of src/prototypes/wikipedia.c. The state of the stripper and
-- the cases that the program took over from it unchanged are those of Handy.Strip.
pub mod Same
pub mod Answers
use gnugol.Base.{
  ℕ, ◌+◌, ◌-◌, Bool, true, false, not, ◌&&◌, ◌||◌, Option, none, some, List, [], ◌∷◌, ◌++◌, reverse,
  ltb, leb, ◌==◌, if◌then◌else◌, Bytes, codes, eq_bytes, length, until_nul, Result, ok, fault,
  overrun, ◌>>=◌,
}
use gnugol.Handy.Entities.{chop_semicolon}
use gnugol.Handy.Strip.{Strip, initial, push, slice, on_blank, on_period, on_other}

-- `struct entitymap`
pub record Replacement : Type 0 where
  pub entity : Bytes
  pub utf8 : Bytes

abbrev replacement : Bytes → Bytes → Replacement
replacement entity utf8 = record { entity = entity; utf8 = utf8 }

-- `emap`, up to the row that ends it.
unfoldable pub replacements : List Replacement
replacements =
    replacement (codes "quot") (codes "\"")
    ∷ replacement (codes "middot") (0xC2 ∷ 0xB7 ∷ [])
    ∷ replacement (codes "amp") (codes "&")
    ∷ replacement (codes "lt") (codes "<")
    ∷ replacement (codes "gt") (codes ">")
    ∷ []

-- The loop over `emap`: what is written, which is nothing for an unknown name.
unfoldable pub replaced : List Replacement → Bytes → Bytes
replaced [] name = []
replaced (r ∷ rs) name = if eq_bytes name r.entity then r.utf8 else replaced rs name

abbrev without_ampersand : Bytes → Bytes
without_ampersand [] = []
without_ampersand (c ∷ cs) = if c == b'&' then cs else c ∷ cs

-- `substitute_utf8(string,entity)`
unfoldable pub substitute : Bytes → Bytes
unfolding chop_semicolon replacements
substitute entity = replaced replacements (chop_semicolon (without_ampersand entity))

module _ (len : ℕ) (html : Bytes) where
  -- The decoding of `htmlstr[entitypos..i)`, through `char entity[12]` and with no bound but that of
  -- `char string[len+1]`.
  unfoldable pub decode_entity : ℕ → Strip → Result Strip
  decode_entity i s =
      let bytes = substitute (slice html s.entitypos i) in
      if leb 12 (i - s.entitypos)
      then fault overrun
      else if leb (length s.out + length bytes) (len + 1)
      then ok (record s { out = reverse bytes ++ s.out; inentity = false })
      else fault overrun

  -- `case ';':`
  unfoldable pub end_word : ℕ → Strip → Result Strip
  end_word i s =
      if not (s.isspace || not (s.inperiod == 0))
      then (if s.inentity then decode_entity i s else push len b';' s)
      else if s.isspace
      then (do t ← push len b';' s; ok (record t { isspace = false }))
      else if not (s.inperiod == 0)
      then (do t ← push len b';' s; ok (record t { inperiod = 0 }))
      else ok s

  -- One round of the loop, at `htmlstr[i] == c`.
  unfoldable pub first_step : ℕ → ℕ → Strip → Result Strip
  first_step i c s =
      if c == b'<'
      then ok (record s { inhtml = true })
      else if c == b'>'
      then ok (record s { inhtml = false })
      else if s.inhtml
      then ok s
      else if c == b'&'
      then ok (record s { isspace = false; inperiod = 0; inentity = true; entitypos = i })
      else if c == b';'
      then end_word i s
      else if c == b' '
      then on_blank len s
      else if c == b'.'
      then on_period len s
      else on_other len c s

  unfoldable pub first_loop : ℕ → Bytes → Strip → Result Strip
  first_loop i [] s = ok s
  first_loop i (c ∷ cs) s =
      let rest = λ (t : Strip). first_loop (i + 1) cs t in
      if ltb i len && not (c == 0) then first_step i c s >>= rest else ok s

-- `strip_html(len,htmlstr)`
unfoldable pub first_strip_html : ℕ → Bytes → Result (ℕ × Bytes)
first_strip_html len html = do
  s ← first_loop len html 0 html initial
  ok (length s.out, until_nul (reverse s.out))
