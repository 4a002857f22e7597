-- ===== src/Handy/Strip.antt =====
-- `strip_html` of src/common/handy.c: a state machine that removes tags, runs of blanks and
-- ellipses, and decodes entities. `out` is `string[0..j)`, the last byte first, so `j` is its
-- length; a write past `string[len]`, below `string[0]` or past `entity[11]` is a fault.
pub mod Names
pub mod Bounds
pub mod Texts
pub mod Clean
pub mod Fixed
pub mod Words
pub mod Overrun
use gnugol.Base.{
  ℕ, ◌+◌, ◌-◌, ◌%◌, ◌^◌, Bool, true, false, not, ◌&&◌, ◌||◌, [], ◌∷◌, ◌++◌, reverse, ltb, leb, ◌==◌,
  if◌then◌else◌, Bytes, length, take, drop, until_nul, Result, ok, fault, overrun, underrun, ◌>>=◌,
}
use gnugol.Handy.Entities.{Utf8, substitute_utf8}

pub record Strip : Type 0 where
  pub isspace : Bool
  pub inhtml : Bool
  pub inperiod : ℕ
  pub inentity : Bool
  pub entitypos : ℕ
  pub out : Bytes

abbrev pub initial : Strip
initial = record {
  isspace = false;
  inhtml = false;
  inperiod = 0;
  inentity = false;
  entitypos = 0;
  out = [];
}

-- `string[j++] = c` in `char string[len+1]`
unfoldable pub push : ℕ → ℕ → Strip → Result Strip
push len c s = if leb (length s.out) len then ok (record s { out = c ∷ s.out }) else fault overrun

-- `j--`
unfoldable pub pop_onto : Strip → Bytes → Result Strip
pop_onto s [] = fault underrun
pop_onto s (c ∷ cs) = ok (record s { out = cs })

abbrev pub pop : Strip → Result Strip
pop s = pop_onto s s.out

-- `j > 0 && string[j-1] != ' '`
abbrev pub ends_in_word : Bytes → Bool
ends_in_word [] = false
ends_in_word (c ∷ cs) = not (c == b' ')

-- `len - j`, as `substitute_utf8` takes it: a `size_t`
abbrev pub room : ℕ → ℕ → ℕ
room len j = (len + 2 ^ 64 - j) % 2 ^ 64

-- `case ' ': case '\n': case '\r':`
unfoldable pub on_blank : ℕ → Strip → Result Strip
unfolding push
on_blank len s = do
  let spaced = record s { isspace = true }
  t ← (if s.isspace then ok s else if ends_in_word s.out then push len b' ' spaced else ok spaced)
  ok (record t { inperiod = 0; inentity = false })

-- `case '.':`
unfoldable pub on_period : ℕ → Strip → Result Strip
unfolding push pop_onto
on_period len s =
    if s.inperiod == 1 && not (s.isspace || s.inentity)
    then (do t ← pop s; ok (record t { inperiod = t.inperiod + 1 }))
    else if s.inperiod == 0 && not (s.isspace || s.inentity)
    then (do t ← push len b'.' s; ok (record t { inperiod = 1 }))
    else if s.inperiod == 1 && s.isspace
    then (do t ← pop s; ok (record t { inperiod = t.inperiod + 1; isspace = false }))
    else if s.inperiod == 0 && s.isspace
    then (do t ← push len b'.' s; ok (record t { inperiod = 1; isspace = false }))
    else ok s

-- `default:`
unfoldable pub on_other : ℕ → ℕ → Strip → Result Strip
unfolding push
on_other len c s =
    let t = record s { isspace = false; inperiod = 0 } in
    if not s.inentity then push len c t else ok t

-- `htmlstr[from..to)`
abbrev pub slice : Bytes → ℕ → ℕ → Bytes
slice html from to = take (to - from) (drop from html)

module _ (u : Utf8) (len : ℕ) (html : Bytes) where
  -- The decoding of `htmlstr[entitypos..i)` at its ';', through `char entity[12]`.
  unfoldable pub end_entity : ℕ → Strip → Result Strip
  end_entity i s = if leb 12 (i - s.entitypos) then fault overrun else do
    bytes ← substitute_utf8 u (room len (length s.out)) (slice html s.entitypos i)
    if leb (length s.out + length bytes) len
        then ok (record s { out = reverse bytes ++ s.out; inentity = false })
        else fault overrun

  -- `case ';':`
  unfoldable pub on_semicolon : ℕ → Strip → Result Strip
  unfolding push
  on_semicolon i s =
      if not (s.isspace || not (s.inperiod == 0))
      then (if s.inentity then end_entity i s else push len b';' s)
      else if s.isspace
      then (do t ← push len b';' s; ok (record t { isspace = false }))
      else if not (s.inperiod == 0)
      then (do t ← push len b';' s; ok (record t { inperiod = 0 }))
      else ok s

  -- One round of the loop, at `htmlstr[i] == c`.
  unfoldable pub step : ℕ → ℕ → Strip → Result Strip
  step i c s =
      if c == b'<'
      then ok (record s { inhtml = true })
      else if c == b'>'
      then ok (record s { inhtml = false })
      else if s.inhtml
      then ok s
      else if c == b'&'
      then ok (record s { isspace = false; inperiod = 0; inentity = true; entitypos = i })
      else if c == b';'
      then on_semicolon i s
      else if c == b' ' || (c == b'\n' || c == b'\r')
      then on_blank len s
      else if c == b'.'
      then on_period len s
      else on_other len c s

  unfoldable pub strip_loop : ℕ → Bytes → Strip → Result Strip
  strip_loop i [] s = ok s
  strip_loop i (c ∷ cs) s =
      let rest = λ (t : Strip). strip_loop (i + 1) cs t in
      if ltb i len && not (c == 0) then step i c s >>= rest else ok s

-- `strip_html(len,htmlstr)`: the length that it returns, and what `htmlstr` reads as afterwards.
unfoldable pub strip_html : Utf8 → ℕ → Bytes → Result (ℕ × Bytes)
strip_html u len html = do
  s ← strip_loop u len html 0 html initial
  ok (length s.out, until_nul (reverse s.out))
