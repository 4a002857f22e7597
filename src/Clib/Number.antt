-- ===== src/Clib/Number.antt =====
-- `strtoul(text, NULL, 10)` of the C library.
use gnugol.Base.{
  ℕ, ◌+◌, ◌-◌, ◌*◌, ◌%◌, ◌^◌, Bool, ◌&&◌, ◌||◌, [], ◌∷◌, ltb, leb, ◌==◌, if◌then◌else◌, Bytes,
}

abbrev pub is_digit : ℕ → Bool
is_digit c = leb b'0' c && leb c b'9'

-- `isspace` in the C locale: a blank, or one of the five controls from 9 to 13.
abbrev pub is_space : ℕ → Bool
is_space c = c == b' ' || (leb 9 c && leb c 13)

-- The value of the leading digits.
digits_value : ℕ → Bytes → ℕ
digits_value acc [] = acc
digits_value acc (c ∷ cs) =
    let rest = digits_value (acc * 10 + (c - b'0')) cs in if is_digit c then rest else acc

-- `ULONG_MAX` on a value out of range.
abbrev saturate : ℕ → ℕ
saturate n = if ltb n (2 ^ 64) then n else 2 ^ 64 - 1

signed : Bytes → ℕ
signed [] = 0
signed (c ∷ cs) =
    if c == b'-'
    then (let n = digits_value 0 cs in if ltb n (2 ^ 64) then (2 ^ 64 - n) % 2 ^ 64 else 2 ^ 64 - 1)
    else if c == b'+'
    then saturate (digits_value 0 cs)
    else saturate (digits_value 0 (c ∷ cs))

unfoldable pub strtoul : Bytes → ℕ
unfolding signed digits_value
strtoul [] = 0
strtoul (c ∷ cs) = let rest = strtoul cs in if is_space c then rest else signed (c ∷ cs)
