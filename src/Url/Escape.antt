-- ===== src/Url/Escape.antt =====
-- `url_escape_utf8` and `url_escape_utf8_char` of src/common/utf8_urlencode.c, whose loops are the
-- same. A `char` is signed: a byte from 128 on is negative, and `url_escapes[ch]` is read below the
-- table.
use gnugol.Base.{
  ℕ, ◌+◌, ◌-◌, ◌*◌, ◌/◌, ◌%◌, Bool, ◌&&◌, ◌||◌, [], ◌∷◌, ◌++◌, ltb, leb, ◌==◌, if◌then◌else◌, Bytes,
  length, ok, fault, bad_read, overrun, Result, ◌>>=◌,
}

-- A digit of `url_escapes`.
abbrev pub hex_digit : ℕ → ℕ
hex_digit n = if ltb n 10 then b'0' + n else b'a' + n - 10

-- `url_escapes[ch]`
unfoldable pub url_escapes : ℕ → Bytes
url_escapes ch = b'%' ∷ hex_digit (ch / 16) ∷ hex_digit (ch % 16) ∷ []

abbrev pub is_alphanumeric : ℕ → Bool
is_alphanumeric ch =
    (leb b'A' ch && leb ch b'Z') || ((leb b'a' ch && leb ch b'z') || (leb b'0' ch && leb ch b'9'))

-- `- _ . ! ~ * ' ( )`
abbrev pub is_unreserved : ℕ → Bool
is_unreserved ch =
    ch == b'-'
    || (ch == b'_'
        || (ch == b'.'
            || (ch == b'!'
                || (ch == b'~' || (ch == b'*' || (ch == b'\'' || (ch == b'(' || ch == b')')))))))

-- What one round of the loop appends to `buf`, for the byte `ch` of the string.
unfoldable pub escape_char : ℕ → Result Bytes
unfolding url_escapes
escape_char ch =
    if is_alphanumeric ch
    then ok (ch ∷ [])
    else if ch == b' '
    then ok (b'+' ∷ [])
    else if is_unreserved ch
    then ok (ch ∷ [])
    else if ltb ch 128
    then ok (url_escapes ch)
    else fault bad_read

-- The bytes that a piece fills: `strcpy` writes a NUL behind the three that it appends.
abbrev pub span : Bytes → ℕ
span (c ∷ []) = 1
span piece = length piece + 1

-- The loop over `s`, in `char buf[size]`; what it has written is put in front of the rest.
unfoldable pub escape_loop : ℕ → ℕ → Bytes → Result Bytes
escape_loop size j [] = if ltb j size then ok [] else fault overrun
escape_loop size j (ch ∷ cs) = do
  piece ← escape_char ch
  rest ←
      (if leb (j + span piece) size then escape_loop size (j + length piece) cs else fault overrun)
  ok (piece ++ rest)

-- `url_escape_utf8(to,s)`: what `to` holds afterwards; its length is the result.
unfoldable pub url_escape_utf8 : Bytes → Result Bytes
url_escape_utf8 s = escape_loop (length s * 9 + 1) 0 s

-- `url_escape_utf8_char(to,s)` has the same body.
unfoldable pub url_escape_utf8_char : Bytes → Result Bytes
url_escape_utf8_char s = escape_loop (length s * 9 + 1) 0 s
