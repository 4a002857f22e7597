-- ===== src/Url/Unescape.antt =====
-- `url_unescape_utf8` of src/common/utf8_urlencode.c. The bits of the byte `b` are read by division:
-- `(b & 0xc0) == 0x80` is `b / 64 == 2`, and so on. A `char` from 128 on is negative, which changes
-- none of these tests.
use gnugol.Base.{
  ℕ, ◌+◌, ◌-◌, ◌*◌, ◌/◌, ◌%◌, ◌^◌, Bool, true, false, ◌&&◌, ◌||◌, [], ◌∷◌, ◌++◌, reverse, ltb, leb,
  ◌==◌, if◌then◌else◌, Bytes, take, length, until_nul, ok, fault, bad_read, overrun, Result, ◌>>=◌,
  ℤ, pos, negsuc, pred, nonzero,
}
use gnugol.Clib.Number.{is_digit}

-- The loop's variables; `sbuf` has its last byte first, so `j` is its length.
pub record Decoder : Type 0 where
  pub sumb : ℕ
  pub more : ℤ
  pub sbuf : Bytes

abbrev pub fresh : Decoder
fresh = record { sumb = 0; more = negsuc 0; sbuf = [] }

-- `sbuf[j++] = c` in `char sbuf[size]`
abbrev pub store : ℕ → ℕ → Decoder → Result Decoder
store size c d =
    if ltb (length d.sbuf) size then ok (record d { sbuf = c ∷ d.sbuf }) else fault overrun

abbrev tolower : ℕ → ℕ
tolower c = if leb b'A' c && leb c b'Z' then c + 32 else c

-- `(10 + tolower(ch) - 'a') & 0xF`, with a multiple of 16 added so that it stays positive.
unfoldable pub hex_value : ℕ → ℕ
hex_value ch = if is_digit ch then ch - b'0' else (10 + tolower ch + 256 - b'a') % 16

-- `sumb << 6` keeps 32 bits.
abbrev shifted : ℕ → ℕ → ℕ
shifted sumb b = (sumb * 64 + b % 64) % 2 ^ 32

-- The decoding of the byte `b`.
unfoldable pub decode_byte : ℕ → ℕ → Decoder → Result Decoder
decode_byte size b d =
    if b / 64 == 2
    then (let next = record d { sumb = shifted d.sumb b; more = pred d.more } in
        if nonzero next.more then ok next else store size (next.sumb % 256) next)
    else if b / 128 == 0
    then store size b d
    else if b / 32 == 6
    then ok (record d { sumb = b % 32; more = pos 1 })
    else if b / 16 == 14
    then ok (record d { sumb = b % 16; more = pos 2 })
    else if b / 8 == 30
    then ok (record d { sumb = b % 8; more = pos 3 })
    else if b / 4 == 62
    then ok (record d { sumb = b % 4; more = pos 4 })
    else if b / 2 == 126
    then ok (record d { sumb = b % 2; more = pos 5 })
    else ok d

-- The next byte where it is no escape.
abbrev pub plain_byte : ℕ → ℕ
plain_byte c = if c == b'+' then b' ' else c

-- The loop. Behind the last byte stands the NUL, which a '%' there takes for a digit; a '%' that is
-- the last byte reads one byte more.
unfoldable pub unescape_loop : ℕ → Bytes → Decoder → Result Decoder
unescape_loop size [] d = ok d
unescape_loop size (c ∷ []) d =
    if c == b'%' then fault bad_read else decode_byte size (plain_byte c) d
unescape_loop size (c ∷ h ∷ []) d = elim (c == b'%') [
  | true ↦ decode_byte size (hex_value h * 16 + hex_value 0) d
  | false ↦ decode_byte size (plain_byte c) d >>= unescape_loop size (h ∷ [])
]
unescape_loop size (c ∷ h ∷ l ∷ cs) d = elim (c == b'%') [
  | true ↦ decode_byte size (hex_value h * 16 + hex_value l) d >>= unescape_loop size cs
  | false ↦ decode_byte size (plain_byte c) d >>= unescape_loop size (h ∷ l ∷ cs)
]

unfoldable pub has_nul : Bytes → Bool
has_nul [] = false
has_nul (c ∷ cs) = c == 0 || has_nul cs

-- `strcpy(to,sbuf)` and `return(j)`: without a NUL `strcpy` reads past the end of `sbuf`.
abbrev pub copy_out : ℕ → Bytes → Result (ℕ × Bytes)
copy_out j filled = if has_nul filled then ok (j, until_nul filled) else fault bad_read

-- `url_unescape_utf8(to,s)`: the length that it returns, and what `to` reads as. `sbuf` is as long
-- as `s` and is not cleared: `junk` is what its memory holds, and `strcpy` reads on into it.
unfoldable pub url_unescape_utf8 : Bytes → Bytes → Result (ℕ × Bytes)
url_unescape_utf8 junk s = do
  d ← unescape_loop (length s) s fresh
  copy_out (length d.sbuf) (reverse d.sbuf ++ take (length s - length d.sbuf) junk)
