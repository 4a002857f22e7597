-- ===== src/Format/Buffers.antt =====
-- The macros `GNUGOL_OUTF`, `GNUGOL_OUTE` and `GNUGOL_OUTW` of src/include/formats.h.
pub mod Log
use gnugol.Base.{
  ℕ, ◌+◌, ◌-◌, Bool, true, false, Option, none, some, List, [], ◌∷◌, ◌++◌, ltb, ◌==◌, if◌then◌else◌,
  Bytes, length, take, Result, ok, fault, overrun, bad_read, ◌>>=◌,
}
use gnugol.Clib.Printf.{Arg, sprintf}
use gnugol.Query.{QueryOptions, Buffer}

-- What `s` reads as once `room - 1` bytes of `text` and a NUL stand at `s[len]`.
unfoldable pub overwrite : Bytes → ℕ → ℕ → Bytes → Bytes
overwrite content len room text =
    if ltb (length content) len then content else take len content ++ take (room - 1) text

-- `b.len += snprintf(&(b.s[b.len]), b.size - b.len, …)`, for the text that the call makes. The
-- result of `snprintf` is the length of the whole text, also where it is cut; past the size the
-- difference is a huge `size_t`, and the call writes behind the buffer.
append_to : Option Bytes → Buffer → Bytes → Result Buffer
append_to none b text = fault bad_read
append_to (some content) b text =
    if ltb b.len b.size
    then ok (record b {
      len = b.len + length text;
      s = some (overwrite content b.len (b.size - b.len) text);
    })
    else if b.len == b.size
    then ok (record b { len = b.len + length text })
    else fault overrun

unfoldable pub append : Buffer → Bytes → Result Buffer
unfolding append_to
append b text = append_to b.s b text

-- `GNUGOL_OUTF(q,…)`
unfoldable pub outf : QueryOptions → Bytes → List Arg → Result QueryOptions
outf q format args = do text ← sprintf format args; b ← append q.out text; ok (record q { out = b })

-- `GNUGOL_OUTE(q,…)`
unfoldable pub oute : QueryOptions → Bytes → List Arg → Result QueryOptions
oute q format args = do text ← sprintf format args; b ← append q.err text; ok (record q { err = b })

-- `GNUGOL_OUTW(q,…)`
unfoldable pub outw : QueryOptions → Bytes → List Arg → Result QueryOptions
outw q format args = do text ← sprintf format args; b ← append q.wrn text; ok (record q { wrn = b })
