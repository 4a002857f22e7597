-- ===== src/Url/Chars.antt =====
-- How one character is escaped, and unescaped again.
use gnugol.Base.{
  ℕ, ◌+◌, ◌*◌, ◌≤◌, ◌<◌, ◌≡◌, refl, Bool, true, false, not, ◌&&◌, ◌||◌, [], ◌∷◌, ◌++◌, ◌==◌, arith,
  Bytes, length, ok, fault, Result, tested, tested_lem,
}
use gnugol.Url.Escape.{is_alphanumeric, is_unreserved, escape_char, span}
use gnugol.Url.Unescape.{Decoder, hex_value, decode_byte, plain_byte, unescape_loop}

-- A byte that may stand in an escaped string.
unfoldable pub is_safe : ℕ → Bool
is_safe c = is_alphanumeric c || (is_unreserved c || (c == b'+' || c == b'%'))

unfoldable pub all_safe : Bytes → Bool
unfolding is_safe
all_safe [] = true
all_safe (c ∷ cs) = is_safe c && all_safe cs

-- One safe byte that stands for `c`, or an escape with the two digits of `c`.
pub stands_for : ℕ → Bytes → Bool
stands_for c (x ∷ []) = not (x == b'%') && plain_byte x == c
stands_for c (x ∷ h ∷ l ∷ []) = x == b'%' && hex_value h * 16 + hex_value l == c
stands_for c _ = false

pub is_piece : ℕ → Result Bytes → Bool
is_piece c (ok p) = stands_for c p && all_safe p
is_piece c (fault _) = false

pub escape_char_table : tested (λ c. is_piece c (escape_char c)) 128 ≡ true
unfolding tested is_piece stands_for escape_char all_safe hex_value
escape_char_table = refl

pub escape_char-ok :
    (c : ℕ)
    → c < 128
    → (p : Bytes) × (escape_char c ≡ ok p) × (stands_for c p ≡ true) × (all_safe p ≡ true)
unfolding is_piece
escape_char-ok c ascii =
    split (escape_char c)
      (tested_lem (λ c. is_piece c (escape_char c)) 128 c ascii escape_char_table)
  where
    split :
        (r : Result Bytes)
        → is_piece c r ≡ true
        → (p : Bytes) × (r ≡ ok p) × (stands_for c p ≡ true) × (all_safe p ≡ true)
    split (ok p) h = (p, refl, ground arith, ground arith)
    split (fault e) h = cc

pub decode_byte-ascii :
    (size c : ℕ) (d : Decoder)
    → c < 128
    → length d.sbuf < size
    → decode_byte size c d ≡ ok (record d { sbuf = c ∷ d.sbuf })
unfolding decode_byte
decode_byte-ascii size c d ascii room = ground arith

module _ (size x : ℕ) (d d' : Decoder) where
  unescape_plain :
      (rest : Bytes)
      → (x == b'%') ≡ false
      → decode_byte size (plain_byte x) d ≡ ok d'
      → unescape_loop size (x ∷ rest) d ≡ unescape_loop size rest d'
  unfolding unescape_loop
  unescape_plain [] ne e = rw ne (rw e refl)
  unescape_plain (h ∷ []) ne e = rw (ne, unescape_loop) (rw e refl)
  unescape_plain (h ∷ l ∷ rest) ne e = rw (ne, unescape_loop) (rw e refl)

  unescape_escape :
      (h l : ℕ) (rest : Bytes)
      → (x == b'%') ≡ true
      → decode_byte size (hex_value h * 16 + hex_value l) d ≡ ok d'
      → unescape_loop size (x ∷ h ∷ l ∷ rest) d ≡ unescape_loop size rest d'
  unfolding unescape_loop
  unescape_escape h l rest percent e = rw (percent, unescape_loop) (rw e refl)

pub unescape-piece :
    (size c : ℕ) (p rest : Bytes) (d : Decoder)
    → stands_for c p ≡ true
    → c < 128
    → length d.sbuf < size
    → unescape_loop size (p ++ rest) d ≡ unescape_loop size rest (record d { sbuf = c ∷ d.sbuf })
unfolding stands_for
unescape-piece size c [] rest d h ascii room = cc
unescape-piece size c (x ∷ []) rest d h ascii room =
    let byte : plain_byte x ≡ c = ground arith in
    unescape_plain size x d _ rest (ground arith) (rw byte (decode_byte-ascii size c d ascii room))
unescape-piece size c (x ∷ y ∷ []) rest d h ascii room = cc
unescape-piece size c (x ∷ y ∷ l ∷ []) rest d h ascii room =
    let byte : hex_value y * 16 + hex_value l ≡ c = ground arith in
    unescape_escape size x d _ y l rest (ground arith)
      (rw byte (decode_byte-ascii size c d ascii room))
unescape-piece size c (x ∷ y ∷ l ∷ z ∷ p) rest d h ascii room = cc

pub span-stands_for :
    (c : ℕ) (p : Bytes) → stands_for c p ≡ true → (span p ≤ 4) × (1 ≤ length p) × (length p ≤ 3)
unfolding stands_for
span-stands_for c [] h = cc
span-stands_for c (x ∷ []) h = omega arith
span-stands_for c (x ∷ y ∷ []) h = cc
span-stands_for c (x ∷ y ∷ l ∷ []) h = omega arith
span-stands_for c (x ∷ y ∷ l ∷ z ∷ p) h = cc

pub all_safe-append :
    (xs ys : Bytes) → all_safe xs ≡ true → all_safe ys ≡ true → all_safe (xs ++ ys) ≡ true
unfolding all_safe
all_safe-append [] ys h k = k
all_safe-append (x ∷ xs) ys h k = ground (arith, all_safe-append xs ys)
