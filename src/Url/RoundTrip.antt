-- ===== src/Url/RoundTrip.antt =====
-- Escaping an ASCII string for a URL, and unescaping it again.
use mathlib.Core.List.{reverse_aux, reverse-reverse}
use gnugol.Base.{
  ℕ, suc, ◌+◌, ◌-◌, ◌*◌, ◌≤◌, ◌<◌, ◌≡◌, refl, ap, ◌∙◌, true, [], ◌∷◌, ◌++◌, ltb, leb, if◌then◌else◌,
  arith, Bytes, All, length, ok, fault, bad_read, Result, length-append, append-nil, take, IsText,
  until_nul, until_nul-IsText, inl, inr, Bool-cases, length-reverse,
}
use gnugol.Url.Escape.{escape_char, escape_loop, span, url_escape_utf8, url_escape_utf8_char}
use gnugol.Url.Unescape.{Decoder, fresh, unescape_loop, has_nul, copy_out, url_unescape_utf8}
use gnugol.Url.Chars.{all_safe, escape_char-ok, unescape-piece, span-stands_for, all_safe-append}

-- A string of ASCII characters.
abbrev pub Ascii : Bytes → Type 0
Ascii = All (λ c. (0 < c) × (c < 128))

-- What the escaped form `out` of `s` is: safe, no longer than thrice `s`, and unescaped to `s`.
record Escaped (s out : Bytes) : Type 0 where
  safe : all_safe out ≡ true
  longer : length s ≤ length out
  bounded : length out ≤ length s * 3
  decodes :
      (size : ℕ) (d : Decoder)
      → length d.sbuf + length s ≤ size
      → unescape_loop size out d ≡ ok (record d { sbuf = reverse_aux s d.sbuf })

escape_loop-Escaped :
    (size j : ℕ) (s : Bytes)
    → Ascii s
    → j + length s * 4 < size
    → (out : Bytes) × (escape_loop size j s ≡ ok out) × Escaped s out
unfolding escape_loop
escape_loop-Escaped size j [] ascii room = (
  [],
  (let fits : ltb j size ≡ true = ground arith in rw fits refl),
  record {
    safe = unfold all_safe in refl;
    longer = omega arith;
    bounded = omega arith;
    decodes = λ size d fits. unfold unescape_loop in refl;
  },
)
escape_loop-Escaped size j (c ∷ cs) ascii room =
    let (p, piece, stands, safe) = escape_char-ok c ascii.0.1 in
    let (small, some_, short) = span-stands_for c p stands in
    let (out, run, e) = escape_loop-Escaped size (j + length p) cs ascii.1 (omega arith) in
    let fits : leb (j + span p) size ≡ true = ground arith in
    (
      p ++ out,
      rw piece (rw fits (rw run refl)),
      record {
        safe = all_safe-append p out safe e.safe;
        longer = omega (arith, length-append p out, e.longer);
        bounded = omega (arith, length-append p out, e.bounded);
        decodes = λ size d fits.
            unescape-piece size c p out d stands ascii.0.1 (omega arith)
            ∙ e.decodes size (record d { sbuf = c ∷ d.sbuf }) (omega arith);
      },
    )

Ascii-IsText : (s : Bytes) → Ascii s → IsText s
Ascii-IsText [] h = tt
Ascii-IsText (c ∷ cs) h = (h.0.0, Ascii-IsText cs h.1)

has_nul-IsText : (s rest : Bytes) → IsText s → has_nul (s ++ rest) ≡ has_nul rest
unfolding has_nul
has_nul-IsText [] rest h = refl
has_nul-IsText (c ∷ cs) rest h = ground (arith, has_nul-IsText cs rest h.1)

-- `url_escape_utf8` of an ASCII string leaves no array, and gives a string of safe bytes at least as
-- long as its argument and at most three times as long. `url_escape_utf8_char` gives the same.
pub url_escape_utf8-safe :
    (s : Bytes)
    → Ascii s
    → (out : Bytes) × (url_escape_utf8 s ≡ ok out)
      × (url_escape_utf8_char s ≡ ok out)
      × (all_safe out ≡ true)
      × (length s ≤ length out)
      × (length out ≤ length s * 3)
unfolding url_escape_utf8 url_escape_utf8_char
url_escape_utf8-safe s ascii =
    let (out, run, e) = escape_loop-Escaped (length s * 9 + 1) 0 s ascii (omega arith) in
    (out, run, run, e.safe, e.longer, e.bounded)

escape_char-high : (c : ℕ) → 128 ≤ c → escape_char c ≡ fault bad_read
unfolding escape_char
escape_char-high c high = ground arith

escape_loop-high :
    (size j : ℕ) (s rest : Bytes) (c : ℕ)
    → Ascii s
    → 128 ≤ c
    → j + length s * 4 < size
    → escape_loop size j (s ++ c ∷ rest) ≡ fault bad_read
unfolding escape_loop
escape_loop-high size j [] rest c ascii high room = rw (escape_char-high c high) refl
escape_loop-high size j (x ∷ s) rest c ascii high room =
    let (p, piece, stands, _) = escape_char-ok x ascii.0.1 in
    let (small, _, short) = span-stands_for x p stands in
    let fits : leb (j + span p) size ≡ true = ground arith in
    rw piece
      (rw fits (rw (escape_loop-high size (j + length p) s rest c ascii.1 high (omega arith)) refl))

-- At a byte from 128 on the table is read below its start, whatever follows.
pub url_escape_utf8_high :
    (s rest : Bytes) (c : ℕ) → Ascii s → 128 ≤ c → url_escape_utf8 (s ++ c ∷ rest) ≡ fault bad_read
unfolding url_escape_utf8
url_escape_utf8_high s rest c ascii high =
    escape_loop-high (length (s ++ c ∷ rest) * 9 + 1) 0 s rest c ascii high
      (omega (arith, length-append s (c ∷ rest)))

-- What `strcpy` makes of a filled `sbuf`.
copy_text :
    (s junk : Bytes) (size : ℕ)
    → IsText s
    → length s ≤ size
    → copy_out (length s) (s ++ take (size - length s) (0 ∷ junk))
      ≡ if◌then◌else◌ {A = Result (ℕ × Bytes)}
          (ltb (length s) size)
          (ok (length s, s))
          (fault bad_read)
copy_text s junk size text room = elim (Bool-cases (ltb (length s) size)) [
  | inl less ↦
      let spare : size - length s ≡ suc (size - length s - 1) = ground arith in
      rw (less, spare)
        (rw (has_nul-IsText, until_nul-IsText)
          (unfold has_nul until_nul in ap (λ (t : Bytes). ok (length s, t)) (append-nil s)))
  | inr full ↦
      let spare : size - length s ≡ 0 = ground arith in
      rw (full, spare) (rw has_nul-IsText (unfold has_nul in refl))
]

-- `url_unescape_utf8` of what `url_escape_utf8` made of an ASCII string decodes to that string. It
-- returns its length, and `to` reads as it, if some byte was escaped and the memory of `sbuf` holds
-- a NUL behind what was decoded; if no byte was escaped, `strcpy` reads past the end of `sbuf`.
pub url_unescape_utf8-url_escape_utf8 :
    (s out junk : Bytes)
    → Ascii s
    → url_escape_utf8 s ≡ ok out
    → url_unescape_utf8 (0 ∷ junk) out
      ≡ (if ltb (length s) (length out) then ok (length s, s) else fault bad_read)
unfolding url_escape_utf8 url_unescape_utf8
url_unescape_utf8-url_escape_utf8 s out junk ascii escaped =
    let (out', run, e) = escape_loop-Escaped (length s * 9 + 1) 0 s ascii (omega arith) in
    let same : out' ≡ out = cc in
    let longer = rw same at e.longer in
    let decoded = rw same at (e.decodes (length out') fresh (omega (arith, e.longer))) in
    rw decoded (
      rw (reverse-reverse s, length-reverse s)
        (copy_text s junk (length out) (Ascii-IsText s ascii) longer))
