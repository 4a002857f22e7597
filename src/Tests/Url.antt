-- ===== src/Tests/Url.antt =====
-- src/common/utf8_urlencode.c at concrete inputs.
use gnugol.Base.{
  ◌≡◌, refl, ◌≤◌, ◌<◌, ◌*◌, ◌&&◌, [], ◌∷◌, ◌++◌, ltb, Bytes, codes, length, ok, fault, bad_read,
  true, all, all_sound, arith,
}
use gnugol.Url.Escape.{url_escape_utf8, url_escape_utf8_char, escape_loop, escape_char, url_escapes}
use gnugol.Url.RoundTrip.{
  Ascii, url_escape_utf8-safe, url_escape_utf8_high, url_unescape_utf8-url_escape_utf8,
}
use gnugol.Url.Chars.{all_safe}
use gnugol.Url.Unescape.{url_unescape_utf8}

abbrev query : Bytes
query = codes "C & D"

query-Ascii : Ascii query
unfolding all
query-Ascii =
    all_sound (λ c. (0 < c) × (c < 128)) (λ c. ltb 0 c && ltb c 128) (λ c h. ground arith) query
      refl

query_escapes : url_escape_utf8 query ≡ ok (codes "C+%26+D")
unfolding url_escape_utf8 escape_loop escape_char url_escapes
query_escapes = refl

url_escape_utf8-safe_example :
    (out : Bytes) × (url_escape_utf8 query ≡ ok out)
    × (url_escape_utf8_char query ≡ ok out)
    × (all_safe out ≡ true)
    × (length query ≤ length out)
    × (length out ≤ length query * 3)
url_escape_utf8-safe_example = url_escape_utf8-safe query query-Ascii

high_byte_read : url_escape_utf8 (query ++ 0xC3 ∷ 0xA9 ∷ []) ≡ fault bad_read
high_byte_read = url_escape_utf8_high query (0xA9 ∷ []) 0xC3 query-Ascii (omega arith)

url_unescape_utf8-url_escape_utf8_example :
    url_unescape_utf8 (0 ∷ 7 ∷ []) (codes "C+%26+D") ≡ ok (5, query)
url_unescape_utf8-url_escape_utf8_example =
    url_unescape_utf8-url_escape_utf8 query (codes "C+%26+D") (7 ∷ []) query-Ascii query_escapes
