-- ===== src/Tests/Handy.antt =====
-- src/common/handy.c at concrete inputs.
use gnugol.Base.{
  ℕ, ◌≡◌, ◌≢◌, refl, ◌≤◌, ◌<◌, ◌+◌, ◌/◌, ◌%◌, [], ◌∷◌, ◌++◌, ltb, ◌==◌, if◌then◌else◌, Bytes, codes,
  length, ok, fault, overrun, arith, true, false, not, all, all_sound, IsText, until_nul, get_elem?,
  some,
}
use gnugol.Handy.Entities.Decode.{substitute_utf8-emap}
use gnugol.Handy.Entities.Width.{substitute_utf8-bounded}
use gnugol.Handy.Strip.Bounds.{Outcome, strip_html-bounded}
use gnugol.Handy.Strip.Clean.{NoEntity}
use gnugol.Handy.Strip.Texts.{is_clean}
use gnugol.Handy.Strip.Fixed.{strip_html-idempotent}
use gnugol.Handy.Strip.Overrun.{AllWords, strip_html_overruns}
use gnugol.Handy.Strip.Words.{is_word, words, outside_tags, strip_html-words}
use gnugol.Handy.Entities.{emap}
use gnugol.Handy.Entities.{Utf8, utf8_width, entity_value, chop_semicolon, substitute_utf8}
use gnugol.Handy.Strip.{
  strip_html, strip_loop, step, on_semicolon, end_entity, on_blank, on_period, on_other,
}

-- An encoder that meets the interface.
abbrev pub encode : ℕ → Bytes
encode ch =
    if ltb ch 0x80
    then ch ∷ []
    else if ltb ch 0x800
    then (0xC0 + ch / 64) ∷ (0x80 + ch % 64) ∷ []
    else if ltb ch 0x10000
    then (0xE0 + ch / 4096) ∷ (0x80 + ch / 64 % 64) ∷ (0x80 + ch % 64) ∷ []
    else if ltb ch 0x110000
    then (0xF0 + ch / 262144)
      ∷ (0x80 + ch / 4096 % 64)
      ∷ (0x80 + ch / 64 % 64)
      ∷ (0x80 + ch % 64)
      ∷ []
    else []

pub encode_width : (ch : ℕ) → length (encode ch) ≤ utf8_width ch
encode_width ch = ground arith

abbrev pub encoder : Utf8
encoder = record { u8_wc_toutf8 = encode; u8_wc_toutf8_width = encode_width }

strips :
    strip_html encoder 2048 (codes "<b>This</b> has...  &lt;i&gt; &eacute;")
    ≡ ok (15, codes "This has <i> " ++ (0xC3 ∷ 0xA9 ∷ []))
unfolding strip_html strip_loop step on_semicolon end_entity substitute_utf8 entity_value
    chop_semicolon on_blank on_period on_other until_nul
strips = refl

abbrev page : Bytes
page = codes "<b>A</b>..  b"

strip_html-bounded_example :
    Outcome 2048 page
      (λ r. (r.0 ≤ 2048) × (r.0 ≤ length page) × (length r.1 ≤ r.0))
      (strip_html encoder 2048 page)
strip_html-bounded_example = strip_html-bounded encoder 2048 page

page-NoEntity : NoEntity page
unfolding all
page-NoEntity = all_sound (λ c. c ≢ b'&') (λ c. not (c == b'&')) (λ c h e. ground arith) page refl

page-IsText : IsText page
unfolding all
page-IsText = all_sound (λ c. 0 < c) (λ c. ltb 0 c) (λ c h. ground arith) page refl

strip_html-idempotent_example :
    (r : ℕ × Bytes) × (strip_html encoder 2048 page ≡ ok r)
    × (is_clean r.1 ≡ true)
    × (r.0 ≡ length r.1)
    × (strip_html encoder 2048 r.1 ≡ ok r)
strip_html-idempotent_example = strip_html-idempotent encoder 2048 page page-NoEntity

page_strips : strip_html encoder 2048 page ≡ ok (3, codes "A b")
unfolding strip_html strip_loop step on_semicolon end_entity substitute_utf8 entity_value
    chop_semicolon on_blank on_period on_other until_nul
page_strips = refl

strip_html-words_example : words (codes "A b") ≡ words (outside_tags false page)
strip_html-words_example =
    strip_html-words encoder 2048 page (3, codes "A b") page-NoEntity page-IsText (omega arith)
      page_strips

long_words-AllWords : AllWords (codes "abcdefghijk")
unfolding all is_word
long_words-AllWords =
    all_sound (λ c. is_word c ≡ true) is_word (λ c h. h) (codes "abcdefghijk") refl

strip_html_overruns_example :
    strip_html encoder 2048 (b'&' ∷ codes "abcdefghijk" ++ b';' ∷ codes " b") ≡ fault overrun
strip_html_overruns_example =
    strip_html_overruns encoder 2048 (codes "abcdefghijk") (codes " b") long_words-AllWords
      (omega arith) (omega arith)

substitute_utf8-bounded_example :
    (bytes : Bytes) × (substitute_utf8 encoder 2048 (b'&' ∷ codes "#233") ≡ ok bytes)
    × (length bytes ≤ length (codes "#233") + 2)
substitute_utf8-bounded_example = substitute_utf8-bounded encoder 2048 (codes "#233")

first_row : get_elem? emap 0 ≡ some (record { entity = codes "AElig"; utf8 = 198 })
unfolding emap
first_row = refl

substitute_utf8-emap_example :
    (substitute_utf8 encoder 2048 (codes "&AElig") ≡ ok (encoder.u8_wc_toutf8 198))
    × (substitute_utf8 encoder 2048 (codes "&AElig;") ≡ ok (encoder.u8_wc_toutf8 198))
substitute_utf8-emap_example =
    substitute_utf8-emap encoder 2048 0 (record { entity = codes "AElig"; utf8 = 198 }) first_row
      (omega arith)
