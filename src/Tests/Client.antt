-- ===== src/Tests/Client.antt =====
-- src/clients/gnugol.c at concrete inputs.
use gnugol.Base.{
  All, ◌>>=◌, zero, suc, ℕ, ◌≡◌, refl, ◌≤◌, ◌<◌, ◌&&◌, [], ◌∷◌, ◌++◌, ltb, if◌then◌else◌, Bytes,
  codes, length, ok, fault, overrun, bad_read, true, false, all, all_sound, arith, none, some, List,
  suc,
}
use gnugol.Client.Environ.{
  IsWord, IsGap, is_delimiter, spread, sets_charset, leaves, process_environ,
  process_environ-arguments,
}
use gnugol.Client.Options.Last.{
  nresults_opt, field, letter, process_options_last, all_valid, is_valid, lacks,
}
use gnugol.Client.Options.{Flag, Client, process_options, number}
use gnugol.Client.Setup.Keywords.{joined, all_short, finish_setup-keywords, finish_setup_overruns}
use gnugol.Client.Setup.{Iconv, ready, load_engines, finish_setup}
use gnugol.Engines.Load.{Engine, Loader, gnugol_default_search, gnugol_default_setup}
use gnugol.Query.{zeroed}
use gnugol.Url.Escape.{url_escape_utf8}
use gnugol.Url.RoundTrip.{Ascii}
use gnugol.Url.Unescape.{url_unescape_utf8}

abbrev no_loader : Loader
no_loader = record {
  malloc = true;
  dlopen = λ path. none;
  strdup = λ name. some name;
  shared_lib_dir = codes "/var/lib/gnugol/";
  so_ext = codes "so";
}

abbrev duck : Engine
duck = record {
  name = some (codes "duck");
  description = [];
  setup = gnugol_default_setup;
  search = gnugol_default_search;
}

abbrev client : Client
unfolding zeroed
client = record { o = zeroed; c_engines = duck ∷ [] }

abbrev flag : ℕ → Bytes → Flag
flag opt optarg = record { opt = opt; optarg = optarg }

abbrev before : List Flag
before = flag b'n' (codes "3") ∷ flag b'l' (codes "en") ∷ []

abbrev behind : List Flag
behind = flag b'o' (codes "html") ∷ flag b'v' [] ∷ []

before_valid : all_valid before ≡ true
unfolding all_valid is_valid
before_valid = refl

behind_valid : all_valid behind ≡ true
unfolding all_valid is_valid
behind_valid = refl

behind_lacks : lacks (letter nresults_opt) behind ≡ true
unfolding lacks letter
behind_lacks = refl

process_options_last_example :
    (after : Client) × (process_options no_loader
        (before ++ record { opt = letter nresults_opt; optarg = codes "7" } ∷ behind)
        client
      ≡ ok (some after))
    × (field nresults_opt after.o ≡ number (codes "7"))
process_options_last_example =
    process_options_last nresults_opt no_loader before behind (codes "7") client before_valid
      behind_valid behind_lacks

abbrev no_iconv : Iconv
no_iconv = record { opens = λ charset. some 22; convert = λ charset word. ok (0, word) }

abbrev two_words : List Bytes
two_words = codes "C&A" ∷ codes "shop" ∷ []

loads : load_engines no_loader client ≡ some client
unfolding load_engines zeroed client
loads = refl

two_words_short : all_short two_words ≡ true
unfolding all_short
two_words_short = refl

two_words-Ascii : Ascii (joined false two_words)
unfolding all joined
two_words-Ascii =
    all_sound (λ c. (0 < c) × (c < 128)) (λ c. ltb 0 c && ltb c 128) (λ c h. ground arith)
      (joined false two_words) refl

two_words_size : length (joined false two_words) ≤ 341
unfolding joined
two_words_size = omega arith

client_plain : client.o.charset ≡ none
unfolding zeroed client
client_plain = refl

client_raw : client.o.url_escape ≡ false
unfolding zeroed client
client_raw = refl

finish_setup-keywords_example :
    (after : Client) × (finish_setup no_loader no_iconv two_words client ≡ ok (ready after))
    × (after.o.url_escape ≡ true)
    × (url_escape_utf8 (joined false two_words) ≡ ok after.o.keywords)
    × (url_unescape_utf8 (0 ∷ []) after.o.keywords ≡ (
        if ltb (length (joined false two_words)) (length after.o.keywords)
        then ok (length (joined false two_words), joined false two_words)
        else fault bad_read))
finish_setup-keywords_example =
    finish_setup-keywords no_loader no_iconv two_words client client [] client_plain loads
      client_plain client_raw two_words_short two_words-Ascii two_words_size

copies : ℕ → Bytes → List Bytes
copies zero word = []
copies (suc n) word = word ∷ copies n word

-- 129 words of nine bytes.
abbrev many_words : List Bytes
unfolding copies
many_words = copies 129 (codes "gnugolgnu")

many_words_short : all_short many_words ≡ true
unfolding all_short copies
many_words_short = refl

many_words_size : 1280 ≤ length (joined client.o.url_escape many_words)
unfolding joined copies zeroed client
many_words_size = omega arith

many_words_overrun : finish_setup no_loader no_iconv many_words client ≡ fault overrun
many_words_overrun =
    finish_setup_overruns no_loader no_iconv many_words client client client_plain loads
      client_plain many_words_short many_words_size

abbrev words_and_gaps : List (Bytes × Bytes)
words_and_gaps = (codes "-n", codes " \t") ∷ []

words_are_words : All (λ p. IsWord p.0 × IsGap p.1) words_and_gaps
unfolding is_delimiter
words_are_words = (
  (
    record { some_byte = omega arith; plain = (refl, (refl, tt)) },
    record { some_byte = omega arith; delimiters = (refl, (refl, tt)) },
  ),
  tt,
)

lead_is_gap : All (λ c. is_delimiter c ≡ true) (codes " ")
unfolding is_delimiter
lead_is_gap = (refl, tt)

end_is_plain : All (λ c. is_delimiter c ≡ false) (codes "3")
unfolding is_delimiter
end_is_plain = (refl, tt)

process_environ-arguments_example :
    process_environ no_loader
      (λ args. before)
      (some (codes " " ++ spread words_and_gaps (codes "3")))
      client
    ≡ (process_options no_loader before client >>= λ processed.
        ok (leaves (sets_charset before) processed))
process_environ-arguments_example =
    process_environ-arguments no_loader (λ args. before) (codes " ") words_and_gaps (codes "3")
      client lead_is_gap words_are_words end_is_plain
