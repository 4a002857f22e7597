-- ===== src/Client/Environ.antt =====
-- `process_environ` of src/clients/gnugol.c.
use gnugol.Base.{
  false, All, map, append-nil, sym, ◌<◌, ◌>>=◌, ℕ, ◌+◌, ◌≤◌, ◌≡◌, refl, Bool, true, ◌||◌, Option,
  none, some, List, [], ◌∷◌, ◌==◌, ◌∙◌, ap, ◌++◌, ltb, if◌then◌else◌, arith, Bytes, length, Result,
  ok, fault, overrun, Bool-cases, inl, inr,
}
use gnugol.Client.Options.{Flag, Client, process_options}
use gnugol.Engines.Load.{Loader}

-- `" \t\v\r\n"`
unfoldable pub is_delimiter : ℕ → Bool
is_delimiter c = c == b' ' || (c == b'\t' || (c == 11 || (c == b'\r' || c == b'\n')))

abbrev with_word : Bytes × List Bytes → List Bytes
with_word ([], rest) = rest
with_word (c ∷ word, rest) = (c ∷ word) ∷ rest

-- What the calls of `strtok` return: the word that is being read, and the words behind it.
unfoldable pub words_of : Bytes → Bytes × List Bytes
words_of [] = ([], [])
words_of (c ∷ cs) =
    let found = words_of cs in
    if◌then◌else◌ {A = Bytes × List Bytes} (is_delimiter c) ([], with_word found)
      (c ∷ found.0, found.1)

-- The arguments that the loop writes behind `argv[0]`.
unfoldable pub arguments : Bytes → List Bytes
arguments opt = with_word (words_of opt)

-- Whether `-C` is among the options: `o->charset` is then a pointer into `optcopy`, which is gone when
-- `process_environ` returns.
unfoldable pub sets_charset : List Flag → Bool
sets_charset [] = false
sets_charset (f ∷ fs) = f.opt == b'C' || sets_charset fs

-- The client, with whether its `charset` points into an array that is gone.
abbrev pub leaves : Bool → Option Client → Option (Client × Bool)
leaves dangling none = none
leaves dangling (some c) = some (c, dangling)

-- `process_environ(program,query)`, with `getenv("GNUGOL_OPTS")` and what `getopt_long` returns for
-- the arguments. The loop writes the program, the arguments and `NULL` to `argv[optlen + 1]`.
unfoldable pub process_environ :
    Loader → (List Bytes → List Flag) → Option Bytes → Client → Result (Option (Client × Bool))
process_environ load getopt_long none c = ok (some (c, false))
process_environ load getopt_long (some opt) c =
    let args = arguments opt in
    if ltb (length args + 1) (length opt + 1 + 1)
    then (do
      processed ← process_options load (getopt_long args) c
      ok (leaves (sets_charset (getopt_long args)) processed))
    else fault overrun

with_word-le : (p : Bytes × List Bytes) → length (with_word p) ≤ length p.0 + length p.1
with_word-le ([], rest) = omega arith
with_word-le (c ∷ word, rest) = omega arith

words_of-le : (opt : Bytes) → length (words_of opt).0 + length (words_of opt).1 ≤ length opt
unfolding words_of
words_of-le [] = omega arith
words_of-le (c ∷ cs) =
    let rest = words_of-le cs in
    let words = with_word-le (words_of cs) in
    elim (Bool-cases (is_delimiter c)) [ inl e ↦ rw e (omega arith) | inr e ↦ rw e (omega arith) ]

-- A word has a byte, and no delimiter among its bytes; a gap has a byte, and only delimiters.
pub record IsWord (w : Bytes) : Type 0 where
  pub some_byte : 0 < length w
  pub plain : All (λ c. is_delimiter c ≡ false) w

pub record IsGap (g : Bytes) : Type 0 where
  pub some_byte : 0 < length g
  pub delimiters : All (λ c. is_delimiter c ≡ true) g

-- The words, each with the gap behind it, and the text behind them.
unfoldable pub spread : List (Bytes × Bytes) → Bytes → Bytes
spread [] end = end
spread ((w, g) ∷ ps) end = w ++ (g ++ spread ps end)

words_of-word :
    (w rest : Bytes)
    → All (λ c. is_delimiter c ≡ false) w
    → words_of (w ++ rest) ≡ (w ++ (words_of rest).0, (words_of rest).1)
unfolding words_of
words_of-word [] rest h = refl
words_of-word (c ∷ cs) rest h = rw (h.0, words_of-word cs rest h.1) refl

words_of-gap :
    (g rest : Bytes)
    → 0 < length g
    → All (λ c. is_delimiter c ≡ true) g
    → words_of (g ++ rest) ≡ ([], arguments rest)
unfolding words_of arguments
words_of-gap [] rest some_byte h = absurd (omega arith)
words_of-gap (c ∷ []) rest some_byte h = rw h.0 refl
words_of-gap (c ∷ d ∷ g) rest some_byte h =
    rw (h.0, words_of-gap (d ∷ g) rest (omega arith) h.1) refl

with_word-word : (w : Bytes) (rest : List Bytes) → 0 < length w → with_word (w, rest) ≡ w ∷ rest
with_word-word [] rest h = absurd (omega arith)
with_word-word (c ∷ w) rest h = refl

arguments-spread :
    (ps : List (Bytes × Bytes)) (end : Bytes)
    → All (λ p. IsWord p.0 × IsGap p.1) ps
    → arguments (spread ps end) ≡ map (λ p. p.0) ps ++ arguments end
unfolding arguments spread
arguments-spread [] end h = refl
arguments-spread ((w, g) ∷ ps) end h =
    let (word, gap) = h.0 in
    rw
      (
        words_of-word w (g ++ spread ps end) word.plain,
        words_of-gap g (spread ps end) gap.some_byte gap.delimiters,
        append-nil w,
        with_word-word w (arguments (spread ps end)) word.some_byte,
      )
      (ap (w ∷◌) (arguments-spread ps end h.1))

arguments-lead :
    (lead rest : Bytes)
    → All (λ c. is_delimiter c ≡ true) lead
    → arguments (lead ++ rest) ≡ arguments rest
arguments-lead [] rest h = refl
arguments-lead (c ∷ cs) rest h =
    unfold arguments in rw (words_of-gap (c ∷ cs) rest (omega arith) h) refl

-- A word at the end of the text, which may be missing.
unfoldable pub last_word : Bytes → List Bytes
last_word [] = []
last_word (c ∷ cs) = (c ∷ cs) ∷ []

arguments-last_word :
    (end : Bytes) → All (λ c. is_delimiter c ≡ false) end → arguments end ≡ last_word end
unfolding last_word arguments words_of
arguments-last_word [] h = refl
arguments-last_word (c ∷ cs) h =
    ap arguments (sym (append-nil (c ∷ cs)))
    ∙ rw (words_of-word (c ∷ cs) [] h, append-nil (c ∷ cs)) refl

-- Where `GNUGOL_OPTS` is delimiters, then words with a gap of delimiters behind each, then a last
-- word or nothing, the arguments of the environment are these words: `argv` has room for all of them,
-- and they are taken as `process_options` takes those of the command line. But where `-C` is among
-- the options, `charset` then points into an array that is gone.
pub process_environ-arguments :
    (load : Loader) (getopt_long : List Bytes → List Flag) (lead : Bytes)
    (ps : List (Bytes × Bytes)) (end : Bytes) (c : Client)
    → All (λ c. is_delimiter c ≡ true) lead
    → All (λ p. IsWord p.0 × IsGap p.1) ps
    → All (λ c. is_delimiter c ≡ false) end
    → let args = map (λ p. p.0) ps ++ last_word end in
      process_environ load getopt_long (some (lead ++ spread ps end)) c ≡ (
        process_options load (getopt_long args) c >>= λ processed.
        ok (leaves (sets_charset (getopt_long args)) processed))
unfolding process_environ
process_environ-arguments load getopt_long lead ps end c gap h plain =
    let opt : Bytes = lead ++ spread ps end in
    let words = with_word-le (words_of opt) in
    let le = words_of-le opt in
    let room : ltb (length (arguments opt) + 1) (length opt + 1 + 1) ≡ true =
      unfold arguments in ground arith in
    let all : arguments opt ≡ map (λ p. p.0) ps ++ last_word end =
      arguments-lead lead (spread ps end) gap
      ∙ arguments-spread ps end h
      ∙ ap (map (λ p. p.0) ps ++◌) (arguments-last_word end plain) in
    rw room (rw all refl)
