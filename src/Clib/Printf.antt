-- ===== src/Clib/Printf.antt =====
-- `snprintf` of the C library, for the conversions that the program uses: `%s` and `%d`.
use gnugol.Base.{
  ℤ, pos, negsuc, ℕ, zero, suc, ◌+◌, ◌/◌, ◌%◌, ◌≡◌, refl, ap, sym, ◌∙◌, Bool, true, false, ◌&&◌,
  List, [], ◌∷◌, ◌++◌, ltb, ◌==◌, if◌then◌else◌, arith, Bytes, All, Result, ok, fault, bad_read,
  ◌>>=◌, append_assoc,
}

pub data Arg : Type 0 where
  str : Bytes → Arg
  num : ℕ → Arg
  int : ℤ → Arg

-- A format is a row of plain bytes and conversions.
pub data Piece : Type 0 where
  plain : ℕ → Piece
  conversion : ℕ → Piece

unfoldable pub pieces : Bytes → List Piece
pieces [] = []
pieces (c ∷ []) = plain c ∷ []
pieces (c ∷ k ∷ cs) = elim (c == b'%') [
  | true ↦ conversion k ∷ pieces cs
  | false ↦ plain c ∷ pieces (k ∷ cs)
]

-- The decimal digits, with fuel for their number.
digits_onto : ℕ → ℕ → Bytes → Bytes
digits_onto zero n acc = acc
digits_onto (suc fuel) n acc =
    let more = digits_onto fuel (n / 10) ((b'0' + n % 10) ∷ acc) in
    if ltb n 10 then (b'0' + n) ∷ acc else more

unfoldable pub decimal : ℕ → Bytes
unfolding digits_onto
decimal n = digits_onto (n + 1) n []

-- The digits of an `int`, with its sign.
unfoldable pub decimal_int : ℤ → Bytes
unfolding decimal
decimal_int (pos n) = decimal n
decimal_int (negsuc n) = b'-' ∷ decimal (n + 1)

-- What a conversion makes of its argument; one of another type, or none, is undefined.
unfoldable pub convert : ℕ → Arg → Result Bytes
unfolding decimal decimal_int
convert k (str text) = if k == b's' then ok text else fault bad_read
convert k (num n) = if k == b'd' then ok (decimal n) else fault bad_read
convert k (int z) = if k == b'd' then ok (decimal_int z) else fault bad_read

unfoldable pub fill : List Piece → List Arg → Result Bytes
unfolding convert
fill [] args = ok []
fill (plain c ∷ ps) args = do rest ← fill ps args; ok (c ∷ rest)
fill (conversion k ∷ ps) [] = fault bad_read
fill (conversion k ∷ ps) (a ∷ args) = do text ← convert k a; rest ← fill ps args; ok (text ++ rest)

-- All that `snprintf(…,format,…)` would write, were there room.
unfoldable pub sprintf : Bytes → List Arg → Result Bytes
unfolding fill pieces
sprintf format args = fill (pieces format) args

-- The conversions are those of the arguments, one for one.
unfoldable pub accepts : List Piece → List Arg → Bool
accepts [] [] = true
accepts [] (a ∷ args) = false
accepts (plain c ∷ ps) args = accepts ps args
accepts (conversion k ∷ ps) [] = false
accepts (conversion k ∷ ps) (str text ∷ args) = k == b's' && accepts ps args
accepts (conversion k ∷ ps) (num n ∷ args) = k == b'd' && accepts ps args
accepts (conversion k ∷ ps) (int z ∷ args) = k == b'd' && accepts ps args

abbrev pub arg_text : Arg → Bytes
arg_text (str text) = text
arg_text (num n) = decimal n
arg_text (int z) = decimal_int z

-- `part` stands in `text`.
abbrev pub Infix : Bytes → Bytes → Type 0
Infix part text = (front : Bytes) × (back : Bytes) × (text ≡ front ++ (part ++ back))

Infix-append : (part text front : Bytes) → Infix part text → Infix part (front ++ text)
Infix-append part text front (a, b, e) =
    (front ++ a, b, ap (front ++◌) e ∙ sym (append_assoc front a (part ++ b)))

All-Infix-append :
    (args : List Arg) (text front : Bytes)
    → All (λ a. Infix (arg_text a) text) args
    → All (λ a. Infix (arg_text a) (front ++ text)) args
All-Infix-append [] text front all = tt
All-Infix-append (a ∷ args) text front (here, all) =
    (Infix-append (arg_text a) text front here, All-Infix-append args text front all)

-- A format that accepts its arguments prints each of them.
pub fill-accepts :
    (ps : List Piece) (args : List Arg)
    → accepts ps args ≡ true
    → (text : Bytes) × (fill ps args ≡ ok text) × All (λ a. Infix (arg_text a) text) args
unfolding accepts fill
fill-accepts [] [] h = ([], refl, tt)
fill-accepts [] (a ∷ args) h = cc
fill-accepts (plain c ∷ ps) args h =
    let (text, run, all) = fill-accepts ps args h in
    (c ∷ text, rw run refl, All-Infix-append args text (c ∷ []) all)
fill-accepts (conversion k ∷ ps) [] h = cc
fill-accepts (conversion k ∷ ps) (str s ∷ args) h =
    let (text, run, all) = fill-accepts ps args (ground arith) in
    let kind : (k == b's') ≡ true = ground arith in
    (s ++ text, rw kind (rw run refl), (([], text, refl), All-Infix-append args text s all))
fill-accepts (conversion k ∷ ps) (num n ∷ args) h =
    let (text, run, all) = fill-accepts ps args (ground arith) in
    let kind : (k == b'd') ≡ true = ground arith in
    (
      decimal n ++ text,
      rw kind (rw run refl),
      (([], text, refl), All-Infix-append args text (decimal n) all),
    )
fill-accepts (conversion k ∷ ps) (int z ∷ args) h =
    let (text, run, all) = fill-accepts ps args (ground arith) in
    let kind : (k == b'd') ≡ true = ground arith in
    (
      decimal_int z ++ text,
      rw kind (rw run refl),
      (([], text, refl), All-Infix-append args text (decimal_int z) all),
    )
