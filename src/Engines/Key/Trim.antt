-- ===== src/Engines/Key/Trim.antt =====
-- What `gnugol_read_key` returns.
use gnugol.Base.{
  ℕ, zero, suc, ◌≤◌, ◌<◌, ◌≡◌, refl, ◌⊎◌, inl, inr, true, false, [], ◌∷◌, ltb, arith, Bytes,
  get_elem?, length, take, ok, fault, overrun, length-take, Bool-cases, ltb→lt, ap,
}
use gnugol.Engines.Key.{
  failed, found, no_data, is_trailing, trim, key_of, Environment, opened, home_path,
  gnugol_read_key,
}

-- Every byte from `i` up to `n` is a blank or a newline.
abbrev pub Trailing : Bytes → ℕ → ℕ → Type 0
Trailing text i n = (j : ℕ) → i ≤ j → j < n → is_trailing (get_elem? text j) ≡ true

-- What the loop stops at.
zero-or-suc : (n : ℕ) → (n ≡ 0) ⊎ ((m : ℕ) × (n ≡ suc m))
zero-or-suc zero = inl refl
zero-or-suc (suc m) = inr (m, refl)

trim_lem :
    (text : Bytes) (n : ℕ)
    → (trim text n ≤ n)
      × Trailing text (trim text n) n
      × ((m : ℕ) → trim text n ≡ suc m → is_trailing (get_elem? text m) ≡ false)
unfolding trim
trim_lem text zero = (omega arith, (λ j a b. absurd (omega arith)), λ m h. absurd (omega arith))
trim_lem text (suc n) =
    let (le, trailing, last) = trim_lem text n in
    elim (Bool-cases (is_trailing (get_elem? text n))) [
      | inl e ↦ rw e (
        omega arith,
        (λ j a b. elim (Bool-cases (ltb j n)) [
          | inl lt ↦ trailing j a (ltb→lt j n lt)
          | inr ge ↦ let same : j ≡ n = ground arith in rw same e
        ]),
        last,
      )
      | inr e ↦ rw e (
        omega arith,
        (λ j a b. absurd (omega arith)),
        λ m h. let same : m ≡ n = omega arith in rw same e,
      )
    ]

take_all : (text : Bytes) (n : ℕ) → length text ≤ n → take n text ≡ text
take_all [] zero h = refl
take_all [] (suc n) h = refl
take_all (c ∷ cs) zero h = absurd (omega arith)
take_all (c ∷ cs) (suc n) h = ap (c ∷◌) (take_all cs n (omega arith))

get_elem?-take : (text : Bytes) (n i : ℕ) → i < n → get_elem? (take n text) i ≡ get_elem? text i
get_elem?-take text zero i h = absurd (omega arith)
get_elem?-take [] (suc n) i h = refl
get_elem?-take (c ∷ cs) (suc n) zero h = refl
get_elem?-take (c ∷ cs) (suc n) (suc i) h = get_elem?-take cs n i (omega arith)

-- A key: the first `m + 1` bytes of the file, the last of which is no blank and no newline, and
-- all that follows it are.
pub record KeyIn (content : Bytes) (m : ℕ) : Type 0 where
  pub inside : suc m ≤ length content
  pub last : is_trailing (get_elem? content m) ≡ false
  pub rest : Trailing content (suc m) (length content)

trimmed :
    (pksize : ℕ) (content : Bytes)
    → length content < pksize
    → ((key_of pksize content ≡ ok (failed no_data)) × Trailing content 0 (length content))
      ⊎ ((m : ℕ) × (key_of pksize content ≡ ok (found (take (suc m) content))) × KeyIn content m)
unfolding key_of
trimmed pksize content h =
    let (le, trailing, last) = trim_lem content (length content) in
    rw (take_all content pksize (omega arith)) (elim (zero-or-suc (trim content (length content))) [
      | inl e ↦ inl (rw e refl, rw (← e) trailing)
      | inr (m, e) ↦ inr (
        m,
        rw e (let t : ltb (suc m) pksize ≡ true = ground arith in rw t refl),
        record { inside = omega arith; last = last m e; rest = rw (← e) trailing },
      )
    ])

-- Where the file in the home directory opens and is shorter than `key`, the call does not fail by
-- writing outside `key`. If every byte of the file is a blank or a newline, the result is `ENODATA`;
-- if not, the key is what the file starts with, up to its last byte that is neither.
pub gnugol_read_key-trim :
    (env : Environment) (n : ℕ) (keyfile content : Bytes)
    → env.file (home_path env keyfile) ≡ opened content
    → length content < suc n
    → ((gnugol_read_key env (suc n) keyfile ≡ ok (failed no_data))
        × Trailing content 0 (length content))
      ⊎ ((m : ℕ) × (gnugol_read_key env (suc n) keyfile ≡ ok (found (take (suc m) content)))
          × KeyIn content m)
unfolding gnugol_read_key
gnugol_read_key-trim env n keyfile content opens h =
    rw (opens, gnugol_read_key) (trimmed (suc n) content h)

key_of_overrun :
    (n : ℕ) (content : Bytes)
    → n < length content
    → is_trailing (get_elem? content n) ≡ false
    → key_of (suc n) content ≡ fault overrun
unfolding key_of trim
key_of_overrun n content long last =
    let full : length (take (suc n) content) ≡ suc n = omega (arith, length-take (suc n) content) in
    let same = get_elem?-take content (suc n) n (omega arith) in
    let shut : ltb (suc n) (suc n) ≡ false = ground arith in rw (full, same, last, shut) refl

-- Where the file in the home directory opens and is at least as long as `key`, and the byte of the
-- file that `key` ends with is neither a blank nor a newline, the NUL is written behind `key`.
pub gnugol_read_key_overrun :
    (env : Environment) (n : ℕ) (keyfile content : Bytes)
    → env.file (home_path env keyfile) ≡ opened content
    → n < length content
    → is_trailing (get_elem? content n) ≡ false
    → gnugol_read_key env (suc n) keyfile ≡ fault overrun
unfolding gnugol_read_key
gnugol_read_key_overrun env n keyfile content opens long last =
    rw (opens, gnugol_read_key) (key_of_overrun n content long last)
