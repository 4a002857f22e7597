-- ===== src/Clib/Search.antt =====
-- `strcmp` and `bsearch` of the C library, as the program calls them.
use Prim.Native.Nat.{compare, Ordering}
use gnugol.Base.{
  ℕ, zero, suc, ◌+◌, ◌/◌, true, false, Option, none, some, List, [], ◌∷◌, ◌≡◌, refl, arith, ◌⊎◌,
  inl, inr, ltb, ap, sym, ◌∙◌, Bytes, All, get_elem?, get_elem?-All, Bool-cases, Option-cases,
}

-- The order of two strings, by their bytes.
unfoldable pub strcmp : Bytes → Bytes → Ordering
strcmp [] [] = Ordering.eq
strcmp [] (y ∷ ys) = Ordering.lt
strcmp (x ∷ xs) [] = Ordering.gt
strcmp (x ∷ xs) (y ∷ ys) = elim (compare x y) [
  | Ordering.lt ↦ Ordering.lt
  | Ordering.eq ↦ strcmp xs ys
  | Ordering.gt ↦ Ordering.gt
]

pub strcmp-eq : (xs ys : Bytes) → strcmp xs ys ≡ Ordering.eq → xs ≡ ys
unfolding strcmp
strcmp-eq [] [] h = refl
strcmp-eq [] (y ∷ ys) h = cc
strcmp-eq (x ∷ xs) [] h = cc
strcmp-eq (x ∷ xs) (y ∷ ys) h = ground (arith, strcmp-eq xs ys)

Ordering-cases : (o : Ordering) → (o ≡ Ordering.lt) ⊎ ((o ≡ Ordering.eq) ⊎ (o ≡ Ordering.gt))
Ordering-cases Ordering.lt = inl refl
Ordering-cases Ordering.eq = inr (inl refl)
Ordering-cases Ordering.gt = inr (inr refl)

module _ {A : Type 0} where
  -- The loop of `bsearch` over the rows from `lo` up to `hi`, with fuel for its rounds.
  bsearch_loop : (A → Ordering) → List A → ℕ → (lo hi : ℕ) → Option A
  bsearch_loop cmp table zero lo hi = none
  bsearch_loop cmp table (suc fuel) lo hi = elim (ltb lo hi) [
    | false ↦ none
    | true ↦ elim (get_elem? table ((lo + hi) / 2)) [
      | none ↦ none
      | some e ↦ elim (cmp e) [
        | Ordering.lt ↦ bsearch_loop cmp table fuel lo ((lo + hi) / 2)
        | Ordering.eq ↦ some e
        | Ordering.gt ↦ bsearch_loop cmp table fuel ((lo + hi) / 2 + 1) hi
      ]
    ]
  ]

  unfoldable pub bsearch : (A → Ordering) → List A → ℕ → Option A
  unfolding bsearch_loop
  bsearch cmp table size = bsearch_loop cmp table size 0 size

  bsearch_loop-found :
      (cmp : A → Ordering) (table : List A) (fuel lo hi : ℕ) (e : A)
      → bsearch_loop cmp table fuel lo hi ≡ some e
      → (cmp e ≡ Ordering.eq) × ((i : ℕ) × (get_elem? table i ≡ some e))
  unfolding bsearch_loop
  bsearch_loop-found cmp table zero lo hi e h = cc
  bsearch_loop-found cmp table (suc fuel) lo hi e h = elim (Bool-cases (ltb lo hi)) [
    | inr out ↦ absurd (ground arith)
    | inl within ↦ elim (Option-cases (get_elem? table ((lo + hi) / 2))) [
      | inl missing ↦ absurd (ground arith)
      | inr (x, found) ↦ elim (Ordering-cases (cmp x)) [
        | inl below ↦ bsearch_loop-found cmp table fuel lo ((lo + hi) / 2) e (ground arith)
        | inr (inl same) ↦
            let here : x ≡ e = ground arith in
            (ap cmp (sym here) ∙ same, ((lo + hi) / 2, found ∙ ap some here))
        | inr (inr over) ↦ bsearch_loop-found cmp table fuel ((lo + hi) / 2 + 1) hi e (ground arith)
      ]
    ]
  ]

  -- What `bsearch` returns is a row of the table that the comparison accepts.
  pub bsearch_sound :
      (P : A → Type 0) (cmp : A → Ordering) (table : List A) (size : ℕ) (e : A)
      → All P table
      → bsearch cmp table size ≡ some e
      → P e × (cmp e ≡ Ordering.eq)
  unfolding bsearch
  bsearch_sound P cmp table size e all h =
      let (same, (i, found)) = bsearch_loop-found cmp table size 0 size e h in
      (get_elem?-All P table i e all found, same)
