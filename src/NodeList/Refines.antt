-- ===== src/NodeList/Refines.antt =====
-- A list in memory stands for the row of its nodes, and each operation does to the memory what its
-- abstract counterpart does to the row.
use gnugol.Base.{
  ℕ, ◌+◌, ◌<◌, ◌≡◌, ◌≢◌, ◌⊎◌, true, List, [], ◌∷◌, ◌++◌, arith, All, ok, All-without, All-with,
  All-at,
}
use gnugol.NodeList.Chain.{
  Chain, Before, Apart, Spaced, first, last, Chain-reads, Chain-unlink, Chain-link, Chain-next,
}
use gnugol.NodeList.{
  Memory, link, unlink, empty_list, list_init, node_insert, node_remove, node_valid,
}

-- The two words of the node `x` are none of the list's three, nor `NULL`.
abbrev pub Off : ℕ → ℕ → Type 0
Off pl x = (0 < x) × ((x + 1 < pl) ⊎ (pl + 2 < x))

abbrev pub Separate : List ℕ → Type 0
Separate [] = Unit {0}
Separate (x ∷ xs) = All (Apart x) xs × Separate xs

-- The list at `pl` holds the nodes `xs`, in this order.
pub record IsList (pl : ℕ) (xs : List ℕ) (m : Memory) : Type 0 where
  pub live : 0 < pl
  pub chain : Chain m pl xs (pl + 1)
  pub stop : m (pl + 1) ≡ 0
  pub off : All (Off pl) xs
  pub separate : Separate xs

-- A node that is not yet in the list.
abbrev pub New : ℕ → List ℕ → ℕ → Type 0
New pl xs p = Off pl p × All (Apart p) xs

Separate-without :
    (xs : List ℕ) (x : ℕ) (ys : List ℕ) → Separate (xs ++ x ∷ ys) → Separate (xs ++ ys)
Separate-without [] x ys h = h.1
Separate-without (z ∷ xs) x ys h = (All-without (Apart z) xs x ys h.0, Separate-without xs x ys h.1)

Apart-sym : (u v : ℕ) → Apart u v → Apart v u
Apart-sym u v h = ground arith

Separate-with :
    (xs : List ℕ) (x : ℕ) (ys : List ℕ)
    → Separate (xs ++ ys)
    → All (Apart x) (xs ++ ys)
    → Separate (xs ++ x ∷ ys)
Separate-with [] x ys h clear = (clear, h)
Separate-with (z ∷ xs) x ys h clear =
    (All-with (Apart z) xs x ys h.0 (Apart-sym x z clear.0), Separate-with xs x ys h.1 clear.1)

Off-Before : (pl : ℕ) (xs : List ℕ) → All (Off pl) xs → All (Before pl) xs
Off-Before pl [] h = tt
Off-Before pl (x ∷ xs) h = (ground arith, Off-Before pl xs h.1)

Off-Spaced : (pl : ℕ) (xs : List ℕ) → All (Off pl) xs → Separate xs → Spaced xs (pl + 1)
Off-Spaced pl [] h s = tt
Off-Spaced pl (x ∷ xs) h s = (s.0, ground arith, Off-Spaced pl xs h.1 s.1)

-- Where the writes of `NodeInsert` and `NodeRemove` may go: neither to `NULL`, nor to `lh_Tail`.
abbrev Ahead : ℕ → ℕ → Type 0
Ahead pl x = (0 < x) × (x ≢ pl + 1)

abbrev Behind : ℕ → ℕ → Type 0
Behind pl x = (0 < x) × (x ≢ pl)

Off-Ahead : (pl : ℕ) (xs : List ℕ) → All (Off pl) xs → All (Ahead pl) xs
Off-Ahead pl [] h = tt
Off-Ahead pl (x ∷ xs) h = (ground arith, Off-Ahead pl xs h.1)

Off-Behind : (pl : ℕ) (xs : List ℕ) → All (Off pl) xs → All (Behind pl) xs
Off-Behind pl [] h = tt
Off-Behind pl (x ∷ xs) h = (ground arith, Off-Behind pl xs h.1)

last-Ahead : (pl : ℕ) (xs ys : List ℕ) → 0 < pl → All (Off pl) (xs ++ ys) → Ahead pl (last pl xs)
last-Ahead pl xs ys live off = go pl xs (live, λ e. omega arith) (Off-Ahead pl (xs ++ ys) off)
  where
    go : (a : ℕ) (zs : List ℕ) → Ahead pl a → All (Ahead pl) (zs ++ ys) → Ahead pl (last a zs)
    go a [] p h = p
    go a (z ∷ zs) p h = go z zs h.0 h.1

first-Behind : (pl : ℕ) (xs ys : List ℕ) → All (Off pl) (xs ++ ys) → Behind pl (first ys (pl + 1))
first-Behind pl xs ys off = go xs ys (Off-Behind pl (xs ++ ys) off)
  where
    go : (zs ws : List ℕ) → All (Behind pl) (zs ++ ws) → Behind pl (first ws (pl + 1))
    go [] [] h = (omega arith, λ e. omega arith)
    go [] (w ∷ ws) h = h.0
    go (z ∷ zs) ws h = go zs ws h.1

pub list_init-IsList :
    (pl : ℕ) (m : Memory) → 0 < pl → (n : Memory) × (list_init pl m ≡ ok n) × IsList pl [] n
unfolding list_init
list_init-IsList pl m live = (empty_list pl m, ground arith, ground arith)

module _ {pl : ℕ} {m : Memory} where
  -- On a list in memory that holds the nodes `xs ++ ys`, `node_insert` of a node that the list does
  -- not hold and that overlaps none of it, behind the last node of `xs` or behind the head of the list
  -- where `xs` is empty, does not fault, and the memory then holds `xs`, the node and `ys`.
  pub node_insert-IsList :
      (xs ys : List ℕ) (p : ℕ)
      → IsList pl (xs ++ ys) m
      → New pl (xs ++ ys) p
      → (n : Memory) × (node_insert (last pl xs) p m ≡ ok n) × IsList pl (xs ++ p ∷ ys) n
  unfolding node_insert
  node_insert-IsList xs ys p l (off, clear) =
      let ahead = last-Ahead pl xs ys l.live l.off in
      let behind = first-Behind pl xs ys l.off in
      let next = Chain-next m pl (pl + 1) xs ys l.chain in
      (
        link (last pl xs) p (first ys (pl + 1)) m,
        rw next (ground arith),
        record {
          live = l.live;
          chain =
              Chain-link m pl p (pl + 1) xs ys l.chain (Off-Before pl (xs ++ ys) l.off)
                (omega arith) (Off-Spaced pl (xs ++ ys) l.off l.separate) (ground arith)
                (ground arith) (λ e. omega arith) clear;
          stop = ground (arith, l.stop);
          off = All-with (Off pl) xs p ys l.off off;
          separate = Separate-with xs p ys l.separate clear;
        },
      )

  -- On a list in memory that holds `xs ++ x ∷ ys`, `node_remove` of `x` does not fault, and the
  -- memory then holds `xs ++ ys`; `x` is valid before and, as its own links are left, afterwards.
  pub node_remove-IsList :
      (xs : List ℕ) (x : ℕ) (ys : List ℕ)
      → IsList pl (xs ++ x ∷ ys) m
      → (n : Memory) × (node_remove x m ≡ ok n)
        × IsList pl (xs ++ ys) n
        × (node_valid x m ≡ ok true)
        × (node_valid x n ≡ ok true)
  unfolding node_remove node_valid
  node_remove-IsList xs x ys l =
      let (next, back) = Chain-reads m x (pl + 1) ys pl xs l.chain in
      let off = All-without (Off pl) xs x ys l.off in
      let (live, _) = All-at (Off pl) xs x ys l.off in
      let ahead = last-Ahead pl xs ys l.live off in
      let behind = first-Behind pl xs ys off in
      (
        unlink (first ys (pl + 1)) (last pl xs) m,
        rw (next, back) (ground arith),
        record {
          live = l.live;
          chain =
              Chain-unlink m x (pl + 1) ys pl xs l.chain (Off-Before pl (xs ++ x ∷ ys) l.off)
                (omega arith) (Off-Spaced pl (xs ++ x ∷ ys) l.off l.separate);
          stop = ground (arith, l.stop);
          off = off;
          separate = Separate-without xs x ys l.separate;
        },
        rw (next, back) (ground arith),
        rw (next, back) (ground arith),
      )
