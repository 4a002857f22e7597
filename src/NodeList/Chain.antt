-- ===== src/NodeList/Chain.antt =====
-- Chains of linked nodes, and what the writes of `NodeInsert` and `NodeRemove` make of them.
use gnugol.Base.{ℕ, ◌+◌, ◌≡◌, ◌≢◌, List, [], ◌∷◌, ◌++◌, arith, All}
use gnugol.NodeList.{Memory, write, link, unlink}

-- From the node `a` the successors lead through `xs` to `b`, and the predecessors lead back.
abbrev pub Chain : Memory → ℕ → List ℕ → ℕ → Type 0
Chain m a [] b = (m a ≡ b) × (m (b + 1) ≡ a)
Chain m a (x ∷ xs) b = (m a ≡ x) × (m (x + 1) ≡ a) × Chain m x xs b

-- The successor word of `u` is no word of `v` that a chain reads behind it.
abbrev pub Before : ℕ → ℕ → Type 0
Before u v = (u ≢ v) × (u ≢ v + 1)

-- No two words of the nodes overlap.
abbrev pub Apart : ℕ → ℕ → Type 0
Apart u v = (u ≢ v) × (u ≢ v + 1) × (u + 1 ≢ v)

abbrev pub Spaced : List ℕ → ℕ → Type 0
Spaced [] b = Unit {0}
Spaced (x ∷ xs) b = All (Apart x) xs × Before x b × Spaced xs b

-- The first of the nodes, or `b`.
abbrev pub first : List ℕ → ℕ → ℕ
first [] b = b
first (x ∷ xs) b = x

-- The last of the nodes, or `a`.
abbrev pub last : ℕ → List ℕ → ℕ
last a [] = a
last a (x ∷ xs) = last x xs

-- A write outside the words that a chain reads.
abbrev Clear : ℕ → List ℕ → Type 0
Clear w = All (λ x. (w ≢ x) × (w ≢ x + 1))

frame :
    (m : Memory) (w v a b : ℕ) (xs : List ℕ)
    → w ≢ a
    → w ≢ b + 1
    → Clear w xs
    → Chain m a xs b
    → Chain (write m w v) a xs b
frame m w v a b [] na nb clear chain = ground arith
frame m w v a b (x ∷ xs) na nb clear chain =
    let (next, back, rest) = chain in
    (ground arith, ground arith, frame m w v x b xs (clear.0.0) nb clear.1 rest)

Apart-Before : (u : ℕ) (xs : List ℕ) → All (Apart u) xs → All (Before u) xs
Apart-Before u [] h = tt
Apart-Before u (x ∷ xs) h = ((h.0.0, h.0.1), Apart-Before u xs h.1)

Before-first : (u b : ℕ) (ys : List ℕ) → All (Before u) ys → Before u b → Before u (first ys b)
Before-first u b [] h k = k
Before-first u b (y ∷ ys) h k = h.0

Before-drop : (u : ℕ) (xs ys : List ℕ) → All (Before u) (xs ++ ys) → All (Before u) ys
Before-drop u [] ys h = h
Before-drop u (x ∷ xs) ys h = Before-drop u xs ys h.1

Before-last : (u z : ℕ) (xs ys : List ℕ) → All (Before u) (z ∷ xs ++ ys) → u ≢ last z xs
Before-last u z [] ys h = h.0.0
Before-last u z (x ∷ xs) ys h = Before-last u x xs ys h.1

Apart-last : (z : ℕ) (xs ys : List ℕ) → All (Apart z) (xs ++ ys) → z + 1 ≢ last z xs
Apart-last z xs ys h = go z xs h (λ e. omega arith)
  where
    go : (u : ℕ) (us : List ℕ) → All (Apart z) (us ++ ys) → z + 1 ≢ u → z + 1 ≢ last u us
    go u [] h far = far
    go u (x ∷ us) h far = go x us h.1 h.0.2

Apart-Clear : (y : ℕ) (ys : List ℕ) → All (Apart y) ys → Clear (y + 1) ys
Apart-Clear y [] h = tt
Apart-Clear y (x ∷ ys) h = ((h.0.2, λ e. h.0.0 (omega arith)), Apart-Clear y ys h.1)

pub Chain-first : (m : Memory) (x b : ℕ) (ys : List ℕ) → Chain m x ys b → m x ≡ first ys b
Chain-first m x b [] (next, _) = next
Chain-first m x b (y ∷ ys) (next, _, _) = next

pub Chain-next :
    (m : Memory) (a b : ℕ) (xs ys : List ℕ) → Chain m a (xs ++ ys) b → m (last a xs) ≡ first ys b
Chain-next m a b [] ys chain = Chain-first m a b ys chain
Chain-next m a b (x ∷ xs) ys (_, _, rest) = Chain-next m x b xs ys rest

pub Chain-end : (m : Memory) (a b : ℕ) (xs : List ℕ) → Chain m a xs b → m (b + 1) ≡ last a xs
Chain-end m a b [] (_, back) = back
Chain-end m a b (x ∷ xs) (_, _, rest) = Chain-end m x b xs rest

cut_here :
    (m : Memory) (x a b : ℕ) (ys : List ℕ)
    → Chain m x ys b
    → All (Before a) ys
    → Before a b
    → Spaced ys b
    → Chain (unlink (first ys b) a m) a ys b
cut_here m x a b [] chain before ends spaced = ground arith
cut_here m x a b (y ∷ ys) (next, back, rest) before ends spaced =
    let inner =
      frame m (y + 1) a y b ys (omega arith) (λ e. spaced.1.0 (omega arith))
        (Apart-Clear y ys spaced.0) rest in
    (
      ground arith,
      ground arith,
      frame (write m (y + 1) a) a y y b ys before.0.0 ends.1 before.1 inner,
    )

-- A new node between `a` and the chain behind it.
link_here :
    (m : Memory) (a p b : ℕ) (ys : List ℕ)
    → Chain m a ys b
    → All (Before a) ys
    → Before a b
    → Spaced ys b
    → Apart p a
    → Before p b
    → p + 1 ≢ b + 1
    → All (Apart p) ys
    → Chain (link a p (first ys b) m) a (p ∷ ys) b
link_here m a p b [] chain before ends spaced new fresh off clear = ground arith
link_here m a p b (y ∷ ys) (next, back, rest) before ends spaced new fresh off clear =
    let c = frame m p y y b ys clear.0.0 fresh.1 (Apart-Before p ys clear.1) rest in
    let d = frame (write m p y) (p + 1) a y b ys clear.0.2 off (Apart-Clear p ys clear.1) c in
    let e = frame (write (write m p y) (p + 1) a) a p y b ys before.0.0 ends.1 before.1 d in
    let f =
      frame (write (write (write m p y) (p + 1) a) a p) (y + 1) p y b ys (omega arith)
        (λ e. spaced.1.0 (omega arith)) (Apart-Clear y ys spaced.0) e in
    (ground arith, ground arith, (ground arith, ground arith, f))

module _ (m : Memory) (x b : ℕ) (ys : List ℕ) where
  -- What `NodeRemove` reads of a node in a chain.
  pub Chain-reads :
      (a : ℕ) (xs : List ℕ)
      → Chain m a (xs ++ x ∷ ys) b
      → (m x ≡ first ys b) × (m (x + 1) ≡ last a xs)
  Chain-reads a [] (next, back, rest) = (Chain-first m x b ys rest, back)
  Chain-reads a (z ∷ xs) (next, back, rest) = Chain-reads z xs rest

  -- The writes of `NodeRemove` take the node out of the chain.
  pub Chain-unlink :
      (a : ℕ) (xs : List ℕ)
      → Chain m a (xs ++ x ∷ ys) b
      → All (Before a) (xs ++ x ∷ ys)
      → Before a b
      → Spaced (xs ++ x ∷ ys) b
      → Chain (unlink (first ys b) (last a xs) m) a (xs ++ ys) b
  Chain-unlink a [] (_, _, rest) before ends spaced =
      cut_here m x a b ys rest before.1 ends spaced.2
  Chain-unlink a (z ∷ xs) (next, back, rest) before ends spaced =
      let later = Apart-Before z (xs ++ x ∷ ys) spaced.0 in
      let u = Before-last a z xs (x ∷ ys) before in
      let v = Before-first a b ys (Before-drop a (z ∷ xs) (x ∷ ys) before).1 ends in
      let w = Apart-last z xs (x ∷ ys) spaced.0 in
      let t = Before-first z b ys (Before-drop z xs (x ∷ ys) later).1 spaced.1 in
      (ground arith, ground arith, Chain-unlink z xs rest later spaced.1 spaced.2)

-- The writes of `NodeInsert` put a new node into the chain.
pub Chain-link :
    (m : Memory) (a p b : ℕ) (xs ys : List ℕ)
    → Chain m a (xs ++ ys) b
    → All (Before a) (xs ++ ys)
    → Before a b
    → Spaced (xs ++ ys) b
    → Apart p a
    → Before p b
    → p + 1 ≢ b + 1
    → All (Apart p) (xs ++ ys)
    → Chain (link (last a xs) p (first ys b) m) a (xs ++ p ∷ ys) b
Chain-link m a p b [] ys chain before ends spaced new fresh off clear =
    link_here m a p b ys chain before ends spaced new fresh off clear
Chain-link m a p b (z ∷ xs) ys (next, back, rest) before ends spaced new fresh off clear =
    let later = Apart-Before z (xs ++ ys) spaced.0 in
    let u = Before-last a z xs ys before in
    let v = Before-first a b ys (Before-drop a (z ∷ xs) ys before) ends in
    let w = Apart-last z xs ys spaced.0 in
    let t = Before-first z b ys (Before-drop z xs ys later) spaced.1 in
    (
      ground arith,
      ground arith,
      Chain-link m z p b xs ys rest later spaced.1 spaced.2 clear.0 fresh off clear.1,
    )
