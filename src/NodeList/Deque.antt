-- ===== src/NodeList/Deque.antt =====
-- The operations on a list in memory against a row of nodes that is open at both ends.
use gnugol.Base.{
  ℕ, ◌+◌, ◌<◌, ◌≡◌, refl, ap, sym, subst, true, false, Option, none, some, List, [], ◌∷◌, ◌++◌,
  ◌==◌, if◌then◌else◌, arith, Result, ok, ◌>>=◌, append-nil, All-at,
}
use gnugol.NodeList.Chain.{last, Chain-end}
use gnugol.NodeList.Refines.{IsList, Off, New, node_insert-IsList, node_remove-IsList}
use gnugol.NodeList.{
  Memory, node_remove, node_valid, list_get_head, list_get_tail, list_add_head, list_add_tail,
  take_out, list_rem_head, list_rem_tail,
}

pub data Command : Type 0 where
  push_head push_tail : ℕ → Command
  pop_head pop_tail : Command

-- What a caller sees of a removed node: the node, or that the list was empty.
abbrev removed : ℕ × Memory → Result (Option ℕ × Memory)
removed (pn, m) = node_valid pn m >>= λ valid. ok (if valid then some pn else none, m)

-- A command, run in memory.
unfoldable pub perform : ℕ → Command → Memory → Result (Option ℕ × Memory)
perform pl (push_head p) m = list_add_head pl p m >>= λ n. ok (none, n)
perform pl (push_tail p) m = list_add_tail pl p m >>= λ n. ok (none, n)
perform pl pop_head m = list_rem_head pl m >>= removed
perform pl pop_tail m = list_rem_tail pl m >>= removed

unfoldable pub run : ℕ → List Command → Memory → Result (List (Option ℕ) × Memory)
run pl [] m = ok ([], m)
run pl (c ∷ cs) m = do (seen, n) ← perform pl c m; (rest, k) ← run pl cs n; ok (seen ∷ rest, k)

abbrev pub but_last : ℕ → List ℕ → List ℕ
but_last x [] = []
but_last x (y ∷ xs) = x ∷ but_last y xs

-- The same command on the row of nodes.
abbrev pub specified : Command → List ℕ → Option ℕ × List ℕ
specified (push_head p) xs = (none, p ∷ xs)
specified (push_tail p) xs = (none, xs ++ p ∷ [])
specified pop_head [] = (none, [])
specified pop_head (x ∷ xs) = (some x, xs)
specified pop_tail [] = (none, [])
specified pop_tail (x ∷ xs) = (some (last x xs), but_last x xs)

abbrev pub specified_all : List Command → List ℕ → List (Option ℕ) × List ℕ
specified_all [] xs = ([], xs)
specified_all (c ∷ cs) xs =
    let (seen, ys) = specified c xs in let (rest, zs) = specified_all cs ys in (seen ∷ rest, zs)

-- A node is put in only where it is not in the list already.
abbrev pub Allowed : ℕ → Command → List ℕ → Type 0
Allowed pl (push_head p) xs = New pl xs p
Allowed pl (push_tail p) xs = New pl xs p
Allowed pl pop_head xs = Unit {0}
Allowed pl pop_tail xs = Unit {0}

abbrev pub AllAllowed : ℕ → List Command → List ℕ → Type 0
AllAllowed pl [] xs = Unit {0}
AllAllowed pl (c ∷ cs) xs = Allowed pl c xs × AllAllowed pl cs (specified c xs).1

pub split_last : (x : ℕ) (xs : List ℕ) → x ∷ xs ≡ but_last x xs ++ last x xs ∷ []
split_last x [] = refl
split_last x (y ∷ xs) = ap (x ∷◌) (split_last y xs)

-- `lh_TailPred`
tail_lem : (pl : ℕ) (xs : List ℕ) (m : Memory) → IsList pl xs m → m (pl + 2) ≡ last pl xs
tail_lem pl xs m l =
    let same : pl + 2 ≡ pl + 1 + 1 = omega arith in rw same (Chain-end m pl (pl + 1) xs l.chain)

-- A command on a list in memory.
abbrev pub Performs : ℕ → Command → Memory → List ℕ → Type 0
Performs pl c m xs =
    (n : Memory) × (perform pl c m ≡ ok ((specified c xs).0, n)) × IsList pl (specified c xs).1 n

take_out_valid :
    (x : ℕ) (m n : Memory)
    → node_valid x m ≡ ok true
    → node_remove x m ≡ ok n
    → take_out x m ≡ ok (x, n)
unfolding take_out
take_out_valid x m n valid taken = rw (valid, taken) refl

take_out_invalid : (x : ℕ) (m : Memory) → node_valid x m ≡ ok false → take_out x m ≡ ok (x, m)
unfolding take_out
take_out_invalid x m invalid = rw invalid refl

rem_head :
    (pl x : ℕ) (m : Memory) (r : Result (ℕ × Memory))
    → 0 < pl
    → 0 < x
    → m pl ≡ x
    → take_out x m ≡ r
    → list_rem_head pl m ≡ r
unfolding list_rem_head list_get_head
rem_head pl x m r live real at run =
    let a : (pl == 0) ≡ false = ground arith in
    let b : (x == 0) ≡ false = ground arith in rw (at, a, b) run

rem_tail :
    (pl x : ℕ) (m : Memory) (r : Result (ℕ × Memory))
    → 0 < pl
    → 0 < x
    → m (pl + 2) ≡ x
    → take_out x m ≡ r
    → list_rem_tail pl m ≡ r
unfolding list_rem_tail list_get_tail
rem_tail pl x m r live real at run =
    let a : (pl == 0) ≡ false = ground arith in
    let b : (x == 0) ≡ false = ground arith in rw (at, a, b) run

module _ (pl : ℕ) (m : Memory) where
  push_head-Performs :
      (xs : List ℕ) (p : ℕ) → IsList pl xs m → New pl xs p → Performs pl (push_head p) m xs
  unfolding perform list_add_head
  push_head-Performs xs p l new =
      let (n, inserted, after) = node_insert-IsList {m = m} [] xs p l new in
      let a : (pl == 0) ≡ false = ground (arith, l.live) in
      let b : (p == 0) ≡ false = ground (arith, new.0.0) in (n, rw (a, b, inserted) refl, after)

  push_tail-Performs :
      (xs : List ℕ) (p : ℕ) → IsList pl xs m → New pl xs p → Performs pl (push_tail p) m xs
  unfolding perform list_add_tail
  push_tail-Performs xs p l new =
      let same = sym (append-nil xs) in
      let (n, inserted, after) =
        node_insert-IsList {m = m} xs [] p (subst (λ zs. IsList pl zs m) same l)
          (subst (λ zs. New pl zs p) same new) in
      let tail = tail_lem pl xs m l in
      let a : (pl == 0) ≡ false = ground (arith, l.live) in
      let b : (p == 0) ≡ false = ground (arith, new.0.0) in
      (n, rw (tail, a, b, inserted) refl, after)

  pop_head-Performs : (xs : List ℕ) → IsList pl xs m → Performs pl pop_head m xs
  unfolding perform
  pop_head-Performs [] l =
      let invalid : node_valid (pl + 1) m ≡ ok false =
        unfold node_valid in ground (arith, l.stop) in
      let run =
        rem_head pl (pl + 1) m (ok (pl + 1, m)) l.live (omega arith) l.chain.0
          (take_out_invalid (pl + 1) m invalid) in
      (m, rw (run, invalid) refl, l)
  pop_head-Performs (x ∷ xs) l =
      let (n, taken, after, before, valid) = node_remove-IsList {m = m} [] x xs l in
      let run =
        rem_head pl x m (ok (x, n)) l.live l.off.0.0 l.chain.0
          (take_out_valid x m n before taken) in
      (n, rw (run, valid) refl, after)

  pub list_rem_tail_none :
      IsList pl [] m → (list_rem_tail pl m ≡ ok (pl, m)) × (node_valid pl m ≡ ok false)
  list_rem_tail_none l =
      let invalid : node_valid pl m ≡ ok false =
        unfold node_valid in ground (arith, l.stop, l.live) in
      (
        rem_tail pl pl m (ok (pl, m)) l.live l.live (tail_lem pl [] m l)
            (take_out_invalid pl m invalid),
        invalid,
      )

  pub list_rem_tail_some :
      (x : ℕ) (xs : List ℕ)
      → IsList pl (x ∷ xs) m
      → (n : Memory) × (list_rem_tail pl m ≡ ok (last x xs, n))
        × (node_valid (last x xs) n ≡ ok true)
        × IsList pl (but_last x xs) n
  list_rem_tail_some x xs l =
      let split = subst (λ zs. IsList pl zs m) (split_last x xs) l in
      let (n, taken, after, before, valid) =
        node_remove-IsList {m = m} (but_last x xs) (last x xs) [] split in
      let (real, _) = All-at (Off pl) (but_last x xs) (last x xs) [] split.off in
      (
        n,
        rem_tail pl (last x xs) m (ok (last x xs, n)) l.live real (tail_lem pl (x ∷ xs) m l)
            (take_out_valid (last x xs) m n before taken),
        valid,
        subst (λ zs. IsList pl zs n) (append-nil (but_last x xs)) after,
      )

  pop_tail-Performs : (xs : List ℕ) → IsList pl xs m → Performs pl pop_tail m xs
  unfolding perform
  pop_tail-Performs [] l =
      let (run, invalid) = list_rem_tail_none l in (m, rw (run, invalid) refl, l)
  pop_tail-Performs (x ∷ xs) l =
      let (n, run, valid, after) = list_rem_tail_some x xs l in (n, rw (run, valid) refl, after)

  pub perform-Performs :
      (c : Command) (xs : List ℕ) → IsList pl xs m → Allowed pl c xs → Performs pl c m xs
  perform-Performs (push_head p) xs l new = push_head-Performs xs p l new
  perform-Performs (push_tail p) xs l new = push_tail-Performs xs p l new
  perform-Performs pop_head xs l new = pop_head-Performs xs l
  perform-Performs pop_tail xs l new = pop_tail-Performs xs l

-- On a list in memory that holds the nodes `xs`, where each added node is one that the list does not
-- hold and that overlaps none of it, every sequence of additions and removals at either end runs
-- without a fault: each removal gives the node that the row of nodes has at that end, or is seen to
-- give none where the row is empty, and the memory holds the row that is left.
pub run-specified_all :
    (pl : ℕ) (cs : List Command) (m : Memory) (xs : List ℕ)
    → IsList pl xs m
    → AllAllowed pl cs xs
    → (n : Memory) × (run pl cs m ≡ ok ((specified_all cs xs).0, n))
      × IsList pl (specified_all cs xs).1 n
unfolding run
run-specified_all pl [] m xs l allowed = (m, refl, l)
run-specified_all pl (c ∷ cs) m xs l allowed =
    let (n, ran, held) = perform-Performs pl m c xs l allowed.0 in
    let (k, rest, done) = run-specified_all pl cs n (specified c xs).1 held allowed.1 in
    (k, rw (ran, rest) refl, done)
