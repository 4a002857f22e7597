-- ===== src/NodeList/Loops.antt =====
-- The two loops of `main` in src/clients/gnugol.c over a list of nodes, with fuel for their rounds.
use gnugol.Base.{
  ℕ, zero, suc, ◌+◌, ◌<◌, ◌≡◌, refl, ap, sym, ◌∙◌, Bool, true, false, Bool-cases, inl, inr, List,
  [], ◌∷◌, if◌then◌else◌, arith, All, Result, ok, ◌>>=◌, reverse, length,
}
use mathlib.Core.List.{reverse-append}
use gnugol.NodeList.Chain.{Chain, last}
use gnugol.NodeList.Deque.{but_last, split_last, list_rem_tail_none, list_rem_tail_some}
use gnugol.NodeList.Refines.{IsList, Off}
use gnugol.NodeList.{Memory, node_valid, node_next, list_get_head, list_rem_tail}

-- How a loop ends: within the fuel, or not.
pub data Loop (A : Type 0) : Type 0 where
  done : A → Loop A
  out_of_fuel : Loop A

abbrev add_node : ℕ → Loop (List ℕ) → Loop (List ℕ)
add_node pn (done nodes) = done (pn ∷ nodes)
add_node pn out_of_fuel = out_of_fuel

-- `for(…; NodeValid(pn); pn = NodeNext(pn))`: the nodes that the body sees. At some nodes the body
-- goes on, at the others it leaves `main`, which it does where `iconv` fails.
unfoldable pub visit : (ℕ → Bool) → ℕ → ℕ → Memory → Result (Loop (List ℕ))
visit goes_on zero pn m = ok out_of_fuel
visit goes_on (suc fuel) pn m =
    let more = (do
      next ← node_next pn m
      rest ← visit goes_on fuel next m
      ok (add_node pn rest)) in
    node_valid pn m >>= λ valid.
    if valid then (if goes_on pn then more else ok (done (pn ∷ []))) else ok (done [])

-- The loop that queries the engines.
unfoldable pub visit_all : (ℕ → Bool) → ℕ → ℕ → Memory → Result (Loop (List ℕ))
unfolding visit list_get_head
visit_all goes_on fuel pl m = do pn ← list_get_head pl m; visit goes_on fuel pn m

-- The nodes up to the first at which the body does not go on, and that one.
unfoldable pub up_to_failure : (ℕ → Bool) → List ℕ → List ℕ
up_to_failure goes_on [] = []
up_to_failure goes_on (x ∷ xs) = if goes_on x then x ∷ up_to_failure goes_on xs else x ∷ []

abbrev add_removed : ℕ → Loop (List ℕ × Memory) → Loop (List ℕ × Memory)
add_removed pn (done (nodes, m)) = done (pn ∷ nodes, m)
add_removed pn out_of_fuel = out_of_fuel

-- The loop that unloads the engines: `ListRemTail` until what it gives is not valid.
unfoldable pub remove_all : ℕ → ℕ → Memory → Result (Loop (List ℕ × Memory))
remove_all zero pl m = ok out_of_fuel
remove_all (suc fuel) pl m = list_rem_tail pl m >>= λ (pn, n).
    let more = (do rest ← remove_all fuel pl n; ok (add_removed pn rest)) in
    node_valid pn n >>= λ valid. if valid then more else ok (done ([], n))

visit-Chain :
    (goes_on : ℕ → Bool) (m : Memory) (b : ℕ) (xs : List ℕ) (a x fuel : ℕ)
    → Chain m a (x ∷ xs) b
    → node_valid b m ≡ ok false
    → All (λ y. 0 < y) (x ∷ xs)
    → 0 < a
    → 0 < b
    → length (x ∷ xs) < fuel
    → visit goes_on fuel x m ≡ ok (done (up_to_failure goes_on (x ∷ xs)))
unfolding visit up_to_failure
visit-Chain goes_on m b xs a x zero chain stop real live end enough = absurd (omega arith)
visit-Chain goes_on m b [] a x (suc zero) chain stop real live end enough = absurd (omega arith)
visit-Chain goes_on m b [] a x (suc (suc fuel)) (next, back, (to, from)) stop real live end enough =
    let valid : node_valid x m ≡ ok true = unfold node_valid in ground arith in
    let step : node_next x m ≡ ok b = unfold node_next in rw (valid, to) refl in
    elim (Bool-cases (goes_on x)) [
      | inl on ↦ rw (valid, on, step, stop) refl
      | inr off ↦ rw (valid, off) refl
    ]
visit-Chain goes_on m b (y ∷ ys) a x (suc fuel) (next, back, rest) stop real live end enough =
    let valid : node_valid x m ≡ ok true = unfold node_valid in ground (arith, real.1.0) in
    let step : node_next x m ≡ ok y = unfold node_next in rw (valid, rest.0) refl in
    let more = visit-Chain goes_on m b ys x y fuel rest stop real.1 real.0 end (omega arith) in
    elim (Bool-cases (goes_on x)) [
      | inl on ↦ rw (valid, on, step, more) refl
      | inr off ↦ rw (valid, off) refl
    ]

Off-live : (pl : ℕ) (xs : List ℕ) → All (Off pl) xs → All (λ x. 0 < x) xs
Off-live pl [] h = tt
Off-live pl (x ∷ xs) h = (h.0.0, Off-live pl xs h.1)

-- On a list in memory that holds the nodes `xs`, with fuel for more rounds than it has nodes, the
-- loop of `main` that queries the engines ends, and its body sees these nodes in their order, up to
-- the first at which it leaves `main`, if there is one, and that one.
pub visit_all-IsList :
    (goes_on : ℕ → Bool) (fuel pl : ℕ) (m : Memory) (xs : List ℕ)
    → IsList pl xs m
    → length xs < fuel
    → visit_all goes_on fuel pl m ≡ ok (done (up_to_failure goes_on xs))
unfolding visit_all up_to_failure
visit_all-IsList goes_on zero pl m xs l enough = absurd (omega arith)
visit_all-IsList goes_on (suc fuel) pl m [] l enough =
    let stop : node_valid (pl + 1) m ≡ ok false = unfold node_valid in ground (arith, l.stop) in
    let head : list_get_head pl m ≡ ok (pl + 1) =
      unfold list_get_head in rw l.chain.0 (ground (arith, l.live)) in
    rw (head, stop) refl
visit_all-IsList goes_on (suc fuel) pl m (x ∷ xs) l enough =
    let stop : node_valid (pl + 1) m ≡ ok false = unfold node_valid in ground (arith, l.stop) in
    let head : list_get_head pl m ≡ ok x =
      unfold list_get_head in rw l.chain.0 (ground (arith, l.live, l.off.0.0)) in
    rw head (
      visit-Chain goes_on m (pl + 1) xs pl x (suc fuel) l.chain stop (Off-live pl (x ∷ xs) l.off)
        l.live (omega arith) enough)

reverse_last : (x : ℕ) (xs : List ℕ) → last x xs ∷ reverse (but_last x xs) ≡ reverse (x ∷ xs)
reverse_last x xs =
    sym (reverse-append (but_last x xs) (last x xs ∷ [])) ∙ ap reverse (sym (split_last x xs))

length-but_last : (x : ℕ) (xs : List ℕ) → length (but_last x xs) ≡ length xs
length-but_last x [] = refl
length-but_last x (y ∷ xs) = ap suc (length-but_last y xs)

-- On a list in memory that holds the nodes `xs`, with fuel for more rounds than it has nodes, the
-- loop of `main` that unloads the engines ends: its body sees these nodes in reverse order, and the
-- list is empty afterwards.
pub remove_all-IsList :
    (fuel pl : ℕ) (m : Memory) (xs : List ℕ)
    → IsList pl xs m
    → length xs < fuel
    → (n : Memory) × (remove_all fuel pl m ≡ ok (done (reverse xs, n))) × IsList pl [] n
unfolding remove_all
remove_all-IsList zero pl m xs l enough = absurd (omega arith)
remove_all-IsList (suc fuel) pl m [] l enough =
    let (run, invalid) = list_rem_tail_none pl m l in (m, rw (run, invalid) refl, l)
remove_all-IsList (suc fuel) pl m (x ∷ xs) l enough =
    let (n, run, valid, after) = list_rem_tail_some pl m x xs l in
    let (k, rest, empty) =
      remove_all-IsList fuel pl n (but_last x xs) after (omega (arith, length-but_last x xs)) in
    (k, rw (run, valid, rest) (ap (λ nodes. ok (done (nodes, k))) (reverse_last x xs)), empty)
