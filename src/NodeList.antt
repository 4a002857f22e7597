-- ===== src/NodeList.antt =====
-- src/common/nodelist.c and src/include/nodelist.h: doubly linked lists. Memory is a row of words
-- and 0 is `NULL`. A node at `p` has `ln_Succ` at `p` and `ln_Pred` at `p + 1`; a list at `pl` has
-- `lh_Head`, `lh_Tail` and `lh_TailPred` at `pl`, `pl + 1` and `pl + 2`, so that `(Node *)&lh_Head`
-- is `pl` and `(Node *)&lh_Tail` is `pl + 1`.
pub mod Chain
pub mod Refines
pub mod Deque
pub mod Loops
use gnugol.Base.{
  ℕ, ◌+◌, Bool, true, false, not, ◌||◌, ◌==◌, if◌then◌else◌, Result, ok, fault, overrun, bad_read,
  assertion, ◌>>=◌,
}

abbrev pub Memory : Type 0
Memory = ℕ → ℕ

abbrev pub write : Memory → ℕ → ℕ → Memory
write m at value a = if a == at then value else m a

abbrev pub is_null : ℕ → Bool
is_null p = p == 0

-- `assert(p != NULL)`
abbrev pub non_null {ℓ} : {A : Type ℓ} → ℕ → Result A → Result A
non_null p rest = if is_null p then fault assertion else rest

-- The three writes of `ListInit`.
abbrev pub empty_list : ℕ → Memory → Memory
empty_list pl m = write (write (write m pl (pl + 1)) (pl + 1) 0) (pl + 2) pl

-- `ListInit(pl)`
unfoldable pub list_init : ℕ → Memory → Result Memory
list_init pl m = non_null pl (ok (empty_list pl m))

-- The four writes of `NodeInsert`, with `pnn`.
abbrev pub link : ℕ → ℕ → ℕ → Memory → Memory
link pn pntoa pnn m =
    write (write (write (write m pntoa pnn) (pntoa + 1) pn) pn pntoa) (pnn + 1) pntoa

-- `NodeInsert(pn,pntoa)`; `pnn->ln_Pred` is written through `pnn`, which is not checked.
unfoldable pub node_insert : ℕ → ℕ → Memory → Result Memory
node_insert pn pntoa m =
    non_null pn
      (non_null pntoa (if is_null (m pn) then fault bad_read else ok (link pn pntoa (m pn) m)))

-- The two writes of `NodeRemove`, with `pns` and `pnp`.
abbrev pub unlink : ℕ → ℕ → Memory → Memory
unlink pns pnp m = write (write m (pns + 1) pnp) pnp pns

-- `NodeRemove(pn)`
unfoldable pub node_remove : ℕ → Memory → Result Memory
node_remove pn m =
    non_null pn (non_null (m pn) (non_null (m (pn + 1)) (ok (unlink (m pn) (m (pn + 1)) m))))

-- `NodeValid(pn)`
unfoldable pub node_valid : ℕ → Memory → Result Bool
node_valid pn m = non_null pn (ok (not (is_null (m pn) || is_null (m (pn + 1)))))

-- `NodeNext(pn)`
unfoldable pub node_next : ℕ → Memory → Result ℕ
unfolding node_valid
node_next pn m = do valid ← node_valid pn m; ok (if valid then m pn else pn)

-- `NodePrev(pn)`
unfoldable pub node_prev : ℕ → Memory → Result ℕ
unfolding node_valid
node_prev pn m = do valid ← node_valid pn m; ok (if valid then m (pn + 1) else pn)

-- `ListGetHead(pl)`
unfoldable pub list_get_head : ℕ → Memory → Result ℕ
list_get_head pl m = non_null pl (non_null (m pl) (ok (m pl)))

-- `ListGetTail(pl)`
unfoldable pub list_get_tail : ℕ → Memory → Result ℕ
list_get_tail pl m = non_null pl (non_null (m (pl + 2)) (ok (m (pl + 2))))

-- `ListEmpty(pl)`
unfoldable pub list_empty : ℕ → Memory → Result Bool
list_empty pl m = non_null pl (ok (m pl == pl + 1))

-- `ListAddHead(pl,pn)`
unfoldable pub list_add_head : ℕ → ℕ → Memory → Result Memory
list_add_head pl pn m = non_null pl (non_null pn (node_insert pl pn m))

-- `ListAddTail(pl,pn)`
unfoldable pub list_add_tail : ℕ → ℕ → Memory → Result Memory
list_add_tail pl pn m = non_null pl (non_null pn (node_insert (m (pl + 2)) pn m))

-- What `ListRemHead` and `ListRemTail` do with the node at an end.
unfoldable pub take_out : ℕ → Memory → Result (ℕ × Memory)
unfolding node_valid node_remove
take_out pn m = do
  valid ← node_valid pn m
  if valid then (do left ← node_remove pn m; ok (pn, left)) else ok (pn, m)

-- `ListRemHead(pl)`
unfoldable pub list_rem_head : ℕ → Memory → Result (ℕ × Memory)
unfolding list_get_head take_out
list_rem_head pl m = do pn ← list_get_head pl m; take_out pn m

-- `ListRemTail(pl)`
unfoldable pub list_rem_tail : ℕ → Memory → Result (ℕ × Memory)
unfolding list_get_tail take_out
list_rem_tail pl m = do pn ← list_get_tail pl m; take_out pn m
