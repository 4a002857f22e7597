-- ===== src/Tests/NodeList.antt =====
-- src/common/nodelist.c at concrete inputs.
use gnugol.Base.{◌==◌, ◌≡◌, refl, true, List, [], ◌∷◌, reverse, arith, ok}
use gnugol.NodeList.Deque.{
  Command, push_head, push_tail, pop_head, pop_tail, AllAllowed, run, specified_all,
  run-specified_all,
}
use gnugol.NodeList.Loops.{
  done, up_to_failure, visit_all, remove_all, visit_all-IsList, remove_all-IsList,
}
use gnugol.NodeList.Refines.{IsList, node_remove-IsList}
use gnugol.NodeList.{Memory, write, node_remove, node_valid}

-- A list at 1 with nodes at 10 and at 20.
abbrev two : Memory
two =
    write (write (write (write (write (write (write (λ a. 0) 1 10) 2 0) 3 20) 10 20) 11 1) 20 2) 21
      10

two-IsList : IsList 1 (10 ∷ 20 ∷ []) two
two-IsList = record {
  live = ground arith;
  chain = ground arith;
  stop = refl;
  off = ground arith;
  separate = ground arith;
}

node_remove-IsList_example :
    (n : Memory) × (node_remove 10 two ≡ ok n)
    × IsList 1 (20 ∷ []) n
    × (node_valid 10 two ≡ ok true)
    × (node_valid 10 n ≡ ok true)
node_remove-IsList_example = node_remove-IsList [] 10 (20 ∷ []) two-IsList

abbrev commands : List Command
commands = push_head 30 ∷ pop_tail ∷ push_tail 20 ∷ pop_head ∷ pop_head ∷ pop_head ∷ pop_tail ∷ []

commands-Allowed : AllAllowed 1 commands (10 ∷ 20 ∷ [])
commands-Allowed = ground arith

run-specified_all_example :
    (n : Memory) × (run 1 commands two ≡ ok ((specified_all commands (10 ∷ 20 ∷ [])).0, n))
    × IsList 1 (specified_all commands (10 ∷ 20 ∷ [])).1 n
run-specified_all_example =
    run-specified_all 1 commands two (10 ∷ 20 ∷ []) two-IsList commands-Allowed

visit_all-IsList_example :
    visit_all (λ pn. pn == 10) 4 1 two ≡ ok (done (up_to_failure (λ pn. pn == 10) (10 ∷ 20 ∷ [])))
visit_all-IsList_example =
    visit_all-IsList (λ pn. pn == 10) 4 1 two (10 ∷ 20 ∷ []) two-IsList (omega arith)

remove_all-IsList_example :
    (n : Memory) × (remove_all 3 1 two ≡ ok (done (reverse (10 ∷ 20 ∷ []), n))) × IsList 1 [] n
remove_all-IsList_example = remove_all-IsList 3 1 two (10 ∷ 20 ∷ []) two-IsList (omega arith)
