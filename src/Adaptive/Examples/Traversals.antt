-- ===== src/Adaptive/Examples/Traversals.antt =====
-- Concrete traversals.
use batch_weaver.Base.{
  ℕ, ◌≡◌, refl, Bool, true, false, List, [], ◌∷◌, Option, none, some, pos, map, ◌==◌, ==_iff,
  ==_refl, Result, ok, if◌then◌else◌,
}
use batch_weaver.Adaptive.Recursive.{
  CyclePolicy, error, return_marker, fail_fast, GivenLimits, with_defaults, NodeResult, Contract,
  TraverseError, cycle, RecursiveResult, dedup_keys, visit_child, visit_children, result_at,
  visit_node, visit_frontier, traverse_levels, traverse,
}
use batch_weaver.Adaptive.Recursive.Ends.{traverse-Returns}
use batch_weaver.Adaptive.Recursive.Reports.{IsReport, traverse-IsReport}

-- Node 0 has the children 1 and 2, and node 1 has the child 2: a graph without a cycle.
abbrev below : ℕ → ℕ → List ℕ
below k v = if k == 0 then 1 ∷ 2 ∷ [] else if k == 1 then 2 ∷ [] else []

abbrev limits : GivenLimits
limits = record { max_depth = pos 4; max_nodes = pos 9; max_edges = pos 9; max_frontier = pos 0 }

abbrev contract : CyclePolicy → Contract ℕ ℕ
contract p = record {
  children = some below;
  terminal = λ _ _. false;
  limits = limits;
  cycle = p;
  error_policy = fail_fast;
  proof_valid = true;
}

abbrev node : ℕ → ℕ → NodeResult ℕ ℕ ℕ
node k d = record { key = k; value = some k; error = none; depth = d }

abbrev load : List ℕ → Result ℕ (List (NodeResult ℕ ℕ ℕ))
load ks = ok (map (λ k. node k 0) ks)

abbrev equal : ℕ → ℕ → Bool
equal a b = a == b

abbrev never : ℕ → Option ℕ
never _ = none

abbrev report : RecursiveResult ℕ ℕ ℕ
report = record {
  order = node 0 0 ∷ node 1 1 ∷ node 2 1 ∷ [];
  frontier_sizes = 1 ∷ 2 ∷ [];
  depth_reached = 1;
  nodes = 3;
  edges = 3;
  cycle_markers = 2 ∷ [];
}

marked : traverse equal (contract return_marker) never load (0 ∷ []) ≡ some (none, report)
unfolding traverse with_defaults dedup_keys traverse_levels visit_frontier visit_node visit_children
    visit_child result_at
marked = refl

-- The edge from 1 to its sibling 2 is taken for a cycle.
cycle_of_siblings :
    traverse equal (contract error) never load (0 ∷ [])
    ≡ some (
      some cycle,
      record report { order = node 0 0 ∷ node 1 1 ∷ []; nodes = 2; cycle_markers = [] },
    )
unfolding traverse with_defaults dedup_keys traverse_levels visit_frontier visit_node visit_children
    visit_child result_at
cycle_of_siblings = refl

traverse-Returns_example :
    (a : Option (TraverseError ℕ) × RecursiveResult ℕ ℕ ℕ) × (traverse equal
        (contract return_marker)
        never
        load
        (0 ∷ [])
      ≡ some a)
traverse-Returns_example = traverse-Returns equal (contract return_marker) never load (0 ∷ [])

traverse-IsReport_example : IsReport equal (with_defaults limits) report
traverse-IsReport_example =
    traverse-IsReport equal (λ a b h. (==_iff a b).0 h) ==_refl (contract return_marker) never load
      (0 ∷ []) (none, report) marked
