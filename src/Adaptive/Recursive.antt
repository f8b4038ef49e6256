-- ===== src/Adaptive/Recursive.antt =====
-- internal/adaptive/recursive.go: the breadth-first traversal that loads one frontier at a time.
-- The context's error at each level, the loader and the contract's functions come from outside. A
-- node's value is there when it was found. Diagnostics repeat the errors and are left out.
pub mod Ends
pub mod Nodes
pub mod Keys
pub mod Reports
use batch_weaver.Base.{
  ℕ, zero, suc, ◌+◌, Bool, true, false, List, [], ◌∷◌, ◌++◌, Option, none, some, ℤ, pos, pos_part,
  ltb_ℤ, ltb, any, length, is_empty, if◌then◌else◌, Result, ok, err,
}

-- A policy that is neither of the first two skips what it has seen.
pub data CyclePolicy : Type 0 where
  error return_marker skip_seen : CyclePolicy

-- The two policies that do not fail fast go on in the same way.
pub data RecursiveErrorPolicy : Type 0 where
  fail_fast collect_per_node partial_graph : RecursiveErrorPolicy

pub record GivenLimits : Type 0 where
  pub max_depth : ℤ
  pub max_nodes : ℤ
  pub max_edges : ℤ
  pub max_frontier : ℤ

pub record Limits : Type 0 where
  pub max_depth : ℕ
  pub max_nodes : ℕ
  pub max_edges : ℕ
  pub max_frontier : ℕ

abbrev pub or_default : ℤ → ℕ → ℕ
or_default v d = if ltb_ℤ (pos 0) v then pos_part v else d

unfoldable pub with_defaults : GivenLimits → Limits
with_defaults l = record {
  max_depth = or_default l.max_depth 32;
  max_nodes = or_default l.max_nodes 100000;
  max_edges = or_default l.max_edges 1000000;
  max_frontier = or_default l.max_frontier 65536;
}

pub record NodeResult (K V X : Type 0) : Type 0 where
  pub key : K
  pub value : Option V
  pub error : Option X
  pub depth : ℕ

-- Without a function `Terminal`, no node is terminal.
pub record Contract (K V : Type 0) : Type 0 where
  pub children : Option (K → V → List K)
  pub terminal : K → V → Bool
  pub limits : GivenLimits
  pub cycle : CyclePolicy
  pub error_policy : RecursiveErrorPolicy
  pub proof_valid : Bool

pub data TraverseError (X : Type 0) : Type 0 where
  limit cycle stale no_children : TraverseError X
  external : X → TraverseError X

pub record RecursiveResult (K V X : Type 0) : Type 0 where
  pub order : List (NodeResult K V X)
  pub frontier_sizes : List ℕ
  pub depth_reached : ℕ
  pub nodes : ℕ
  pub edges : ℕ
  pub cycle_markers : List K

module _ {K V X : Type 0} where
  abbrev pub no_result : RecursiveResult K V X
  no_result = record {
    order = [];
    frontier_sizes = [];
    depth_reached = 0;
    nodes = 0;
    edges = 0;
    cycle_markers = [];
  }

-- Where a loop stands: an error that ends it, the next frontier so far, and the result so far.
pub record Walk (K V X : Type 0) : Type 0 where
  pub stop : Option (TraverseError X)
  pub next : List K
  pub result : RecursiveResult K V X

module _ {K : Type 0} (eq : K → K → Bool) where
  -- `dedupKeys`: the keys, and the visited ones after them.
  unfoldable pub dedup_keys : List K → List K → List K × List K
  dedup_keys visited [] = ([], visited)
  dedup_keys visited (k ∷ ks) =
      let later = dedup_keys (k ∷ visited) ks in
      let same = dedup_keys visited ks in
      if any (eq k) visited then same else (k ∷ later.0, later.1)

module _ {K V X : Type 0} (eq : K → K → Bool) (lim : Limits) (policy : CyclePolicy) where
  -- A child that was visited before.
  abbrev pub seen_child : CyclePolicy → K → Walk K V X → Walk K V X
  seen_child error c w = record w { stop = some cycle }
  seen_child return_marker c w = record w {
    result = record (w.result) { cycle_markers = w.result.cycle_markers ++ c ∷ [] };
  }
  seen_child skip_seen c w = w

  -- One child of a node: the edge counts, and the child joins the next frontier once.
  unfoldable pub visit_child : List K → K → Walk K V X → Walk K V X
  visit_child visited c w =
      let edges = w.result.edges + 1 in
      let counted = record w { result = record (w.result) { edges = edges } } in
      if ltb lim.max_edges edges
      then record counted { stop = some limit }
      else if any (eq c) visited
      then seen_child policy c counted
      else if any (eq c) w.next
      then counted
      else record counted { next = w.next ++ c ∷ [] }

  unfoldable pub visit_children : List K → List K → Walk K V X → Walk K V X
  unfolding visit_child
  visit_children visited [] w = w
  visit_children visited (c ∷ cs) w = elim (w.stop) [
    | some x ↦ w
    | none ↦ visit_children visited cs (visit_child visited c w)
  ]

-- `indexResults` and a lookup in it: the last result of a key.
module _ {K V X : Type 0} (eq : K → K → Bool) where
  unfoldable pub result_at : K → List (NodeResult K V X) → Option (NodeResult K V X)
  result_at k [] = none
  result_at k (r ∷ rs) = elim (result_at k rs) [
    | some q ↦ some q
    | none ↦ if eq r.key k then some r else none
  ]

module _ {K V X : Type 0} where
  -- The node as it is reported, under the key that was asked for, which is that of its result.
  abbrev pub report_of : ℕ → K → Option (NodeResult K V X) → NodeResult K V X
  report_of depth k (some r) = record r { key = k; depth = depth }
  report_of depth k none = record { key = k; value = none; error = none; depth = depth }

  abbrev pub reported : (K → K → Bool) → ℕ → K → List (NodeResult K V X) → NodeResult K V X
  reported eq depth k loaded = report_of depth k (result_at eq k loaded)

module _ {K V X : Type 0} (eq : K → K → Bool) (lim : Limits) (c : Contract K V)
    (children : K → V → List K) where
  -- What follows a node that was loaded without an error.
  abbrev pub expand : List K → K → Option V → Walk K V X → Walk K V X
  expand visited k none w = w
  expand visited k (some v) w =
      if c.terminal k v then w else visit_children eq lim c.cycle visited (children k v) w

  abbrev pub node_error : RecursiveErrorPolicy → X → Walk K V X → Walk K V X
  node_error fail_fast x w = record w { stop = some (external x) }
  node_error collect_per_node x w = w
  node_error partial_graph x w = w

  abbrev pub after_node : List K → NodeResult K V X → Walk K V X → Walk K V X
  after_node visited r w = elim (r.error) [
    | some x ↦ node_error c.error_policy x w
    | none ↦ expand visited r.key r.value w
  ]

  -- The node joins the result.
  abbrev pub add_node : NodeResult K V X → Walk K V X → Walk K V X
  add_node r w = record w {
    result = record (w.result) { order = w.result.order ++ r ∷ []; nodes = w.result.nodes + 1 };
  }

  unfoldable pub visit_node : ℕ → List K → List (NodeResult K V X) → K → Walk K V X → Walk K V X
  unfolding visit_children result_at
  visit_node depth visited loaded k w =
      let r = reported eq depth k loaded in
      let added = add_node r w in
      if ltb lim.max_nodes added.result.nodes
      then record added { stop = some limit }
      else after_node visited r added

  -- The loop over a frontier.
  unfoldable pub visit_frontier :
      ℕ → List K → List (NodeResult K V X) → List K → Walk K V X → Walk K V X
  unfolding visit_node
  visit_frontier depth visited loaded [] w = w
  visit_frontier depth visited loaded (k ∷ ks) w = elim (w.stop) [
    | some x ↦ w
    | none ↦ visit_frontier depth visited loaded ks (visit_node depth visited loaded k w)
  ]

  abbrev pub begin_level : ℕ → List K → RecursiveResult K V X → RecursiveResult K V X
  begin_level depth frontier r = record r {
    frontier_sizes = r.frontier_sizes ++ length frontier ∷ [];
    depth_reached = depth;
  }

module _ {K V X : Type 0} (eq : K → K → Bool) (c : Contract K V) (children : K → V → List K)
    (ctx_error : ℕ → Option X) (loader : List K → Result X (List (NodeResult K V X))) where
  abbrev pub Answer : Type 0
  Answer = Option (TraverseError X) × RecursiveResult K V X

  -- The tests before a level is loaded.
  abbrev pub level_error : Limits → ℕ → List K → Option (TraverseError X)
  level_error lim depth frontier = elim (ctx_error depth) [
    | some x ↦ some (external x)
    | none ↦
        if ltb lim.max_depth depth
        then some limit
        else if ltb lim.max_frontier (length frontier)
        then some limit
        else none
  ]

  -- The loop over the levels; `none` is that the fuel is spent.
  unfoldable pub traverse_levels :
      Limits → ℕ → ℕ → List K → List K → RecursiveResult K V X → Option Answer
  unfolding visit_frontier
  traverse_levels lim fuel depth visited [] res = some (none, res)
  traverse_levels lim zero depth visited (k ∷ ks) res = none
  traverse_levels lim (suc fuel) depth visited (k ∷ ks) res =
      elim (level_error lim depth (k ∷ ks)) [
        | some x ↦ some (some x, res)
        | none ↦ elim (loader (k ∷ ks)) [
          | err x ↦ some (some (external x), begin_level eq lim c children depth (k ∷ ks) res)
          | ok loaded ↦
              let w = visit_frontier eq lim c children depth visited loaded (k ∷ ks) record {
                stop = none;
                next = [];
                result = begin_level eq lim c children depth (k ∷ ks) res;
              } in
              elim (w.stop) [
                | some x ↦ some (some x, w.result)
                | none ↦ traverse_levels lim fuel (suc depth) (w.next ++ visited) w.next w.result
              ]
        ]
      ]

-- `Traverse`. A level deeper than the limit ends the traversal, so that two more rounds than the
-- limit are enough fuel.
unfoldable pub traverse :
    {K V X : Type 0}
    → (K → K → Bool)
    → Contract K V
    → (ℕ → Option X)
    → (List K → Result X (List (NodeResult K V X)))
    → List K
    → Option (Option (TraverseError X) × RecursiveResult K V X)
unfolding with_defaults dedup_keys traverse_levels
traverse eq c ctx_error loader roots =
    let lim = with_defaults c.limits in
    let start = dedup_keys eq [] roots in
    if c.proof_valid
    then elim (c.children) [
      | none ↦ some (some no_children, no_result)
      | some children ↦
          traverse_levels eq c children ctx_error loader lim (lim.max_depth + 2) 0 start.1 start.0
            no_result
    ]
    else some (some stale, no_result)
