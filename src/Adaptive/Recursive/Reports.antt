-- ===== src/Adaptive/Recursive/Reports.antt =====
-- The report of a whole traversal (internal/adaptive/recursive.go).
use batch_weaver.Base.{
  ℕ, zero, suc, ◌+◌, ◌≤◌, ◌≡◌, refl, sym, ap, ◌∙◌, subst, inl, inr, Bool, true, List, [], ◌∷◌, ◌++◌,
  map, Option, none, some, arith, any, length, length-append, All, All-append, Bool-cases,
  Option-cases, Result-cases, Result,
}
use batch_weaver.Adaptive.Recursive.{
  Limits, with_defaults, NodeResult, Contract, TraverseError, stale, no_children, external,
  RecursiveResult, no_result, Walk, dedup_keys, visit_frontier, begin_level, Answer, level_error,
  traverse_levels, traverse,
}
use batch_weaver.Adaptive.Recursive.Ends.{level_error-none}
use batch_weaver.Adaptive.Recursive.Nodes.{
  IsDistinct, IsDistinct-append, IsDistinct-left, keys_of, IsTidy, visit_frontier-IsVisited,
}
use batch_weaver.Adaptive.Recursive.Keys.{
  IsIn, IsIn-IsApart, IsIn-right, IsIn-prefix, IsIn-itself, dedup_keys-IsStart,
}

-- What is reported: every node once, counted, and within the limits, which nodes and edges pass by
-- one at most where the traversal stops for it.
pub record IsReport {K V X : Type 0} (eq : K → K → Bool) (lim : Limits) (r : RecursiveResult K V X)
    : Type 0 where
  pub distinct : IsDistinct eq (keys_of r)
  pub counted : r.nodes ≡ length r.order
  pub nodes : r.nodes ≤ lim.max_nodes + 1
  pub edges : r.edges ≤ lim.max_edges + 1
  pub frontiers : All (λ n. n ≤ lim.max_frontier) r.frontier_sizes
  pub levels : length r.frontier_sizes ≤ lim.max_depth + 1

module _ {K V X : Type 0} (eq : K → K → Bool) (same : (a b : K) → eq a b ≡ true → a ≡ b)
    (itself : (a : K) → eq a a ≡ true) (c : Contract K V) (children : K → V → List K)
    (ctx_error : ℕ → Option X) (loader : List K → Result X (List (NodeResult K V X)))
    (lim : Limits) where
  -- What holds before a level.
  pub record IsLevel (depth : ℕ) (visited frontier : List K) (r : RecursiveResult K V X)
      : Type 0 where
    pub counted : r.nodes ≡ length r.order
    pub nodes : r.nodes ≤ lim.max_nodes
    pub edges : r.edges ≤ lim.max_edges
    pub distinct : IsDistinct eq (keys_of r ++ frontier)
    pub visits : IsIn eq same itself (keys_of r ++ frontier) visited
    pub frontiers : All (λ n. n ≤ lim.max_frontier) r.frontier_sizes
    pub levels : length r.frontier_sizes ≡ depth
    pub shallow : depth ≤ lim.max_depth + 1

  IsLevel-IsReport :
      (depth : ℕ) (visited frontier : List K) (r : RecursiveResult K V X)
      → IsLevel depth visited frontier r
      → IsReport eq lim r
  IsLevel-IsReport depth visited frontier r v = record {
    distinct = IsDistinct-left eq (keys_of r) frontier v.distinct;
    counted = v.counted;
    nodes = omega (arith, v.nodes);
    edges = omega (arith, v.edges);
    frontiers = v.frontiers;
    levels = omega (arith, v.levels, v.shallow);
  }

  -- The level begins: its frontier is within the limits.
  begin_level-IsLevel :
      (depth : ℕ) (visited frontier : List K) (r : RecursiveResult K V X)
      → (depth ≤ lim.max_depth) × (length frontier ≤ lim.max_frontier)
      → IsLevel depth visited frontier r
      → IsLevel (suc depth) visited frontier (begin_level eq lim c children depth frontier r)
  begin_level-IsLevel depth visited frontier r h v = record {
    counted = v.counted;
    nodes = v.nodes;
    edges = v.edges;
    distinct = v.distinct;
    visits = v.visits;
    frontiers =
        All-append (λ n. n ≤ lim.max_frontier) r.frontier_sizes (length frontier ∷ []) v.frontiers
          (h.1, tt);
    levels = length-append r.frontier_sizes (length frontier ∷ []) ∙ omega (arith, v.levels);
    shallow = omega (arith, h.0);
  }

  begin-IsTidy :
      (depth : ℕ) (visited frontier : List K) (r : RecursiveResult K V X)
      → IsLevel depth visited frontier r
      → IsTidy eq same lim visited r.frontier_sizes r.order
          record { stop = none; next = []; result = r }
  begin-IsTidy depth visited frontier r v = record {
    ordered = refl;
    sized = refl;
    counted = v.counted;
    nodes = omega (arith, v.nodes);
    edges = omega (arith, v.edges);
    goes_on = λ _. (v.nodes, v.edges);
    fresh = tt;
    distinct = tt;
  }

  -- The end of a level, which is the report if the traversal stops there, and else the next level.
  ended-IsReport :
      (depth : ℕ) (visited frontier rest : List K) (r : RecursiveResult K V X)
      (order : List (NodeResult K V X)) (w : Walk K V X)
      → IsLevel depth visited frontier r
      → IsTidy eq same lim visited r.frontier_sizes order w
      → keys_of r ++ frontier ≡ map (λ (n : NodeResult K V X). n.key) order ++ rest
      → IsReport eq lim w.result
  ended-IsReport depth visited frontier rest r order w v t e = record {
    distinct =
        subst (λ o. IsDistinct eq (map (λ (n : NodeResult K V X). n.key) o)) (sym t.ordered)
          (IsDistinct-left eq (map (λ (n : NodeResult K V X). n.key) order) rest
            (subst (IsDistinct eq) e v.distinct));
    counted = t.counted ∙ ap length (sym t.ordered);
    nodes = t.nodes;
    edges = t.edges;
    frontiers = subst (All (λ n. n ≤ lim.max_frontier)) (sym t.sized) v.frontiers;
    levels =
        subst (λ l. length l ≤ lim.max_depth + 1) (sym t.sized)
          (omega (arith, v.levels, v.shallow));
  }

  next-IsLevel :
      (depth : ℕ) (visited frontier rest : List K) (r : RecursiveResult K V X)
      (order : List (NodeResult K V X)) (w : Walk K V X)
      → IsLevel depth visited frontier r
      → IsTidy eq same lim visited r.frontier_sizes order w
      → keys_of r ++ frontier ≡ map (λ (n : NodeResult K V X). n.key) order ++ rest
      → w.stop ≡ none
      → IsLevel depth (w.next ++ visited) w.next w.result
  next-IsLevel depth visited frontier rest r order w v t e s =
      let keys = map (λ (n : NodeResult K V X). n.key) order in
      let here : IsIn eq same itself keys visited =
        IsIn-prefix eq same itself keys rest visited
          (subst (λ l. IsIn eq same itself l visited) e v.visits) in
      let ks : keys ≡ keys_of w.result =
        ap (map (λ (n : NodeResult K V X). n.key)) (sym t.ordered) in
      record {
        counted = t.counted ∙ ap length (sym t.ordered);
        nodes = (t.goes_on s).0;
        edges = (t.goes_on s).1;
        distinct =
            subst (λ l. IsDistinct eq (l ++ w.next)) ks
              (IsDistinct-append eq keys w.next
                (IsDistinct-left eq keys rest (subst (IsDistinct eq) e v.distinct)) t.distinct
                (IsIn-IsApart eq same itself keys w.next visited here t.fresh));
        visits =
            subst (λ l. IsIn eq same itself (l ++ w.next) (w.next ++ visited)) ks
              (All-append (λ x. any (eq x) (w.next ++ visited) ≡ true) keys w.next
                (IsIn-right eq same itself keys w.next visited here)
                (IsIn-itself eq same itself w.next visited));
        frontiers = subst (All (λ n. n ≤ lim.max_frontier)) (sym t.sized) v.frontiers;
        levels = ap length t.sized ∙ v.levels;
        shallow = v.shallow;
      }

  -- The report of what comes back, if something does.
  abbrev pub IsReported : Option (Answer eq c children ctx_error loader) → Type 0
  IsReported o = (a : Answer eq c children ctx_error loader) → o ≡ some a → IsReport eq lim (a.1)

  answer_or :
      Answer eq c children ctx_error loader
      → Option (Answer eq c children ctx_error loader)
      → Answer eq c children ctx_error loader
  answer_or d (some a) = a
  answer_or d none = d

  some-IsReported :
      (x : Answer eq c children ctx_error loader) → IsReport eq lim (x.1) → IsReported (some x)
  unfolding answer_or
  some-IsReported x v a h =
      subst (λ (b : Answer eq c children ctx_error loader). IsReport eq lim (b.1))
        (ap (answer_or x) h) v

  traverse_levels-IsReported :
      (fuel depth : ℕ) (visited frontier : List K) (r : RecursiveResult K V X)
      → IsLevel depth visited frontier r
      → IsReported
          (traverse_levels eq c children ctx_error loader lim fuel depth visited frontier r)
  unfolding traverse_levels
  traverse_levels-IsReported fuel depth visited [] r v =
      some-IsReported (none, r) (IsLevel-IsReport depth visited [] r v)
  traverse_levels-IsReported zero depth visited (k ∷ ks) r v = λ a h. cc
  traverse_levels-IsReported (suc fuel) depth visited (k ∷ ks) r v =
      elim (Option-cases (level_error eq c children ctx_error loader lim depth (k ∷ ks))) [
        | inr (x, e) ↦
            rw (e, traverse_levels)
              (some-IsReported (some x, r) (IsLevel-IsReport depth visited (k ∷ ks) r v))
        | inl e ↦
            let begun = begin_level eq lim c children depth (k ∷ ks) r in
            let u =
              begin_level-IsLevel depth visited (k ∷ ks) r
                (level_error-none eq c children ctx_error loader lim depth (k ∷ ks) e) v in
            elim (Result-cases (loader (k ∷ ks))) [
              | inr (x, l) ↦
                  rw (e, l, traverse_levels)
                    (some-IsReported (some (external x), begun)
                      (IsLevel-IsReport (suc depth) visited (k ∷ ks) begun u))
              | inl (loaded, l) ↦
                  let w =
                    visit_frontier eq lim c children depth visited loaded (k ∷ ks)
                      record { stop = none; next = []; result = begun } in
                  let (order, rest, t, q) =
                    visit_frontier-IsVisited eq same lim c children visited begun.frontier_sizes
                      depth loaded r.order (k ∷ ks)
                      record { stop = none; next = []; result = begun }
                      (begin-IsTidy (suc depth) visited (k ∷ ks) begun u) in
                  elim (Option-cases (w.stop)) [
                    | inr (x, s) ↦
                        rw (e, l, s, traverse_levels)
                          (some-IsReported (some x, w.result)
                            (ended-IsReport (suc depth) visited (k ∷ ks) rest begun order w u t q))
                    | inl s ↦
                        rw (e, l, s, traverse_levels)
                          (traverse_levels-IsReported fuel (suc depth) (w.next ++ visited) w.next
                            w.result
                            (next-IsLevel (suc depth) visited (k ∷ ks) rest begun order w u t q s))
                  ]
            ]
      ]

module _ {K V X : Type 0} (eq : K → K → Bool) where
  no_result-IsReport : (lim : Limits) → IsReport {K = K} {V = V} {X = X} eq lim no_result
  no_result-IsReport lim = record {
    distinct = tt;
    counted = refl;
    nodes = omega arith;
    edges = omega arith;
    frontiers = tt;
    levels = omega arith;
  }

  roots-IsLevel :
      (same : (a b : K) → eq a b ≡ true → a ≡ b) (itself : (a : K) → eq a a ≡ true)
      (c : Contract K V) (children : K → V → List K) (ctx_error : ℕ → Option X)
      (loader : List K → Result X (List (NodeResult K V X))) (lim : Limits) (roots : List K)
      → let start = dedup_keys eq [] roots in
        IsLevel eq same itself c children ctx_error loader lim 0 start.1 start.0 no_result
  roots-IsLevel same itself c children ctx_error loader lim roots =
      let (d, a, n, v) = dedup_keys-IsStart eq same itself [] roots in
      record {
        counted = refl;
        nodes = omega arith;
        edges = omega arith;
        distinct = d;
        visits = n;
        frontiers = tt;
        levels = refl;
        shallow = omega arith;
      }

-- With keys compared by equality, a traversal that ends, with an error or without, reports every
-- node once and counts the nodes; nodes and edges pass their limits by one at most, no frontier
-- passes its limit, and there is at most one level more than the greatest depth.
pub traverse-IsReport :
    {K V X : Type 0} (eq : K → K → Bool)
    → ((a b : K) → eq a b ≡ true → a ≡ b)
    → ((a : K) → eq a a ≡ true)
    → (c : Contract K V) (ctx_error : ℕ → Option X)
      (loader : List K → Result X (List (NodeResult K V X))) (roots : List K)
      (a : Option (TraverseError X) × RecursiveResult K V X)
    → traverse eq c ctx_error loader roots ≡ some a
    → IsReport eq (with_defaults c.limits) (a.1)
unfolding traverse
traverse-IsReport eq same itself c ctx_error loader roots =
    let lim = with_defaults c.limits in
    let start = dedup_keys eq [] roots in
    elim (Bool-cases (c.proof_valid)) [
      | inr e ↦
          rw (e, traverse)
            (some-IsReported eq same itself c (λ _ _. []) ctx_error loader lim
              (some stale, no_result) (no_result-IsReport eq lim))
      | inl e ↦ elim (Option-cases (c.children)) [
        | inl f ↦
            rw (e, f, traverse)
              (some-IsReported eq same itself c (λ _ _. []) ctx_error loader lim
                (some no_children, no_result) (no_result-IsReport eq lim))
        | inr (children, f) ↦
            rw (e, f, traverse)
              (traverse_levels-IsReported eq same itself c children ctx_error loader lim
                (lim.max_depth + 2) 0 start.1 start.0 no_result
                (roots-IsLevel eq same itself c children ctx_error loader lim roots))
      ]
    ]
