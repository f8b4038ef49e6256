-- ===== src/Adaptive/Recursive/Nodes.antt =====
-- What a traversal reports (internal/adaptive/recursive.go): every node once, within the limits.
use batch_weaver.Base.{
  ℕ, ◌+◌, ◌≤◌, ◌≡◌, refl, sym, ap, ◌∙◌, subst, inl, inr, Bool, true, false, ◌||◌, List, [], ◌∷◌,
  ◌++◌, map, Option, none, some, arith, ltb, any, length, length-append, All, All-append,
  Bool-cases, Option-cases,
}
use batch_weaver.Adaptive.Recursive.{
  Limits, CyclePolicy, error, return_marker, skip_seen, NodeResult, Contract, TraverseError, limit,
  cycle, external, RecursiveResult, Walk, seen_child, visit_child, visit_children, result_at,
  report_of, reported, expand, node_error, after_node, add_node, visit_node, visit_frontier,
  RecursiveErrorPolicy, fail_fast, collect_per_node, partial_graph,
}

some_none : {X P : Type 0} (x : TraverseError X) → some x ≡ none → P
some_none x h = cc

pub map-append :
    {A B : Type 0} (f : A → B) (xs ys : List A) → map f (xs ++ ys) ≡ map f xs ++ map f ys
map-append f [] ys = refl
map-append f (x ∷ xs) ys = ap (λ r. f x ∷ r) (map-append f xs ys)

module _ {K : Type 0} (eq : K → K → Bool) where
  -- No key stands twice.
  abbrev pub IsDistinct : List K → Type 0
  IsDistinct [] = Unit
  IsDistinct (k ∷ ks) = (any (eq k) ks ≡ false) × IsDistinct ks

  -- No key of the first list stands in the second.
  abbrev pub IsApart : List K → List K → Type 0
  IsApart xs ys = All (λ x. any (eq x) ys ≡ false) xs

  pub any-append : (p : K → Bool) (xs ys : List K) → any p (xs ++ ys) ≡ any p xs || any p ys
  any-append p [] ys = refl
  any-append p (x ∷ xs) ys = ground (arith, any-append p xs ys)

  pub IsDistinct-append :
      (xs ys : List K) → IsDistinct xs → IsDistinct ys → IsApart xs ys → IsDistinct (xs ++ ys)
  IsDistinct-append [] ys hx hy h = hy
  IsDistinct-append (x ∷ xs) ys hx hy h =
      (any-append (eq x) xs ys ∙ ground (arith, hx.0, h.0), IsDistinct-append xs ys hx.1 hy h.1)

  pub IsDistinct-left : (xs ys : List K) → IsDistinct (xs ++ ys) → IsDistinct xs
  IsDistinct-left [] ys h = tt
  IsDistinct-left (x ∷ xs) ys h =
      (ground (arith, h.0, any-append (eq x) xs ys), IsDistinct-left xs ys h.1)

module _ {K V X : Type 0} where
  report_of-key :
      (depth : ℕ) (k : K) (o : Option (NodeResult K V X)) → (report_of depth k o).key ≡ k
  report_of-key depth k none = refl
  report_of-key depth k (some r) = refl

  abbrev pub keys_of : RecursiveResult K V X → List K
  keys_of r = map (λ (n : NodeResult K V X). n.key) r.order

module _ {K : Type 0} (eq : K → K → Bool) (same : (a b : K) → eq a b ≡ true → a ≡ b) where
  swapped : (a b : K) → eq a b ≡ false → eq b a ≡ false
  swapped a b h = elim (Bool-cases (eq b a)) [
    | inr e ↦ e
    | inl e ↦
        subst (λ x. eq x a ≡ false) (sym (same b a e)) (subst (λ x. eq a x ≡ false) (same b a e) h)
  ]

  IsApart-one : (c : K) (xs : List K) → any (eq c) xs ≡ false → IsApart eq xs (c ∷ [])
  IsApart-one c [] h = tt
  IsApart-one c (x ∷ xs) h =
      (ground (arith, swapped c x (ground (arith, h))), IsApart-one c xs (ground (arith, h)))

module _ {K V X : Type 0} (eq : K → K → Bool) (same : (a b : K) → eq a b ≡ true → a ≡ b)
    (lim : Limits) where
  -- The next frontier has new keys, each once, and the counts are within the limits, passing them
  -- by one at most where the traversal stops. The nodes and the sizes of frontiers are the given
  -- ones.
  pub record IsTidy (visited : List K) (sizes : List ℕ) (order : List (NodeResult K V X))
      (w : Walk K V X) : Type 0 where
    pub ordered : w.result.order ≡ order
    pub sized : w.result.frontier_sizes ≡ sizes
    pub counted : w.result.nodes ≡ length order
    pub nodes : w.result.nodes ≤ lim.max_nodes + 1
    pub edges : w.result.edges ≤ lim.max_edges + 1
    pub goes_on :
        (w.stop ≡ none) → (w.result.nodes ≤ lim.max_nodes) × (w.result.edges ≤ lim.max_edges)
    pub fresh : IsApart eq w.next visited
    pub distinct : IsDistinct eq w.next

  abbrev one_edge : Walk K V X → Walk K V X
  one_edge w = record w { result = record (w.result) { edges = w.result.edges + 1 } }

  module _ (visited : List K) (sizes : List ℕ) (order : List (NodeResult K V X)) where
    one_edge-IsTidy :
        (w : Walk K V X)
        → w.result.edges + 1 ≤ lim.max_edges
        → w.stop ≡ none
        → IsTidy visited sizes order w
        → IsTidy visited sizes order (one_edge w)
    one_edge-IsTidy w h s v = record {
      ordered = v.ordered;
      sized = v.sized;
      counted = v.counted;
      nodes = v.nodes;
      edges = omega (arith, h);
      goes_on = λ _. ((v.goes_on s).0, h);
      fresh = v.fresh;
      distinct = v.distinct;
    }

    stopped-IsTidy :
        (x : TraverseError X) (w : Walk K V X)
        → IsTidy visited sizes order w
        → IsTidy visited sizes order (record w { stop = some x })
    stopped-IsTidy x w v = record {
      ordered = v.ordered;
      sized = v.sized;
      counted = v.counted;
      nodes = v.nodes;
      edges = v.edges;
      goes_on = λ h. some_none x h;
      fresh = v.fresh;
      distinct = v.distinct;
    }

    last_edge-IsTidy :
        (w : Walk K V X)
        → w.stop ≡ none
        → IsTidy visited sizes order w
        → IsTidy visited sizes order (record (one_edge w) { stop = some limit })
    last_edge-IsTidy w s v = record {
      ordered = v.ordered;
      sized = v.sized;
      counted = v.counted;
      nodes = v.nodes;
      edges = omega (arith, (v.goes_on s).1);
      goes_on = λ h. some_none limit h;
      fresh = v.fresh;
      distinct = v.distinct;
    }

    seen_child-IsTidy :
        (p : CyclePolicy) (c : K) (w : Walk K V X)
        → IsTidy visited sizes order w
        → IsTidy visited sizes order (seen_child eq lim p p c w)
    seen_child-IsTidy error c w v = stopped-IsTidy cycle w v
    seen_child-IsTidy return_marker c w v = record {
      ordered = v.ordered;
      sized = v.sized;
      counted = v.counted;
      nodes = v.nodes;
      edges = v.edges;
      goes_on = v.goes_on;
      fresh = v.fresh;
      distinct = v.distinct;
    }
    seen_child-IsTidy skip_seen c w v = v

    next-IsTidy :
        (c : K) (w : Walk K V X)
        → any (eq c) visited ≡ false
        → any (eq c) w.next ≡ false
        → IsTidy visited sizes order w
        → IsTidy visited sizes order (record w { next = w.next ++ c ∷ [] })
    next-IsTidy c w h k v = record {
      ordered = v.ordered;
      sized = v.sized;
      counted = v.counted;
      nodes = v.nodes;
      edges = v.edges;
      goes_on = v.goes_on;
      fresh = All-append (λ x. any (eq x) visited ≡ false) w.next (c ∷ []) v.fresh (h, tt);
      distinct =
          IsDistinct-append eq w.next (c ∷ []) v.distinct (refl, tt)
            (IsApart-one eq same c w.next k);
    }

    visit_child-IsTidy :
        (p : CyclePolicy) (c : K) (w : Walk K V X)
        → w.stop ≡ none
        → IsTidy visited sizes order w
        → IsTidy visited sizes order (visit_child eq lim p visited c w)
    unfolding visit_child
    visit_child-IsTidy p c w s v = elim (Bool-cases (ltb lim.max_edges (w.result.edges + 1))) [
      | inl e ↦ rw (e, visit_child) (last_edge-IsTidy w s v)
      | inr e ↦
          let one = one_edge-IsTidy w (ground (arith, e)) s v in
          elim (Bool-cases (any (eq c) visited)) [
            | inl f ↦ rw (e, f, visit_child) (seen_child-IsTidy p c (one_edge w) one)
            | inr f ↦ elim (Bool-cases (any (eq c) w.next)) [
              | inl g ↦ rw (e, f, g, visit_child) one
              | inr g ↦ rw (e, f, g, visit_child) (next-IsTidy c (one_edge w) f g one)
            ]
          ]
    ]

    visit_children-IsTidy :
        (p : CyclePolicy) (cs : List K) (w : Walk K V X)
        → IsTidy visited sizes order w
        → IsTidy visited sizes order (visit_children eq lim p visited cs w)
    unfolding visit_children
    visit_children-IsTidy p [] w v = v
    visit_children-IsTidy p (c ∷ cs) w v = elim (Option-cases (w.stop)) [
      | inr (x, s) ↦ rw (s, visit_children) v
      | inl s ↦
          rw (s, visit_children)
            (visit_children-IsTidy p cs (visit_child eq lim p visited c w)
              (visit_child-IsTidy p c w s v))
    ]

  module _ (c : Contract K V) (children : K → V → List K) (visited : List K) (sizes : List ℕ) where
    expand-IsTidy :
        (order : List (NodeResult K V X)) (k : K) (o : Option V) (w : Walk K V X)
        → IsTidy visited sizes order w
        → IsTidy visited sizes order (expand eq lim c children visited k o w)
    expand-IsTidy order k none w v = v
    expand-IsTidy order k (some x) w v = elim (Bool-cases (c.terminal k x)) [
      | inl e ↦ subst (IsTidy visited sizes order) (sym (rw e refl)) v
      | inr e ↦
          subst (IsTidy visited sizes order) (sym (rw e refl))
            (visit_children-IsTidy visited sizes order c.cycle (children k x) w v)
    ]

    node_error-IsTidy :
        (order : List (NodeResult K V X)) (p : RecursiveErrorPolicy) (x : X) (w : Walk K V X)
        → IsTidy visited sizes order w
        → IsTidy visited sizes order (node_error eq lim c children p x w)
    node_error-IsTidy order fail_fast x w v = stopped-IsTidy visited sizes order (external x) w v
    node_error-IsTidy order collect_per_node x w v = v
    node_error-IsTidy order partial_graph x w v = v

    after_node-IsTidy :
        (order : List (NodeResult K V X)) (r : NodeResult K V X) (o : Option X) (w : Walk K V X)
        → r.error ≡ o
        → IsTidy visited sizes order w
        → IsTidy visited sizes order (after_node eq lim c children visited r w)
    after_node-IsTidy order r none w e v = rw e (expand-IsTidy order r.key r.value w v)
    after_node-IsTidy order r (some x) w e v = rw e (node_error-IsTidy order c.error_policy x w v)

    add_node-IsTidy :
        (order : List (NodeResult K V X)) (r : NodeResult K V X) (w : Walk K V X)
        → w.result.nodes + 1 ≤ lim.max_nodes
        → w.stop ≡ none
        → IsTidy visited sizes order w
        → IsTidy visited sizes (order ++ r ∷ []) (add_node eq lim c children r w)
    add_node-IsTidy order r w h s v = record {
      ordered = ap (λ o. o ++ r ∷ []) v.ordered;
      sized = v.sized;
      counted = omega (arith, v.counted, length-append order (r ∷ []));
      nodes = omega (arith, h);
      edges = v.edges;
      goes_on = λ _. (h, (v.goes_on s).1);
      fresh = v.fresh;
      distinct = v.distinct;
    }

    last_node-IsTidy :
        (order : List (NodeResult K V X)) (r : NodeResult K V X) (w : Walk K V X)
        → w.stop ≡ none
        → IsTidy visited sizes order w
        → IsTidy visited sizes
            (order ++ r ∷ [])
            (record (add_node eq lim c children r w) { stop = some limit })
    last_node-IsTidy order r w s v = record {
      ordered = ap (λ o. o ++ r ∷ []) v.ordered;
      sized = v.sized;
      counted = omega (arith, v.counted, length-append order (r ∷ []));
      nodes = omega (arith, (v.goes_on s).0);
      edges = v.edges;
      goes_on = λ h. some_none limit h;
      fresh = v.fresh;
      distinct = v.distinct;
    }

    visit_node-IsTidy :
        (depth : ℕ) (loaded order : List (NodeResult K V X)) (k : K) (w : Walk K V X)
        → w.stop ≡ none
        → IsTidy visited sizes order w
        → IsTidy visited sizes
            (order ++ reported eq depth k loaded ∷ [])
            (visit_node eq lim c children depth visited loaded k w)
    unfolding visit_node
    visit_node-IsTidy depth loaded order k w s v =
        let r = reported eq depth k loaded in
        elim (Bool-cases (ltb lim.max_nodes (w.result.nodes + 1))) [
          | inl e ↦ rw (e, visit_node) (last_node-IsTidy order r w s v)
          | inr e ↦
              rw (e, visit_node)
                (after_node-IsTidy (order ++ r ∷ []) r r.error (add_node eq lim c children r w) refl
                  (add_node-IsTidy order r w (ground (arith, e)) s v))
        ]

    -- The nodes of a frontier, as far as the loop comes: their keys begin the keys of the frontier.
    abbrev pub IsVisited : List (NodeResult K V X) → List K → Walk K V X → Type 0
    IsVisited order ks w =
        (order2 : List (NodeResult K V X)) × (rest : List K) × IsTidy visited sizes order2 w
        × (map (λ (n : NodeResult K V X). n.key) order ++ ks
            ≡ map (λ (n : NodeResult K V X). n.key) order2 ++ rest)

    one_more :
        (order : List (NodeResult K V X)) (r : NodeResult K V X) (k : K) (ks : List K)
        → r.key ≡ k
        → map (λ (n : NodeResult K V X). n.key) order ++ k ∷ ks
          ≡ map (λ (n : NodeResult K V X). n.key) (order ++ r ∷ []) ++ ks
    one_more [] r k ks e = ap (λ x. x ∷ ks) (sym e)
    one_more (o ∷ os) r k ks e = ap (λ l. o.key ∷ l) (one_more os r k ks e)

    pub visit_frontier-IsVisited :
        (depth : ℕ) (loaded order : List (NodeResult K V X)) (ks : List K) (w : Walk K V X)
        → IsTidy visited sizes order w
        → IsVisited order ks (visit_frontier eq lim c children depth visited loaded ks w)
    unfolding visit_frontier
    visit_frontier-IsVisited depth loaded order [] w v = (order, [], v, refl)
    visit_frontier-IsVisited depth loaded order (k ∷ ks) w v = elim (Option-cases (w.stop)) [
      | inr (x, s) ↦ subst (IsVisited order (k ∷ ks)) (sym (rw s refl)) (order, k ∷ ks, v, refl)
      | inl s ↦
          let r = reported eq depth k loaded in
          let (order2, rest, v2, e) =
            visit_frontier-IsVisited depth loaded (order ++ r ∷ []) ks
              (visit_node eq lim c children depth visited loaded k w)
              (visit_node-IsTidy depth loaded order k w s v) in
          subst (IsVisited order (k ∷ ks)) (sym (rw s refl)) (
            order2,
            rest,
            v2,
            one_more order r k ks (report_of-key depth k (result_at eq k loaded)) ∙ e,
          )
    ]
