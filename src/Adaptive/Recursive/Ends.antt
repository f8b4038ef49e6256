-- ===== src/Adaptive/Recursive/Ends.antt =====
-- Traversals end (internal/adaptive/recursive.go).
use batch_weaver.Base.{
  ℕ, zero, suc, ◌+◌, ◌≤◌, ◌≡◌, refl, inl, inr, Bool, List, [], ◌∷◌, ◌++◌, Option, none, some, arith,
  ltb, length, Bool-cases, Option-cases, Result-cases, Result,
}
use batch_weaver.Adaptive.Recursive.{
  Limits, with_defaults, NodeResult, Contract, TraverseError, RecursiveResult, no_result,
  dedup_keys, visit_frontier, begin_level, Answer, level_error, traverse_levels, traverse,
}

module _ {K V X : Type 0} (eq : K → K → Bool) (c : Contract K V) (children : K → V → List K)
    (ctx_error : ℕ → Option X) (loader : List K → Result X (List (NodeResult K V X))) where
  pub level_error-none :
      (lim : Limits) (depth : ℕ) (f : List K)
      → level_error eq c children ctx_error loader lim depth f ≡ none
      → (depth ≤ lim.max_depth) × (length f ≤ lim.max_frontier)
  level_error-none lim depth f h = elim (Option-cases (ctx_error depth)) [
    | inr (x, e) ↦ ground (arith, e, h)
    | inl e ↦ elim (Bool-cases (ltb lim.max_depth depth)) [
      | inl d ↦ ground (arith, e, d, h)
      | inr d ↦ elim (Bool-cases (ltb lim.max_frontier (length f))) [
        | inl g ↦ ground (arith, e, d, g, h)
        | inr g ↦ (ground (arith, d), ground (arith, g))
      ]
    ]
  ]

  abbrev pub Returns : Option (Answer eq c children ctx_error loader) → Type 0
  Returns o = (a : Answer eq c children ctx_error loader) × (o ≡ some a)

  traverse_levels-Returns :
      (lim : Limits) (fuel depth : ℕ) (visited frontier : List K) (res : RecursiveResult K V X)
      → depth ≤ lim.max_depth + 1
      → lim.max_depth + 2 ≤ fuel + depth
      → Returns (traverse_levels eq c children ctx_error loader lim fuel depth visited frontier res)
  unfolding traverse_levels
  traverse_levels-Returns lim fuel depth visited [] res h k = (_, refl)
  traverse_levels-Returns lim zero depth visited (x ∷ xs) res h k = absurd (omega (arith, h, k))
  traverse_levels-Returns lim (suc fuel) depth visited (x ∷ xs) res h k =
      elim (Option-cases (level_error eq c children ctx_error loader lim depth (x ∷ xs))) [
        | inr (y, e) ↦ rw (e, traverse_levels) (_, refl)
        | inl e ↦ elim (Result-cases (loader (x ∷ xs))) [
          | inr (y, l) ↦ rw (e, l, traverse_levels) (_, refl)
          | inl (loaded, l) ↦
              let w = visit_frontier eq lim c children depth visited loaded (x ∷ xs) record {
                stop = none;
                next = [];
                result = begin_level eq lim c children depth (x ∷ xs) res;
              } in
              elim (Option-cases (w.stop)) [
                | inr (y, s) ↦ rw (e, l, s, traverse_levels) (_, refl)
                | inl s ↦
                    rw (e, l, s, traverse_levels)
                      (traverse_levels-Returns lim fuel (suc depth) (w.next ++ visited) w.next
                        w.result (omega (arith, (level_error-none lim depth (x ∷ xs) e).0))
                        (omega (arith, k)))
              ]
        ]
      ]

-- Every traversal ends, with or without an error, whatever the loader answers and whatever the
-- graph, cyclic or infinite ones included.
pub traverse-Returns :
    {K V X : Type 0} (eq : K → K → Bool) (c : Contract K V) (ctx_error : ℕ → Option X)
    (loader : List K → Result X (List (NodeResult K V X))) (roots : List K)
    → (a : Option (TraverseError X) × RecursiveResult K V X) × (traverse eq c ctx_error loader roots
        ≡ some a)
unfolding traverse
traverse-Returns eq c ctx_error loader roots =
    let lim = with_defaults c.limits in
    let start = dedup_keys eq [] roots in
    elim (Bool-cases (c.proof_valid)) [
      | inr e ↦ rw (e, traverse) (_, refl)
      | inl e ↦ elim (Option-cases (c.children)) [
        | inl f ↦ rw (e, f, traverse) (_, refl)
        | inr (children, f) ↦
            rw (e, f, traverse)
              (traverse_levels-Returns eq c children ctx_error loader lim (lim.max_depth + 2) 0
                start.1 start.0 no_result (omega arith) (omega arith))
      ]
    ]
