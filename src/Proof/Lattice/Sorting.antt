-- ===== src/Proof/Lattice/Sorting.antt =====
-- The order of the reported obligations (internal/proof/lattice.go, `sortObligations`).
use mathlib.Core.List.{Perm, perm_middle}
use mathlib.Core.List.Perm
use batch_weaver.Base.{ℕ, ◌≤◌, List, [], ◌∷◌, ◌++◌, arith, ltb, inl, inr, Bool-cases, append-nil}
use batch_weaver.Proof.Obligation.{ObligationId, obligation_rank}
use batch_weaver.Proof.Lattice.{insert_obligation, sort_onto, sort_obligations}

-- The bound holds for the first element, if there is one.
abbrev Heads : ℕ → List ObligationId → Type 0
Heads n [] = Unit
Heads n (x ∷ xs) = n ≤ obligation_rank x

-- The ranks do not fall from one element to the next.
abbrev pub IsSorted : List ObligationId → Type 0
IsSorted [] = Unit
IsSorted (x ∷ xs) = Heads (obligation_rank x) xs × IsSorted xs

Heads-insert_obligation :
    (n : ℕ) (x : ObligationId) (ys : List ObligationId)
    → n ≤ obligation_rank x
    → Heads n ys
    → Heads n (insert_obligation x ys)
unfolding insert_obligation
Heads-insert_obligation n x [] h k = h
Heads-insert_obligation n x (y ∷ ys) h k =
    elim (Bool-cases (ltb (obligation_rank x) (obligation_rank y))) [
      | inl e ↦ rw e h
      | inr e ↦ rw e k
    ]

insert_obligation-IsSorted :
    (x : ObligationId) (ys : List ObligationId) → IsSorted ys → IsSorted (insert_obligation x ys)
unfolding insert_obligation
insert_obligation-IsSorted x [] h = (tt, tt)
insert_obligation-IsSorted x (y ∷ ys) h =
    elim (Bool-cases (ltb (obligation_rank x) (obligation_rank y))) [
      | inl e ↦ rw e (ground (arith, e), h)
      | inr e ↦ rw e (
        Heads-insert_obligation (obligation_rank y) x ys (ground (arith, e)) h.0,
        insert_obligation-IsSorted x ys h.1,
      )
    ]

insert_obligation-perm :
    (x : ObligationId) (ys : List ObligationId) → Perm (x ∷ ys) (insert_obligation x ys)
unfolding insert_obligation
insert_obligation-perm x [] = Perm.refl (x ∷ [])
insert_obligation-perm x (y ∷ ys) =
    elim (Bool-cases (ltb (obligation_rank x) (obligation_rank y))) [
      | inl e ↦ rw e (Perm.refl (x ∷ y ∷ ys))
      | inr e ↦ rw e (Perm.trans (Perm.swap y x ys) (Perm.cons y (insert_obligation-perm x ys)))
    ]

sort_onto-IsSorted :
    (sorted xs : List ObligationId) → IsSorted sorted → IsSorted (sort_onto sorted xs)
unfolding sort_onto
sort_onto-IsSorted sorted [] h = h
sort_onto-IsSorted sorted (x ∷ xs) h =
    sort_onto-IsSorted (insert_obligation x sorted) xs (insert_obligation-IsSorted x sorted h)

sort_onto-perm : (sorted xs : List ObligationId) → Perm (sorted ++ xs) (sort_onto sorted xs)
unfolding sort_onto
sort_onto-perm sorted [] = rw (append-nil sorted) (Perm.refl sorted)
sort_onto-perm sorted (x ∷ xs) = Perm.trans (perm_middle sorted xs) (
    Perm.trans (Perm.append (insert_obligation-perm x sorted) (Perm.refl xs))
      (sort_onto-perm (insert_obligation x sorted) xs))

-- The sort of the reported obligations keeps each of them, as often as it is there, and puts them
-- in the order of the registry.
pub sort_obligations-IsSorted :
    (ids : List ObligationId) → IsSorted (sort_obligations ids) × Perm ids (sort_obligations ids)
unfolding sort_obligations
sort_obligations-IsSorted ids = (sort_onto-IsSorted [] ids tt, sort_onto-perm [] ids)
