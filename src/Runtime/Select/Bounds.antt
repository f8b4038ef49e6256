-- ===== src/Runtime/Select/Bounds.antt =====
-- What one walk over the pending items guarantees (runtime/coordinator_dispatch.go, `dispatchBatch`).
use mathlib.Core.List.{Perm, perm_middle}
use mathlib.Core.List.Perm
use batch_weaver.Base.{
  IsUnder, under_limit, ℕ, ◌+◌, ◌≤◌, ◌<◌, ◌≡◌, ◌≢◌, refl, false, List, [], ◌∷◌, ◌++◌, arith, length,
  sum_of, All, map, any, leb, ◌^◌, ◌⊎◌, inl, inr, Bool, true, Bool-cases,
}
use batch_weaver.Runtime.State.{Item, add_i64, add_i64_small}
use batch_weaver.Runtime.Select.{BatchLimits, select, item_too_large}

-- An element that joins one of four lists joins their union.
module _ {A : Type 0} (x : A) {all : List A} (s r t d : List A)
    (p : Perm all (s ++ r ++ t ++ d)) where
  into_fourth : Perm (x ∷ all) (s ++ r ++ t ++ x ∷ d)
  into_fourth = Perm.trans (Perm.cons x p) (Perm.symm (perm_middle (s ++ r ++ t) d))

  into_third : Perm (x ∷ all) (s ++ r ++ x ∷ t ++ d)
  into_third =
      Perm.trans (Perm.cons x p) (Perm.append (Perm.symm (perm_middle (s ++ r) t)) (Perm.refl d))

  into_second : Perm (x ∷ all) (s ++ x ∷ r ++ t ++ d)
  into_second =
      Perm.trans (Perm.cons x p)
        (Perm.append (Perm.append (Perm.symm (perm_middle s r)) (Perm.refl t)) (Perm.refl d))

  into_first : Perm (x ∷ all) ((x ∷ s) ++ r ++ t ++ d)
  into_first = Perm.cons x p

abbrev pub total : List ℕ → ℕ
total = sum_of (λ n. n)

-- A number that passes the int64 range together with a limit.
abbrev pub is_heavy : ℕ → ℕ → Bool
is_heavy limit n = leb (2 ^ 63) (limit + n)

-- Numbers whose sum does not pass a limit, zero being none, unless one of them is heavy.
abbrev pub IsCapped : ℕ → List ℕ → Type 0
IsCapped limit ns = IsUnder limit (total ns) ⊎ (any (is_heavy limit) ns ≡ true)

IsCapped_lem :
    (limit : ℕ) (ns : List ℕ)
    → (0 < limit → any (is_heavy limit) ns ≡ false → total ns ≤ limit)
    → IsCapped limit ns
IsCapped_lem limit ns f = elim (Bool-cases (any (is_heavy limit) ns)) [
  | inl h ↦ inr h
  | inr h ↦ inl (under_limit limit (total ns) (λ p. f p h))
]

module _ {K : Type 0} where
  abbrev pub weights_of : List (Item K) → List ℕ
  weights_of = map (λ it. it.weight)

  abbrev pub loads_of : List (Item K) → List ℕ
  loads_of = map (λ it. it.bytes)

  select_size :
      (l : BatchLimits) (n w b : ℕ) (its : List (Item K))
      → 0 < l.size
      → n ≤ l.size
      → n + length (select l n w b its).selected ≤ l.size
  unfolding select
  select_size l n w b [] h k = omega arith
  select_size l n w b (it ∷ its) h k = ground (
    arith,
    select_size l n w b its,
    select_size l (n + 1) (add_i64 w it.weight) (add_i64 b it.bytes) its,
  )

  select_weight :
      (l : BatchLimits) (n w b : ℕ) (its : List (Item K))
      → 0 < l.weight
      → w ≤ l.weight
      → (n ≡ 0 → w ≡ 0)
      → any (is_heavy l.weight) (weights_of (select l n w b its).selected) ≡ false
      → w + total (weights_of (select l n w b its).selected) ≤ l.weight
  unfolding select
  select_weight l n w b [] h k z f = omega (arith, k)
  select_weight l n w b (it ∷ its) h k z f = ground (
    arith,
    select_weight l n w b its,
    select_weight l (n + 1) (add_i64 w it.weight) (add_i64 b it.bytes) its,
    add_i64_small w it.weight,
  )

  select_bytes :
      (l : BatchLimits) (n w b : ℕ) (its : List (Item K))
      → 0 < l.bytes
      → b ≤ l.bytes
      → (n ≡ 0 → b ≡ 0)
      → any (is_heavy l.bytes) (loads_of (select l n w b its).selected) ≡ false
      → b + total (loads_of (select l n w b its).selected) ≤ l.bytes
  unfolding select
  select_bytes l n w b [] h k z f = omega (arith, k)
  select_bytes l n w b (it ∷ its) h k z f = ground (
    arith,
    select_bytes l n w b its,
    select_bytes l (n + 1) (add_i64 w it.weight) (add_i64 b it.bytes) its,
    add_i64_small b it.bytes,
  )

  -- For a positive size limit, the items that a walk selects do not pass the size limit. They pass
  -- neither the weight nor the byte limit unless one of them is so heavy or so large that, with the
  -- limit, it passes the int64 range; a weight or byte limit of zero is none.
  pub select_bounds :
      (l : BatchLimits) (its : List (Item K))
      → 0 < l.size
      → let batch = (select l 0 0 0 its).selected in
        (length batch ≤ l.size)
        × IsCapped l.weight (weights_of batch)
        × IsCapped l.bytes (loads_of batch)
  select_bounds l its h = (
    omega (arith, select_size l 0 0 0 its h),
    IsCapped_lem l.weight (weights_of (select l 0 0 0 its).selected)
        (λ w f. omega (arith, select_weight l 0 0 0 its w (omega arith) (λ e. e) f)),
    IsCapped_lem l.bytes (loads_of (select l 0 0 0 its).selected)
        (λ b f. omega (arith, select_bytes l 0 0 0 its b (omega arith) (λ e. e) f)),
  )

  -- An item that has a waiter and is not too large for a batch is selected, as the first one, when
  -- it stands first among the pending items.
  pub select-cons_head :
      (l : BatchLimits) (it : Item K) (its : List (Item K))
      → it.active_waiters ≢ 0
      → item_too_large l it ≡ false
      → (rest : List (Item K)) × ((select l 0 0 0 (it ∷ its)).selected ≡ it ∷ rest)
  unfolding select
  select-cons_head l it its a f =
      ((select l 1 (add_i64 0 it.weight) (add_i64 0 it.bytes) its).selected, ground arith)

  -- The four parts of the walk, together, are a permutation of the pending items: none is lost and
  -- none is handled twice.
  pub select-perm :
      (l : BatchLimits) (n w b : ℕ) (its : List (Item K))
      → let s = select l n w b its in
        Perm its (s.selected ++ s.remaining ++ s.too_large ++ s.dropped)
  unfolding select
  select-perm l n w b [] = Perm.nil
  select-perm l n w b (it ∷ its) =
      let s = select l n w b its in
      let m = select l (n + 1) (add_i64 w it.weight) (add_i64 b it.bytes) its in
      let p = select-perm l n w b its in
      let q = select-perm l (n + 1) (add_i64 w it.weight) (add_i64 b it.bytes) its in
      ground (
        arith,
        into_fourth it s.selected s.remaining s.too_large s.dropped p,
        into_third it s.selected s.remaining s.too_large s.dropped p,
        into_second it s.selected s.remaining s.too_large s.dropped p,
        into_first it m.selected m.remaining m.too_large m.dropped q,
      )

  -- Nothing is left pending by a walk that takes nothing.
  select-nil :
      (l : BatchLimits) (its : List (Item K))
      → (select l 0 0 0 its).selected ≡ []
      → (select l 0 0 0 its).remaining ≡ []
  unfolding select
  select-nil l [] h = refl
  select-nil l (it ∷ its) h = ground (arith, select-nil l its)

  length-select_remaining :
      (l : BatchLimits) (n w b : ℕ) (its : List (Item K))
      → length (select l n w b its).remaining + length (select l n w b its).selected ≤ length its
  unfolding select
  length-select_remaining l n w b [] = omega arith
  length-select_remaining l n w b (it ∷ its) = ground (
    arith,
    length-select_remaining l n w b its,
    length-select_remaining l (n + 1) (add_i64 w it.weight) (add_i64 b it.bytes) its,
  )

  -- A walk over a pending list that is not empty leaves fewer items pending.
  pub length-select_lt :
      (l : BatchLimits) (it : Item K) (its : List (Item K))
      → length (select l 0 0 0 (it ∷ its)).remaining < length (it ∷ its)
  length-select_lt l it its =
      ground (arith, length-select_remaining l 0 0 0 (it ∷ its), select-nil l (it ∷ its))

  -- Every selected item has someone waiting.
  pub select-All_active :
      (l : BatchLimits) (n w b : ℕ) (its : List (Item K))
      → All (λ it. it.active_waiters ≢ 0) (select l n w b its).selected
  unfolding select
  select-All_active l n w b [] = tt
  select-All_active l n w b (it ∷ its) = ground (
    arith,
    select-All_active l n w b its,
    select-All_active l (n + 1) (add_i64 w it.weight) (add_i64 b it.bytes) its,
  )
