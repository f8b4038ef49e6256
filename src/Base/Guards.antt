-- ===== src/Base/Guards.antt =====
-- A chain of tests that return early: the answer of the first test that holds.
use mathlib.Core.Path.{◌≡◌, refl, ap, subst}
use mathlib.Core.Logic.{inl, inr}
use mathlib.Core.Bool.{Bool, true, false}
use mathlib.Core.Option.{Option, none, some}
use mathlib.Core.List.{List, [], ◌∷◌}
use native.Mathlib.Omega.{arith}
use batch_weaver.Base.Tests.{if◌then◌else◌, Bool-cases}
use batch_weaver.Base.Lists.{All}

module _ {E : Type 0} where
  abbrev pub guards : List (Bool × E) → Option E
  guards [] = none
  guards (x ∷ xs) = if x.0 then some (x.1) else guards xs

  -- `if err := ...; err != nil { return err }` before the rest.
  abbrev pub or_else : Option E → Option E → Option E
  or_else (some e) rest = some e
  or_else none rest = rest

  -- No test of the chain holds.
  abbrev pub IsPassed : List (Bool × E) → Type 0
  IsPassed = All (λ x. x.0 ≡ false)

  abbrev error_of : E → Option E → E
  error_of d (some e) = e
  error_of d none = d

  pub some_error : (a b : E) → some a ≡ some b → a ≡ b
  some_error a b h = ap (error_of a) h

  pub guards-IsPassed : (xs : List (Bool × E)) → guards xs ≡ none → IsPassed xs
  guards-IsPassed [] h = tt
  guards-IsPassed (x ∷ xs) h = elim (Bool-cases (x.0)) [
    | inl e ↦ ground (arith, e)
    | inr e ↦ (e, guards-IsPassed xs (ground (arith, e)))
  ]

  pub guards-none : (xs : List (Bool × E)) → IsPassed xs → guards xs ≡ none
  guards-none [] h = refl
  guards-none (x ∷ xs) h = rw (h.0) (guards-none xs h.1)

  pub or_else-none : (a b : Option E) → or_else a b ≡ none → (a ≡ none) × (b ≡ none)
  or_else-none none b h = (refl, h)
  or_else-none (some e) b h = ground arith

  -- What every failing test of a chain implies of its answer holds of the answer of the chain.
  pub guards_holds :
      (P : E → Type 0) (xs : List (Bool × E)) (e : E)
      → All (λ x. x.0 ≡ true → P (x.1)) xs
      → guards xs ≡ some e
      → P e
  guards_holds P [] e h k = cc
  guards_holds P (x ∷ xs) e h k = elim (Bool-cases (x.0)) [
    | inl t ↦ subst P (some_error (x.1) e (ground (arith, t, k))) (h.0 t)
    | inr t ↦ guards_holds P xs e h.1 (ground (arith, t, k))
  ]
