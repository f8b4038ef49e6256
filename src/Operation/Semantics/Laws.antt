-- ===== src/Operation/Semantics/Laws.antt =====
-- What semantics pass (operation/semantics.go).
use batch_weaver.Base.{◌≡◌, refl, List, [], ◌∷◌, none, All}
use batch_weaver.Operation.Kind.{kind_effect}
use batch_weaver.Operation.Semantics.{
  Semantics, validate_semantics, read_only, freshness_sensitive_read, idempotent_write,
  non_idempotent_write, commutative_aggregation, ordered_aggregation, atomic_group,
  transaction_bound, session_bound,
}

-- The results of the named constructors.
abbrev pub named_semantics : List Semantics
named_semantics =
    read_only ∷ freshness_sensitive_read ∷ idempotent_write ∷ non_idempotent_write
    ∷ commutative_aggregation ∷ ordered_aggregation ∷ atomic_group ∷ transaction_bound
    ∷ session_bound ∷ []

named-validate : All (λ s. validate_semantics s ≡ none) named_semantics
unfolding validate_semantics kind_effect
named-validate = (refl, (refl, (refl, (refl, (refl, (refl, (refl, (refl, (refl, tt)))))))))
