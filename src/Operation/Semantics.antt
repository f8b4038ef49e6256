-- ===== src/Operation/Semantics.antt =====
-- operation/semantics.go: what an operation does, and whether that hangs together.
pub mod Laws
use batch_weaver.Base.{
  Bool, true, false, not, ◌&&◌, List, [], ◌∷◌, Option, none, some, ltb, ◌==◌, guards,
}
use batch_weaver.Operation.Kind.{
  Kind, Effect, Idempotency, Ordering, Atomicity, kind_code, effect_code, idempotency_code,
  ordering_code, atomicity_code, kind_effect, is_named,
}

pub record Semantics : Type 0 where
  pub kind : Kind
  pub effect : Effect
  pub idempotency : Idempotency
  pub ordering : Ordering
  pub atomicity : Atomicity
  pub retry_allowed : Bool
  pub deduplication_allowed : Bool
  pub cross_scope_allowed : Bool
  pub freshness_dependent : Bool

pub data SemanticsError : Type 0 where
  kind effect idempotency ordering atomicity write_order commutative_order : SemanticsError
  ordered_order group_atomicity retry reorderable freshness : SemanticsError

-- The tests of `Semantics.Validate`.
abbrev pub semantics_tests : Semantics → List (Bool × SemanticsError)
semantics_tests s =
    (not (is_named 10 (kind_code s.kind)), SemanticsError.kind)
    ∷ (not (effect_code s.effect == effect_code (kind_effect s.kind)), SemanticsError.effect)
    ∷ (not (is_named 4 (idempotency_code s.idempotency)), SemanticsError.idempotency)
    ∷ (not (ltb (ordering_code s.ordering) 3), SemanticsError.ordering)
    ∷ (not (ltb (atomicity_code s.atomicity) 4), SemanticsError.atomicity)
    ∷ (
      (kind_code s.kind == kind_code Kind.non_idempotent_write)
          && not (ordering_code s.ordering == ordering_code Ordering.preserve),
      SemanticsError.write_order,
    )
    ∷ (
      (kind_code s.kind == kind_code Kind.commutative_aggregation)
          && not (ordering_code s.ordering == ordering_code Ordering.commutative),
      SemanticsError.commutative_order,
    )
    ∷ (
      (kind_code s.kind == kind_code Kind.ordered_aggregation)
          && not (ordering_code s.ordering == ordering_code Ordering.preserve),
      SemanticsError.ordered_order,
    )
    ∷ (
      (kind_code s.kind == kind_code Kind.atomic_group)
          && not (atomicity_code s.atomicity == atomicity_code Atomicity.all_or_nothing),
      SemanticsError.group_atomicity,
    )
    ∷ (
      s.retry_allowed
          && (idempotency_code s.idempotency == idempotency_code Idempotency.non_idempotent),
      SemanticsError.retry,
    )
    ∷ (
      (ordering_code s.ordering == ordering_code Ordering.reorderable)
          && not (effect_code s.effect == effect_code Effect.read),
      SemanticsError.reorderable,
    )
    ∷ (
      s.freshness_dependent && not (effect_code s.effect == effect_code Effect.read),
      SemanticsError.freshness,
    )
    ∷ []

unfoldable pub validate_semantics : Semantics → Option SemanticsError
unfolding kind_effect
validate_semantics s = guards (semantics_tests s)

-- `WithReorderable`
unfoldable pub with_reorderable : Semantics → Semantics
with_reorderable s = record s { ordering = Ordering.reorderable }

abbrev pub read_only : Semantics
read_only = record {
  kind = Kind.read_only;
  effect = Effect.read;
  idempotency = Idempotency.idempotent;
  ordering = Ordering.preserve;
  atomicity = Atomicity.per_item;
  retry_allowed = true;
  deduplication_allowed = true;
  cross_scope_allowed = false;
  freshness_dependent = false;
}

abbrev pub freshness_sensitive_read : Semantics
freshness_sensitive_read = record {
  kind = Kind.freshness_sensitive_read;
  effect = Effect.read;
  idempotency = Idempotency.idempotent;
  ordering = Ordering.preserve;
  atomicity = Atomicity.per_item;
  retry_allowed = true;
  deduplication_allowed = true;
  cross_scope_allowed = false;
  freshness_dependent = true;
}

abbrev pub idempotent_write : Semantics
idempotent_write = record {
  kind = Kind.idempotent_write;
  effect = Effect.write;
  idempotency = Idempotency.idempotent;
  ordering = Ordering.preserve;
  atomicity = Atomicity.per_item;
  retry_allowed = true;
  deduplication_allowed = false;
  cross_scope_allowed = false;
  freshness_dependent = false;
}

abbrev pub non_idempotent_write : Semantics
non_idempotent_write = record {
  kind = Kind.non_idempotent_write;
  effect = Effect.write;
  idempotency = Idempotency.non_idempotent;
  ordering = Ordering.preserve;
  atomicity = Atomicity.per_item;
  retry_allowed = false;
  deduplication_allowed = false;
  cross_scope_allowed = false;
  freshness_dependent = false;
}

abbrev pub commutative_aggregation : Semantics
commutative_aggregation = record {
  kind = Kind.commutative_aggregation;
  effect = Effect.aggregate;
  idempotency = Idempotency.idempotent;
  ordering = Ordering.commutative;
  atomicity = Atomicity.per_item;
  retry_allowed = true;
  deduplication_allowed = false;
  cross_scope_allowed = false;
  freshness_dependent = false;
}

abbrev pub ordered_aggregation : Semantics
ordered_aggregation = record {
  kind = Kind.ordered_aggregation;
  effect = Effect.aggregate;
  idempotency = Idempotency.idempotent;
  ordering = Ordering.preserve;
  atomicity = Atomicity.per_item;
  retry_allowed = false;
  deduplication_allowed = false;
  cross_scope_allowed = false;
  freshness_dependent = false;
}

abbrev pub atomic_group : Semantics
atomic_group = record {
  kind = Kind.atomic_group;
  effect = Effect.write;
  idempotency = Idempotency.idempotent;
  ordering = Ordering.preserve;
  atomicity = Atomicity.all_or_nothing;
  retry_allowed = false;
  deduplication_allowed = false;
  cross_scope_allowed = false;
  freshness_dependent = false;
}

abbrev pub transaction_bound : Semantics
transaction_bound = record {
  kind = Kind.transaction_bound;
  effect = Effect.write;
  idempotency = Idempotency.non_idempotent;
  ordering = Ordering.preserve;
  atomicity = Atomicity.all_or_nothing;
  retry_allowed = false;
  deduplication_allowed = false;
  cross_scope_allowed = false;
  freshness_dependent = false;
}

abbrev pub session_bound : Semantics
session_bound = record {
  kind = Kind.session_bound;
  effect = Effect.write;
  idempotency = Idempotency.non_idempotent;
  ordering = Ordering.preserve;
  atomicity = Atomicity.per_item;
  retry_allowed = false;
  deduplication_allowed = false;
  cross_scope_allowed = false;
  freshness_dependent = false;
}
