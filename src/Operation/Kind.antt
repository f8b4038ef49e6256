-- ===== src/Operation/Kind.antt =====
-- operation/kind.go and the enumerations of operation/semantics.go. An enumeration of Go is a number; one past the named values is `undefined`, and the
-- functions `..._code` give the number.
use batch_weaver.Base.{ℕ, ◌+◌, Bool, not, ◌&&◌, ltb, ◌==◌}

pub data Kind : Type 0 where
  unknown read_only freshness_sensitive_read idempotent_write non_idempotent_write
        commutative_aggregation ordered_aggregation atomic_group transaction_bound session_bound :
      Kind
  undefined : ℕ → Kind

abbrev pub kind_code : Kind → ℕ
kind_code Kind.unknown = 0
kind_code Kind.read_only = 1
kind_code Kind.freshness_sensitive_read = 2
kind_code Kind.idempotent_write = 3
kind_code Kind.non_idempotent_write = 4
kind_code Kind.commutative_aggregation = 5
kind_code Kind.ordered_aggregation = 6
kind_code Kind.atomic_group = 7
kind_code Kind.transaction_bound = 8
kind_code Kind.session_bound = 9
kind_code (Kind.undefined n) = 10 + n

pub data Effect : Type 0 where
  unknown read write aggregate : Effect
  undefined : ℕ → Effect

abbrev pub effect_code : Effect → ℕ
effect_code Effect.unknown = 0
effect_code Effect.read = 1
effect_code Effect.write = 2
effect_code Effect.aggregate = 3
effect_code (Effect.undefined n) = 4 + n

pub data Idempotency : Type 0 where
  unknown idempotent non_idempotent conditional : Idempotency
  undefined : ℕ → Idempotency

abbrev pub idempotency_code : Idempotency → ℕ
idempotency_code Idempotency.unknown = 0
idempotency_code Idempotency.idempotent = 1
idempotency_code Idempotency.non_idempotent = 2
idempotency_code Idempotency.conditional = 3
idempotency_code (Idempotency.undefined n) = 4 + n

pub data Ordering : Type 0 where
  preserve reorderable commutative : Ordering
  undefined : ℕ → Ordering

abbrev pub ordering_code : Ordering → ℕ
ordering_code Ordering.preserve = 0
ordering_code Ordering.reorderable = 1
ordering_code Ordering.commutative = 2
ordering_code (Ordering.undefined n) = 3 + n

pub data Atomicity : Type 0 where
  per_item all_or_nothing prefix provider_defined : Atomicity
  undefined : ℕ → Atomicity

abbrev pub atomicity_code : Atomicity → ℕ
atomicity_code Atomicity.per_item = 0
atomicity_code Atomicity.all_or_nothing = 1
atomicity_code Atomicity.prefix = 2
atomicity_code Atomicity.provider_defined = 3
atomicity_code (Atomicity.undefined n) = 4 + n

-- `Kind.Effect`
unfoldable pub kind_effect : Kind → Effect
kind_effect Kind.read_only = Effect.read
kind_effect Kind.freshness_sensitive_read = Effect.read
kind_effect Kind.idempotent_write = Effect.write
kind_effect Kind.non_idempotent_write = Effect.write
kind_effect Kind.atomic_group = Effect.write
kind_effect Kind.transaction_bound = Effect.write
kind_effect Kind.session_bound = Effect.write
kind_effect Kind.commutative_aggregation = Effect.aggregate
kind_effect Kind.ordered_aggregation = Effect.aggregate
kind_effect Kind.unknown = Effect.unknown
kind_effect (Kind.undefined n) = Effect.unknown

-- `Valid` of an enumeration of `count` names, of which zero is not valid.
abbrev pub is_named : ℕ → ℕ → Bool
is_named count code = not (code == 0) && ltb code count
