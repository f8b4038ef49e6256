-- ===== src/Runtime/Examples/Memory.antt =====
-- Concrete partitions and a concrete memoization table.
use mathlib.Core.Option
use batch_weaver.Base.{
  ℕ, zero, suc, ◌<◌, ◌^◌, ◌≡◌, ◌≢◌, ◌↔◌, refl, true, false, List, [], ◌∷◌, ◌++◌, Option, none, some,
  Bytes, arith, length, ◌==◌,
}
use batch_weaver.Runtime.State.{CallResult}
use batch_weaver.Runtime.Encoding.{partition_from, single_partition, partition_from_injective}
use batch_weaver.Runtime.Memo.{KeyStrategy, MemoTable, MemoConfig, empty_table, get, put}
use batch_weaver.Runtime.Memo.Laws.{empty_table-IsWellFormed}
use batch_weaver.Runtime.Memo.Recall.{get-put}

-- A code for lengths that can be told from what follows it.
unary : ℕ → Bytes
unary zero = 0 ∷ []
unary (suc n) = 1 ∷ unary n

read_unary : Bytes → Option (ℕ × Bytes)
read_unary [] = none
read_unary (zero ∷ rest) = some (0, rest)
read_unary (suc _ ∷ rest) = Option.map (λ r. (suc r.0, r.1)) (read_unary rest)

read_unary-unary :
    (n : ℕ) (rest : Bytes) → n < 2 ^ 64 → read_unary (unary n ++ rest) ≡ some (n, rest)
unfolding read_unary unary
read_unary-unary zero rest h = refl
read_unary-unary (suc n) rest h = rw (read_unary-unary n rest (omega (arith, h))) refl

read_unary-nil : read_unary [] ≡ none
unfolding read_unary
read_unary-nil = refl

abbrev components : List Bytes
components = (5 ∷ 6 ∷ []) ∷ [] ∷ (7 ∷ []) ∷ []

abbrev regrouped : List Bytes
regrouped = (5 ∷ []) ∷ (6 ∷ 7 ∷ []) ∷ []

partition_from_injective_example :
    ((partition_from unary components ≡ partition_from unary regrouped) ↔ (components ≡ regrouped))
    × (partition_from unary components ≢ single_partition)
partition_from_injective_example =
    partition_from_injective unary read_unary read_unary-unary read_unary-nil components regrouped
      (omega arith, (omega arith, (omega arith, tt))) (omega arith, (omega arith, tt))

-- A strategy that hashes every key alike, so that all the records share a bucket.
abbrev keys : KeyStrategy ℕ
keys = record { hash = λ _. 3; equal = λ a b. a == b; estimate_bytes = λ k. k }

abbrev part_hash : Bytes → ℕ
part_hash = length

equal_hash : (a b : ℕ) → keys.equal a b ≡ true → keys.hash a ≡ keys.hash b
equal_hash a b h = refl

abbrev memo_config : MemoConfig
memo_config = record { enabled = true; negative = true; max_items = 2; max_bytes = 9 }

abbrev blank : MemoTable ℕ ℕ
blank = empty_table

abbrev place : Bytes
place = 8 ∷ []

get-put_example :
    get part_hash keys (put part_hash keys memo_config 1 place 5 (some 50) true blank) place 5
    ≡ elim (get part_hash keys blank place 5) [ some x ↦ some x | none ↦ some (some 50, true) ]
get-put_example =
    get-put part_hash keys equal_hash memo_config 1 place 5 (some 50) true blank
      (empty_table-IsWellFormed part_hash keys) refl refl

abbrev absent : CallResult ℕ ℕ
absent = record { value = none; error = none; found = false }

blank-get : get part_hash keys blank place 5 ≡ none
unfolding get
blank-get = refl
