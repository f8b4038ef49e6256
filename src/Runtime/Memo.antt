-- ===== src/Runtime/Memo.antt =====
-- runtime/memo.go, and `finish` and `finishMemo` of runtime/binding.go: the results that a scope
-- remembers. The map `byHash` is a function: a hash without an entry has the empty bucket. A record
-- is identified by a number, as a pointer is in Go. The byte estimates of keys are not negative.
pub mod Laws
pub mod Recall
use batch_weaver.Base.{
  ℕ, zero, suc, ◌+◌, ◌-◌, ◌*◌, ◌/◌, ◌%◌, Bool, true, false, ◌&&◌, ◌||◌, List, [], ◌∷◌, ◌++◌, Option,
  none, some, Bytes, bytes_eq, ◌==◌, ltb, length, find, if◌then◌else◌, Result, ok, err,
}
use batch_weaver.Runtime.State.{CallError, CallResult}

-- `^` on uint64.
unfoldable pub xor_bits : ℕ → ℕ → ℕ → ℕ
xor_bits zero a b = 0
xor_bits (suc bits) a b = (a % 2 + b % 2) % 2 + 2 * xor_bits bits (a / 2) (b / 2)

-- `KeyStrategy`; a key is its own clone.
pub record KeyStrategy (K : Type 0) : Type 0 where
  pub hash : K → ℕ
  pub equal : K → K → Bool
  pub estimate_bytes : K → ℕ

pub record MemoRecord (K V : Type 0) : Type 0 where
  pub id : ℕ
  pub part : Bytes
  pub key : K
  pub value : Option V
  pub found : Bool
  pub bytes : ℕ

pub record MemoTable (K V : Type 0) : Type 0 where
  pub by_hash : ℕ → List (MemoRecord K V)
  pub order : List (MemoRecord K V)
  pub bytes : ℕ

-- The limits and the switches of a binding.
pub record MemoConfig : Type 0 where
  pub enabled : Bool
  pub negative : Bool
  pub max_items : ℕ
  pub max_bytes : ℕ

pub data FinishError (E : Type 0) : Type 0 where
  call_error : CallError E → FinishError E
  missing_result : FinishError E

abbrev pub empty_table : {K V : Type 0} → MemoTable K V
empty_table = record { by_hash = λ _. []; order = []; bytes = 0 }

abbrev pub over_limit : MemoConfig → ℕ → ℕ → Bool
over_limit cfg items bytes =
    ltb cfg.max_items items || (ltb 0 cfg.max_bytes && ltb cfg.max_bytes bytes)

module _ {K V : Type 0} where
  -- The first record of the bucket with the number goes.
  unfoldable pub delete_record : ℕ → List (MemoRecord K V) → List (MemoRecord K V)
  delete_record id [] = []
  delete_record id (r ∷ rs) = if r.id == id then rs else r ∷ delete_record id rs

-- `part_hash` is the hash of an encoded partition, by hash/maphash.
module _ {K : Type 0} (part_hash : Bytes → ℕ) (keys : KeyStrategy K) where
  -- `hashOf` and `bucketKeyFor`
  unfoldable pub hash_of : Bytes → K → ℕ
  hash_of part key = xor_bits 64 (part_hash part) (keys.hash key)

module _ {K V : Type 0} (part_hash : Bytes → ℕ) (keys : KeyStrategy K) where
  abbrev pub same_identity : Bytes → K → MemoRecord K V → Bool
  same_identity part key r = bytes_eq r.part part && keys.equal r.key key

  unfoldable pub get : MemoTable K V → Bytes → K → Option (Option V × Bool)
  get t part key =
      elim (find (same_identity part key) (t.by_hash (hash_of part_hash keys part key))) [
        | some r ↦ some (r.value, r.found)
        | none ↦ none
      ]

  -- `evictOldest`, on a table whose order is `old ∷ rest`.
  unfoldable pub evict_oldest :
      MemoRecord K V → List (MemoRecord K V) → MemoTable K V → MemoTable K V
  unfolding delete_record
  evict_oldest old rest t =
      let h = hash_of part_hash keys old.part old.key in
      record {
        by_hash = λ j. if j == h then delete_record old.id (t.by_hash j) else t.by_hash j;
        order = rest;
        bytes = t.bytes - old.bytes;
      }

  -- The loop of `put`: the first argument is the order of the table.
  unfoldable pub evict : MemoConfig → List (MemoRecord K V) → MemoTable K V → MemoTable K V
  evict cfg [] t = t
  evict cfg (old ∷ rest) t =
      let next = evict cfg rest (evict_oldest old rest t) in
      if over_limit cfg (length (old ∷ rest)) t.bytes then next else t

  -- The table with one more record, the limits not yet restored.
  unfoldable pub remember : MemoRecord K V → MemoTable K V → MemoTable K V
  remember r t =
      let h = hash_of part_hash keys r.part r.key in
      record {
        by_hash = λ j. if j == h then t.by_hash j ++ r ∷ [] else t.by_hash j;
        order = t.order ++ r ∷ [];
        bytes = t.bytes + r.bytes;
      }

  -- `put`; `id` is the number of the new record.
  unfoldable pub put : MemoConfig → ℕ → Bytes → K → Option V → Bool → MemoTable K V → MemoTable K V
  put cfg id part key value found t =
      elim (find (same_identity part key) (t.by_hash (hash_of part_hash keys part key))) [
        | some _ ↦ t
        | none ↦
            let r : MemoRecord K V = record {
              id = id;
              part = part;
              key = key;
              value = value;
              found = found;
              bytes = keys.estimate_bytes key;
            } in
            let t' = remember r t in evict cfg t'.order t'
      ]

  -- `finish`: the return of the scalar call, and the table of its scope.
  unfoldable pub finish :
      {E : Type 0}
      → MemoConfig
      → ℕ
      → Bytes
      → K
      → CallResult V E
      → MemoTable K V
      → Result (FinishError E) (Option V) × MemoTable K V
  finish cfg id part key r t = elim r.error [
    | some e ↦ (err (call_error e), t)
    | none ↦
        if r.found
        then (ok r.value, if cfg.enabled then put cfg id part key r.value true t else t)
        else (
          err missing_result,
          if cfg.enabled && cfg.negative then put cfg id part key none false t else t,
        )
  ]

abbrev pub finish_memo : {V E : Type 0} → Option V × Bool → Result (FinishError E) (Option V)
finish_memo (value, found) = if found then ok value else err missing_result
