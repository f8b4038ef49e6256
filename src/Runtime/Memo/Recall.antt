-- ===== src/Runtime/Memo/Recall.antt =====
-- What a scope remembers of a call (runtime/memo.go, and `finish` of runtime/binding.go).
use mathlib.Core.Option
use batch_weaver.Base.{
  ℕ, ◌≡◌, refl, ◌∙◌, sym, Bool, true, false, ◌||◌, List, [], ◌∷◌, ◌++◌, Option, none, some, Bytes,
  bytes_eq_refl, eq_of_bytes_eq, arith, ==_refl, length, find, filter, Bool-cases, Option-cases,
  inl, inr, ok, err,
}
use batch_weaver.Runtime.State.{CallResult}
use batch_weaver.Runtime.Memo.{
  KeyStrategy, MemoRecord, MemoTable, MemoConfig, hash_of, same_identity, get, evict_oldest,
  over_limit, evict, remember, put, finish, finish_memo, missing_result,
}
use batch_weaver.Runtime.Memo.Laws.{
  IsWellFormed, in_bucket, evict_lem, evict_oldest-IsWellFormed, remember-IsWellFormed,
}

module _ {A : Type 0} where
  -- Nothing that is looked for is lost to a filter that all of it passes.
  find-filter :
      (p q : A → Bool) (xs : List A)
      → ((x : A) → p x ≡ true → q x ≡ true)
      → find p (filter q xs) ≡ find p xs
  find-filter p q [] h = refl
  find-filter p q (x ∷ xs) h = elim (Bool-cases (p x)) [
    | inl e ↦ rw (h x e, e) refl
    | inr e ↦ elim (Bool-cases (q x)) [
      | inl k ↦ rw (k, e) (find-filter p q xs h)
      | inr k ↦ rw (k, e) (find-filter p q xs h)
    ]
  ]

  find-append_last :
      (p : A → Bool) (xs : List A) (x : A)
      → find p xs ≡ none
      → p x ≡ true
      → find p (xs ++ x ∷ []) ≡ some x
  find-append_last p [] x h k = rw k refl
  find-append_last p (y ∷ ys) x h k = ground (arith, h, k, find-append_last p ys x)

module _ {K V : Type 0} (part_hash : Bytes → ℕ) (keys : KeyStrategy K)
    (equal_hash : (a b : K) → keys.equal a b ≡ true → keys.hash a ≡ keys.hash b) where
  same_identity-in_bucket :
      (part : Bytes) (key : K) (r : MemoRecord K V)
      → same_identity part_hash keys part key r ≡ true
      → in_bucket part_hash keys (hash_of part_hash keys part key) r ≡ true
  unfolding hash_of
  same_identity-in_bucket part key r h =
      let parts : r.part ≡ part = eq_of_bytes_eq r.part part (ground (arith, h)) in
      let hashes : keys.hash r.key ≡ keys.hash key = equal_hash r.key key (ground (arith, h)) in
      rw (parts, hashes) (==_refl _)

  -- The result that the list of all the records, oldest first, gives for an identity.
  abbrev recalled : Bytes → K → MemoTable K V → Option (Option V × Bool)
  recalled part key t = elim (find (same_identity part_hash keys part key) t.order) [
    | some r ↦ some (r.value, r.found)
    | none ↦ none
  ]

  get_lem :
      (part : Bytes) (key : K) (t : MemoTable K V)
      → IsWellFormed part_hash keys t
      → find (same_identity part_hash keys part key) (t.by_hash (hash_of part_hash keys part key))
        ≡ find (same_identity part_hash keys part key) t.order
  get_lem part key t h =
      rw (h.buckets (hash_of part_hash keys part key))
        (find-filter _ _ t.order (same_identity-in_bucket part key))

  -- The loop of `put` never drops the newest record, if that fits the table by itself.
  find-evict :
      (cfg : MemoConfig) (p : MemoRecord K V → Bool) (r : MemoRecord K V)
      → (os : List (MemoRecord K V)) (t : MemoTable K V) → t.order ≡ os ++ r ∷ []
      → IsWellFormed part_hash keys t
      → over_limit cfg 1 r.bytes ≡ false
      → find p os ≡ none
      → p r ≡ true
      → find p (evict part_hash keys cfg (os ++ r ∷ []) t).order ≡ some r
  unfolding evict evict_oldest
  find-evict cfg p r [] t e h k n m =
      let total : t.bytes ≡ r.bytes = rw (h.charged, e) (omega arith) in rw (total, k, e, m) refl
  find-evict cfg p r (o ∷ os) t e h k n m =
      elim (Bool-cases (over_limit cfg (length (o ∷ os ++ r ∷ [])) t.bytes)) [
        | inl over ↦
            let u = evict_oldest part_hash keys o (os ++ r ∷ []) t in
            rw (over, evict)
              (find-evict cfg p r os u refl
                (evict_oldest-IsWellFormed part_hash keys o (os ++ r ∷ []) t e h) k
                (ground (arith, n)) m)
        | inr fine ↦ rw (fine, evict) (rw e (find-append_last p (o ∷ os) r n m))
      ]

  -- The next lookup under the same identity after a `put` finds what was found before it, and the
  -- new result if nothing was. This is for a well-formed table, a key strategy that hashes equal
  -- keys equally and finds the key equal to itself, and limits that allow the new record alone.
  pub get-put :
      (cfg : MemoConfig) (id : ℕ) (part : Bytes) (key : K) (value : Option V) (found : Bool)
      → (t : MemoTable K V) → IsWellFormed part_hash keys t
      → keys.equal key key ≡ true
      → over_limit cfg 1 (keys.estimate_bytes key) ≡ false
      → get part_hash keys (put part_hash keys cfg id part key value found t) part key
        ≡ elim (get part_hash keys t part key) [ some x ↦ some x | none ↦ some (value, found) ]
  unfolding get put remember
  get-put cfg id part key value found t h same fits =
      elim (Option-cases (
        find (same_identity part_hash keys part key)
          (t.by_hash (hash_of part_hash keys part key)))) [
            | inr (r, e) ↦ rw (e, put, get) (rw (e, get) refl)
            | inl e ↦
                let r : MemoRecord K V = record {
                  id = id;
                  part = part;
                  key = key;
                  value = value;
                  found = found;
                  bytes = keys.estimate_bytes key;
                } in
                let u = remember part_hash keys r t in
                let w = remember-IsWellFormed part_hash keys r t h in
                let p = same_identity part_hash keys part key in
                let new_found =
                  get_lem part key (evict part_hash keys cfg u.order u)
                    (evict_lem part_hash keys cfg u.order u refl w).0
                  ∙ find-evict cfg p r t.order u refl w fits (sym (get_lem part key t h) ∙ e)
                      (rw (bytes_eq_refl part) same) in
                rw (e, put) (rw (new_found, get) refl)
          ]

  finish_found :
      {E : Type 0} (cfg : MemoConfig) (id : ℕ) (part : Bytes) (key : K) (r : CallResult V E)
      → (t : MemoTable K V) → r.error ≡ none
      → r.found ≡ true
      → cfg.enabled ≡ true
      → finish part_hash keys cfg id part key r t
        ≡ (ok r.value, put part_hash keys cfg id part key r.value true t)
  unfolding finish
  finish_found cfg id part key r t e f on = rw (e, f, on) refl

  finish_missing :
      {E : Type 0} (cfg : MemoConfig) (id : ℕ) (part : Bytes) (key : K) (r : CallResult V E)
      → (t : MemoTable K V) → r.error ≡ none
      → r.found ≡ false
      → cfg.enabled ≡ true
      → cfg.negative ≡ true
      → finish part_hash keys cfg id part key r t
        ≡ (err missing_result, put part_hash keys cfg id part key none false t)
  unfolding finish
  finish_missing cfg id part key r t e f on n = rw (e, f, on, n) refl

  -- What a scope remembers of a call is the answer that the call gave: where memoization is on
  -- (also for missing results, if the result is one), and nothing was remembered under the
  -- identity, the next lookup finds a record that reads as the value or the error that `finish`
  -- returned. The hypotheses are those of `get-put`, for a result without an error.
  pub finish_memo-finish :
      {E : Type 0} (cfg : MemoConfig) (id : ℕ) (part : Bytes) (key : K) (r : CallResult V E)
      → (t : MemoTable K V) → IsWellFormed part_hash keys t
      → keys.equal key key ≡ true
      → over_limit cfg 1 (keys.estimate_bytes key) ≡ false
      → r.error ≡ none
      → cfg.enabled ≡ true
      → (r.found || cfg.negative) ≡ true
      → get part_hash keys t part key ≡ none
      → let (answer, u) = finish part_hash keys cfg id part key r t in
        Option.map finish_memo (get part_hash keys u part key) ≡ some answer
  finish_memo-finish cfg id part key r t h same fits fine on kept new = elim (Bool-cases r.found) [
    | inl f ↦
        rw (finish_found cfg id part key r t fine f on)
          (rw (get-put cfg id part key r.value true t h same fits, new) refl)
    | inr f ↦
        let negative : cfg.negative ≡ true = ground (arith, kept, f) in
        rw (finish_missing cfg id part key r t fine f on negative)
          (rw (get-put cfg id part key none false t h same fits, new) refl)
  ]
