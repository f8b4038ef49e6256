-- ===== src/Runtime/Submit/Limits.antt =====
-- Queue limits and replies (runtime/coordinator_handlers.go, `handleSubmit`).
use batch_weaver.Base.{
  IsUnder, ℕ, ◌+◌, ◌<◌, ◌^◌, ◌≡◌, refl, Bool, true, false, List, [], ◌∷◌, Option, none, some, arith,
  length, length-append, All, All-append, Bytes, bytes_eq, Option-cases, Bool-cases, inl, inr, ltb,
  leb, ◌&&◌, subst, if◌then◌else◌,
}
use batch_weaver.Runtime.Policy.{QueueLimits}
use batch_weaver.Runtime.State.{
  Category, Item, Partition, SubmitReq, Coordinator, add_i64_small, emit, find_partition,
  put_partition,
}
use batch_weaver.Runtime.Submit.{
  over_limits, join_items, join_batches, new_item, push_item, new_partition, overflow, joined,
  join_request, enqueue, admit, handle_submit,
}

module _ {K : Type 0} where
  -- A partition within the limits of its queue; a limit of zero is none.
  pub record IsWithin (l : QueueLimits) (p : Partition K) : Type 0 where
    pub items : IsUnder l.max_items (length p.pending)
    pub bytes : IsUnder l.max_bytes p.bytes
    pub weight : IsUnder l.max_weight p.weight

  -- The bytes and the weight of a request that, with the limits, do not pass the int64 range.
  abbrev pub IsModest : QueueLimits → SubmitReq K → Type 0
  IsModest l req = (l.max_bytes + req.bytes < 2 ^ 63) × (l.max_weight + req.weight < 2 ^ 63)

  All-put_partition :
      (P : Partition K → Type 0) (q : Partition K) (ps : List (Partition K))
      → P q
      → All P ps
      → All P (put_partition q ps)
  unfolding put_partition
  All-put_partition P q [] h a = (h, tt)
  All-put_partition P q (p ∷ ps) h a = elim (Bool-cases (bytes_eq p.part q.part)) [
    | inl e ↦ rw e (h, a.1)
    | inr e ↦ rw e (a.0, All-put_partition P q ps h a.1)
  ]

  All-find_partition :
      (P : Partition K → Type 0) (k : Bytes) (ps : List (Partition K)) {p : Partition K}
      → All P ps
      → find_partition k ps ≡ some p
      → P p
  unfolding find_partition
  All-find_partition P k [] a h = cc
  All-find_partition P k (q ∷ ps) {p} a h = elim (Bool-cases (bytes_eq q.part k)) [
    | inl e ↦ let same : q ≡ p = ground (arith, e) in subst P same a.0
    | inr e ↦ All-find_partition P k ps a.1 (ground (arith, e))
  ]

  length-join_items :
      (equal : K → K → Bool) (req : SubmitReq K) (its : List (Item K)) {js : List (Item K)}
      → join_items equal req its ≡ some js
      → length js ≡ length its
  unfolding join_items
  length-join_items equal req [] h = cc
  length-join_items equal req (it ∷ its) h = elim (Option-cases (join_items equal req its)) [
    | inl e ↦ ground (arith, e)
    | inr (rest, e) ↦ ground (arith, e, length-join_items equal req its e)
  ]

  push_item-IsWithin :
      (l : QueueLimits) (id seq now : ℕ) (req : SubmitReq K) (p : Partition K)
      → IsWithin l p
      → IsModest l req
      → over_limits l p req ≡ none
      → IsWithin l (push_item (new_item id seq now req) p)
  unfolding over_limits push_item new_item
  push_item-IsWithin l id seq now req p v m h = record {
    items = ground (arith, length-append p.pending (new_item id seq now req ∷ []));
    bytes = ground (arith, v.bytes, m.0, add_i64_small p.bytes req.bytes);
    weight = ground (arith, v.weight, m.1, add_i64_small p.weight req.weight);
  }

  new_partition-IsWithin : (l : QueueLimits) (k : Bytes) → IsWithin l (new_partition k)
  unfolding new_partition
  new_partition-IsWithin l k = omega arith

  joined-IsWithin :
      (l : QueueLimits) (n : ℕ) (its : List (Item K)) (p : Partition K)
      → length its ≡ length p.pending
      → IsWithin l p
      → IsWithin l (record p { pending = its; waiters = n })
  joined-IsWithin l n its p e v = ground (arith, e)

module _ {K V E : Type 0} where
  abbrev pub AllWithin : Coordinator K V E → Type 0
  AllWithin c = All (IsWithin c.config.limits) c.partitions

  overflow-AllWithin :
      (req : SubmitReq K) (g : Category) (b : Bool) (c : Coordinator K V E)
      → AllWithin c
      → AllWithin (overflow req g b c)
  unfolding overflow
  overflow-AllWithin req g b c v = ground arith

  enqueue-AllWithin :
      (now : ℕ) (p : Partition K) (req : SubmitReq K) (c : Coordinator K V E)
      → AllWithin c
      → IsWithin c.config.limits p
      → IsModest c.config.limits req
      → over_limits c.config.limits p req ≡ none
      → AllWithin (enqueue now p req c)
  unfolding enqueue
  enqueue-AllWithin now p req c v w m h =
      All-put_partition _ _ c.partitions (push_item-IsWithin c.config.limits _ _ now req p w m h) v

  join_request-AllWithin :
      (p : Partition K) (req : SubmitReq K) (c : Coordinator K V E) {d : Coordinator K V E}
      → AllWithin c
      → IsWithin c.config.limits p
      → join_request p req c ≡ some d
      → AllWithin d
  unfolding join_request joined emit
  join_request-AllWithin p req c {d} v w h =
      elim (Option-cases (join_batches c.config.equal req c.inflight)) [
        | inr (bs, e) ↦
            let same : joined req p (record c { inflight = bs }) ≡ d = ground (arith, e) in
            subst AllWithin same (
              All-put_partition _ _ c.partitions
                (joined-IsWithin c.config.limits (p.waiters + 1) p.pending p refl w) v)
        | inl e ↦ elim (Option-cases (join_items c.config.equal req p.pending)) [
          | inl m ↦ absurd (ground (arith, e, m))
          | inr (its, m) ↦
              let same : joined req (record p { pending = its }) c ≡ d = ground (arith, e, m) in
              subst AllWithin same (
                All-put_partition _ _ c.partitions
                  (joined-IsWithin c.config.limits (p.waiters + 1) its p
                    (length-join_items c.config.equal req p.pending m) w)
                  v)
        ]
      ]

  admit-AllWithin :
      (now : ℕ) (p : Partition K) (req : SubmitReq K) (c : Coordinator K V E)
      → AllWithin c
      → IsWithin c.config.limits p
      → IsModest c.config.limits req
      → AllWithin (admit now p req c)
  unfolding admit
  admit-AllWithin now p req c v w s =
      joined_or (if c.config.dedup_enabled then join_request p req c else none) refl
    where
      joined_or :
          (o : Option (Coordinator K V E))
          → (if c.config.dedup_enabled then join_request p req c else none) ≡ o
          → AllWithin (elim o [
            | some c' ↦ c'
            | none ↦ elim (over_limits c.config.limits p req) [
              | some category ↦ overflow req category false c
              | none ↦ enqueue now p req c
            ]
          ])
      joined_or (some d) e = join_request-AllWithin p req c {d = d} v w (ground arith)
      joined_or none e = elim (Option-cases (over_limits c.config.limits p req)) [
        | inl m ↦ rw m (enqueue-AllWithin now p req c v w s m)
        | inr (g, m) ↦ rw m (overflow-AllWithin req g false c v)
      ]

  -- If every partition is within the configured numbers of pending items, of bytes and of weight
  -- (a limit of zero being none), and the bytes and the weight of a request do not pass the int64
  -- range together with their limits, every partition is so after its submission, however it ends.
  pub handle_submit-AllWithin :
      (now : ℕ) (req : SubmitReq K) (c : Coordinator K V E)
      → AllWithin c
      → IsModest c.config.limits req
      → AllWithin (handle_submit now req c)
  unfolding handle_submit emit
  handle_submit-AllWithin now req c v s = elim (Bool-cases c.closing) [
    | inl shut ↦ rw shut v
    | inr open_ ↦ elim (Option-cases (find_partition req.part c.partitions)) [
      | inr (p, e) ↦
          rw (open_, e, handle_submit)
            (admit-AllWithin now p req c v
              (All-find_partition (IsWithin c.config.limits) req.part c.partitions v e) s)
      | inl e ↦
          elim (Bool-cases (
            ltb 0 c.config.limits.max_partitions
            && leb c.config.limits.max_partitions (length c.partitions))) [
              | inl full ↦
                  rw (open_, e, full, handle_submit)
                    (overflow-AllWithin req Category.partitions true c v)
              | inr room ↦
                  rw (open_, e, room, handle_submit)
                    (admit-AllWithin now (new_partition req.part) req _
                      (All-append (IsWithin c.config.limits) c.partitions _ v
                        (new_partition-IsWithin c.config.limits req.part, tt))
                      (new_partition-IsWithin c.config.limits req.part) s)
            ]
    ]
  ]
