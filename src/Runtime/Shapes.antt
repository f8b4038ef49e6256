-- ===== src/Runtime/Shapes.antt =====
-- What a batch in flight weighs: the number of its items, their weights and their bytes. Callers that
-- join or leave an item in flight, and the end of the engine, change none of these.
use batch_weaver.Base.{
  ℕ, ◌≡◌, refl, Bool, List, [], ◌∷◌, Option, some, arith, length, Bytes, Option-cases, inl, inr,
}
use batch_weaver.Runtime.State.{Item, Partition, Inflight, SubmitReq}
use batch_weaver.Runtime.Submit.{join_items, join_batches}
use batch_weaver.Runtime.Cancel.{cancel_item, cancel_in, leave_batch, cancel_in_batches}
use batch_weaver.Runtime.Select.Bounds.{weights_of, loads_of}
use batch_weaver.Runtime.Loop.{retired_items, retired_batches}

pub record Shape : Type 0 where
  pub count : ℕ
  pub weights : List ℕ
  pub loads : List ℕ

module _ {K : Type 0} where
  abbrev pub shape : List (Item K) → Shape
  shape its = record { count = length its; weights = weights_of its; loads = loads_of its }

  abbrev pub shapes : List (Inflight K) → List Shape
  shapes [] = []
  shapes (b ∷ bs) = shape b.items ∷ shapes bs

  shape-join_items :
      (equal : K → K → Bool) (req : SubmitReq K) (its : List (Item K)) {js : List (Item K)}
      → join_items equal req its ≡ some js
      → shape js ≡ shape its
  unfolding join_items
  shape-join_items equal req [] h = cc
  shape-join_items equal req (it ∷ its) {js} h = elim (Option-cases (join_items equal req its)) [
    | inl e ↦ ground (arith, e)
    | inr (rest, e) ↦ ground (arith, e, shape-join_items equal req its e)
  ]

  pub shapes-join_batches :
      (equal : K → K → Bool) (req : SubmitReq K) (bs : List (Inflight K)) {cs : List (Inflight K)}
      → join_batches equal req bs ≡ some cs
      → shapes cs ≡ shapes bs
  unfolding join_batches
  shapes-join_batches equal req [] h = cc
  shapes-join_batches equal req (b ∷ bs) {cs} h = elim (Option-cases (join_batches equal req bs)) [
    | inl e ↦ elim (Option-cases (join_items equal req b.items)) [
      | inl d ↦ ground (arith, e, d)
      | inr (its, d) ↦ ground (arith, e, d, shape-join_items equal req b.items d)
    ]
    | inr (rest, e) ↦ elim (Option-cases (join_items equal req b.items)) [
      | inl d ↦ ground (arith, e, d, shapes-join_batches equal req bs e)
      | inr (its, d) ↦
          ground
            (arith, e, d, shapes-join_batches equal req bs e, shape-join_items equal req b.items d)
    ]
  ]

  shape-cancel_in :
      (id : ℕ) (its : List (Item K)) {it : Item K} {js : List (Item K)}
      → cancel_in id its ≡ some (it, js)
      → shape js ≡ shape its
  unfolding cancel_in cancel_item
  shape-cancel_in id [] h = cc
  shape-cancel_in id (it ∷ its) h = elim (Option-cases (cancel_in id its)) [
    | inl e ↦ ground (arith, e)
    | inr ((jt, js), e) ↦ ground (arith, e, shape-cancel_in id its e)
  ]

  pub shapes-cancel_in_batches :
      (part : Bytes) (id : ℕ) (bs : List (Inflight K)) {cs : List (Inflight K)} {over : Option ℕ}
      → cancel_in_batches part id bs ≡ some (cs, over)
      → shapes cs ≡ shapes bs
  unfolding cancel_in_batches leave_batch
  shapes-cancel_in_batches part id [] h = cc
  shapes-cancel_in_batches part id (b ∷ bs) h = elim (Option-cases (cancel_in_batches part id bs)) [
    | inl e ↦ elim (Option-cases (cancel_in id b.items)) [
      | inl d ↦ ground (arith, e, d)
      | inr ((it, its), d) ↦ ground (arith, e, d, shape-cancel_in id b.items d)
    ]
    | inr ((cs, over), e) ↦ elim (Option-cases (cancel_in id b.items)) [
      | inl d ↦ ground (arith, e, d, shapes-cancel_in_batches part id bs e)
      | inr ((it, its), d) ↦
          ground (arith, e, d, shapes-cancel_in_batches part id bs e, shape-cancel_in id b.items d)
    ]
  ]

  shape-retired_items : (its : List (Item K)) → shape (retired_items its) ≡ shape its
  shape-retired_items [] = refl
  shape-retired_items (it ∷ its) = ground (arith, shape-retired_items its)

  pub shapes-retired_batches :
      (ps : List (Partition K)) (bs : List (Inflight K))
      → shapes (retired_batches ps bs) ≡ shapes bs
  unfolding retired_batches
  shapes-retired_batches ps [] = refl
  shapes-retired_batches ps (b ∷ bs) =
      ground (arith, shapes-retired_batches ps bs, shape-retired_items b.items)
