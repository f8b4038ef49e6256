-- ===== src/Message/Request.antt =====
-- request.go: a batch request, validated when it is built.
use batch_weaver.Base.{
  ℕ, suc, ◌≡◌, refl, ◌↔◌, ◌≢◌, List, [], ◌∷◌, Option, none, some, Result, ok, err, arith, All,
  length, if◌then◌else◌,
}
use batch_weaver.Message.{BatchItem, ItemError, validate_item}
use batch_weaver.Message.Ids.{mem, Distinct, Apart, Apart-cons, cons-Apart, Apart-nil}

pub data RequestError : Type 0 where
  no_items : RequestError
  invalid_item : ℕ → ItemError → RequestError
  duplicate_id : ℕ → RequestError

pub record BatchRequest (K : Type 0) : Type 0 where
  pub items : List (BatchItem K)

module _ {K : Type 0} where
  abbrev pub item_ids : List (BatchItem K) → List ℕ
  item_ids [] = []
  item_ids (it ∷ its) = it.id ∷ item_ids its

  -- The loop of `Validate` and of `NewBatchRequest`, at index `i` with the identifiers seen so far.
  unfoldable pub check_items : ℕ → List ℕ → List (BatchItem K) → Option RequestError
  check_items i seen [] = none
  check_items i seen (it ∷ its) = elim (validate_item it) [
    | some e ↦ some (invalid_item i e)
    | none ↦
        if mem it.id seen then some (duplicate_id it.id) else check_items (suc i) (it.id ∷ seen) its
  ]

  unfoldable pub validate_request : BatchRequest K → Option RequestError
  validate_request r = elim r.items [ [] ↦ some no_items | it ∷ its ↦ check_items 0 [] (it ∷ its) ]

  unfoldable pub new_batch_request : List (BatchItem K) → Result RequestError (BatchRequest K)
  new_batch_request [] = err no_items
  new_batch_request (it ∷ its) = elim (check_items 0 [] (it ∷ its)) [
    | some e ↦ err e
    | none ↦ ok (record { items = it ∷ its })
  ]

  unfoldable pub len : BatchRequest K → ℕ
  len r = length r.items

  unfoldable pub ids : BatchRequest K → List ℕ
  ids r = item_ids r.items

  -- What the loop accepts, said without the loop.
  abbrev pub IsWellFormed : List ℕ → List (BatchItem K) → Type 0
  IsWellFormed seen its =
      All (λ it. validate_item it ≡ none) its × Distinct (item_ids its) × Apart (item_ids its) seen

  check_items-IsWellFormed :
      (i : ℕ) (seen : List ℕ) (its : List (BatchItem K))
      → check_items i seen its ≡ none
      → IsWellFormed seen its
  unfolding check_items
  check_items-IsWellFormed i seen [] h = (tt, tt, tt)
  check_items-IsWellFormed i seen (it ∷ its) h = ground (
    arith,
    check_items-IsWellFormed (suc i) (it.id ∷ seen) its,
    Apart-cons it.id (item_ids its) seen,
  )

  IsWellFormed-check_items :
      (i : ℕ) (seen : List ℕ) (its : List (BatchItem K))
      → IsWellFormed seen its
      → check_items i seen its ≡ none
  unfolding check_items
  IsWellFormed-check_items i seen [] h = refl
  IsWellFormed-check_items i seen (it ∷ its) h = ground (
    arith,
    IsWellFormed-check_items (suc i) (it.id ∷ seen) its,
    cons-Apart it.id (item_ids its) seen,
  )

  -- Building a request succeeds, with exactly the given items, when there is an item, each is
  -- valid and no identifier occurs twice; otherwise it is refused.
  pub new_batch_request_iff :
      (its : List (BatchItem K))
      → (new_batch_request its ≡ ok (record { items = its }))
        ↔ ((its ≢ []) × All (λ it. validate_item it ≡ none) its × Distinct (item_ids its))
  unfolding new_batch_request
  new_batch_request_iff [] = (λ h. cc, λ h. absurd (h.0 refl))
  new_batch_request_iff (it ∷ its) = (
    λ h.
        let ok : check_items 0 [] (it ∷ its) ≡ none = ground arith in
        let wf = check_items-IsWellFormed 0 [] (it ∷ its) ok in (λ e. cc, wf.0, wf.1),
    λ h. rw (
      IsWellFormed-check_items 0 [] (it ∷ its) (h.1, h.2, Apart-nil (item_ids (it ∷ its))),
      new_batch_request,
    ),
  )

  -- A request that was built passes `Validate`, and keeps the items and their order.
  pub validate-new_batch_request :
      (its : List (BatchItem K)) (r : BatchRequest K)
      → new_batch_request its ≡ ok r
      → (validate_request r ≡ none) × (r.items ≡ its)
  unfolding new_batch_request validate_request
  validate-new_batch_request [] r h = cc
  validate-new_batch_request (it ∷ its) r h = ground arith
