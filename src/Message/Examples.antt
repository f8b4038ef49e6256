-- ===== src/Message/Examples.antt =====
-- Concrete requests and responses.
use batch_weaver.Base.{
  ℕ, ◌≡◌, ◌≢◌, refl, ◌↔◌, true, false, List, [], ◌∷◌, none, some, ok, err, All, pos, negsuc,
}
use batch_weaver.Message.{
  BatchItem, new_batch_item, with_priority, validate_item, is_valid, priority_out_of_range,
}
use batch_weaver.Message.Ids.{Distinct, Within}
use batch_weaver.Message.Request.{
  new_batch_request_iff, item_ids, check_items, new_batch_request, invalid_item, duplicate_id,
}
use batch_weaver.Message.Response.{
  Outcome, BatchResponse, not_found, validate_outcome, outcome_ids, check_outcomes,
  validate_response, check_expected, check_answered, validate_against, by_id, missing_request_id,
}
use batch_weaver.Message.Response.Laws.{validate_against_iff, by_id-validate_against}

abbrev two_items : List (BatchItem ℕ)
two_items =
    record { id = 1; key = 10; deadline = none; priority = pos 0; weight = pos 1 }
    ∷ record { id = 2; key = 20; deadline = some 9; priority = negsuc 999; weight = pos 4 }
    ∷ []

abbrev two_outcomes : List (Outcome ℕ ℕ)
two_outcomes =
    record { request_id = 2; value = none; error = some 5; found = false }
    ∷ record { request_id = 1; value = some 100; error = none; found = true }
    ∷ []

abbrev response : BatchResponse ℕ ℕ
response = record { outcomes = two_outcomes }

-- The priority bounds are inclusive.
check_two_items : check_items 0 [] two_items ≡ none
unfolding check_items validate_item is_valid
check_two_items = refl

refused_priority :
    new_batch_request (with_priority (new_batch_item {K = ℕ} 1 10) (pos 1001) ∷ [])
    ≡ err (invalid_item 0 (priority_out_of_range (pos 1001)))
unfolding new_batch_request check_items validate_item is_valid with_priority new_batch_item
refused_priority = refl

refused_duplicate :
    new_batch_request (new_batch_item {K = ℕ} 7 10 ∷ new_batch_item 7 11 ∷ [])
    ≡ err (duplicate_id 7)
unfolding new_batch_request check_items validate_item is_valid new_batch_item
refused_duplicate = refl

refused_missing :
    validate_against (record { outcomes = not_found {V = ℕ} {E = ℕ} 1 ∷ [] }) (1 ∷ 2 ∷ [])
    ≡ some (missing_request_id 2)
unfolding validate_against validate_response check_outcomes check_expected check_answered
    validate_outcome is_valid not_found
refused_missing = refl

accepted : validate_against response (1 ∷ 2 ∷ []) ≡ none
unfolding validate_against validate_response check_outcomes check_expected check_answered
    validate_outcome is_valid
accepted = refl

new_batch_request_iff_example :
    (new_batch_request two_items ≡ ok (record { items = two_items })) ↔ (
      (two_items ≢ [])
      × All (λ it. validate_item it ≡ none) two_items
      × Distinct (item_ids two_items))
new_batch_request_iff_example = new_batch_request_iff two_items

built : new_batch_request two_items ≡ ok (record { items = two_items })
unfolding new_batch_request check_items validate_item is_valid
built = refl

validate_against_iff_example : (validate_against response (1 ∷ 2 ∷ []) ≡ none) ↔ (
    All (λ o. validate_outcome o ≡ none) two_outcomes
    × Distinct (outcome_ids two_outcomes)
    × Within (outcome_ids two_outcomes) (1 ∷ 2 ∷ [])
    × Within (1 ∷ 2 ∷ []) (outcome_ids two_outcomes))
validate_against_iff_example = validate_against_iff response (1 ∷ 2 ∷ [])

by_id-validate_against_example :
    (o : Outcome ℕ ℕ) × (by_id 1 two_outcomes ≡ some o)
    × (o.request_id ≡ 1)
    × (validate_outcome o ≡ none)
by_id-validate_against_example = by_id-validate_against response (1 ∷ 2 ∷ []) 1 accepted refl
