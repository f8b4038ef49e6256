-- ===== src/Message.antt =====
-- types.go: the vocabulary that callers, the runtime and providers share. A request identifier is
-- a number, the zero time of an item's deadline is `none`, and a nil error is `none`.
pub mod Ids
pub mod Request
pub mod Response
mod Examples
use batch_weaver.Base.{
  ℕ, Bool, not, ◌||◌, ◌==◌, Option, none, some, ℤ, pos, negsuc, ltb_ℤ, if◌then◌else◌,
}

-- `RequestID.IsValid`.
unfoldable pub is_valid : ℕ → Bool
is_valid id = not (id == 0)

abbrev pub min_priority : ℤ
min_priority = negsuc 999

abbrev pub max_priority : ℤ
max_priority = pos 1000

pub record BatchItem (K : Type 0) : Type 0 where
  pub id : ℕ
  pub key : K
  pub deadline : Option ℕ
  pub priority : ℤ
  pub weight : ℤ

pub data ItemError : Type 0 where
  zero_id weight_not_positive : ItemError
  priority_out_of_range : ℤ → ItemError

module _ {K : Type 0} where
  unfoldable pub new_batch_item : ℕ → K → BatchItem K
  new_batch_item i k = record { id = i; key = k; deadline = none; priority = pos 0; weight = pos 1 }

  unfoldable pub with_deadline : BatchItem K → ℕ → BatchItem K
  with_deadline it d = record it { deadline = some d }

  unfoldable pub with_priority : BatchItem K → ℤ → BatchItem K
  with_priority it p = record it { priority = p }

  unfoldable pub with_weight : BatchItem K → ℤ → BatchItem K
  with_weight it w = record it { weight = w }

  unfoldable pub validate_item : BatchItem K → Option ItemError
  unfolding is_valid
  validate_item it =
      if not (is_valid it.id)
      then some zero_id
      else if ltb_ℤ it.weight (pos 1)
      then some weight_not_positive
      else if ltb_ℤ it.priority min_priority || ltb_ℤ max_priority it.priority
      then some (priority_out_of_range it.priority)
      else none
