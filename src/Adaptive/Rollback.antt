-- ===== src/Adaptive/Rollback.antt =====
-- internal/adaptive/rollback.go: the monitor that watches applied changes and takes them back. The
-- numbers of its measurements are floats: their type and the few operations on them come from
-- outside. Reasons are named; the identifier and the texts of a rollback decision are left out. Instants
-- are natural numbers. The lock is not modelled: each operation is one step.
pub mod Slots
use batch_weaver.Base.{
  ℕ, ◌+◌, Bool, true, false, not, ◌&&◌, List, [], ◌∷◌, Bytes, bytes_eq, filter, Option, none, some,
  ℤ, pos, pos_part, ltb, ltb_ℤ, if◌then◌else◌,
}
use batch_weaver.Adaptive.Bounds.{Settings}

-- What the guardrails use of float64: comparison, addition, zero, and the conversion of an int64.
pub record Floats (F : Type 0) : Type 0 where
  pub above : F → F → Bool
  pub equal : F → F → Bool
  pub plus : F → F → F
  pub nothing : F
  pub of_int : ℤ → F

pub record SloGuardrails (F : Type 0) : Type 0 where
  pub p95_queue_delay_nanos : ℤ
  pub timeout_rate : F
  pub error_rate_regression : F
  pub rollback_window : ℤ
  pub added_latency_budget_nanos : ℤ

pub record ObservedMetrics (F : Type 0) : Type 0 where
  pub p95_queue_delay_nanos : F
  pub timeout_rate : F
  pub error_rate : F
  pub throttle_rate : F
  pub queue_depth_ratio : F
  pub is_fairness_regressed : Bool
  pub is_verification_mismatch : Bool
  pub is_contract_violation : Bool

-- What `Arm` reads of a decision.
pub record Decision (F : Type 0) : Type 0 where
  pub id : Bytes
  pub operation : Bytes
  pub previous : Settings
  pub guardrails : SloGuardrails F
  pub is_applied : Bool

pub record ArmedChange (F : Type 0) : Type 0 where
  pub decision_id : Bytes
  pub previous : Settings
  pub guardrails : SloGuardrails F
  pub baseline : ObservedMetrics F
  pub armed_at : ℕ

pub data Breach : Type 0 where
  verification_mismatch contract_violation queue_delay timeouts error_rate throttling fairness :
      Breach

-- The decision that a breach leads to.
pub record Rollback (F : Type 0) : Type 0 where
  pub operation : Bytes
  pub restored : Settings
  pub guardrails : SloGuardrails F
  pub undone : Bytes
  pub reason : Breach
  pub timestamp : ℕ

-- The map of armed changes, one entry for an operation at most.
abbrev pub Armed : Type 0 → Type 0
Armed F = List (Bytes × ArmedChange F)

module _ {F : Type 0} where
  unfoldable pub lookup : Bytes → Armed F → Option (ArmedChange F)
  lookup o [] = none
  lookup o (e ∷ es) = if bytes_eq e.0 o then some e.1 else lookup o es

  unfoldable pub remove : Bytes → Armed F → Armed F
  remove o [] = []
  remove o (e ∷ es) = let rest = remove o es in if bytes_eq e.0 o then rest else e ∷ rest

  unfoldable pub armed_change : Decision F → ObservedMetrics F → ℕ → ArmedChange F
  armed_change d baseline now = record {
    decision_id = d.id;
    previous = d.previous;
    guardrails = d.guardrails;
    baseline = baseline;
    armed_at = now;
  }

  abbrev pub is_watched : Decision F → Bool
  is_watched d = d.is_applied && ltb_ℤ (pos 0) d.guardrails.rollback_window

  -- `Arm`
  unfoldable pub arm : Decision F → ObservedMetrics F → ℕ → Armed F → Armed F
  unfolding remove armed_change
  arm d baseline now m =
      if is_watched d then (d.operation, armed_change d baseline now) ∷ remove d.operation m else m

module _ {F : Type 0} (fl : Floats F) where
  -- `guardrailBreach`
  unfoldable pub guardrail_breach : ArmedChange F → ObservedMetrics F → Option Breach
  guardrail_breach a cur =
      let g = a.guardrails in
      if cur.is_verification_mismatch
      then some verification_mismatch
      else if cur.is_contract_violation
      then some contract_violation
      else if ltb_ℤ (pos 0) g.p95_queue_delay_nanos
          && fl.above cur.p95_queue_delay_nanos (fl.of_int g.p95_queue_delay_nanos)
      then some queue_delay
      else if fl.above g.timeout_rate fl.nothing && fl.above cur.timeout_rate g.timeout_rate
      then some timeouts
      else if fl.above cur.error_rate (fl.plus (a.baseline.error_rate) g.error_rate_regression)
      then some error_rate
      else if fl.above cur.throttle_rate (a.baseline.throttle_rate)
          && (fl.equal (a.baseline.throttle_rate) fl.nothing
              && fl.above cur.throttle_rate fl.nothing)
      then some throttling
      else if cur.is_fairness_regressed
      then some fairness
      else none

  -- The window of an armed change, which is positive, has passed.
  abbrev pub is_elapsed : ArmedChange F → ℕ → Bool
  is_elapsed a now = ltb (a.armed_at + pos_part (a.guardrails.rollback_window)) now

  unfoldable pub rollback_of : Bytes → ArmedChange F → Breach → ℕ → Rollback F
  rollback_of o a reason now = record {
    operation = o;
    restored = a.previous;
    guardrails = a.guardrails;
    undone = a.decision_id;
    reason = reason;
    timestamp = now;
  }

  -- `Evaluate`
  unfoldable pub evaluate : Bytes → ObservedMetrics F → ℕ → Armed F → Armed F × Option (Rollback F)
  unfolding lookup remove guardrail_breach rollback_of
  evaluate o cur now m = elim (lookup o m) [
    | none ↦ (m, none)
    | some a ↦ if is_elapsed a now then (remove o m, none) else elim (guardrail_breach a cur) [
      | none ↦ (m, none)
      | some reason ↦ (remove o m, some (rollback_of o a reason now))
    ]
  ]

  -- `Armed`
  unfoldable pub is_armed : Bytes → Armed F → Bool
  unfolding lookup
  is_armed o m = elim (lookup o m) [ none ↦ false | some _ ↦ true ]
