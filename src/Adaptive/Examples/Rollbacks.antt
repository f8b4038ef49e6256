-- ===== src/Adaptive/Examples/Rollbacks.antt =====
-- A concrete run of the rollback monitor.
use batch_weaver.Base.{
  ℕ, ◌≡◌, refl, true, false, List, [], ◌∷◌, ◌+◌, ◌==◌, Bytes, bytes_eq, pos, pos_part, ltb,
}
use batch_weaver.Adaptive.Bounds.{Settings}
use batch_weaver.Adaptive.Rollback.{
  Floats, SloGuardrails, ObservedMetrics, Decision, Rollback, throttling, lookup, remove,
  armed_change, arm, guardrail_breach, rollback_of, evaluate,
}
use batch_weaver.Adaptive.Rollback.Slots.{
  Event, armed, evaluated, events_of, rollbacks_of, monitor, slot, monitor-slot,
}

abbrev floats : Floats ℕ
floats = record {
  above = λ a b. ltb b a;
  equal = λ a b. a == b;
  plus = λ a b. a + b;
  nothing = 0;
  of_int = pos_part;
}

abbrev calm : ObservedMetrics ℕ
calm = record {
  p95_queue_delay_nanos = 3;
  timeout_rate = 0;
  error_rate = 1;
  throttle_rate = 0;
  queue_depth_ratio = 0;
  is_fairness_regressed = false;
  is_verification_mismatch = false;
  is_contract_violation = false;
}

abbrev throttled : ObservedMetrics ℕ
throttled = record calm { throttle_rate = 2 }

abbrev guardrails : SloGuardrails ℕ
guardrails = record {
  p95_queue_delay_nanos = pos 0;
  timeout_rate = 0;
  error_rate_regression = 1;
  rollback_window = pos 10;
  added_latency_budget_nanos = pos 0;
}

abbrev settings : Settings
settings = record {
  max_wait_nanos = pos 5;
  max_batch_size = pos 4;
  max_batch_weight = pos 0;
  max_concurrency = pos 2;
  chunk_size = pos 0;
  mode = [];
}

abbrev change : Bytes → Bytes → Decision ℕ
change id o = record {
  id = id;
  operation = o;
  previous = settings;
  guardrails = guardrails;
  is_applied = true;
}

abbrev a_op : Bytes
a_op = 97 ∷ []

abbrev b_op : Bytes
b_op = 98 ∷ []

-- The window of the first change passes; the second one is taken back.
abbrev events : List (Event ℕ)
events =
    armed (change (1 ∷ []) a_op) calm 0
    ∷ armed (change (2 ∷ []) b_op) calm 5
    ∷ evaluated b_op calm 6
    ∷ evaluated a_op throttled 11
    ∷ evaluated b_op throttled 12
    ∷ evaluated b_op throttled 13
    ∷ []

abbrev taken_back : Rollback ℕ
taken_back = record {
  operation = b_op;
  restored = settings;
  guardrails = guardrails;
  undone = 2 ∷ [];
  reason = throttling;
  timestamp = 12;
}

one_rollback : monitor floats events [] ≡ taken_back ∷ []
unfolding monitor arm evaluate lookup remove armed_change guardrail_breach rollback_of bytes_eq
one_rollback = refl

monitor-slot_example :
    rollbacks_of b_op (monitor floats events [])
    ≡ slot floats (events_of b_op events) (lookup b_op [])
monitor-slot_example = monitor-slot floats b_op events []
