-- ===== src/Runtime/Bounded/Reach.antt =====
-- Every state that a bound operation's coordinator can come to, from `Bind` on.
use batch_weaver.Base.{ℕ, ◌≤◌, refl, Bool, Option, none, some, arith}
use batch_weaver.Runtime.Policy.{Config, AdaptiveSettings, apply_adaptive_settings}
use batch_weaver.Runtime.State.{Coordinator}
use batch_weaver.Runtime.Loop.{Event, round, tune, new_coordinator}
use batch_weaver.Runtime.Bounded.{IsTuned, IsBounded}
use batch_weaver.Runtime.Bounded.Rounds.{round-IsBounded}

module _ {K : Type 0} where
  applied :
      (cfg : Config K) (s : AdaptiveSettings)
      → 1 ≤ cfg.max_batch_size
      → 1 ≤ cfg.max_concurrency
      → IsTuned cfg (some (apply_adaptive_settings cfg s))
  unfolding apply_adaptive_settings
  applied cfg s a b = (ground arith, ground arith, ground arith)

module _ {K V E : Type 0} where
  -- Rounds of the event loop, at any times and with any events, and settings that tuners store or
  -- clear between them. A tuner that stores settings within a round is not modelled.
  pub data Reach (cfg : Config K) : Coordinator K V E → Type 0 where
    bound : Reach cfg (new_coordinator cfg)
    stepped :
        {c : Coordinator K V E}
        → Reach cfg c
        → (now : ℕ) (expired : ℕ → Bool) (e : Event K V E) → Reach cfg (round now expired e c).0
    tuned :
        {c : Coordinator K V E} → Reach cfg c → (s : Option AdaptiveSettings) → Reach cfg (tune s c)

  new_coordinator-IsBounded :
      (cfg : Config K)
      → 1 ≤ cfg.max_batch_size
      → 1 ≤ cfg.max_concurrency
      → IsBounded (new_coordinator {K = K} {V = V} {E = E} cfg)
  unfolding new_coordinator
  new_coordinator-IsBounded cfg h k = record {
    sized = h;
    capable = k;
    tuned = tt;
    calls = refl;
    concurrency = omega arith;
    batches = tt;
  }

  tune-IsBounded :
      (s : Option AdaptiveSettings) (c : Coordinator K V E) → IsBounded c → IsBounded (tune s c)
  unfolding tune
  tune-IsBounded none c v = record {
    sized = v.sized;
    capable = v.capable;
    tuned = tt;
    calls = v.calls;
    concurrency = v.concurrency;
    batches = v.batches;
  }
  tune-IsBounded (some s) c v = record {
    sized = v.sized;
    capable = v.capable;
    tuned = applied c.config s v.sized v.capable;
    calls = v.calls;
    concurrency = v.concurrency;
    batches = v.batches;
  }

  -- In every state that the coordinator can reach from `Bind`, by any sequence of events and of
  -- tuning between rounds, no more provider calls run than the configuration allows, there is one
  -- batch in flight for each, and every batch in flight is within the configured size, and within
  -- the configured weight and bytes (a limit of zero being none) unless one of its items passes the
  -- int64 range together with that limit, provided that the configured size and concurrency are
  -- positive, as `Bind` makes them.
  pub Reach-IsBounded :
      {cfg : Config K} {c : Coordinator K V E}
      → 1 ≤ cfg.max_batch_size
      → 1 ≤ cfg.max_concurrency
      → Reach cfg c
      → IsBounded c
  Reach-IsBounded {cfg} h k bound = new_coordinator-IsBounded cfg h k
  Reach-IsBounded h k (stepped r now expired e) =
      round-IsBounded now expired e _ (Reach-IsBounded h k r)
  Reach-IsBounded h k (tuned r s) = tune-IsBounded s _ (Reach-IsBounded h k r)
