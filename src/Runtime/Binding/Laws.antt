-- ===== src/Runtime/Binding/Laws.antt =====
-- What `Bind` gives (runtime/binding.go).
pub mod Bounds
pub mod Causes
use batch_weaver.Base.{
  ℕ, ◌≤◌, ◌<◌, ◌≡◌, ◌≢◌, refl, sym, ap, ◌∙◌, subst, ◌⊎◌, ◌↔◌, inl, inr, Bool, true, false, not,
  ◌&&◌, ◌||◌, List, [], ◌∷◌, Option, none, some, arith, ℤ, pos, negsuc, pos_part, ◌≤ℤ◌, ltb_ℤ,
  Bytes, bytes_eq, bytes_eq_refl, Bool-cases, Option-cases, Result-cases, any, is_empty, All,
  guards, or_else, or_else-none, guards-IsPassed, guards-none, if◌then◌else◌, Result, ok, err,
}
use batch_weaver.Operation.Semantics.{Semantics}
use batch_weaver.Operation.Policies.{
  SchedulerPolicy, DeduplicationMode, DeduplicationPolicy, is_dedup_enabled,
}
use batch_weaver.Operation.Spec.{Spec, Finding, validate, IsValid}
use batch_weaver.Operation.Spec.Laws.{IsLimited, validate-IsLimited, validate-dedup}
use batch_weaver.Runtime.Policy.{QueueLimits, merge, Config}
use batch_weaver.Runtime.State.{Coordinator}
use batch_weaver.Runtime.Bounded.{IsBounded}
use batch_weaver.Runtime.Bounded.Reach.{Reach, Reach-IsBounded}
use batch_weaver.Runtime.Memo.{KeyStrategy}
use batch_weaver.Runtime.Engine.{
  GivenLimits, has_negative, as_limits, Engine, EngineError, is_opened, ensure_open,
  register_controller,
}
use batch_weaver.Runtime.Lifecycle.{register_controller-ok}
use batch_weaver.Runtime.Binding.{
  Binding, Bound, BindError, invalid_spec, no_provider, no_keys, negative_limits,
  dedup_not_permitted, memo_not_permitted, no_fallback, not_open, not_registered, at_least_one,
  spec_limits, is_fallback, wants_memo, memo_permitted, overflow_of, bound_config, first_tests,
  last_tests, new_bound, register_bound, bind_checked, bind_keys, open_test, bind,
}

pub is_empty-nil : (xs : List Finding) → not (is_empty xs) ≡ false → xs ≡ []
is_empty-nil [] h = refl
is_empty-nil (x ∷ xs) h = ground (arith, h)

pub open_test-none : (o : Option EngineError) → open_test o ≡ none → o ≡ none
open_test-none none h = refl
open_test-none (some x) h = cc

taken : (id : Bytes) (ops : List Bytes) → any (bytes_eq id) (id ∷ ops) ≢ false
taken id ops h = ground (arith, bytes_eq_refl id, h)

module _ {K : Type 0} where
  abbrev bound_of : Bound K × Engine → Result BindError (Bound K × Engine) → Bound K × Engine
  bound_of d (ok r) = r
  bound_of d (err x) = d

  -- What a binding that succeeds has passed, and where it ends.
  pub record IsBinding (e : Engine) (spec : Spec) (b : Binding K) (r : Bound K × Engine)
      : Type 0 where
    pub engine_open : ensure_open e ≡ none
    pub valid : IsValid spec
    pub provided : b.has_provider ≡ true
    pub keys : KeyStrategy K
    pub keyed : b.keys ≡ some keys
    pub passed : All (λ x. x.0 ≡ false) (last_tests e spec b)
    pub bound : new_bound e spec b keys ≡ r.0
    pub registered : register_controller spec.id e ≡ ok (r.1)

  register_bound-ok :
      (o : Bound K) (a : Result EngineError Engine) (r : Bound K × Engine)
      → register_bound o a ≡ ok r
      → (o ≡ r.0) × (a ≡ ok (r.1))
  register_bound-ok o (ok e) r h =
      (ap (λ x. (bound_of (o, e) x).0) h, ap (λ x. ok ((bound_of (o, e) x).1)) h)
  register_bound-ok o (err x) r h = cc

  bind_checked-ok :
      (o : Bound K) (e : Engine) (t : Option BindError) (r : Bound K × Engine)
      → bind_checked o e t ≡ ok r
      → (t ≡ none) × (o ≡ r.0) × (register_controller o.op_id e ≡ ok (r.1))
  bind_checked-ok o e (some x) r h = cc
  bind_checked-ok o e none r h =
      let p = register_bound-ok o (register_controller o.op_id e) r h in (refl, p.0, p.1)

  bind_keys-IsBinding :
      (e : Engine) (spec : Spec) (b : Binding K) (r : Bound K × Engine) (t : Option BindError)
      (k : Option (KeyStrategy K))
      → (t ≡ none → (ensure_open e ≡ none) × IsValid spec × (b.has_provider ≡ true))
      → b.keys ≡ k
      → bind_keys e spec b t k ≡ ok r
      → IsBinding e spec b r
  bind_keys-IsBinding e spec b r (some x) k f q h = cc
  bind_keys-IsBinding e spec b r none none f q h = cc
  bind_keys-IsBinding e spec b r none (some keys) f q h =
      let p = bind_checked-ok (new_bound e spec b keys) e (guards (last_tests e spec b)) r h in
      let g = f refl in
      record {
        engine_open = g.0;
        valid = g.1;
        provided = g.2;
        keys = keys;
        keyed = q;
        passed = guards-IsPassed (last_tests e spec b) p.0;
        bound = p.1;
        registered = p.2;
      }

  first_tests-passed :
      (e : Engine) (spec : Spec) (b : Binding K)
      → or_else (open_test (ensure_open e)) (guards (first_tests spec b)) ≡ none
      → (ensure_open e ≡ none) × IsValid spec × (b.has_provider ≡ true)
  first_tests-passed e spec b h =
      let p = or_else-none (open_test (ensure_open e)) (guards (first_tests spec b)) h in
      let q = guards-IsPassed (first_tests spec b) p.1 in
      (open_test-none (ensure_open e) p.0, is_empty-nil (validate spec) q.0, ground (arith, q.1.0))

  pub bind-IsBinding :
      (e : Engine) (spec : Spec) (b : Binding K) (r : Bound K × Engine)
      → bind e spec b ≡ ok r
      → IsBinding e spec b r
  unfolding bind
  bind-IsBinding e spec b r h =
      bind_keys-IsBinding e spec b r
        (or_else (open_test (ensure_open e)) (guards (first_tests spec b))) b.keys
        (first_tests-passed e spec b) refl h

  pub IsBinding-unbound :
      {e : Engine} {spec : Spec} {b : Binding K} {r : Bound K × Engine}
      → IsBinding e spec b r
      → (any (bytes_eq spec.id) e.ops ≡ false) × (r.1.ops ≡ spec.id ∷ e.ops)
  IsBinding-unbound {e} {spec} {b} {r} v =
      let p = register_controller-ok spec.id e (r.1) v.registered in
      (p.1, ap (λ (f : Engine). f.ops) (sym p.0))

  -- An operation that was bound on an engine cannot be bound on it again, by whatever declaration
  -- or binding.
  pub bind-twice :
      (e : Engine) (spec spec2 : Spec) (b b2 : Binding K) (r r2 : Bound K × Engine)
      → bind e spec b ≡ ok r
      → spec2.id ≡ spec.id
      → bind (r.1) spec2 b2 ≢ ok r2
  bind-twice e spec spec2 b b2 r r2 h same again =
      let first = IsBinding-unbound (bind-IsBinding e spec b r h) in
      let second = IsBinding-unbound (bind-IsBinding (r.1) spec2 b2 r2 again) in
      taken spec.id e.ops (
        subst (λ ops. any (bytes_eq spec.id) ops ≡ false) first.1
          (subst (λ id. any (bytes_eq id) (r.1.ops) ≡ false) same second.0))
