-- ===== src/Runtime/Binding/Laws/Causes.antt =====
-- Why `Bind` fails (runtime/binding.go).
use batch_weaver.Base.{
  ◌≡◌, refl, ap, subst, ◌⊎◌, inl, inr, Bool, true, false, not, ◌&&◌, Option, none, some, arith,
  is_empty, guards, or_else, or_else-none, guards-IsPassed, guards_holds, some_error, Result, ok,
  err,
}
use batch_weaver.Operation.Policies.{is_dedup_enabled}
use batch_weaver.Operation.Spec.{Spec, validate, IsValid}
use batch_weaver.Operation.Spec.Laws.{validate-dedup}
use batch_weaver.Runtime.Memo.{KeyStrategy}
use batch_weaver.Runtime.Engine.{
  has_negative, Engine, EngineError, ensure_open, register_controller,
}
use batch_weaver.Runtime.Binding.{
  Binding, Bound, BindError, invalid_spec, no_provider, no_keys, negative_limits,
  dedup_not_permitted, memo_not_permitted, no_fallback, not_open, not_registered, is_fallback,
  wants_memo, memo_permitted, overflow_of, first_tests, last_tests, new_bound, register_bound,
  bind_checked, bind_keys, open_test, bind,
}
use batch_weaver.Runtime.Binding.Laws.{is_empty-nil}

disabled :
    (a b c : Bool)
    → (a ≡ false) ⊎ (b ≡ true)
    → (c && not b) ≡ true
    → (c ≡ true) × (b ≡ false) × (a ≡ false)
disabled a b c (inl h) k = (ground (arith, k), ground (arith, k), h)
disabled a b c (inr h) k = ground (arith, h, k)

both : (a b : Bool) → (a && not b) ≡ true → (a ≡ true) × (b ≡ false)
both a b h = (ground (arith, h), ground (arith, h))

module _ {K : Type 0} where
  -- What an error of `Bind` says.
  abbrev pub IsCause : Engine → Spec → Binding K → BindError → Type 0
  IsCause e spec b (not_open x) = ensure_open e ≡ some x
  IsCause e spec b (invalid_spec fs) = (validate spec ≡ fs) × (is_empty (validate spec) ≡ false)
  IsCause e spec b no_provider = b.has_provider ≡ false
  IsCause e spec b no_keys = b.keys ≡ none
  IsCause e spec b negative_limits = has_negative b.limits ≡ true
  IsCause e spec b dedup_not_permitted =
      (spec.deduplication_policy.in_flight ≡ true)
      × (spec.semantics.deduplication_allowed ≡ false)
      × (is_dedup_enabled spec.deduplication_policy ≡ false)
  IsCause e spec b memo_not_permitted =
      (wants_memo spec b ≡ true) × (memo_permitted spec.semantics ≡ false)
  IsCause e spec b no_fallback =
      (is_fallback (overflow_of e spec b) ≡ true) × (b.has_fallback ≡ false)
  IsCause e spec b (not_registered x) = register_controller spec.id e ≡ err x

  abbrev error_of : Result BindError (Bound K × Engine) → BindError
  error_of (err x) = x
  error_of (ok r) = no_keys

  bind_error :
      (x y : BindError) → Path (Result BindError (Bound K × Engine)) (err x) (err y) → x ≡ y
  bind_error x y h = ap error_of h

  first_tests-IsValid :
      (e : Engine) (spec : Spec) (b : Binding K)
      → or_else (open_test (ensure_open e)) (guards (first_tests spec b)) ≡ none
      → IsValid spec
  first_tests-IsValid e spec b h =
      is_empty-nil (validate spec)
        (guards-IsPassed (first_tests spec b)
          (or_else-none (open_test (ensure_open e)) (guards (first_tests spec b)) h).1).0

  last_tests-IsCause :
      (e : Engine) (spec : Spec) (b : Binding K) (x : BindError)
      → IsValid spec
      → guards (last_tests e spec b) ≡ some x
      → IsCause e spec b x
  last_tests-IsCause e spec b x v h =
      guards_holds (IsCause e spec b) (last_tests e spec b) x
        (
          λ t. t,
          (
            λ t.
                disabled (is_dedup_enabled spec.deduplication_policy)
                  spec.semantics.deduplication_allowed spec.deduplication_policy.in_flight
                  (validate-dedup spec v).0 t,
            (
              λ t. both (wants_memo spec b) (memo_permitted spec.semantics) t,
              (λ t. both (is_fallback (overflow_of e spec b)) b.has_fallback t, tt),
            ),
          ),
        )
        h

  first_tests-IsCause :
      (e : Engine) (spec : Spec) (b : Binding K) (o : Option EngineError) (x : BindError)
      → ensure_open e ≡ o
      → or_else (open_test o) (guards (first_tests spec b)) ≡ some x
      → IsCause e spec b x
  first_tests-IsCause e spec b (some y) x q h =
      subst (IsCause e spec b) (some_error (not_open y) x h) q
  first_tests-IsCause e spec b none x q h =
      guards_holds (IsCause e spec b) (first_tests spec b) x
        (λ t. (refl, ground (arith, t)), (λ t. ground (arith, t), tt)) h

  register_bound-IsCause :
      (e : Engine) (spec : Spec) (b : Binding K) (o : Bound K) (a : Result EngineError Engine)
      (x : BindError)
      → register_controller spec.id e ≡ a
      → register_bound o a ≡ err x
      → IsCause e spec b x
  register_bound-IsCause e spec b o (ok f) x q h = cc
  register_bound-IsCause e spec b o (err y) x q h =
      subst (IsCause e spec b) (bind_error (not_registered y) x h) q

  bind_checked-IsCause :
      (e : Engine) (spec : Spec) (b : Binding K) (keys : KeyStrategy K) (t : Option BindError)
      (x : BindError)
      → IsValid spec
      → guards (last_tests e spec b) ≡ t
      → bind_checked (new_bound e spec b keys) e t ≡ err x
      → IsCause e spec b x
  bind_checked-IsCause e spec b keys (some y) x v q h =
      subst (IsCause e spec b) (bind_error y x h) (last_tests-IsCause e spec b y v q)
  bind_checked-IsCause e spec b keys none x v q h =
      register_bound-IsCause e spec b (new_bound e spec b keys) (register_controller spec.id e) x
        refl h

  bind_keys-IsCause :
      (e : Engine) (spec : Spec) (b : Binding K) (t : Option BindError) (k : Option (KeyStrategy K))
      (x : BindError)
      → or_else (open_test (ensure_open e)) (guards (first_tests spec b)) ≡ t
      → b.keys ≡ k
      → bind_keys e spec b t k ≡ err x
      → IsCause e spec b x
  bind_keys-IsCause e spec b (some y) k x q p h =
      subst (IsCause e spec b) (bind_error y x h)
        (first_tests-IsCause e spec b (ensure_open e) y refl q)
  bind_keys-IsCause e spec b none none x q p h = subst (IsCause e spec b) (bind_error no_keys x h) p
  bind_keys-IsCause e spec b none (some keys) x q p h =
      bind_checked-IsCause e spec b keys (guards (last_tests e spec b)) x
        (first_tests-IsValid e spec b q) refl h

  -- Every error of `Bind` says what is wrong; in-flight deduplication is refused only to operations
  -- whose deduplication mode is disabled, since the validation refuses the others before.
  pub bind-IsCause :
      (e : Engine) (spec : Spec) (b : Binding K) (x : BindError)
      → bind e spec b ≡ err x
      → IsCause e spec b x
  unfolding bind
  bind-IsCause e spec b x h =
      bind_keys-IsCause e spec b (or_else (open_test (ensure_open e)) (guards (first_tests spec b)))
        b.keys x refl refl h
