-- ===== src/Adaptive/Bounds/Laws.antt =====
-- What `Clamp` of internal/adaptive/bounds.go guarantees for bounds that `Validate` accepts.
use batch_weaver.Base.{
  ◌≡◌, refl, not, Bool, true, false, ◌&&◌, [], none, ℤ, pos, ltb_ℤ, ◌≤ℤ◌, arith, ◌⊎◌, inl, inr,
  Bool-cases, if◌then◌else◌,
}
use batch_weaver.Adaptive.Bounds.{
  Dimension, Settings, HardBounds, clamp_int, at_least_one, clamp_weight, clamp_chunk,
  clamp_settings, validate_bounds,
}

clamp_int_ge :
    (n : Dimension) (v lo hi : ℤ)
    → (ltb_ℤ (pos 0) hi && ltb_ℤ hi lo) ≡ false
    → lo ≤ℤ (clamp_int n v lo hi).0
unfolding clamp_int
clamp_int_ge n v lo hi h = ground (arith, h)

clamp_int_le :
    (n : Dimension) (v lo hi : ℤ)
    → (ltb_ℤ (pos 0) hi && ltb_ℤ hi lo) ≡ false
    → ltb_ℤ (pos 0) hi ≡ true
    → (clamp_int n v lo hi).0 ≤ℤ hi
unfolding clamp_int
clamp_int_le n v lo hi h k = ground (arith, h, k)

clamp_int_again :
    (n : Dimension) (v lo hi : ℤ)
    → (ltb_ℤ (pos 0) hi && ltb_ℤ hi lo) ≡ false
    → clamp_int n (clamp_int n v lo hi).0 lo hi ≡ ((clamp_int n v lo hi).0, [])
unfolding clamp_int
clamp_int_again n v lo hi h = ground (arith, h)

at_least_one_lem :
    (lo hi : ℤ)
    → (ltb_ℤ (pos 0) hi && ltb_ℤ hi lo) ≡ false
    → (ltb_ℤ (pos 0) hi && ltb_ℤ hi (at_least_one lo)) ≡ false
unfolding at_least_one
at_least_one_lem lo hi h = ground (arith, h)

-- The bounds that `Validate` accepts leave each dimension a value.
abbrev wait_open : HardBounds → Bool
wait_open h = ltb_ℤ (pos 0) h.max_wait_nanos && ltb_ℤ h.max_wait_nanos h.min_wait_nanos

abbrev size_open : HardBounds → Bool
size_open h = ltb_ℤ (pos 0) h.max_batch_size && ltb_ℤ h.max_batch_size h.min_batch_size

abbrev calls_open : HardBounds → Bool
calls_open h = ltb_ℤ (pos 0) h.max_concurrency && ltb_ℤ h.max_concurrency h.min_concurrency

validate_bounds_lem :
    (h : HardBounds)
    → validate_bounds h ≡ none
    → (wait_open h ≡ false) × (size_open h ≡ false) × (calls_open h ≡ false)
unfolding validate_bounds
validate_bounds_lem h e = ground (arith, e)

-- A value does not pass an upper bound; a bound that is not positive is none.
abbrev pub at_most : ℤ → ℤ → Bool
at_most hi v = not (ltb_ℤ (pos 0) hi && ltb_ℤ hi v)

clamp_int-at_most :
    (n : Dimension) (v lo hi : ℤ)
    → (ltb_ℤ (pos 0) hi && ltb_ℤ hi lo) ≡ false
    → at_most hi (clamp_int n v lo hi).0 ≡ true
unfolding clamp_int
clamp_int-at_most n v lo hi h = ground (arith, h)

clamp_weight-at_most :
    (h : HardBounds) (v : ℤ) → at_most h.max_batch_weight (clamp_weight h v).0 ≡ true
unfolding clamp_weight clamp_int
clamp_weight-at_most h v = ground arith

clamp_chunk-at_most : (h : HardBounds) (v : ℤ) → at_most h.max_chunk_size (clamp_chunk h v).0 ≡ true
unfolding clamp_chunk clamp_int
clamp_chunk-at_most h v = ground arith

clamp_weight_again :
    (h : HardBounds) (v : ℤ) → clamp_weight h (clamp_weight h v).0 ≡ ((clamp_weight h v).0, [])
unfolding clamp_weight clamp_int
clamp_weight_again h v = ground arith

clamp_chunk_again :
    (h : HardBounds) (v : ℤ) → clamp_chunk h (clamp_chunk h v).0 ≡ ((clamp_chunk h v).0, [])
unfolding clamp_chunk clamp_int
clamp_chunk_again h v = ground arith

-- The recommended value, raised to its minimum.
abbrev pub raised : ℤ → ℤ → ℤ
raised lo v = if ltb_ℤ v lo then lo else v

-- A value does not pass a positive maximum; without one, it is the recommended value, raised.
abbrev pub IsClamped : ℤ → ℤ → ℤ → ℤ → Type 0
IsClamped lo hi v t =
    ((ltb_ℤ (pos 0) hi ≡ true) × (t ≤ℤ hi)) ⊎ ((ltb_ℤ (pos 0) hi ≡ false) × (t ≡ raised lo v))

clamp_int-IsClamped :
    (n : Dimension) (v lo hi : ℤ)
    → (ltb_ℤ (pos 0) hi && ltb_ℤ hi lo) ≡ false
    → IsClamped lo hi v (clamp_int n v lo hi).0
unfolding clamp_int
clamp_int-IsClamped n v lo hi h = elim (Bool-cases (ltb_ℤ (pos 0) hi)) [
  | inl e ↦ inl (e, clamp_int_le n v lo hi h e)
  | inr e ↦ inr (e, ground (arith, e))
]

-- For bounds that `Validate` accepts, no setting that `Clamp` returns passes a positive maximum, the
-- wait is at least its minimum, and the batch size and the concurrency are at least their minimums
-- and one. A maximum of zero bounds nothing, also on the wait, the batch size and the concurrency,
-- which then are the recommended ones, raised to their minimums.
pub clamp_settings_bounds :
    (h : HardBounds) (s : Settings)
    → validate_bounds h ≡ none
    → let t = (clamp_settings h s).0 in
      let size = at_least_one h.min_batch_size in
      let calls = at_least_one h.min_concurrency in
      IsClamped h.min_wait_nanos h.max_wait_nanos s.max_wait_nanos t.max_wait_nanos
      × IsClamped size h.max_batch_size s.max_batch_size t.max_batch_size
      × IsClamped calls h.max_concurrency s.max_concurrency t.max_concurrency
      × (at_most h.max_batch_weight t.max_batch_weight ≡ true)
      × (at_most h.max_chunk_size t.chunk_size ≡ true)
      × (h.min_wait_nanos ≤ℤ t.max_wait_nanos)
      × (size ≤ℤ t.max_batch_size)
      × (calls ≤ℤ t.max_concurrency)
unfolding clamp_settings
clamp_settings_bounds h s e =
    let ok = validate_bounds_lem h e in
    let size = at_least_one_lem h.min_batch_size h.max_batch_size ok.1 in
    let calls = at_least_one_lem h.min_concurrency h.max_concurrency ok.2 in
    (
      clamp_int-IsClamped Dimension.max_wait s.max_wait_nanos h.min_wait_nanos h.max_wait_nanos
          ok.0,
      clamp_int-IsClamped Dimension.max_batch_size s.max_batch_size (at_least_one h.min_batch_size)
          h.max_batch_size size,
      clamp_int-IsClamped Dimension.concurrency s.max_concurrency (at_least_one h.min_concurrency)
          h.max_concurrency calls,
      clamp_weight-at_most h s.max_batch_weight,
      clamp_chunk-at_most h s.chunk_size,
      clamp_int_ge Dimension.max_wait s.max_wait_nanos h.min_wait_nanos h.max_wait_nanos ok.0,
      clamp_int_ge Dimension.max_batch_size s.max_batch_size (at_least_one h.min_batch_size)
          h.max_batch_size size,
      clamp_int_ge Dimension.concurrency s.max_concurrency (at_least_one h.min_concurrency)
          h.max_concurrency calls,
    )

-- For bounds that `Validate` accepts, what `Clamp` returns is clamped already: a second `Clamp`
-- changes nothing and has nothing to report.
pub clamp_settings_again :
    (h : HardBounds) (s : Settings)
    → validate_bounds h ≡ none
    → clamp_settings h (clamp_settings h s).0 ≡ ((clamp_settings h s).0, [])
unfolding clamp_settings
clamp_settings_again h s e =
    let ok = validate_bounds_lem h e in
    let size = at_least_one_lem h.min_batch_size h.max_batch_size ok.1 in
    let calls = at_least_one_lem h.min_concurrency h.max_concurrency ok.2 in
    rw
      (
        clamp_int_again Dimension.max_wait s.max_wait_nanos h.min_wait_nanos h.max_wait_nanos ok.0,
        clamp_int_again Dimension.max_batch_size s.max_batch_size (at_least_one h.min_batch_size)
            h.max_batch_size size,
        clamp_int_again Dimension.concurrency s.max_concurrency (at_least_one h.min_concurrency)
            h.max_concurrency calls,
        clamp_weight_again h s.max_batch_weight,
        clamp_chunk_again h s.chunk_size,
      )
      refl

clamp_int_unbounded :
    (d : Dimension) (v lo hi : ℤ) → hi ≡ pos 0 → lo ≤ℤ v → (clamp_int d v lo hi).0 ≡ v
unfolding clamp_int
clamp_int_unbounded d v lo hi e h = rw e (ground (arith, h))

-- A zero maximum is no bound: where the maxima of the batch size and of the concurrency are zero,
-- `Clamp` leaves a recommendation that reaches the minimums as it is, however large.
pub clamp_settings_zero_max :
    (h : HardBounds) (s : Settings)
    → h.max_batch_size ≡ pos 0
    → h.max_concurrency ≡ pos 0
    → at_least_one h.min_batch_size ≤ℤ s.max_batch_size
    → at_least_one h.min_concurrency ≤ℤ s.max_concurrency
    → let t = (clamp_settings h s).0 in
      (t.max_batch_size ≡ s.max_batch_size) × (t.max_concurrency ≡ s.max_concurrency)
unfolding clamp_settings
clamp_settings_zero_max h s e k n m = (
  clamp_int_unbounded Dimension.max_batch_size s.max_batch_size (at_least_one h.min_batch_size)
      h.max_batch_size e n,
  clamp_int_unbounded Dimension.concurrency s.max_concurrency (at_least_one h.min_concurrency)
      h.max_concurrency k m,
)
