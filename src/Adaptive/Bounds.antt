-- ===== src/Adaptive/Bounds.antt =====
-- internal/adaptive/bounds.go: the tunable settings, the hard bounds, `Clamp` and `Validate`.
-- Numbers are Go's signed ones. A diagnostic of `Clamp` is named by the dimension that it reports;
-- the error of `Validate` by its field.
pub mod Laws
use batch_weaver.Base.{
  ℕ, Bool, true, false, ◌&&◌, ◌||◌, List, [], ◌∷◌, ◌++◌, Bytes, Option, none, some, ℤ, pos, ltb_ℤ,
  if◌then◌else◌,
}

pub data Dimension : Type 0 where
  max_wait max_batch_size concurrency max_batch_weight chunk_size : Dimension

pub record Settings : Type 0 where
  pub max_wait_nanos : ℤ
  pub max_batch_size : ℤ
  pub max_batch_weight : ℤ
  pub max_concurrency : ℤ
  pub chunk_size : ℤ
  pub mode : Bytes

pub record HardBounds : Type 0 where
  pub min_wait_nanos : ℤ
  pub max_wait_nanos : ℤ
  pub min_batch_size : ℤ
  pub max_batch_size : ℤ
  pub min_concurrency : ℤ
  pub max_concurrency : ℤ
  pub max_batch_weight : ℤ
  pub max_chunk_size : ℤ

-- `clampInt` and `clampInt64` of `Clamp`: the value, and the diagnostics.
unfoldable pub clamp_int : Dimension → ℤ → ℤ → ℤ → ℤ × List Dimension
clamp_int name v lo hi =
    if ltb_ℤ (pos 0) hi && ltb_ℤ hi v
    then (hi, name ∷ [])
    else if ltb_ℤ v lo
    then (lo, [])
    else (v, [])

unfoldable pub at_least_one : ℤ → ℤ
at_least_one n = if ltb_ℤ n (pos 1) then pos 1 else n

unfoldable pub clamp_weight : HardBounds → ℤ → ℤ × List Dimension
unfolding clamp_int
clamp_weight h v =
    if ltb_ℤ (pos 0) h.max_batch_weight
    then clamp_int max_batch_weight v (pos 0) h.max_batch_weight
    else (v, [])

unfoldable pub clamp_chunk : HardBounds → ℤ → ℤ × List Dimension
unfolding clamp_int
clamp_chunk h v =
    if ltb_ℤ (pos 0) h.max_chunk_size && ltb_ℤ (pos 0) v
    then clamp_int chunk_size v (pos 1) h.max_chunk_size
    else (v, [])

-- `HardBounds.Clamp`
unfoldable pub clamp_settings : HardBounds → Settings → Settings × List Dimension
clamp_settings h s =
    let (wait, d1) = clamp_int max_wait s.max_wait_nanos h.min_wait_nanos h.max_wait_nanos in
    let (size, d2) =
      clamp_int max_batch_size s.max_batch_size (at_least_one h.min_batch_size) h.max_batch_size in
    let (calls, d3) =
      clamp_int concurrency s.max_concurrency (at_least_one h.min_concurrency) h.max_concurrency in
    let (weight, d4) = clamp_weight h s.max_batch_weight in
    let (chunk, d5) = clamp_chunk h s.chunk_size in
    (
      record {
        max_wait_nanos = wait;
        max_batch_size = size;
        max_batch_weight = weight;
        max_concurrency = calls;
        chunk_size = chunk;
        mode = s.mode;
      },
      d1 ++ d2 ++ d3 ++ d4 ++ d5,
    )

-- `HardBounds.Validate`
unfoldable pub validate_bounds : HardBounds → Option Dimension
validate_bounds h =
    if ltb_ℤ h.max_wait_nanos (pos 0)
      || ltb_ℤ h.min_wait_nanos (pos 0)
      || (ltb_ℤ h.max_wait_nanos h.min_wait_nanos && ltb_ℤ (pos 0) h.max_wait_nanos)
    then some Dimension.max_wait
    else if ltb_ℤ (pos 0) h.max_batch_size && ltb_ℤ h.max_batch_size h.min_batch_size
    then some Dimension.max_batch_size
    else if ltb_ℤ (pos 0) h.max_concurrency && ltb_ℤ h.max_concurrency h.min_concurrency
    then some Dimension.concurrency
    else none
