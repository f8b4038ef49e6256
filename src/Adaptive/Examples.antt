-- ===== src/Adaptive/Examples.antt =====
-- Concrete bounds and settings.
mod Traversals
mod Rollbacks
use batch_weaver.Base.{◌≡◌, refl, true, [], ◌∷◌, none, pos, negsuc, ◌≤ℤ◌, arith}
use batch_weaver.Adaptive.Bounds.{
  Dimension, Settings, HardBounds, clamp_int, clamp_weight, clamp_chunk, clamp_settings,
  at_least_one, validate_bounds,
}
use batch_weaver.Adaptive.Bounds.Laws.{IsClamped, at_most, clamp_settings_bounds}

-- `DefaultBounds`
abbrev default_bounds : HardBounds
default_bounds = record {
  min_wait_nanos = pos 0;
  max_wait_nanos = pos 2000000;
  min_batch_size = pos 1;
  max_batch_size = pos 512;
  min_concurrency = pos 1;
  max_concurrency = pos 16;
  max_batch_weight = pos 0;
  max_chunk_size = pos 512;
}

abbrev greedy : Settings
greedy = record {
  max_wait_nanos = negsuc 4;
  max_batch_size = pos 4096;
  max_batch_weight = pos 9;
  max_concurrency = pos 64;
  chunk_size = pos 1000;
  mode = [];
}

abbrev open_bounds : HardBounds
open_bounds = record default_bounds { max_batch_size = pos 0; max_concurrency = pos 0 }

default_valid : validate_bounds default_bounds ≡ none
unfolding validate_bounds
default_valid = refl

greedy_clamped :
    (clamp_settings default_bounds greedy).1
    ≡ Dimension.max_batch_size ∷ Dimension.concurrency ∷ Dimension.chunk_size ∷ []
unfolding clamp_settings clamp_int clamp_weight clamp_chunk at_least_one
greedy_clamped = refl

one_below : at_least_one (pos 1) ≤ℤ pos 4096
unfolding at_least_one
one_below = omega arith

one_below_calls : at_least_one (pos 1) ≤ℤ pos 64
unfolding at_least_one
one_below_calls = omega arith

open_valid : validate_bounds open_bounds ≡ none
unfolding validate_bounds
open_valid = refl

clamp_settings_bounds_example :
    let t = (clamp_settings open_bounds greedy).0 in
    IsClamped (pos 0) (pos 2000000) greedy.max_wait_nanos t.max_wait_nanos
    × IsClamped (at_least_one (pos 1)) (pos 0) greedy.max_batch_size t.max_batch_size
    × IsClamped (at_least_one (pos 1)) (pos 0) greedy.max_concurrency t.max_concurrency
    × (at_most (pos 0) t.max_batch_weight ≡ true)
    × (at_most (pos 512) t.chunk_size ≡ true)
    × (pos 0 ≤ℤ t.max_wait_nanos)
    × (at_least_one (pos 1) ≤ℤ t.max_batch_size)
    × (at_least_one (pos 1) ≤ℤ t.max_concurrency)
clamp_settings_bounds_example = clamp_settings_bounds open_bounds greedy open_valid
