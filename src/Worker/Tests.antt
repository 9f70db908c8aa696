-- ===== src/Worker/Tests.antt =====
-- The backoff on concrete durations.
use agent_federation_hub.Base.{◌≡◌, refl, arith, ◌⊎◌}
use agent_federation_hub.Base.Int.{pos, ◌≤ℤ◌, ◌<ℤ◌, i64, ◌+ℤ◌}
use agent_federation_hub.Worker.Backoff.{bounded_backoff, backoff_bounds}

fourth : bounded_backoff 4 (pos 1) (pos 60) ≡ pos 8
unfolding bounded_backoff i64 ◌+ℤ◌
fourth = refl

backoff_bounds_example :
    let delay = bounded_backoff 4 (pos 1) (pos 60) in
    (pos 0 <ℤ delay)
    × (delay ≤ℤ pos 60)
    × ((pos 1 ≤ℤ delay) ⊎ (pos 60 ≤ℤ delay))
    × (delay ≤ℤ bounded_backoff 5 (pos 1) (pos 60))
backoff_bounds_example =
    backoff_bounds 4 (pos 1) (pos 60) (ground arith, ground arith) (ground arith, ground arith)
