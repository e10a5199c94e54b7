-- ===== src/Schedule/Backoff.antt =====
-- The retry backoff: bounds, growth, and no overflow.
use roze_dtm.Common.{ℕ, ◌-◌, ◌≤◌, arith, min, max, u64_max, le-mul-pow, mul-pow_mono}
use roze_dtm.Schedule.{backoff_after}

-- The backoff lies between the interval and the larger of interval and limit.
pub backoff_bounds :
    (attempts backoff limit : ℕ)
    → backoff ≤ u64_max
    → (backoff ≤ backoff_after attempts backoff limit)
      × (backoff_after attempts backoff limit ≤ max limit backoff)
unfolding backoff_after
backoff_bounds attempts backoff limit h = omega (arith, le-mul-pow backoff (min (attempts - 1) 16))

-- It never shrinks from one attempt to a later one.
pub backoff_mono :
    (earlier later backoff limit : ℕ)
    → earlier ≤ later
    → backoff_after earlier backoff limit ≤ backoff_after later backoff limit
unfolding backoff_after
backoff_mono earlier later backoff limit h =
    omega (arith, mul-pow_mono backoff (min (earlier - 1) 16) (min (later - 1) 16) (omega arith))
