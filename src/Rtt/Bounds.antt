-- ===== src/Rtt/Bounds.antt =====
-- The estimates lie between the extremes of the samples.
use raw_quic.Prelude.{List, [], arith, ℕ, ◌*◌, ◌+◌, ◌∷◌, ◌≤◌}
use raw_quic.Rtt.{
  RttEstimator, new, smoothed_rtt, pto_base, try_set_init_rtt, update, timer_granularity,
}

-- The smoothed value and the latest sample lie between the minimum and the maximum, and the
-- variation does not exceed the maximum.
pub record IsBounded (r : RttEstimator) : Type 0 where
  pub above : r.min_rtt ≤ smoothed_rtt r
  pub below : smoothed_rtt r ≤ r.max_rtt
  pub latest_above : r.min_rtt ≤ r.latest_rtt
  pub latest_below : r.latest_rtt ≤ r.max_rtt
  pub variation : r.rttvar ≤ r.max_rtt

pub new-IsBounded : (rtt : ℕ) → IsBounded (new rtt)
unfolding new smoothed_rtt
new-IsBounded rtt = omega arith

-- Every sample keeps the bounds.
pub update-IsBounded :
    (ack_delay rtt : ℕ) (r : RttEstimator) → IsBounded r → IsBounded (update ack_delay rtt r)
unfolding update smoothed_rtt
update-IsBounded ack_delay rtt r h = ground arith

pub try_set_init_rtt-IsBounded :
    (rtt : ℕ) (r : RttEstimator) → IsBounded r → IsBounded (try_set_init_rtt rtt r)
unfolding try_set_init_rtt smoothed_rtt
try_set_init_rtt-IsBounded rtt r h = ground arith

-- The samples one after the other, each with its acknowledgement delay.
abbrev pub updates : List (ℕ × ℕ) → RttEstimator → RttEstimator
updates [] r = r
updates ((ack_delay, rtt) ∷ es) r = updates es (update ack_delay rtt r)

pub updates-IsBounded :
    (es : List (ℕ × ℕ)) (r : RttEstimator) → IsBounded r → IsBounded (updates es r)
updates-IsBounded [] r h = h
updates-IsBounded ((ack_delay, rtt) ∷ es) r h =
    updates-IsBounded es (update ack_delay rtt r) (update-IsBounded ack_delay rtt r h)

-- After any samples, the probe timeout is at least the least sample plus the timer's granularity,
-- and at most five times the largest plus that granularity.
pub pto_base_bounds :
    (es : List (ℕ × ℕ)) (rtt : ℕ)
    → let r = updates es (new rtt) in
      (r.min_rtt + timer_granularity ≤ pto_base r)
      × (pto_base r ≤ 5 * r.max_rtt + timer_granularity)
unfolding pto_base
pto_base_bounds es rtt = omega (arith, updates-IsBounded es (new rtt) (new-IsBounded rtt))
