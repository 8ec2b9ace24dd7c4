-- ===== src/Rtt.antt =====
-- RTT estimation of a path (src/connection/rtt.rs). Durations are nanoseconds.
pub mod Bounds
use raw_quic.Prelude.{Option, if◌then◌else◌, leb, ltb, max, min, none, some, ℕ, ◌*◌, ◌+◌, ◌-◌, ◌/◌}

pub record RttEstimator : Type 0 where
  pub latest_rtt : ℕ
  pub smoothed : Option ℕ
  pub rttvar : ℕ
  pub min_rtt : ℕ
  pub max_rtt : ℕ

-- 1 ms.
abbrev pub timer_granularity : ℕ
timer_granularity = 1_000_000

unfoldable pub new : ℕ → RttEstimator
new initial_rtt = record {
  latest_rtt = initial_rtt;
  smoothed = none;
  rttvar = initial_rtt / 2;
  min_rtt = initial_rtt;
  max_rtt = initial_rtt;
}

unfoldable pub smoothed_rtt : RttEstimator → ℕ
smoothed_rtt r = elim r.smoothed [ none ↦ r.latest_rtt | some s ↦ s ]

unfoldable pub pto_base : RttEstimator → ℕ
unfolding smoothed_rtt
pto_base r = smoothed_rtt r + max (4 * r.rttvar) timer_granularity

unfoldable pub try_set_init_rtt : ℕ → RttEstimator → RttEstimator
try_set_init_rtt init_rtt r = elim r.smoothed [
  | some _ ↦ r
  | none ↦ record {
    latest_rtt = init_rtt;
    smoothed = none;
    rttvar = init_rtt / 2;
    min_rtt = init_rtt;
    max_rtt = init_rtt;
  }
]

-- The acknowledgement delay is subtracted unless that leaves less than the minimum.
unfoldable pub adjusted_rtt : ℕ → ℕ → ℕ → ℕ
adjusted_rtt min_rtt ack_delay latest =
    if leb (min_rtt + ack_delay) latest then latest - ack_delay else latest

unfoldable pub update : ℕ → ℕ → RttEstimator → RttEstimator
unfolding adjusted_rtt
update ack_delay rtt r =
    let min_rtt = min r.min_rtt rtt in
    let max_rtt = max r.max_rtt rtt in
    elim r.smoothed [
      | some s ↦
          let adjusted = adjusted_rtt min_rtt ack_delay rtt in
          let var_sample = if ltb adjusted s then s - adjusted else adjusted - s in
          record {
            latest_rtt = rtt;
            smoothed = some ((7 * s + adjusted) / 8);
            rttvar = (3 * r.rttvar + var_sample) / 4;
            min_rtt = min_rtt;
            max_rtt = max_rtt;
          }
      | none ↦ record {
        latest_rtt = rtt;
        smoothed = some rtt;
        rttvar = rtt / 2;
        min_rtt = rtt;
        max_rtt = rtt;
      }
    ]
