-- ===== src/Pmtu.antt =====
-- Path MTU discovery (src/connection/pmtu.rs).
pub mod Search
use raw_quic.Prelude.{
  Bool, Option, false, if◌then◌else◌, leb, ltb, max, none, not, some, true, ℕ, ◌&&◌, ◌*◌, ◌+◌, ◌/◌,
  ◌==◌, ◌||◌,
}

abbrev pub max_packet_size_ipv4 : ℕ
max_packet_size_ipv4 = 1472

abbrev pub max_packet_size_ipv6 : ℕ
max_packet_size_ipv6 = 1452

abbrev pub max_probe_count : ℕ
max_probe_count = 3

-- `crate::DEFAULT_SEND_UDP_PAYLOAD_SIZE`.
abbrev pub default_send_udp_payload_size : ℕ
default_send_udp_payload_size = 1200

pub record Dplpmtud : Type 0 where
  pub should_probe : Bool
  pub current_size : ℕ
  pub probe_size : Option ℕ
  pub probe_count : ℕ
  pub failed_size : ℕ
  pub max_pmtu : ℕ
  pub is_ipv6 : Bool

unfoldable pub new : Bool → ℕ → Bool → Dplpmtud
new enable max_pmtu is_ipv6 = record {
  should_probe = enable;
  current_size = default_send_udp_payload_size;
  probe_size = none;
  probe_count = 0;
  failed_size = 0;
  max_pmtu =
      if max_pmtu == default_send_udp_payload_size
      then (if is_ipv6 then max_packet_size_ipv6 else max_packet_size_ipv4)
      else max_pmtu;
  is_ipv6 = is_ipv6;
}

unfoldable pub cal_mtu_ceiling : ℕ → Dplpmtud → ℕ
cal_mtu_ceiling peer d =
    let ceiling = if ltb 0 d.failed_size then d.failed_size else d.max_pmtu in
    if ltb peer ceiling then peer else ceiling

unfoldable pub cal_probe_size : ℕ → Dplpmtud → ℕ
unfolding cal_mtu_ceiling
cal_probe_size peer d =
    let ceiling = cal_mtu_ceiling peer d in
    if d.failed_size == 0 && ltb ceiling 1500 then ceiling else (d.current_size + ceiling) / 2

-- `current as f64 / ceiling as f64 >= 0.99`, as a comparison of integers. The two agree for sizes
-- below 2 ^ 40: below 0.99 the quotient differs from it by at least 1 / (100 * ceiling), which is
-- far more than the rounding of the division and of the constant.
unfoldable pub check_finish : ℕ → Dplpmtud → Bool
unfolding cal_mtu_ceiling
check_finish peer d =
    let ceiling = cal_mtu_ceiling peer d in
    leb ceiling d.current_size || leb (99 * ceiling) (100 * d.current_size)

unfoldable pub get_probe_size : ℕ → Dplpmtud → ℕ × Dplpmtud
unfolding cal_probe_size
get_probe_size peer d = elim d.probe_size [
  | some size ↦ (size, d)
  | none ↦ (cal_probe_size peer d, record d { probe_size = some (cal_probe_size peer d) })
]

unfoldable pub on_pmtu_probe_sent : ℕ → Dplpmtud → Dplpmtud
on_pmtu_probe_sent pkt_size d = record d { should_probe = false }

-- A new probe size, and whether to go on.
unfoldable pub next_probe : ℕ → Dplpmtud → Dplpmtud
unfolding cal_probe_size check_finish
next_probe peer d = record d {
  probe_size = some (cal_probe_size peer d);
  should_probe = not (check_finish peer d);
}

unfoldable pub on_pmtu_probe_acked : ℕ → ℕ → Dplpmtud → Dplpmtud
unfolding next_probe
on_pmtu_probe_acked pkt_size peer d =
    next_probe peer (record d { current_size = max d.current_size pkt_size; probe_count = 0 })

unfoldable pub on_pmtu_probe_lost : ℕ → ℕ → Dplpmtud → Dplpmtud
unfolding next_probe
on_pmtu_probe_lost pkt_size peer d = elim d.probe_size [
  | none ↦ d
  | some size ↦
      if not (pkt_size == size)
      then d
      else if ltb (d.probe_count + 1) max_probe_count
      then record d { probe_count = d.probe_count + 1; should_probe = true }
      else record (next_probe peer (record d { failed_size = pkt_size })) { probe_count = 0 }
]
