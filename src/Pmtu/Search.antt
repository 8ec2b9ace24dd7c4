-- ===== src/Pmtu/Search.antt =====
-- The search for the MTU: it stays between the confirmed size and the ceiling, and makes progress.
use raw_quic.Prelude.{
  arith, false, if◌then◌else◌, refl, some, true, ℕ, ◌*◌, ◌+◌, ◌-◌, ◌<◌, ◌==◌, ◌≡◌, ◌≤◌, ◌⊎◌,
}
use raw_quic.Pmtu.{
  Dplpmtud, cal_mtu_ceiling, cal_probe_size, check_finish, on_pmtu_probe_acked, max_probe_count,
  on_pmtu_probe_lost,
}

-- The confirmed size is at least the default and at most the ceiling, and fewer losses are counted
-- than end a size.
pub record IsValid (peer : ℕ) (d : Dplpmtud) : Type 0 where
  pub base : 1200 ≤ d.current_size
  pub below : d.current_size ≤ cal_mtu_ceiling peer d
  pub counted : d.probe_count < max_probe_count

-- What is left of the search: the distance to the ceiling, and whether the ceiling itself was tried.
abbrev pub left : ℕ → Dplpmtud → ℕ
left peer d = 2 * (cal_mtu_ceiling peer d - d.current_size) + (if d.failed_size == 0 then 1 else 0)

-- In a valid state, an acknowledged probe between the confirmed size and the ceiling is the new
-- confirmed size, the ceiling stays, less of the search is left, and the state stays valid.
pub acked_lem :
    (peer size : ℕ) (d : Dplpmtud)
    → IsValid peer d
    → d.current_size < size
    → size ≤ cal_mtu_ceiling peer d
    → ((on_pmtu_probe_acked size peer d).current_size ≡ size)
      × (cal_mtu_ceiling peer (on_pmtu_probe_acked size peer d) ≡ cal_mtu_ceiling peer d)
      × (left peer (on_pmtu_probe_acked size peer d) < left peer d)
      × IsValid peer (on_pmtu_probe_acked size peer d)
unfolding on_pmtu_probe_acked cal_mtu_ceiling
acked_lem peer size d v h k = ground arith

lost_again :
    (peer size : ℕ) (d : Dplpmtud)
    → d.probe_size ≡ some size
    → d.probe_count < 2
    → on_pmtu_probe_lost size peer d
      ≡ record d { probe_count = d.probe_count + 1; should_probe = true }
unfolding on_pmtu_probe_lost
lost_again peer size d p c = ground arith

-- A third loss.
lost_last :
    (peer size : ℕ) (d : Dplpmtud)
    → IsValid peer d
    → d.probe_size ≡ some size
    → d.probe_count ≡ 2
    → d.current_size < size
    → size ≤ cal_mtu_ceiling peer d
    → (d.failed_size ≡ 0) ⊎ (size < cal_mtu_ceiling peer d)
    → (cal_mtu_ceiling peer (on_pmtu_probe_lost size peer d) ≡ size)
      × ((on_pmtu_probe_lost size peer d).probe_count ≡ 0)
      × (left peer (on_pmtu_probe_lost size peer d) < left peer d)
      × IsValid peer (on_pmtu_probe_lost size peer d)
unfolding on_pmtu_probe_lost cal_mtu_ceiling
lost_last peer size d v p c h k f = ground arith

-- In a valid state, while the search goes on, the probe it asks for is larger than the confirmed size and at most the
-- ceiling, and it is below the ceiling once a probe failed, if no size above the peer's limit failed.
pub cal_probe_size_bounds :
    (peer : ℕ) (d : Dplpmtud)
    → IsValid peer d
    → check_finish peer d ≡ false
    → d.failed_size ≤ peer
    → (d.current_size < cal_probe_size peer d)
      × (cal_probe_size peer d ≤ cal_mtu_ceiling peer d)
      × ((d.failed_size ≡ 0) ⊎ (cal_probe_size peer d < cal_mtu_ceiling peer d))
unfolding cal_probe_size check_finish cal_mtu_ceiling
cal_probe_size_bounds peer d v h q = ground arith

-- In a valid state, while the search goes on and no size above the peer's limit failed, the first
-- three losses in a row of the probe that it asked for make its size the ceiling, leave less of the
-- search, start the count of losses again, and keep the state valid.
pub three_losses :
    (peer size : ℕ) (d : Dplpmtud)
    → IsValid peer d
    → check_finish peer d ≡ false
    → d.probe_size ≡ some size
    → size ≡ cal_probe_size peer d
    → d.probe_count ≡ 0
    → d.failed_size ≤ peer
    → let lost = on_pmtu_probe_lost size peer in
      let d' = lost (lost (lost d)) in
      (cal_mtu_ceiling peer d' ≡ size)
      × (d'.probe_count ≡ 0)
      × (left peer d' < left peer d)
      × IsValid peer d'
unfolding cal_mtu_ceiling
three_losses peer size d v f p s c q =
    let b = cal_probe_size_bounds peer d v f q in
    let d2 : Dplpmtud = record d { probe_count = 2; should_probe = true } in
    rw twice (
      lost_last peer size d2 (record { base = v.base; below = v.below; counted = omega arith }) p
        refl (omega (arith, s, b)) (omega (arith, s, b)) (ground (arith, s, b)))
  where
    twice :
        on_pmtu_probe_lost size peer (on_pmtu_probe_lost size peer d)
        ≡ record d { probe_count = 2; should_probe = true }
    twice = rw (
      lost_again peer size d p (omega arith),
      lost_again peer size (record d { probe_count = d.probe_count + 1; should_probe = true }) p
          (omega arith),
      c,
    )
