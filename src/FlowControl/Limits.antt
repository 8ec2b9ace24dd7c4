-- ===== src/FlowControl/Limits.antt =====
-- The limit grows, is announced in time, and never passes what the application read by more than
-- the window.
use raw_quic.Prelude.{
  arith, false, if◌then◌else◌, ltb, min, some, true, ℕ, ◌*◌, ◌+◌, ◌-◌, ◌<◌, ◌^◌, ◌≡◌, ◌≤◌,
}
use raw_quic.FlowControl.{
  FlowControl, should_send_max_data, max_data_next, update_max_data, autotune_window,
}

-- The offsets stay below 2 ^ 62 as varints do, the window below its maximum and that below 2 ^ 62,
-- and no more was read than was allowed.
pub record IsValid (c : FlowControl) : Type 0 where
  pub read_allowed : c.read_off ≤ c.max_data
  pub limited : c.max_data ≤ c.read_off + c.max_window
  pub capped : c.window ≤ c.max_window
  pub read_varint : c.read_off < 2 ^ 62
  pub window_varint : c.max_window < 2 ^ 62

-- In a valid state, when an update is due, the new limit lies more than half of the window above the old one; once it
-- is applied, the limit is what was read plus the window, no further update is due, and the state is
-- valid.
pub update_max_data_lem :
    (c : FlowControl) (now : ℕ)
    → IsValid c
    → should_send_max_data c ≡ true
    → (2 * c.max_data + c.window < 2 * max_data_next c)
      × ((update_max_data now c).max_data ≡ c.read_off + c.window)
      × (should_send_max_data (update_max_data now c) ≡ false)
      × IsValid (update_max_data now c)
unfolding should_send_max_data update_max_data
update_max_data_lem c now v h = ground arith

-- In a valid state after an update, auto-tuning keeps the state valid and never shrinks the window;
-- it doubles the window, up to the maximum, exactly if the last update is less than two round trips
-- ago.
pub autotune_window_lem :
    (c : FlowControl) (now srtt last : ℕ)
    → IsValid c
    → c.last_updated ≡ some last
    → IsValid (autotune_window now srtt c)
      × (c.window ≤ (autotune_window now srtt c).window)
      × ((autotune_window now srtt c).window
          ≡ (if ltb (now - last) (2 * srtt) then min (2 * c.window) c.max_window else c.window))
unfolding autotune_window
autotune_window_lem c now srtt last v h = ground arith
