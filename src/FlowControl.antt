-- ===== src/FlowControl.antt =====
-- Flow control with an auto-tuned window (src/connection/flowcontrol.rs). Instants and durations are
-- nanoseconds; the difference of two instants is 0 if it would be negative.
pub mod Limits
use raw_quic.Prelude.{
  Bool, Option, add64, if◌then◌else◌, ltb, max, min, none, some, sub64, ℕ, ◌%◌, ◌*◌, ◌-◌, ◌^◌,
}

pub record FlowControl : Type 0 where
  pub read_off : ℕ
  pub recv_off : ℕ
  pub max_data : ℕ
  pub window : ℕ
  pub max_window : ℕ
  pub last_updated : Option ℕ

unfoldable pub new : ℕ → ℕ → FlowControl
new window max_window = record {
  read_off = 0;
  recv_off = 0;
  max_data = window;
  window = window;
  max_window = max_window;
  last_updated = none;
}

unfoldable pub increase_recv_off : ℕ → FlowControl → FlowControl
increase_recv_off delta c = record c { recv_off = add64 c.recv_off delta }

unfoldable pub increase_read_off : ℕ → FlowControl → FlowControl
increase_read_off delta c = record c { read_off = add64 c.read_off delta }

-- `(self.max_data - self.read_off) * 2 < self.window` on u64.
unfoldable pub should_send_max_data : FlowControl → Bool
should_send_max_data c = ltb (sub64 c.max_data c.read_off * 2 % 2 ^ 64) c.window

unfoldable pub max_data_next : FlowControl → ℕ
max_data_next c = add64 c.read_off c.window

unfoldable pub update_max_data : ℕ → FlowControl → FlowControl
unfolding max_data_next
update_max_data now c = record c { max_data = max_data_next c; last_updated = some now }

unfoldable pub autotune_window : ℕ → ℕ → FlowControl → FlowControl
autotune_window now srtt c = elim c.last_updated [
  | none ↦ c
  | some last_updated ↦
      if ltb (now - last_updated) (srtt * 2)
      then record c { window = min (c.window * 2 % 2 ^ 64) c.max_window }
      else c
]

unfoldable pub ensure_window_lower_bound : ℕ → FlowControl → FlowControl
ensure_window_lower_bound min_window c = record c { window = max c.window min_window }
