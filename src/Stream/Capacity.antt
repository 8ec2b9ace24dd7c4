-- ===== src/Stream/Capacity.antt =====
-- The send capacity of a connection: `SendCapacity` (src/connection/stream.rs).
use raw_quic.Prelude.{Option, max, sub64, ℕ}

pub record SendCapacity : Type 0 where
  pub max_data : ℕ
  pub tx_data : ℕ
  pub capacity : ℕ
  pub blocked_at : Option ℕ

unfoldable pub update_max_data : ℕ → SendCapacity → SendCapacity
update_max_data max_data c = record c { max_data = max c.max_data max_data }

unfoldable pub update_capacity : SendCapacity → SendCapacity
update_capacity c = record c { capacity = sub64 c.max_data c.tx_data }

unfoldable pub update_blocked_at : Option ℕ → SendCapacity → SendCapacity
update_blocked_at blocked_at c = record c { blocked_at = blocked_at }
