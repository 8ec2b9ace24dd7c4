-- ===== src/Stream/Kind.antt =====
-- The two low bits of a stream id: `is_local` and `is_bidi` (src/connection/stream.rs).
use raw_quic.Prelude.{Bool, false, true, ℕ, ◌%◌, ◌/◌, ◌==◌}

abbrev pub bit_of : Bool → ℕ
bit_of true = 1
bit_of false = 0

-- `(stream_id & 0x1) == (is_server as u64)`.
unfoldable pub is_local : ℕ → Bool → Bool
is_local stream_id is_server = stream_id % 2 == bit_of is_server

-- `(stream_id & 0x2) == 0`.
unfoldable pub is_bidi : ℕ → Bool
is_bidi stream_id = stream_id / 2 % 2 == 0
