-- ===== src/Error.antt =====
-- The error type of QUIC operations (src/error.rs) and its two numberings, and the result type
-- that every fallible operation of the library returns.
pub mod Errno
use Prim.Native.String.{String}
use raw_quic.Prelude.{ℕ}
use raw_quic.Prelude.Int.{ℤ, pos, negsuc}

pub data Error : Type 0 where
  no_error : Error
  internal_error : Error
  connection_refused : Error
  flow_control_error : Error
  stream_limit_error : Error
  stream_state_error : Error
  final_size_error : Error
  frame_encoding_error : Error
  transport_parameter_error : Error
  connection_id_limit_error : Error
  protocol_violation : Error
  invalid_token : Error
  application_error : Error
  crypto_buffer_exceeded : Error
  key_update_error : Error
  aead_limit_reached : Error
  no_viable_path : Error
  crypto_error : ℕ → Error  -- u8
  multipath_protocol_violation : Error
  done : Error
  buffer_too_short : Error
  unknown_version : Error
  invalid_packet : Error
  invalid_state : String → Error
  invalid_operation : String → Error
  invalid_config : String → Error
  expired_token : Error
  crypto_fail : Error
  tls_fail : String → Error
  stream_stopped : ℕ → Error
  stream_reset : ℕ → Error
  io_error : String → Error

-- `panic` stands for a panic of the program: a failed `unwrap`, an `unreachable!()`, or a buffer that is
-- cut beyond its end.
pub data Result {ℓ} (A : Type ℓ) : Type ℓ where
  ok : A → Result A
  err : Error → Result A
  panic : Result A

infixl 5 ◌>>=◌ ◌>>◌
abbrev pub ◌>>=◌ {ℓ κ} : {A : Type ℓ} {B : Type κ} → Result A → (A → Result B) → Result B
ok a >>= f = f a
err e >>= f = err e
panic >>= f = panic

abbrev pub ◌>>◌ {ℓ κ} : {A : Type ℓ} {B : Type κ} → Result A → Result B → Result B
m >> k = m >>= λ _. k

-- The wire value of the error.
pub to_wire : Error → ℕ
to_wire no_error = 0x0
to_wire internal_error = 0x1
to_wire connection_refused = 0x2
to_wire flow_control_error = 0x3
to_wire stream_limit_error = 0x4
to_wire stream_state_error = 0x5
to_wire final_size_error = 0x6
to_wire frame_encoding_error = 0x7
to_wire transport_parameter_error = 0x8
to_wire connection_id_limit_error = 0x9
to_wire protocol_violation = 0xa
to_wire invalid_token = 0xb
to_wire application_error = 0xc
to_wire crypto_buffer_exceeded = 0xd
to_wire key_update_error = 0xe
to_wire aead_limit_reached = 0xf
to_wire no_viable_path = 0x10
to_wire (crypto_error v) = v
to_wire multipath_protocol_violation = 0x1001d76d3ded42f3
to_wire _ = 0x0

-- The error number used by the C caller.
unfoldable pub to_errno : Error → ℤ
to_errno no_error = pos 0
to_errno internal_error = negsuc 0
to_errno connection_refused = negsuc 1
to_errno flow_control_error = negsuc 2
to_errno stream_limit_error = negsuc 3
to_errno stream_state_error = negsuc 4
to_errno final_size_error = negsuc 5
to_errno frame_encoding_error = negsuc 6
to_errno transport_parameter_error = negsuc 7
to_errno connection_id_limit_error = negsuc 8
to_errno protocol_violation = negsuc 9
to_errno invalid_token = negsuc 10
to_errno application_error = negsuc 11
to_errno crypto_buffer_exceeded = negsuc 12
to_errno key_update_error = negsuc 13
to_errno aead_limit_reached = negsuc 14
to_errno no_viable_path = negsuc 15
to_errno (crypto_error _) = negsuc 16
to_errno multipath_protocol_violation = negsuc 17
to_errno done = negsuc 99
to_errno buffer_too_short = negsuc 100
to_errno unknown_version = negsuc 101
to_errno invalid_packet = negsuc 102
to_errno (invalid_state _) = negsuc 103
to_errno (invalid_operation _) = negsuc 104
to_errno (invalid_config _) = negsuc 105
to_errno expired_token = negsuc 106
to_errno crypto_fail = negsuc 107
to_errno (tls_fail _) = negsuc 108
to_errno (stream_stopped _) = negsuc 109
to_errno (stream_reset _) = negsuc 110
to_errno (io_error _) = negsuc 111
