-- ===== src/TransParam/Encode.antt =====
-- `TransportParams::encode` (src/trans_param.rs).
use raw_quic.Prelude.{
  Bool, List, Option, false, if◌then◌else◌, leb, length, none, some, true, ℕ, ◌-◌, ◌==◌,
}
use raw_quic.Error
use raw_quic.Error.{Result, ok}
use raw_quic.Cid.{ConnectionId, as_bytes}
use raw_quic.Codec.{encode_varint_len}
use raw_quic.Codec.Encoder
use raw_quic.Codec.Encoder.{Writer, Encoder, ◌>>=◌, ◌>>◌, return, be_bytes, write_varint, write}
use raw_quic.TransParam.{PreferredAddress, TransportParams}
use raw_quic.TransParam.Preferred.{wire_len, to_bytes}

-- The three writes of a number under its identifier.
unfoldable pub write_number : ℕ → ℕ → Encoder ℕ
write_number id value = do
  write_varint id
  len ← Encoder.lift (encode_varint_len value)
  write_varint len
  write_varint value

-- A number is left out if it is 0.
unfoldable pub write_nonzero : ℕ → ℕ → Encoder ℕ
unfolding write_number
write_nonzero id value = if value == 0 then return 0 else write_number id value

-- The three writes of bytes under their identifier.
unfoldable pub write_bytes : ℕ → List ℕ → Encoder ℕ
unfolding write_varint write
write_bytes id bytes = do write_varint id; write_varint (length bytes); write bytes

unfoldable pub write_cid : ℕ → Option ConnectionId → Encoder ℕ
unfolding write_bytes as_bytes
write_cid id none = return 0
write_cid id (some cid) = write_bytes id (as_bytes cid)

unfoldable pub write_token : Option ℕ → Encoder ℕ
unfolding write_bytes
write_token none = return 0
write_token (some token) = do write_varint 0x0002; write_varint 16; write (be_bytes 16 token)

unfoldable pub write_flag : ℕ → Bool → Encoder ℕ
unfolding write_varint
write_flag id false = return 0
write_flag id true = do write_varint id; write_varint 0

unfoldable pub write_preferred : Option PreferredAddress → Encoder ℕ
unfolding write_varint wire_len to_bytes
write_preferred none = return 0
write_preferred (some p) = do write_varint 0x000d; write_varint (wire_len p); to_bytes p

-- What only a server writes.
abbrev pub when : Bool → Encoder ℕ → Encoder ℕ
when b m = if b then m else return 0

unfoldable pub encode_params : TransportParams → Bool → Encoder ℕ
unfolding write_nonzero write_cid write_token write_flag write_preferred
encode_params tp is_server = do
  when is_server (write_cid 0x0000 tp.original_destination_connection_id)
  write_nonzero 0x0001 tp.max_idle_timeout
  when is_server (write_token tp.stateless_reset_token)
  write_nonzero 0x0003 tp.max_udp_payload_size
  write_nonzero 0x0004 tp.initial_max_data
  write_nonzero 0x0005 tp.initial_max_stream_data_bidi_local
  write_nonzero 0x0006 tp.initial_max_stream_data_bidi_remote
  write_nonzero 0x0007 tp.initial_max_stream_data_uni
  write_nonzero 0x0008 tp.initial_max_streams_bidi
  write_nonzero 0x0009 tp.initial_max_streams_uni
  write_nonzero 0x000a tp.ack_delay_exponent
  write_nonzero 0x000b tp.max_ack_delay
  write_flag 0x000c tp.disable_active_migration
  write_preferred tp.preferred_address
  when (leb 2 tp.active_conn_id_limit) (write_number 0x000e tp.active_conn_id_limit)
  write_cid 0x000f tp.initial_source_connection_id
  when is_server (write_cid 0x0010 tp.retry_source_connection_id)
  write_flag 0x0f739bbc1b666d05 tp.enable_multipath
  write_flag 0xbaad tp.disable_encryption

-- The number of bytes written, and the buffer behind them.
unfoldable pub encode : TransportParams → Bool → Writer → Result (ℕ × Writer)
unfolding encode_params
encode tp is_server w =
    Error.◌>>=◌ (encode_params tp is_server w) (λ r. ok (w.room - r.1.room, r.1))
