-- ===== src/Frame/Encode.antt =====
-- Frames to bytes (src/frame.rs, `to_bytes` and the headers). Each `b.write_…(…)?` is a step of the
-- writer; `to_bytes` drops the results of the steps.
use raw_quic.Prelude.{
  Bool, List, Option, [], if◌then◌else◌, length, none, reverse, some, sub64, suc, zero, ℕ, ◌%◌, ◌-◌,
  ◌^◌, ◌∷◌,
}
use raw_quic.Error
use raw_quic.Error.{ok, panic}
use raw_quic.Codec.Encoder.{
  Encoder, ◌>>◌, return, write_u8, write_varint, write_varint_with_len, write,
}
use raw_quic.Ranges.{RangeSet, iter}
use raw_quic.Ranges.Entries.{Range}
use raw_quic.Cid.{ConnectionId, as_bytes}
use raw_quic.Frame.{Frame, EcnCounts}

unfoldable pub encode_crypto_header : ℕ → ℕ → Encoder ℕ
encode_crypto_header offset len = do
  write_varint 0x06
  write_varint offset
  write_varint_with_len len 2

unfoldable pub encode_stream_header : ℕ → ℕ → ℕ → Bool → Encoder ℕ
encode_stream_header stream_id offset len fin = do
  write_varint (if fin then 0x0f else 0x0e)
  write_varint stream_id
  write_varint offset
  write_varint_with_len len 2

unfoldable pub encode_paddings : ℕ → Encoder ℕ
encode_paddings zero = return 0
encode_paddings (suc left) = do write_varint 0x00; encode_paddings left

-- The loop over the ranges below the largest one.
unfoldable pub encode_ack_blocks : ℕ → List Range → Encoder ℕ
encode_ack_blocks smallest_ack [] = return 0
encode_ack_blocks smallest_ack ((s, e) ∷ it) = do
  write_varint (sub64 (sub64 smallest_ack e) 1)
  write_varint (sub64 (sub64 e 1) s)
  encode_ack_blocks s it

unfoldable pub encode_ecn : Option EcnCounts → Encoder ℕ
encode_ecn none = return 0
encode_ecn (some ecn) = do
  write_varint ecn.ect0_count
  write_varint ecn.ect1_count
  write_varint ecn.ecn_ce_count

abbrev pub ack_type : Option EcnCounts → ℕ
ack_type none = 0x02
ack_type (some _) = 0x03

-- `it.next().unwrap()` panics on an empty set.
unfoldable pub encode_ack_ranges : ℕ → List Range → Option EcnCounts → Encoder ℕ
unfolding encode_ack_blocks encode_ecn
encode_ack_ranges ack_delay [] ecn = λ _. panic
encode_ack_ranges ack_delay ((s, e) ∷ it) ecn = do
  write_varint (sub64 e 1)
  write_varint ack_delay
  write_varint (length it)
  write_varint (sub64 (sub64 e 1) s)
  encode_ack_blocks s it
  encode_ecn ecn

unfoldable pub encode_ack : ℕ → RangeSet → Option EcnCounts → Encoder ℕ
unfolding encode_ack_ranges iter
encode_ack ack_delay ack_ranges ecn = do
  write_varint (ack_type ecn)
  encode_ack_ranges ack_delay (reverse (iter ack_ranges)) ecn

unfoldable pub encode_new_connection_id : ℕ → ℕ → ConnectionId → List ℕ → Encoder ℕ
encode_new_connection_id seq_num retire_prior_to conn_id reset_token = do
  write_varint 0x18
  write_varint seq_num
  write_varint retire_prior_to
  write_u8 (length (as_bytes conn_id) % 2 ^ 8)
  write (as_bytes conn_id)
  write reset_token

unfoldable pub encode_close : ℕ → ℕ → List ℕ → Encoder ℕ
encode_close error_code frame_type reason = do
  write_varint 0x1c
  write_varint error_code
  write_varint frame_type
  write_varint (length reason)
  write reason

unfoldable pub encode_abandon : ℕ → ℕ → List ℕ → Encoder ℕ
encode_abandon dcid_seq_num error_code reason = do
  write_varint 0x15228c05
  write_varint dcid_seq_num
  write_varint error_code
  write_varint (length reason)
  write reason

unfoldable pub encode_status : ℕ → ℕ → ℕ → Encoder ℕ
encode_status dcid_seq_num seq_num status = do
  write_varint 0x15228c06
  write_varint dcid_seq_num
  write_varint seq_num
  write_varint status

-- The `match self` of `to_bytes`.
unfoldable pub encode_frame : Frame → Encoder ℕ
unfolding encode_crypto_header encode_stream_header encode_paddings encode_ack
    encode_new_connection_id encode_close encode_abandon encode_status
encode_frame (Frame.paddings len) = encode_paddings len
encode_frame (Frame.ping _) = write_varint 0x01
encode_frame (Frame.ack ack_delay ack_ranges ecn) = encode_ack ack_delay ack_ranges ecn
encode_frame (Frame.reset_stream stream_id error_code final_size) = do
  write_varint 0x04
  write_varint stream_id
  write_varint error_code
  write_varint final_size
encode_frame (Frame.stop_sending stream_id error_code) = do
  write_varint 0x05
  write_varint stream_id
  write_varint error_code
encode_frame (Frame.crypto offset len content) = do encode_crypto_header offset len; write content
encode_frame (Frame.new_token token) = do
  write_varint 0x07
  write_varint (length token)
  write token
encode_frame (Frame.stream stream_id offset len fin content) = do
  encode_stream_header stream_id offset len fin
  write content
encode_frame (Frame.max_data m) = do write_varint 0x10; write_varint m
encode_frame (Frame.max_stream_data stream_id m) = do
  write_varint 0x11
  write_varint stream_id
  write_varint m
encode_frame (Frame.max_streams bidi m) = do
  write_varint (if bidi then 0x12 else 0x13)
  write_varint m
encode_frame (Frame.data_blocked m) = do write_varint 0x14; write_varint m
encode_frame (Frame.stream_data_blocked stream_id m) = do
  write_varint 0x15
  write_varint stream_id
  write_varint m
encode_frame (Frame.streams_blocked bidi m) = do
  write_varint (if bidi then 0x16 else 0x17)
  write_varint m
encode_frame (Frame.new_connection_id seq_num retire_prior_to conn_id reset_token) =
    encode_new_connection_id seq_num retire_prior_to conn_id reset_token
encode_frame (Frame.retire_connection_id seq_num) = do write_varint 0x19; write_varint seq_num
encode_frame (Frame.path_challenge content) = do write_varint 0x1a; write content
encode_frame (Frame.path_response content) = do write_varint 0x1b; write content
encode_frame (Frame.connection_close error_code frame_type reason) =
    encode_close error_code frame_type reason
encode_frame (Frame.application_close error_code reason) = do
  write_varint 0x1d
  write_varint error_code
  write_varint (length reason)
  write reason
encode_frame Frame.handshake_done = write_varint 0x1e
encode_frame (Frame.path_abandon dcid_seq_num error_code reason) =
    encode_abandon dcid_seq_num error_code reason
encode_frame (Frame.path_status dcid_seq_num seq_num status) =
    encode_status dcid_seq_num seq_num status

-- The bytes written, by what is left of the buffer.
unfoldable pub to_bytes : Frame → Encoder ℕ
unfolding encode_frame
to_bytes f w = Error.◌>>=◌ (encode_frame f w) (λ r. ok (w.room - (r.1).room, r.1))
