-- ===== src/Frame/Decode.antt =====
-- Bytes to frames (src/frame.rs, `from_bytes` and `parse_ack_frame`). Each `b.read_…()?` is a step
-- of the reader.
use raw_quic.Prelude.{
  Bool, List, Option, [], add64, false, if◌then◌else◌, leb, length, ltb, none, not, some, suc, take,
  true, zero, ℕ, ◌%◌, ◌&&◌, ◌+◌, ◌-◌, ◌/◌, ◌==◌, ◌^◌, ◌||◌, ◌∷◌,
}
use raw_quic.Error
use raw_quic.Error.{
  Error, Result, ok, err, panic, buffer_too_short, frame_encoding_error, invalid_packet,
}
use raw_quic.Codec.Decoder.{
  Decoder, ◌>>=◌, ◌>>◌, return, remaining, read_varint, read, read_with_varint_length,
  read_with_u8_length, skip,
}
use raw_quic.Ranges
use raw_quic.Ranges.{RangeSet}
use raw_quic.Cid
use raw_quic.Frame.{Frame, EcnCounts, PacketType, validate_frame, max_stream_size}

-- `if !test { return Err(e) }`.
abbrev pub check : Bool → Error → Decoder (Unit {0})
check test e s = if test then ok (tt, s) else err e

-- `buf.slice(start..(start + length))`, with `start` where the reader stands: `Bytes::slice` panics if
-- the range ends beyond the buffer.
unfoldable pub slice : ℕ → Decoder (List ℕ)
slice n s = if ltb (length s) n then panic else ok (take n s, s)

-- Bit `k` of a byte.
abbrev pub bit : ℕ → ℕ → Bool
bit k n = n / 2 ^ k % 2 == 1

-- `while !b.is_empty() && b[0] == 0x00`.
unfoldable pub decode_paddings : ℕ → Decoder Frame
decode_paddings len [] = ok (Frame.paddings len, [])
decode_paddings len (b ∷ s) =
    let rest = decode_paddings (len + 1) s in
    if b == 0 then rest else ok (Frame.paddings len, b ∷ s)

-- `for _i in 0..range_count`.
unfoldable pub parse_ack_blocks : ℕ → ℕ → RangeSet → Decoder RangeSet
parse_ack_blocks zero smallest_ack ranges = return ranges
parse_ack_blocks (suc n) smallest_ack ranges = do
  gap ← read_varint
  check (not (ltb smallest_ack (2 + gap))) frame_encoding_error
  let largest_ack = smallest_ack - gap - 2
  ack_range_len ← read_varint
  check (not (ltb largest_ack ack_range_len)) frame_encoding_error
  parse_ack_blocks n (largest_ack - ack_range_len)
      (Ranges.insert (largest_ack - ack_range_len, largest_ack + 1) ranges)

unfoldable pub parse_ecn : Bool → Decoder (Option EcnCounts)
parse_ecn false = return none
parse_ecn true = do
  ect0 ← read_varint
  ect1 ← read_varint
  ce ← read_varint
  return (some (record { ect0_count = ect0; ect1_count = ect1; ecn_ce_count = ce }))

-- The fields of an ACK frame, as `parse_ack_frame` reads them.
unfoldable pub parse_ack_fields : ℕ → Decoder Frame
unfolding parse_ack_blocks parse_ecn
parse_ack_fields frame_type = do
  largest_ack ← read_varint
  ack_delay ← read_varint
  range_count ← read_varint
  ack_range_len ← read_varint
  check (not (ltb largest_ack ack_range_len)) frame_encoding_error
  let smallest_ack = largest_ack - ack_range_len
  ranges ←
      parse_ack_blocks range_count smallest_ack
        (Ranges.insert (smallest_ack, largest_ack + 1) Ranges.default)
  ecn ← parse_ecn (bit 0 frame_type)
  return (Frame.ack ack_delay ranges ecn)

unfoldable pub parse_ack_frame : ℕ → List ℕ → Result (Frame × ℕ)
unfolding parse_ack_fields
parse_ack_frame frame_type b =
    Error.◌>>=◌ (parse_ack_fields frame_type b) (λ r. ok (r.0, length b - length r.1))

unfoldable pub decode_ack : ℕ → Decoder Frame
unfolding parse_ack_frame
decode_ack frame_type b =
    Error.◌>>=◌ (parse_ack_frame frame_type b) (λ r. (skip r.1 >> return r.0) b)

unfoldable pub decode_crypto : Decoder Frame
unfolding slice
decode_crypto = do
  offset ← read_varint
  len ← read_varint
  left ← remaining
  check (not (ltb left len)) buffer_too_short
  content ← slice len
  skip len
  return (Frame.crypto offset len content)

unfoldable pub decode_stream : ℕ → Decoder Frame
unfolding slice
decode_stream first = do
  stream_id ← read_varint
  offset ← if bit 2 first then read_varint else return 0
  len ← if bit 1 first then read_varint else remaining
  check (ltb (add64 offset len) max_stream_size) frame_encoding_error
  left ← remaining
  check (not (ltb left len)) buffer_too_short
  content ← slice len
  skip len
  return (Frame.stream stream_id offset len (bit 0 first) content)

unfoldable pub decode_new_connection_id : Decoder Frame
decode_new_connection_id = do
  seq_num ← read_varint
  retire_prior_to ← read_varint
  cid ← read_with_u8_length
  reset_token ← read 16
  return (Frame.new_connection_id seq_num retire_prior_to (Cid.new cid) reset_token)

-- Frames of one, two or three numbers.
abbrev pub number : (ℕ → Frame) → Decoder Frame
number f = do a ← read_varint; return (f a)

abbrev pub numbers : (ℕ → ℕ → Frame) → Decoder Frame
numbers f = do a ← read_varint; b ← read_varint; return (f a b)

abbrev pub three_numbers : (ℕ → ℕ → ℕ → Frame) → Decoder Frame
three_numbers f = do a ← read_varint; b ← read_varint; c ← read_varint; return (f a b c)

unfoldable pub decode_close : Decoder Frame
decode_close = do
  error_code ← read_varint
  frame_type ← read_varint
  reason ← read_with_varint_length
  return (Frame.connection_close error_code frame_type reason)

unfoldable pub decode_application_close : Decoder Frame
decode_application_close = do
  error_code ← read_varint
  reason ← read_with_varint_length
  return (Frame.application_close error_code reason)

unfoldable pub decode_abandon : Decoder Frame
decode_abandon = do
  dcid_seq_num ← read_varint
  error_code ← read_varint
  reason ← read_with_varint_length
  return (Frame.path_abandon dcid_seq_num error_code reason)

-- The types from 0x18 on.
unfoldable pub decode_high : ℕ → Decoder Frame
unfolding decode_new_connection_id decode_close decode_application_close decode_abandon
decode_high t =
    if t == 0x18
    then decode_new_connection_id
    else if t == 0x19
    then number Frame.retire_connection_id
    else if t == 0x1a
    then (do content ← read 8; return (Frame.path_challenge content))
    else if t == 0x1b
    then (do content ← read 8; return (Frame.path_response content))
    else if t == 0x1c
    then decode_close
    else if t == 0x1d
    then decode_application_close
    else if t == 0x1e
    then return Frame.handshake_done
    else if t == 0x15228c05
    then decode_abandon
    else if t == 0x15228c06
    then three_numbers Frame.path_status
    else λ _. err frame_encoding_error

-- The types from 0x10 to 0x17, and those above.
unfoldable pub decode_middle : ℕ → Decoder Frame
unfolding decode_high
decode_middle t =
    if t == 0x10
    then number Frame.max_data
    else if t == 0x11
    then numbers Frame.max_stream_data
    else if t == 0x12
    then number (Frame.max_streams true)
    else if t == 0x13
    then number (Frame.max_streams false)
    else if t == 0x14
    then number Frame.data_blocked
    else if t == 0x15
    then numbers Frame.stream_data_blocked
    else if t == 0x16
    then number (Frame.streams_blocked true)
    else if t == 0x17
    then number (Frame.streams_blocked false)
    else decode_high t

-- The `match frame_type` of `from_bytes`.
unfoldable pub decode_frame : ℕ → Decoder Frame
unfolding decode_paddings decode_ack decode_crypto decode_stream decode_middle
decode_frame t =
    if t == 0x00
    then decode_paddings 1
    else if t == 0x01
    then return (Frame.ping none)
    else if t == 0x02 || t == 0x03
    then decode_ack t
    else if t == 0x04
    then three_numbers Frame.reset_stream
    else if t == 0x05
    then numbers Frame.stop_sending
    else if t == 0x06
    then decode_crypto
    else if t == 0x07
    then (do token ← read_with_varint_length; return (Frame.new_token token))
    else if leb 0x08 t && leb t 0x0f
    then decode_stream t
    else decode_middle t

-- The frame at the front of a packet's payload, and the number of its bytes.
unfoldable pub from_bytes : List ℕ → PacketType → Result (Frame × ℕ)
unfolding decode_frame
from_bytes buf pkt =
    Error.◌>>=◌ ((read_varint >>= decode_frame) buf) (λ r.
      if validate_frame pkt r.0 then ok (r.0, length buf - length r.1) else err invalid_packet)
