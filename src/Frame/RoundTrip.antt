-- ===== src/Frame/RoundTrip.antt =====
-- `from_bytes` returns the frame that `to_bytes` wrote.
use raw_quic.Prelude.{
  Bool, List, [], ap, append_assoc, arith, false, if◌then◌else◌, length, length-append, ltb, none,
  refl, some, sym, true, ℕ, ◌++◌, ◌-◌, ◌∙◌, ◌≡◌,
}
use raw_quic.Error.{Result, ok, err, buffer_too_short}
use raw_quic.Codec.Decoder.{read_varint}
use raw_quic.Codec.VarintBytes.{varint_bytes}
use raw_quic.Codec.RoundTrip.{read_varint-bytes}
use raw_quic.Ranges.{usize_max}
use raw_quic.Frame.{Frame, PacketType, validate_frame}
use raw_quic.Frame.Decode.{decode_frame, from_bytes}
use raw_quic.Frame.Format.{frame_type, payload, frame_bytes, IsWellFormed, Fits}
use raw_quic.Frame.Reads.{
  NoZero, one-Reads, two-Reads, three-Reads, vec-Reads_last, bytes_Reads_last, crypto-Reads,
  stream-Reads, new_connection_id-Reads, paddings-Reads, number_Reads_then,
}
use raw_quic.Codec.Encoder.{Writer, put}
use raw_quic.Frame.Encode.{to_bytes}
use raw_quic.Frame.Size.{to_bytes_lem, wire_len-bytes}
use raw_quic.Frame.AckReads.{ack-Reads}

-- What the wire does not carry: the probe of a PING, the capacity of a set, and where the padding
-- ends if more zeros follow.
abbrev pub IsCarried : Frame → List ℕ → Type 0
IsCarried (Frame.paddings _) rest = NoZero rest
IsCarried (Frame.ping probe) rest = probe ≡ none
IsCarried (Frame.ack _ ranges _) rest = ranges.capacity ≡ usize_max
IsCarried _ rest = Unit {0}

max_streams-reads :
    (bidi : Bool) (m : ℕ) (rest : List ℕ)
    → Fits m
    → decode_frame (if bidi then 0x12 else 0x13) (varint_bytes m ++ [] ++ rest)
      ≡ ok (Frame.max_streams bidi m, rest)
unfolding decode_frame
max_streams-reads true m rest h = one-Reads (Frame.max_streams true) m h rest
max_streams-reads false m rest h = one-Reads (Frame.max_streams false) m h rest

streams_blocked-reads :
    (bidi : Bool) (m : ℕ) (rest : List ℕ)
    → Fits m
    → decode_frame (if bidi then 0x16 else 0x17) (varint_bytes m ++ [] ++ rest)
      ≡ ok (Frame.streams_blocked bidi m, rest)
unfolding decode_frame
streams_blocked-reads true m rest h = one-Reads (Frame.streams_blocked true) m h rest
streams_blocked-reads false m rest h = one-Reads (Frame.streams_blocked false) m h rest

-- The payload of each type is read back.
payload-reads :
    (f : Frame) (rest : List ℕ)
    → IsWellFormed f
    → IsCarried f rest
    → decode_frame (frame_type f) (payload f ++ rest) ≡ ok (f, rest)
unfolding decode_frame payload
payload-reads (Frame.paddings len) rest h c =
    paddings-Reads (len - 1) 1 rest c ∙ ap (λ (k : ℕ). ok (Frame.paddings k, rest)) (omega arith)
payload-reads (Frame.ping probe) rest h c = rw c
payload-reads (Frame.ack ack_delay r none) rest h c =
    ack-Reads 0x02 ack_delay r none h.0 h.1 h.2 c refl rest
payload-reads (Frame.ack ack_delay r (some n)) rest h c =
    ack-Reads 0x03 ack_delay r (some n) h.0 h.1 h.2 c refl rest
payload-reads (Frame.reset_stream a b d) rest h c =
    three-Reads Frame.reset_stream a b d h.0 h.1 h.2 rest
payload-reads (Frame.stop_sending a b) rest h c = two-Reads Frame.stop_sending a b h.0 h.1 rest
payload-reads (Frame.crypto offset len content) rest h c = crypto-Reads offset len content h rest
payload-reads (Frame.new_token token) rest h c = vec-Reads_last token Frame.new_token h rest
payload-reads (Frame.stream a offset len true content) rest h c =
    stream-Reads a offset len true content h rest
payload-reads (Frame.stream a offset len false content) rest h c =
    stream-Reads a offset len false content h rest
payload-reads (Frame.max_data m) rest h c = one-Reads Frame.max_data m h rest
payload-reads (Frame.max_stream_data a m) rest h c =
    two-Reads Frame.max_stream_data a m h.0 h.1 rest
payload-reads (Frame.max_streams bidi m) rest h c = max_streams-reads bidi m rest h
payload-reads (Frame.data_blocked m) rest h c = one-Reads Frame.data_blocked m h rest
payload-reads (Frame.stream_data_blocked a m) rest h c =
    two-Reads Frame.stream_data_blocked a m h.0 h.1 rest
payload-reads (Frame.streams_blocked bidi m) rest h c = streams_blocked-reads bidi m rest h
payload-reads (Frame.new_connection_id a b cid token) rest h c =
    new_connection_id-Reads a b cid token h rest
payload-reads (Frame.retire_connection_id a) rest h c =
    one-Reads Frame.retire_connection_id a h rest
payload-reads (Frame.path_challenge content) rest h c =
    bytes_Reads_last 8 content Frame.path_challenge h rest
payload-reads (Frame.path_response content) rest h c =
    bytes_Reads_last 8 content Frame.path_response h rest
payload-reads (Frame.connection_close a b reason) rest h c =
    number_Reads_then a _ _ _ h.0
      (number_Reads_then b _ _ _ h.1 (vec-Reads_last reason (Frame.connection_close a b) h.2)) rest
payload-reads (Frame.application_close a reason) rest h c =
    number_Reads_then a _ _ _ h.0 (vec-Reads_last reason (Frame.application_close a) h.1) rest
payload-reads Frame.handshake_done rest h c = refl
payload-reads (Frame.path_abandon a b reason) rest h c =
    number_Reads_then a _ _ _ h.0
      (number_Reads_then b _ _ _ h.1 (vec-Reads_last reason (Frame.path_abandon a b) h.2)) rest
payload-reads (Frame.path_status a b d) rest h c =
    three-Reads Frame.path_status a b d h.0 h.1 h.2 rest

frame_type-Fits : (f : Frame) → Fits (frame_type f)
frame_type-Fits f = ground arith

-- A well-formed frame that a packet may carry is read back from its format, whatever follows it,
-- with the number of its bytes.
pub from_bytes-frame_bytes :
    (f : Frame) (pkt : PacketType) (rest : List ℕ)
    → IsWellFormed f
    → IsCarried f rest
    → validate_frame pkt f ≡ true
    → from_bytes (frame_bytes f ++ rest) pkt ≡ ok (f, length (frame_bytes f))
unfolding from_bytes frame_bytes
from_bytes-frame_bytes f pkt rest h c v =
    let k : length ((varint_bytes (frame_type f) ++ payload f) ++ rest) - length rest
        ≡ length (varint_bytes (frame_type f) ++ payload f) =
      omega (arith, length-append (varint_bytes (frame_type f) ++ payload f) rest) in
    rw (
      ap read_varint (append_assoc (varint_bytes (frame_type f)) (payload f) rest),
      read_varint-bytes (frame_type f) (payload f ++ rest) (frame_type-Fits f),
      payload-reads f rest h c,
      v,
      k,
    )

-- What `to_bytes` wrote into an empty buffer, for a well-formed frame that the packet may carry and
-- that holds nothing the wire does not carry, `from_bytes` reads back, whatever follows it (no zero
-- behind padding): the same frame, and the number of bytes that `to_bytes` returned.
pub from_bytes-to_bytes :
    (f : Frame) (pkt : PacketType) (rest : List ℕ) (room n : ℕ) (w : Writer)
    → IsWellFormed f
    → IsCarried f rest
    → validate_frame pkt f ≡ true
    → to_bytes f (record { out = []; room = room }) ≡ ok (n, w)
    → from_bytes (w.out ++ rest) pkt ≡ ok (f, n)
from_bytes-to_bytes f pkt rest room n w h c v e =
    let (bytes, count) = written in rw (bytes, count) (from_bytes-frame_bytes f pkt rest h c v)
  where
    size : ℕ
    size = length (frame_bytes f)

    start : Writer
    start = record { out = []; room = room }

    answer : Result (ℕ × Writer)
    answer = if ltb room size then err buffer_too_short else ok (size, put (frame_bytes f) start)

    shape : answer ≡ ok (n, w)
    shape = sym (to_bytes_lem f start size h (wire_len-bytes f h)) ∙ e

    written : (w.out ≡ frame_bytes f) × (n ≡ size)
    written = ground (arith, shape)
