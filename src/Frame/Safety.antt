-- ===== src/Frame/Safety.antt =====
-- `from_bytes` on any bytes: it fails or returns a frame, and does not panic.
use raw_quic.Prelude.{
  Bool, List, Option, arith, false, if◌then◌else◌, leb, length, length-drop, ltb, none, not, suc,
  true, zero, ℕ, ◌&&◌, ◌+◌, ◌-◌, ◌==◌, ◌||◌, ◌≡◌, ◌≤◌,
}
use raw_quic.Error.{Result, ok, err, panic, frame_encoding_error, Error, invalid_packet}
use raw_quic.Cid.{new-short}
use raw_quic.Ranges
use raw_quic.Codec.Decoder.{
  read, read_with_varint_length, read_with_u8_length, Decoder, ◌>>=◌, ◌>>◌, return, skip,
  read_varint,
}
use raw_quic.Codec.Safety.{
  bind-Safe, bind-Ensures, read-Safe, read_with_varint_length-Safe, read_with_u8_length-Safe,
  Ensures, if-Ensures, Left, Safe, step-Safe, Any, read_varint-Safe, drop-IsBytes, IsBytes,
}
use raw_quic.Frame.{Frame, PacketType, EcnCounts, RangeSet, validate_frame}
use raw_quic.Cid
use raw_quic.Error
use raw_quic.Frame.Decode.{
  decode_frame, decode_middle, decode_high, from_bytes, decode_new_connection_id, decode_close,
  decode_application_close, decode_abandon, decode_ack, parse_ack_frame, parse_ack_fields,
  parse_ack_blocks, parse_ecn, check, bit,
}
use raw_quic.Frame.Readers.{
  Reader, IsDecoded, return-Reader, check-Safe, paddings-Reader, number-Reader, numbers-Reader,
  three-Reader, crypto-Reader, stream-Reader,
}

blocks-Safe :
    (n smallest_ack : ℕ) (ranges : RangeSet)
    → Safe {A = RangeSet} Any 0 (parse_ack_blocks n smallest_ack ranges)
unfolding parse_ack_blocks
blocks-Safe zero smallest_ack ranges = λ s b. (tt, (b, omega arith))
blocks-Safe (suc n) smallest_ack ranges =
    step-Safe {A = ℕ} {B = RangeSet} Any Any 1 read_varint _ read_varint-Safe (λ gap _.
      step-Safe {A = Unit {0}} {B = RangeSet} Any Any 0
        (check (not (ltb smallest_ack (2 + gap))) frame_encoding_error) _
        (passes (not (ltb smallest_ack (2 + gap))))
        (λ _ _. step-Safe {A = ℕ} {B = RangeSet} Any Any 1 read_varint _ read_varint-Safe (λ len _.
          step-Safe {A = Unit {0}} {B = RangeSet} Any Any 0
            (check (not (ltb (smallest_ack - gap - 2) len)) frame_encoding_error) _
            (passes (not (ltb (smallest_ack - gap - 2) len)))
            (λ _ _.
              blocks-Safe n (smallest_ack - gap - 2 - len) (
                Ranges.insert (smallest_ack - gap - 2 - len, smallest_ack - gap - 2 + 1) ranges)))))
  where
    passes : (test : Bool) → Safe {A = Unit {0}} Any 0 (check test frame_encoding_error)
    passes true s b = (tt, (b, omega arith))
    passes false s b = tt

ecn-Safe : (b : Bool) → Safe {A = Option EcnCounts} Any 0 (parse_ecn b)
unfolding parse_ecn
ecn-Safe false = λ s b. (tt, (b, omega arith))
ecn-Safe true =
    step-Safe {A = ℕ} {B = Option EcnCounts} Any Any 1 read_varint _ read_varint-Safe (λ a _.
      step-Safe {A = ℕ} {B = Option EcnCounts} Any Any 1 read_varint _ read_varint-Safe (λ c _.
        step-Safe {A = ℕ} {B = Option EcnCounts} Any Any 1 read_varint _ read_varint-Safe
          (λ d _ s b. (tt, (b, omega arith)))))

ack_fields-Reader : (t : ℕ) → Reader (parse_ack_fields t)
unfolding parse_ack_fields
ack_fields-Reader t =
    step-Safe {A = ℕ} Any IsDecoded 1 read_varint _ read_varint-Safe (λ largest_ack _.
      step-Safe {A = ℕ} Any IsDecoded 1 read_varint _ read_varint-Safe (λ ack_delay _.
        step-Safe {A = ℕ} Any IsDecoded 1 read_varint _ read_varint-Safe (λ range_count _.
          step-Safe {A = ℕ} Any IsDecoded 1 read_varint _ read_varint-Safe (λ len _.
            step-Safe {A = Unit {0}} (λ _. not (ltb largest_ack len) ≡ true) IsDecoded 0
              (check (not (ltb largest_ack len)) frame_encoding_error) _
              (check-Safe (not (ltb largest_ack len)) frame_encoding_error)
              (λ _ _.
                step-Safe {A = RangeSet} Any IsDecoded 0
                  (parse_ack_blocks range_count (largest_ack - len)
                    (Ranges.insert (largest_ack - len, largest_ack + 1) Ranges.default))
                  _
                  (blocks-Safe range_count (largest_ack - len)
                    (Ranges.insert (largest_ack - len, largest_ack + 1) Ranges.default))
                  (λ ranges _.
                    step-Safe {A = Option EcnCounts} Any IsDecoded 0 (parse_ecn (bit 0 t)) _
                      (ecn-Safe (bit 0 t))
                      (λ ecn _. return-Reader (Frame.ack ack_delay ranges ecn) tt)))))))

-- The bytes that `parse_ack_frame` read are skipped in the caller's buffer.
skip_back :
    (b rest : List ℕ) (f : Frame)
    → IsBytes b
    → IsDecoded f
    → Ensures {A = Frame × List ℕ}
        (λ r. IsDecoded r.0 × Left 0 b r.1)
        ((skip (length b - length rest) >> return f) b)
unfolding skip
skip_back b rest f h d =
    let e : ltb (length b) (length b - length rest) ≡ false = ground arith in
    rw e (
      d,
      (
        drop-IsBytes (length b - length rest) b h,
        omega (arith, length-drop (length b - length rest) b),
      ),
    )

ack-Reader : (t : ℕ) → Reader (decode_ack t)
unfolding decode_ack parse_ack_frame
ack-Reader t s b = answer (parse_ack_fields t s) (ack_fields-Reader t s b)
  where
    answer :
        (r : Result (Frame × List ℕ))
        → Ensures (λ r. IsDecoded r.0 × Left 0 s r.1) r
        → Ensures {A = Frame × List ℕ}
            (λ r. IsDecoded r.0 × Left 0 s r.1)
            (Error.◌>>=◌
              (Error.◌>>=◌ {B = Frame × ℕ} r (λ r. ok (r.0, length s - length r.1)))
              (λ r. (skip r.1 >> return r.0) s))
    answer (ok r) p = skip_back s r.1 r.0 b p.0
    answer (err e) p = tt
    answer panic p = p

new_connection_id-Reader : Reader decode_new_connection_id
unfolding decode_new_connection_id
new_connection_id-Reader =
    step-Safe {A = ℕ} Any IsDecoded 1 read_varint _ read_varint-Safe (λ seq_num _.
      step-Safe {A = ℕ} Any IsDecoded 1 read_varint _ read_varint-Safe (λ retire _.
        step-Safe {A = List ℕ} IsBytes IsDecoded 1 read_with_u8_length _ read_with_u8_length-Safe
          (λ cid _.
            step-Safe {A = List ℕ} (λ v. IsBytes v × (length v ≡ 16)) IsDecoded 16 (read 16) _
              (read-Safe 16)
              (λ token p.
                return-Reader (Frame.new_connection_id seq_num retire (Cid.new cid) token)
                  (new-short cid, p.1)))))

-- Bytes behind their length, at the end of a frame.
reason-Reader :
    (f : List ℕ → Frame)
    → ((c : List ℕ) → IsDecoded (f c))
    → Reader (do c ← read_with_varint_length; return (f c))
reason-Reader f h =
    step-Safe {A = List ℕ} IsBytes IsDecoded 1 read_with_varint_length _
      read_with_varint_length-Safe (λ c _. return-Reader (f c) (h c))

eight-Reader :
    (f : List ℕ → Frame)
    → ((c : List ℕ) → length c ≡ 8 → IsDecoded (f c))
    → Reader (do c ← read 8; return (f c))
eight-Reader f h =
    step-Safe {A = List ℕ} (λ v. IsBytes v × (length v ≡ 8)) IsDecoded 8 (read 8) _ (read-Safe 8)
      (λ c p. return-Reader (f c) (h c p.1))

close-Reader : Reader decode_close
unfolding decode_close
close-Reader = step-Safe {A = ℕ} Any IsDecoded 1 read_varint _ read_varint-Safe (λ a _.
    step-Safe {A = ℕ} Any IsDecoded 1 read_varint _ read_varint-Safe
      (λ b _. reason-Reader (Frame.connection_close a b) (λ c. tt)))

application_close-Reader : Reader decode_application_close
unfolding decode_application_close
application_close-Reader =
    step-Safe {A = ℕ} Any IsDecoded 1 read_varint _ read_varint-Safe
      (λ a _. reason-Reader (Frame.application_close a) (λ c. tt))

abandon-Reader : Reader decode_abandon
unfolding decode_abandon
abandon-Reader = step-Safe {A = ℕ} Any IsDecoded 1 read_varint _ read_varint-Safe (λ a _.
    step-Safe {A = ℕ} Any IsDecoded 1 read_varint _ read_varint-Safe
      (λ b _. reason-Reader (Frame.path_abandon a b) (λ c. tt)))

-- A choice between two readers.
if-Reader :
    (test : Bool) (m k : Decoder Frame) → Reader m → Reader k → Reader (if test then m else k)
if-Reader true m k h g = h
if-Reader false m k h g = g

high-Reader : (t : ℕ) → Reader (decode_high t)
unfolding decode_high
high-Reader t =
    (if-Reader (t == 0x18) _ _ new_connection_id-Reader (
      if-Reader (t == 0x19) _ _ (number-Reader Frame.retire_connection_id (λ a. tt)) (
        if-Reader (t == 0x1a) _ _ (eight-Reader Frame.path_challenge (λ c e. e)) (
          if-Reader (t == 0x1b) _ _ (eight-Reader Frame.path_response (λ c e. e)) (
            if-Reader (t == 0x1c) _ _ close-Reader (
              if-Reader (t == 0x1d) _ _ application_close-Reader (
                if-Reader (t == 0x1e) _ _ (return-Reader Frame.handshake_done tt) (
                  if-Reader (t == 0x15228c05) _ _ abandon-Reader (
                    if-Reader (t == 0x15228c06) _ _ (three-Reader Frame.path_status (λ a b c. tt))
                      (λ s b. tt))))))))))

middle-Reader : (t : ℕ) → Reader (decode_middle t)
unfolding decode_middle
middle-Reader t =
    (if-Reader (t == 0x10) _ _ (number-Reader Frame.max_data (λ a. tt)) (
      if-Reader (t == 0x11) _ _ (numbers-Reader Frame.max_stream_data (λ a b. tt)) (
        if-Reader (t == 0x12) _ _ (number-Reader (Frame.max_streams true) (λ a. tt)) (
          if-Reader (t == 0x13) _ _ (number-Reader (Frame.max_streams false) (λ a. tt)) (
            if-Reader (t == 0x14) _ _ (number-Reader Frame.data_blocked (λ a. tt)) (
              if-Reader (t == 0x15) _ _ (numbers-Reader Frame.stream_data_blocked (λ a b. tt)) (
                if-Reader (t == 0x16) _ _ (number-Reader (Frame.streams_blocked true) (λ a. tt)) (
                  if-Reader (t == 0x17) _ _ (number-Reader (Frame.streams_blocked false) (λ a. tt))
                    (high-Reader t)))))))))

frame-Reader : (t : ℕ) → Reader (decode_frame t)
unfolding decode_frame
frame-Reader t =
    (if-Reader (t == 0x00) _ _ (paddings-Reader 1) (
      if-Reader (t == 0x01) _ _ (return-Reader (Frame.ping none) tt) (
        if-Reader (t == 0x02 || t == 0x03) _ _ (ack-Reader t) (
          if-Reader (t == 0x04) _ _ (three-Reader Frame.reset_stream (λ a b c. tt)) (
            if-Reader (t == 0x05) _ _ (numbers-Reader Frame.stop_sending (λ a b. tt)) (
              if-Reader (t == 0x06) _ _ crypto-Reader (
                if-Reader (t == 0x07) _ _ (reason-Reader Frame.new_token (λ c. tt)) (
                  if-Reader (leb 0x08 t && leb t 0x0f) _ _ (stream-Reader t)
                    (middle-Reader t)))))))))

-- Reading a frame from any bytes whatever does not panic. It fails, or returns a frame that the type of
-- the packet may carry, with the number of its bytes, at least one and no more than there are; the
-- lengths that the frame declares are those of what it carries, its identifier has at most 20 bytes,
-- and its stream data ends below the largest offset.
pub from_bytes-Ensures :
    (buf : List ℕ) (pkt : PacketType)
    → IsBytes buf
    → Ensures {A = Frame × ℕ}
        (λ r. IsDecoded r.0 × (validate_frame pkt r.0 ≡ true) × (1 ≤ r.1) × (r.1 ≤ length buf))
        (from_bytes buf pkt)
unfolding from_bytes
from_bytes-Ensures buf pkt b =
    bind-Ensures (λ r. IsDecoded r.0 × Left 1 buf r.1)
      (λ r. IsDecoded r.0 × (validate_frame pkt r.0 ≡ true) × (1 ≤ r.1) × (r.1 ≤ length buf))
      ((read_varint >>= decode_frame) buf)
      (λ r.
        if validate_frame pkt r.0 then ok (r.0, length buf - length r.1) else err invalid_packet)
      (bind-Safe {A = ℕ} Any IsDecoded 1 0 read_varint decode_frame read_varint-Safe
        (λ t _. frame-Reader t) buf b)
      (λ r p.
        if-Ensures {A = Frame × ℕ}
          (λ r. IsDecoded r.0 × (validate_frame pkt r.0 ≡ true) × (1 ≤ r.1) × (r.1 ≤ length buf))
          (validate_frame pkt r.0) (ok (r.0, length buf - length r.1)) (err invalid_packet)
          (λ v. (p.0, v, omega (arith, p.1.1), omega arith)) (λ _. tt))
