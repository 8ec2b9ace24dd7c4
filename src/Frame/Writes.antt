-- ===== src/Frame/Writes.antt =====
-- `to_bytes` writes the format, and `wire_len` is its length.
use raw_quic.Prelude.{
  Bool, List, [], append_assoc, arith, if◌then◌else◌, length, none, refl, replicate, some, suc,
  zero, ℕ, ◌%◌, ◌++◌, ◌-◌, ◌<◌, ◌^◌, ◌∷◌, ◌≡◌, ◌≤◌,
}
use raw_quic.Cid.{as_bytes}
use raw_quic.Frame.Ack.{ack-Emits, three-Emits, two-Emits}
use raw_quic.Frame.{Frame}
use raw_quic.Codec.Encoder.{◌>>◌, write_varint, write, be_bytes, write_u8}
use raw_quic.Codec.VarintBytes.{
  Emits, varint_bytes, varint_2, write-Emits, write_varint_2-Emits, write_u8-Emits,
}
use raw_quic.Codec.Emitting.{Emits-nil, number_then, Emits-then, number_last}
use raw_quic.Frame.Encode.{
  encode_paddings, encode_crypto_header, encode_stream_header, encode_frame,
}
use raw_quic.Frame.Format.{Fits, vec, frame_bytes, IsWellFormed}

vec-Emits :
    (bs : List ℕ) → Fits (length bs) → Emits (vec bs) (do write_varint (length bs); write bs)
vec-Emits bs h = number_then (length bs) bs (write bs) h (write-Emits bs)

zero_byte : varint_bytes 0 ≡ 0 ∷ []
unfolding varint_bytes be_bytes
zero_byte = refl

paddings-Emits : (n : ℕ) → Emits (replicate n 0) (encode_paddings n)
unfolding encode_paddings
paddings-Emits zero = Emits-nil {A = ℕ} 0
paddings-Emits (suc n) =
    rw zero_byte at
      (number_then 0 (replicate n 0) (encode_paddings n) (omega arith) (paddings-Emits n))

-- The headers, whose length stands on two bytes.
crypto_header-Emits :
    (offset len : ℕ)
    → Fits offset
    → len < 2 ^ 14
    → Emits
        (varint_bytes 0x06 ++ (varint_bytes offset ++ varint_2 len))
        (encode_crypto_header offset len)
unfolding encode_crypto_header
crypto_header-Emits offset len h k =
    number_then 0x06 _ _ (omega arith) (number_then offset _ _ h (write_varint_2-Emits len k))

frame_type-Fits : (fin : Bool) (a b : ℕ) → a ≤ 255 → b ≤ 255 → Fits (if fin then a else b)
frame_type-Fits fin a b h k = ground arith

stream_header-Emits :
    (stream_id offset len : ℕ) (fin : Bool)
    → Fits stream_id
    → Fits offset
    → len < 2 ^ 14
    → Emits
        (varint_bytes (if fin then 0x0f else 0x0e)
          ++ (varint_bytes stream_id ++ (varint_bytes offset ++ varint_2 len)))
        (encode_stream_header stream_id offset len fin)
unfolding encode_stream_header
stream_header-Emits stream_id offset len fin g h k =
    number_then (if fin then 0x0f else 0x0e) _ _
      (frame_type-Fits fin 0x0f 0x0e (omega arith) (omega arith))
      (number_then stream_id _ _ g (number_then offset _ _ h (write_varint_2-Emits len k)))

crypto-Emits :
    (offset len : ℕ) (content : List ℕ)
    → IsWellFormed (Frame.crypto offset len content)
    → Emits
        (frame_bytes (Frame.crypto offset len content))
        (encode_crypto_header offset len >> write content)
unfolding frame_bytes
crypto-Emits offset len content h = rw h.1 (
    rw (append_assoc, append_assoc) at
      (Emits-then (varint_bytes 0x06 ++ (varint_bytes offset ++ varint_2 (length content))) content
        (encode_crypto_header offset (length content)) (write content)
        (crypto_header-Emits offset (length content) h.0 h.2) (write-Emits content)))

stream-Emits :
    (stream_id offset len : ℕ) (fin : Bool) (content : List ℕ)
    → IsWellFormed (Frame.stream stream_id offset len fin content)
    → Emits
        (frame_bytes (Frame.stream stream_id offset len fin content))
        (encode_stream_header stream_id offset len fin >> write content)
unfolding frame_bytes
stream-Emits stream_id offset len fin content h = rw h.2 (
    rw (append_assoc, append_assoc, append_assoc) at
      (Emits-then
        (varint_bytes (if fin then 0x0f else 0x0e)
          ++ (varint_bytes stream_id ++ (varint_bytes offset ++ varint_2 (length content))))
        content (encode_stream_header stream_id offset (length content) fin) (write content)
        (stream_header-Emits stream_id offset (length content) fin h.0 h.1 h.3)
        (write-Emits content)))

cid-Emits :
    (octets token : List ℕ)
    → length octets ≤ 20
    → Emits
        (be_bytes 1 (length octets) ++ (octets ++ token))
        (do write_u8 (length octets % 2 ^ 8); write octets; write token)
cid-Emits octets token h =
    let e : length octets % 2 ^ 8 ≡ length octets = omega arith in
    rw e (
      Emits-then (be_bytes 1 (length octets)) (octets ++ token) (write_u8 (length octets)) _
        (write_u8-Emits (length octets))
        (Emits-then octets token (write octets) (write token) (write-Emits octets)
          (write-Emits token)))

-- The writer of a frame appends its type and payload.
pub frame-Emits : (f : Frame) → IsWellFormed f → Emits (frame_bytes f) (encode_frame f)
unfolding frame_bytes encode_frame
frame-Emits (Frame.paddings zero) h = absurd (omega arith)
frame-Emits (Frame.paddings (suc n)) h =
    let e : suc n - 1 ≡ n = omega arith in rw (e, zero_byte) (paddings-Emits (suc n))
frame-Emits (Frame.ping _) h = number_last 0x01 (omega arith)
frame-Emits (Frame.ack ack_delay ranges none) h = ack-Emits ack_delay ranges none h.0 h.1 h.2
frame-Emits (Frame.ack ack_delay ranges (some c)) h =
    ack-Emits ack_delay ranges (some c) h.0 h.1 h.2
frame-Emits (Frame.reset_stream a b c) h =
    number_then 0x04 _ _ (omega arith) (three-Emits a b c h.0 h.1 h.2)
frame-Emits (Frame.stop_sending a b) h = number_then 0x05 _ _ (omega arith) (two-Emits a b h.0 h.1)
frame-Emits (Frame.crypto offset len content) h = crypto-Emits offset len content h
frame-Emits (Frame.new_token token) h = number_then 0x07 _ _ (omega arith) (vec-Emits token h)
frame-Emits (Frame.stream stream_id offset len fin content) h =
    stream-Emits stream_id offset len fin content h
frame-Emits (Frame.max_data m) h = two-Emits 0x10 m (omega arith) h
frame-Emits (Frame.max_stream_data a m) h = three-Emits 0x11 a m (omega arith) h.0 h.1
frame-Emits (Frame.max_streams bidi m) h =
    two-Emits (if bidi then 0x12 else 0x13) m
      (frame_type-Fits bidi 0x12 0x13 (omega arith) (omega arith)) h
frame-Emits (Frame.data_blocked m) h = two-Emits 0x14 m (omega arith) h
frame-Emits (Frame.stream_data_blocked a m) h = three-Emits 0x15 a m (omega arith) h.0 h.1
frame-Emits (Frame.streams_blocked bidi m) h =
    two-Emits (if bidi then 0x16 else 0x17) m
      (frame_type-Fits bidi 0x16 0x17 (omega arith) (omega arith)) h
frame-Emits (Frame.new_connection_id seq_num retire_prior_to cid token) h =
    number_then 0x18 _ _ (omega arith) (
      number_then seq_num _ _ h.0
        (number_then retire_prior_to _ _ h.1 (cid-Emits (as_bytes cid) token h.2)))
frame-Emits (Frame.retire_connection_id a) h = two-Emits 0x19 a (omega arith) h
frame-Emits (Frame.path_challenge content) h =
    number_then 0x1a content (write content) (omega arith) (write-Emits content)
frame-Emits (Frame.path_response content) h =
    number_then 0x1b content (write content) (omega arith) (write-Emits content)
frame-Emits (Frame.connection_close a b reason) h =
    number_then 0x1c _ _ (omega arith)
      (number_then a _ _ h.0 (number_then b _ _ h.1 (vec-Emits reason h.2)))
frame-Emits (Frame.application_close a reason) h =
    number_then 0x1d _ _ (omega arith) (number_then a _ _ h.0 (vec-Emits reason h.1))
frame-Emits Frame.handshake_done h = number_last 0x1e (omega arith)
frame-Emits (Frame.path_abandon a b reason) h =
    number_then 0x15228c05 _ _ (omega arith)
      (number_then a _ _ h.0 (number_then b _ _ h.1 (vec-Emits reason h.2)))
frame-Emits (Frame.path_status a b c) h =
    number_then 0x15228c06 _ _ (omega arith) (three-Emits a b c h.0 h.1 h.2)
