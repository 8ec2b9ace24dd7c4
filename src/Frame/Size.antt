-- ===== src/Frame/Size.antt =====
-- `wire_len` is the length of the format, and `to_bytes` returns it.
use raw_quic.Prelude.{
  All, Bool, List, Option, [], ap, arith, false, if◌then◌else◌, length, length-append,
  length-replicate, ltb, none, refl, reverse, some, sub64, sym, true, ℕ, ◌++◌, ◌+◌, ◌-◌, ◌<◌, ◌^◌,
  ◌∙◌, ◌∷◌, ◌≡◌, ◌≢◌, ◌≤◌,
}
use raw_quic.Frame.Writes.{frame-Emits}
use raw_quic.Codec.Encoder.{Writer, put}
use raw_quic.Frame.Encode.{to_bytes, encode_frame}
use raw_quic.Codec.Bytes.{length-be_bytes}
use raw_quic.Error
use raw_quic.Error.{panic, ok, err, buffer_too_short, Result}
use raw_quic.Codec.{encode_varint_len}
use raw_quic.Codec.VarintBytes.{
  varint_bytes, encode_varint_len-size, length-varint_bytes, after, emit,
}
use raw_quic.Ranges.Entries.{Map}
use raw_quic.Cid.{as_bytes}
use raw_quic.Frame.{Frame, RangeSet, EcnCounts}
use raw_quic.Frame.Wire.{lens, ack_blocks_len, wire_len, ecn_len, plus, ack_len}
use raw_quic.Frame.Format.{
  frame_bytes, IsWellFormed, Fits, blocks, FitsEcn, IsAckable, ecn_bytes, ack_bytes,
}
use raw_quic.Frame.Ack.{Down, top, reverse-ne-nil, Above→Down, length-reverse_ranges}

size : (n : ℕ) → Fits n → encode_varint_len n ≡ ok (length (varint_bytes n))
size n h = rw (length-varint_bytes n) (encode_varint_len-size n h)

-- The sum of the sizes of numbers.
sizes : List ℕ → ℕ
sizes [] = 0
sizes (n ∷ ns) = length (varint_bytes n) + sizes ns

lens-sizes : (ns : List ℕ) → All Fits ns → lens ns ≡ ok (sizes ns)
unfolding sizes
lens-sizes [] h = refl
lens-sizes (n ∷ ns) h = rw (size n h.0, lens-sizes ns h.1)

blocks_len :
    (lo smallest : ℕ) (m : Map)
    → smallest ≤ top
    → Down lo smallest m
    → ack_blocks_len smallest m ≡ ok (length (blocks smallest m))
unfolding ack_blocks_len
blocks_len lo smallest [] h d = refl
blocks_len lo smallest ((s, e) ∷ m) h d =
    let p : sub64 (sub64 smallest e) 1 ≡ smallest - e - 1 = omega (arith, d) in
    let q : sub64 (sub64 e 1) s ≡ e - 1 - s = omega (arith, d) in
    rw
      (
        p,
        q,
        size (smallest - e - 1) (omega (arith, d)),
        size (e - 1 - s) (omega (arith, d)),
        blocks_len lo s m (omega (arith, d)) d.2,
        length-append,
        length-append,
      )
      (ap ok (omega arith))

ecn_size : (ecn : Option EcnCounts) → FitsEcn ecn → ecn_len ecn ≡ ok (length (ecn_bytes ecn))
unfolding ecn_len sizes
ecn_size none h = refl
ecn_size (some c) h =
    rw (lens-sizes (c.ect0_count ∷ c.ect1_count ∷ c.ecn_ce_count ∷ []) (omega arith))
      (ap ok (omega (arith, length-append {0})))

-- Types below 64 take one byte, and those of the multipath frames four.
type_1 : (t : ℕ) → t < 64 → length (varint_bytes t) ≡ 1
type_1 t h = ground (arith, length-varint_bytes t)

type_4 : (t : ℕ) → 2 ^ 14 ≤ t → t < 2 ^ 30 → length (varint_bytes t) ≡ 4
type_4 t h k = ground (arith, length-varint_bytes t)

ack_size :
    (t ack_delay : ℕ) (m : Map) (ecn : Option EcnCounts)
    → t < 64
    → m ≢ []
    → Down 0 top m
    → Fits ack_delay
    → Fits (length m)
    → FitsEcn ecn
    → ack_len ack_delay m ecn ≡ ok (length (varint_bytes t ++ ack_bytes ack_delay m ecn))
unfolding ack_len sizes
ack_size t ack_delay [] ecn z n d h l c = absurd (n refl)
ack_size t ack_delay ((s, e) ∷ m) ecn z n d h l c =
    let p : sub64 e 1 ≡ e - 1 = omega (arith, d) in
    let q : sub64 (sub64 e 1) s ≡ e - 1 - s = omega (arith, d) in
    rw
      (
        q,
        p,
        lens-sizes ((e - 1) ∷ ack_delay ∷ length m ∷ (e - 1 - s) ∷ []) (omega (arith, d)),
        blocks_len 0 s m (omega (arith, d)) d.2,
        ecn_size ecn c,
      )
      (ap ok (omega (arith, length-append {0}, type_1 t z)))

sized : (k m : ℕ) (ns : List ℕ) → All Fits ns → k + sizes ns ≡ m → plus k (lens ns) ≡ ok m
sized k m ns h e = rw (lens-sizes ns h, e)

two_types : (x : Bool) (a b : ℕ) → a < 64 → b < 64 → (if x then a else b) < 64
two_types true a b p q = p
two_types false a b p q = q

ack_frame :
    (t ack_delay : ℕ) (r : RangeSet) (ecn : Option EcnCounts)
    → t < 64
    → Fits ack_delay
    → IsAckable r
    → FitsEcn ecn
    → ack_len ack_delay (reverse r.set) ecn
      ≡ ok (length (varint_bytes t ++ ack_bytes ack_delay (reverse r.set) ecn))
ack_frame t ack_delay r ecn z h a c =
    ack_size t ack_delay (reverse r.set) ecn z (reverse-ne-nil r.set a.nonempty)
      (Above→Down 0 r.set (omega arith) a.ordered a.bounded) h
      (rw (length-reverse_ranges r.set) a.counted) c

-- `wire_len` of a well-formed frame is the number of bytes of its format.
pub wire_len-bytes : (f : Frame) → IsWellFormed f → wire_len f ≡ ok (length (frame_bytes f))
unfolding wire_len frame_bytes sizes
wire_len-bytes (Frame.paddings len) h = ap ok (
    omega
      (arith, length-append {0}, type_1 0x00 (omega arith), length-replicate {A = ℕ} (len - 1) 0))
wire_len-bytes (Frame.ping _) h =
    ap ok (omega (arith, length-append {0}, type_1 0x01 (omega arith)))
wire_len-bytes (Frame.ack ack_delay ranges none) h =
    ack_frame 0x02 ack_delay ranges none (omega arith) h.0 h.1 h.2
wire_len-bytes (Frame.ack ack_delay ranges (some c)) h =
    ack_frame 0x03 ack_delay ranges (some c) (omega arith) h.0 h.1 h.2
wire_len-bytes (Frame.reset_stream a b c) h =
    sized _ _ (a ∷ b ∷ c ∷ []) (omega arith)
      (omega (arith, length-append {0}, type_1 (0x04) (omega arith)))
wire_len-bytes (Frame.stop_sending a b) h =
    sized _ _ (a ∷ b ∷ []) (omega arith)
      (omega (arith, length-append {0}, type_1 (0x05) (omega arith)))
wire_len-bytes (Frame.crypto offset len content) h = sized _ _ (offset ∷ []) (omega arith) (
    omega (
      arith,
      length-append {0},
      type_1 (0x06) (omega arith),
      length-be_bytes 2 (2 ^ 14 + length content),
    ))
wire_len-bytes (Frame.new_token token) h =
    sized _ _ (length token ∷ []) (omega arith)
      (omega (arith, length-append {0}, type_1 (0x07) (omega arith)))
wire_len-bytes (Frame.stream a b len fin content) h = sized _ _ (a ∷ b ∷ []) (omega arith) (
    omega (
      arith,
      length-append {0},
      type_1 _ (two_types fin 0x0f 0x0e (omega arith) (omega arith)),
      length-be_bytes 2 (2 ^ 14 + length content),
    ))
wire_len-bytes (Frame.max_data m) h =
    sized _ _ (m ∷ []) (omega arith) (omega (arith, length-append {0}, type_1 (0x10) (omega arith)))
wire_len-bytes (Frame.max_stream_data a m) h =
    sized _ _ (a ∷ m ∷ []) (omega arith)
      (omega (arith, length-append {0}, type_1 (0x11) (omega arith)))
wire_len-bytes (Frame.max_streams bidi m) h = sized _ _ (m ∷ []) (omega arith) (
    omega
      (arith, length-append {0}, type_1 _ (two_types bidi 0x12 0x13 (omega arith) (omega arith))))
wire_len-bytes (Frame.data_blocked m) h =
    sized _ _ (m ∷ []) (omega arith) (omega (arith, length-append {0}, type_1 (0x14) (omega arith)))
wire_len-bytes (Frame.stream_data_blocked a m) h =
    sized _ _ (a ∷ m ∷ []) (omega arith)
      (omega (arith, length-append {0}, type_1 (0x15) (omega arith)))
wire_len-bytes (Frame.streams_blocked bidi m) h = sized _ _ (m ∷ []) (omega arith) (
    omega
      (arith, length-append {0}, type_1 _ (two_types bidi 0x16 0x17 (omega arith) (omega arith))))
wire_len-bytes (Frame.new_connection_id a b cid token) h = sized _ _ (a ∷ b ∷ []) (omega arith) (
    omega (
      arith,
      length-append {0},
      type_1 (0x18) (omega arith),
      length-be_bytes 1 (length (as_bytes cid)),
    ))
wire_len-bytes (Frame.retire_connection_id a) h =
    sized _ _ (a ∷ []) (omega arith) (omega (arith, length-append {0}, type_1 (0x19) (omega arith)))
wire_len-bytes (Frame.path_challenge content) h =
    ap ok (omega (arith, length-append {0}, type_1 0x1a (omega arith)))
wire_len-bytes (Frame.path_response content) h =
    ap ok (omega (arith, length-append {0}, type_1 0x1b (omega arith)))
wire_len-bytes (Frame.connection_close a b reason) h =
    sized _ _ (a ∷ b ∷ length reason ∷ []) (omega arith)
      (omega (arith, length-append {0}, type_1 (0x1c) (omega arith)))
wire_len-bytes (Frame.application_close a reason) h =
    sized _ _ (a ∷ length reason ∷ []) (omega arith)
      (omega (arith, length-append {0}, type_1 (0x1d) (omega arith)))
wire_len-bytes Frame.handshake_done h =
    ap ok (omega (arith, length-append {0}, type_1 0x1e (omega arith)))
wire_len-bytes (Frame.path_abandon a b reason) h =
    sized _ _ (a ∷ b ∷ length reason ∷ []) (omega arith)
      (omega (arith, length-append {0}, type_4 0x15228c05 (omega arith) (omega arith)))
wire_len-bytes (Frame.path_status a b c) h =
    sized _ _ (a ∷ b ∷ c ∷ []) (omega arith)
      (omega (arith, length-append {0}, type_4 0x15228c06 (omega arith) (omega arith)))

-- The bytes written between two writers, as `to_bytes` counts them.
abbrev counted : Writer → Writer → Result (ℕ × Writer)
counted w w' = ok (w.room - w'.room, w')

bytes_after :
    (w : Writer) (r : Result (ℕ × Writer))
    → Error.◌>>=◌ r (λ p. counted w p.1) ≡ Error.◌>>=◌ (after r) (counted w)
bytes_after w (ok p) = refl
bytes_after w (err e) = refl
bytes_after w panic = refl

bytes_emitted :
    (w : Writer) (bs : List ℕ)
    → Error.◌>>=◌ (emit bs w) (counted w)
      ≡ (if ltb w.room (length bs) then err buffer_too_short else ok (length bs, put bs w))
bytes_emitted w bs = ground arith

-- A well-formed frame is written in its format, and `to_bytes` returns `wire_len`, if the buffer has
-- that much room; otherwise the buffer is too short. It never panics.
pub to_bytes_lem :
    (f : Frame) (w : Writer) (n : ℕ)
    → IsWellFormed f
    → wire_len f ≡ ok n
    → to_bytes f w ≡ (if ltb w.room n then err buffer_too_short else ok (n, put (frame_bytes f) w))
unfolding to_bytes
to_bytes_lem f w n h e =
    bytes_after w (encode_frame f w)
    ∙ ap (λ (r : Result Writer). Error.◌>>=◌ r (counted w)) (frame-Emits f h w)
    ∙ bytes_emitted w (frame_bytes f)
    ∙ ap (λ (k : ℕ). answer k) (ok-injective (sym (wire_len-bytes f h) ∙ e))
  where
    answer : ℕ → Result (ℕ × Writer)
    answer k = if ltb w.room k then err buffer_too_short else ok (k, put (frame_bytes f) w)

    ok-injective : {a b : ℕ} → ok a ≡ ok b → a ≡ b
    ok-injective h = cc
