-- ===== src/Examples/Wire.antt =====
-- Runs of the theorems on the wire format and on range sets, at concrete inputs.
use raw_quic.Prelude.{
  List, [], ap, arith, false, length, refl, true, ℕ, ◌&&◌, ◌++◌, ◌+◌, ◌||◌, ◌∙◌, ◌∷◌, ◌≡◌,
}
use raw_quic.Error.{ok}
use raw_quic.Codec.Encoder.{Writer, put, be_bytes}
use raw_quic.Codec.Decoder.{read_varint}
use raw_quic.Codec.VarintBytes.{write_varint_lem, varint_bytes, varint_size}
use raw_quic.Codec.RoundTrip.{read_varint-write_varint}
use raw_quic.Ranges
use raw_quic.Ranges.{RangeSet}
use raw_quic.Ranges.Merge.{Above, covered}
use raw_quic.Ranges.Insert.{insert_lem}
use raw_quic.Ranges.Remove.{remove_lem}
use raw_quic.Ranges.Until.{remove_until_lem}
use raw_quic.Frame.{Frame, PacketType, validate_frame}
use raw_quic.Frame.Encode.{to_bytes}
use raw_quic.Frame.Wire.{wire_len}
use raw_quic.Frame.Decode.{from_bytes}
use raw_quic.Frame.Format.{frame_bytes}
use raw_quic.Frame.Size.{to_bytes_lem, wire_len-bytes}
use raw_quic.Frame.RoundTrip.{from_bytes-to_bytes}

-- Two bytes of stream 4, with their end.
abbrev stream_frame : Frame
stream_frame = Frame.stream 4 0 2 true (7 ∷ 8 ∷ [])

abbrev stream_bytes : List ℕ
stream_bytes = 0x0f ∷ 4 ∷ 0 ∷ 0x40 ∷ 2 ∷ 7 ∷ 8 ∷ []

stream_frame_bytes : frame_bytes stream_frame ≡ stream_bytes
unfolding frame_bytes varint_bytes be_bytes
stream_frame_bytes = refl

stream_wire_len : wire_len stream_frame ≡ ok 7
stream_wire_len =
    wire_len-bytes stream_frame (omega arith)
    ∙ ap (λ (bs : List ℕ). ok (length bs)) stream_frame_bytes

abbrev buffer : Writer
buffer = record { out = []; room = 10 }

to_bytes_lem_example : to_bytes stream_frame buffer ≡ ok (7, put (frame_bytes stream_frame) buffer)
to_bytes_lem_example = to_bytes_lem stream_frame buffer 7 (omega arith) stream_wire_len

stream_frame_written : to_bytes stream_frame buffer ≡ ok (7, put stream_bytes buffer)
unfolding frame_bytes varint_bytes be_bytes
stream_frame_written = to_bytes_lem stream_frame buffer 7 (omega arith) stream_wire_len

from_bytes-to_bytes_example :
    from_bytes (stream_bytes ++ (1 ∷ [])) PacketType.one_rtt ≡ ok (stream_frame, 7)
unfolding validate_frame
from_bytes-to_bytes_example =
    from_bytes-to_bytes stream_frame PacketType.one_rtt (1 ∷ []) 10 7 (put stream_bytes buffer)
      (omega arith) tt (refl) stream_frame_written

read_varint-write_varint_example :
    (read_varint (0x41 ∷ 0x2c ∷ 9 ∷ []) ≡ ok (300, 9 ∷ [])) × (8 + varint_size 300 ≡ 10)
unfolding varint_bytes be_bytes
read_varint-write_varint_example =
    read_varint-write_varint 300 10 (put (0x41 ∷ 0x2c ∷ []) buffer) (9 ∷ []) (omega arith)
      (write_varint_lem 300 buffer (omega arith))

-- The numbers 1 to 3 and 6 to 8.
abbrev two_ranges : RangeSet
two_ranges = record { set = (1, 4) ∷ (6, 9) ∷ []; capacity = 10 }

insert_lem_example :
    Above 0 (Ranges.insert (4, 6) two_ranges).set
    × ((Ranges.insert (4, 6) two_ranges).capacity ≡ 10)
    × (covered (Ranges.insert (4, 6) two_ranges).set 5 ≡ (true || covered ((1, 4) ∷ (6, 9) ∷ []) 5))
insert_lem_example = insert_lem 4 6 5 two_ranges (omega arith) (omega arith)

remove_lem_example :
    Above 0 (Ranges.remove (2, 7) two_ranges).set
    × ((Ranges.remove (2, 7) two_ranges).capacity ≡ 10)
    × (covered (Ranges.remove (2, 7) two_ranges).set 3
        ≡ (covered ((1, 4) ∷ (6, 9) ∷ []) 3 && false))
remove_lem_example = remove_lem 2 7 3 two_ranges (omega arith) (omega arith)

remove_until_lem_example :
    Above 0 (Ranges.remove_until 6 two_ranges).set
    × ((Ranges.remove_until 6 two_ranges).capacity ≡ 10)
    × (covered (Ranges.remove_until 6 two_ranges).set 8
        ≡ (covered ((1, 4) ∷ (6, 9) ∷ []) 8 && true))
remove_until_lem_example = remove_until_lem 6 8 two_ranges (omega arith) (omega arith)
