-- ===== src/Codec.antt =====
-- QUIC wire data (src/codec.rs): the lengths of variable-length integers. The writer and the reader
-- are the children Encoder and Decoder.
pub mod Encoder
pub mod Decoder
pub mod Bytes
pub mod VarintBytes
pub mod RoundTrip
pub mod Emitting
pub mod Reading
pub mod Safety
use raw_quic.Prelude.{ℕ, ◌-◌, ◌/◌, ◌^◌, ltb, leb, ◌==◌, if◌then◌else◌}
use raw_quic.Error.{Result, ok, panic}

abbrev pub vint_max : ℕ
vint_max = 4_611_686_018_427_387_903

-- The length of a varint by its first byte. The last case is `unreachable!()`.
unfoldable pub decode_varint_len : ℕ → Result ℕ
decode_varint_len first =
    let tag = first / 2 ^ 6 in
    if tag == 0
    then ok 1
    else if tag == 1
    then ok 2
    else if tag == 2
    then ok 4
    else if tag == 3
    then ok 8
    else panic

-- The length of the encoding of a number; `unreachable!()` above the largest one.
unfoldable pub encode_varint_len : ℕ → Result ℕ
encode_varint_len n =
    if leb n 63
    then ok 1
    else if leb n 16383
    then ok 2
    else if leb n 1_073_741_823
    then ok 4
    else if leb n 4_611_686_018_427_387_903
    then ok 8
    else panic
