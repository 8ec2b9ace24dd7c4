-- ===== src/Codec/Reading.antt =====
-- Readers in sequence: what they take from the front, joined.
use raw_quic.Prelude.{List, [], append_assoc, length, refl, ℕ, ◌++◌, ◌<◌, ◌≡◌, ◌≤◌}
use raw_quic.Error.{ok}
use raw_quic.Codec.{vint_max}
use raw_quic.Codec.Encoder.{be_bytes}
use raw_quic.Codec.Decoder.{
  read_u8, read_with_u8_length, Decoder, ◌>>=◌, return, read_varint, read_with_varint_length, read,
}
use raw_quic.Codec.VarintBytes.{varint_bytes}
use raw_quic.Codec.RoundTrip.{read_u8-bytes, read_varint-bytes, read-append}

-- The reader takes `bs` from the front of any input, and returns `a`.
abbrev pub Reads : {A : Type 0} → A → List ℕ → Decoder A → Type 0
Reads a bs m = (rest : List ℕ) → m (bs ++ rest) ≡ ok (a, rest)

pub Reads-bind :
    {A B : Type 0} (a : A) (b : B) (bs cs : List ℕ) (m : Decoder A) (k : A → Decoder B)
    → Reads a bs m
    → Reads b cs (k a)
    → Reads b (bs ++ cs) (m >>= k)
Reads-bind a b bs cs m k h g rest = rw (append_assoc bs cs rest, h (cs ++ rest)) (g rest)

pub Reads-return : {A : Type 0} (a : A) → Reads a [] (return a)
Reads-return a rest = refl

pub read_varint-Reads : (n : ℕ) → n ≤ vint_max → Reads n (varint_bytes n) read_varint
read_varint-Reads n h rest = read_varint-bytes n rest h

pub read_vec-Reads :
    (bs : List ℕ)
    → length bs ≤ vint_max
    → Reads bs (varint_bytes (length bs) ++ bs) read_with_varint_length
unfolding read_with_varint_length
read_vec-Reads bs h =
    Reads-bind (length bs) bs (varint_bytes (length bs)) bs read_varint read
      (read_varint-Reads (length bs) h) (read-append bs)

pub read_vec8-Reads :
    (bs : List ℕ) → length bs < 256 → Reads bs (be_bytes 1 (length bs) ++ bs) read_with_u8_length
unfolding read_with_u8_length
read_vec8-Reads bs h =
    Reads-bind (length bs) bs (be_bytes 1 (length bs)) bs read_u8 read
      (λ rest. read_u8-bytes (length bs) rest h) (read-append bs)
