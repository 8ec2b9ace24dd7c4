-- ===== src/Codec/Encoder.antt =====
-- The trait `Encoder` on a `&mut [u8]` (src/codec.rs). What is left of the slice is the writer's
-- `room`; the bytes already written are kept in `out`. An operation returns its result and the
-- writer that it leaves.
use raw_quic.Prelude.{
  List, [], if◌then◌else◌, length, ltb, or_bit, suc, zero, ℕ, ◌%◌, ◌++◌, ◌-◌, ◌/◌, ◌==◌, ◌^◌, ◌∷◌,
}
use raw_quic.Error
use raw_quic.Error.{Result, ok, err, panic, buffer_too_short}
use raw_quic.Codec.{encode_varint_len}

pub record Writer : Type 0 where
  pub out : List ℕ
  pub room : ℕ

abbrev pub Encoder : Type 0 → Type 0
Encoder A = Writer → Result (A × Writer)

infixl 5 ◌>>=◌ ◌>>◌
abbrev pub ◌>>=◌ : {A B : Type 0} → Encoder A → (A → Encoder B) → Encoder B
◌>>=◌ m f w = Error.◌>>=◌ (m w) (λ r. f r.0 r.1)

abbrev pub ◌>>◌ : {A B : Type 0} → Encoder A → Encoder B → Encoder B
m >> k = m >>= λ _. k

abbrev pub return : {A : Type 0} → A → Encoder A
return a w = ok (a, w)

abbrev pub lift : {A : Type 0} → Result A → Encoder A
lift r w = Error.◌>>=◌ r (λ a. ok (a, w))

-- The number in `k` bytes, the highest first, as `put_u8`, `put_u16`, `put_u32` and `put_u64` store it.
unfoldable pub be_bytes : ℕ → ℕ → List ℕ
be_bytes zero n = []
be_bytes (suc k) n = (n / 256 ^ k % 256) ∷ be_bytes k n

-- `BufMut::put_slice` and its like, past the check of the room.
abbrev pub put : List ℕ → Writer → Writer
put bs w = record w { out = w.out ++ bs; room = w.room - length bs }

unfoldable pub write_u8 : ℕ → Encoder ℕ
write_u8 n w = if ltb w.room 1 then err buffer_too_short else ok (1, put (be_bytes 1 n) w)

unfoldable pub write_u16 : ℕ → Encoder ℕ
write_u16 n w = if ltb w.room 2 then err buffer_too_short else ok (2, put (be_bytes 2 n) w)

-- `((n & 0x00FF_0000) >> 16) as u8`, then `(n & 0xFFFF) as u16`.
unfoldable pub write_u24 : ℕ → Encoder ℕ
write_u24 n w =
    if ltb w.room 3
    then err buffer_too_short
    else ok (3, put (be_bytes 2 (n % 2 ^ 16)) (put (be_bytes 1 (n % 2 ^ 24 / 2 ^ 16)) w))

unfoldable pub write_u32 : ℕ → Encoder ℕ
write_u32 n w = if ltb w.room 4 then err buffer_too_short else ok (4, put (be_bytes 4 n) w)

unfoldable pub write_u64 : ℕ → Encoder ℕ
write_u64 n w = if ltb w.room 8 then err buffer_too_short else ok (8, put (be_bytes 8 n) w)

-- The `match len` of `write_varint_with_len`: a cast to the width, and the tag's bits set.
unfoldable pub put_varint : ℕ → ℕ → Writer → Result Writer
put_varint n len w =
    if len == 1
    then ok (put (be_bytes 1 (n % 2 ^ 8)) w)
    else if len == 2
    then ok (put (be_bytes 2 (or_bit 14 (n % 2 ^ 16))) w)
    else if len == 4
    then ok (put (be_bytes 4 (or_bit 31 (n % 2 ^ 32))) w)
    else if len == 8
    then ok (put (be_bytes 8 (or_bit 63 (or_bit 62 n))) w)
    else panic

unfoldable pub write_varint_with_len : ℕ → ℕ → Encoder ℕ
unfolding put_varint
write_varint_with_len n len w =
    if ltb w.room len
    then err buffer_too_short
    else Error.◌>>=◌ (put_varint n len w) (λ w'. ok (len, w'))

unfoldable pub write_varint : ℕ → Encoder ℕ
unfolding write_varint_with_len encode_varint_len
write_varint n = do len ← lift (encode_varint_len n); write_varint_with_len n len

unfoldable pub write : List ℕ → Encoder ℕ
write src w = if ltb w.room (length src) then err buffer_too_short else ok (length src, put src w)

-- The octets of an address are written as they are; there are 4 and 16 of them.
unfoldable pub write_ipv4_addr : List ℕ → Encoder ℕ
write_ipv4_addr octets w = if ltb w.room 4 then err buffer_too_short else ok (4, put octets w)

unfoldable pub write_ipv6_addr : List ℕ → Encoder ℕ
write_ipv6_addr octets w = if ltb w.room 16 then err buffer_too_short else ok (16, put octets w)
