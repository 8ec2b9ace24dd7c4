-- ===== src/Codec/VarintBytes.antt =====
-- The format of variable-length integers (RFC 9000, section 16), and that the writer follows it.
use raw_quic.Prelude.{
  Bool-cases, List, ap, arith, if◌then◌else◌, inl, inr, length, ltb, or_bit, ℕ, ◌%◌, ◌*◌, ◌+◌, ◌<◌,
  ◌^◌, ◌∙◌, ◌≡◌, ◌≤◌,
}
use raw_quic.Error
use raw_quic.Error.{Result, ok, err, buffer_too_short}
use raw_quic.Codec.{vint_max, encode_varint_len}
use raw_quic.Codec.Encoder.{
  Writer, Encoder, put, be_bytes, write_u8, write_varint_with_len, write_varint, write,
}
use raw_quic.Codec.Bytes.{length-be_bytes}

-- The number of bytes that a number takes, by its magnitude.
abbrev pub varint_size : ℕ → ℕ
varint_size n =
    if ltb n (2 ^ 6) then 1 else if ltb n (2 ^ 14) then 2 else if ltb n (2 ^ 30) then 4 else 8

-- A number on 1, 2, 4 or 8 bytes under its two tag bits.
abbrev pub varint_1 : ℕ → List ℕ
varint_1 n = be_bytes 1 n

abbrev pub varint_2 : ℕ → List ℕ
varint_2 n = be_bytes 2 (2 ^ 14 + n)

abbrev pub varint_4 : ℕ → List ℕ
varint_4 n = be_bytes 4 (2 * 2 ^ 30 + n)

abbrev pub varint_8 : ℕ → List ℕ
varint_8 n = be_bytes 8 (3 * 2 ^ 62 + n)

unfoldable pub varint_bytes : ℕ → List ℕ
varint_bytes n =
    if ltb n (2 ^ 6)
    then varint_1 n
    else if ltb n (2 ^ 14)
    then varint_2 n
    else if ltb n (2 ^ 30)
    then varint_4 n
    else varint_8 n

pub length-varint_bytes : (n : ℕ) → length (varint_bytes n) ≡ varint_size n
unfolding varint_bytes
length-varint_bytes n = ground (
  arith,
  length-be_bytes 1 n,
  length-be_bytes 2 (2 ^ 14 + n),
  length-be_bytes 4 (2 * 2 ^ 30 + n),
  length-be_bytes 8 (3 * 2 ^ 62 + n),
)

pub encode_varint_len-size : (n : ℕ) → n ≤ vint_max → encode_varint_len n ≡ ok (varint_size n)
unfolding encode_varint_len
encode_varint_len-size n h = ground arith

-- What a writer does that is to append `bs`: it wants room for all of them.
abbrev pub emit : List ℕ → Writer → Result Writer
emit bs w = if ltb w.room (length bs) then err buffer_too_short else ok (put bs w)

-- The writer that an operation leaves, without its result.
abbrev pub after : {A : Type 0} → Result (A × Writer) → Result Writer
after r = Error.◌>>=◌ r (λ p. ok p.1)

-- The operation appends `bs` to any writer with room, and fails on any other.
abbrev pub Emits : {A : Type 0} → List ℕ → Encoder A → Type 0
Emits bs m = (w : Writer) → after (m w) ≡ emit bs w

pub write-Emits : (src : List ℕ) → Emits src (write src)
unfolding write
write-Emits src w = ground arith

pub write_u8-Emits : (n : ℕ) → Emits (be_bytes 1 n) (write_u8 n)
unfolding write_u8
write_u8-Emits n w = ground (arith, length-be_bytes 1 n)

-- Setting the tag's bits is adding them: a number that fits leaves them clear.
or_bit_2 : (n : ℕ) → n < 2 ^ 14 → or_bit 14 (n % 2 ^ 16) ≡ 2 ^ 14 + n
or_bit_2 n h = ground arith

or_bit_4 : (n : ℕ) → n < 2 ^ 30 → or_bit 31 (n % 2 ^ 32) ≡ 2 * 2 ^ 30 + n
or_bit_4 n h = ground arith

or_bit_8 : (n : ℕ) → n < 2 ^ 62 → or_bit 63 (or_bit 62 n) ≡ 3 * 2 ^ 62 + n
or_bit_8 n h = ground arith

write_varint_1-Emits : (n : ℕ) → n < 2 ^ 6 → Emits (varint_1 n) (write_varint_with_len n 1)
unfolding write_varint_with_len
write_varint_1-Emits n h w =
    let e : n % 2 ^ 8 ≡ n = omega arith in
    rw (length-be_bytes 1 n) (ground (arith, e, length-be_bytes 1 n))

pub write_varint_2-Emits : (n : ℕ) → n < 2 ^ 14 → Emits (varint_2 n) (write_varint_with_len n 2)
unfolding write_varint_with_len
write_varint_2-Emits n h w = ground (arith, or_bit_2 n h, length-be_bytes 2 (2 ^ 14 + n))

write_varint_4-Emits : (n : ℕ) → n < 2 ^ 30 → Emits (varint_4 n) (write_varint_with_len n 4)
unfolding write_varint_with_len
write_varint_4-Emits n h w = ground (arith, or_bit_4 n h, length-be_bytes 4 (2 * 2 ^ 30 + n))

write_varint_8-Emits : (n : ℕ) → n < 2 ^ 62 → Emits (varint_8 n) (write_varint_with_len n 8)
unfolding write_varint_with_len
write_varint_8-Emits n h w = ground (arith, or_bit_8 n h, length-be_bytes 8 (3 * 2 ^ 62 + n))

write_varint_by_len :
    (n len : ℕ) (w : Writer)
    → encode_varint_len n ≡ ok len
    → write_varint n w ≡ write_varint_with_len n len w
unfolding write_varint
write_varint_by_len n len w e = rw e

-- The four sizes, each with what it makes of the format and of the length.
pub data Sized (n : ℕ) : Type 0 where
  sized_1 : n < 2 ^ 6 → varint_bytes n ≡ varint_1 n → encode_varint_len n ≡ ok 1 → Sized n
  sized_2 : n < 2 ^ 14 → varint_bytes n ≡ varint_2 n → encode_varint_len n ≡ ok 2 → Sized n
  sized_4 : n < 2 ^ 30 → varint_bytes n ≡ varint_4 n → encode_varint_len n ≡ ok 4 → Sized n
  sized_8 : n < 2 ^ 62 → varint_bytes n ≡ varint_8 n → encode_varint_len n ≡ ok 8 → Sized n

pub varint-Sized : (n : ℕ) → n ≤ vint_max → Sized n
unfolding varint_bytes encode_varint_len
varint-Sized n h = elim (Bool-cases (ltb n (2 ^ 6))) [
  | inl a ↦ sized_1 (ground arith) (rw a) (ground arith)
  | inr a ↦ elim (Bool-cases (ltb n (2 ^ 14))) [
    | inl b ↦ sized_2 (ground arith) (rw (a, b)) (ground arith)
    | inr b ↦ elim (Bool-cases (ltb n (2 ^ 30))) [
      | inl c ↦ sized_4 (ground arith) (rw (a, b, c)) (ground arith)
      | inr c ↦ sized_8 (omega arith) (rw (a, b, c)) (ground arith)
    ]
  ]
]

write_varint-Sized : {n : ℕ} → Sized n → Emits (varint_bytes n) (write_varint n)
write_varint-Sized {n} (sized_1 h e l) w =
    rw (e, write_varint_by_len n 1 w l) (write_varint_1-Emits n h w)
write_varint-Sized {n} (sized_2 h e l) w =
    rw (e, write_varint_by_len n 2 w l) (write_varint_2-Emits n h w)
write_varint-Sized {n} (sized_4 h e l) w =
    rw (e, write_varint_by_len n 4 w l) (write_varint_4-Emits n h w)
write_varint-Sized {n} (sized_8 h e l) w =
    rw (e, write_varint_by_len n 8 w l) (write_varint_8-Emits n h w)

-- A number that a varint can hold is written in the format, wherever there is room for it.
pub write_varint-Emits : (n : ℕ) → n ≤ vint_max → Emits (varint_bytes n) (write_varint n)
write_varint-Emits n h = write_varint-Sized (varint-Sized n h)

-- Writing a number that a varint can hold, on both branches: with room for the 1, 2, 4 or 8 bytes of
-- its magnitude, it appends its format; otherwise the buffer is too short.
pub write_varint_lem :
    (n : ℕ) (w : Writer)
    → n ≤ vint_max
    → after (write_varint n w)
      ≡ (if ltb w.room (varint_size n) then err buffer_too_short else ok (put (varint_bytes n) w))
write_varint_lem n w h =
    write_varint-Emits n h w
    ∙ ap (λ (k : ℕ). if ltb w.room k then err buffer_too_short else ok (put (varint_bytes n) w))
        (length-varint_bytes n)
