-- ===== src/Codec/RoundTrip.antt =====
-- The reader takes back what the format holds, and leaves what follows.
use raw_quic.Prelude.{
  List, [], arith, drop_append, if◌then◌else◌, length, length-append, le→ltb, ltb, sym, take_append,
  ℕ, ◌%◌, ◌*◌, ◌++◌, ◌+◌, ◌/◌, ◌<◌, ◌^◌, ◌∙◌, ◌∷◌, ◌≡◌, ◌≤◌,
}
use raw_quic.Error.{ok, err, buffer_too_short}
use raw_quic.Codec.{decode_varint_len, vint_max}
use raw_quic.Codec.Encoder.{Writer, put, write_varint, be_bytes}
use raw_quic.Codec.Decoder.{be_value, get_uint, read_varint, read_varint_body, read, read_u8}
use raw_quic.Codec.Bytes.{
  length-be_bytes, get_uint-append, be_value-be_bytes_1, be_value-be_bytes_8, be_value-be_bytes_4,
  be_value-be_bytes_2,
}
use raw_quic.Codec.VarintBytes.{
  after, varint_size, write_varint_lem, length-varint_bytes, varint_1, Sized, varint_4, varint_8,
  varint_2, varint_bytes, varint-Sized, sized_1, sized_2, sized_4, sized_8,
}

pub get_uint-be_bytes :
    (k n : ℕ) (rest : List ℕ)
    → get_uint k (be_bytes k n ++ rest) ≡ ok (be_value 0 (be_bytes k n), rest)
get_uint-be_bytes k n rest = get_uint-append k (be_bytes k n) rest (length-be_bytes k n)

-- The reader with the length that the first byte tells.
read_varint_by_len :
    (first len : ℕ) (rest : List ℕ)
    → decode_varint_len first ≡ ok len
    → len ≤ length (first ∷ rest)
    → read_varint (first ∷ rest) ≡ read_varint_body len (first ∷ rest)
unfolding read_varint
read_varint_by_len first len rest e h = rw (e, le→ltb _ _ h)

first_1 : (n : ℕ) → n < 2 ^ 6 → decode_varint_len ((n) / 256 ^ 0 % 256) ≡ ok 1
unfolding decode_varint_len
first_1 n h = ground arith

body_1 :
    (n : ℕ) (rest : List ℕ) → n < 2 ^ 6 → read_varint_body 1 (varint_1 n ++ rest) ≡ ok (n, rest)
unfolding read_varint_body
body_1 n rest h =
    let e : n % 2 ^ 8 ≡ n = omega arith in
    rw (get_uint-be_bytes 1 (n) rest, be_value-be_bytes_1 (n), e)

read_varint_1 :
    (n : ℕ) (rest : List ℕ) → n < 2 ^ 6 → read_varint (varint_1 n ++ rest) ≡ ok (n, rest)
unfolding be_bytes
read_varint_1 n rest h =
    read_varint_by_len ((n) / 256 ^ 0 % 256) 1 (be_bytes 0 (n) ++ rest) (first_1 n h) (omega arith)
    ∙ body_1 n rest h

first_2 : (n : ℕ) → n < 2 ^ 14 → decode_varint_len ((2 ^ 14 + n) / 256 ^ 1 % 256) ≡ ok 2
unfolding decode_varint_len
first_2 n h = ground arith

body_2 :
    (n : ℕ) (rest : List ℕ) → n < 2 ^ 14 → read_varint_body 2 (varint_2 n ++ rest) ≡ ok (n, rest)
unfolding read_varint_body
body_2 n rest h =
    let e : (2 ^ 14 + n) % 2 ^ 16 % 2 ^ 14 ≡ n = omega arith in
    rw (get_uint-be_bytes 2 (2 ^ 14 + n) rest, be_value-be_bytes_2 (2 ^ 14 + n), e)

read_varint_2 :
    (n : ℕ) (rest : List ℕ) → n < 2 ^ 14 → read_varint (varint_2 n ++ rest) ≡ ok (n, rest)
unfolding be_bytes
read_varint_2 n rest h =
    read_varint_by_len ((2 ^ 14 + n) / 256 ^ 1 % 256) 2 (be_bytes 1 (2 ^ 14 + n) ++ rest)
      (first_2 n h) (omega arith)
    ∙ body_2 n rest h

first_4 : (n : ℕ) → n < 2 ^ 30 → decode_varint_len ((2 * 2 ^ 30 + n) / 256 ^ 3 % 256) ≡ ok 4
unfolding decode_varint_len
first_4 n h = ground arith

body_4 :
    (n : ℕ) (rest : List ℕ) → n < 2 ^ 30 → read_varint_body 4 (varint_4 n ++ rest) ≡ ok (n, rest)
unfolding read_varint_body
body_4 n rest h =
    let e : (2 * 2 ^ 30 + n) % 2 ^ 32 % 2 ^ 30 ≡ n = omega arith in
    rw (get_uint-be_bytes 4 (2 * 2 ^ 30 + n) rest, be_value-be_bytes_4 (2 * 2 ^ 30 + n), e)

read_varint_4 :
    (n : ℕ) (rest : List ℕ) → n < 2 ^ 30 → read_varint (varint_4 n ++ rest) ≡ ok (n, rest)
unfolding be_bytes
read_varint_4 n rest h =
    read_varint_by_len ((2 * 2 ^ 30 + n) / 256 ^ 3 % 256) 4 (be_bytes 3 (2 * 2 ^ 30 + n) ++ rest)
      (first_4 n h) (omega arith)
    ∙ body_4 n rest h

first_8 : (n : ℕ) → n < 2 ^ 62 → decode_varint_len ((3 * 2 ^ 62 + n) / 256 ^ 7 % 256) ≡ ok 8
unfolding decode_varint_len
first_8 n h = ground arith

body_8 :
    (n : ℕ) (rest : List ℕ) → n < 2 ^ 62 → read_varint_body 8 (varint_8 n ++ rest) ≡ ok (n, rest)
unfolding read_varint_body
body_8 n rest h =
    let e : (3 * 2 ^ 62 + n) % 2 ^ 64 % 2 ^ 62 ≡ n = omega arith in
    rw (get_uint-be_bytes 8 (3 * 2 ^ 62 + n) rest, be_value-be_bytes_8 (3 * 2 ^ 62 + n), e)

read_varint_8 :
    (n : ℕ) (rest : List ℕ) → n < 2 ^ 62 → read_varint (varint_8 n ++ rest) ≡ ok (n, rest)
unfolding be_bytes
read_varint_8 n rest h =
    read_varint_by_len ((3 * 2 ^ 62 + n) / 256 ^ 7 % 256) 8 (be_bytes 7 (3 * 2 ^ 62 + n) ++ rest)
      (first_8 n h) (omega arith)
    ∙ body_8 n rest h

read_varint-Sized :
    {n : ℕ} (rest : List ℕ) → Sized n → read_varint (varint_bytes n ++ rest) ≡ ok (n, rest)
read_varint-Sized {n} rest (sized_1 h e l) = rw e (read_varint_1 n rest h)
read_varint-Sized {n} rest (sized_2 h e l) = rw e (read_varint_2 n rest h)
read_varint-Sized {n} rest (sized_4 h e l) = rw e (read_varint_4 n rest h)
read_varint-Sized {n} rest (sized_8 h e l) = rw e (read_varint_8 n rest h)

-- The reader returns the number that the format holds, and leaves what follows it.
pub read_varint-bytes :
    (n : ℕ) (rest : List ℕ) → n ≤ vint_max → read_varint (varint_bytes n ++ rest) ≡ ok (n, rest)
read_varint-bytes n rest h = read_varint-Sized rest (varint-Sized n h)

-- A length on two bytes, as the headers of CRYPTO and STREAM frames store it.
pub read_varint-bytes_2 :
    (n : ℕ) (rest : List ℕ) → n < 2 ^ 14 → read_varint (varint_2 n ++ rest) ≡ ok (n, rest)
read_varint-bytes_2 n rest h = read_varint_2 n rest h

pub read-append : (src rest : List ℕ) → read (length src) (src ++ rest) ≡ ok (src, rest)
unfolding read
read-append src rest =
    rw (le→ltb (length (src ++ rest)) (length src) (omega (arith, length-append src rest)))
      (rw (take_append src rest, drop_append src rest))

pub read_u8-bytes :
    (n : ℕ) (rest : List ℕ) → n < 256 → read_u8 (be_bytes 1 n ++ rest) ≡ ok (n, rest)
unfolding read_u8
read_u8-bytes n rest h =
    let e : n % 2 ^ 8 ≡ n = omega arith in rw (get_uint-be_bytes 1 n rest, be_value-be_bytes_1 n, e)

-- If a number that a varint can hold is written into an empty buffer, it is read back from what was
-- written, whatever follows, and its size was taken from the room.
pub read_varint-write_varint :
    (n room : ℕ) (w : Writer) (rest : List ℕ)
    → n ≤ vint_max
    → after (write_varint n (record { out = []; room = room })) ≡ ok w
    → (read_varint (w.out ++ rest) ≡ ok (n, rest)) × (w.room + varint_size n ≡ room)
read_varint-write_varint n room w rest h e =
    let (bytes, left) = written in rw bytes (read_varint-bytes n rest h, left)
  where
    start : Writer
    start = record { out = []; room = room }

    shape :
        (if ltb room (varint_size n) then err buffer_too_short else ok (put (varint_bytes n) start))
        ≡ ok w
    shape = sym (write_varint_lem n start h) ∙ e

    written : (w.out ≡ varint_bytes n) × (w.room + varint_size n ≡ room)
    written = ground (arith, shape, length-varint_bytes n)
