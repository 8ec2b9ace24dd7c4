-- ===== src/Codec/Bytes.antt =====
-- Big-endian numbers, written and read back.
use raw_quic.Prelude.{
  List, ap, arith, drop_append, length, length-append, le→ltb, refl, suc, take_append, zero, ℕ, ◌%◌,
  ◌++◌, ◌^◌, ◌≡◌,
}
use raw_quic.Error.{ok}
use raw_quic.Codec.Encoder.{be_bytes}
use raw_quic.Codec.Decoder.{be_value, get_uint}

pub length-be_bytes : (k n : ℕ) → length (be_bytes k n) ≡ k
unfolding be_bytes
length-be_bytes zero n = refl
length-be_bytes (suc k) n = ap suc (length-be_bytes k n)

-- A reader that takes exactly the bytes at the front.
pub get_uint-append :
    (k : ℕ) (bs rest : List ℕ) → length bs ≡ k → get_uint k (bs ++ rest) ≡ ok (be_value 0 bs, rest)
unfolding get_uint
get_uint-append k bs rest e = rw (← e) (
    rw (le→ltb (length (bs ++ rest)) (length bs) (omega (arith, length-append bs rest)))
      (rw (take_append bs rest, drop_append bs rest)))

pub be_value-be_bytes_1 : (n : ℕ) → be_value 0 (be_bytes 1 n) ≡ n % 2 ^ 8
unfolding be_value be_bytes
be_value-be_bytes_1 n = omega arith

pub be_value-be_bytes_2 : (n : ℕ) → be_value 0 (be_bytes 2 n) ≡ n % 2 ^ 16
unfolding be_value be_bytes
be_value-be_bytes_2 n = omega arith

pub be_value-be_bytes_4 : (n : ℕ) → be_value 0 (be_bytes 4 n) ≡ n % 2 ^ 32
unfolding be_value be_bytes
be_value-be_bytes_4 n = omega arith

pub be_value-be_bytes_8 : (n : ℕ) → be_value 0 (be_bytes 8 n) ≡ n % 2 ^ 64
unfolding be_value be_bytes
be_value-be_bytes_8 n = omega arith
