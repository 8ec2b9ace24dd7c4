-- ===== src/Codec/Decoder.antt =====
-- The trait `Decoder` on a `&[u8]` (src/codec.rs). A slice is the list of its bytes; an operation
-- returns its result and what is left of the slice.
use raw_quic.Prelude.{
  ℕ, ◌+◌, ◌*◌, ◌%◌, ◌^◌, List, [], ◌∷◌, length, take, drop, ltb, ◌==◌, if◌then◌else◌,
}
use raw_quic.Error
use raw_quic.Error.{Result, ok, err, panic, buffer_too_short}
use raw_quic.Codec.{decode_varint_len}

abbrev pub Decoder : Type 0 → Type 0
Decoder A = List ℕ → Result (A × List ℕ)

infixl 5 ◌>>=◌ ◌>>◌
abbrev pub ◌>>=◌ : {A B : Type 0} → Decoder A → (A → Decoder B) → Decoder B
◌>>=◌ m f s = Error.◌>>=◌ (m s) (λ r. f r.0 r.1)

abbrev pub ◌>>◌ : {A B : Type 0} → Decoder A → Decoder B → Decoder B
m >> k = m >>= λ _. k

abbrev pub return : {A : Type 0} → A → Decoder A
return a s = ok (a, s)

abbrev pub lift : {A : Type 0} → Result A → Decoder A
lift r s = Error.◌>>=◌ r (λ a. ok (a, s))

-- `self.remaining()`, which is also `self.len()`.
abbrev pub remaining : Decoder ℕ
remaining s = ok (length s, s)

unfoldable pub be_value : ℕ → List ℕ → ℕ
be_value acc [] = acc
be_value acc (b ∷ bs) = be_value (acc * 256 + b) bs

-- `Buf::get_u8`, `get_u16`, `get_u32`, `get_u64` by their width in bytes, behind the check of the
-- length that each reader makes.
unfoldable pub get_uint : ℕ → Decoder ℕ
get_uint k s =
    if ltb (length s) k then err buffer_too_short else ok (be_value 0 (take k s), drop k s)

unfoldable pub read_u8 : Decoder ℕ
unfolding get_uint
read_u8 = get_uint 1

unfoldable pub read_u16 : Decoder ℕ
unfolding get_uint
read_u16 = get_uint 2

-- `n = get_u16; n <<= 8; n += get_u8`, on a u32.
unfoldable pub read_u24 : Decoder ℕ
read_u24 s =
    if ltb (length s) 3
    then err buffer_too_short
    else ok (be_value 0 (take 2 s) * 2 ^ 8 + be_value 0 (take 1 (drop 2 s)), drop 3 s)

unfoldable pub read_u32 : Decoder ℕ
unfolding get_uint
read_u32 = get_uint 4

unfoldable pub read_u64 : Decoder ℕ
unfolding get_uint
read_u64 = get_uint 8

-- The `match len` of `read_varint`.
unfoldable pub read_varint_body : ℕ → Decoder ℕ
unfolding read_u8 read_u16 read_u32 read_u64
read_varint_body len =
    if len == 1
    then read_u8
    else if len == 2
    then (do v ← read_u16; return (v % 2 ^ 14))
    else if len == 4
    then (do v ← read_u32; return (v % 2 ^ 30))
    else if len == 8
    then (do v ← read_u64; return (v % 2 ^ 62))
    else λ _. panic

unfoldable pub read_varint : Decoder ℕ
unfolding read_varint_body decode_varint_len
read_varint [] = err buffer_too_short
read_varint (first ∷ rest) = Error.◌>>=◌ (decode_varint_len first) (λ len.
    if ltb (length (first ∷ rest)) len
    then err buffer_too_short
    else read_varint_body len (first ∷ rest))

unfoldable pub read : ℕ → Decoder (List ℕ)
read len s = if ltb (length s) len then err buffer_too_short else ok (take len s, drop len s)

unfoldable pub read_with_varint_length : Decoder (List ℕ)
unfolding read_varint read
read_with_varint_length = do len ← read_varint; read len

unfoldable pub read_with_u8_length : Decoder (List ℕ)
unfolding read_u8 read
read_with_u8_length = do len ← read_u8; read len

unfoldable pub skip : ℕ → Decoder (Unit {0})
skip len s = if ltb (length s) len then err buffer_too_short else ok (tt, drop len s)

unfoldable pub read_ipv4_addr : Decoder (List ℕ)
read_ipv4_addr s = if ltb (length s) 4 then err buffer_too_short else ok (take 4 s, drop 4 s)

unfoldable pub read_ipv6_addr : Decoder (List ℕ)
read_ipv6_addr s = if ltb (length s) 16 then err buffer_too_short else ok (take 16 s, drop 16 s)
