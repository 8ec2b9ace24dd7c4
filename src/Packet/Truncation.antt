-- ===== src/Packet/Truncation.antt =====
-- A receiver restores the packet number that the sender truncated.
use raw_quic.Prelude.{
  Bool-cases, List, ap, append_assoc, arith, false, inl, inr, leb, leb→le, length, length-append,
  le→ltb, refl, some, suc, sym, zero, ℕ, ◌%◌, ◌*◌, ◌++◌, ◌+◌, ◌-◌, ◌/◌, ◌<◌, ◌==◌, ◌^◌, ◌∙◌, ◌∷◌,
  ◌≡◌, ◌≤◌,
}
use raw_quic.Codec.RoundTrip.{get_uint-be_bytes}
use mathlib.Core.Path.{subst}
use raw_quic.Error.{ok}
use raw_quic.Codec.Encoder.{put, write_u8, Writer, be_bytes, write_u16, write_u24, write_u32}
use raw_quic.Codec.Decoder.{read_u8, read_u16, read_u24, read_u32, be_value}
use raw_quic.Codec.Bytes.{
  length-be_bytes, be_value-be_bytes_1, be_value-be_bytes_2, be_value-be_bytes_4,
}
use raw_quic.Packet.Number.{
  decode_packet_num, bit_len, candidate, encode_packet_num, read_packet_num, packet_num_len,
}

double : (k : ℕ) → 2 ^ suc k ≡ 2 * 2 ^ k
double k = omega arith

positive : (k : ℕ) → 0 < 2 ^ k
positive zero = omega arith
positive (suc k) = omega (arith, double k, positive k)

-- A number of at most `k` bits is below 2 ^ k.
bit_len_bound : (f n k : ℕ) → n < 2 ^ f → bit_len f n ≤ k → n < 2 ^ k
unfolding bit_len
bit_len_bound zero n k h b = omega (arith, positive k)
bit_len_bound (suc f) n k h b = elim (Bool-cases (n == 0)) [
  | inl c ↦ ground (arith, c, positive k)
  | inr c ↦
      let e : bit_len (suc f) n ≡ suc (bit_len f (n / 2)) = rw c refl in
      more k (omega (arith, e, b)) (λ j. bit_len_bound f (n / 2) j (omega (arith, h, double f)))
]
  where
    more :
        (k : ℕ)
        → suc (bit_len f (n / 2)) ≤ k
        → ((j : ℕ) → bit_len f (n / 2) ≤ j → n / 2 < 2 ^ j)
        → n < 2 ^ k
    more zero l r = absurd (omega (arith, l))
    more (suc k) l r = omega (arith, r k (omega (arith, l)), double k)

-- The number of the window around the one expected that ends with the given bits.
over : (i k : ℕ) → leb i k ≡ false → k < i
over i k h = ground (arith, h)

module _ (L pn : ℕ) (fits : pn < 2 ^ 62) where
  decode_1 : L + 1 < pn + 2 ^ 7 → pn ≤ L + 1 + 2 ^ 7 → decode_packet_num L (pn % 2 ^ 8) 1 ≡ pn
  unfolding decode_packet_num candidate
  decode_1 h k = ground arith

  decode_2 : L + 1 < pn + 2 ^ 15 → pn ≤ L + 1 + 2 ^ 15 → decode_packet_num L (pn % 2 ^ 16) 2 ≡ pn
  unfolding decode_packet_num candidate
  decode_2 h k = ground arith

  decode_3 : L + 1 < pn + 2 ^ 23 → pn ≤ L + 1 + 2 ^ 23 → decode_packet_num L (pn % 2 ^ 24) 3 ≡ pn
  unfolding decode_packet_num candidate
  decode_3 h k = ground arith

  decode_4 : L + 1 < pn + 2 ^ 31 → pn ≤ L + 1 + 2 ^ 31 → decode_packet_num L (pn % 2 ^ 32) 4 ≡ pn
  unfolding decode_packet_num candidate
  decode_4 h k = ground arith

-- A number below 2 ^ k has at most `k` bits.
bit_len_small : (f n k : ℕ) → n < 2 ^ k → bit_len f n ≤ k
unfolding bit_len
bit_len_small zero n k h = omega arith
bit_len_small (suc f) n k h = elim (Bool-cases (n == 0)) [
  | inl c ↦ rw c (omega arith)
  | inr c ↦ rw c (more k c h (λ j. bit_len_small f (n / 2) j))
]
  where
    more :
        (k : ℕ)
        → (n == 0) ≡ false
        → n < 2 ^ k
        → ((j : ℕ) → n / 2 < 2 ^ j → bit_len f (n / 2) ≤ j)
        → suc (bit_len f (n / 2)) ≤ k
    more zero c l r = absurd (ground (arith, l, c))
    more (suc k) c l r = omega (arith, r k (omega (arith, l, double k)))

-- The bytes of a packet number, as the receiver reads and restores them.
abbrev pub Restores : ℕ → ℕ → ℕ → Writer → List ℕ → Type 0
Restores L pn n w rest =
    (bytes : List ℕ) × (t : ℕ) × (encode_packet_num pn n w ≡ ok (n, put bytes w))
    × (length bytes ≡ n)
    × (read_packet_num n (bytes ++ rest) ≡ ok (t, rest))
    × (decode_packet_num L t n ≡ pn)

put-put : (xs ys : List ℕ) (w : Writer) → put ys (put xs w) ≡ put (xs ++ ys) w
put-put xs ys w =
    let l : w.room - length xs - length ys ≡ w.room - length (xs ++ ys) =
      omega (arith, length-append xs ys) in
    rw (l, append_assoc w.out xs ys) refl

write_u24_lem :
    (n : ℕ) (w : Writer)
    → 3 ≤ w.room
    → write_u24 n w ≡ ok (3, put (be_bytes 1 (n % 2 ^ 24 / 2 ^ 16) ++ be_bytes 2 (n % 2 ^ 16)) w)
unfolding write_u24
write_u24_lem n w h = rw (le→ltb w.room 3 h) (
    ap (λ (v : Writer). ok (3, v))
      (put-put (be_bytes 1 (n % 2 ^ 24 / 2 ^ 16)) (be_bytes 2 (n % 2 ^ 16)) w))

read_u24_lem :
    (a b c : ℕ) (rest : List ℕ) → read_u24 (a ∷ b ∷ c ∷ rest) ≡ ok ((a * 256 + b) * 2 ^ 8 + c, rest)
unfolding read_u24 be_value
read_u24_lem a b c rest =
    rw (le→ltb (length (a ∷ b ∷ c ∷ rest)) 3 (omega arith))
      (ap (λ (v : ℕ). ok (v, rest)) (omega arith))

module _ (L pn : ℕ) (fits : pn < 2 ^ 62) (w : Writer) (room : 4 ≤ w.room) (rest : List ℕ) where
  by_1 : L + 1 < pn + 2 ^ 7 → pn ≤ L + 1 + 2 ^ 7 → Restores L pn 1 w rest
  unfolding encode_packet_num read_packet_num write_u8 read_u8
  by_1 h k =
      let n = pn % 2 ^ 8 in
      let e : n % 2 ^ 8 ≡ n = omega arith in
      (
        be_bytes 1 n,
        n,
        ground (arith, room),
        length-be_bytes 1 n,
        get_uint-be_bytes 1 n rest ∙ ap (λ v. ok (v, rest)) (be_value-be_bytes_1 n ∙ e),
        decode_1 L pn fits h k,
      )

  by_2 : L + 1 < pn + 2 ^ 15 → pn ≤ L + 1 + 2 ^ 15 → Restores L pn 2 w rest
  unfolding encode_packet_num read_packet_num write_u16 read_u16
  by_2 h k =
      let n = pn % 2 ^ 16 in
      let e : n % 2 ^ 16 ≡ n = omega arith in
      (
        be_bytes 2 n,
        n,
        ground (arith, room),
        length-be_bytes 2 n,
        get_uint-be_bytes 2 n rest ∙ ap (λ v. ok (v, rest)) (be_value-be_bytes_2 n ∙ e),
        decode_2 L pn fits h k,
      )

  by_4 : L + 1 < pn + 2 ^ 31 → pn ≤ L + 1 + 2 ^ 31 → Restores L pn 4 w rest
  unfolding encode_packet_num read_packet_num write_u32 read_u32
  by_4 h k =
      let n = pn % 2 ^ 32 in
      let e : n % 2 ^ 32 ≡ n = omega arith in
      (
        be_bytes 4 n,
        n,
        ground (arith, room),
        length-be_bytes 4 n,
        get_uint-be_bytes 4 n rest ∙ ap (λ v. ok (v, rest)) (be_value-be_bytes_4 n ∙ e),
        decode_4 L pn fits h k,
      )

  by_3 : L + 1 < pn + 2 ^ 23 → pn ≤ L + 1 + 2 ^ 23 → Restores L pn 3 w rest
  unfolding encode_packet_num read_packet_num write_u24 read_u24 be_bytes be_value
  by_3 h k =
      let n = pn % 2 ^ 32 in
      (
        be_bytes 1 (n % 2 ^ 24 / 2 ^ 16) ++ be_bytes 2 (n % 2 ^ 16),
        pn % 2 ^ 24,
        write_u24_lem n w (omega (arith, room)),
        refl,
        read_u24_lem _ _ _ rest ∙ ap (λ v. ok (v, rest)) (omega arith),
        decode_3 L pn fits h k,
      )

-- Where fewer than 2 ^ 31 packets are not acknowledged, the length that the sender chooses has room for
-- the packet number: whatever the receiver's largest number is, from the acknowledged one on and below
-- the one sent, it reads the bytes that the sender writes as a truncated number and restores the number
-- sent. The writer has room for four bytes, and the packet number is below 2 ^ 62.
pub packet_num_restored :
    (acked L pn : ℕ) (w : Writer) (rest : List ℕ)
    → acked ≤ L
    → L < pn
    → pn < 2 ^ 62
    → pn - acked < 2 ^ 31
    → 4 ≤ w.room
    → Restores L pn (packet_num_len pn (some acked)) w rest
unfolding packet_num_len
packet_num_restored acked L pn w rest a l f g room =
    let n = pn - acked in
    let b = bit_len 64 n in
    let q : b ≤ 31 = bit_len_small 64 n 31 g in
    let bound : (k : ℕ) → b ≤ k → n < 2 ^ k = λ k j. bit_len_bound 64 n k (omega (arith, f)) j in
    elim (Bool-cases (leb b 7)) [
      | inl c ↦
          let j = leb→le b 7 c in
          let h = bound 7 j in
          of_len 1 (omega arith) (by_1 L pn f w room rest (omega arith) (omega arith))
      | inr c ↦ elim (Bool-cases (leb b 15)) [
        | inl d ↦
            let i = over b 7 c in
            let j = leb→le b 15 d in
            let h = bound 15 j in
            of_len 2 (omega arith) (by_2 L pn f w room rest (omega arith) (omega arith))
        | inr d ↦ elim (Bool-cases (leb b 23)) [
          | inl e ↦
              let i = over b 15 d in
              let j = leb→le b 23 e in
              let h = bound 23 j in
              of_len 3 (omega arith) (by_3 L pn f w room rest (omega arith) (omega arith))
          | inr e ↦
              let i = over b 23 e in
              of_len 4 (omega arith) (by_4 L pn f w room rest (omega arith) (omega arith))
        ]
      ]
    ]
  where
    of_len :
        (n : ℕ)
        → (bit_len 64 (pn - acked) + 1 + 7) / 8 ≡ n
        → Restores L pn n w rest
        → Restores L pn ((bit_len 64 (pn - acked) + 1 + 7) / 8) w rest
    of_len n e r = subst (λ m. Restores L pn m w rest) (sym e) r
