-- ===== src/Packet/Number.antt =====
-- Packet numbers (src/packet.rs): their truncation to one to four bytes, and back. They are below
-- 2 ^ 62, so their sums with a window do not wrap.
use raw_quic.Prelude.{
  Option, if◌then◌else◌, leb, ltb, min, none, some, suc, zero, ℕ, ◌%◌, ◌&&◌, ◌*◌, ◌+◌, ◌-◌, ◌/◌,
  ◌==◌, ◌^◌,
}
use raw_quic.Error.{err, invalid_packet}
use raw_quic.Codec.Encoder.{Encoder, write_u8, write_u16, write_u24, write_u32}
use raw_quic.Codec.Decoder.{Decoder, read_u8, read_u16, read_u24, read_u32}

-- `(expected_pn & !pn_mask) | truncated_pn`, for a truncated number of that many bits, is a sum.
unfoldable pub candidate : ℕ → ℕ → ℕ → ℕ
candidate expected_pn pn_win truncated_pn = expected_pn / pn_win * pn_win + truncated_pn

unfoldable pub decode_packet_num : ℕ → ℕ → ℕ → ℕ
unfolding candidate
decode_packet_num largest_pn truncated_pn pkt_num_len =
    let expected_pn = largest_pn + 1 in
    let pn_win = 2 ^ (pkt_num_len * 8) in
    let pn_hwin = pn_win / 2 in
    let candidate_pn = candidate expected_pn pn_win truncated_pn in
    if leb (candidate_pn + pn_hwin) expected_pn && ltb candidate_pn (2 ^ 62 - pn_win)
    then candidate_pn + pn_win
    else if ltb (expected_pn + pn_hwin) candidate_pn && leb pn_win candidate_pn
    then candidate_pn - pn_win
    else candidate_pn

unfoldable pub encode_packet_num : ℕ → ℕ → Encoder ℕ
unfolding write_u8 write_u16 write_u24 write_u32
encode_packet_num pkt_num len w =
    if len == 1
    then write_u8 (pkt_num % 2 ^ 8) w
    else if len == 2
    then write_u16 (pkt_num % 2 ^ 16) w
    else if len == 3
    then write_u24 (pkt_num % 2 ^ 32) w
    else if len == 4
    then write_u32 (pkt_num % 2 ^ 32) w
    else err invalid_packet

-- `u64::BITS - n.leading_zeros()`: how often `n` can be halved, up to the 64 bits of a u64.
unfoldable pub bit_len : ℕ → ℕ → ℕ
bit_len zero n = 0
bit_len (suc f) n = let rest = bit_len f (n / 2) in if n == 0 then 0 else suc rest

unfoldable pub packet_num_len : ℕ → Option ℕ → ℕ
unfolding bit_len
packet_num_len pkt_num largest_acked =
    let num_unacked : ℕ = elim largest_acked [
      | some largest_acked ↦ pkt_num - largest_acked
      | none ↦ min (pkt_num + 1) (2 ^ 64 - 1)
    ] in
    (bit_len 64 num_unacked + 1 + 7) / 8

-- The packet number field of `decrypt_header`.
unfoldable pub read_packet_num : ℕ → Decoder ℕ
unfolding read_u8 read_u16 read_u24 read_u32
read_packet_num pkt_num_len s =
    if pkt_num_len == 1
    then read_u8 s
    else if pkt_num_len == 2
    then read_u16 s
    else if pkt_num_len == 3
    then read_u24 s
    else if pkt_num_len == 4
    then read_u32 s
    else err invalid_packet
