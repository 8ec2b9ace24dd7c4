-- ===== src/Examples/Packets.antt =====
-- Runs of the theorems on packet headers and packet numbers, at concrete inputs.
use raw_quic.Prelude.{List, [], arith, false, none, refl, some, true, ℕ, ◌∷◌, ◌≡◌}
use raw_quic.Error.{ok}
use raw_quic.Codec.Decoder.{read_u8, read_u32, read, get_uint, be_value}
use raw_quic.Cid
use raw_quic.Frame.{handshake}
use raw_quic.Packet.Number.{packet_num_len}
use raw_quic.Packet.Truncation.{Restores, packet_num_restored}
use raw_quic.Packet.Header.{
  PacketHeader, from_bytes, header_info, long_header, read_long, read_cid, read_token, type_of,
  version_is_supported,
}
use raw_quic.Packet.Info.{header_info-from_bytes}

packet_num_restored_example :
    Restores 1100 1200 (packet_num_len 1200 (some 1000)) (record { out = []; room = 8 }) (7 ∷ [])
packet_num_restored_example =
    packet_num_restored 1000 1100 1200 (record { out = []; room = 8 }) (7 ∷ []) (omega arith)
      (omega arith) (omega arith) (omega arith) (omega arith)

-- A Handshake packet of version 1 with identifiers of two bytes and of one.
abbrev packet : List ℕ
packet = 224 ∷ 0 ∷ 0 ∷ 0 ∷ 1 ∷ 2 ∷ 21 ∷ 22 ∷ 1 ∷ 31 ∷ 99 ∷ []

abbrev header : PacketHeader
header = record {
  pkt_type = handshake;
  version = 1;
  dcid = Cid.new (21 ∷ 22 ∷ []);
  scid = Cid.new (31 ∷ []);
  pkt_num_len = 0;
  pkt_num = 0;
  token = none;
  key_phase = false;
}

read_packet : from_bytes 16 8 packet ≡ ok (header, 10)
unfolding from_bytes long_header read_long read_cid read_token type_of version_is_supported read_u8
    read_u32 read get_uint be_value Cid.new
read_packet = refl

header_info-from_bytes_example : header_info 8 packet ≡ ok (true, 1, Cid.new (21 ∷ 22 ∷ []))
header_info-from_bytes_example = header_info-from_bytes 16 8 10 packet header read_packet
