-- ===== src/Examples/Params.antt =====
-- Transport parameters and headers at concrete inputs.
use raw_quic.Prelude.{List, [], arith, false, inr, refl, some, true, ℕ, ◌++◌, ◌∷◌, ◌≡◌, ◌≤◌}
use raw_quic.Cid
use raw_quic.Cid.{as_bytes}
use raw_quic.Codec.{encode_varint_len}
use raw_quic.Codec.Encoder.{
  write_u8, write_u32, write_varint, write_varint_with_len, put_varint, write, be_bytes,
}
use raw_quic.Codec.Safety.{Ensures}
use raw_quic.Error.{ok}
use raw_quic.Frame.{Frame, validate_frame, one_rtt, initial}
use raw_quic.Frame.Decode.{from_bytes}
use raw_quic.Frame.Readers.{IsDecoded}
use raw_quic.Frame.Safety.{from_bytes-Ensures}
use raw_quic.Packet.Header
use raw_quic.Packet.Header.{
  PacketHeader, to_bytes, write_header, write_by_type, write_long, write_token,
}
use raw_quic.Packet.Layout.{IsHeader}
use raw_quic.Packet.RoundTrip.{carried, from_bytes-written}
use raw_quic.Packet.Safety.{IsRead, from_bytes_header-Ensures}
use raw_quic.TransParam.{TransportParams, default}
use raw_quic.TransParam.Decode.{decode}
use raw_quic.TransParam.Encode
use raw_quic.TransParam.Encode.{
  encode, encode_params, write_number, write_nonzero, write_bytes, write_cid, write_flag,
  write_preferred,
}
use raw_quic.TransParam.Format.{IsSendable}
use raw_quic.TransParam.RoundTrip.{received, decode-encode}
use raw_quic.TransParam.Accepted.{IsAccepted, decode-Ensures}

abbrev params_sent : TransportParams
params_sent = record default {
  max_idle_timeout = 30000;
  stateless_reset_token = some 258;
  ack_delay_exponent = 0;
  initial_source_connection_id = some (Cid.new (7 ∷ 8 ∷ []));
}

-- A Handshake packet of version 1 with identifiers of two bytes and of one.
abbrev packet : List ℕ
packet = 224 ∷ 0 ∷ 0 ∷ 0 ∷ 1 ∷ 2 ∷ 21 ∷ 22 ∷ 1 ∷ 31 ∷ 99 ∷ []

abbrev params_bytes_sent : List ℕ
params_bytes_sent =
    1 ∷ 4 ∷ 128 ∷ 0 ∷ 117 ∷ 48 ∷ 2 ∷ 16 ∷ 0 ∷ 0 ∷ 0 ∷ 0 ∷ 0 ∷ 0 ∷ 0 ∷ 0 ∷ 0 ∷ 0 ∷ 0 ∷ 0 ∷ 0 ∷ 0 ∷ 1
    ∷ 2 ∷ 3 ∷ 4 ∷ 128 ∷ 0 ∷ 255 ∷ 247 ∷ 11 ∷ 1 ∷ 25 ∷ 14 ∷ 1 ∷ 2 ∷ 15 ∷ 2 ∷ 7 ∷ 8 ∷ []

params_encode :
    encode params_sent true (record { out = []; room = 100 })
    ≡ ok (40, record { out = params_bytes_sent; room = 60 })
unfolding encode encode_params write_number write_nonzero write_bytes write_cid Encode.write_token
    write_flag write_preferred write_varint write_varint_with_len encode_varint_len put_varint write
    be_bytes as_bytes Cid.new
params_encode = refl

params_sent-IsSendable : IsSendable params_sent true
unfolding as_bytes Cid.new
params_sent-IsSendable = record {
  original = tt;
  idle = omega arith;
  token = omega arith;
  payload = omega arith;
  payload_min = inr (omega arith);
  initial = omega arith;
  bidi_local = omega arith;
  bidi_remote = omega arith;
  uni = omega arith;
  streams_bidi = omega arith;
  streams_uni = omega arith;
  exponent = omega arith;
  delay = omega arith;
  preferred = tt;
  preferred_server = λ e. refl;
  cid_limit = omega arith;
  source = record { short = omega arith; made = refl };
  retry = tt;
}

decode-encode_example : decode params_bytes_sent false ≡ ok (received params_sent true, 40)
decode-encode_example =
    decode-encode params_sent true 100 40 (record { out = params_bytes_sent; room = 60 })
      params_sent-IsSendable params_encode

decode-Ensures_example :
    Ensures {A = TransportParams × ℕ}
      (λ r. IsAccepted true r.0 × (r.1 ≡ 40))
      (decode params_bytes_sent true)
decode-Ensures_example = decode-Ensures params_bytes_sent true (omega arith)

from_bytes-Ensures_example :
    Ensures {A = Frame × ℕ}
      (λ r. IsDecoded r.0 × (validate_frame one_rtt r.0 ≡ true) × (1 ≤ r.1) × (r.1 ≤ 5))
      (from_bytes (0x0b ∷ 4 ∷ 2 ∷ 65 ∷ 66 ∷ []) one_rtt)
from_bytes-Ensures_example = from_bytes-Ensures (0x0b ∷ 4 ∷ 2 ∷ 65 ∷ 66 ∷ []) one_rtt (omega arith)

from_bytes_header-Ensures_example :
    Ensures {A = PacketHeader × ℕ}
      (λ r. IsRead r.0 × (1 ≤ r.1) × (r.1 ≤ 11))
      (Header.from_bytes 16 8 packet)
from_bytes_header-Ensures_example = from_bytes_header-Ensures 16 8 packet (omega arith)

-- An Initial packet of version 1 with a token.
abbrev header_sent : PacketHeader
header_sent = record {
  pkt_type = initial;
  version = 1;
  dcid = Cid.new (21 ∷ 22 ∷ []);
  scid = Cid.new (31 ∷ []);
  pkt_num_len = 2;
  pkt_num = 5;
  token = some (77 ∷ []);
  key_phase = false;
}

header_sent-IsHeader : IsHeader initial header_sent
unfolding as_bytes Cid.new
header_sent-IsHeader = record {
  typed = refl;
  dcid = record { short = omega arith; made = refl };
  scid = record { short = omega arith; made = refl };
  version = omega arith;
  pkt_num_len = omega arith;
  token = omega arith;
}

abbrev header_written : List ℕ
header_written = 193 ∷ 0 ∷ 0 ∷ 0 ∷ 1 ∷ 2 ∷ 21 ∷ 22 ∷ 1 ∷ 31 ∷ 1 ∷ 77 ∷ []

header_to_bytes :
    to_bytes header_sent (record { out = []; room = 50 })
    ≡ ok (12, record { out = header_written; room = 38 })
unfolding to_bytes write_header write_by_type write_long write_token write_u8 write_u32 write_varint
    write_varint_with_len encode_varint_len put_varint write be_bytes as_bytes Cid.new
header_to_bytes = refl

from_bytes-written_example :
    Header.from_bytes 16 2 (header_written ++ (99 ∷ [])) ≡ ok (carried initial header_sent, 12)
unfolding as_bytes Cid.new
from_bytes-written_example =
    from_bytes-written 16 50 12 initial header_sent (99 ∷ [])
      (record { out = header_written; room = 38 }) header_sent-IsHeader tt header_to_bytes
