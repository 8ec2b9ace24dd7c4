-- ===== src/Packet/Header.antt =====
-- Packet headers (src/packet.rs): `PacketHeader` with its writer and its readers.
use raw_quic.Prelude.{
  Bool, List, Option, [], false, if◌then◌else◌, leb, length, ltb, none, not, or_bit, some, true, ℕ,
  ◌%◌, ◌&&◌, ◌*◌, ◌+◌, ◌-◌, ◌/◌, ◌==◌,
}
use raw_quic.Error
use raw_quic.Error.{Result, ok, err, panic, internal_error, invalid_packet}
use raw_quic.Codec.Encoder
use raw_quic.Codec.Encoder.{Encoder, ◌>>◌, write_u8, write_u32, write_varint, write}
use raw_quic.Codec.Decoder.{Decoder, read_u8, read_u32, read_varint, read}
use raw_quic.Cid
use raw_quic.Cid.{ConnectionId, as_bytes, max_cid_len}
use raw_quic.Frame.{PacketType, version_negotiation, initial, zero_rtt, handshake, retry, one_rtt}

pub record PacketHeader : Type 0 where
  pub pkt_type : PacketType
  pub version : ℕ
  pub dcid : ConnectionId
  pub scid : ConnectionId
  pub pkt_num_len : ℕ
  pub pkt_num : ℕ
  pub token : Option (List ℕ)
  pub key_phase : Bool

-- The short form: the first byte, `0x40 | (pkt_num_len - 1) | 0x04`, and the identifier.
unfoldable pub write_short : PacketHeader → Encoder ℕ
write_short h =
    let first = 64 + (h.pkt_num_len - 1) in
    write_u8 (if h.key_phase then or_bit 2 first else first) >> write (as_bytes h.dcid)

-- The token's fields of an Initial or a Retry packet.
unfoldable pub write_token : PacketType → Option (List ℕ) → Encoder ℕ
write_token initial (some token) = write_varint (length token) >> write token
write_token initial none = write_varint 0
write_token retry (some token) = write token
write_token retry none = λ _. panic
write_token _ token = Encoder.return 0

-- The long form, with the bits of its type.
unfoldable pub write_long : ℕ → PacketHeader → Encoder ℕ
write_long pkt_type h = do
  write_u8 (192 + pkt_type * 16 + (h.pkt_num_len - 1))
  write_u32 h.version
  write_u8 (length (as_bytes h.dcid) % 256)
  write (as_bytes h.dcid)
  write_u8 (length (as_bytes h.scid) % 256)
  write (as_bytes h.scid)
  write_token h.pkt_type h.token

-- The two forms. The packet number has at most 16 bytes, so that the `|` on the first byte are sums.
unfoldable pub write_by_type : PacketType → PacketHeader → Encoder ℕ
write_by_type one_rtt h = write_short h
write_by_type initial h = write_long 0 h
write_by_type zero_rtt h = write_long 1 h
write_by_type handshake h = write_long 2 h
write_by_type retry h = write_long 3 h
write_by_type version_negotiation h = λ _. err internal_error

unfoldable pub write_header : PacketHeader → Encoder ℕ
unfolding write_by_type
write_header h = write_by_type h.pkt_type h

unfoldable pub to_bytes : PacketHeader → Encoder ℕ
to_bytes h w = Error.◌>>=◌ (write_header h w) (λ r. ok (w.room - (r.1).room, r.1))

-- `header_first_byte & 0x80 != 0`, on a byte.
unfoldable pub long_header : ℕ → Bool
long_header first = leb 128 first

-- `(first & 0x30) >> 4`, unless the version is 0.
unfoldable pub type_of : ℕ → ℕ → PacketType
type_of version first =
    if version == 0
    then version_negotiation
    else if first / 16 % 4 == 0
    then initial
    else if first / 16 % 4 == 1
    then zero_rtt
    else if first / 16 % 4 == 2
    then handshake
    else retry

-- `QUIC_VERSION_V1`.
unfoldable pub version_is_supported : ℕ → Bool
version_is_supported version = version == 1

-- An identifier behind its length, which is bounded in a version that is known.
unfoldable pub read_cid : ℕ → Decoder ConnectionId
read_cid version s = Error.◌>>=◌ (read_u8 s) (λ r.
    if version_is_supported version && ltb max_cid_len r.0
    then err invalid_packet
    else Error.◌>>=◌ (read r.0 r.1) (λ q. ok (Cid.new q.0, q.1)))

-- The token's fields of an Initial or a Retry packet. `tag_len` is the length of the tag of
-- AES_128_GCM, which the Retry packet ends with.
unfoldable pub read_token : ℕ → PacketType → Decoder (Option (List ℕ))
read_token tag_len initial s = Error.◌>>=◌ (read_varint s) (λ r.
    if ltb 0 r.0 then Error.◌>>=◌ (read r.0 r.1) (λ q. ok (some q.0, q.1)) else ok (none, r.1))
read_token tag_len retry s =
    if ltb (length s) tag_len
    then err invalid_packet
    else Error.◌>>=◌ (read (length s - tag_len) s) (λ q. ok (some q.0, q.1))
read_token tag_len _ s = ok (none, s)

-- The short form behind its first byte.
unfoldable pub read_short : ℕ → Decoder PacketHeader
read_short dcid_len s = Error.◌>>=◌ (read dcid_len s) (λ r. ok (
  record {
    pkt_type = one_rtt;
    version = 0;
    dcid = Cid.new r.0;
    scid = Cid.new [];
    pkt_num_len = 0;
    pkt_num = 0;
    token = none;
    key_phase = false;
  },
  r.1,
))

-- The long form behind its first byte.
unfoldable pub read_long : ℕ → ℕ → Decoder PacketHeader
read_long tag_len first s = Error.◌>>=◌ (read_u32 s) (λ v. Error.◌>>=◌ (read_cid v.0 v.1) (λ d.
    Error.◌>>=◌ (read_cid v.0 d.1) (λ c.
      Error.◌>>=◌ (read_token tag_len (type_of v.0 first) c.1) (λ t. ok (
        record {
          pkt_type = type_of v.0 first;
          version = v.0;
          dcid = d.0;
          scid = c.0;
          pkt_num_len = 0;
          pkt_num = 0;
          token = t.0;
          key_phase = false;
        },
        t.1,
      )))))

unfoldable pub from_bytes : ℕ → ℕ → List ℕ → Result (PacketHeader × ℕ)
from_bytes tag_len dcid_len buf = Error.◌>>=◌ (read_u8 buf) (λ r.
    Error.◌>>=◌ ((if long_header r.0 then read_long tag_len r.0 else read_short dcid_len) r.1)
      (λ h. ok (h.0, length buf - length h.1)))

unfoldable pub header_info : ℕ → List ℕ → Result (Bool × ℕ × ConnectionId)
header_info dcid_len buf = Error.◌>>=◌ (read_u8 buf) (λ r.
    if not (long_header r.0)
    then Error.◌>>=◌ (read dcid_len r.1) (λ q. ok (false, 0, Cid.new q.0))
    else Error.◌>>=◌ (read_u32 r.1) (λ v.
      Error.◌>>=◌ (read_u8 v.1)
        (λ l. Error.◌>>=◌ (read l.0 l.1) (λ q. ok (true, v.0, Cid.new q.0)))))
