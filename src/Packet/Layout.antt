-- ===== src/Packet/Layout.antt =====
-- The layout of packet headers (RFC 9000, section 17), and that `to_bytes` writes it.
use raw_quic.Prelude.{
  List, Option, [], arith, if◌then◌else◌, length, ltb, none, or_bit, some, sym, ℕ, ◌%◌, ◌*◌, ◌++◌,
  ◌+◌, ◌-◌, ◌<◌, ◌^◌, ◌≡◌, ◌≤◌,
}
use raw_quic.Error.{err, ok}
use raw_quic.Error
use raw_quic.Cid.{ConnectionId, as_bytes, IsCid}
use raw_quic.Codec.{vint_max}
use raw_quic.Codec.Encoder.{Encoder, ◌>>◌, be_bytes, write_u8, write_u32, write, Writer, put}
use raw_quic.Codec.Bytes.{length-be_bytes}
use raw_quic.Codec.VarintBytes.{
  Emits, varint_bytes, write-Emits, write_u8-Emits, write_varint-Emits,
}
use raw_quic.Codec.Emitting.{Emits-then, Emits-nil, number_then, counted_lem}
use raw_quic.Frame.{PacketType, version_negotiation, initial, zero_rtt, handshake, retry, one_rtt}
use mathlib.Core.Path.{subst}
use raw_quic.Packet.Header.{
  write_by_type, PacketHeader, write_token, write_header, write_long, write_short, to_bytes,
}

-- The two bits of a long packet type.
abbrev pub type_bits : PacketType → ℕ
type_bits initial = 0
type_bits zero_rtt = 1
type_bits handshake = 2
type_bits retry = 3
type_bits _ = 0

unfoldable pub token_bytes : PacketType → Option (List ℕ) → List ℕ
token_bytes initial (some token) = varint_bytes (length token) ++ token
token_bytes initial none = varint_bytes 0
token_bytes retry (some token) = token
token_bytes _ _ = []

-- 0x40, with the key phase in bit 2 and the length of the packet number in bits 0 and 1.
abbrev pub short_first : PacketHeader → ℕ
short_first h = if h.key_phase then 64 + 4 + (h.pkt_num_len - 1) else 64 + (h.pkt_num_len - 1)

abbrev pub long_first : PacketType → PacketHeader → ℕ
long_first t h = 192 + type_bits t * 16 + (h.pkt_num_len - 1)

unfoldable pub long_bytes : PacketType → PacketHeader → List ℕ
long_bytes t h =
    be_bytes 1 (long_first t h)
    ++ (be_bytes 4 h.version
        ++ (be_bytes 1 (length (as_bytes h.dcid))
            ++ (as_bytes h.dcid
                ++ (be_bytes 1 (length (as_bytes h.scid))
                    ++ (as_bytes h.scid ++ token_bytes t h.token)))))

unfoldable pub header_bytes : PacketType → PacketHeader → List ℕ
header_bytes one_rtt h = be_bytes 1 (short_first h) ++ as_bytes h.dcid
header_bytes t h = long_bytes t h

-- A token that the type of the packet may carry.
abbrev pub IsToken : PacketType → Option (List ℕ) → Type 0
IsToken initial (some token) = length token ≤ vint_max
IsToken retry none = ⊥
IsToken version_negotiation _ = ⊥
IsToken _ _ = Unit {0}

-- A long header has a version on four bytes; 0 is that of Version Negotiation.
abbrev pub IsVersion : PacketType → ℕ → Type 0
IsVersion one_rtt version = Unit {0}
IsVersion _ version = (0 < version) × (version < 2 ^ 32)

-- A header of a packet of type `t` that may be sent.
pub record IsHeader (t : PacketType) (h : PacketHeader) : Type 0 where
  pub typed : h.pkt_type ≡ t
  pub dcid : IsCid h.dcid
  pub scid : IsCid h.scid
  pub version : IsVersion t h.version
  pub pkt_num_len : h.pkt_num_len ≤ 4
  pub token : IsToken t h.token

write_u32-Emits : (n : ℕ) → Emits (be_bytes 4 n) (write_u32 n)
unfolding write_u32
write_u32-Emits n w = ground (arith, length-be_bytes 4 n)

token-Emits :
    (t : PacketType) (o : Option (List ℕ)) → IsToken t o → Emits (token_bytes t o) (write_token t o)
unfolding write_token token_bytes
token-Emits initial (some token) h =
    number_then (length token) token (write token) h (write-Emits token)
token-Emits initial none h = write_varint-Emits 0 (omega arith)
token-Emits retry (some token) h = write-Emits token
token-Emits retry none h = elim h [ ]
token-Emits version_negotiation o h = elim h [ ]
token-Emits zero_rtt o h = Emits-nil {A = ℕ} 0
token-Emits handshake o h = Emits-nil {A = ℕ} 0
token-Emits one_rtt o h = Emits-nil {A = ℕ} 0

cid-Emits :
    (cid : ConnectionId) (bs : List ℕ) (k : Encoder ℕ)
    → IsCid cid
    → Emits bs k
    → Emits
        (be_bytes 1 (length (as_bytes cid)) ++ (as_bytes cid ++ bs))
        (write_u8 (length (as_bytes cid) % 256) >> (write (as_bytes cid) >> k))
cid-Emits cid bs k h g =
    let e : length (as_bytes cid) % 256 ≡ length (as_bytes cid) = omega (arith, h.short) in
    rw e (
      Emits-then (be_bytes 1 (length (as_bytes cid))) _ (write_u8 (length (as_bytes cid))) _
        (write_u8-Emits (length (as_bytes cid)))
        (Emits-then (as_bytes cid) bs (write (as_bytes cid)) k (write-Emits (as_bytes cid)) g))

long-Emits :
    (t : PacketType) (h : PacketHeader)
    → IsHeader t h
    → Emits (long_bytes t h) (write_long (type_bits t) h)
unfolding write_long long_bytes
long-Emits t h v =
    Emits-then (be_bytes 1 (long_first t h)) _ (write_u8 (long_first t h)) _
      (write_u8-Emits (long_first t h))
      (Emits-then (be_bytes 4 h.version) _ (write_u32 h.version) _ (write_u32-Emits h.version) (
        cid-Emits h.dcid _ _ v.dcid
          (cid-Emits h.scid _ _ v.scid (simp v.typed (token-Emits t h.token v.token)))))

short-Emits :
    (h : PacketHeader)
    → IsHeader one_rtt h
    → Emits (be_bytes 1 (short_first h) ++ as_bytes h.dcid) (write_short h)
unfolding write_short
short-Emits h v =
    let e : (if h.key_phase then or_bit 2 (64 + (h.pkt_num_len - 1)) else 64 + (h.pkt_num_len - 1))
        ≡ short_first h =
      ground (arith, v.pkt_num_len) in
    rw e (
      Emits-then (be_bytes 1 (short_first h)) (as_bytes h.dcid) (write_u8 (short_first h))
        (write (as_bytes h.dcid)) (write_u8-Emits (short_first h)) (write-Emits (as_bytes h.dcid)))

type-Emits :
    (t : PacketType) (h : PacketHeader)
    → IsHeader t h
    → Emits (header_bytes t h) (write_by_type t h)
unfolding write_by_type header_bytes
type-Emits one_rtt h v = short-Emits h v
type-Emits initial h v = long-Emits initial h v
type-Emits zero_rtt h v = long-Emits zero_rtt h v
type-Emits handshake h v = long-Emits handshake h v
type-Emits retry h v = long-Emits retry h v
type-Emits version_negotiation h v = elim v.token [ ]

header-Emits :
    (t : PacketType) (h : PacketHeader) → IsHeader t h → Emits (header_bytes t h) (write_header h)
unfolding write_header
header-Emits t h v =
    subst (λ u. Emits (header_bytes t h) (write_by_type u h)) (sym v.typed) (type-Emits t h v)

-- Writing a header that may be sent, on both branches: with room for its layout it is appended, and its
-- length returned; otherwise the buffer is too short.
pub to_bytes_header :
    (t : PacketType) (h : PacketHeader) (w : Writer)
    → IsHeader t h
    → to_bytes h w ≡ (
        if ltb w.room (length (header_bytes t h))
        then err Error.buffer_too_short
        else ok (length (header_bytes t h), put (header_bytes t h) w))
unfolding to_bytes
to_bytes_header t h w v = counted_lem (header_bytes t h) (write_header h) (header-Emits t h v) w
