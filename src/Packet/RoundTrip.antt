-- ===== src/Packet/RoundTrip.antt =====
-- `PacketHeader::from_bytes` takes back what `to_bytes` wrote.
use raw_quic.Prelude.{
  Bool, List, Option, [], ap, append-nil, append_assoc, arith, false, if◌then◌else◌, leb, length,
  length-append, ltb, lt→leb, none, refl, some, suc, sym, true, ℕ, ◌%◌, ◌&&◌, ◌*◌, ◌++◌, ◌+◌, ◌-◌,
  ◌<◌, ◌^◌, ◌∙◌, ◌∷◌, ◌≡◌, ◌≤◌,
}
use raw_quic.Error.{ok, Result, err}
use raw_quic.Cid
use raw_quic.Cid.{ConnectionId, as_bytes, IsCid, max_cid_len}
use raw_quic.Codec.Encoder.{be_bytes, Writer, put}
use raw_quic.Codec.Bytes.{be_value-be_bytes_4}
use raw_quic.Codec.Decoder.{read_u32, read_u8}
use raw_quic.Codec.VarintBytes.{varint_bytes}
use raw_quic.Codec.RoundTrip.{get_uint-be_bytes, read_u8-bytes, read_varint-bytes, read-append}
use raw_quic.Frame.{PacketType, version_negotiation, initial, zero_rtt, handshake, retry, one_rtt}
use raw_quic.Error
use raw_quic.Packet.Header.{
  from_bytes, to_bytes, long_header, read_short, PacketHeader, read_cid, read_token,
  version_is_supported, type_of, read_long,
}
use raw_quic.Packet.Layout.{
  long_bytes, header_bytes, short_first, long_first, to_bytes_header, token_bytes, IsToken,
  IsHeader, type_bits,
}

-- The token that is read: an empty one in an Initial packet stands for none.
pub sent_token : PacketType → Option (List ℕ) → Option (List ℕ)
sent_token initial (some []) = none
sent_token initial o = o
sent_token retry o = o
sent_token _ o = none

-- The header as it is read: without the packet number, and, if the header is short, without the version
-- and the source identifier.
pub carried : PacketType → PacketHeader → PacketHeader
carried one_rtt h = record {
  pkt_type = one_rtt;
  version = 0;
  dcid = h.dcid;
  scid = Cid.new [];
  pkt_num_len = 0;
  pkt_num = 0;
  token = none;
  key_phase = false;
}
carried t h = record {
  pkt_type = t;
  version = h.version;
  dcid = h.dcid;
  scid = h.scid;
  pkt_num_len = 0;
  pkt_num = 0;
  token = sent_token t h.token;
  key_phase = false;
}

-- Behind the token of a Retry packet stands the tag, and nothing else.
abbrev pub Behind : PacketType → ℕ → List ℕ → Type 0
Behind retry tag_len rest = length rest ≡ tag_len
Behind _ tag_len rest = Unit {0}

u32-read : (n : ℕ) (rest : List ℕ) → n < 2 ^ 32 → read_u32 (be_bytes 4 n ++ rest) ≡ ok (n, rest)
unfolding read_u32
u32-read n rest h =
    let e : n % 2 ^ 32 ≡ n = omega arith in
    rw (get_uint-be_bytes 4 n rest, be_value-be_bytes_4 n, e)

cid-read :
    (version : ℕ) (cid : ConnectionId) (rest : List ℕ)
    → IsCid cid
    → read_cid version (be_bytes 1 (length (as_bytes cid)) ++ (as_bytes cid ++ rest))
      ≡ ok (cid, rest)
unfolding read_cid
cid-read version cid rest h =
    let e : ltb max_cid_len (length (as_bytes cid)) ≡ false = ground (arith, h.short) in
    let f : (version_is_supported version && ltb max_cid_len (length (as_bytes cid))) ≡ false =
      rw e (and-false (version_is_supported version)) in
    rw (
      read_u8-bytes (length (as_bytes cid)) (as_bytes cid ++ rest) (omega (arith, h.short)),
      f,
      read-append (as_bytes cid) rest,
      h.made,
    )
  where
    and-false : (b : Bool) → (b && false) ≡ false
    and-false true = refl
    and-false false = refl

token-read :
    (tag_len : ℕ) (t : PacketType) (o : Option (List ℕ)) (rest : List ℕ)
    → IsToken t o
    → Behind t tag_len rest
    → read_token tag_len t (token_bytes t o ++ rest) ≡ ok (sent_token t o, rest)
unfolding read_token token_bytes sent_token
token-read tag_len initial none rest h b = rw (read_varint-bytes 0 rest (omega arith))
token-read tag_len initial (some []) rest h b =
    rw (append-nil (varint_bytes 0), read_varint-bytes 0 rest (omega arith))
token-read tag_len initial (some (c ∷ cs)) rest h b =
    let e : ltb 0 (suc (length cs)) ≡ true = ground arith in
    rw (append_assoc (varint_bytes (suc (length cs))) (c ∷ cs) rest)
      (rw (read_varint-bytes (suc (length cs)) ((c ∷ cs) ++ rest) h, e, read-append (c ∷ cs) rest))
token-read tag_len retry none rest h b = elim h [ ]
token-read tag_len retry (some token) rest h b =
    let e : ltb (length (token ++ rest)) tag_len ≡ false =
      ground (arith, b, length-append token rest) in
    let f : length (token ++ rest) - tag_len ≡ length token =
      omega (arith, b, length-append token rest) in
    rw (e, f, read-append token rest)
token-read tag_len zero_rtt o rest h b = refl
token-read tag_len handshake o rest h b = refl
token-read tag_len one_rtt o rest h b = refl
token-read tag_len version_negotiation o rest h b = elim h [ ]

-- The types with a long header.
abbrev IsLong : PacketType → Type 0
IsLong one_rtt = ⊥
IsLong version_negotiation = ⊥
IsLong _ = Unit {0}

-- The type is read back from the bits of the first byte.
type_of-first :
    (t : PacketType) (version low : ℕ)
    → IsLong t
    → 0 < version
    → low ≤ 3
    → type_of version (192 + type_bits t * 16 + low) ≡ t
unfolding type_of
type_of-first initial version low l h k = ground arith
type_of-first zero_rtt version low l h k = ground arith
type_of-first handshake version low l h k = ground arith
type_of-first retry version low l h k = ground arith
type_of-first one_rtt version low l h k = elim l [ ]
type_of-first version_negotiation version low l h k = elim l [ ]

-- A long header with its first byte.
long-read :
    (tag_len : ℕ) (t : PacketType) (h : PacketHeader) (rest : List ℕ)
    → IsLong t
    → IsHeader t h
    → (0 < h.version) × (h.version < 2 ^ 32)
    → Behind t tag_len rest
    → read_long tag_len (long_first t h) (
        be_bytes 4 h.version
        ++ (be_bytes 1 (length (as_bytes h.dcid))
            ++ (as_bytes h.dcid
                ++ (be_bytes 1 (length (as_bytes h.scid))
                    ++ (as_bytes h.scid ++ (token_bytes t h.token ++ rest))))))
      ≡ ok (
        record {
          pkt_type = t;
          version = h.version;
          dcid = h.dcid;
          scid = h.scid;
          pkt_num_len = 0;
          pkt_num = 0;
          token = sent_token t h.token;
          key_phase = false;
        },
        rest,
      )
unfolding read_long
long-read tag_len t h rest l v version b =
    let e : type_of h.version (long_first t h) ≡ t =
      type_of-first t h.version (h.pkt_num_len - 1) l version.0 (omega (arith, v.pkt_num_len)) in
    let tail : List ℕ = token_bytes t h.token ++ rest in
    rw (
      u32-read h.version _ version.1,
      cid-read h.version h.dcid _ v.dcid,
      cid-read h.version h.scid tail v.scid,
      e,
      token-read tag_len t h.token rest v.token b,
    )

counted : (bs rest : List ℕ) → length (bs ++ rest) - length rest ≡ length bs
counted bs rest = omega (arith, length-append bs rest)

long_front :
    (t : PacketType) (h : PacketHeader) (rest : List ℕ)
    → long_bytes t h ++ rest
      ≡ be_bytes 1 (long_first t h)
        ++ (be_bytes 4 h.version
            ++ (be_bytes 1 (length (as_bytes h.dcid))
                ++ (as_bytes h.dcid
                    ++ (be_bytes 1 (length (as_bytes h.scid))
                        ++ (as_bytes h.scid ++ (token_bytes t h.token ++ rest))))))
unfolding long_bytes
long_front t h rest = simp append_assoc

type_bits-le : (t : PacketType) → type_bits t ≤ 3
type_bits-le t = ground arith

from_bytes-long :
    (tag_len dcid_len : ℕ) (t : PacketType) (h : PacketHeader) (rest : List ℕ)
    → IsLong t
    → IsHeader t h
    → (0 < h.version) × (h.version < 2 ^ 32)
    → Behind t tag_len rest
    → from_bytes tag_len dcid_len (long_bytes t h ++ rest)
      ≡ ok (
        record {
          pkt_type = t;
          version = h.version;
          dcid = h.dcid;
          scid = h.scid;
          pkt_num_len = 0;
          pkt_num = 0;
          token = sent_token t h.token;
          key_phase = false;
        },
        length (long_bytes t h),
      )
unfolding from_bytes
from_bytes-long tag_len dcid_len t h rest l v version b =
    let small : long_first t h < 256 = omega (arith, v.pkt_num_len, type_bits-le t) in
    let high : long_header (long_first t h) ≡ true =
      long_header-first (long_first t h) (omega arith) in
    rw (
      ap read_u8 (long_front t h rest) ∙ read_u8-bytes (long_first t h) _ small,
      high,
      long-read tag_len t h rest l v version b,
      counted (long_bytes t h) rest,
    )
  where
    long_header-first : (n : ℕ) → 192 ≤ n → long_header n ≡ true
    long_header-first n h = unfold long_header in ground arith

from_bytes-short :
    (tag_len : ℕ) (h : PacketHeader) (rest : List ℕ)
    → IsHeader one_rtt h
    → from_bytes tag_len (length (as_bytes h.dcid)) (header_bytes one_rtt h ++ rest)
      ≡ ok (carried one_rtt h, length (header_bytes one_rtt h))
unfolding from_bytes header_bytes carried long_header read_short
from_bytes-short tag_len h rest v =
    let small : short_first h < 128 = ground (arith, v.pkt_num_len) in
    let low : leb 128 (short_first h) ≡ false = lt→leb _ _ small in
    rw (
      ap read_u8 (append_assoc (be_bytes 1 (short_first h)) (as_bytes h.dcid) rest)
          ∙ read_u8-bytes (short_first h) (as_bytes h.dcid ++ rest) (omega arith),
      low,
      read-append (as_bytes h.dcid) rest,
      v.dcid.made,
      counted (be_bytes 1 (short_first h) ++ as_bytes h.dcid) rest,
    )

from_bytes-header :
    (tag_len : ℕ) (t : PacketType) (h : PacketHeader) (rest : List ℕ)
    → IsHeader t h
    → Behind t tag_len rest
    → from_bytes tag_len (length (as_bytes h.dcid)) (header_bytes t h ++ rest)
      ≡ ok (carried t h, length (header_bytes t h))
unfolding header_bytes carried
from_bytes-header tag_len one_rtt h rest v b = from_bytes-short tag_len h rest v
from_bytes-header tag_len initial h rest v b =
    from_bytes-long tag_len _ initial h rest tt v v.version b
from_bytes-header tag_len zero_rtt h rest v b =
    from_bytes-long tag_len _ zero_rtt h rest tt v v.version b
from_bytes-header tag_len handshake h rest v b =
    from_bytes-long tag_len _ handshake h rest tt v v.version b
from_bytes-header tag_len retry h rest v b = from_bytes-long tag_len _ retry h rest tt v v.version b
from_bytes-header tag_len version_negotiation h rest v b = elim v.token [ ]

-- What `to_bytes` wrote into an empty buffer, for a header of each type that it writes, with a version
-- other than 0 if it is long, identifiers as `ConnectionId::new` makes them, a packet number of at most
-- 4 bytes and, in a Retry packet, a token, `from_bytes` reads back under the length of the destination
-- identifier, whatever follows it (behind a Retry packet's token, the tag): the same type, version, identifiers and token, and the number of bytes that
-- `to_bytes` returned. The packet number and the key phase are not read here, an empty token is read as
-- none, and a short header has neither a version nor a source identifier.
pub from_bytes-written :
    (tag_len room n : ℕ) (t : PacketType) (h : PacketHeader) (rest : List ℕ) (w : Writer)
    → IsHeader t h
    → Behind t tag_len rest
    → to_bytes h (record { out = []; room = room }) ≡ ok (n, w)
    → from_bytes tag_len (length (as_bytes h.dcid)) (w.out ++ rest) ≡ ok (carried t h, n)
from_bytes-written tag_len room n t h rest w v b e =
    let (bytes, count) = written in rw (bytes, count) (from_bytes-header tag_len t h rest v b)
  where
    sent : List ℕ
    sent = header_bytes t h

    start : Writer
    start = record { out = []; room = room }

    answer : Result (ℕ × Writer)
    answer =
        if ltb room (length sent)
        then err Error.buffer_too_short
        else ok (length sent, put sent start)

    shape : answer ≡ ok (n, w)
    shape = sym (to_bytes_header t h start v) ∙ e

    written : (w.out ≡ sent) × (n ≡ length sent)
    written = ground (arith, shape)
