-- ===== src/Packet/Safety.antt =====
-- `PacketHeader::from_bytes` on any bytes: it fails or returns a header, and does not panic.
use raw_quic.Prelude.{
  Bool, List, Option, [], arith, false, if◌then◌else◌, length, ltb, none, some, true, ℕ, ◌&&◌, ◌-◌,
  ◌≤◌,
}
use raw_quic.Error
use raw_quic.Error.{ok, err, invalid_packet}
use raw_quic.Cid
use raw_quic.Cid.{ConnectionId, as_bytes, max_cid_len, new-short}
use raw_quic.Codec.Decoder.{read, read_u8, read_u32, read_varint}
use raw_quic.Codec.Safety.{
  Ensures, bind-Ensures, if-Ensures, IsBytes, Left, Safe, step-Safe, Any, read-IsBytes,
  read_u8-Safe, read_u32-Safe, read_varint-Safe,
}
use raw_quic.Frame.{PacketType, version_negotiation, initial, zero_rtt, handshake, retry, one_rtt}
use raw_quic.Packet.Header.{
  PacketHeader, long_header, type_of, read_cid, read_token, read_short, read_long, from_bytes,
  version_is_supported,
}

-- At most the bytes that an identifier can have.
abbrev IsShort : ConnectionId → Type 0
IsShort cid = length (as_bytes cid) ≤ max_cid_len

abbrev pub IsRead : PacketHeader → Type 0
IsRead h = IsShort h.dcid × IsShort h.scid

cid-Safe : (version : ℕ) → Safe IsShort 0 (read_cid version)
unfolding read_cid
cid-Safe version =
    step-Safe {A = ℕ} Any IsShort 1 read_u8
      (λ n s.
        if version_is_supported version && ltb max_cid_len n
        then err invalid_packet
        else Error.◌>>=◌ (read n s) (λ q. ok (Cid.new q.0, q.1)))
      read_u8-Safe
      (λ n _ s b.
        if-Ensures {A = ConnectionId × List ℕ} (λ r. IsShort r.0 × Left 0 s r.1)
          (version_is_supported version && ltb max_cid_len n) (err invalid_packet)
          (Error.◌>>=◌ (read n s) (λ q. ok (Cid.new q.0, q.1))) (λ _. tt)
          (λ _.
            step-Safe {A = List ℕ} IsBytes IsShort 0 (read n) (λ c s. ok (Cid.new c, s))
              (read-IsBytes n) (λ c _ s b. (new-short c, (b, omega arith))) s b))

token-Safe :
    (tag_len : ℕ) (t : PacketType) → Safe {A = Option (List ℕ)} Any 0 (read_token tag_len t)
unfolding read_token
token-Safe tag_len initial =
    step-Safe {A = ℕ} {B = Option (List ℕ)} Any Any 1 read_varint
      (λ n s. if ltb 0 n then Error.◌>>=◌ (read n s) (λ q. ok (some q.0, q.1)) else ok (none, s))
      read_varint-Safe
      (λ n _ s b.
        if-Ensures {A = Option (List ℕ) × List ℕ} (λ r. Any r.0 × Left 0 s r.1) (ltb 0 n)
          (Error.◌>>=◌ (read n s) (λ q. ok (some q.0, q.1))) (ok (none, s))
          (λ _.
            step-Safe {A = List ℕ} {B = Option (List ℕ)} IsBytes Any 0 (read n)
              (λ c s. ok (some c, s)) (read-IsBytes n) (λ c _ s b. (tt, (b, omega arith))) s b)
          (λ _. (tt, (b, omega arith))))
token-Safe tag_len retry = λ s b.
    if-Ensures {A = Option (List ℕ) × List ℕ} (λ r. Any r.0 × Left 0 s r.1) (ltb (length s) tag_len)
      (err invalid_packet) (Error.◌>>=◌ (read (length s - tag_len) s) (λ q. ok (some q.0, q.1)))
      (λ _. tt)
      (λ _.
        step-Safe {A = List ℕ} {B = Option (List ℕ)} IsBytes Any 0 (read (length s - tag_len))
          (λ c s. ok (some c, s)) (read-IsBytes (length s - tag_len))
          (λ c _ s b. (tt, (b, omega arith))) s b)
token-Safe tag_len zero_rtt = λ s b. (tt, (b, omega arith))
token-Safe tag_len handshake = λ s b. (tt, (b, omega arith))
token-Safe tag_len one_rtt = λ s b. (tt, (b, omega arith))
token-Safe tag_len version_negotiation = λ s b. (tt, (b, omega arith))

long-Safe : (tag_len first : ℕ) → Safe IsRead 0 (read_long tag_len first)
unfolding read_long
long-Safe tag_len first s b =
    bind-Ensures (λ v. Any v.0 × Left 4 s v.1) (λ r. IsRead r.0 × Left 0 s r.1) (read_u32 s) _
      (read_u32-Safe s b)
      (λ v p.
        bind-Ensures (λ d. IsShort d.0 × Left 0 v.1 d.1) (λ r. IsRead r.0 × Left 0 s r.1)
          (read_cid v.0 v.1) _ (cid-Safe v.0 v.1 p.1.0)
          (λ d q.
            bind-Ensures (λ c. IsShort c.0 × Left 0 d.1 c.1) (λ r. IsRead r.0 × Left 0 s r.1)
              (read_cid v.0 d.1) _ (cid-Safe v.0 d.1 q.1.0)
              (λ c r.
                bind-Ensures (λ t. Any t.0 × Left 0 c.1 t.1) (λ r. IsRead r.0 × Left 0 s r.1)
                  (read_token tag_len (type_of v.0 first) c.1) _
                  (token-Safe tag_len (type_of v.0 first) c.1 r.1.0)
                  (λ t u. ((q.0, r.0), (u.1.0, omega (arith, p.1.1, q.1.1, r.1.1, u.1.1)))))))

short-Safe : (dcid_len : ℕ) → Safe IsRead 0 (read_short dcid_len)
unfolding read_short
short-Safe dcid_len s b =
    bind-Ensures (λ d. IsBytes d.0 × Left 0 s d.1) (λ r. IsRead r.0 × Left 0 s r.1)
      (read dcid_len s) _ (read-IsBytes dcid_len s b) (λ d p. ((new-short d.0, new-short []), p.1))

-- Reading a packet header from any bytes whatever does not panic, whatever length is taken for the
-- identifiers of short headers. It fails, or returns a header whose identifiers have at most 20 bytes,
-- with the number of its bytes, at least one and no more than there are.
pub from_bytes_header-Ensures :
    (tag_len dcid_len : ℕ) (buf : List ℕ)
    → IsBytes buf
    → Ensures {A = PacketHeader × ℕ}
        (λ r. IsRead r.0 × (1 ≤ r.1) × (r.1 ≤ length buf))
        (from_bytes tag_len dcid_len buf)
unfolding from_bytes
from_bytes_header-Ensures tag_len dcid_len buf b =
    bind-Ensures (λ f. Any f.0 × Left 1 buf f.1) (λ r. IsRead r.0 × (1 ≤ r.1) × (r.1 ≤ length buf))
      (read_u8 buf) _ (read_u8-Safe buf b)
      (λ f p.
        bind-Ensures (λ h. IsRead h.0 × Left 0 f.1 h.1)
          (λ r. IsRead r.0 × (1 ≤ r.1) × (r.1 ≤ length buf))
          ((if long_header f.0 then read_long tag_len f.0 else read_short dcid_len) f.1) _
          (either (long_header f.0) f.0 f.1 p.1.0)
          (λ h q. (q.0, omega (arith, p.1.1, q.1.1), omega arith)))
  where
    either :
        (test : Bool) (first : ℕ) (s : List ℕ)
        → IsBytes s
        → Ensures
            (λ h. IsRead h.0 × Left 0 s h.1)
            ((if test then read_long tag_len first else read_short dcid_len) s)
    either true first s b = long-Safe tag_len first s b
    either false first s b = short-Safe dcid_len s b
