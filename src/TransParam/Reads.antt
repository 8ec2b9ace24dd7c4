-- ===== src/TransParam/Reads.antt =====
-- The decoder takes back each value.
use raw_quic.Prelude.{
  List, Option, ap, append_assoc, arith, length, none, refl, replicate, some, ℕ, ◌%◌, ◌++◌, ◌<◌,
  ◌^◌, ◌≡◌,
}
use raw_quic.Error.{ok}
use raw_quic.Cid
use raw_quic.Cid.{as_bytes}
use raw_quic.TransParam.Format.{
  Each, IsAddrV6, IsAddrV4, preferred_bytes, ipv4_bytes, ipv6_bytes, IsPreferred,
}
use raw_quic.TransParam.Preferred.{new_token, from_bytes, ipv4_of, ipv6_of}
use raw_quic.TransParam.{SocketAddrV4, SocketAddrV6, PreferredAddress}
use raw_quic.Codec.Encoder.{be_bytes}
use raw_quic.Codec.Bytes.{be_value-be_bytes_2}
use raw_quic.Codec.Decoder.{be_value, read, read_u16, read_ipv4_addr, read_ipv6_addr}
use raw_quic.Codec.RoundTrip.{read-append, get_uint-be_bytes, read_u8-bytes}
use raw_quic.Codec.Reading.{Reads}

pub be_value-be_bytes_16 : (n : ℕ) → be_value 0 (be_bytes 16 n) ≡ n % 2 ^ 128
unfolding be_value be_bytes
be_value-be_bytes_16 n = omega arith

read_u16-bytes : (n : ℕ) → n < 2 ^ 16 → Reads n (be_bytes 2 n) read_u16
unfolding read_u16
read_u16-bytes n h rest =
    let e : n % 2 ^ 16 ≡ n = omega arith in
    rw (get_uint-be_bytes 2 n rest, be_value-be_bytes_2 n, e)

ipv4-read : (ip : List ℕ) → length ip ≡ 4 → Reads ip ip read_ipv4_addr
unfolding read_ipv4_addr read
ipv4-read ip h = rw (← h) (read-append ip)

ipv6-read : (ip : List ℕ) → length ip ≡ 16 → Reads ip ip read_ipv6_addr
unfolding read_ipv6_addr read
ipv6-read ip h = rw (← h) (read-append ip)

pub token-read : (bs : List ℕ) → length bs ≡ 16 → Reads bs bs (read 16)
token-read bs h = rw (← h) (read-append bs)

new_token_lem : (bs : List ℕ) → length bs ≡ 16 → new_token bs ≡ ok bs
unfolding new_token
new_token_lem bs h = ground (arith, h)

-- What stands on the wire for an address, or for none.
record Wire {A : Type 0} (of : List ℕ → ℕ → Option A) (size : ℕ) (bytes : List ℕ) (o : Option A)
    : Type 0 where
  ip : List ℕ
  port : ℕ
  sized : length ip ≡ size
  word : port < 2 ^ 16
  shape : bytes ≡ ip ++ be_bytes 2 port
  back : of ip port ≡ o

ipv4-Wire : (o : Option SocketAddrV4) → Each IsAddrV4 o → Wire ipv4_of 4 (ipv4_bytes o) o
ipv4-Wire none h = record {
  ip = replicate 4 0;
  port = 0;
  sized = refl;
  word = omega arith;
  shape = refl;
  back = refl;
}
ipv4-Wire (some a) h = record {
  ip = a.ip;
  port = a.port;
  sized = h.four;
  word = h.word;
  shape = refl;
  back = rw h.given;
}

-- The two fields that the wire does not carry are 0.
plain_v6 :
    (a : SocketAddrV6)
    → (a.flowinfo ≡ 0) × (a.scope_id ≡ 0)
    → ◌≡◌ {A = SocketAddrV6} (record { ip = a.ip; port = a.port; flowinfo = 0; scope_id = 0 }) a
plain_v6 a h = ground (arith, h.0, h.1)

ipv6-Wire : (o : Option SocketAddrV6) → Each IsAddrV6 o → Wire ipv6_of 16 (ipv6_bytes o) o
ipv6-Wire none h = record {
  ip = replicate 16 0;
  port = 0;
  sized = refl;
  word = omega arith;
  shape = refl;
  back = refl;
}
ipv6-Wire (some a) h = record {
  ip = a.ip;
  port = a.port;
  sized = h.sixteen;
  word = h.word;
  shape = refl;
  back = rw h.given (ap some (plain_v6 a h.plain));
}

-- Reading the bytes of two addresses, an identifier and a token, in sequence.
fields-read :
    (ip4 ip6 cid token rest : List ℕ) (port4 port6 : ℕ)
    → length ip4 ≡ 4
    → port4 < 2 ^ 16
    → length ip6 ≡ 16
    → port6 < 2 ^ 16
    → length cid < 256
    → length token ≡ 16
    → from_bytes (
        ip4
        ++ (be_bytes 2 port4
            ++ (ip6
                ++ (be_bytes 2 port6 ++ (be_bytes 1 (length cid) ++ (cid ++ (token ++ rest)))))))
      ≡ ok (
        record {
          ipv4_address = ipv4_of ip4 port4;
          ipv6_address = ipv6_of ip6 port6;
          connection_id = Cid.new cid;
          stateless_reset_token = token;
        },
        rest,
      )
unfolding from_bytes
fields-read ip4 ip6 cid token rest port4 port6 a b c d e f = simp (
  ipv4-read ip4 a,
  ipv6-read ip6 c,
  read_u16-bytes port4 b,
  read_u16-bytes port6 d,
  read_u8-bytes (length cid) (cid ++ (token ++ rest)) e,
  read-append cid,
  token-read token f,
  new_token_lem token f,
)

-- A well-formed address is read back.
pub preferred-Reads :
    (p : PreferredAddress) → IsPreferred p → Reads p (preferred_bytes p) from_bytes
unfolding preferred_bytes
preferred-Reads p h rest =
    let v4 = ipv4-Wire p.ipv4_address h.ipv4 in
    let v6 = ipv6-Wire p.ipv6_address h.ipv6 in
    let cid : List ℕ = as_bytes p.connection_id in
    let token : List ℕ = p.stateless_reset_token in
    rw (v4.shape, v6.shape)
      (simp append_assoc (
        rw (v4.back, v6.back, h.cid.made) at
          (fields-read v4.ip v6.ip cid token rest v4.port v6.port v4.sized v4.word v6.sized v6.word
            (omega (arith, h.cid.short)) h.token)))
