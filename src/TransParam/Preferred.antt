-- ===== src/TransParam/Preferred.antt =====
-- A server's preferred address on the wire (src/trans_param.rs).
use raw_quic.Prelude.{
  Bool, List, Option, [], if◌then◌else◌, length, ltb, none, replicate, some, true, ℕ, ◌&&◌, ◌+◌,
  ◌==◌, ◌∷◌,
}
use raw_quic.Error.{Result, ok, err, panic, buffer_too_short}
use raw_quic.Cid
use raw_quic.Cid.{as_bytes}
use raw_quic.Codec.Encoder.{Encoder, ◌>>◌, write_u8, write_u16, write}
use raw_quic.Codec.Decoder
use raw_quic.Codec.Decoder.{
  Decoder, ◌>>=◌, return, read_u8, read_u16, read, read_ipv4_addr, read_ipv6_addr,
}
use raw_quic.TransParam.{SocketAddrV4, SocketAddrV6, PreferredAddress}

abbrev pub reset_token_len : ℕ
reset_token_len = 16

unfoldable pub wire_len : PreferredAddress → ℕ
unfolding as_bytes
wire_len p = 4 + 2 + 16 + 2 + 1 + length (as_bytes p.connection_id) + 16

unfoldable pub write_ipv4 : Option SocketAddrV4 → Encoder ℕ
unfolding write write_u16
write_ipv4 (some addr) = do write addr.ip; write_u16 addr.port
write_ipv4 none = do write (replicate 4 0); write_u16 0

unfoldable pub write_ipv6 : Option SocketAddrV6 → Encoder ℕ
unfolding write write_u16
write_ipv6 (some addr) = do write addr.ip; write_u16 addr.port
write_ipv6 none = do write (replicate 16 0); write_u16 0

-- The number of bytes written is what `to_bytes` returns.
unfoldable pub to_bytes : PreferredAddress → Encoder ℕ
unfolding write_ipv4 write_ipv6 write_u8 write as_bytes
to_bytes p = do
  write_ipv4 p.ipv4_address
  write_ipv6 p.ipv6_address
  write_u8 (length (as_bytes p.connection_id))
  write (as_bytes p.connection_id)
  write p.stateless_reset_token

abbrev pub is_unspecified : List ℕ → Bool
is_unspecified [] = true
is_unspecified (b ∷ bs) = (b == 0) && is_unspecified bs

abbrev pub ipv4_of : List ℕ → ℕ → Option SocketAddrV4
ipv4_of ip port =
    if is_unspecified ip && (port == 0) then none else some (record { ip = ip; port = port })

abbrev pub ipv6_of : List ℕ → ℕ → Option SocketAddrV6
ipv6_of ip port =
    if is_unspecified ip && (port == 0)
    then none
    else some (record { ip = ip; port = port; flowinfo = 0; scope_id = 0 })

-- `ResetToken::new`: `clone_from_slice` panics on a slice of another length.
unfoldable pub new_token : List ℕ → Result (List ℕ)
new_token bytes =
    if ltb (length bytes) reset_token_len
    then err buffer_too_short
    else if length bytes == reset_token_len
    then ok bytes
    else panic

unfoldable pub from_bytes : Decoder PreferredAddress
from_bytes = do
  ipv4_addr ← read_ipv4_addr
  ipv4_port ← read_u16
  ipv6_addr ← read_ipv6_addr
  ipv6_port ← read_u16
  cid_len ← read_u8
  cid ← read cid_len
  token ← read reset_token_len
  token' ← Decoder.lift (new_token token)
  return (record {
    ipv4_address = ipv4_of ipv4_addr ipv4_port;
    ipv6_address = ipv6_of ipv6_addr ipv6_port;
    connection_id = Cid.new cid;
    stateless_reset_token = token';
  })
