-- ===== src/TransParam/Writes.antt =====
-- `encode` writes the format.
use raw_quic.Prelude.{
  Bool, Bool-cases, List, Option, [], append-nil, arith, false, inl, inr, length, length-append,
  none, refl, replicate, some, true, ℕ, ◌++◌, ◌==◌, ◌≡◌, ◌≤◌,
}
use raw_quic.Cid.{ConnectionId, as_bytes}
use raw_quic.Codec.{vint_max}
use raw_quic.Codec.Encoder.{Encoder, ◌>>◌, return, be_bytes, write_u16, write}
use raw_quic.Codec.Bytes.{length-be_bytes}
use raw_quic.Codec.VarintBytes.{
  Emits, varint_size, varint_bytes, length-varint_bytes, encode_varint_len-size, write-Emits,
  write_u8-Emits, write_varint-Emits,
}
use raw_quic.Codec.Emitting.{Emits-then, Emits-nil, number_then, number_last}
use raw_quic.TransParam.{PreferredAddress, SocketAddrV4, SocketAddrV6}
use raw_quic.TransParam.Preferred.{wire_len, write_ipv4, write_ipv6, to_bytes}
use raw_quic.TransParam.Encode.{
  write_number, write_nonzero, write_bytes, write_cid, write_token, write_flag, write_preferred,
  when,
}
use raw_quic.Cid.{IsCid}
use raw_quic.TransParam.Format.{
  param_bytes, params_bytes, opt, only_if, nonzero, cid_value, token_value, flag_value, ipv4_bytes,
  ipv6_bytes, preferred_bytes, preferred_value, Each, IsAddrV4, IsAddrV6, IsPreferred,
}

write_u16-Emits : (n : ℕ) → Emits (be_bytes 2 n) (write_u16 n)
unfolding write_u16
write_u16-Emits n w = ground (arith, length-be_bytes 2 n)

ipv4-Emits : (o : Option SocketAddrV4) → Emits (ipv4_bytes o) (write_ipv4 o)
unfolding write_ipv4
ipv4-Emits none =
    Emits-then (replicate 4 0) (be_bytes 2 0) (write (replicate 4 0)) (write_u16 0)
      (write-Emits (replicate 4 0)) (write_u16-Emits 0)
ipv4-Emits (some a) =
    Emits-then a.ip (be_bytes 2 a.port) (write a.ip) (write_u16 a.port) (write-Emits a.ip)
      (write_u16-Emits a.port)

ipv6-Emits : (o : Option SocketAddrV6) → Emits (ipv6_bytes o) (write_ipv6 o)
unfolding write_ipv6
ipv6-Emits none =
    Emits-then (replicate 16 0) (be_bytes 2 0) (write (replicate 16 0)) (write_u16 0)
      (write-Emits (replicate 16 0)) (write_u16-Emits 0)
ipv6-Emits (some a) =
    Emits-then a.ip (be_bytes 2 a.port) (write a.ip) (write_u16 a.port) (write-Emits a.ip)
      (write_u16-Emits a.port)

pub to_bytes-Emits : (p : PreferredAddress) → Emits (preferred_bytes p) (to_bytes p)
unfolding to_bytes preferred_bytes
to_bytes-Emits p =
    let cid : List ℕ = as_bytes p.connection_id in
    Emits-then (ipv4_bytes p.ipv4_address) _ (write_ipv4 p.ipv4_address) _
      (ipv4-Emits p.ipv4_address)
      (Emits-then (ipv6_bytes p.ipv6_address) _ (write_ipv6 p.ipv6_address) _
        (ipv6-Emits p.ipv6_address)
        (Emits-then (be_bytes 1 (length cid)) _ _ _ (write_u8-Emits (length cid)) (
          Emits-then cid p.stateless_reset_token (write cid) (write p.stateless_reset_token)
            (write-Emits cid) (write-Emits p.stateless_reset_token))))

length-ipv4_bytes : (o : Option SocketAddrV4) → Each IsAddrV4 o → length (ipv4_bytes o) ≡ 6
length-ipv4_bytes none h =
    omega (arith, length-append (replicate 4 0) (be_bytes 2 0), length-be_bytes 2 0)
length-ipv4_bytes (some a) h =
    omega (arith, length-append a.ip (be_bytes 2 a.port), length-be_bytes 2 a.port, h.four)

length-ipv6_bytes : (o : Option SocketAddrV6) → Each IsAddrV6 o → length (ipv6_bytes o) ≡ 18
length-ipv6_bytes none h =
    omega (arith, length-append (replicate 16 0) (be_bytes 2 0), length-be_bytes 2 0)
length-ipv6_bytes (some a) h =
    omega (arith, length-append a.ip (be_bytes 2 a.port), length-be_bytes 2 a.port, h.sixteen)

-- `wire_len` is the length of what `to_bytes` writes.
pub length-preferred_bytes :
    (p : PreferredAddress) → IsPreferred p → length (preferred_bytes p) ≡ wire_len p
unfolding preferred_bytes wire_len
length-preferred_bytes p h =
    let cid : List ℕ = as_bytes p.connection_id in
    omega (
      arith,
      length-append (ipv4_bytes p.ipv4_address) (
          ipv6_bytes p.ipv6_address
          ++ (be_bytes 1 (length cid) ++ (cid ++ p.stateless_reset_token))),
      length-append (ipv6_bytes p.ipv6_address)
          (be_bytes 1 (length cid) ++ (cid ++ p.stateless_reset_token)),
      length-append (be_bytes 1 (length cid)) (cid ++ p.stateless_reset_token),
      length-append cid p.stateless_reset_token,
      length-be_bytes 1 (length cid),
      length-ipv4_bytes p.ipv4_address h.ipv4,
      length-ipv6_bytes p.ipv6_address h.ipv6,
      h.token,
    )

-- The operation writes the parameter, or nothing where it is left out.
abbrev pub Writes : ℕ → Option (List ℕ) → Encoder ℕ → Type 0
Writes id o m = Emits (params_bytes (opt id o)) m

params_bytes-opt :
    (id : ℕ) (o : Option (List ℕ)) (ps : List (ℕ × List ℕ))
    → params_bytes (opt id o ++ ps) ≡ params_bytes (opt id o) ++ params_bytes ps
unfolding params_bytes
params_bytes-opt id none ps = refl
params_bytes-opt id (some v) ps = rw (append-nil (param_bytes id v))

pub then_rest :
    (id : ℕ) (o : Option (List ℕ)) (ps : List (ℕ × List ℕ)) (m k : Encoder ℕ)
    → Writes id o m
    → Emits (params_bytes ps) k
    → Emits (params_bytes (opt id o ++ ps)) (m >> k)
then_rest id o ps m k h g =
    rw (params_bytes-opt id o ps) (Emits-then (params_bytes (opt id o)) (params_bytes ps) m k h g)

nothing-Writes : (id : ℕ) → Writes id none (return 0)
unfolding params_bytes
nothing-Writes id = Emits-nil {A = ℕ} 0

-- The last parameter has nothing behind it.
pub one_param :
    (id : ℕ) (v : List ℕ) (m : Encoder ℕ) → Emits (param_bytes id v) m → Writes id (some v) m
unfolding params_bytes
one_param id v m h = rw (append-nil (param_bytes id v)) h

pub number-Emits :
    (id v : ℕ)
    → id ≤ vint_max
    → v ≤ vint_max
    → Emits (param_bytes id (varint_bytes v)) (write_number id v)
unfolding write_number param_bytes
number-Emits id v g h =
    rw (encode_varint_len-size v h, length-varint_bytes v)
      (number_then id _ _ g
        (number_then (varint_size v) _ _ (ground arith) (write_varint-Emits v h)))

bytes-Emits :
    (id : ℕ) (bs : List ℕ)
    → id ≤ vint_max
    → length bs ≤ vint_max
    → Emits (param_bytes id bs) (write_bytes id bs)
unfolding write_bytes param_bytes
bytes-Emits id bs g h = number_then id _ _ g (number_then (length bs) _ _ h (write-Emits bs))

pub nonzero-Writes :
    (id v : ℕ) → id ≤ vint_max → v ≤ vint_max → Writes id (nonzero v) (write_nonzero id v)
unfolding write_nonzero
nonzero-Writes id v g h = elim (Bool-cases (v == 0)) [
  | inl c ↦ rw c (nothing-Writes id)
  | inr c ↦ rw c (one_param id (varint_bytes v) _ (number-Emits id v g h))
]

pub cid-Writes :
    (id : ℕ) (o : Option ConnectionId)
    → id ≤ vint_max
    → Each IsCid o
    → Writes id (cid_value o) (write_cid id o)
unfolding write_cid
cid-Writes id none g h = nothing-Writes id
cid-Writes id (some cid) g h =
    one_param id (as_bytes cid) _ (bytes-Emits id (as_bytes cid) g (omega (arith, h.short)))

pub token-Writes : (o : Option ℕ) → Writes 0x0002 (token_value o) (write_token o)
unfolding write_token param_bytes be_bytes
token-Writes none = nothing-Writes 0x0002
token-Writes (some t) = one_param 0x0002 (be_bytes 16 t) _ (
    rw (length-be_bytes 16 t) (
      number_then 0x0002 _ _ (omega arith)
        (number_then 16 _ _ (omega arith) (write-Emits (be_bytes 16 t)))))

pub flag-Writes : (id : ℕ) (b : Bool) → id ≤ vint_max → Writes id (flag_value b) (write_flag id b)
unfolding write_flag param_bytes
flag-Writes id false g = nothing-Writes id
flag-Writes id true g = one_param id [] _ (number_then id _ _ g (number_last 0 (omega arith)))

pub preferred-Writes :
    (o : Option PreferredAddress)
    → Each IsPreferred o
    → Writes 0x000d (preferred_value o) (write_preferred o)
unfolding write_preferred param_bytes wire_len
preferred-Writes none h = nothing-Writes 0x000d
preferred-Writes (some p) h = one_param 0x000d (preferred_bytes p) _ (
    rw (length-preferred_bytes p h) (
      number_then 0x000d _ _ (omega arith)
        (number_then (wire_len p) _ _ (omega (arith, h.cid.short)) (to_bytes-Emits p))))

pub when-Writes :
    (id : ℕ) (b : Bool) (o : Option (List ℕ)) (m : Encoder ℕ)
    → (b ≡ true → Writes id o m)
    → Writes id (only_if b o) (when b m)
when-Writes id true o m h = h refl
when-Writes id false o m h = nothing-Writes id

pub last_param :
    (id : ℕ) (o : Option (List ℕ)) (m : Encoder ℕ)
    → Writes id o m
    → Emits (params_bytes (opt id o ++ [])) m
last_param id o m h = rw (append-nil (opt id o)) h
