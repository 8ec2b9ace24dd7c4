-- ===== src/Cid.antt =====
-- Connection identifiers (src/lib.rs).
use raw_quic.Prelude.{
  List, arith, length, length-take, min, replicate, take, take-length, take_append, ℕ, ◌++◌, ◌-◌,
  ◌≡◌, ◌≤◌,
}

abbrev pub max_cid_len : ℕ
max_cid_len = 20

-- The octets stand at the front of `octets`, and zeros behind them.
pub record ConnectionId : Type 0 where
  pub len : ℕ
  pub octets : List ℕ

unfoldable pub new : List ℕ → ConnectionId
new bytes =
    let n = min (length bytes) max_cid_len in
    record { len = n; octets = take n bytes ++ replicate (max_cid_len - n) 0 }

-- The `Deref` to the slice of the octets in use.
unfoldable pub as_bytes : ConnectionId → List ℕ
as_bytes cid = take cid.len cid.octets

-- Reading back the octets of an identifier made from at most 20 bytes.
pub as_bytes-new : (bytes : List ℕ) → length bytes ≤ max_cid_len → as_bytes (new bytes) ≡ bytes
unfolding as_bytes new
as_bytes-new bytes h =
    let e : min (length bytes) max_cid_len ≡ length bytes = omega arith in
    rw (e, take-length bytes) (take_append bytes (replicate (max_cid_len - length bytes) 0))

-- An identifier as `ConnectionId::new` makes them.
pub record IsCid (cid : ConnectionId) : Type 0 where
  pub short : length (as_bytes cid) ≤ max_cid_len
  pub made : new (as_bytes cid) ≡ cid

-- An identifier never has more than 20 bytes.
pub new-short : (bytes : List ℕ) → length (as_bytes (new bytes)) ≤ max_cid_len
unfolding as_bytes new
new-short bytes = ground (
  arith,
  length-take (min (length bytes) max_cid_len) (
      take (min (length bytes) max_cid_len) bytes
      ++ replicate (max_cid_len - min (length bytes) max_cid_len) 0),
)
