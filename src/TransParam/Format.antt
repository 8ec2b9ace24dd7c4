-- ===== src/TransParam/Format.antt =====
-- The format of transport parameters: which are sent, as identifiers with their values, and what a
-- well-formed set of them is.
use raw_quic.Prelude.{
  Bool, List, Option, [], false, if◌then◌else◌, leb, length, none, replicate, some, true, ℕ, ◌&&◌,
  ◌++◌, ◌<◌, ◌==◌, ◌^◌, ◌∷◌, ◌≡◌, ◌≤◌, ◌⊎◌,
}
use raw_quic.Cid.{IsCid, ConnectionId, as_bytes}
use raw_quic.Codec.{vint_max}
use raw_quic.Codec.Encoder.{be_bytes}
use raw_quic.Codec.VarintBytes.{varint_bytes}
use raw_quic.TransParam.{SocketAddrV4, SocketAddrV6, PreferredAddress, TransportParams}
use raw_quic.TransParam.Preferred.{reset_token_len, is_unspecified}
use raw_quic.TransParam.Decode.{max_streams_per_type}

-- A parameter: its identifier, the length of its value, the value.
unfoldable pub param_bytes : ℕ → List ℕ → List ℕ
param_bytes id val = varint_bytes id ++ (varint_bytes (length val) ++ val)

unfoldable pub params_bytes : List (ℕ × List ℕ) → List ℕ
params_bytes [] = []
params_bytes (p ∷ ps) = param_bytes p.0 p.1 ++ params_bytes ps

-- A parameter that may be left out.
abbrev pub opt : ℕ → Option (List ℕ) → List (ℕ × List ℕ)
opt id none = []
opt id (some val) = (id, val) ∷ []

abbrev pub only_if : Bool → Option (List ℕ) → Option (List ℕ)
only_if b o = if b then o else none

abbrev pub nonzero : ℕ → Option (List ℕ)
nonzero v = if v == 0 then none else some (varint_bytes v)

abbrev pub cid_value : Option ConnectionId → Option (List ℕ)
cid_value none = none
cid_value (some cid) = some (as_bytes cid)

abbrev pub token_value : Option ℕ → Option (List ℕ)
token_value none = none
token_value (some token) = some (be_bytes 16 token)

abbrev pub flag_value : Bool → Option (List ℕ)
flag_value false = none
flag_value true = some []

abbrev pub ipv4_bytes : Option SocketAddrV4 → List ℕ
ipv4_bytes none = replicate 4 0 ++ be_bytes 2 0
ipv4_bytes (some addr) = addr.ip ++ be_bytes 2 addr.port

abbrev pub ipv6_bytes : Option SocketAddrV6 → List ℕ
ipv6_bytes none = replicate 16 0 ++ be_bytes 2 0
ipv6_bytes (some addr) = addr.ip ++ be_bytes 2 addr.port

unfoldable pub preferred_bytes : PreferredAddress → List ℕ
preferred_bytes p =
    ipv4_bytes p.ipv4_address
    ++ (ipv6_bytes p.ipv6_address
        ++ (be_bytes 1 (length (as_bytes p.connection_id))
            ++ (as_bytes p.connection_id ++ p.stateless_reset_token)))

abbrev pub preferred_value : Option PreferredAddress → Option (List ℕ)
preferred_value none = none
preferred_value (some p) = some (preferred_bytes p)

-- The address 0.0.0.0:0 stands for no address.
pub record IsAddrV4 (a : SocketAddrV4) : Type 0 where
  pub four : length a.ip ≡ 4
  pub word : a.port < 2 ^ 16
  pub given : (is_unspecified a.ip && (a.port == 0)) ≡ false

pub record IsAddrV6 (a : SocketAddrV6) : Type 0 where
  pub sixteen : length a.ip ≡ 16
  pub word : a.port < 2 ^ 16
  pub given : (is_unspecified a.ip && (a.port == 0)) ≡ false
  pub plain : (a.flowinfo ≡ 0) × (a.scope_id ≡ 0)

abbrev pub Each : {A : Type 0} → (A → Type 0) → Option A → Type 0
Each P none = Unit {0}
Each P (some a) = P a

pub record IsPreferred (p : PreferredAddress) : Type 0 where
  pub ipv4 : Each IsAddrV4 p.ipv4_address
  pub ipv6 : Each IsAddrV6 p.ipv6_address
  pub cid : IsCid p.connection_id
  pub token : length p.stateless_reset_token ≡ reset_token_len

-- The parameters that an endpoint may send (RFC 9000, section 18.2). 0 stands for a limit that is
-- left out.
pub record IsSendable (tp : TransportParams) (is_server : Bool) : Type 0 where
  pub original : Each IsCid tp.original_destination_connection_id
  pub idle : tp.max_idle_timeout ≤ vint_max
  pub token : Each (λ t. t < 2 ^ 128) tp.stateless_reset_token
  pub payload : tp.max_udp_payload_size ≤ vint_max
  pub payload_min : (tp.max_udp_payload_size ≡ 0) ⊎ (1200 ≤ tp.max_udp_payload_size)
  pub initial : tp.initial_max_data ≤ vint_max
  pub bidi_local : tp.initial_max_stream_data_bidi_local ≤ vint_max
  pub bidi_remote : tp.initial_max_stream_data_bidi_remote ≤ vint_max
  pub uni : tp.initial_max_stream_data_uni ≤ vint_max
  pub streams_bidi : tp.initial_max_streams_bidi ≤ max_streams_per_type
  pub streams_uni : tp.initial_max_streams_uni ≤ max_streams_per_type
  pub exponent : tp.ack_delay_exponent ≤ 20
  pub delay : tp.max_ack_delay < 2 ^ 14
  pub preferred : Each IsPreferred tp.preferred_address
  pub preferred_server : is_server ≡ false → tp.preferred_address ≡ none
  pub cid_limit : tp.active_conn_id_limit ≤ vint_max
  pub source : Each IsCid tp.initial_source_connection_id
  pub retry : Each IsCid tp.retry_source_connection_id

-- The parameters sent, in order.
unfoldable pub params : TransportParams → Bool → List (ℕ × List ℕ)
params tp is_server =
    opt 0x0000 (only_if is_server (cid_value tp.original_destination_connection_id))
    ++ (opt 0x0001 (nonzero tp.max_idle_timeout)
        ++ (opt 0x0002 (only_if is_server (token_value tp.stateless_reset_token))
            ++ (opt 0x0003 (nonzero tp.max_udp_payload_size)
                ++ (opt 0x0004 (nonzero tp.initial_max_data)
                    ++ (opt 0x0005 (nonzero tp.initial_max_stream_data_bidi_local)
                        ++ (opt 0x0006 (nonzero tp.initial_max_stream_data_bidi_remote)
                            ++ (opt 0x0007 (nonzero tp.initial_max_stream_data_uni)
                                ++ (opt 0x0008 (nonzero tp.initial_max_streams_bidi)
                                    ++ (opt 0x0009 (nonzero tp.initial_max_streams_uni)
                                        ++ (opt 0x000a (nonzero tp.ack_delay_exponent)
                                            ++ (opt 0x000b (nonzero tp.max_ack_delay)
                                                ++ (opt 0x000c
                                                      (flag_value tp.disable_active_migration)
                                                    ++ (opt 0x000d
                                                          (preferred_value tp.preferred_address)
                                                        ++ (opt 0x000e (
                                                            only_if (leb 2 tp.active_conn_id_limit)
                                                            (some
                                                            (varint_bytes tp.active_conn_id_limit)))
                                                            ++ (opt 0x000f (
                                                            cid_value
                                                            tp.initial_source_connection_id)
                                                            ++ (opt 0x0010 (
                                                            only_if is_server (
                                                            cid_value
                                                            tp.retry_source_connection_id))
                                                            ++ (opt 0x0f739bbc1b666d05
                                                            (flag_value tp.enable_multipath)
                                                            ++ (opt 0xbaad
                                                            (flag_value tp.disable_encryption)
                                                            ++ []))))))))))))))))))
