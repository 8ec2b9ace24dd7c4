-- ===== src/TransParam.antt =====
-- Transport parameters (src/trans_param.rs): the records, and their defaults. The encodings are the
-- children Preferred, Decode and Encode.
pub mod Preferred
pub mod Decode
pub mod Encode
pub mod Format
pub mod Writes
pub mod Written
pub mod Reads
pub mod Numbers
pub mod Applies
pub mod Loop
pub mod Accepted
pub mod RoundTrip
use raw_quic.Prelude.{Bool, List, Option, false, none, ℕ}
use raw_quic.Cid.{ConnectionId}

-- `SocketAddrV4` and `SocketAddrV6` of the standard library: the octets of the address, the port.
pub record SocketAddrV4 : Type 0 where
  pub ip : List ℕ
  pub port : ℕ

pub record SocketAddrV6 : Type 0 where
  pub ip : List ℕ
  pub port : ℕ
  pub flowinfo : ℕ
  pub scope_id : ℕ

pub record PreferredAddress : Type 0 where
  pub ipv4_address : Option SocketAddrV4
  pub ipv6_address : Option SocketAddrV6
  pub connection_id : ConnectionId
  pub stateless_reset_token : List ℕ

pub record TransportParams : Type 0 where
  pub original_destination_connection_id : Option ConnectionId
  pub max_idle_timeout : ℕ
  pub stateless_reset_token : Option ℕ
  pub max_udp_payload_size : ℕ
  pub initial_max_data : ℕ
  pub initial_max_stream_data_bidi_local : ℕ
  pub initial_max_stream_data_bidi_remote : ℕ
  pub initial_max_stream_data_uni : ℕ
  pub initial_max_streams_bidi : ℕ
  pub initial_max_streams_uni : ℕ
  pub ack_delay_exponent : ℕ
  pub max_ack_delay : ℕ
  pub disable_active_migration : Bool
  pub preferred_address : Option PreferredAddress
  pub active_conn_id_limit : ℕ
  pub initial_source_connection_id : Option ConnectionId
  pub retry_source_connection_id : Option ConnectionId
  pub enable_multipath : Bool
  pub disable_encryption : Bool

abbrev pub default : TransportParams
default = record {
  original_destination_connection_id = none;
  max_idle_timeout = 0;
  stateless_reset_token = none;
  max_udp_payload_size = 65527;
  initial_max_data = 0;
  initial_max_stream_data_bidi_local = 0;
  initial_max_stream_data_bidi_remote = 0;
  initial_max_stream_data_uni = 0;
  initial_max_streams_bidi = 0;
  initial_max_streams_uni = 0;
  ack_delay_exponent = 3;
  max_ack_delay = 25;
  disable_active_migration = false;
  preferred_address = none;
  active_conn_id_limit = 2;
  initial_source_connection_id = none;
  retry_source_connection_id = none;
  enable_multipath = false;
  disable_encryption = false;
}
