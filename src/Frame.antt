-- ===== src/Frame.antt =====
-- QUIC frames (src/frame.rs): the type, and the properties of a frame that do not touch the wire.
pub mod Encode
pub mod Decode
pub mod Wire
pub mod Format
pub mod Writes
pub mod Size
pub mod Reads
pub mod Ack
pub mod AckReads
pub mod RoundTrip
pub mod Readers
pub mod Safety
use raw_quic.Prelude.{Bool, List, Option, false, length, max, true, ℕ, ◌^◌}
use raw_quic.Ranges.{RangeSet}
use raw_quic.Cid.{ConnectionId}

-- The largest offset of a stream, 1 << 62.
abbrev pub max_stream_size : ℕ
max_stream_size = 2 ^ 62

pub record EcnCounts : Type 0 where
  pub ect0_count : ℕ
  pub ect1_count : ℕ
  pub ecn_ce_count : ℕ

pub data PacketType : Type 0 where
  version_negotiation initial zero_rtt handshake retry one_rtt : PacketType

-- Fields in the order of the source. `Bytes`, `Vec<u8>` and arrays of bytes are lists.
pub data Frame : Type 0 where
  paddings : (len : ℕ) → Frame
  ping : (pmtu_probe : Option (ℕ × ℕ)) → Frame
  ack : (ack_delay : ℕ) (ack_ranges : RangeSet) (ecn_counts : Option EcnCounts) → Frame
  reset_stream : (stream_id error_code final_size : ℕ) → Frame
  stop_sending : (stream_id error_code : ℕ) → Frame
  crypto : (offset length : ℕ) (content : List ℕ) → Frame
  new_token : (token : List ℕ) → Frame
  stream : (stream_id offset length : ℕ) (fin : Bool) (content : List ℕ) → Frame
  max_data : (max : ℕ) → Frame
  max_stream_data : (stream_id max : ℕ) → Frame
  max_streams : (bidi : Bool) (max : ℕ) → Frame
  data_blocked : (max : ℕ) → Frame
  stream_data_blocked : (stream_id max : ℕ) → Frame
  streams_blocked : (bidi : Bool) (max : ℕ) → Frame
  new_connection_id :
      (seq_num retire_prior_to : ℕ) (conn_id : ConnectionId) (reset_token : List ℕ) → Frame
  retire_connection_id : (seq_num : ℕ) → Frame
  path_challenge : (content : List ℕ) → Frame
  path_response : (content : List ℕ) → Frame
  connection_close : (error_code frame_type : ℕ) (reason : List ℕ) → Frame
  application_close : (error_code : ℕ) (reason : List ℕ) → Frame
  handshake_done : Frame
  path_abandon : (dcid_seq_num error_code : ℕ) (reason : List ℕ) → Frame
  path_status : (dcid_seq_num seq_num status : ℕ) → Frame

-- ACK, PADDING and the two closes do not ask for an acknowledgement.
unfoldable pub ack_eliciting : Frame → Bool
ack_eliciting (paddings len) = false
ack_eliciting (ack delay ranges ecn) = false
ack_eliciting (application_close code reason) = false
ack_eliciting (connection_close code type reason) = false
ack_eliciting _ = true

unfoldable pub probing : Frame → Bool
probing (paddings len) = true
probing (new_connection_id seq prior cid token) = true
probing (path_challenge content) = true
probing (path_response content) = true
probing _ = false

-- What packets may not carry: a frame on a 0-RTT packet.
zero_rtt_allows : Frame → Bool
zero_rtt_allows (ack delay ranges ecn) = false
zero_rtt_allows (crypto offset length content) = false
zero_rtt_allows handshake_done = false
zero_rtt_allows (new_token token) = false
zero_rtt_allows (path_response content) = false
zero_rtt_allows (retire_connection_id seq) = false
zero_rtt_allows (connection_close code type reason) = false
zero_rtt_allows _ = true

-- What a packet before the handshake is done may carry.
early_allows : Frame → Bool
early_allows (paddings len) = true
early_allows (ping probe) = true
early_allows (ack delay ranges ecn) = true
early_allows (crypto offset length content) = true
early_allows (connection_close code type reason) = true
early_allows _ = false

unfoldable pub validate_frame : PacketType → Frame → Bool
unfolding zero_rtt_allows early_allows
validate_frame zero_rtt f = zero_rtt_allows f
validate_frame one_rtt f = true
validate_frame _ f = early_allows f
