-- ===== src/Frame/Format.antt =====
-- The wire format of frames (RFC 9000, section 19, and the multipath draft): a type and a payload.
use raw_quic.Prelude.{
  All, List, Option, [], if◌then◌else◌, length, none, replicate, reverse, some, ℕ, ◌++◌, ◌+◌, ◌-◌,
  ◌<◌, ◌^◌, ◌∷◌, ◌≡◌, ◌≢◌, ◌≤◌,
}
use raw_quic.Codec.{vint_max}
use raw_quic.Codec.Encoder.{be_bytes}
use raw_quic.Codec.VarintBytes.{varint_bytes, varint_2}
use raw_quic.Ranges.{RangeSet}
use raw_quic.Ranges.Entries.{Range}
use raw_quic.Ranges.Merge.{Above}
use raw_quic.Cid.{as_bytes, max_cid_len}
use raw_quic.Cid
use raw_quic.Frame.{Frame, EcnCounts, max_stream_size}

abbrev pub frame_type : Frame → ℕ
frame_type (Frame.paddings _) = 0x00
frame_type (Frame.ping _) = 0x01
frame_type (Frame.ack _ _ none) = 0x02
frame_type (Frame.ack _ _ (some _)) = 0x03
frame_type (Frame.reset_stream _ _ _) = 0x04
frame_type (Frame.stop_sending _ _) = 0x05
frame_type (Frame.crypto _ _ _) = 0x06
frame_type (Frame.new_token _) = 0x07
frame_type (Frame.stream _ _ _ fin _) = if fin then 0x0f else 0x0e
frame_type (Frame.max_data _) = 0x10
frame_type (Frame.max_stream_data _ _) = 0x11
frame_type (Frame.max_streams bidi _) = if bidi then 0x12 else 0x13
frame_type (Frame.data_blocked _) = 0x14
frame_type (Frame.stream_data_blocked _ _) = 0x15
frame_type (Frame.streams_blocked bidi _) = if bidi then 0x16 else 0x17
frame_type (Frame.new_connection_id _ _ _ _) = 0x18
frame_type (Frame.retire_connection_id _) = 0x19
frame_type (Frame.path_challenge _) = 0x1a
frame_type (Frame.path_response _) = 0x1b
frame_type (Frame.connection_close _ _ _) = 0x1c
frame_type (Frame.application_close _ _) = 0x1d
frame_type Frame.handshake_done = 0x1e
frame_type (Frame.path_abandon _ _ _) = 0x15228c05
frame_type (Frame.path_status _ _ _) = 0x15228c06

-- Bytes behind their number.
abbrev pub vec : List ℕ → List ℕ
vec bs = varint_bytes (length bs) ++ bs

-- The numbers of a frame, the last with nothing behind it.
abbrev pub one : ℕ → List ℕ
one a = varint_bytes a ++ []

abbrev pub two : ℕ → ℕ → List ℕ
two a b = varint_bytes a ++ one b

abbrev pub three : ℕ → ℕ → ℕ → List ℕ
three a b c = varint_bytes a ++ two b c

-- The ranges below the one that begins at `smallest`: the gap and the length of each, less one.
abbrev pub blocks : ℕ → List Range → List ℕ
blocks smallest [] = []
blocks smallest ((s, e) ∷ it) =
    varint_bytes (smallest - e - 1) ++ (varint_bytes (e - 1 - s) ++ blocks s it)

abbrev pub ecn_bytes : Option EcnCounts → List ℕ
ecn_bytes none = []
ecn_bytes (some c) = three c.ect0_count c.ect1_count c.ecn_ce_count

-- The ranges from the largest down.
abbrev pub ack_bytes : ℕ → List Range → Option EcnCounts → List ℕ
ack_bytes ack_delay [] ecn = []
ack_bytes ack_delay ((s, e) ∷ it) ecn =
    varint_bytes (e - 1)
    ++ (varint_bytes ack_delay
        ++ (varint_bytes (length it)
            ++ (varint_bytes (e - 1 - s) ++ (blocks s it ++ ecn_bytes ecn))))

unfoldable pub payload : Frame → List ℕ
payload (Frame.paddings len) = replicate (len - 1) 0
payload (Frame.ping _) = []
payload (Frame.ack ack_delay ranges ecn) = ack_bytes ack_delay (reverse ranges.set) ecn
payload (Frame.reset_stream stream_id error_code final_size) = three stream_id error_code final_size
payload (Frame.stop_sending stream_id error_code) = two stream_id error_code
payload (Frame.crypto offset _ content) =
    varint_bytes offset ++ (varint_2 (length content) ++ content)
payload (Frame.new_token token) = vec token
payload (Frame.stream stream_id offset _ _ content) =
    varint_bytes stream_id ++ (varint_bytes offset ++ (varint_2 (length content) ++ content))
payload (Frame.max_data m) = one m
payload (Frame.max_stream_data stream_id m) = two stream_id m
payload (Frame.max_streams _ m) = one m
payload (Frame.data_blocked m) = one m
payload (Frame.stream_data_blocked stream_id m) = two stream_id m
payload (Frame.streams_blocked _ m) = one m
payload (Frame.new_connection_id seq_num retire_prior_to cid token) =
    varint_bytes seq_num
    ++ (varint_bytes retire_prior_to
        ++ (be_bytes 1 (length (as_bytes cid)) ++ (as_bytes cid ++ token)))
payload (Frame.retire_connection_id seq_num) = one seq_num
payload (Frame.path_challenge content) = content
payload (Frame.path_response content) = content
payload (Frame.connection_close error_code type reason) =
    varint_bytes error_code ++ (varint_bytes type ++ vec reason)
payload (Frame.application_close error_code reason) = varint_bytes error_code ++ vec reason
payload Frame.handshake_done = []
payload (Frame.path_abandon dcid_seq_num error_code reason) =
    varint_bytes dcid_seq_num ++ (varint_bytes error_code ++ vec reason)
payload (Frame.path_status dcid_seq_num seq_num status) = three dcid_seq_num seq_num status

unfoldable pub frame_bytes : Frame → List ℕ
unfolding payload
frame_bytes f = varint_bytes (frame_type f) ++ payload f

abbrev pub Fits : ℕ → Type 0
Fits n = n ≤ vint_max

-- A set of packet numbers that an ACK frame can carry: not empty, in order, none of the ranges
-- empty and no two touching, every number a varint.
pub record IsAckable (ranges : RangeSet) : Type 0 where
  pub nonempty : ranges.set ≢ []
  pub ordered : Above 0 ranges.set
  pub bounded : All (λ (r : Range). r.1 ≤ 2 ^ 62) ranges.set
  pub counted : length ranges.set ≤ vint_max

abbrev pub FitsEcn : Option EcnCounts → Type 0
FitsEcn none = Unit {0}
FitsEcn (some c) = Fits c.ect0_count × Fits c.ect1_count × Fits c.ecn_ce_count

-- Every number is a varint, the lengths are those of the bytes (on two bytes at most in CRYPTO and
-- STREAM frames), and byte arrays have the lengths of their types.
abbrev pub IsWellFormed : Frame → Type 0
IsWellFormed (Frame.paddings len) = 1 ≤ len
IsWellFormed (Frame.ping _) = Unit {0}
IsWellFormed (Frame.ack ack_delay ranges ecn) = Fits ack_delay × IsAckable ranges × FitsEcn ecn
IsWellFormed (Frame.reset_stream stream_id error_code final_size) =
    Fits stream_id × Fits error_code × Fits final_size
IsWellFormed (Frame.stop_sending stream_id error_code) = Fits stream_id × Fits error_code
IsWellFormed (Frame.crypto offset len content) =
    Fits offset × (len ≡ length content) × (length content < 2 ^ 14)
IsWellFormed (Frame.new_token token) = Fits (length token)
IsWellFormed (Frame.stream stream_id offset len _ content) =
    Fits stream_id
    × Fits offset
    × (len ≡ length content)
    × (length content < 2 ^ 14)
    × (offset + length content < max_stream_size)
IsWellFormed (Frame.max_data m) = Fits m
IsWellFormed (Frame.max_stream_data stream_id m) = Fits stream_id × Fits m
IsWellFormed (Frame.max_streams _ m) = Fits m
IsWellFormed (Frame.data_blocked m) = Fits m
IsWellFormed (Frame.stream_data_blocked stream_id m) = Fits stream_id × Fits m
IsWellFormed (Frame.streams_blocked _ m) = Fits m
IsWellFormed (Frame.new_connection_id seq_num retire_prior_to cid token) =
    Fits seq_num
    × Fits retire_prior_to
    × (length (as_bytes cid) ≤ max_cid_len)
    × (Cid.new (as_bytes cid) ≡ cid)
    × (length token ≡ 16)
IsWellFormed (Frame.retire_connection_id seq_num) = Fits seq_num
IsWellFormed (Frame.path_challenge content) = length content ≡ 8
IsWellFormed (Frame.path_response content) = length content ≡ 8
IsWellFormed (Frame.connection_close error_code type reason) =
    Fits error_code × Fits type × Fits (length reason)
IsWellFormed (Frame.application_close error_code reason) = Fits error_code × Fits (length reason)
IsWellFormed Frame.handshake_done = Unit {0}
IsWellFormed (Frame.path_abandon dcid_seq_num error_code reason) =
    Fits dcid_seq_num × Fits error_code × Fits (length reason)
IsWellFormed (Frame.path_status dcid_seq_num seq_num status) =
    Fits dcid_seq_num × Fits seq_num × Fits status
