-- ===== src/Frame/Wire.antt =====
-- The length of a frame on the wire (src/frame.rs, `wire_len` and the lengths of headers).
use raw_quic.Prelude.{List, Option, [], length, none, reverse, some, sub64, ℕ, ◌+◌, ◌∷◌}
use raw_quic.Error.{Result, ok, panic, ◌>>=◌}
use raw_quic.Codec.{encode_varint_len}
use raw_quic.Ranges.{iter}
use raw_quic.Ranges.Entries.{Range}
use raw_quic.Cid.{as_bytes}
use raw_quic.Frame.{Frame, EcnCounts}

-- `1 + encode_varint_len(a) + …` over the numbers of a frame.
abbrev pub lens : List ℕ → Result ℕ
lens [] = ok 0
lens (n ∷ ns) = do a ← encode_varint_len n; b ← lens ns; ok (a + b)

abbrev pub plus : ℕ → Result ℕ → Result ℕ
plus k r = r >>= λ n. ok (k + n)

unfoldable pub crypto_header_wire_len : ℕ → Result ℕ
crypto_header_wire_len offset = do a ← encode_varint_len offset; ok (1 + a + 2)

unfoldable pub stream_header_wire_len : ℕ → ℕ → Result ℕ
stream_header_wire_len stream_id offset = do
  a ← encode_varint_len stream_id
  b ← encode_varint_len offset
  ok (1 + a + b + 2)

unfoldable pub ack_blocks_len : ℕ → List Range → Result ℕ
ack_blocks_len smallest_ack [] = ok 0
ack_blocks_len smallest_ack ((s, e) ∷ it) = do
  a ← encode_varint_len (sub64 (sub64 smallest_ack e) 1)
  b ← encode_varint_len (sub64 (sub64 e 1) s)
  rest ← ack_blocks_len s it
  ok (a + b + rest)

unfoldable pub ecn_len : Option EcnCounts → Result ℕ
ecn_len none = ok 0
ecn_len (some ecn) = lens (ecn.ect0_count ∷ ecn.ect1_count ∷ ecn.ecn_ce_count ∷ [])

unfoldable pub ack_len : ℕ → List Range → Option EcnCounts → Result ℕ
unfolding ack_blocks_len ecn_len
ack_len ack_delay [] ecn = panic
ack_len ack_delay ((s, e) ∷ it) ecn = do
  head ← lens (sub64 e 1 ∷ ack_delay ∷ length it ∷ sub64 (sub64 e 1) s ∷ [])
  blocks ← ack_blocks_len s it
  counts ← ecn_len ecn
  ok (1 + head + blocks + counts)

unfoldable pub wire_len : Frame → Result ℕ
unfolding ack_len iter
wire_len (Frame.paddings len) = ok len
wire_len (Frame.ping _) = ok 1
wire_len (Frame.ack ack_delay ack_ranges ecn) = ack_len ack_delay (reverse (iter ack_ranges)) ecn
wire_len (Frame.reset_stream stream_id error_code final_size) =
    plus 1 (lens (stream_id ∷ error_code ∷ final_size ∷ []))
wire_len (Frame.stop_sending stream_id error_code) = plus 1 (lens (stream_id ∷ error_code ∷ []))
wire_len (Frame.crypto offset _ content) = plus (1 + 2 + length content) (lens (offset ∷ []))
wire_len (Frame.new_token token) = plus (1 + length token) (lens (length token ∷ []))
wire_len (Frame.stream stream_id offset _ _ content) =
    plus (1 + 2 + length content) (lens (stream_id ∷ offset ∷ []))
wire_len (Frame.max_data m) = plus 1 (lens (m ∷ []))
wire_len (Frame.max_stream_data stream_id m) = plus 1 (lens (stream_id ∷ m ∷ []))
wire_len (Frame.max_streams _ m) = plus 1 (lens (m ∷ []))
wire_len (Frame.data_blocked m) = plus 1 (lens (m ∷ []))
wire_len (Frame.stream_data_blocked stream_id m) = plus 1 (lens (stream_id ∷ m ∷ []))
wire_len (Frame.streams_blocked _ m) = plus 1 (lens (m ∷ []))
wire_len (Frame.new_connection_id seq_num retire_prior_to conn_id reset_token) =
    plus (1 + 1 + length (as_bytes conn_id) + length reset_token)
      (lens (seq_num ∷ retire_prior_to ∷ []))
wire_len (Frame.retire_connection_id seq_num) = plus 1 (lens (seq_num ∷ []))
wire_len (Frame.path_challenge _) = ok (1 + 8)
wire_len (Frame.path_response _) = ok (1 + 8)
wire_len (Frame.connection_close error_code frame_type reason) =
    plus (1 + length reason) (lens (error_code ∷ frame_type ∷ length reason ∷ []))
wire_len (Frame.application_close error_code reason) =
    plus (1 + length reason) (lens (error_code ∷ length reason ∷ []))
wire_len Frame.handshake_done = ok 1
wire_len (Frame.path_abandon dcid_seq_num error_code reason) =
    plus (4 + length reason) (lens (dcid_seq_num ∷ error_code ∷ length reason ∷ []))
wire_len (Frame.path_status dcid_seq_num seq_num status) =
    plus 4 (lens (dcid_seq_num ∷ seq_num ∷ status ∷ []))
