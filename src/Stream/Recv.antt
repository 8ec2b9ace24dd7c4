-- ===== src/Stream/Recv.antt =====
-- The receive buffer of a stream: `RecvBuf` (src/connection/stream.rs). The `BTreeMap` of chunks is
-- the list of its entries in the order of the keys; a key is the offset behind the chunk. The trace
-- identifier is left out.
pub mod Chunks
pub mod Scanning
pub mod Write
pub mod Limits
pub mod Accept
pub mod Read
pub mod Stop
pub mod Delivery
use raw_quic.Prelude.{
  Bool, List, Option, [], false, if◌then◌else◌, leb, length, ltb, max, min, none, not, some, sub64,
  suc, take, true, zero, ℕ, ◌&&◌, ◌++◌, ◌+◌, ◌-◌, ◌==◌, ◌||◌, ◌∷◌,
}
use raw_quic.Error
use raw_quic.Error.{
  Result, ok, err, panic, flow_control_error, final_size_error, done, stream_reset,
}
use raw_quic.FlowControl
use raw_quic.FlowControl.{FlowControl}
use raw_quic.Stream.RangeBuf
use raw_quic.Stream.RangeBuf.{RangeBuf, len, max_off, is_empty, advance, split_off}

abbrev pub ChunkMap : Type 0
ChunkMap = List (ℕ × RangeBuf)

pub record RecvBuf : Type 0 where
  pub chunks : ChunkMap
  pub read_off : ℕ
  pub recv_off : ℕ
  pub fin_off : Option ℕ
  pub error : Option ℕ
  pub shut : Bool
  pub flow_control : FlowControl

unfoldable pub new : ℕ → ℕ → RecvBuf
unfolding FlowControl.new
new max_data max_window = record {
  chunks = [];
  read_off = 0;
  recv_off = 0;
  fin_off = none;
  error = none;
  shut = false;
  flow_control = FlowControl.new max_data max_window;
}

-- `BTreeMap::insert`.
unfoldable pub insert_chunk : ℕ → RangeBuf → ChunkMap → ChunkMap
insert_chunk key buf [] = (key, buf) ∷ []
insert_chunk key buf ((k, b) ∷ m) =
    if ltb key k
    then (key, buf) ∷ (k, b) ∷ m
    else if key == k
    then (key, buf) ∷ m
    else (k, b) ∷ insert_chunk key buf m

-- `BTreeMap::range(off..)`.
unfoldable pub from_key : ℕ → ChunkMap → ChunkMap
from_key off [] = []
from_key off ((k, b) ∷ m) = if ltb k off then from_key off m else (k, b) ∷ m

-- The loop over the chunks that the new one may overlap: `continue 'outer_loop`, or the new chunk as
-- it is left, each with the queue of pieces.
pub data Scan : Type 0 where
  dropped : List RangeBuf → Scan
  kept : RangeBuf → List RangeBuf → Scan

unfoldable pub scan : ChunkMap → RangeBuf → List RangeBuf → Result Scan
unfolding advance split_off
scan [] buf tmp = ok (kept buf tmp)
scan ((_, b) ∷ m) buf tmp =
    let next = scan m buf tmp in
    if ltb (max_off buf) b.off
    then ok (kept buf tmp)
    else if leb b.off buf.off && leb (max_off buf) (max_off b)
    then ok (dropped tmp)
    else if leb b.off buf.off && ltb buf.off (max_off b)
    then Error.◌>>=◌ (advance (max_off b - buf.off) buf) (λ buf. scan m buf tmp)
    else if ltb buf.off b.off && ltb b.off (max_off buf)
    then Error.◌>>=◌ (split_off (b.off - buf.off) buf)
        (λ pieces. scan m pieces.0 (tmp ++ (pieces.1 ∷ [])))
    else next

-- The end of the outer loop's body: the chunk is stored, unless the stream is shut down.
unfoldable pub store : RangeBuf → RecvBuf → RecvBuf
unfolding insert_chunk
store buf r =
    let r1 = record r { recv_off = max r.recv_off (max_off buf) } in
    if r.shut then r1 else record r1 { chunks = insert_chunk (max_off buf) buf r.chunks }

-- One piece: what is known to be read is cut off, and the rest is compared with the chunks.
unfoldable pub unread_part : RangeBuf → RecvBuf → Result RangeBuf
unfolding advance
unread_part piece r =
    if ltb piece.off r.read_off then advance (r.read_off - piece.off) piece else ok piece

unfoldable pub scan_piece : RangeBuf → List RangeBuf → RecvBuf → Result Scan
unfolding scan from_key is_empty unread_part
scan_piece piece tmp r = Error.◌>>=◌ (unread_part piece r) (λ buf.
    if ltb buf.off r.recv_off || is_empty buf
    then scan (from_key buf.off r.chunks) buf tmp
    else ok (kept buf tmp))

-- `'outer_loop`, on fuel; it panics too where the fuel ran out.
unfoldable pub write_pieces : ℕ → List RangeBuf → RecvBuf → Result RecvBuf
unfolding scan_piece store
write_pieces f [] r = ok r
write_pieces zero (piece ∷ tmp) r = panic
write_pieces (suc f) (piece ∷ tmp) r = elim (scan_piece piece tmp r) [
  | ok (dropped rest) ↦ write_pieces f rest r
  | ok (kept buf rest) ↦ write_pieces f rest (store buf r)
  | err e ↦ err e
  | panic ↦ panic
]

unfoldable pub is_fin : RecvBuf → Bool
is_fin r = elim r.fin_off [ none ↦ false | some off ↦ off == r.read_off ]

-- The check against the final size that is known, with the answer of the next check.
unfoldable pub check_final : Option ℕ → RangeBuf → Result (Unit {0}) → Result (Unit {0})
check_final none buf next = next
check_final (some fin_off) buf next =
    if ltb fin_off (max_off buf)
    then err final_size_error
    else if buf.fin && not (fin_off == max_off buf)
    then err final_size_error
    else next

-- The checks of the limits and of the final size.
unfoldable pub check_write : RangeBuf → RecvBuf → Result (Unit {0})
unfolding check_final
check_write buf r =
    if ltb r.flow_control.max_data (max_off buf)
    then err flow_control_error
    else check_final r.fin_off buf
        (if buf.fin && ltb (max_off buf) r.recv_off then err final_size_error else ok tt)

-- `write` behind the checks. Each piece is shorter than the one that it comes from, so a round for
-- each byte and one more are enough.
unfoldable pub write_checked : RangeBuf → RecvBuf → Result (Unit {0}) × RecvBuf
unfolding is_fin write_pieces is_empty
write_checked buf r =
    let r1 = if buf.fin then record r { fin_off = some (max_off buf) } else r in
    if is_fin r
    then (ok tt, r)
    else if not buf.fin && is_empty buf
    then (ok tt, r1)
    else if leb (max_off buf) r.read_off && not (is_empty buf)
    then (ok tt, r1)
    else (elim (write_pieces (suc (len buf)) (buf ∷ []) r1) [
      | ok r2 ↦ (ok tt, r2)
      | err e ↦ (err e, r1)
      | panic ↦ (panic, r1)
    ])

unfoldable pub write : ℕ → List ℕ → Bool → RecvBuf → Result (Unit {0}) × RecvBuf
unfolding check_write write_checked
write offset bytes fin r =
    let buf = RangeBuf.new bytes offset fin in
    elim (check_write buf r) [
      | err e ↦ (err e, r)
      | panic ↦ (panic, r)
      | ok _ ↦ write_checked buf r
    ]

unfoldable pub ready : RecvBuf → Bool
ready r = elim r.chunks [ [] ↦ false | (_, b) ∷ _ ↦ b.off == r.read_off ]

-- The loop of `read`, over the chunks from the first on: the bytes copied, the offset reached and the
-- chunks left.
unfoldable pub take_chunks : ℕ → ℕ → ChunkMap → Result (List ℕ × ℕ × ChunkMap)
unfolding advance
take_chunks capacity read_off [] = ok ([], read_off, [])
take_chunks capacity read_off ((k, b) ∷ m) =
    let n = min (len b) capacity in
    let rest = take_chunks (capacity - n) (read_off + n) m in
    if capacity == 0 || not (b.off == read_off)
    then ok ([], read_off, (k, b) ∷ m)
    else if ltb n (len b)
    then Error.◌>>=◌ (advance n b) (λ a. ok (take n b.bytes, read_off + n, (k, a) ∷ m))
    else Error.◌>>=◌ rest (λ t. ok (b.bytes ++ t.0, t.1, t.2))

-- The state behind the loop, and the answer.
unfoldable pub read_end :
    RecvBuf → Result (List ℕ × ℕ × ChunkMap) → Result (List ℕ × Bool) × RecvBuf
unfolding is_fin FlowControl.increase_read_off
read_end r (ok (bytes, off, left)) =
    let r1 = record r {
      chunks = left;
      read_off = off;
      flow_control = FlowControl.increase_read_off (length bytes) r.flow_control;
    } in
    (ok (bytes, is_fin r1), r1)
read_end r (err e) = (err e, r)
read_end r panic = (panic, r)

-- `read` into a buffer of `capacity` bytes: the bytes written there stand for their number.
unfoldable pub read : ℕ → RecvBuf → Result (List ℕ × Bool) × RecvBuf
unfolding ready take_chunks read_end
read capacity r = if not (ready r) then (err done, r) else (elim r.error [
  | some e ↦ (err (stream_reset e), record r { chunks = [] })
  | none ↦ read_end r (take_chunks capacity r.read_off r.chunks)
])

-- The end of `reset`, with the outcome of `write`.
unfoldable pub reset_end : ℕ → RecvBuf → Result (Unit {0}) × RecvBuf → Result ℕ × RecvBuf
reset_end final_size r (ok _, r2) =
    (ok (final_size - r.recv_off), record r2 { read_off = final_size })
reset_end final_size r (err e, r2) = (err e, r2)
reset_end final_size r (panic, r2) = (panic, r2)

-- `reset` behind its checks, for the first RESET_STREAM frame.
unfoldable pub reset_first : ℕ → ℕ → RecvBuf → Result ℕ × RecvBuf
unfolding write reset_end
reset_first error_code final_size r =
    reset_end final_size r
      (write final_size [] true (record r { error = some error_code; chunks = [] }))

-- The final size that is known is another one.
unfoldable pub final_changes : Option ℕ → ℕ → Bool
final_changes none final_size = false
final_changes (some fin_off) final_size = not (fin_off == final_size)

unfoldable pub reset : ℕ → ℕ → RecvBuf → Result ℕ × RecvBuf
unfolding final_changes reset_first
reset error_code final_size r =
    if final_changes r.fin_off final_size
    then (err final_size_error, r)
    else if ltb final_size r.recv_off
    then (err final_size_error, r)
    else (elim r.error [
      | some _ ↦ (ok (final_size - r.recv_off), r)
      | none ↦ reset_first error_code final_size r
    ])

unfoldable pub shutdown : RecvBuf → Result ℕ × RecvBuf
shutdown r = if r.shut then (err done, r) else (
  ok (sub64 r.recv_off r.read_off),
  record r { shut = true; chunks = []; read_off = r.recv_off },
)

unfoldable pub should_send_max_data : RecvBuf → Bool
unfolding FlowControl.should_send_max_data
should_send_max_data r = elim r.fin_off [
  | none ↦ FlowControl.should_send_max_data r.flow_control
  | some _ ↦ false
]

unfoldable pub update_max_data : ℕ → RecvBuf → RecvBuf
unfolding FlowControl.update_max_data
update_max_data now r = record r { flow_control = FlowControl.update_max_data now r.flow_control }

unfoldable pub autotune_window : ℕ → ℕ → RecvBuf → RecvBuf
unfolding FlowControl.autotune_window
autotune_window now srtt r = record r {
  flow_control = FlowControl.autotune_window now srtt r.flow_control;
}
