-- ===== src/Stream/Send.antt =====
-- The send buffer of a stream: `SendBuf` (src/connection/stream.rs). The trace identifier is left
-- out, and so is the memory that `ack_and_drop` gives back.
pub mod Chunks
pub mod Loss
pub mod Retransmit
pub mod Acknowledge
pub mod Copy
pub mod Write
pub mod Read
use raw_quic.Prelude.{
  Bool, List, Option, [], drop, false, if◌then◌else◌, leb, length, ltb, min, none, not, some, sub64,
  suc, take, zero, ℕ, ◌&&◌, ◌++◌, ◌+◌, ◌-◌, ◌==◌, ◌||◌, ◌∷◌,
}
use raw_quic.Error.{Result, ok, err, panic, final_size_error, stream_stopped}
use raw_quic.Ranges
use raw_quic.Ranges.{RangeSet}
use raw_quic.Ranges.Entries.{Range}
use raw_quic.Stream.Concurrency.{saturating_add}
use raw_quic.Stream.RangeBuf
use raw_quic.Stream.RangeBuf.{RangeBuf, len, max_off}

pub record SendBuf : Type 0 where
  pub chunks : List RangeBuf
  pub pos : ℕ
  pub write_off : ℕ
  pub unsent_off : ℕ
  pub unacked_len : ℕ
  pub max_data : ℕ
  pub blocked_at : Option ℕ
  pub fin_off : Option ℕ
  pub shut : Bool
  pub acked : RangeSet
  pub retransmits : RangeSet
  pub error : Option ℕ

unfoldable pub new : ℕ → SendBuf
unfolding Ranges.default
new max_data = record {
  chunks = [];
  pos = 0;
  write_off = 0;
  unsent_off = 0;
  unacked_len = 0;
  max_data = max_data;
  blocked_at = none;
  fin_off = none;
  shut = false;
  acked = Ranges.default;
  retransmits = Ranges.default;
  error = none;
}

-- `SEND_BUFFER_SIZE`.
abbrev pub send_buffer_size : ℕ
send_buffer_size = 4096

unfoldable pub capacity : SendBuf → Result ℕ
capacity s = elim s.error [
  | some e ↦ err (stream_stopped e)
  | none ↦ ok (sub64 s.max_data s.write_off)
]

-- The check against the final size that is known.
unfoldable pub final_refuses : Option ℕ → ℕ → Bool → Bool
final_refuses none max_off fin = false
final_refuses (some fin_off) max_off fin = ltb fin_off max_off || (max_off == fin_off && not fin)

-- The loop of `write` over the chunks of full size, and the rest: the chunks and the new write offset.
-- Each round takes bytes, so their number is enough fuel.
unfoldable pub split_data : ℕ → List ℕ → ℕ → ℕ → ℕ → Bool → List RangeBuf × ℕ
split_data zero bytes off taken total fin = ([], off)
split_data (suc f) bytes off taken total fin =
    let size = send_buffer_size in
    let (bufs, end) = split_data f (drop size bytes) (off + size) (taken + size) total fin in
    if ltb size (length bytes)
    then (RangeBuf.new (take size bytes) off (taken + size == total && fin) ∷ bufs, end)
    else if length bytes == 0
    then ([], off)
    else (RangeBuf.new bytes off fin ∷ [], off + length bytes)

-- `write` behind the checks.
unfoldable pub append_data : List ℕ → Bool → SendBuf → SendBuf
unfolding split_data
append_data bytes fin s =
    let (bufs, end) = split_data (length bytes) bytes s.write_off 0 (length bytes) fin in
    record s {
      chunks = s.chunks ++ bufs;
      write_off = end;
      unacked_len = s.unacked_len + length bytes;
    }

-- `write` with the capacity that is left.
unfoldable pub write_within : ℕ → List ℕ → Bool → SendBuf → Result ℕ × SendBuf
unfolding final_refuses append_data
write_within room bytes fin s =
    let max_off = s.write_off + length bytes in
    let kept = if ltb room (length bytes) then take room bytes else bytes in
    let kept_fin = if ltb room (length bytes) then false else fin in
    let s1 = if kept_fin then record s { fin_off = some max_off } else s in
    if final_refuses s.fin_off max_off kept_fin
    then (err final_size_error, s)
    else if length kept == 0
    then (ok 0, s1)
    else (ok (length kept), append_data kept kept_fin s1)

unfoldable pub write : List ℕ → Bool → SendBuf → Result ℕ × SendBuf
unfolding capacity write_within
write bytes fin s = elim (capacity s) [
  | err e ↦ (err e, s)
  | panic ↦ (panic, s)
  | ok room ↦ write_within room bytes fin s
]

-- The cases of `poll_transmit`, with what `pop_min` returned and left.
unfoldable pub poll_from : ℕ → Option Range × RangeSet → SendBuf → Range × SendBuf
unfolding Ranges.insert
poll_from max_len (some (start, stop), left) s =
    let end = min stop (saturating_add start max_len) in
    (
      (start, end),
      (if end == stop
          then record s { retransmits = left }
          else record s { retransmits = Ranges.insert (end, stop) left }),
    )
poll_from max_len (none, left) s =
    let end = min s.write_off (saturating_add s.unsent_off max_len) in
    ((s.unsent_off, end), record s { unsent_off = end })

unfoldable pub poll_transmit : ℕ → SendBuf → Range × SendBuf
unfolding Ranges.pop_min poll_from
poll_transmit max_len s = poll_from max_len (Ranges.pop_min s.retransmits) s

-- The loop of `read_range`, over the chunks from the position on: the bytes, and the new position.
unfoldable pub find_range : Range → ℕ → List RangeBuf → List ℕ × ℕ
find_range (start, stop) pos [] = ([], pos)
find_range (start, stop) pos (b ∷ bs) =
    let next = find_range (start, stop) (suc pos) bs in
    let end = min (stop - b.off) (len b) in
    if leb b.off start && ltb start (max_off b)
    then (drop (start - b.off) (take end b.bytes), (if end == len b then suc pos else pos))
    else next

unfoldable pub read_range : Range → SendBuf → List ℕ × SendBuf
unfolding find_range
read_range range s =
    let (bytes, pos) = find_range range s.pos (drop s.pos s.chunks) in
    (bytes, record s { pos = pos })

-- `retransmits.min`, or the first offset that was not sent.
unfoldable pub send_off : SendBuf → ℕ
unfolding Ranges.set_min
send_off s = elim (Ranges.set_min s.retransmits) [ none ↦ s.unsent_off | some start ↦ start ]

unfoldable pub ready : SendBuf → Bool
unfolding send_off
ready s = not (length s.chunks == 0) && ltb (send_off s) s.write_off

-- The inner loop of `read`: the bytes of a range, piece by piece, on fuel; `none` means that the fuel
-- ran out, as it does when a piece is empty and the loop does not end.
unfoldable pub copy_range : ℕ → Range → SendBuf → Option (List ℕ × SendBuf)
unfolding read_range
copy_range zero (start, stop) s = if start == stop then some ([], s) else none
copy_range (suc f) (start, stop) s =
    let (bytes, s1) = read_range (start, stop) s in
    let rest = copy_range f (start + length bytes, stop) s1 in
    if start == stop
    then some ([], s)
    else (elim rest [ none ↦ none | some (more, s2) ↦ some (bytes ++ more, s2) ])

-- The bytes of a round, before those of the later ones.
unfoldable pub prepend : List ℕ → Option (List ℕ × ℕ × SendBuf) → Option (List ℕ × ℕ × SendBuf)
prepend bytes none = none
prepend bytes (some (more, off, s)) = some (bytes ++ more, off, s)

-- The end of a round of the outer loop of `read`, with the range's length and what was copied; `later`
-- stands for the later rounds.
unfoldable pub end_round :
    (ℕ → ℕ → SendBuf → Option (List ℕ × ℕ × SendBuf))
    → ℕ
    → ℕ
    → ℕ
    → Option (List ℕ × SendBuf)
    → Option (List ℕ × ℕ × SendBuf)
unfolding prepend
end_round later room next_off range_len none = none
end_round later room next_off range_len (some (bytes, s)) =
    prepend bytes (later (room - range_len) (next_off + range_len) s)

-- The body of the outer loop, with the range that `poll_transmit` returned.
unfoldable pub read_round :
    (ℕ → ℕ → SendBuf → Option (List ℕ × ℕ × SendBuf))
    → ℕ
    → ℕ
    → Range × SendBuf
    → Option (List ℕ × ℕ × SendBuf)
unfolding copy_range end_round
read_round later room next_off ((start, stop), s) =
    end_round later room next_off (stop - start) (copy_range (stop - start) (start, stop) s)

-- The outer loop of `read`, on fuel: the bytes, the offset behind them and the state.
unfoldable pub read_ranges : ℕ → ℕ → ℕ → SendBuf → Option (List ℕ × ℕ × SendBuf)
unfolding poll_transmit read_round ready send_off
read_ranges zero room next_off s = none
read_ranges (suc f) room next_off s =
    let rest = read_round (read_ranges f) room next_off (poll_transmit room s) in
    if ltb 0 room && ready s && send_off s == next_off && ltb (send_off s) s.max_data
    then rest
    else some ([], next_off, s)

-- `read` into a buffer of `room` bytes: the bytes written there, and the fin flag. A round that goes on
-- fills a part of the buffer.
unfoldable pub read : ℕ → SendBuf → Result (List ℕ × Bool) × SendBuf
unfolding read_ranges send_off
read room s = elim (read_ranges (suc room) room (send_off s) s) [
  | none ↦ (panic, s)
  | some (bytes, next_off, s1) ↦
      (ok (bytes, elim s1.fin_off [ none ↦ false | some off ↦ off == next_off ]), s1)
]
