-- ===== src/Stream/Send/Loss.antt =====
-- The other operations of `SendBuf` (src/connection/stream.rs): the peer's limit, acknowledgement, loss,
-- and the end of the stream.
use raw_quic.Prelude.{
  Bool, List, Option, [], false, if◌then◌else◌, leb, length, ltb, max, none, some, sub64, suc, true,
  ℕ, ◌+◌, ◌-◌, ◌==◌, ◌||◌, ◌∷◌,
}
use raw_quic.Error.{Result, ok, err, done, panic}
use raw_quic.Ranges
use raw_quic.Ranges.{RangeSet}
use raw_quic.Ranges.Entries.{Map, Range}
use raw_quic.Stream.RangeBuf.{RangeBuf, len, advance}
use raw_quic.Stream.Send.{SendBuf, send_off}

unfoldable pub update_max_data : ℕ → SendBuf → SendBuf
update_max_data max_data s = record s { max_data = max s.max_data max_data }

unfoldable pub update_blocked_at : Option ℕ → SendBuf → SendBuf
update_blocked_at blocked_at s = record s { blocked_at = blocked_at }

-- The end of the first range, if that begins with the stream.
unfoldable pub first_end : Map → ℕ
first_end [] = 0
first_end ((start, stop) ∷ _) = if start == 0 then stop else 0

unfoldable pub ack_off : SendBuf → ℕ
unfolding first_end
ack_off s = first_end s.acked.set

unfoldable pub ack : ℕ → ℕ → SendBuf → SendBuf
ack off count s = record s { acked = Ranges.insert (off, off + count) s.acked }

-- The loop of `ack_and_drop`: the chunks left, and the number of chunks dropped. `none` is the panic
-- of `front_mut().unwrap()` or of `advance`.
unfoldable pub drop_front : ℕ → List RangeBuf → Option (List RangeBuf × ℕ)
unfolding advance
drop_front count [] = if count == 0 then some ([], 0) else none
drop_front count (b ∷ bs) =
    let rest = drop_front (count - len b) bs in
    if count == 0
    then some (b ∷ bs, 0)
    else if leb (len b) count
    then (elim rest [ none ↦ none | some (left, dropped) ↦ some (left, suc dropped) ])
    else (elim (advance count b) [ ok b ↦ some (b ∷ bs, 0) | err _ ↦ none | panic ↦ none ])

-- The buffer with the chunks that are left.
unfoldable pub leave : ℕ → SendBuf → Option (List RangeBuf × ℕ) → Option SendBuf
leave count s none = none
leave count s (some (left, dropped)) =
    some
      (record s { chunks = left; unacked_len = sub64 s.unacked_len count; pos = s.pos - dropped })

-- The end of `ack_and_drop`, behind the check for gaps.
unfoldable pub drop_acked : SendBuf → Option SendBuf
unfolding drop_front ack_off leave
drop_acked s =
    let count = sub64 (ack_off s) (sub64 s.write_off s.unacked_len) in
    leave count s (drop_front count s.chunks)

unfoldable pub ack_and_drop : ℕ → ℕ → SendBuf → Option SendBuf
unfolding ack ack_off drop_acked
ack_and_drop off count s =
    if length s.chunks == 0
    then some (record s { retransmits = Ranges.clear s.retransmits })
    else (let s1 = ack off count s in
        let s2 = record s1 { retransmits = Ranges.remove (off, off + count) s.retransmits } in
        if ltb (ack_off s2) off then some s2 else drop_acked s2)

-- The loop of `retransmit` over the acknowledged ranges: the range left, and the set.
unfoldable pub without_acked : Map → ℕ → ℕ → RangeSet → Range × RangeSet
without_acked [] start end r = ((start, end), r)
without_acked ((s, e) ∷ m) start end r =
    let behind = without_acked m start end r in
    let split = without_acked m e end (Ranges.insert (start, s) r) in
    let second = without_acked m e end r in
    if leb end s
    then ((start, end), r)
    else if leb e start
    then behind
    else if ltb start s
    then (if leb end e then ((start, s), r) else split)
    else if leb end e
    then ((start, start), r)
    else second

unfoldable pub retransmit : ℕ → ℕ → SendBuf → SendBuf
unfolding send_off ack_off without_acked
retransmit off count s =
    let (range, left) = without_acked s.acked.set off (off + count) s.retransmits in
    let s1 = record s { retransmits = Ranges.insert range left } in
    if length s.chunks == 0
    then s
    else if leb (off + count) (ack_off s)
    then s
    else if ltb (send_off s1) (send_off s)
    then record s1 { pos = 0 }
    else s1

unfoldable pub filter_acked : Range → SendBuf → Option Range
unfolding Ranges.filter
filter_acked range s = Ranges.filter range s.acked

-- The final size and the number of bytes that were not sent.
unfoldable pub reset : SendBuf → (ℕ × ℕ) × SendBuf
unfolding ack
reset s =
    let s1 = ack 0 s.unsent_off (record s { fin_off = some s.unsent_off; chunks = [] }) in
    ((s.unsent_off, s.write_off - s.unsent_off), record s1 { pos = 0; write_off = s.unsent_off })

unfoldable pub stop : ℕ → SendBuf → Result (ℕ × ℕ) × SendBuf
unfolding reset
stop error_code s =
    let (sizes, s1) = reset s in
    elim s.error [
      | some _ ↦ (err done, s)
      | none ↦ (ok sizes, record s1 { error = some error_code })
    ]

unfoldable pub shutdown : SendBuf → Result (ℕ × ℕ) × SendBuf
unfolding reset
shutdown s =
    let (sizes, s1) = reset (record s { shut = true }) in
    if s.shut then (err done, s) else (ok sizes, s1)

unfoldable pub is_fin : SendBuf → Bool
is_fin s = elim s.fin_off [ none ↦ false | some off ↦ off == s.write_off ]

unfoldable pub is_complete : SendBuf → Bool
unfolding Ranges.eq_range
is_complete s = elim s.fin_off [
  | none ↦ false
  | some off ↦ off == 0 || Ranges.eq_range s.acked (0, off)
]
