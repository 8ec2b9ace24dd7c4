-- ===== src/Stream/RangeBuf.antt =====
-- A chunk of a stream: `RangeBuf` (src/connection/stream.rs). Its arrival time, which nothing here
-- reads, is left out. Offsets are below 2 ^ 62, as `Frame::from_bytes` checks, so their sums with a
-- length do not reach 2 ^ 64.
pub mod Bytes
use raw_quic.Error.{Result, ok, panic}
use raw_quic.Prelude.{Bool, List, drop, false, if◌then◌else◌, length, ltb, take, ℕ, ◌+◌, ◌==◌}

pub record RangeBuf : Type 0 where
  pub bytes : List ℕ
  pub off : ℕ
  pub fin : Bool

abbrev pub new : List ℕ → ℕ → Bool → RangeBuf
new buf off fin = record { bytes = buf; off = off; fin = fin }

abbrev pub len : RangeBuf → ℕ
len b = length b.bytes

abbrev pub max_off : RangeBuf → ℕ
max_off b = b.off + len b

unfoldable pub is_empty : RangeBuf → Bool
is_empty b = len b == 0

-- The chunk without its first `count` bytes.
unfoldable pub advanced : ℕ → RangeBuf → RangeBuf
advanced count b = record b { bytes = drop count b.bytes; off = b.off + count }

-- `advance`, which is also `consume`: `Bytes::advance` panics beyond the end.
unfoldable pub advance : ℕ → RangeBuf → Result RangeBuf
unfolding advanced
advance count b = if ltb (len b) count then panic else ok (advanced count b)

-- The two parts of a chunk, below an index and from it on.
unfoldable pub cut_at : ℕ → RangeBuf → RangeBuf × RangeBuf
cut_at at b = (
  record b { bytes = take at b.bytes; fin = false },
  record { bytes = drop at b.bytes; off = b.off + at; fin = b.fin },
)

-- What `split_off` leaves, and what it returns: `Bytes::split_off` panics beyond the end.
unfoldable pub split_off : ℕ → RangeBuf → Result (RangeBuf × RangeBuf)
unfolding cut_at
split_off at b = if ltb (len b) at then panic else ok (cut_at at b)

-- What `split_to` leaves, and what it returns: `Bytes::split_to` panics beyond the end.
unfoldable pub split_to : ℕ → RangeBuf → Result (RangeBuf × RangeBuf)
split_to at b =
    if ltb (len b) at
    then panic
    else ok (
      record b { bytes = drop at b.bytes; off = b.off + at },
      record { bytes = take at b.bytes; off = b.off; fin = false },
    )
