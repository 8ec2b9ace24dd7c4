-- ===== src/Stream/Concurrency.antt =====
-- The limits on the number of streams: `ConcurrencyControl` (src/connection/stream.rs). Where the
-- source matches on `(is_local, is_bidi)`, the four cases are clauses.
pub mod Side
pub mod Limits
use raw_quic.Prelude.{
  Bool, Option, false, if◌then◌else◌, ltb, max, min, none, not, some, sub64, true, ℕ, ◌&&◌, ◌+◌,
  ◌-◌, ◌/◌, ◌==◌, ◌^◌,
}
use raw_quic.Error.{Result, ok, err, stream_limit_error}
use raw_quic.Ranges
use raw_quic.Ranges.{RangeSet}
use raw_quic.Ranges.Entries.{Range}
use raw_quic.Stream.Kind.{is_local, is_bidi}

pub record ConcurrencyControl : Type 0 where
  pub peer_max_streams_bidi : ℕ
  pub peer_max_streams_uni : ℕ
  pub peer_opened_streams_bidi : ℕ
  pub peer_opened_streams_uni : ℕ
  pub local_max_streams_bidi : ℕ
  pub local_max_streams_bidi_next : ℕ
  pub local_max_streams_uni : ℕ
  pub local_max_streams_uni_next : ℕ
  pub local_opened_streams_bidi : ℕ
  pub local_opened_streams_uni : ℕ
  pub streams_blocked_at_bidi : Option ℕ
  pub streams_blocked_at_uni : Option ℕ
  pub peer_bidi_avail_ids : RangeSet
  pub peer_uni_avail_ids : RangeSet
  pub local_bidi_avail_ids : RangeSet
  pub local_uni_avail_ids : RangeSet

unfoldable pub new : ℕ → ℕ → ConcurrencyControl
unfolding Ranges.default Ranges.insert
new local_max_streams_bidi local_max_streams_uni = record {
  peer_max_streams_bidi = 0;
  peer_max_streams_uni = 0;
  peer_opened_streams_bidi = 0;
  peer_opened_streams_uni = 0;
  local_max_streams_bidi = local_max_streams_bidi;
  local_max_streams_bidi_next = local_max_streams_bidi;
  local_max_streams_uni = local_max_streams_uni;
  local_max_streams_uni_next = local_max_streams_uni;
  local_opened_streams_bidi = 0;
  local_opened_streams_uni = 0;
  streams_blocked_at_bidi = none;
  streams_blocked_at_uni = none;
  peer_bidi_avail_ids = Ranges.insert (0, local_max_streams_bidi) Ranges.default;
  peer_uni_avail_ids = Ranges.insert (0, local_max_streams_uni) Ranges.default;
  local_bidi_avail_ids = Ranges.default;
  local_uni_avail_ids = Ranges.default;
}

unfoldable pub insert_avail_id : Range → Bool → Bool → ConcurrencyControl → ConcurrencyControl
unfolding Ranges.insert
insert_avail_id ids true true c = record c {
  local_bidi_avail_ids = Ranges.insert ids c.local_bidi_avail_ids;
}
insert_avail_id ids true false c = record c {
  local_uni_avail_ids = Ranges.insert ids c.local_uni_avail_ids;
}
insert_avail_id ids false true c = record c {
  peer_bidi_avail_ids = Ranges.insert ids c.peer_bidi_avail_ids;
}
insert_avail_id ids false false c = record c {
  peer_uni_avail_ids = Ranges.insert ids c.peer_uni_avail_ids;
}

-- The cases of `remove_avail_id`.
unfoldable pub remove_id : ℕ → Bool → Bool → ConcurrencyControl → ConcurrencyControl
unfolding Ranges.remove_elem
remove_id id true true c = record c {
  local_bidi_avail_ids = Ranges.remove_elem id c.local_bidi_avail_ids;
}
remove_id id true false c = record c {
  local_uni_avail_ids = Ranges.remove_elem id c.local_uni_avail_ids;
}
remove_id id false true c = record c {
  peer_bidi_avail_ids = Ranges.remove_elem id c.peer_bidi_avail_ids;
}
remove_id id false false c = record c {
  peer_uni_avail_ids = Ranges.remove_elem id c.peer_uni_avail_ids;
}

unfoldable pub remove_avail_id : ℕ → Bool → ConcurrencyControl → ConcurrencyControl
unfolding remove_id is_local is_bidi
remove_avail_id stream_id is_server c =
    remove_id (stream_id / 4) (is_local stream_id is_server) (is_bidi stream_id) c

-- `Some(limit) > blocked_at`.
unfoldable pub is_above : ℕ → Option ℕ → Bool
is_above limit none = true
is_above limit (some blocked_at) = ltb blocked_at limit

unfoldable pub update_peer_max_streams : Bool → ℕ → ConcurrencyControl → ConcurrencyControl
unfolding insert_avail_id is_above
update_peer_max_streams true max_streams c =
    let c1 =
      if ltb c.peer_max_streams_bidi max_streams
      then record (insert_avail_id (c.peer_max_streams_bidi, max_streams) true true c) {
        peer_max_streams_bidi = max_streams;
      }
      else c in
    if is_above c1.peer_max_streams_bidi c1.streams_blocked_at_bidi
    then record c1 { streams_blocked_at_bidi = none }
    else c1
update_peer_max_streams false max_streams c =
    let c1 =
      if ltb c.peer_max_streams_uni max_streams
      then record (insert_avail_id (c.peer_max_streams_uni, max_streams) true false c) {
        peer_max_streams_uni = max_streams;
      }
      else c in
    if is_above c1.peer_max_streams_uni c1.streams_blocked_at_uni
    then record c1 { streams_blocked_at_uni = none }
    else c1

unfoldable pub update_local_max_streams : Bool → ConcurrencyControl → ConcurrencyControl
unfolding insert_avail_id
update_local_max_streams true c =
    record (insert_avail_id (c.local_max_streams_bidi, c.local_max_streams_bidi_next) false true
      c) { local_max_streams_bidi = c.local_max_streams_bidi_next }
update_local_max_streams false c =
    record (insert_avail_id (c.local_max_streams_uni, c.local_max_streams_uni_next) false false c) {
      local_max_streams_uni = c.local_max_streams_uni_next;
    }

unfoldable pub peer_max_streams : Bool → ConcurrencyControl → ℕ
peer_max_streams true c = c.peer_max_streams_bidi
peer_max_streams false c = c.peer_max_streams_uni

unfoldable pub peer_streams_left : Bool → ConcurrencyControl → ℕ
peer_streams_left true c = sub64 c.peer_max_streams_bidi c.local_opened_streams_bidi
peer_streams_left false c = sub64 c.peer_max_streams_uni c.local_opened_streams_uni

unfoldable pub should_update_local_max_streams : Bool → ConcurrencyControl → Bool
should_update_local_max_streams true c =
    not (c.local_max_streams_bidi_next == c.local_max_streams_bidi)
    && ltb (sub64 c.local_max_streams_bidi c.peer_opened_streams_bidi)
        (sub64 c.local_max_streams_bidi_next c.local_max_streams_bidi)
should_update_local_max_streams false c =
    not (c.local_max_streams_uni_next == c.local_max_streams_uni)
    && ltb (sub64 c.local_max_streams_uni c.peer_opened_streams_uni)
        (sub64 c.local_max_streams_uni_next c.local_max_streams_uni)

-- `saturating_add`.
abbrev pub saturating_add : ℕ → ℕ → ℕ
saturating_add a b = min (a + b) (2 ^ 64 - 1)

unfoldable pub increase_max_streams_credits : Bool → ℕ → ConcurrencyControl → ConcurrencyControl
increase_max_streams_credits true delta c = record c {
  local_max_streams_bidi_next = saturating_add c.local_max_streams_bidi_next delta;
}
increase_max_streams_credits false delta c = record c {
  local_max_streams_uni_next = saturating_add c.local_max_streams_uni_next delta;
}

unfoldable pub update_streams_blocked_at : Bool → Option ℕ → ConcurrencyControl → ConcurrencyControl
update_streams_blocked_at true blocked_at c = record c { streams_blocked_at_bidi = blocked_at }
update_streams_blocked_at false blocked_at c = record c { streams_blocked_at_uni = blocked_at }

-- The cases of `check_concurrency_limits`.
unfoldable pub open_stream :
    ℕ → Bool → Bool → ConcurrencyControl → Result (Unit {0}) × ConcurrencyControl
unfolding update_streams_blocked_at
open_stream seq true true c =
    let n = max c.local_opened_streams_bidi seq in
    if ltb c.peer_max_streams_bidi n
    then (err stream_limit_error, update_streams_blocked_at true (some c.peer_max_streams_bidi) c)
    else (ok tt, record c { local_opened_streams_bidi = max c.local_opened_streams_bidi n })
open_stream seq true false c =
    let n = max c.local_opened_streams_uni seq in
    if ltb c.peer_max_streams_uni n
    then (err stream_limit_error, update_streams_blocked_at false (some c.peer_max_streams_uni) c)
    else (ok tt, record c { local_opened_streams_uni = max c.local_opened_streams_uni n })
open_stream seq false true c =
    let n = max c.peer_opened_streams_bidi seq in
    if ltb c.local_max_streams_bidi n
    then (err stream_limit_error, c)
    else (ok tt, record c { peer_opened_streams_bidi = max c.peer_opened_streams_bidi n })
open_stream seq false false c =
    let n = max c.peer_opened_streams_uni seq in
    if ltb c.local_max_streams_uni n
    then (err stream_limit_error, c)
    else (ok tt, record c { peer_opened_streams_uni = max c.peer_opened_streams_uni n })

unfoldable pub check_concurrency_limits :
    ℕ → Bool → ConcurrencyControl → Result (Unit {0}) × ConcurrencyControl
unfolding open_stream is_local is_bidi
check_concurrency_limits id is_server c =
    open_stream (id / 4 + 1) (is_local id is_server) (is_bidi id) c

-- The limits that `is_limited` compares with, and the sets that `is_available` looks into.
unfoldable pub limit_of : Bool → Bool → ConcurrencyControl → ℕ
limit_of true true c = c.peer_max_streams_bidi
limit_of true false c = c.peer_max_streams_uni
limit_of false true c = c.local_max_streams_bidi
limit_of false false c = c.local_max_streams_uni

unfoldable pub avail_ids : Bool → Bool → ConcurrencyControl → RangeSet
avail_ids true true c = c.local_bidi_avail_ids
avail_ids true false c = c.local_uni_avail_ids
avail_ids false true c = c.peer_bidi_avail_ids
avail_ids false false c = c.peer_uni_avail_ids

unfoldable pub is_limited : ℕ → Bool → ConcurrencyControl → Bool
unfolding limit_of is_local is_bidi
is_limited stream_id is_server c =
    ltb (limit_of (is_local stream_id is_server) (is_bidi stream_id) c) (stream_id / 4 + 1)

unfoldable pub is_available : ℕ → Bool → ConcurrencyControl → Bool
unfolding avail_ids Ranges.contains is_local is_bidi
is_available stream_id is_server c =
    Ranges.contains (stream_id / 4) (avail_ids (is_local stream_id is_server) (is_bidi stream_id) c)
