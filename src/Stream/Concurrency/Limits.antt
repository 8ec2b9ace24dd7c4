-- ===== src/Stream/Concurrency/Limits.antt =====
-- No more streams are opened than the limits admit, and no id over a limit is available.
use raw_quic.Prelude.{
  Bool, Bool-cases, List, Option, [], arith, false, if◌then◌else◌, inl, inr, leb, ltb, max, true, ℕ,
  ◌+◌, ◌/◌, ◌<◌, ◌^◌, ◌∷◌, ◌≡◌, ◌≤◌,
}
use mathlib.Core.Path.{subst}
use raw_quic.Error.{ok, err, stream_limit_error}
use raw_quic.Stream.Concurrency.{
  limit_of, avail_ids, is_limited, is_available, is_above, ConcurrencyControl,
  update_peer_max_streams, update_local_max_streams, remove_avail_id, increase_max_streams_credits,
  update_streams_blocked_at, open_stream, check_concurrency_limits, insert_avail_id, is_local,
  remove_id, is_bidi,
}
use raw_quic.Ranges
use raw_quic.Ranges.{RangeSet}
use raw_quic.Stream.Concurrency
use raw_quic.Stream.Concurrency.Side.{
  Side-available, Side, open-Side, empty-Side, new-Side, remove-Side, raise-Side,
}

-- The next limit is not below the one announced, and a u64 number.
abbrev Next : ℕ → ℕ → Type 0
Next limit next = (limit ≤ next) × (next < 2 ^ 64)

-- The four kinds of stream: local and bidirectional, local, the peer's and bidirectional, the peer's.
abbrev pub IsValid : ConcurrencyControl → Type 0
IsValid c =
    Side c.local_opened_streams_bidi c.peer_max_streams_bidi c.local_bidi_avail_ids
    × Side c.local_opened_streams_uni c.peer_max_streams_uni c.local_uni_avail_ids
    × Side c.peer_opened_streams_bidi c.local_max_streams_bidi c.peer_bidi_avail_ids
    × Side c.peer_opened_streams_uni c.local_max_streams_uni c.peer_uni_avail_ids
    × Next c.local_max_streams_bidi c.local_max_streams_bidi_next
    × Next c.local_max_streams_uni c.local_max_streams_uni_next

reach-Side :
    (opened limit next : ℕ) (avail : RangeSet)
    → Next limit next
    → Side opened limit avail
    → Side opened next (Ranges.insert (limit, next) avail)
unfolding Ranges.insert
reach-Side opened limit next avail h s = elim (Bool-cases (ltb limit next)) [
  | inl c ↦ raise-Side opened limit next avail (ground (arith, c)) h.1 s
  | inr c ↦
      let e : limit ≡ next = ground (arith, c, h) in
      let k : leb next limit ≡ true = ground (arith, c) in
      rw (k, Ranges.insert) (subst (λ n. Side opened n avail) e s)
]

-- The calls that change the state.
pub data Op : Type 0 where
  peer_limit : Bool → ℕ → Op
  local_limit : Bool → Op
  credits : Bool → ℕ → Op
  blocked : Bool → Option ℕ → Op
  opens : ℕ → Bool → Op
  takes : ℕ → Bool → Op

unfoldable pub step : Op → ConcurrencyControl → ConcurrencyControl
unfolding update_peer_max_streams update_local_max_streams increase_max_streams_credits
    update_streams_blocked_at check_concurrency_limits remove_avail_id
step (peer_limit bidi max_streams) c = update_peer_max_streams bidi max_streams c
step (local_limit bidi) c = update_local_max_streams bidi c
step (credits bidi delta) c = increase_max_streams_credits bidi delta c
step (blocked bidi at) c = update_streams_blocked_at bidi at c
step (opens id is_server) c = (check_concurrency_limits id is_server c).1
step (takes id is_server) c = remove_avail_id id is_server c

unfoldable pub run : List Op → ConcurrencyControl → ConcurrencyControl
unfolding step
run [] c = c
run (op ∷ ops) c = run ops (step op c)

-- The limits that the peer announces are u64 numbers.
abbrev pub FitsOp : Op → Type 0
FitsOp (peer_limit bidi max_streams) = max_streams < 2 ^ 64
FitsOp _ = Unit {0}

abbrev pub FitsOps : List Op → Type 0
FitsOps [] = Unit {0}
FitsOps (op ∷ ops) = FitsOp op × FitsOps ops

pub new-IsValid : (bidi uni : ℕ) → bidi < 2 ^ 64 → uni < 2 ^ 64 → IsValid (Concurrency.new bidi uni)
unfolding Concurrency.new
new-IsValid bidi uni h k =
    (empty-Side, empty-Side, new-Side bidi h, new-Side uni k, (omega arith, h), (omega arith, k))

blocked_at-IsValid :
    (bidi : Bool) (at : Option ℕ) (c : ConcurrencyControl)
    → IsValid c
    → IsValid (update_streams_blocked_at bidi at c)
unfolding update_streams_blocked_at
blocked_at-IsValid true at c v = v
blocked_at-IsValid false at c v = v

open_stream-IsValid :
    (seq : ℕ) (l b : Bool) (c : ConcurrencyControl) → IsValid c → IsValid (open_stream seq l b c).1
unfolding open_stream update_streams_blocked_at
open_stream-IsValid seq true true c v =
    elim (Bool-cases (ltb c.peer_max_streams_bidi (max c.local_opened_streams_bidi seq))) [
      | inl e ↦ rw e v
      | inr e ↦ rw e (open-Side _ _ _ _ (ground (arith, e)) v.0, v.1, v.2, v.3, v.4, v.5)
    ]
open_stream-IsValid seq true false c v =
    elim (Bool-cases (ltb c.peer_max_streams_uni (max c.local_opened_streams_uni seq))) [
      | inl e ↦ rw e v
      | inr e ↦ rw e (v.0, open-Side _ _ _ _ (ground (arith, e)) v.1, v.2, v.3, v.4, v.5)
    ]
open_stream-IsValid seq false true c v =
    elim (Bool-cases (ltb c.local_max_streams_bidi (max c.peer_opened_streams_bidi seq))) [
      | inl e ↦ rw e v
      | inr e ↦ rw e (v.0, v.1, open-Side _ _ _ _ (ground (arith, e)) v.2, v.3, v.4, v.5)
    ]
open_stream-IsValid seq false false c v =
    elim (Bool-cases (ltb c.local_max_streams_uni (max c.peer_opened_streams_uni seq))) [
      | inl e ↦ rw e v
      | inr e ↦ rw e (v.0, v.1, v.2, open-Side _ _ _ _ (ground (arith, e)) v.3, v.4, v.5)
    ]

remove_id-IsValid :
    (id : ℕ) (l b : Bool) (c : ConcurrencyControl) → IsValid c → IsValid (remove_id id l b c)
unfolding remove_id
remove_id-IsValid id true true c v = (remove-Side _ _ id _ v.0, v.1, v.2, v.3, v.4, v.5)
remove_id-IsValid id true false c v = (v.0, remove-Side _ _ id _ v.1, v.2, v.3, v.4, v.5)
remove_id-IsValid id false true c v = (v.0, v.1, remove-Side _ _ id _ v.2, v.3, v.4, v.5)
remove_id-IsValid id false false c v = (v.0, v.1, v.2, remove-Side _ _ id _ v.3, v.4, v.5)

either :
    (b : Bool) (c d : ConcurrencyControl) → IsValid c → IsValid d → IsValid (if b then c else d)
either true c d v w = v
either false c d v w = w

-- A peer's limit that is not higher changes nothing but what is blocked.
peer_limit-IsValid :
    (bidi : Bool) (n : ℕ) (c : ConcurrencyControl)
    → n < 2 ^ 64
    → IsValid c
    → IsValid (update_peer_max_streams bidi n c)
unfolding update_peer_max_streams insert_avail_id
peer_limit-IsValid true n c f v = elim (Bool-cases (ltb c.peer_max_streams_bidi n)) [
  | inl e ↦ rw e (
      either (is_above n c.streams_blocked_at_bidi) _ _
        (raise-Side _ _ n _ (ground (arith, e)) f v.0, v.1, v.2, v.3, v.4, v.5)
        (raise-Side _ _ n _ (ground (arith, e)) f v.0, v.1, v.2, v.3, v.4, v.5))
  | inr e ↦ rw e (either (is_above c.peer_max_streams_bidi c.streams_blocked_at_bidi) _ _ v v)
]
peer_limit-IsValid false n c f v = elim (Bool-cases (ltb c.peer_max_streams_uni n)) [
  | inl e ↦ rw e (
      either (is_above n c.streams_blocked_at_uni) _ _
        (v.0, raise-Side _ _ n _ (ground (arith, e)) f v.1, v.2, v.3, v.4, v.5)
        (v.0, raise-Side _ _ n _ (ground (arith, e)) f v.1, v.2, v.3, v.4, v.5))
  | inr e ↦ rw e (either (is_above c.peer_max_streams_uni c.streams_blocked_at_uni) _ _ v v)
]

local_limit-IsValid :
    (bidi : Bool) (c : ConcurrencyControl) → IsValid c → IsValid (update_local_max_streams bidi c)
unfolding update_local_max_streams insert_avail_id
local_limit-IsValid true c v =
    (v.0, v.1, reach-Side _ _ _ _ v.4 v.2, v.3, (omega arith, v.4.1), v.5)
local_limit-IsValid false c v =
    (v.0, v.1, v.2, reach-Side _ _ _ _ v.5 v.3, v.4, (omega arith, v.5.1))

credits-IsValid :
    (bidi : Bool) (delta : ℕ) (c : ConcurrencyControl)
    → IsValid c
    → IsValid (increase_max_streams_credits bidi delta c)
unfolding increase_max_streams_credits
credits-IsValid true delta c v = (v.0, v.1, v.2, v.3, (omega (arith, v.4), omega arith), v.5)
credits-IsValid false delta c v = (v.0, v.1, v.2, v.3, v.4, (omega (arith, v.5), omega arith))

pub step-IsValid : (op : Op) (c : ConcurrencyControl) → FitsOp op → IsValid c → IsValid (step op c)
unfolding step check_concurrency_limits remove_avail_id
step-IsValid (peer_limit bidi n) c f v = peer_limit-IsValid bidi n c f v
step-IsValid (local_limit bidi) c f v = local_limit-IsValid bidi c v
step-IsValid (credits bidi delta) c f v = credits-IsValid bidi delta c v
step-IsValid (blocked bidi at) c f v = blocked_at-IsValid bidi at c v
step-IsValid (opens id s) c f v = open_stream-IsValid (id / 4 + 1) (is_local id s) (is_bidi id) c v
step-IsValid (takes id s) c f v = remove_id-IsValid (id / 4) (is_local id s) (is_bidi id) c v

pub run-IsValid :
    (ops : List Op) (c : ConcurrencyControl) → FitsOps ops → IsValid c → IsValid (run ops c)
unfolding run
run-IsValid [] c f v = v
run-IsValid (op ∷ ops) c f v = run-IsValid ops (step op c) f.1 (step-IsValid op c f.0 v)

-- Whatever calls are made from the initial state on, with limits that are u64 numbers: a stream id that
-- is available does not exceed the limit of its kind.
pub run_available :
    (bidi uni : ℕ) (ops : List Op) (id : ℕ) (is_server : Bool)
    → bidi < 2 ^ 64
    → uni < 2 ^ 64
    → FitsOps ops
    → is_available id is_server (run ops (Concurrency.new bidi uni)) ≡ true
    → is_limited id is_server (run ops (Concurrency.new bidi uni)) ≡ false
unfolding is_available is_limited
run_available bidi uni ops id is_server h k f a =
    available (is_local id is_server) (is_bidi id) (id / 4) (run ops (Concurrency.new bidi uni))
      (run-IsValid ops (Concurrency.new bidi uni) f (new-IsValid bidi uni h k)) a
  where
    available :
        (l b : Bool) (n : ℕ) (c : ConcurrencyControl)
        → IsValid c
        → Ranges.contains n (avail_ids l b c) ≡ true
        → ltb (limit_of l b c) (n + 1) ≡ false
    available true true n c v e = unfold limit_of in ground (arith, Side-available _ _ n _ v.0 e)
    available true false n c v e = unfold limit_of in ground (arith, Side-available _ _ n _ v.1 e)
    available false true n c v e = unfold limit_of in ground (arith, Side-available _ _ n _ v.2 e)
    available false false n c v e = unfold limit_of in ground (arith, Side-available _ _ n _ v.3 e)

-- In a state in which no more streams are opened than the limits admit, opening a stream is refused
-- with STREAM_LIMIT_ERROR exactly for the ids that exceed the limit of their kind, and the state stays such a one.
pub check_limits :
    (id : ℕ) (is_server : Bool) (c : ConcurrencyControl)
    → IsValid c
    → ((check_concurrency_limits id is_server c).0
        ≡ (if is_limited id is_server c then err stream_limit_error else ok tt))
      × IsValid (check_concurrency_limits id is_server c).1
unfolding check_concurrency_limits is_limited
check_limits id is_server c v = (
  answer (id / 4 + 1) (is_local id is_server) (is_bidi id),
  open_stream-IsValid (id / 4 + 1) (is_local id is_server) (is_bidi id) c v,
)
  where
    answer :
        (seq : ℕ) (l b : Bool)
        → (open_stream seq l b c).0
          ≡ (if ltb (limit_of l b c) seq then err stream_limit_error else ok tt)
    answer seq true true = unfold open_stream limit_of in ground (arith, v.0.opened_below)
    answer seq true false = unfold open_stream limit_of in ground (arith, v.1.opened_below)
    answer seq false true = unfold open_stream limit_of in ground (arith, v.2.opened_below)
    answer seq false false = unfold open_stream limit_of in ground (arith, v.3.opened_below)
