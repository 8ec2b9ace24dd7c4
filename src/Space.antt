-- ===== src/Space.antt =====
-- The buffered frames of a packet number space (src/connection/space.rs): three queues by priority.
pub mod Order
use raw_quic.Prelude.{Bool, List, Option, [], add64, length, none, some, sub64, ℕ, ◌++◌, ◌==◌, ◌∷◌}
use raw_quic.Frame.{Frame}

pub data BufferType : Type 0 where
  high mid low : BufferType

-- The array of queues is three fields.
pub record BufferQueue : Type 0 where
  pub high_queue : List Frame
  pub mid_queue : List Frame
  pub low_queue : List Frame
  pub count : ℕ

unfoldable pub default : BufferQueue
default = record { high_queue = []; mid_queue = []; low_queue = []; count = 0 }

-- `queues[queue_type as usize]`, read and written.
abbrev pub queue_of : BufferType → BufferQueue → List Frame
queue_of high q = q.high_queue
queue_of mid q = q.mid_queue
queue_of low q = q.low_queue

abbrev pub set_queue : BufferType → List Frame → BufferQueue → BufferQueue
set_queue high fs q = record q { high_queue = fs }
set_queue mid fs q = record q { mid_queue = fs }
set_queue low fs q = record q { low_queue = fs }

-- The loop of `pop_front` over the queues, from the highest priority down.
unfoldable pub pop_from : List BufferType → BufferQueue → Option (Frame × BufferType) × BufferQueue
pop_from [] q = (none, q)
pop_from (t ∷ ts) q = elim (queue_of t q) [
  | [] ↦ pop_from ts q
  | f ∷ fs ↦ (some (f, t), record (set_queue t fs q) { count = sub64 q.count 1 })
]

unfoldable pub pop_front : BufferQueue → Option (Frame × BufferType) × BufferQueue
unfolding pop_from
pop_front q = pop_from (high ∷ mid ∷ low ∷ []) q

unfoldable pub push_front : Frame → BufferType → BufferQueue → BufferQueue
push_front frame t q = record (set_queue t (frame ∷ queue_of t q) q) { count = add64 q.count 1 }

unfoldable pub push_back : Frame → BufferType → BufferQueue → BufferQueue
push_back frame t q = record (set_queue t (queue_of t q ++ (frame ∷ [])) q) {
  count = add64 q.count 1;
}

unfoldable pub append : List Frame → BufferType → BufferQueue → BufferQueue
append frames t q = record (set_queue t (queue_of t q ++ frames) q) {
  count = add64 q.count (length frames);
}

unfoldable pub is_empty : BufferQueue → Bool
is_empty q = q.count == 0
