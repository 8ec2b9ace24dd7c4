-- ===== src/Space/Order.antt =====
-- The buffered frames as one sequence, the highest priority first.
use raw_quic.Prelude.{
  List, [], add64, ap, arith, length, length-append, none, refl, some, sub64, suc, ℕ, ◌++◌, ◌+◌,
  ◌-◌, ◌<◌, ◌==◌, ◌^◌, ◌∷◌, ◌≡◌,
}
use raw_quic.Frame.{Frame}
use raw_quic.Space.{
  BufferType, high, mid, low, BufferQueue, pop_from, pop_front, push_front, is_empty,
}

abbrev pub tagged : BufferType → List Frame → List (Frame × BufferType)
tagged t [] = []
tagged t (f ∷ fs) = (f, t) ∷ tagged t fs

-- The frames in the order in which they are taken.
abbrev pub contents : BufferQueue → List (Frame × BufferType)
contents q = tagged high q.high_queue ++ (tagged mid q.mid_queue ++ tagged low q.low_queue)

-- The counter is the number of frames.
abbrev pub IsCounted : BufferQueue → Type 0
IsCounted q =
    (q.count ≡ length q.high_queue + length q.mid_queue + length q.low_queue) × (q.count < 2 ^ 64)

-- What `pop_front` does to the contents, by the first queue that is not empty.
pops :
    (hs ms ls : List Frame) (n : ℕ)
    → let q : BufferQueue = record { high_queue = hs; mid_queue = ms; low_queue = ls; count = n } in
      IsCounted q
      → ((pop_front q).0 ≡ (elim (contents q) [ [] ↦ none | p ∷ ps ↦ some p ]))
        × (contents (pop_front q).1 ≡ (elim (contents q) [ [] ↦ [] | p ∷ ps ↦ ps ]))
        × IsCounted (pop_front q).1
unfolding pop_front pop_from
pops [] [] [] n c = (refl, refl, c)
pops [] [] (f ∷ ls) n c = (refl, refl, omega (arith, c))
pops [] (f ∷ ms) ls n c = (refl, refl, omega (arith, c))
pops (f ∷ hs) ms ls n c = (refl, refl, omega (arith, c))

length-tagged : (t : BufferType) (fs : List Frame) → length (tagged t fs) ≡ length fs
length-tagged t [] = refl
length-tagged t (f ∷ fs) = ap suc (length-tagged t fs)

-- While the counter is right, taking a frame takes the first of the contents, none if there is none, leaves the others in order,
-- and keeps the count.
pub pop_front-contents :
    (q : BufferQueue)
    → IsCounted q
    → ((pop_front q).0 ≡ (elim (contents q) [ [] ↦ none | p ∷ ps ↦ some p ]))
      × (contents (pop_front q).1 ≡ (elim (contents q) [ [] ↦ [] | p ∷ ps ↦ ps ]))
      × IsCounted (pop_front q).1
pop_front-contents q c = pops q.high_queue q.mid_queue q.low_queue q.count c

-- While the counter is right and not at its maximum, a frame put back in front of the highest
-- priority is the next one taken, and the buffer is then as it was.
pub pop_front-push_front :
    (f : Frame) (q : BufferQueue)
    → IsCounted q
    → q.count < 2 ^ 64 - 1
    → pop_front (push_front f high q) ≡ (some (f, high), q)
unfolding pop_front pop_from push_front
pop_front-push_front f q c b =
    let same : sub64 (add64 q.count 1) 1 ≡ q.count = omega (arith, c) in rw same

-- While the counter is right, the buffer is empty exactly if no frame is left.
pub is_empty-contents : (q : BufferQueue) → IsCounted q → is_empty q ≡ (length (contents q) == 0)
unfolding is_empty
is_empty-contents q c =
    let all : length (contents q)
        ≡ length q.high_queue + (length q.mid_queue + length q.low_queue) =
      rw (length-append, length-append, length-tagged high, length-tagged mid, length-tagged low) in
    ground (arith, all, c)
