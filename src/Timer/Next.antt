-- ===== src/Timer/Next.antt =====
-- The table keeps what was set for each timer, and its next timeout is the time at which the first
-- timer expires.
use raw_quic.Prelude.{
  Bool-cases, List, Option, Option-cases, [], arith, get_elem?, get_elem?-set_ne,
  get_elem?-set_self, if◌then◌else◌, inl, inr, leb, length, length-set, min, none, set, some, suc,
  true, zero, ℕ, ◌<◌, ◌==◌, ◌∙◌, ◌∷◌, ◌≡◌, ◌≤◌,
}
use raw_quic.Timer.{
  loss_detection, ack, pacer, idle, handshake, draining, key_discard, keep_alive, path_challenge,
  Timer, index, count, TimerTable, set_timer, get, stop, min_set, next_timeout, is_expired,
}

abbrev pub IsTable : TimerTable → Type 0
IsTable t = length t.expires ≡ count

index-lt-count : (timer : Timer) → index timer < count
index-lt-count timer = ground arith

-- After setting or stopping a timer in a table of the right size, it holds the time or none, every other timer holds what it held,
-- and the table keeps its size.
pub get-set_timer :
    (a b : Timer) (time : ℕ) (t : TimerTable)
    → IsTable t
    → (get b (set_timer a time t) ≡ (if index a == index b then some time else get b t))
      × (get b (stop a t) ≡ (if index a == index b then none else get b t))
      × IsTable (set_timer a time t)
      × IsTable (stop a t)
unfolding get set_timer stop
get-set_timer a b time t h =
    (ground (arith, got (some time)), ground (arith, got none), kept (some time), kept none)
  where
    kept : (v : Option ℕ) → length (set t.expires (index a) v) ≡ count
    kept v = length-set t.expires (index a) v ∙ h

    got :
        (v : Option ℕ)
        → get_elem? (set t.expires (index a) v) (index b)
          ≡ (if index a == index b then some v else get_elem? t.expires (index b))
    got v = elim (Bool-cases (index a == index b)) [
      | inl e ↦
          let q : index b ≡ index a = ground (arith, e) in
          rw (e, q) (get_elem?-set_self t.expires (index a) v (omega (arith, index-lt-count a)))
      | inr e ↦ rw e (get_elem?-set_ne t.expires (index a) (index b) v (λ q. ground (arith, e, q)))
    ]

min_set-le :
    (xs : List (Option ℕ)) (i x : ℕ)
    → get_elem? xs i ≡ some (some x)
    → (m : ℕ) × (min_set xs ≡ some m) × (m ≤ x)
unfolding min_set
min_set-le [] i x e = cc
min_set-le (none ∷ xs) zero x e = cc
min_set-le (none ∷ xs) (suc i) x e = min_set-le xs i x e
min_set-le (some y ∷ xs) zero x e = elim (Option-cases (min_set xs)) [
  | inl n ↦ (y, ground (arith, n), ground (arith, e))
  | inr (m, n) ↦ (min y m, ground (arith, n), ground (arith, e))
]
min_set-le (some y ∷ xs) (suc i) x e =
    let (m, n, l) = min_set-le xs i x e in (min y m, ground (arith, n), omega arith)

min_set-mem :
    (xs : List (Option ℕ)) (m : ℕ)
    → min_set xs ≡ some m
    → (i : ℕ) × (i < length xs) × (get_elem? xs i ≡ some (some m))
unfolding min_set
min_set-mem [] m e = cc
min_set-mem (none ∷ xs) m e = let (i, h, g) = min_set-mem xs m e in (suc i, omega arith, g)
min_set-mem (some y ∷ xs) m e = elim (Option-cases (min_set xs)) [
  | inl n ↦ (0, omega arith, ground (arith, n))
  | inr (k, n) ↦ elim (Bool-cases (leb y k)) [
    | inl l ↦ (0, omega arith, ground (arith, n))
    | inr l ↦ later k n (ground (arith, n)) (min_set-mem xs k n)
  ]
]
  where
    later :
        (k : ℕ)
        → min_set xs ≡ some k
        → m ≡ k
        → (i : ℕ) × (i < length xs) × (get_elem? xs i ≡ some (some k))
        → (i : ℕ) × (i < length (some y ∷ xs)) × (get_elem? (some y ∷ xs) i ≡ some (some m))
    later k n q (i, h, g) = (suc i, omega arith, cc (g, q))

-- The timer with a number.
timer_at : ℕ → Timer
timer_at zero = loss_detection
timer_at (suc zero) = ack
timer_at (suc (suc zero)) = pacer
timer_at (suc (suc (suc zero))) = idle
timer_at (suc (suc (suc (suc zero)))) = handshake
timer_at (suc (suc (suc (suc (suc zero))))) = draining
timer_at (suc (suc (suc (suc (suc (suc zero)))))) = key_discard
timer_at (suc (suc (suc (suc (suc (suc (suc zero))))))) = keep_alive
timer_at _ = path_challenge

index-timer_at : (i : ℕ) → i < count → index (timer_at i) ≡ i
unfolding timer_at
index-timer_at i h = ground arith

-- A timer is expired only at or after the next timeout.
pub is_expired-next_timeout :
    (t : TimerTable) (timer : Timer) (after : ℕ)
    → is_expired timer after t ≡ true
    → (m : ℕ) × (next_timeout t ≡ some m) × (m ≤ after)
unfolding next_timeout is_expired get
is_expired-next_timeout t timer after e =
    let (x, g, l) = held in
    let (m, n, k) = min_set-le t.expires (index timer) x g in (m, n, omega arith)
  where
    held : (x : ℕ) × (get_elem? t.expires (index timer) ≡ some (some x)) × (x ≤ after)
    held = ground (arith, e)

-- At the next timeout of a table of the right size, a timer is expired that was set to that time.
pub next_timeout-is_expired :
    (t : TimerTable) (m : ℕ)
    → IsTable t
    → next_timeout t ≡ some m
    → (timer : Timer) × (get timer t ≡ some m) × (is_expired timer m t ≡ true)
unfolding next_timeout is_expired get
next_timeout-is_expired t m h e =
    let (i, k, g) = min_set-mem t.expires m e in
    let q : index (timer_at i) ≡ i = index-timer_at i (omega arith) in
    let r : get_elem? t.expires (index (timer_at i)) ≡ some (some m) = rw q g in
    (timer_at i, ground (arith, r), ground (arith, r))
