-- ===== src/Stream/Send/Retransmit.antt =====
-- Which bytes a loss queues for retransmission.
use raw_quic.Prelude.{
  Bool-cases, [], arith, false, if◌then◌else◌, inl, inr, leb, leb→le, length, le→leb, ltb, ltb→lt,
  max, min, not, refl, suc, true, ℕ, ◌&&◌, ◌+◌, ◌<◌, ◌==◌, ◌||◌, ◌∙◌, ◌∷◌, ◌≡◌, ◌≤◌, ◌⊎◌,
}
use raw_quic.Stream.Send.{SendBuf, send_off}
use raw_quic.Stream.Send.Loss.{without_acked, first_end, retransmit, ack_off}
use raw_quic.Ranges
use raw_quic.Ranges.{RangeSet}
use raw_quic.Ranges.Entries.{Map}
use raw_quic.Ranges.Merge.{Above, covered, merge, covered_below}
use raw_quic.Ranges.Insert.{IsValid, insert_lem, insert-merge}

length-merge : (a b : ℕ) (m : Map) → length (merge a b m) ≤ length m + 1
unfolding merge
length-merge a b [] = omega arith
length-merge a b ((s, e) ∷ m) =
    ground (arith, length-merge a b m, length-merge (min a s) (max e b) m)

insert_none : (a b : ℕ) (r : RangeSet) → b ≤ a → Ranges.insert (a, b) r ≡ r
unfolding Ranges.insert
insert_none a b r h = rw (le→leb b a h)

-- `out` is `r` with the part of [start, stop) that `m` does not hold.
record Queued (m : Map) (start stop x : ℕ) (r out : RangeSet) : Type 0 where
  ordered : Above 0 out.set
  holds :
      covered out.set x ≡ (covered r.set x || ((leb start x && ltb x stop) && not (covered m x)))

-- Room for as many more ranges.
record HasRoom (n : ℕ) (r : RangeSet) : Type 0 where
  ordered : Above 0 r.set
  room : length r.set + n < r.capacity

-- Inserting a range, be it empty.
insert-HasRoom : (a b n : ℕ) (r : RangeSet) → HasRoom (suc n) r → HasRoom n (Ranges.insert (a, b) r)
insert-HasRoom a b n r h = elim (Bool-cases (ltb a b)) [
  | inl c ↦
      let v : IsValid r = (h.ordered, omega (arith, h.room)) in
      let e = insert-merge a b r (ltb→lt a b c) v in
      record {
        ordered = (insert_lem a b 0 r (ltb→lt a b c) v).0;
        room = rw e (omega (arith, h.room, length-merge a b r.set));
      }
  | inr c ↦
      rw (insert_none a b r (ground (arith, c)))
        (record { ordered = h.ordered; room = omega (arith, h.room) })
]

covered-insert :
    (a b x : ℕ) (r : RangeSet)
    → HasRoom 0 r
    → covered (Ranges.insert (a, b) r).set x ≡ ((leb a x && ltb x b) || covered r.set x)
covered-insert a b x r h = elim (Bool-cases (ltb a b)) [
  | inl c ↦ (insert_lem a b x r (ltb→lt a b c) (h.ordered, omega (arith, h.room))).2
  | inr c ↦ rw (insert_none a b r (ground (arith, c))) (ground (arith, c))
]

-- The loop, and the insertion behind it.
queue : Map → ℕ → ℕ → RangeSet → RangeSet
queue m start stop r =
    Ranges.insert (without_acked m start stop r).0 (without_acked m start stop r).1

-- The case of one more acknowledged range that the loop passes, having queued [start, b).
passed :
    (s e b start x stop : ℕ) (m : Map) (r r' out : RangeSet)
    → Above (suc e) m
    → s < e
    → covered r'.set x ≡ ((leb start x && ltb x b) || covered r.set x)
    → (b ≡ s) ⊎ ((b ≡ start) × (s ≤ start))
    → start < e
    → e < stop
    → Queued m e stop x r' out
    → Queued ((s, e) ∷ m) start stop x r out
unfolding covered
passed s e b start x stop m r r' out v n c d f g q = record {
  ordered = q.ordered;
  holds = rw (q.holds, c) (ground (arith, d, covered_below (suc e) x m v));
}

HasRoom-le : (j k : ℕ) (r : RangeSet) → j ≤ k → HasRoom k r → HasRoom j r
HasRoom-le j k r e h = record { ordered = h.ordered; room = omega (arith, h.room) }

-- The case in which the loop ends, and [start, b) is queued.
ended :
    (m : Map) (start stop b x : ℕ) (r : RangeSet)
    → HasRoom 1 r
    → (leb start x && ltb x b) ≡ ((leb start x && ltb x stop) && not (covered m x))
    → Queued m start stop x r (Ranges.insert (start, b) r)
ended m start stop b x r h e = record {
  ordered = (insert-HasRoom start b 0 r h).ordered;
  holds =
      covered-insert start b x r (HasRoom-le 0 1 r (omega arith) h)
      ∙ ground (arith, e, covered r.set x);
}

-- The case of an acknowledged range that lies before what is left.
skipped :
    (s e start stop x : ℕ) (m : Map) (r out : RangeSet)
    → e ≤ start
    → Queued m start stop x r out
    → Queued ((s, e) ∷ m) start stop x r out
unfolding covered
skipped s e start stop x m r out h q = record {
  ordered = q.ordered;
  holds = q.holds ∙ ground (arith, h, covered r.set x, covered m x);
}

queue_lem :
    (lo start stop x : ℕ) (m : Map) (r : RangeSet)
    → Above lo m
    → HasRoom (suc (length m)) r
    → Queued m start stop x r (queue m start stop r)
unfolding queue without_acked covered
queue_lem lo start stop x [] r v h = ended [] start stop stop x r h (ground arith)
queue_lem lo start stop x ((s, e) ∷ m) r v h =
    let first = HasRoom-le 1 (suc (suc (length m))) r (omega arith) h in
    let rest = HasRoom-le (suc (length m)) (suc (suc (length m))) r (omega arith) h in
    let outside = covered_below (suc e) x m v.2 in
    elim (Bool-cases (leb stop s)) [
      | inl a ↦ rw a (ended ((s, e) ∷ m) start stop stop x r first (ground (arith, a, outside)))
      | inr a ↦ elim (Bool-cases (leb e start)) [
        | inl b ↦
            rw (a, b)
              (skipped s e start stop x m r _ (leb→le e start b)
                (queue_lem (suc e) start stop x m r v.2 rest))
        | inr b ↦ elim (Bool-cases (ltb start s)) [
          | inl c ↦ elim (Bool-cases (leb stop e)) [
            | inl d ↦
                rw (a, b, c, d)
                  (ended ((s, e) ∷ m) start stop s x r first (ground (arith, a, b, c, d, outside)))
            | inr d ↦
                rw (a, b, c, d)
                  (passed s e s start x stop m r (Ranges.insert (start, s) r) _ v.2 v.1
                    (covered-insert start s x r (HasRoom-le 0 1 r (omega arith) first)) (inl refl)
                    (ground (arith, b)) (ground (arith, d))
                    (queue_lem (suc e) e stop x m (Ranges.insert (start, s) r) v.2
                      (insert-HasRoom start s (suc (length m)) r h)))
          ]
          | inr c ↦ elim (Bool-cases (leb stop e)) [
            | inl d ↦
                rw (a, b, c, d)
                  (ended ((s, e) ∷ m) start stop start x r first
                    (ground (arith, a, b, c, d, outside)))
            | inr d ↦
                rw (a, b, c, d)
                  (passed s e start start x stop m r r _ v.2 v.1 (ground arith)
                    (inr (refl, ground (arith, c))) (ground (arith, b)) (ground (arith, d))
                    (queue_lem (suc e) e stop x m r v.2 rest))
          ]
        ]
      ]
    ]

-- A prefix that is acknowledged without a gap.
pub covered-first_end : (n x : ℕ) (m : Map) → n ≤ first_end m → ltb x n ≡ true → covered m x ≡ true
unfolding first_end covered
covered-first_end n x [] h k = absurd (omega (arith, ltb→lt x n k))
covered-first_end n x ((s, e) ∷ m) h k = ground (arith, h, k)

-- Nothing is queued that is acknowledged.
acknowledged :
    (m : Map) (start stop x : ℕ) (r : RangeSet)
    → Above 0 r.set
    → stop ≤ first_end m
    → Queued m start stop x r r
acknowledged m start stop x r v h = record {
  ordered = v;
  holds = elim (Bool-cases (ltb x stop)) [
    | inl c ↦ ground (arith, covered-first_end stop x m h c, covered r.set x)
    | inr c ↦ ground (arith, c, covered r.set x)
  ];
}

-- The buffer with the loss queued.
abbrev requeued : ℕ → ℕ → SendBuf → SendBuf
requeued off count s = record s { retransmits = queue s.acked.set off (off + count) s.retransmits }

-- What the set to be retransmitted becomes; the position does not matter to it.
retransmits_of :
    (off count : ℕ) (s : SendBuf)
    → (length s.chunks == 0) ≡ false
    → (retransmit off count s).retransmits ≡ (
        if leb (off + count) (first_end s.acked.set)
        then s.retransmits
        else queue s.acked.set off (off + count) s.retransmits)
unfolding retransmit queue ack_off
retransmits_of off count s h = elim (Bool-cases (leb (off + count) (first_end s.acked.set))) [
  | inl c ↦ simp (h, c) refl
  | inr c ↦ elim (Bool-cases (ltb (send_off (requeued off count s)) (send_off s))) [
    | inl d ↦ simp (h, c, d) refl
    | inr d ↦ simp (h, c, d) refl
  ]
]

-- A loss reported for [off, off + count), while the buffer holds data and the set to be retransmitted has
-- room: that set keeps its ranges in order, none empty and no two touching, and gains exactly the
-- bytes of the range that were not acknowledged.
pub retransmit_queues :
    (off count x : ℕ) (s : SendBuf)
    → (length s.chunks == 0) ≡ false
    → Above 0 s.acked.set
    → Above 0 s.retransmits.set
    → length s.retransmits.set + length s.acked.set + 1 < s.retransmits.capacity
    → Above 0 (retransmit off count s).retransmits.set
      × (covered (retransmit off count s).retransmits.set x ≡ (
          covered s.retransmits.set x
          || ((leb off x && ltb x (off + count)) && not (covered s.acked.set x))))
retransmit_queues off count x s h v w k =
    elim (Bool-cases (leb (off + count) (first_end s.acked.set))) [
      | inl c ↦
          let q = acknowledged s.acked.set off (off + count) x s.retransmits w (leb→le _ _ c) in
          rw (retransmits_of off count s h) (rw c (q.ordered, q.holds))
      | inr c ↦
          let q =
            queue_lem 0 off (off + count) x s.acked.set s.retransmits v
              (record { ordered = w; room = omega (arith, k) }) in
          rw (retransmits_of off count s h) (rw c (q.ordered, q.holds))
    ]
