-- ===== src/Stream/Send/Read.antt =====
-- `SendBuf::read` comes to an end and sends the bytes that the buffer holds from the send offset on.
use raw_quic.Prelude.{
  Bool, Bool-cases, List, Option, [], ap, arith, false, get_elem?, if◌then◌else◌, inl, inr, length,
  length-append, ltb, min, none, refl, some, suc, sym, true, zero, ℕ, ◌&&◌, ◌++◌, ◌+◌, ◌-◌, ◌<◌,
  ◌==◌, ◌^◌, ◌∙◌, ◌∷◌, ◌≡◌, ◌≤◌, ◌⊎◌,
}
use raw_quic.Stream.Send.Copy.{copy_range-Copied}
use raw_quic.Stream.Recv.Read.{get_elem?-append}
use raw_quic.Ranges.Insert.{insert_front}
use mathlib.Core.Path.{subst}
use raw_quic.Ranges
use raw_quic.Ranges.{RangeSet}
use raw_quic.Ranges.Entries.{Map, Range, remove_key}
use raw_quic.Ranges.Merge.{Above, Above-le}
use raw_quic.Stream.Send.{
  SendBuf, poll_from, poll_transmit, prepend, end_round, read_round, read_ranges, send_off,
  saturating_add, ready, read, ok,
}
use raw_quic.Stream.Send.Chunks.{At, byte_of, At-le}

-- All ranges end at an offset or before it.
abbrev pub Ends : ℕ → Map → Type 0
Ends hi [] = Unit {0}
Ends hi ((s, e) ∷ m) = (e ≤ hi) × Ends hi m

-- The offset from which the next bytes are sent.
first_start : ℕ → Map → ℕ
first_start n [] = n
first_start n ((s, e) ∷ m) = s

-- The lost ranges are in order and were sent, and the position is not behind the next byte to send.
pub record IsValid (s : SendBuf) : Type 0 where
  pub at : At (send_off s) s.pos s.chunks s.write_off
  pub unsent : s.unsent_off ≤ s.write_off
  pub fits : s.write_off < 2 ^ 64
  pub order : Above 0 s.retransmits.set
  pub room : length s.retransmits.set < s.retransmits.capacity
  pub sent : Ends s.unsent_off s.retransmits.set

data Popped (r : RangeSet) : Type 0 where
  empty : r.set ≡ [] → Ranges.pop_min r ≡ (none, r) → Popped r
  popped :
      (s e : ℕ) (m : Map)
      → r.set ≡ (s, e) ∷ m
      → Ranges.pop_min r ≡ (some (s, e), record r { set = m })
      → Popped r

pop_min-Popped : (r : RangeSet) → Popped r
unfolding Ranges.pop_min Ranges.peek_min remove_key
pop_min-Popped r = by_set r.set refl
  where
    by_set : (m : Map) → r.set ≡ m → Popped r
    by_set [] q = empty q (simp (q, Ranges.pop_min, Ranges.peek_min))
    by_set ((s, e) ∷ m) q =
        let c : (s == s) ≡ true = ground arith in
        popped s e m q (simp (q, c, Ranges.pop_min, Ranges.peek_min))

send_off_lem :
    (s : SendBuf) (m : Map) → s.retransmits.set ≡ m → send_off s ≡ first_start s.unsent_off m
unfolding send_off Ranges.set_min first_start
send_off_lem s [] q = simp (q, send_off, Ranges.set_min)
send_off_lem s ((a, e) ∷ m) q = simp (q, send_off, Ranges.set_min)

-- What `poll_transmit` does where there is something to send.
record Polled (room : ℕ) (s : SendBuf) (o : Range × SendBuf) : Type 0 where
  stop : ℕ
  unsent : ℕ
  rtx : RangeSet
  result : o ≡ ((send_off s, stop), record s { unsent_off = unsent; retransmits = rtx })
  progress : send_off s < stop
  bounded : stop ≤ send_off s + room
  written : stop ≤ s.write_off
  later : stop ≤ first_start unsent rtx.set
  still_unsent : unsent ≤ s.write_off
  order : Above 0 rtx.set
  has_room : length rtx.set < rtx.capacity
  sent : Ends unsent rtx.set

first_start_from : (lo n : ℕ) (m : Map) → Above lo m → lo ≤ n → lo ≤ first_start n m
unfolding first_start
first_start_from lo n [] v h = h
first_start_from lo n ((s, e) ∷ m) v h = v.0

-- The first range that was lost is sent, or the beginning of it.
lost :
    (room : ℕ) (s : SendBuf) (a e : ℕ) (m : Map)
    → IsValid s
    → 0 < room
    → send_off s < s.write_off
    → send_off s ≡ a
    → Above 0 ((a, e) ∷ m)
    → Ends s.unsent_off ((a, e) ∷ m)
    → suc (length m) < s.retransmits.capacity
    → (o : Range × SendBuf)
    → o ≡ (
        let end = min e (saturating_add a room) in
        let left = record s.retransmits { set = m } in
        (
          (a, end),
          (if end == e
              then record s { retransmits = left }
              else record s { retransmits = Ranges.insert (end, e) left }),
        ))
    → Polled room s o
unfolding first_start
lost room s a e m v h k p w b l o q =
    let end = min e (saturating_add a room) in
    let left = record s.retransmits { set = m } in
    elim (Bool-cases (end == e)) [
      | inl c ↦ record {
        stop = end;
        unsent = s.unsent_off;
        rtx = left;
        result = q ∙ rw (c, p) refl;
        progress = omega (arith, p, h, k, v.fits, w);
        bounded = omega (arith, p);
        written = omega (arith, b, v.unsent);
        later =
            first_start_from end s.unsent_off m (Above-le m end (suc e) (omega arith) w.2)
              (omega (arith, b));
        still_unsent = v.unsent;
        order = Above-le m 0 (suc e) (omega arith) w.2;
        has_room = omega arith;
        sent = b.1;
      }
      | inr c ↦
          let i : Ranges.insert (end, e) left ≡ record left { set = (end, e) ∷ m } =
            insert_front end e left (ground (arith, c)) w.2 (omega arith) in
          record {
            stop = end;
            unsent = s.unsent_off;
            rtx = record left { set = (end, e) ∷ m };
            result = q ∙ rw (c, p, i) refl;
            progress = omega (arith, p, h, k, v.fits, w);
            bounded = omega (arith, p);
            written = omega (arith, b, v.unsent);
            later = omega arith;
            still_unsent = v.unsent;
            order = (omega arith, ground (arith, c), w.2);
            has_room = l;
            sent = b;
          }
    ]

poll_transmit-Polled :
    (room : ℕ) (s : SendBuf)
    → IsValid s
    → 0 < room
    → send_off s < s.write_off
    → Polled room s (poll_transmit room s)
unfolding poll_transmit poll_from first_start
poll_transmit-Polled room s v h k = elim (pop_min-Popped s.retransmits) [
  | empty q p ↦
      let e : send_off s ≡ s.unsent_off = send_off_lem s [] q in
      rw (p, poll_transmit)
        (record {
          stop = min s.write_off (saturating_add s.unsent_off room);
          unsent = min s.write_off (saturating_add s.unsent_off room);
          rtx = s.retransmits;
          result = rw e refl;
          progress = omega (arith, e, k, h, v.fits);
          bounded = omega (arith, e);
          written = omega arith;
          later = rw (q, first_start) (omega arith);
          still_unsent = omega arith;
          order = v.order;
          has_room = v.room;
          sent = rw q tt;
        })
  | popped a e m q p ↦
      let w : Above 0 ((a, e) ∷ m) = subst (Above 0) q v.order in
      let b : Ends s.unsent_off ((a, e) ∷ m) = subst (Ends s.unsent_off) q v.sent in
      let l : suc (length m) < s.retransmits.capacity =
        subst (λ (x : Map). length x < s.retransmits.capacity) q v.room in
      let o : send_off s ≡ a = send_off_lem s ((a, e) ∷ m) q in
      lost room s a e m v h k o w b l _ (rw (p, poll_transmit) refl)
]

-- The outcome of the rounds of `read`.
record Sends (room next : ℕ) (s : SendBuf) (o : Option (List ℕ × ℕ × SendBuf)) : Type 0 where
  out : List ℕ
  state : SendBuf
  result : o ≡ some (out, next + length out, state)
  bounded : length out ≤ room
  bytes : (i : ℕ) → i < length out → get_elem? out i ≡ byte_of s.chunks (next + i)
  valid : IsValid state
  same : state.chunks ≡ s.chunks
  progress :
      (ltb 0 room && ready s && send_off s == next && ltb (send_off s) s.max_data) ≡ true
      → 0 < length out

-- The state behind a round.
abbrev after_round : ℕ → RangeSet → ℕ → SendBuf → SendBuf
after_round unsent rtx pos s = record s { unsent_off = unsent; retransmits = rtx; pos = pos }

round-IsValid :
    (room pos : ℕ) (s : SendBuf) {o : Range × SendBuf} (p : Polled room s o)
    → IsValid s
    → At p.stop pos s.chunks s.write_off
    → IsValid (after_round p.unsent p.rtx pos s)
round-IsValid room pos s p v a =
    let e : send_off (after_round p.unsent p.rtx pos s) ≡ first_start p.unsent p.rtx.set =
      send_off_lem (after_round p.unsent p.rtx pos s) p.rtx.set refl in
    record {
      at =
          At-le p.stop (send_off (after_round p.unsent p.rtx pos s)) pos s.chunks s.write_off
            (omega (arith, e, p.later)) a;
      unsent = p.still_unsent;
      fits = v.fits;
      order = p.order;
      room = p.has_room;
      sent = p.sent;
    }

sent_before :
    (room next stop : ℕ) (s s2 : SendBuf) (bytes : List ℕ) (q : Option (List ℕ × ℕ × SendBuf))
    → next < stop
    → next + length bytes ≡ stop
    → stop ≤ next + room
    → s2.chunks ≡ s.chunks
    → ((i : ℕ) → i < length bytes → get_elem? bytes i ≡ byte_of s.chunks (next + i))
    → Sends (room - (stop - next)) (next + (stop - next)) s2 q
    → Sends room next s (prepend bytes q)
unfolding prepend
sent_before room next stop s s2 bytes q h k b c g w =
    let l = length-append bytes w.out in
    let e : next + (stop - next) + length w.out ≡ next + length (bytes ++ w.out) = omega arith in
    rw w.result (record {
      out = bytes ++ w.out;
      state = w.state;
      result = rw e refl;
      bounded = omega (arith, l, w.bounded);
      bytes = λ i j. get_elem?-append bytes w.out i ∙ (elim (Bool-cases (ltb i (length bytes))) [
        | inl d ↦ rw d (g i (ground (arith, d)))
        | inr d ↦
            let z : next + (stop - next) + (i - length bytes) ≡ next + i =
              ground (arith, d, h, k) in
            rw d (
              w.bytes (i - length bytes) (ground (arith, d, j, l))
              ∙ ap (λ cs. byte_of cs (next + (stop - next) + (i - length bytes))) c
              ∙ ap (byte_of s.chunks) z)
      ]);
      valid = w.valid;
      same = w.same ∙ c;
      progress = λ _. omega (arith, l, h, k);
    })

-- A round, and those behind it.
round :
    (f room : ℕ) (s : SendBuf) (o : Range × SendBuf)
    → IsValid s
    → room < suc f
    → Polled room s o
    → ((room next : ℕ) (s2 : SendBuf)
        → IsValid s2
        → room < f
        → Sends room next s2 (read_ranges f room next s2))
    → Sends room (send_off s) s (read_round (read_ranges f) room (send_off s) o)
unfolding read_round end_round
round f room s o v h p ih =
    let start = send_off s in
    let n = p.stop - start in
    let s1 = record s { unsent_off = p.unsent; retransmits = p.rtx } in
    let w =
      copy_range-Copied n start p.stop s1 v.at (omega (arith, p.progress)) p.written
        (omega (arith, p.progress)) in
    let s2 = after_round p.unsent p.rtx w.new_pos s in
    subst (λ r. Sends room start s (read_round (read_ranges f) room start r)) (sym p.result)
      (subst (λ r. Sends room start s (end_round (read_ranges f) room start n r)) (sym w.result)
        (sent_before room start p.stop s s2 w.out (read_ranges f (room - n) (start + n) s2)
          p.progress w.full p.bounded refl w.bytes
          (ih (room - n) (start + n) s2 (round-IsValid room w.new_pos s p v w.there)
            (omega (arith, p.progress, p.bounded)))))

read_ranges-Sends :
    (f room next : ℕ) (s : SendBuf)
    → IsValid s
    → room < f
    → Sends room next s (read_ranges f room next s)
unfolding read_ranges ready
read_ranges-Sends zero room next s v h = absurd (omega arith)
read_ranges-Sends (suc f) room next s v h =
    elim (Bool-cases (ltb 0 room && ready s && send_off s == next && ltb (send_off s) s.max_data)) [
      | inr c ↦ rw c (record {
        out = [];
        state = s;
        result = ap (λ n. some ([], n, s)) (omega arith);
        bounded = omega arith;
        bytes = λ i j. absurd (omega arith);
        valid = v;
        same = refl;
        progress = λ d. absurd (cc (c, d));
      })
      | inl c ↦
          let e : send_off s ≡ next = ground (arith, c) in
          let p = poll_transmit-Polled room s v (ground (arith, c)) (ground (arith, c)) in
          rw c (
            subst (λ n. Sends room n s (read_round (read_ranges f) room n (poll_transmit room s))) e
              (round f room s (poll_transmit room s) v h p
                (λ m n s2 w k. read_ranges-Sends f m n s2 w k)))
    ]

-- In a valid state, `read` into `room` bytes comes to an end and does not fail: it returns at most so
-- many bytes, each the one that the buffer holds at its offset, from the lowest offset to send on, and
-- one at least, unless there is no room, no byte to send, or the peer's limit is reached; and it leaves
-- a valid state that holds the same bytes.
pub read_sends :
    (room : ℕ) (s : SendBuf)
    → IsValid s
    → (out : List ℕ) × (fin : Bool) × ((read room s).0 ≡ ok (out, fin))
      × (length out ≤ room)
      × ((i : ℕ) → i < length out → get_elem? out i ≡ byte_of s.chunks (send_off s + i))
      × ((0 < length out) ⊎ (room ≡ 0) ⊎ (ready s ≡ false) ⊎ (s.max_data ≤ send_off s))
      × IsValid (read room s).1
      × ((read room s).1.chunks ≡ s.chunks)
unfolding read
read_sends room s v =
    let w = read_ranges-Sends (suc room) room (send_off s) s v (omega arith) in
    let fin : Bool = elim w.state.fin_off [
      | none ↦ false
      | some off ↦ off == send_off s + length w.out
    ] in
    (
      w.out,
      fin,
      rw (w.result, read) refl,
      w.bounded,
      w.bytes,
      sent w.out w.progress,
      rw (w.result, read) w.valid,
      rw (w.result, read) w.same,
    )
  where
    sent :
        (out : List ℕ)
        → ((ltb 0 room && ready s && send_off s == send_off s && ltb (send_off s) s.max_data) ≡ true
            → 0 < length out)
        → (0 < length out) ⊎ (room ≡ 0) ⊎ (ready s ≡ false) ⊎ (s.max_data ≤ send_off s)
    sent out p = elim (Bool-cases (ltb 0 room)) [
      | inr a ↦ inr (inl (ground (arith, a)))
      | inl a ↦ elim (Bool-cases (ready s)) [
        | inr b ↦ inr (inr (inl b))
        | inl b ↦ elim (Bool-cases (ltb (send_off s) s.max_data)) [
          | inr c ↦ inr (inr (inr (ground (arith, c))))
          | inl c ↦
              let e : (send_off s == send_off s) ≡ true = ground arith in
              inl (p (rw (a, b, e, c) refl))
        ]
      ]
    ]
