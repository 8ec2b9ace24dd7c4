-- ===== src/Stream/Recv/Read.antt =====
-- `RecvBuf::read` takes the bytes held from the read offset on, in order and without a gap.
use raw_quic.Prelude.{
  Bool, Bool-cases, List, Option, Option-cases, [], ap, arith, false, get_elem?, if◌then◌else◌, inl,
  inr, length, length-append, length-take, ltb, min, none, not, refl, some, suc, sym, take, true,
  zero, ℕ, ◌++◌, ◌+◌, ◌-◌, ◌<◌, ◌==◌, ◌||◌, ◌∙◌, ◌∷◌, ◌≡◌, ◌≤◌, ◌⊎◌,
}
use raw_quic.Stream.RangeBuf.{len, advanced, RangeBuf}
use mathlib.Core.Path.{subst}
use raw_quic.Error.{Result, ok, err, done, stream_reset}
use raw_quic.FlowControl
use raw_quic.Stream.RangeBuf.Bytes.{
  get_elem?-within, get_elem?-take, byte_at, byte_at_outside, byte_at-advanced, advance_within,
}
use raw_quic.Stream.Recv.{RecvBuf, ready, read, is_fin, ChunkMap, take_chunks, read_end}
use raw_quic.Stream.Recv.Write.{IsValid}
use raw_quic.Stream.Recv.Scanning.{advance_bounds}
use raw_quic.Stream.Recv.Chunks.{InOrder, Below, held, held_below, InOrder-le}

-- The bytes taken stand at the read offset and behind it, and the others stay.
pub record Taken (room n : ℕ) (m : ChunkMap) (o : List ℕ × ℕ × ChunkMap) : Type 0 where
  pub moved : o.1 ≡ n + length o.0
  pub in_order : InOrder o.1 o.2
  pub below : (hi : ℕ) → Below hi m → Below hi o.2
  pub within : (hi : ℕ) → Below hi m → n ≤ hi → o.1 ≤ hi
  pub bytes : (i : ℕ) → i < length o.0 → get_elem? o.0 i ≡ held m (n + i)
  pub rest : (x : ℕ) → o.1 ≤ x → held o.2 x ≡ held m x
  pub bounded : length o.0 ≤ room
  pub greedy : (length o.0 ≡ room) ⊎ (held m o.1 ≡ none)

none-Taken :
    (room n : ℕ) (m : ChunkMap)
    → InOrder n m
    → (room ≡ 0) ⊎ (held m n ≡ none)
    → Taken room n m ([], n, m)
none-Taken room n m v h = record {
  moved = omega arith;
  in_order = v;
  below = λ hi b. b;
  within = λ hi b h. h;
  bytes = λ i h. absurd (omega arith);
  rest = λ x h. refl;
  bounded = omega arith;
  greedy = at_start h;
}
  where
    at_start : (room ≡ 0) ⊎ (held m n ≡ none) → (0 ≡ room) ⊎ (held m n ≡ none)
    at_start (inl e) = inl (sym e)
    at_start (inr e) = inr e

-- No byte is held at the offset where the first chunk does not begin.
gap :
    (room n k : ℕ) (b : RangeBuf) (m : ChunkMap)
    → InOrder n ((k, b) ∷ m)
    → (room == 0 || not (b.off == n)) ≡ true
    → (room ≡ 0) ⊎ (held ((k, b) ∷ m) n ≡ none)
gap room n k b m v c = elim (Bool-cases (b.off == n)) [
  | inl d ↦ inl (ground (arith, c, d))
  | inr d ↦ inr (held_below b.off n ((k, b) ∷ m) (omega arith, v.1, v.2) (ground (arith, d, v)))
]

pub get_elem?-append {ℓ} :
    {A : Type ℓ} (xs ys : List A) (i : ℕ)
    → get_elem? (xs ++ ys) i
      ≡ (if ltb i (length xs) then get_elem? xs i else get_elem? ys (i - length xs))
get_elem?-append [] ys i = ground arith
get_elem?-append (x ∷ xs) ys zero = ground arith
get_elem?-append (x ∷ xs) ys (suc i) = ground (arith, get_elem?-append xs ys i)

byte_at_from : (b : RangeBuf) (n i : ℕ) → b.off ≡ n → byte_at b (n + i) ≡ get_elem? b.bytes i
unfolding byte_at
byte_at_from b n i h = let e : n + i - b.off ≡ i = omega arith in rw e (ground (arith, h))

-- A part of the first chunk is taken.
part :
    (room j n k : ℕ) (b : RangeBuf) (m : ChunkMap)
    → InOrder n ((k, b) ∷ m)
    → j ≡ room
    → j ≤ len b
    → b.off ≡ n
    → Taken room n ((k, b) ∷ m) (take j b.bytes, n + j, (k, advanced j b) ∷ m)
unfolding held
part room j n k b m v g h o =
    let (p, q) = advance_bounds j b h in
    let l = length-take j b.bytes in
    record {
      moved = omega arith;
      in_order = (omega arith, omega (arith, v), v.2);
      below = λ hi w. w;
      within = λ hi w _. omega (arith, v, w);
      bytes = λ i c.
          let (a, e) = get_elem?-within b.bytes i (omega arith) in
          rw (get_elem?-take j b.bytes i, byte_at_from b n i o, e) (ground (arith, c, l));
      rest = λ x c. rw (byte_at-advanced j b x) (ground (arith, c, o));
      bounded = omega arith;
      greedy = inl (omega arith);
    }

-- The first chunk is taken as a whole, and some of the others.
all :
    (room n k : ℕ) (b : RangeBuf) (m : ChunkMap) (o : List ℕ × ℕ × ChunkMap)
    → InOrder n ((k, b) ∷ m)
    → b.off ≡ n
    → len b ≤ room
    → Taken (room - len b) (n + len b) m o
    → Taken room n ((k, b) ∷ m) (b.bytes ++ o.0, o.1, o.2)
unfolding held
all room n k b m o v h j t =
    let l : length (b.bytes ++ o.0) ≡ len b + length o.0 = length-append b.bytes o.0 in
    record {
      moved = omega (arith, l, t.moved);
      in_order = t.in_order;
      below = λ hi w. t.below hi w.1;
      within = λ hi w _. t.within hi w.1 (omega (arith, v, w));
      bytes = λ i c. elim (Bool-cases (ltb i (len b))) [
        | inl d ↦
            let (a, e) = get_elem?-within b.bytes i (ground (arith, d)) in
            rw (get_elem?-append b.bytes o.0 i, byte_at_from b n i h, d, e) refl
        | inr d ↦
            let e : byte_at b (n + i) ≡ none = byte_at_outside b (n + i) (ground (arith, d, h)) in
            let s : n + len b + (i - len b) ≡ n + i = ground (arith, d) in
            rw (get_elem?-append b.bytes o.0 i, e, d)
              (t.bytes (i - len b) (ground (arith, d, c, l)) ∙ ap (held m) s)
      ];
      rest = λ x c. rw (byte_at_outside b x (omega (arith, c, t.moved, h))) (t.rest x c);
      bounded = omega (arith, l, t.bounded);
      greedy = elim t.greedy [
        | inl q ↦ inl (omega (arith, l, q))
        | inr q ↦ inr (rw (byte_at_outside b o.1 (omega (arith, t.moved, h))) q)
      ];
    }

-- The loop does not panic, and takes so much.
record Took (room n : ℕ) (m : ChunkMap) (o : Result (List ℕ × ℕ × ChunkMap)) : Type 0 where
  taken : List ℕ × ℕ × ChunkMap
  result : o ≡ ok taken
  holds : Taken room n m taken

take_chunks-Took : (room n : ℕ) (m : ChunkMap) → InOrder n m → Took room n m (take_chunks room n m)
unfolding take_chunks
take_chunks-Took room n [] v = record {
  taken = ([], n, []);
  result = refl;
  holds = none-Taken room n [] v (inr (unfold held in refl));
}
take_chunks-Took room n ((k, b) ∷ m) v =
    let j = min (len b) room in
    elim (Bool-cases (room == 0 || not (b.off == n))) [
      | inl c ↦ record {
        taken = ([], n, (k, b) ∷ m);
        result = rw c refl;
        holds = none-Taken room n ((k, b) ∷ m) v (gap room n k b m v c);
      }
      | inr c ↦ elim (Bool-cases (ltb j (len b))) [
        | inl d ↦ record {
          taken = (take j b.bytes, n + j, (k, advanced j b) ∷ m);
          result = rw (c, d, advance_within j b (ground (arith, d))) refl;
          holds = part room j n k b m v (ground (arith, d)) (omega arith) (ground (arith, c));
        }
        | inr d ↦
            let e : len b ≡ j = ground (arith, d) in
            let t =
              take_chunks-Took (room - j) (n + j) m
                (InOrder-le (n + j) k m (omega (arith, v)) v.2) in
            record {
              taken = (b.bytes ++ t.taken.0, t.taken.1, t.taken.2);
              result = rw (c, d, t.result) refl;
              holds =
                  all room n k b m t.taken v (ground (arith, c)) (omega (arith, e))
                    (subst (λ i. Taken (room - i) (n + i) m t.taken) (sym e) t.holds);
            }
      ]
    ]

-- The state after bytes were read.
abbrev pub after_read : ℕ → ℕ → ChunkMap → RecvBuf → RecvBuf
after_read n off left r = record r {
  chunks = left;
  read_off = off;
  flow_control = FlowControl.increase_read_off n r.flow_control;
}

-- The outcomes of `read`.
pub data Reads (room : ℕ) (r : RecvBuf) (o : Result (List ℕ × Bool) × RecvBuf) : Type 0 where
  waiting : o ≡ (err done, r) → held r.chunks r.read_off ≡ none → Reads room r o
  was_reset :
      (e : ℕ)
      → r.error ≡ some e
      → o ≡ (err (stream_reset e), record r { chunks = [] })
      → Reads room r o
  delivered :
      (bytes : List ℕ) (off : ℕ) (left : ChunkMap)
      → r.error ≡ none
      → ready r ≡ true
      → Taken room r.read_off r.chunks (bytes, off, left)
      → o ≡ (
        ok (bytes, is_fin (after_read (length bytes) off left r)),
        after_read (length bytes) off left r,
      )
      → Reads room r o

not_ready :
    (r : RecvBuf) → InOrder r.read_off r.chunks → ready r ≡ false → held r.chunks r.read_off ≡ none
unfolding ready
not_ready r v h = no_chunk r.read_off r.chunks v h
  where
    no_chunk :
        (n : ℕ) (m : ChunkMap)
        → InOrder n m
        → (elim m as (λ _. Bool) [ [] ↦ false | (_, b) ∷ _ ↦ b.off == n ]) ≡ false
        → held m n ≡ none
    no_chunk n [] v h = unfold held in refl
    no_chunk n ((k, b) ∷ m) v h =
        held_below b.off n ((k, b) ∷ m) (omega arith, v.1, v.2) (ground (arith, h, v))

pub read-Reads : (room : ℕ) (r : RecvBuf) → IsValid r → Reads room r (read room r)
unfolding read read_end
read-Reads room r v = elim (Bool-cases (ready r)) [
  | inr c ↦ rw c (waiting refl (not_ready r v.in_order c))
  | inl c ↦ elim (Option-cases r.error) [
    | inr (e, q) ↦ was_reset e q (simp (c, q))
    | inl q ↦
        let t = take_chunks-Took room r.read_off r.chunks v.in_order in
        let e : read room r ≡ read_end r (take_chunks room r.read_off r.chunks) = simp (c, q) in
        delivered t.taken.0 t.taken.1 t.taken.2 q c t.holds (e ∙ ap (read_end r) t.result)
  ]
]

delivered-IsValid :
    (room : ℕ) (r : RecvBuf) (bytes : List ℕ) (off : ℕ) (left : ChunkMap)
    → IsValid r
    → ready r ≡ true
    → Taken room r.read_off r.chunks (bytes, off, left)
    → IsValid (after_read (length bytes) off left r)
delivered-IsValid room r bytes off left v c t = record {
  in_order = t.in_order;
  below = t.below r.recv_off v.below;
  offsets = t.within r.recv_off v.below v.offsets;
  discarded = still_open v.discarded;
  final_above = v.final_above;
}
  where
    still_open : (r.shut ≡ false) ⊎ (r.chunks ≡ []) → (r.shut ≡ false) ⊎ (left ≡ [])
    still_open (inl s) = inl s
    still_open (inr e) = absurd (unfold ready in ground (arith, c, e))

pub read-IsValid : (room : ℕ) (r : RecvBuf) → IsValid r → IsValid (read room r).1
read-IsValid room r v = elim (read-Reads room r v) [
  | waiting e _ ↦ rw (e) v
  | was_reset _ _ e ↦ rw e (record {
    in_order = tt;
    below = tt;
    offsets = v.offsets;
    discarded = inr refl;
    final_above = v.final_above;
  })
  | delivered bytes off left _ c t e ↦ rw e (delivered-IsValid room r bytes off left v c t)
]

pub rest_held :
    (off : ℕ) (left : ChunkMap) (x : ℕ) {o : Option ℕ}
    → InOrder off left
    → (off ≤ x → held left x ≡ o)
    → held left x ≡ (if ltb x off then none else o)
rest_held off left x v h = ground (arith, held_below off x left v, h)

-- In a valid state, a `read` into `room` bytes that returns bytes moves the read offset by their
-- number and returns the bytes held from the old read offset on, up to `room` bytes or to the first
-- offset without a byte. What was held at the new read offset or behind it is still held, and the
-- answer says whether the new read offset is the final size.
pub read_delivers :
    (room : ℕ) (r : RecvBuf) (bytes : List ℕ) (fin : Bool)
    → IsValid r
    → (read room r).0 ≡ ok (bytes, fin)
    → ((read room r).1.read_off ≡ r.read_off + length bytes)
      × ((i : ℕ) → i < length bytes → get_elem? bytes i ≡ held r.chunks (r.read_off + i))
      × (length bytes ≤ room)
      × ((length bytes ≡ room) ⊎ (held r.chunks (r.read_off + length bytes) ≡ none))
      × ((x : ℕ)
          → held (read room r).1.chunks x
            ≡ (if ltb x (read room r).1.read_off then none else held r.chunks x))
      × (fin ≡ is_fin (read room r).1)
read_delivers room r bytes fin v h = elim (read-Reads room r v) [
  | waiting e _ ↦ absurd (cc (e, h))
  | was_reset _ _ e ↦ absurd (cc (e, h))
  | delivered out off left _ c t e ↦
      let p : out ≡ bytes = cc (e, h) in
      let q : is_fin (after_read (length out) off left r) ≡ fin = cc (e, h) in
      rw⁻¹ (p, q)
        (rw e (
          t.moved,
          t.bytes,
          t.bounded,
          rw⁻¹ t.moved t.greedy,
          λ x. rest_held off left x t.in_order (t.rest x),
          refl,
        ))
]
