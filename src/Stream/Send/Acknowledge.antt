-- ===== src/Stream/Send/Acknowledge.antt =====
-- What an acknowledgement leaves in the send buffer.
use raw_quic.Prelude.{
  Bool-cases, List, Option, [], ap, arith, false, inl, inr, leb, length, length-drop, le→ltb, ltb,
  ltb→lt, not, refl, some, sub64, suc, sym, ℕ, ◌&&◌, ◌+◌, ◌-◌, ◌<◌, ◌==◌, ◌^◌, ◌||◌, ◌∙◌, ◌∷◌, ◌≡◌,
  ◌≤◌,
}
use raw_quic.Stream.Send.{SendBuf, RangeSet}
use raw_quic.Ranges.Entries.{Map}
use raw_quic.Ranges.Merge.{Above, covered, covered_below}
use raw_quic.Ranges
use raw_quic.Ranges.{RangeSet}
use raw_quic.Ranges.Remove.{remove_lem}
use raw_quic.Ranges.Insert.{insert_lem, IsValid}
use mathlib.Core.Path.{subst}
use raw_quic.Stream.Send.Loss.{leave, ack_off, drop_acked, first_end, drop_front, ack_and_drop, ack}
use raw_quic.Stream.RangeBuf.{RangeBuf, len, max_off, advanced}
use raw_quic.Stream.RangeBuf.Bytes.{advance_within, byte_at-advanced}
use raw_quic.Stream.Send.Chunks.{Joined, byte_of, byte_of_tail}
use raw_quic.Stream.Send.Read.{Ends}
use raw_quic.Stream.Send.Retransmit.{covered-first_end}

-- The acknowledged prefix is as long as it can be.
first_end-free : (m : Map) → Above 0 m → covered m (first_end m) ≡ false
unfolding first_end covered
first_end-free [] v = refl
first_end-free ((s, e) ∷ m) v = elim (Bool-cases (s == 0)) [
  | inl c ↦ rw c (ground (arith, covered_below (suc e) e m v.2))
  | inr c ↦ rw c (ground (arith, c, covered_below (suc e) 0 m v.2))
]

covered-Ends : (hi x : ℕ) (m : Map) → Ends hi m → hi ≤ x → covered m x ≡ false
unfolding covered
covered-Ends hi x [] v h = refl
covered-Ends hi x ((s, e) ∷ m) v h = ground (arith, covered-Ends hi x m v.1 h)

-- The prefix before and after [a, b) is acknowledged.
module _ (a b hi : ℕ) (m m' : Map) (v : Above 0 m) (v' : Above 0 m')
    (h : (x : ℕ) → covered m' x ≡ ((leb a x && ltb x b) || covered m x)) where
  prefix_grows : first_end m ≤ first_end m'
  prefix_grows = elim (Bool-cases (ltb (first_end m') (first_end m))) [
    | inl c ↦
        let t = covered-first_end (first_end m) (first_end m') m (omega arith) c in
        absurd (ground (arith, t, first_end-free m' v', h (first_end m')))
    | inr c ↦ ground (arith, c)
  ]

  prefix_waits : first_end m' < a → first_end m' ≡ first_end m
  prefix_waits g = elim (Bool-cases (ltb (first_end m) (first_end m'))) [
    | inl c ↦
        let t = covered-first_end (first_end m') (first_end m) m' (omega arith) c in
        let f = first_end-free m v in absurd (ground (arith, t, f, h (first_end m), g, c))
    | inr c ↦ omega (arith, prefix_grows, le_of c)
  ]
    where
      le_of : ltb (first_end m) (first_end m') ≡ false → first_end m' ≤ first_end m
      le_of c = ground (arith, c)

  prefix_bounded : Ends hi m → b ≤ hi → first_end m' ≤ hi
  prefix_bounded e k = elim (Bool-cases (ltb hi (first_end m'))) [
    | inl c ↦
        let t = covered-first_end (first_end m') hi m' (omega arith) c in
        absurd (ground (arith, t, covered-Ends hi hi m e, h hi, k))
    | inr c ↦ ground (arith, c)
  ]

max_off-advanced :
    (count : ℕ) (b : RangeBuf) → count ≤ len b → max_off (advanced count b) ≡ max_off b
unfolding advanced
max_off-advanced count b h = omega (arith, length-drop count b.bytes)

byte_of-advanced :
    (count : ℕ) (b : RangeBuf) (bs : List RangeBuf) (x : ℕ)
    → b.off + count ≤ x
    → byte_of (advanced count b ∷ bs) x ≡ byte_of (b ∷ bs) x
unfolding byte_of
byte_of-advanced count b bs x h = rw (byte_at-advanced count b x, le→ltb x (b.off + count) h)

-- What is left of the chunks behind their first `count` bytes.
record Dropped (count base end : ℕ) (bs : List RangeBuf) (o : Option (List RangeBuf × ℕ))
    : Type 0 where
  left : List RangeBuf
  number : ℕ
  result : o ≡ some (left, number)
  joined : Joined (base + count) left end
  same : (x : ℕ) → base + count ≤ x → byte_of left x ≡ byte_of bs x

drop_front-Dropped :
    (count base end : ℕ) (bs : List RangeBuf)
    → Joined base bs end
    → base + count ≤ end
    → Dropped count base end bs (drop_front count bs)
unfolding drop_front
drop_front-Dropped count base end [] j h =
    let e : count ≡ 0 = omega (arith, j, h) in
    record {
      left = [];
      number = 0;
      result = rw e refl;
      joined = omega (arith, j, h);
      same = λ x k. refl;
    }
drop_front-Dropped count base end (b ∷ bs) j h = elim (Bool-cases (count == 0)) [
  | inl c ↦
      let e : base + count ≡ base = ground (arith, c) in
      record { left = b ∷ bs; number = 0; result = rw c refl; joined = rw e j; same = λ x k. refl }
  | inr c ↦ elim (Bool-cases (leb (len b) count)) [
    | inl d ↦
        let e : max_off b + (count - len b) ≡ base + count = ground (arith, d, j.0) in
        let w = drop_front-Dropped (count - len b) (max_off b) end bs j.2 (omega (arith, e, h)) in
        record {
          left = w.left;
          number = suc w.number;
          result = rw (c, d, w.result) refl;
          joined = subst (λ n. Joined n w.left end) e w.joined;
          same = λ x k.
              w.same x (omega (arith, e, k))
              ∙ sym (byte_of_tail b bs x (ground (arith, d, j.0, k)));
        }
    | inr d ↦
        let f = max_off-advanced count b (ground (arith, d)) in
        record {
          left = advanced count b ∷ bs;
          number = 0;
          result = rw (c, d, advance_within count b (ground (arith, d))) refl;
          joined = (ground (arith, j.0), rw f (ground (arith, d, j.0)), rw f j.2);
          same = λ x k. byte_of-advanced count b bs x (ground (arith, j.0, k));
        }
  ]
]

-- The buffer holds the bytes from the acknowledged prefix on, up to what was written, and counts them.
pub record IsHeld (s : SendBuf) : Type 0 where
  pub joined : Joined (ack_off s) s.chunks s.write_off
  pub unacked : ack_off s + s.unacked_len ≡ s.write_off
  pub fits : s.write_off < 2 ^ 64
  pub acked : IsValid s.acked
  pub bounded : Ends s.write_off s.acked.set
  pub lost : Above 0 s.retransmits.set

-- The set of what is acknowledged, with [off, off + count), and the bytes still held.
abbrev acked_of : ℕ → ℕ → SendBuf → RangeSet
acked_of off count s = Ranges.insert (off, off + count) s.acked

abbrev lost_of : ℕ → ℕ → SendBuf → RangeSet
lost_of off count s = Ranges.remove (off, off + count) s.retransmits

record Acknowledged (off count : ℕ) (s : SendBuf) (o : Option SendBuf) : Type 0 where
  after : SendBuf
  result : o ≡ some after
  acked : after.acked ≡ acked_of off count s
  lost : after.retransmits ≡ lost_of off count s
  end : after.write_off ≡ s.write_off
  joined : Joined (ack_off after) after.chunks s.write_off
  unacked : ack_off after + after.unacked_len ≡ s.write_off
  same : (x : ℕ) → ack_off after ≤ x → byte_of after.chunks x ≡ byte_of s.chunks x

drop_acked_lem :
    (off count : ℕ) (s : SendBuf)
    → IsHeld s
    → first_end s.acked.set ≤ first_end (acked_of off count s).set
    → first_end (acked_of off count s).set ≤ s.write_off
    → Acknowledged off count s
        (drop_acked (record s { acked = acked_of off count s; retransmits = lost_of off count s }))
unfolding drop_acked ack_off
drop_acked_lem off count s h g b =
    let to : ℕ = first_end (acked_of off count s).set in
    let from : ℕ = first_end s.acked.set in
    let n : ℕ = sub64 to (sub64 s.write_off s.unacked_len) in
    let e : n ≡ to - from = omega (arith, h.unacked, h.fits, g, b) in
    let w = drop_front-Dropped n from s.write_off s.chunks h.joined (omega (arith, e, g, b)) in
    let k : from + n ≡ to = omega (arith, e, g) in
    let u : sub64 s.unacked_len n ≡ s.write_off - to = omega (arith, e, h.unacked, h.fits, g, b) in
    rw (w.result, leave)
      (record {
        after = record s {
          acked = acked_of off count s;
          retransmits = lost_of off count s;
          chunks = w.left;
          unacked_len = sub64 s.unacked_len n;
          pos = s.pos - w.number;
        };
        result = refl;
        acked = refl;
        lost = refl;
        end = refl;
        joined = subst (λ n. Joined n w.left s.write_off) k w.joined;
        unacked = rw u (omega (arith, b));
        same = λ x l. w.same x (omega (arith, k, l));
      })

-- Both branches behind the test for gaps.
ack_and_drop_lem :
    (off count : ℕ) (s : SendBuf)
    → IsHeld s
    → (length s.chunks == 0) ≡ false
    → 0 < count
    → off + count ≤ s.write_off
    → Acknowledged off count s (ack_and_drop off count s)
unfolding ack_and_drop ack ack_off
ack_and_drop_lem off count s h c p b =
    let old : Map = s.acked.set in
    let new : Map = (acked_of off count s).set in
    let i = λ (x : ℕ). insert_lem off (off + count) x s.acked (omega (arith, p)) h.acked in
    let v : Above 0 new = (i 0).0 in
    let grows = prefix_grows off (off + count) s.write_off old new h.acked.0 v (λ x. (i x).2) in
    let waits = prefix_waits off (off + count) s.write_off old new h.acked.0 v (λ x. (i x).2) in
    let bounded =
      prefix_bounded off (off + count) s.write_off old new h.acked.0 v (λ x. (i x).2) h.bounded b in
    elim (Bool-cases (ltb (first_end new) off)) [
      | inl d ↦
          let e : first_end new ≡ first_end old = waits (ltb→lt _ _ d) in
          rw (c, d)
            (record {
              after = record s { acked = acked_of off count s; retransmits = lost_of off count s };
              result = refl;
              acked = refl;
              lost = refl;
              end = refl;
              joined = subst (λ n. Joined n s.chunks s.write_off) (sym e) h.joined;
              unacked = rw e h.unacked;
              same = λ x k. refl;
            })
      | inr d ↦ rw (c, d) (drop_acked_lem off count s h grows bounded)
    ]

-- An acknowledgement of a non-empty range of bytes that were written, while the buffer holds data, does
-- not fail. It adds exactly the range to what is acknowledged and takes it out of what is to be
-- retransmitted; the buffer still holds, without a gap, the bytes from the acknowledged prefix on, each
-- of them as before, and counts them.
pub ack_and_drop_keeps :
    (off count : ℕ) (s : SendBuf)
    → IsHeld s
    → (length s.chunks == 0) ≡ false
    → 0 < count
    → off + count ≤ s.write_off
    → (t : SendBuf) × (ack_and_drop off count s ≡ some t)
      × (t.write_off ≡ s.write_off)
      × Joined (ack_off t) t.chunks s.write_off
      × (ack_off t + t.unacked_len ≡ s.write_off)
      × ((x : ℕ) → ack_off t ≤ x → byte_of t.chunks x ≡ byte_of s.chunks x)
      × ((x : ℕ)
          → covered t.acked.set x ≡ ((leb off x && ltb x (off + count)) || covered s.acked.set x))
      × ((x : ℕ)
          → covered t.retransmits.set x
            ≡ (covered s.retransmits.set x && not (leb off x && ltb x (off + count))))
ack_and_drop_keeps off count s h c p b =
    let a = ack_and_drop_lem off count s h c p b in
    (
      a.after,
      a.result,
      a.end,
      a.joined,
      a.unacked,
      a.same,
      λ x.
          ap (λ (r : RangeSet). covered r.set x) a.acked
          ∙ (insert_lem off (off + count) x s.acked (omega (arith, p)) h.acked).2,
      λ x.
          ap (λ (r : RangeSet). covered r.set x) a.lost
          ∙ (remove_lem off (off + count) x s.retransmits (omega (arith, p)) h.lost).2,
    )
