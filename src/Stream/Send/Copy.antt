-- ===== src/Stream/Send/Copy.antt =====
-- The inner loop of `SendBuf::read` copies the bytes of a range that the buffer holds.
use raw_quic.Prelude.{
  Bool-cases, List, Option, [], ap, arith, drop, get_elem?, if◌then◌else◌, inl, inr, leb, length,
  length-append, length-drop, length-take, ltb, min, none, refl, some, suc, sym, take, true, zero,
  ℕ, ◌&&◌, ◌++◌, ◌+◌, ◌-◌, ◌<◌, ◌==◌, ◌∙◌, ◌∷◌, ◌≡◌, ◌≤◌,
}
use mathlib.Core.Path.{subst}
use raw_quic.Stream.RangeBuf.{RangeBuf, len, max_off}
use raw_quic.Stream.RangeBuf.Bytes.{byte_at, get_elem?-drop, get_elem?-take}
use raw_quic.Stream.Send.{find_range, SendBuf, copy_range, read_range}
use raw_quic.Stream.Recv.Read.{get_elem?-append}
use raw_quic.Stream.Send.Chunks.{Joined, byte_of, At, byte_of_head, byte_of_tail, At-le, At-skip}

-- A piece of a range that is not empty, and the position behind it.
record Found (start stop pos : ℕ) (lo : ℕ) (bs : List RangeBuf) (end : ℕ) (o : List ℕ × ℕ)
    : Type 0 where
  skipped : ℕ
  position : o.1 ≡ pos + skipped
  nonempty : 0 < length o.0
  within : start + length o.0 ≤ stop
  bytes : (i : ℕ) → i < length o.0 → get_elem? o.0 i ≡ byte_of bs (start + i)
  there : At (start + length o.0) skipped bs end
  lower : lo ≤ there.lo

piece :
    (start stop : ℕ) (b : RangeBuf) (i : ℕ)
    → b.off ≤ start
    → i < length (drop (start - b.off) (take (min (stop - b.off) (len b)) b.bytes))
    → get_elem? (drop (start - b.off) (take (min (stop - b.off) (len b)) b.bytes)) i
      ≡ byte_at b (start + i)
unfolding byte_at
piece start stop b i h k =
    let n = start - b.off in
    let e = min (stop - b.off) (len b) in
    let d = length-drop n (take e b.bytes) in
    let t = length-take e b.bytes in
    let w : n + i < e = omega arith in
    let z : start + i - b.off ≡ n + i = omega arith in
    get_elem?-drop n (take e b.bytes) i
    ∙ get_elem?-take e b.bytes (n + i)
    ∙ rw z (ground (arith, w, h))

find_range-Found :
    (start stop pos lo : ℕ) (bs : List RangeBuf) (end : ℕ)
    → Joined lo bs end
    → lo ≤ start
    → start < stop
    → stop ≤ end
    → Found start stop pos lo bs end (find_range (start, stop) pos bs)
unfolding find_range
find_range-Found start stop pos lo [] end j h k l = absurd (omega (arith, j))
find_range-Found start stop pos lo (b ∷ bs) end j h k l =
    elim (Bool-cases (leb b.off start && ltb start (max_off b))) [
      | inl c ↦ rw c (here (ground (arith, c)) (ground (arith, c)))
      | inr c ↦
          let o : max_off b ≤ start = ground (arith, c, j, h) in
          rw c (
            later o (find_range (start, stop) (suc pos) bs)
              (find_range-Found start stop (suc pos) (max_off b) bs end j.2 o k l))
    ]
  where
    here :
        b.off ≤ start
        → start < max_off b
        → Found start stop pos lo (b ∷ bs) end (
          drop (start - b.off) (take (min (stop - b.off) (len b)) b.bytes),
          (if min (stop - b.off) (len b) == len b then suc pos else pos),
        )
    here o m =
        let e = min (stop - b.off) (len b) in
        let d = length-drop (start - b.off) (take e b.bytes) in
        let t = length-take e b.bytes in
        elim (Bool-cases (e == len b)) [
          | inl c ↦ rw c (record {
            skipped = 1;
            position = omega arith;
            nonempty = omega arith;
            within = omega arith;
            bytes = λ i g.
                piece start stop b i o g
                ∙ sym (byte_of_head lo end (start + i) b bs j (omega arith));
            there = record {
              lo = max_off b;
              joined = j.2;
              below = ground (arith, c, d, t, o, m);
              same = λ x g. sym (byte_of_tail b bs x g);
            };
            lower = omega (arith, j);
          })
          | inr c ↦ rw c (record {
            skipped = 0;
            position = omega arith;
            nonempty = omega arith;
            within = omega arith;
            bytes = λ i g.
                piece start stop b i o g
                ∙ sym (byte_of_head lo end (start + i) b bs j (omega arith));
            there = record { lo = lo; joined = j; below = omega arith; same = λ x g. refl };
            lower = omega arith;
          })
        ]

    later :
        max_off b ≤ start
        → (o : List ℕ × ℕ) → Found start stop (suc pos) (max_off b) bs end o
        → Found start stop pos lo (b ∷ bs) end o
    later h o f = record {
      skipped = suc f.skipped;
      position = omega (arith, f.position);
      nonempty = f.nonempty;
      within = f.within;
      bytes = λ i g. f.bytes i g ∙ sym (byte_of_tail b bs (start + i) (omega arith));
      there = record {
        lo = f.there.lo;
        joined = f.there.joined;
        below = f.there.below;
        same = λ x g. f.there.same x g ∙ sym (byte_of_tail b bs x (omega (arith, f.lower, g)));
      };
      lower = omega (arith, j, f.lower);
    }

-- The outcome of copying a range.
pub record Copied (start stop : ℕ) (s : SendBuf) (o : Option (List ℕ × SendBuf)) : Type 0 where
  pub out : List ℕ
  pub new_pos : ℕ
  pub result : o ≡ some (out, record s { pos = new_pos })
  pub full : start + length out ≡ stop
  pub bytes : (i : ℕ) → i < length out → get_elem? out i ≡ byte_of s.chunks (start + i)
  pub there : At stop new_pos s.chunks s.write_off

-- A piece, and what is copied behind it.
join :
    (start stop lo : ℕ) (s : SendBuf) (o : List ℕ × ℕ) (q : Option (List ℕ × SendBuf))
    → At start s.pos s.chunks s.write_off
    → ((x : ℕ) → start ≤ x → byte_of (drop s.pos s.chunks) x ≡ byte_of s.chunks x)
    → Found start stop s.pos lo (drop s.pos s.chunks) s.write_off o
    → Copied (start + length o.0) stop (record s { pos = o.1 }) q
    → Copied start stop s (elim q [ none ↦ none | some (more, s2) ↦ some (o.0 ++ more, s2) ])
join start stop lo s o q a h f w =
    let l = length-append o.0 w.out in
    rw w.result (record {
      out = o.0 ++ w.out;
      new_pos = w.new_pos;
      result = refl;
      full = omega (arith, l, w.full);
      bytes = λ i g. get_elem?-append o.0 w.out i ∙ (elim (Bool-cases (ltb i (length o.0))) [
        | inl c ↦ rw c (f.bytes i (ground (arith, c)) ∙ h (start + i) (omega arith))
        | inr c ↦
            let e : start + length o.0 + (i - length o.0) ≡ start + i = ground (arith, c) in
            rw c (w.bytes (i - length o.0) (ground (arith, c, g, l)) ∙ ap (byte_of s.chunks) e)
      ]);
      there = w.there;
    })

pub copy_range-Copied :
    (f start stop : ℕ) (s : SendBuf)
    → At start s.pos s.chunks s.write_off
    → start ≤ stop
    → stop ≤ s.write_off
    → stop ≤ start + f
    → Copied start stop s (copy_range f (start, stop) s)
unfolding copy_range read_range
copy_range-Copied zero start stop s a h k l =
    let e : start ≡ stop = omega arith in
    let c : (start == stop) ≡ true = ground (arith, e) in
    rw c (record {
      out = [];
      new_pos = s.pos;
      result = refl;
      full = omega arith;
      bytes = λ i g. absurd (omega arith);
      there = At-le start stop s.pos s.chunks s.write_off h a;
    })
copy_range-Copied (suc f) start stop s a h k l = elim (Bool-cases (start == stop)) [
  | inl c ↦ rw c (record {
    out = [];
    new_pos = s.pos;
    result = refl;
    full = ground (arith, c);
    bytes = λ i g. absurd (omega arith);
    there = At-le start stop s.pos s.chunks s.write_off h a;
  })
  | inr c ↦
      let fd =
        find_range-Found start stop s.pos a.lo (drop s.pos s.chunks) s.write_off a.joined a.below
          (ground (arith, c, h)) k in
      let o = find_range (start, stop) s.pos (drop s.pos s.chunks) in
      let n = start + length o.0 in
      let b : At n o.1 s.chunks s.write_off =
        subst (λ p. At n p s.chunks s.write_off) (sym fd.position)
          (At-skip start s.pos fd.skipped s.chunks s.write_off a n fd.there fd.lower) in
      rw c (
        join start stop a.lo s o _ a (λ x g. a.same x (omega (arith, a.below, g))) fd
          (copy_range-Copied f n stop (record s { pos = o.1 }) b fd.within k
            (omega (arith, l, fd.nonempty))))
]
