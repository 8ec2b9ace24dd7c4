-- ===== src/Stream/Recv/Scanning.antt =====
-- What the comparison of a new chunk with the chunks that are held leaves of it.
use raw_quic.Prelude.{
  Bool-cases, List, Option, Option-cases, [], arith, if◌then◌else◌, inl, inr, leb, length-drop,
  length-take, ltb, none, refl, some, sym, ℕ, ◌&&◌, ◌+◌, ◌-◌, ◌<◌, ◌∙◌, ◌∷◌, ◌≡◌, ◌≤◌, ◌⊎◌,
}
use raw_quic.Error.{Result, ok}
use raw_quic.Stream.RangeBuf.{RangeBuf, len, max_off, advanced, cut_at}
use raw_quic.Stream.RangeBuf.Bytes.{
  advance_within, split_off_within, byte_at, or_else, byte_at-cases, byte_at_outside,
  byte_at-cut_at, byte_at_inside, byte_at-advanced,
}
use raw_quic.Stream.Recv.{ChunkMap, Scan, dropped, kept, scan, from_key}
use raw_quic.Stream.Recv.Chunks.{InOrder, Below, held, Fits, or_else_assoc, Fits-behind}

-- The bytes that a chunk adds to those held.
abbrev pub added : ChunkMap → RangeBuf → ℕ → Option ℕ
added m buf x = or_else (held m x) (byte_at buf x)

-- It is dropped, and all its bytes are held; or what is left of it overlaps no chunk and adds the
-- same bytes, up to a second piece that is shorter than the new chunk.
pub data Scanned (m : ChunkMap) (buf : RangeBuf) (s : Result Scan) : Type 0 where
  gone :
      s ≡ ok (dropped [])
      → ((hi : ℕ) → Below hi m → max_off buf ≤ hi)
      → ((x : ℕ) → added m buf x ≡ held m x)
      → Scanned m buf s
  whole :
      (buf' : RangeBuf)
      → s ≡ ok (kept buf' [])
      → Fits buf' m
      → buf.off ≤ buf'.off
      → max_off buf' ≡ max_off buf
      → ((x : ℕ) → added m buf x ≡ added m buf' x)
      → Scanned m buf s
  halves :
      (buf' rest : RangeBuf)
      → s ≡ ok (kept buf' (rest ∷ []))
      → Fits buf' m
      → buf.off ≤ buf'.off
      → buf'.off < max_off buf'
      → max_off buf' ≤ max_off buf
      → buf.off ≤ rest.off
      → len rest < len buf
      → max_off rest ≡ max_off buf
      → ((x : ℕ) → added m buf x ≡ or_else (added m buf' x) (byte_at rest x))
      → Scanned m buf s

-- A chunk that ends before all others is kept.
scan_before :
    (lo : ℕ) (m : ChunkMap) (buf : RangeBuf) (tmp : List RangeBuf)
    → InOrder lo m
    → max_off buf ≤ lo
    → buf.off < max_off buf
    → scan m buf tmp ≡ ok (kept buf tmp)
unfolding scan
scan_before lo [] buf tmp v h p = refl
scan_before lo ((k, b) ∷ m) buf tmp v h p = ground (arith, v, scan_before k m buf tmp)

-- A chunk that begins behind all others is kept.
pub scan_behind :
    (hi lo : ℕ) (m : ChunkMap) (buf : RangeBuf) (tmp : List RangeBuf)
    → InOrder lo m
    → Below hi m
    → hi ≤ buf.off
    → buf.off < max_off buf
    → scan m buf tmp ≡ ok (kept buf tmp)
unfolding scan
scan_behind hi lo [] buf tmp v b h p = refl
scan_behind hi lo ((k, c) ∷ m) buf tmp v b h p = ground (arith, v, b, scan_behind hi k m buf tmp)

-- Chunks that end before the new one do not matter.
pub scan-from_key :
    (lo : ℕ) (m : ChunkMap) (buf : RangeBuf) (tmp : List RangeBuf)
    → InOrder lo m
    → scan (from_key buf.off m) buf tmp ≡ scan m buf tmp
unfolding scan from_key
scan-from_key lo [] buf tmp v = refl
scan-from_key lo ((k, b) ∷ m) buf tmp v = ground (arith, v, scan-from_key k m buf tmp)

pub or_else-none : (a : Option ℕ) → or_else a none ≡ a
or_else-none none = refl
or_else-none (some v) = refl

-- A first chunk that lies before the new one, or behind its end, does not change what is left of it.
lift :
    (k : ℕ) (b : RangeBuf) (m : ChunkMap) (buf buf1 : RangeBuf) (s : Result Scan)
    → k ≡ max_off b
    → max_off buf1 ≡ max_off buf
    → buf.off ≤ buf1.off
    → len buf1 ≤ len buf
    → (max_off buf1 ≤ b.off) ⊎ ((k ≤ buf1.off) × (k < max_off buf1))
    → ((x : ℕ) → added ((k, b) ∷ m) buf x ≡ or_else (byte_at b x) (added m buf1 x))
    → Scanned m buf1 s
    → Scanned ((k, b) ∷ m) buf s
unfolding held
lift k b m buf buf1 s e h o l d p (gone q z t) =
    gone q (λ hi w. omega (arith, z hi w.1)) (λ x. rw (p x, t x))
lift k b m buf buf1 s e h o l d p (whole buf' q f i j t) =
    whole buf' q (ground (arith, d), ground (arith, d), f) (omega arith) (omega arith)
      (λ x. p x ∙ rw (t x) (sym (or_else_assoc (byte_at b x) (held m x) (byte_at buf' x))))
lift k b m buf buf1 s e h o l d p (halves buf' rest q f i n j u w z t) =
    halves buf' rest q (ground (arith, d), ground (arith, d), f) (omega arith) n (omega arith)
      (omega arith) (omega arith) (omega arith)
      (λ x. p x ∙ rw (t x) (regroup (byte_at b x) (held m x) (byte_at buf' x) (byte_at rest x)))
  where
    regroup :
        (a b c d : Option ℕ)
        → or_else a (or_else (or_else b c) d) ≡ or_else (or_else (or_else a b) c) d
    regroup none b c d = refl
    regroup (some v) b c d = refl

-- All bytes of the new chunk are held already.
contained :
    (k : ℕ) (b : RangeBuf) (m : ChunkMap) (buf : RangeBuf)
    → b.off ≤ buf.off
    → max_off buf ≤ max_off b
    → (x : ℕ) → added ((k, b) ∷ m) buf x ≡ held ((k, b) ∷ m) x
unfolding held
contained k b m buf h l x = elim (byte_at-cases buf x) [
  | inl (o, n) ↦ rw n (or_else-none (held ((k, b) ∷ m) x))
  | inr (v, i, j, n) ↦ let (w, e) = byte_at_inside b x (omega arith) (omega arith) in rw e
]

-- The new chunk begins in the first one, and goes on behind it.
cut_front :
    (k : ℕ) (b : RangeBuf) (m : ChunkMap) (buf : RangeBuf)
    → b.off ≤ buf.off
    → buf.off < max_off b
    → (x : ℕ)
    → added ((k, b) ∷ m) buf x
      ≡ or_else (byte_at b x) (added m (advanced (max_off b - buf.off) buf) x)
unfolding held
cut_front k b m buf h l x = elim (byte_at-cases b x) [
  | inr (w, i, j, e) ↦ rw e
  | inl (o, e) ↦ rw (e, byte_at-advanced (max_off b - buf.off) buf x) (outside o)
]
  where
    outside :
        (x < b.off) ⊎ (max_off b ≤ x)
        → or_else (held m x) (byte_at buf x)
          ≡ or_else
              (held m x)
              (if ltb x (buf.off + (max_off b - buf.off)) then none else byte_at buf x)
    outside o = ground (arith, byte_at_outside buf x)

-- The new chunk begins before the first one, and goes on into it.
split_at :
    (n : ℕ) (m : ChunkMap) (buf : RangeBuf) (x : ℕ)
    → added m buf x ≡ or_else (added m (cut_at n buf).0 x) (byte_at (cut_at n buf).1 x)
split_at n m buf x =
    let (e, f) = byte_at-cut_at n buf x in
    rw (e, f)
      (elim (Option-cases (held m x)) [
        | inr (v, q) ↦ rw q
        | inl q ↦ rw q (elim (Bool-cases (ltb x (buf.off + n))) [
          | inl t ↦ rw t (sym (or_else-none (byte_at buf x)))
          | inr t ↦ rw t
        ])
      ])

pub advance_bounds :
    (n : ℕ) (buf : RangeBuf)
    → n ≤ len buf
    → ((advanced n buf).off ≡ buf.off + n) × (len (advanced n buf) + n ≡ len buf)
unfolding advanced
advance_bounds n buf h = (refl, omega (arith, length-drop n buf.bytes))

split_off_bounds :
    (n : ℕ) (buf : RangeBuf)
    → n ≤ len buf
    → ((cut_at n buf).0.off ≡ buf.off)
      × (len (cut_at n buf).0 ≡ n)
      × ((cut_at n buf).1.off ≡ buf.off + n)
      × (len (cut_at n buf).1 + n ≡ len buf)
      × (max_off (cut_at n buf).1 ≡ max_off buf)
unfolding cut_at
split_off_bounds n buf h =
    let t = length-take n buf.bytes in
    let d = length-drop n buf.bytes in (refl, omega arith, refl, omega arith, omega arith)

-- What the comparison leaves of a new chunk.
pub scan_lem :
    (lo : ℕ) (m : ChunkMap) (buf : RangeBuf) → InOrder lo m → Scanned m buf (scan m buf [])
unfolding scan
scan_lem lo [] buf v = whole buf refl tt (omega arith) refl (λ x. refl)
scan_lem lo ((k, b) ∷ m) buf v = elim (Bool-cases (ltb (max_off buf) b.off)) [
  | inl c ↦ rw c (before (ground (arith, c)))
  | inr c ↦ elim (Bool-cases (leb b.off buf.off && leb (max_off buf) (max_off b))) [
    | inl d ↦ rw (c, d) (inside (ground (arith, d)) (ground (arith, d)))
    | inr d ↦ elim (Bool-cases (leb b.off buf.off && ltb buf.off (max_off b))) [
      | inl e ↦
          rw (c, d, e, advance_within (max_off b - buf.off) buf (ground (arith, d, e)))
            (front (λ b'. scan_lem k m b' v.2) (ground (arith, e)) (ground (arith, e))
              (ground (arith, d, e)))
      | inr e ↦ elim (Bool-cases (ltb buf.off b.off && ltb b.off (max_off buf))) [
        | inl f ↦
            rw (c, d, e, f, split_off_within (b.off - buf.off) buf (ground (arith, f)))
              (around (ground (arith, f)) (ground (arith, f)))
        | inr f ↦ rw (c, d, e, f) (apart (scan_lem k m buf v.2) (ground (arith, v, c, d, e, f)))
      ]
    ]
  ]
]
  where
    before : max_off buf < b.off → Scanned ((k, b) ∷ m) buf (ok (kept buf []))
    before h =
        whole buf refl (Fits-behind buf b.off ((k, b) ∷ m) (omega arith) (omega arith, v.1, v.2))
          (omega arith) refl (λ x. refl)

    inside : b.off ≤ buf.off → max_off buf ≤ max_off b → Scanned ((k, b) ∷ m) buf (ok (dropped []))
    inside h l = gone refl (λ hi w. omega (arith, v)) (contained k b m buf h l)

    front :
        ((b' : RangeBuf) → Scanned m b' (scan m b' []))
        → b.off ≤ buf.off
        → buf.off < max_off b
        → max_off b < max_off buf
        → Scanned ((k, b) ∷ m) buf (scan m (advanced (max_off b - buf.off) buf) [])
    front ih h l j =
        let n = max_off b - buf.off in
        let (o, z) = advance_bounds n buf (omega arith) in
        lift k b m buf (advanced n buf) (scan m (advanced n buf) []) v.1 (omega arith) (omega arith)
          (omega arith) (inr (omega (arith, v), omega (arith, v))) (cut_front k b m buf h l)
          (ih (advanced n buf))

    around :
        buf.off < b.off
        → b.off < max_off buf
        → Scanned
            ((k, b) ∷ m)
            buf
            (scan m (cut_at (b.off - buf.off) buf).0 ((cut_at (b.off - buf.off) buf).1 ∷ []))
    around h l =
        let n = b.off - buf.off in
        let (p, o, q, z, t) = split_off_bounds n buf (omega arith) in
        halves (cut_at n buf).0 (cut_at n buf).1
          (scan_before k m (cut_at n buf).0 ((cut_at n buf).1 ∷ []) v.2 (omega (arith, v))
            (omega arith))
          (Fits-behind (cut_at n buf).0 b.off ((k, b) ∷ m) (omega arith) (omega arith, v.1, v.2))
          (omega arith) (omega arith) (omega arith) (omega arith) (omega arith) (omega arith)
          (split_at n ((k, b) ∷ m) buf)

    apart :
        Scanned m buf (scan m buf [])
        → (max_off buf ≤ b.off) ⊎ ((k ≤ buf.off) × (k < max_off buf))
        → Scanned ((k, b) ∷ m) buf (scan m buf [])
    apart ih o =
        lift k b m buf buf (scan m buf []) v.1 refl (omega arith) (omega arith) o
          (λ x. unfold held in or_else_assoc (byte_at b x) (held m x) (byte_at buf x)) ih
