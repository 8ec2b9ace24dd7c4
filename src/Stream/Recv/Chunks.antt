-- ===== src/Stream/Recv/Chunks.antt =====
-- The chunks of a receive buffer as a function from offsets to bytes.
use raw_quic.Prelude.{
  Bool-cases, Option, Option-cases, [], arith, inl, inr, ltb, none, refl, some, sym, ℕ, ◌<◌, ◌==◌,
  ◌∷◌, ◌≡◌, ◌≢◌, ◌≤◌, ◌⊎◌,
}
use raw_quic.Stream.RangeBuf.{RangeBuf, len, max_off}
use raw_quic.Stream.RangeBuf.Bytes.{byte_at, or_else, byte_at_outside, byte_at-cases}
use raw_quic.Stream.Recv.{ChunkMap, insert_chunk}

-- Chunks from `lo` on, in order, that do not overlap, each under the offset behind it.
abbrev pub InOrder : ℕ → ChunkMap → Type 0
InOrder lo [] = Unit {0}
InOrder lo ((k, b) ∷ m) = (lo ≤ b.off) × (k ≡ max_off b) × InOrder k m

-- No chunk reaches beyond `hi`.
abbrev pub Below : ℕ → ChunkMap → Type 0
Below hi [] = Unit {0}
Below hi ((k, b) ∷ m) = (k ≤ hi) × Below hi m

-- The byte that the chunks hold at an offset.
unfoldable pub held : ChunkMap → ℕ → Option ℕ
unfolding byte_at
held [] x = none
held ((k, b) ∷ m) x = or_else (byte_at b x) (held m x)

pub InOrder-le : (i j : ℕ) (m : ChunkMap) → i ≤ j → InOrder j m → InOrder i m
InOrder-le i j [] h v = tt
InOrder-le i j ((k, b) ∷ m) h v = (omega (arith, v), v.1, v.2)

pub Below-le : (i j : ℕ) (m : ChunkMap) → i ≤ j → Below i m → Below j m
Below-le i j [] h v = tt
Below-le i j ((k, b) ∷ m) h v = (omega (arith, v), Below-le i j m h v.1)

pub held_below : (lo x : ℕ) (m : ChunkMap) → InOrder lo m → x < lo → held m x ≡ none
unfolding held
held_below lo x [] v h = refl
held_below lo x ((k, b) ∷ m) v h =
    rw (byte_at_outside b x (omega (arith, v)), held_below k x m v.2 (omega (arith, v)))

pub held_above : (lo hi x : ℕ) (m : ChunkMap) → InOrder lo m → Below hi m → hi ≤ x → held m x ≡ none
unfolding held
held_above lo hi x [] v b h = refl
held_above lo hi x ((k, c) ∷ m) v b h =
    rw (byte_at_outside c x (omega (arith, v, b)), held_above k hi x m v.2 b.1 h)

-- A chunk that overlaps none of the others; one under the same key holds nothing.
abbrev pub Fits : RangeBuf → ChunkMap → Type 0
Fits buf [] = Unit {0}
Fits buf ((k, b) ∷ m) =
    ((max_off buf ≤ b.off) ⊎ (k ≤ buf.off)) × ((k ≢ max_off buf) ⊎ (len b ≡ 0)) × Fits buf m

pub Fits-behind :
    (buf : RangeBuf) (lo : ℕ) (m : ChunkMap) → max_off buf ≤ lo → InOrder lo m → Fits buf m
Fits-behind buf lo [] h v = tt
Fits-behind buf lo ((k, b) ∷ m) h v =
    (inl (omega (arith, v)), omega (arith, v), Fits-behind buf k m (omega (arith, v)) v.2)

pub insert_chunk-InOrder :
    (lo : ℕ) (buf : RangeBuf) (m : ChunkMap)
    → lo ≤ buf.off
    → InOrder lo m
    → Fits buf m
    → InOrder lo (insert_chunk (max_off buf) buf m)
unfolding insert_chunk
insert_chunk-InOrder lo buf [] h v f = (h, refl, tt)
insert_chunk-InOrder lo buf ((k, b) ∷ m) h v f = elim (Bool-cases (ltb (max_off buf) k)) [
  | inl p ↦ rw p (h, refl, (ground (arith, p, f), v.1, v.2))
  | inr p ↦ elim (Bool-cases (max_off buf == k)) [
    | inl q ↦ rw (p, q) (h, refl, ground (arith, q, v.2))
    | inr q ↦
        rw (p, q) (v.0, v.1, insert_chunk-InOrder k buf m (ground (arith, p, q, f, v)) v.2 f.2)
  ]
]

pub insert_chunk-Below :
    (hi : ℕ) (buf : RangeBuf) (m : ChunkMap)
    → max_off buf ≤ hi
    → Below hi m
    → Below hi (insert_chunk (max_off buf) buf m)
unfolding insert_chunk
insert_chunk-Below hi buf [] h v = (h, tt)
insert_chunk-Below hi buf ((k, b) ∷ m) h v = ground (arith, insert_chunk-Below hi buf m h v.1)

-- Two answers of which the first is there only where the second is not may be swapped.
or_else_swap : (a b : Option ℕ) → (a ≡ none) ⊎ (b ≡ none) → or_else a b ≡ or_else b a
or_else_swap a b (inl h) = elim (Option-cases b) [ inl n ↦ rw (h, n) | inr (v, n) ↦ rw (h, n) ]
or_else_swap a b (inr h) = elim (Option-cases a) [ inl n ↦ rw (h, n) | inr (v, n) ↦ rw (h, n) ]

pub or_else_assoc : (a b c : Option ℕ) → or_else (or_else a b) c ≡ or_else a (or_else b c)
or_else_assoc none b c = refl
or_else_assoc (some v) b c = refl

-- Storing a chunk adds its bytes to those held.
pub held-insert_chunk :
    (lo x : ℕ) (buf : RangeBuf) (m : ChunkMap)
    → InOrder lo m
    → Fits buf m
    → held (insert_chunk (max_off buf) buf m) x ≡ or_else (held m x) (byte_at buf x)
unfolding insert_chunk held
held-insert_chunk lo x buf [] v f = or_else_swap (byte_at buf x) none (inr refl)
held-insert_chunk lo x buf ((k, b) ∷ m) v f = elim (Bool-cases (ltb (max_off buf) k)) [
  | inl p ↦ rw p (
      or_else_swap (byte_at buf x) (or_else (byte_at b x) (held m x))
        (apart (ground (arith, p, f, v.1))))
  | inr p ↦ elim (Bool-cases (max_off buf == k)) [
    | inl q ↦
        let e : byte_at b x ≡ none = byte_at_outside b x (ground (arith, q, f)) in
        rw (p, q, e) (or_else_swap (byte_at buf x) (held m x) (behind (ground (arith, q))))
    | inr q ↦
        rw (p, q, held-insert_chunk k x buf m v.2 f.2)
          (sym (or_else_assoc (byte_at b x) (held m x) (byte_at buf x)))
  ]
]
  where
    behind : max_off buf ≤ k → (byte_at buf x ≡ none) ⊎ (held m x ≡ none)
    behind h = elim (byte_at-cases buf x) [
      | inl (o, n) ↦ inl n
      | inr (w, i, j, n) ↦ inr (held_below k x m v.2 (omega arith))
    ]

    apart : max_off buf ≤ b.off → (byte_at buf x ≡ none) ⊎ (or_else (byte_at b x) (held m x) ≡ none)
    apart h = elim (byte_at-cases buf x) [
      | inl (o, n) ↦ inl n
      | inr (w, i, j, n) ↦
          inr (rw (byte_at_outside b x (omega arith), held_below k x m v.2 (omega (arith, v))))
    ]
