-- ===== src/Stream/Recv/Write.antt =====
-- `write` adds the bytes of a frame to those held, from the read offset on, where none is held yet.
use raw_quic.Prelude.{
  Bool-cases, List, Option, [], ap, arith, false, if◌then◌else◌, inl, inr, ltb, max, none, refl,
  some, suc, sym, true, zero, ℕ, ◌-◌, ◌<◌, ◌==◌, ◌||◌, ◌∙◌, ◌∷◌, ◌≡◌, ◌≤◌, ◌⊎◌,
}
use raw_quic.Error.{Result, ok}
use raw_quic.Stream.RangeBuf.{RangeBuf, len, max_off, is_empty, advanced}
use raw_quic.Stream.RangeBuf.Bytes.{
  advance_within, byte_at, or_else, byte_at_outside, byte_at-advanced,
}
use raw_quic.Stream.Recv.{
  ChunkMap, RecvBuf, dropped, kept, store, scan_piece, unread_part, write_pieces, insert_chunk,
  scan, from_key,
}
use raw_quic.Stream.Recv.Chunks.{
  InOrder, Below, held, Below-le, insert_chunk-InOrder, insert_chunk-Below, held-insert_chunk, Fits,
}
use raw_quic.Stream.Recv.Scanning.{
  Scanned, scan_lem, scan_behind, scan-from_key, advance_bounds, gone, whole, halves, added,
}

abbrev pub FinalAbove : ℕ → Option ℕ → Type 0
FinalAbove n none = Unit {0}
FinalAbove n (some off) = n ≤ off

-- The chunks are in order, do not overlap, lie between the two offsets, and are gone after a
-- shutdown; the final size, once known, is not passed.
pub record IsValid (r : RecvBuf) : Type 0 where
  pub in_order : InOrder r.read_off r.chunks
  pub below : Below r.recv_off r.chunks
  pub offsets : r.read_off ≤ r.recv_off
  pub discarded : (r.shut ≡ false) ⊎ (r.chunks ≡ [])
  pub final_above : FinalAbove r.recv_off r.fin_off

-- What is left of a piece without the bytes that were read.
abbrev pub clip : ℕ → RangeBuf → RangeBuf
clip read_off piece =
    if ltb piece.off read_off then advanced (read_off - piece.off) piece else piece

-- A piece does not end before the read offset.
abbrev pub Reaches : ℕ → RangeBuf → Type 0
Reaches read_off piece = (read_off ≤ piece.off) ⊎ (read_off ≤ max_off piece)

clip_bounds :
    (n : ℕ) (piece : RangeBuf)
    → Reaches n piece
    → (n ≤ (clip n piece).off)
      × (max_off (clip n piece) ≡ max_off piece)
      × (len (clip n piece) ≤ len piece)
clip_bounds n piece h = elim (Bool-cases (ltb piece.off n)) [
  | inr c ↦ rw c (ground (arith, c), refl, omega arith)
  | inl c ↦
      let (o, l) = advance_bounds (n - piece.off) piece (ground (arith, c, h)) in
      rw c (ground (arith, c, o), ground (arith, c, o, l), omega arith)
]

-- The bytes of a piece that were not read yet.
abbrev pub unread : ℕ → RangeBuf → ℕ → Option ℕ
unread n piece x = if ltb x n then none else byte_at piece x

byte_at-clip : (n : ℕ) (piece : RangeBuf) (x : ℕ) → byte_at (clip n piece) x ≡ unread n piece x
byte_at-clip n piece x = elim (Bool-cases (ltb piece.off n)) [
  | inr c ↦ rw c (ground (arith, c, byte_at_outside piece x))
  | inl c ↦ rw (c, byte_at-advanced (n - piece.off) piece x) (ground (arith, c))
]

-- The bytes that were read are cut off without a panic.
unread_part_lem :
    (piece : RangeBuf) (r : RecvBuf)
    → Reaches r.read_off piece
    → unread_part piece r ≡ ok (clip r.read_off piece)
unfolding unread_part
unread_part_lem piece r h = elim (Bool-cases (ltb piece.off r.read_off)) [
  | inl c ↦ rw c (advance_within (r.read_off - piece.off) piece (ground (arith, c, h)))
  | inr c ↦ rw c refl
]

scan_piece-Scanned :
    (piece : RangeBuf) (r : RecvBuf)
    → InOrder r.read_off r.chunks
    → Below r.recv_off r.chunks
    → Reaches r.read_off piece
    → Scanned r.chunks (clip r.read_off piece) (scan_piece piece [] r)
unfolding scan_piece is_empty
scan_piece-Scanned piece r v b h =
    let buf = clip r.read_off piece in
    rw (unread_part_lem piece r h) (elim (Bool-cases (ltb buf.off r.recv_off || len buf == 0)) [
      | inl c ↦
          rw (c, scan-from_key r.read_off r.chunks buf [] v) (scan_lem r.read_off r.chunks buf v)
      | inr c ↦
          rw
            (
              c,
              sym (
                  scan_behind r.recv_off r.read_off r.chunks buf [] v b (ground (arith, c))
                    (ground (arith, c))),
            )
            (scan_lem r.read_off r.chunks buf v)
    ])

-- The state after a piece was written.
pub data Written (piece : RangeBuf) (r : RecvBuf) (o : Result RecvBuf) : Type 0 where
  stored :
      (m : ChunkMap)
      → o ≡ ok (record r { chunks = m; recv_off = max r.recv_off (max_off piece) })
      → InOrder r.read_off m
      → Below (max r.recv_off (max_off piece)) m
      → ((x : ℕ) → held m x ≡ or_else (held r.chunks x) (unread r.read_off piece x))
      → Written piece r o

step_gone :
    (f : ℕ) (piece : RangeBuf) (r : RecvBuf)
    → scan_piece piece [] r ≡ ok (dropped [])
    → write_pieces (suc f) (piece ∷ []) r ≡ ok r
unfolding write_pieces
step_gone f piece r e = rw (e, write_pieces)

pub step_kept :
    (f : ℕ) (piece buf : RangeBuf) (rest : List RangeBuf) (r : RecvBuf)
    → scan_piece piece [] r ≡ ok (kept buf rest)
    → write_pieces (suc f) (piece ∷ []) r ≡ write_pieces f rest (store buf r)
unfolding write_pieces
step_kept f piece buf rest r e = rw (e, write_pieces)

pub done_pieces : (f : ℕ) (r : RecvBuf) → write_pieces f [] r ≡ ok r
unfolding write_pieces
done_pieces zero r = refl
done_pieces (suc f) r = refl

pub scan_piece_nil :
    (piece : RangeBuf) (r : RecvBuf)
    → r.chunks ≡ []
    → Reaches r.read_off piece
    → scan_piece piece [] r ≡ ok (kept (clip r.read_off piece) [])
unfolding scan_piece is_empty scan from_key
scan_piece_nil piece r e h =
    rw (unread_part_lem piece r h)
      (elim (Bool-cases
        (ltb (clip r.read_off piece).off r.recv_off || len (clip r.read_off piece) == 0)) [
          | inl c ↦ rw c (simp e)
          | inr c ↦ rw c
        ])

pub store_shut :
    (buf : RangeBuf) (r : RecvBuf)
    → r.shut ≡ true
    → store buf r ≡ record r { recv_off = max r.recv_off (max_off buf) }
unfolding store
store_shut buf r s = simp s

pub store_open :
    (buf : RangeBuf) (r : RecvBuf)
    → r.shut ≡ false
    → store buf r ≡ record r {
      chunks = insert_chunk (max_off buf) buf r.chunks;
      recv_off = max r.recv_off (max_off buf);
    }
unfolding store
store_open buf r s = simp s

-- A shut down stream stores nothing.
pub write_pieces_shut :
    (f : ℕ) (piece : RangeBuf) (r : RecvBuf)
    → r.shut ≡ true
    → r.chunks ≡ []
    → Reaches r.read_off piece
    → write_pieces (suc f) (piece ∷ []) r
      ≡ ok (record r { recv_off = max r.recv_off (max_off piece) })
write_pieces_shut f piece r s e h =
    step_kept f piece (clip r.read_off piece) [] r (scan_piece_nil piece r e h)
    ∙ done_pieces f (store (clip r.read_off piece) r)
    ∙ ap ok (store_shut (clip r.read_off piece) r s)
    ∙ ap (λ (k : ℕ). ok (record r { recv_off = max r.recv_off k }))
        (clip_bounds r.read_off piece h).1

-- The state after an open stream stored a chunk.
abbrev with_chunk : RangeBuf → RecvBuf → RecvBuf
with_chunk buf r = record r {
  chunks = insert_chunk (max_off buf) buf r.chunks;
  recv_off = max r.recv_off (max_off buf);
}

-- What the rounds behind the first do.
abbrev Rounds : ℕ → Type 0
Rounds f =
    (rest : RangeBuf) (r : RecvBuf)
    → InOrder r.read_off r.chunks
    → Below r.recv_off r.chunks
    → r.shut ≡ false
    → len rest < f
    → Reaches r.read_off rest
    → Written rest r (write_pieces f (rest ∷ []) r)

-- The first half was stored, and the rest is written into that state.
joined :
    (f : ℕ) (piece buf rest : RangeBuf) (r : RecvBuf)
    → InOrder r.read_off r.chunks
    → Fits buf r.chunks
    → r.read_off ≤ rest.off
    → max_off buf ≤ max_off piece
    → max_off rest ≡ max_off piece
    → ((x : ℕ)
        → added r.chunks (clip r.read_off piece) x
          ≡ or_else (added r.chunks buf x) (byte_at rest x))
    → write_pieces (suc f) (piece ∷ []) r ≡ write_pieces f (rest ∷ []) (with_chunk buf r)
    → Written rest (with_chunk buf r) (write_pieces f (rest ∷ []) (with_chunk buf r))
    → Written piece r (write_pieces (suc f) (piece ∷ []) r)
joined f piece buf rest r v u o h k t p (stored m q w b y) =
    let same : max (max r.recv_off (max_off buf)) (max_off rest) ≡ max r.recv_off (max_off piece) =
      omega arith in
    stored m (p ∙ q ∙ ap (λ (n : ℕ). ok (record r { chunks = m; recv_off = n })) same) w
      (rw⁻¹ same b)
      (λ x.
        y x
        ∙ ap (λ (a : Option ℕ). or_else a (unread r.read_off rest x))
            (held-insert_chunk r.read_off x buf r.chunks v u)
        ∙ ap (or_else (added r.chunks buf x)) (all_unread x)
        ∙ sym (t x)
        ∙ ap (or_else (held r.chunks x)) (byte_at-clip r.read_off piece x))
  where
    all_unread : (x : ℕ) → unread r.read_off rest x ≡ byte_at rest x
    all_unread x = ground (arith, byte_at_outside rest x)

finish :
    (f : ℕ) (piece : RangeBuf) (r : RecvBuf)
    → InOrder r.read_off r.chunks
    → Below r.recv_off r.chunks
    → r.shut ≡ false
    → len piece ≤ f
    → Reaches r.read_off piece
    → Rounds f
    → Scanned r.chunks (clip r.read_off piece) (scan_piece piece [] r)
    → Written piece r (write_pieces (suc f) (piece ∷ []) r)
finish f piece r v b s h e ih (gone q z t) =
    let (o, l, w) = clip_bounds r.read_off piece e in
    let same : r.recv_off ≡ max r.recv_off (max_off piece) = omega (arith, z r.recv_off b, l) in
    stored r.chunks (step_gone f piece r q ∙ ap (λ (k : ℕ). ok (record r { recv_off = k })) same) v
      (Below-le r.recv_off (max r.recv_off (max_off piece)) r.chunks (omega arith) b)
      (λ x. sym (t x) ∙ ap (or_else (held r.chunks x)) (byte_at-clip r.read_off piece x))
finish f piece r v b s h e ih (whole buf q u i j t) =
    let (o, l, w) = clip_bounds r.read_off piece e in
    stored (insert_chunk (max_off buf) buf r.chunks)
      (step_kept f piece buf [] r q
        ∙ done_pieces f (store buf r)
        ∙ ap ok (store_open buf r s)
        ∙ ap (λ (k : ℕ). ok (record (with_chunk buf r) { recv_off = max r.recv_off k })) (j ∙ l))
      (insert_chunk-InOrder r.read_off buf r.chunks (omega arith) v u)
      (insert_chunk-Below (max r.recv_off (max_off piece)) buf r.chunks (omega arith)
        (Below-le r.recv_off (max r.recv_off (max_off piece)) r.chunks (omega arith) b))
      (λ x.
        held-insert_chunk r.read_off x buf r.chunks v u
        ∙ sym (t x)
        ∙ ap (or_else (held r.chunks x)) (byte_at-clip r.read_off piece x))
finish f piece r v b s h e ih (halves buf rest q u i n j y z k t) =
    let (o, l, w) = clip_bounds r.read_off piece e in
    let r1 = with_chunk buf r in
    joined f piece buf rest r v u (omega arith) (omega arith) (omega arith) (λ x. t x)
      (step_kept f piece buf (rest ∷ []) r q ∙ ap (write_pieces f (rest ∷ [])) (store_open buf r s))
      (ih rest r1 (insert_chunk-InOrder r.read_off buf r.chunks (omega arith) v u)
        (insert_chunk-Below r1.recv_off buf r.chunks (omega arith)
          (Below-le r.recv_off r1.recv_off r.chunks (omega arith) b))
        s (omega arith) (inl (omega arith)))

pub write_pieces-Written :
    (f : ℕ) (piece : RangeBuf) (r : RecvBuf)
    → InOrder r.read_off r.chunks
    → Below r.recv_off r.chunks
    → r.shut ≡ false
    → len piece ≤ f
    → Reaches r.read_off piece
    → Written piece r (write_pieces (suc f) (piece ∷ []) r)
write_pieces-Written zero piece r v b s h e =
    finish zero piece r v b s h e (λ rest r1 a c d l k. absurd (omega arith))
      (scan_piece-Scanned piece r v b e)
write_pieces-Written (suc f) piece r v b s h e =
    finish (suc f) piece r v b s h e
      (λ rest r1 a c d l k. write_pieces-Written f rest r1 a c d (omega arith) k)
      (scan_piece-Scanned piece r v b e)
