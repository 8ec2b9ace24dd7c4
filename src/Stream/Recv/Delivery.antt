-- ===== src/Stream/Recv/Delivery.antt =====
-- What the application reads from a stream is a beginning of what the peer sent on it.
use raw_quic.Prelude.{
  Bool, Bool-cases, List, Option, [], ap, arith, false, get_elem?, if◌then◌else◌, inl, inr, leb,
  length, length-append, ltb, none, refl, some, suc, sym, zero, ℕ, ◌++◌, ◌+◌, ◌-◌, ◌<◌, ◌∙◌, ◌∷◌,
  ◌≡◌,
}
use mathlib.Core.Path.{subst}
use raw_quic.Error.{Result, ok, err, panic}
use raw_quic.Stream.RangeBuf
use raw_quic.Stream.RangeBuf.{RangeBuf}
use raw_quic.Stream.RangeBuf.Bytes.{get_elem?-beyond, byte_at, or_else}
use raw_quic.Stream.Recv
use raw_quic.Stream.Recv.{ChunkMap, RecvBuf, write, read}
use raw_quic.Stream.Recv.Chunks.{held}
use raw_quic.Stream.Recv.Limits.{passed, limited, contradicted, check_write-Checked}
use raw_quic.Stream.Recv.Write.{IsValid, unread}
use raw_quic.Stream.Recv.Accept.{write-Accepts, write_refused}
use raw_quic.Stream.Recv.Read.{
  waiting, was_reset, delivered, read-Reads, read-IsValid, get_elem?-append, rest_held,
}

-- A STREAM frame that arrives, or a call of the application.
pub data Event : Type 0 where
  frame : ℕ → List ℕ → Bool → Event
  reading : ℕ → Event

abbrev pub bytes_of : Result (List ℕ × Bool) → List ℕ
bytes_of (ok (bytes, _)) = bytes
bytes_of (err e) = []
bytes_of panic = []

-- The bytes that the application reads, in the order of the events, and the state behind them.
unfoldable pub run : List Event → RecvBuf → List ℕ × RecvBuf
unfolding write read
run [] r = ([], r)
run (frame offset bytes fin ∷ es) r = run es (write offset bytes fin r).1
run (reading room ∷ es) r =
    let (answer, r1) = read room r in let (out, r2) = run es r1 in (bytes_of answer ++ out, r2)

-- The bytes of a frame stand at their offsets of the stream that the peer sends.
abbrev Agrees : (ℕ → ℕ) → ℕ → List ℕ → Type 0
Agrees stream offset bytes = (i v : ℕ) → get_elem? bytes i ≡ some v → stream (offset + i) ≡ v

abbrev pub FramesAgree : (ℕ → ℕ) → List Event → Type 0
FramesAgree stream [] = Unit {0}
FramesAgree stream (frame offset bytes fin ∷ es) =
    Agrees stream offset bytes × FramesAgree stream es
FramesAgree stream (reading room ∷ es) = FramesAgree stream es

-- `count` bytes of a stream from an offset on.
unfoldable pub segment : (ℕ → ℕ) → ℕ → ℕ → List ℕ
segment stream from zero = []
segment stream from (suc count) = stream from ∷ segment stream (suc from) count

-- A state that a stream without RESET_STREAM and shutdown is in.
record Holds (stream : ℕ → ℕ) (r : RecvBuf) : Type 0 where
  valid : IsValid r
  open_ : r.shut ≡ false
  agrees : (x v : ℕ) → held r.chunks x ≡ some v → stream x ≡ v

-- A list of the bytes of the stream from an offset on.
is_segment :
    (stream : ℕ → ℕ) (from : ℕ) (bytes : List ℕ)
    → Agrees stream from bytes
    → bytes ≡ segment stream from (length bytes)
unfolding segment
is_segment stream from [] h = refl
is_segment stream from (b ∷ bytes) h =
    let e : stream from ≡ b = ap stream (omega arith) ∙ h 0 b refl in
    rw
      (
        e,
        sym (is_segment stream (suc from) bytes (λ i v k. ap stream (omega arith) ∙ h (suc i) v k)),
      )
      refl

Agrees-append :
    (stream : ℕ → ℕ) (from : ℕ) (xs ys : List ℕ)
    → Agrees stream from xs
    → Agrees stream (from + length xs) ys
    → Agrees stream from (xs ++ ys)
Agrees-append stream from xs ys h k i v e = elim (Bool-cases (ltb i (length xs))) [
  | inl c ↦ h i v (ground (arith, c, e, get_elem?-append xs ys i))
  | inr c ↦
      ap stream (ground (arith, c))
      ∙ k (i - length xs) v (ground (arith, c, e, get_elem?-append xs ys i))
]

unread-Agrees :
    (stream : ℕ → ℕ) (offset : ℕ) (bytes : List ℕ) (fin : Bool) (n x v : ℕ) (a : Option ℕ)
    → ((v : ℕ) → a ≡ some v → stream x ≡ v)
    → Agrees stream offset bytes
    → or_else a (unread n (RangeBuf.new bytes offset fin) x) ≡ some v
    → stream x ≡ v
unfolding byte_at
unread-Agrees stream offset bytes fin n x v (some w) h k e = h v e
unread-Agrees stream offset bytes fin n x v none h k e = elim (Bool-cases (ltb x n)) [
  | inl c ↦ absurd (ground (arith, c, e))
  | inr c ↦ elim (Bool-cases (leb offset x)) [
    | inl d ↦ ap stream (ground (arith, d)) ∙ k (x - offset) v (ground (arith, c, d, e))
    | inr d ↦ absurd (ground (arith, c, d, e))
  ]
]

write-Holds :
    (stream : ℕ → ℕ) (offset : ℕ) (bytes : List ℕ) (fin : Bool) (r : RecvBuf)
    → Holds stream r
    → Agrees stream offset bytes
    → Holds stream (write offset bytes fin r).1
      × ((write offset bytes fin r).1.read_off ≡ r.read_off)
write-Holds stream offset bytes fin r h k =
    elim (check_write-Checked (RangeBuf.new bytes offset fin) r) [
      | passed _ a ↦
          let w = write-Accepts offset bytes fin r h.valid a in
          (
            record {
              valid = w.valid;
              open_ = w.same_shut ∙ h.open_;
              agrees = λ x v e.
                  unread-Agrees stream offset bytes fin r.read_off x v (held r.chunks x)
                    (h.agrees x) k (sym (w.bytes h.open_ x) ∙ e);
            },
            w.same_read_off,
          )
      | limited _ l ↦
          rw (write_refused offset bytes fin r h.valid (λ a. omega (arith, a.within, l))) (h, refl)
      | contradicted _ _ n ↦ rw (write_refused offset bytes fin r h.valid n) (h, refl)
    ]

elem_within : (xs : List ℕ) (i v : ℕ) → get_elem? xs i ≡ some v → i < length xs
elem_within xs i v h = elim (Bool-cases (ltb i (length xs))) [
  | inl c ↦ ground (arith, c)
  | inr c ↦ let e = get_elem?-beyond xs i (ground (arith, c)) in absurd (cc (e, h))
]

read-Holds :
    (stream : ℕ → ℕ) (room : ℕ) (r : RecvBuf)
    → Holds stream r
    → Holds stream (read room r).1
      × ((read room r).1.read_off ≡ r.read_off + length (bytes_of (read room r).0))
      × Agrees stream r.read_off (bytes_of (read room r).0)
read-Holds stream room r h = elim (read-Reads room r h.valid) [
  | waiting e _ ↦ rw e (h, omega arith, λ i v k. absurd (cc k))
  | was_reset _ _ e ↦ rw e (
    record {
      valid = subst (λ o. IsValid o.1) e (read-IsValid room r h.valid);
      open_ = h.open_;
      agrees = λ x v k. absurd (unfold held in cc k);
    },
    omega arith,
    λ i v k. absurd (cc k),
  )
  | delivered bytes off left _ _ t e ↦ rw e (
    record {
      valid = subst (λ o. IsValid o.1) e (read-IsValid room r h.valid);
      open_ = h.open_;
      agrees = λ x v k. kept_agrees off left x v (rest_held off left x t.in_order (t.rest x)) k;
    },
    t.moved,
    λ i v k. h.agrees (r.read_off + i) v (sym (t.bytes i (elem_within bytes i v k)) ∙ k),
  )
]
  where
    kept_agrees :
        (off : ℕ) (left : ChunkMap) (x v : ℕ)
        → held left x ≡ (if ltb x off then none else held r.chunks x)
        → held left x ≡ some v
        → stream x ≡ v
    kept_agrees off left x v p k = elim (Bool-cases (ltb x off)) [
      | inl c ↦ absurd (ground (arith, c, p, k))
      | inr c ↦ h.agrees x v (ground (arith, c, p, k))
    ]

run-Holds :
    (stream : ℕ → ℕ) (es : List Event) (r : RecvBuf)
    → Holds stream r
    → FramesAgree stream es
    → Holds stream (run es r).1
      × ((run es r).1.read_off ≡ r.read_off + length (run es r).0)
      × Agrees stream r.read_off (run es r).0
unfolding run
run-Holds stream [] r h k = (h, omega arith, λ i v k. absurd (cc k))
run-Holds stream (frame offset bytes fin ∷ es) r h k =
    let (w, e) = write-Holds stream offset bytes fin r h k.0 in
    let (z, f, b) = run-Holds stream es (write offset bytes fin r).1 w k.1 in
    (
      z,
      omega (arith, e, f),
      subst (λ n. Agrees stream n (run es (write offset bytes fin r).1).0) e b,
    )
run-Holds stream (reading room ∷ es) r h k =
    let (w, e, a) = read-Holds stream room r h in
    let (z, f, b) = run-Holds stream es (read room r).1 w k in
    let l = length-append (bytes_of (read room r).0) (run es (read room r).1).0 in
    (
      z,
      omega (arith, e, f, l),
      Agrees-append stream r.read_off (bytes_of (read room r).0) (run es (read room r).1).0 a
          (rw⁻¹ e b),
    )

new-Holds : (stream : ℕ → ℕ) (max_data max_window : ℕ) → Holds stream (Recv.new max_data max_window)
unfolding Recv.new held
new-Holds stream max_data max_window = record {
  valid = record {
    in_order = tt;
    below = tt;
    offsets = omega arith;
    discarded = inl refl;
    final_above = tt;
  };
  open_ = refl;
  agrees = λ x v k. absurd (cc k);
}

-- On a new stream that is not reset or shut down, whatever STREAM frames arrive, in any order, with
-- any overlaps and repetitions, accepted or refused, and whenever the application reads: if the bytes
-- of each frame are those that the peer's stream has at its offsets, then the application has read
-- exactly the bytes of that stream from its beginning to the read offset, in order.
pub run_delivers :
    (stream : ℕ → ℕ) (max_data max_window : ℕ) (es : List Event)
    → FramesAgree stream es
    → (run es (Recv.new max_data max_window)).0
      ≡ segment stream 0 (run es (Recv.new max_data max_window)).1.read_off
unfolding Recv.new
run_delivers stream max_data max_window es k =
    let (h, e, a) =
      run-Holds stream es (Recv.new max_data max_window) (new-Holds stream max_data max_window) k in
    is_segment stream 0 (run es (Recv.new max_data max_window)).0 a
    ∙ ap (segment stream 0) (omega (arith, e))
