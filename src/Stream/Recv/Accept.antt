-- ===== src/Stream/Recv/Accept.antt =====
-- `RecvBuf::write` as a whole: when it refuses a frame, and what it keeps of one that it accepts.
use raw_quic.Prelude.{
  Bool, Bool-cases, List, Option, Option-cases, [], ap, arith, false, if◌then◌else◌, inl, inr, leb,
  length, ltb, max, none, not, refl, some, suc, sym, true, ℕ, ◌&&◌, ◌+◌, ◌↔◌, ◌∙◌, ◌∷◌, ◌≡◌, ◌≤◌,
  ◌⊎◌,
}
use mathlib.Core.Path.{subst}
use raw_quic.Error.{Result, ok, err, panic, flow_control_error, final_size_error}
use raw_quic.Stream.RangeBuf
use raw_quic.Stream.RangeBuf.{RangeBuf, len, max_off, is_empty}
use raw_quic.Stream.RangeBuf.Bytes.{or_else, byte_at_outside}
use raw_quic.Stream.Recv.{RecvBuf, write, write_checked, write_pieces, is_fin}
use raw_quic.Stream.Recv.Chunks.{held}
use raw_quic.Stream.Recv.Scanning.{or_else-none}
use raw_quic.Stream.Recv.Write.{
  IsValid, FinalAbove, unread, Written, stored, write_pieces_shut, write_pieces-Written,
}
use raw_quic.Stream.Recv.Limits.{
  FinalAllows, Allowed, passed, limited, contradicted, check_write-Checked,
}

-- What `write` does to the state when the checks pass.
pub record Accepts (buf : RangeBuf) (r : RecvBuf) (o : Result (Unit {0}) × RecvBuf) : Type 0 where
  pub answer : o.0 ≡ ok tt
  pub valid : IsValid o.1
  pub same_read_off : o.1.read_off ≡ r.read_off
  pub same_shut : o.1.shut ≡ r.shut
  pub final : o.1.fin_off ≡ (if buf.fin then some (max_off buf) else r.fin_off)
  pub bytes :
      r.shut ≡ false
      → (x : ℕ) → held o.1.chunks x ≡ or_else (held r.chunks x) (unread r.read_off buf x)

pub is_fin_lem : (r : RecvBuf) → is_fin r ≡ true → r.fin_off ≡ some r.read_off
unfolding is_fin
is_fin_lem r h = elim (Option-cases r.fin_off) [
  | inl e ↦ ground (arith, e, h)
  | inr (off, e) ↦ ground (arith, e, h)
]

-- A frame that ends at the read offset or before it, or that is empty, brings nothing new.
nothing_new :
    (buf : RangeBuf) (r : RecvBuf) (x : ℕ)
    → (max_off buf ≤ r.read_off) ⊎ (len buf ≡ 0)
    → held r.chunks x ≡ or_else (held r.chunks x) (unread r.read_off buf x)
nothing_new buf r x h =
    let e : unread r.read_off buf x ≡ none = ground (arith, byte_at_outside buf x, h) in
    rw e (sym (or_else-none (held r.chunks x)))

-- The state with the final size of a frame.
abbrev with_final : RangeBuf → RecvBuf → RecvBuf
with_final buf r = if buf.fin then record r { fin_off = some (max_off buf) } else r

with_final-IsValid :
    (buf : RangeBuf) (r : RecvBuf) → IsValid r → Allowed buf r → IsValid (with_final buf r)
with_final-IsValid buf r v a = elim (Bool-cases buf.fin) [
  | inl f ↦ rw f (record {
    in_order = v.in_order;
    below = v.below;
    offsets = v.offsets;
    discarded = v.discarded;
    final_above = ground (arith, f, a.at_end);
  })
  | inr f ↦ rw f v
]

FinalAbove-max : (i j : ℕ) (o : Option ℕ) → FinalAbove i o → FinalAbove j o → FinalAbove (max i j) o
FinalAbove-max i j none h k = tt
FinalAbove-max i j (some off) h k = omega arith

-- The outcome of the loop.
record Pieces (buf : RangeBuf) (r : RecvBuf) (o : Result RecvBuf) : Type 0 where
  state : RecvBuf
  result : o ≡ ok state
  valid : IsValid state
  same_read_off : state.read_off ≡ r.read_off
  same_shut : state.shut ≡ r.shut
  same_final : state.fin_off ≡ r.fin_off
  bytes :
      r.shut ≡ false
      → (x : ℕ) → held state.chunks x ≡ or_else (held r.chunks x) (unread r.read_off buf x)

stored-Pieces :
    (buf : RangeBuf) (r : RecvBuf) (o : Result RecvBuf)
    → IsValid r
    → FinalAbove (max_off buf) r.fin_off
    → r.shut ≡ false
    → Written buf r o
    → Pieces buf r o
stored-Pieces buf r o v a s (stored m q i b h) = record {
  state = record r { chunks = m; recv_off = max r.recv_off (max_off buf) };
  result = q;
  valid = record {
    in_order = i;
    below = b;
    offsets = omega (arith, v.offsets);
    discarded = inl s;
    final_above = FinalAbove-max r.recv_off (max_off buf) r.fin_off v.final_above a;
  };
  same_read_off = refl;
  same_shut = refl;
  same_final = refl;
  bytes = λ _. h;
}

-- The pieces are written, whether the stream is shut down or not.
write_pieces-Pieces :
    (buf : RangeBuf) (r : RecvBuf)
    → IsValid r
    → FinalAbove (max_off buf) r.fin_off
    → r.read_off ≤ max_off buf
    → Pieces buf r (write_pieces (suc (len buf)) (buf ∷ []) r)
write_pieces-Pieces buf r v a h = elim (Bool-cases r.shut) [
  | inr s ↦
      stored-Pieces buf r _ v a s
        (write_pieces-Written (len buf) buf r v.in_order v.below s (omega arith) (inr h))
  | inl s ↦
      let e : r.chunks ≡ [] = empty s v.discarded in
      record {
        state = record r { recv_off = max r.recv_off (max_off buf) };
        result = write_pieces_shut (len buf) buf r s e (inr h);
        valid = record {
          in_order = v.in_order;
          below = rw e tt;
          offsets = omega (arith, v.offsets);
          discarded = inr e;
          final_above = FinalAbove-max r.recv_off (max_off buf) r.fin_off v.final_above a;
        };
        same_read_off = refl;
        same_shut = refl;
        same_final = refl;
        bytes = λ o. absurd (cc (s, o));
      }
]
  where
    empty : r.shut ≡ true → (r.shut ≡ false) ⊎ (r.chunks ≡ []) → r.chunks ≡ []
    empty s (inl o) = absurd (cc (s, o))
    empty s (inr e) = e

with_final_allows :
    (buf : RangeBuf) (r : RecvBuf)
    → Allowed buf r
    → FinalAbove (max_off buf) (with_final buf r).fin_off
with_final_allows buf r a = elim (Bool-cases buf.fin) [
  | inl f ↦ rw f (omega arith)
  | inr f ↦ rw f (at_most r.fin_off a.at_final)
]
  where
    at_most : (o : Option ℕ) → FinalAllows buf o → FinalAbove (max_off buf) o
    at_most none h = tt
    at_most (some off) h = h.0

with_final_same :
    (buf : RangeBuf) (r : RecvBuf)
    → ((with_final buf r).chunks ≡ r.chunks)
      × ((with_final buf r).read_off ≡ r.read_off)
      × ((with_final buf r).shut ≡ r.shut)
      × ((with_final buf r).fin_off ≡ (if buf.fin then some (max_off buf) else r.fin_off))
with_final_same buf r = elim (Bool-cases buf.fin) [
  | inl f ↦ rw f (refl, refl, refl, refl)
  | inr f ↦ rw f (refl, refl, refl, refl)
]

-- The paths on which nothing but the final size changes.
unchanged :
    (buf : RangeBuf) (r : RecvBuf)
    → IsValid r
    → Allowed buf r
    → (max_off buf ≤ r.read_off) ⊎ (len buf ≡ 0)
    → Accepts buf r (ok tt, with_final buf r)
unchanged buf r v a h =
    let (c, o, s, f) = with_final_same buf r in
    record {
      answer = refl;
      valid = with_final-IsValid buf r v a;
      same_read_off = o;
      same_shut = s;
      final = f;
      bytes = λ _ x. ap (λ m. held m x) c ∙ nothing_new buf r x h;
    }

finished :
    (buf : RangeBuf) (r : RecvBuf) (o : Result RecvBuf)
    → Pieces buf (with_final buf r) o
    → Accepts buf r (elim o [
      | ok r2 ↦ (ok tt, r2)
      | err e ↦ (err e, with_final buf r)
      | panic ↦ (panic, with_final buf r)
    ])
finished buf r o p =
    let (c, n, s, f) = with_final_same buf r in
    rw p.result (record {
      answer = refl;
      valid = p.valid;
      same_read_off = p.same_read_off ∙ n;
      same_shut = p.same_shut ∙ s;
      final = p.same_final ∙ f;
      bytes = λ h x.
          p.bytes (s ∙ h) x
          ∙ ap (λ m. or_else (held m x) (unread (with_final buf r).read_off buf x)) c
          ∙ ap (λ k. or_else (held r.chunks x) (unread k buf x)) n;
    })

-- A stream that was read to its end stays as it is.
at_its_end :
    (buf : RangeBuf) (r : RecvBuf)
    → IsValid r
    → Allowed buf r
    → r.fin_off ≡ some r.read_off
    → Accepts buf r (ok tt, r)
at_its_end buf r v a e =
    let h : FinalAllows buf (some r.read_off) = subst (FinalAllows buf) e a.at_final in
    record {
      answer = refl;
      valid = v;
      same_read_off = refl;
      same_shut = refl;
      final = e ∙ ground (arith, h, e);
      bytes = λ _ x. nothing_new buf r x (inl h.0);
    }

write_checked-Accepts :
    (buf : RangeBuf) (r : RecvBuf) → IsValid r → Allowed buf r → Accepts buf r (write_checked buf r)
unfolding write_checked is_empty
write_checked-Accepts buf r v a = elim (Bool-cases (is_fin r)) [
  | inl c ↦ rw c (at_its_end buf r v a (is_fin_lem r c))
  | inr c ↦ elim (Bool-cases (not buf.fin && is_empty buf)) [
    | inl d ↦ rw (c, d) (unchanged buf r v a (inr (ground (arith, d))))
    | inr d ↦ elim (Bool-cases (leb (max_off buf) r.read_off && not (is_empty buf))) [
      | inl e ↦ rw (c, d, e) (unchanged buf r v a (inl (ground (arith, e))))
      | inr e ↦
          let h : r.read_off ≤ max_off buf = ground (arith, d, e, a.at_end, v.offsets) in
          let (_, n, _, _) = with_final_same buf r in
          rw (c, d, e)
            (finished buf r _ (
              write_pieces-Pieces buf (with_final buf r) (with_final-IsValid buf r v a)
                (with_final_allows buf r a) (omega (arith, n, h))))
    ]
  ]
]

pub write-Accepts :
    (offset : ℕ) (bytes : List ℕ) (fin : Bool) (r : RecvBuf)
    → IsValid r
    → Allowed (RangeBuf.new bytes offset fin) r
    → Accepts (RangeBuf.new bytes offset fin) r (write offset bytes fin r)
unfolding write
write-Accepts offset bytes fin r v a =
    let buf = RangeBuf.new bytes offset fin in
    elim (check_write-Checked buf r) [
      | passed e _ ↦ rw (e, write) (write_checked-Accepts buf r v a)
      | limited _ h ↦ absurd (omega (arith, a.within, h))
      | contradicted _ _ n ↦ absurd (n a)
    ]

-- In a valid state, a frame that ends beyond the flow control limit is refused with
-- FLOW_CONTROL_ERROR; one that the limit admits but that contradicts the final size of the stream,
-- with FINAL_SIZE_ERROR. In both cases the state stays as it was.
pub write_refused :
    (offset : ℕ) (bytes : List ℕ) (fin : Bool) (r : RecvBuf)
    → IsValid r
    → ¬ Allowed (RangeBuf.new bytes offset fin) r
    → write offset bytes fin r ≡ (
      (if ltb r.flow_control.max_data (offset + length bytes)
          then err flow_control_error
          else err final_size_error),
      r,
    )
unfolding write
write_refused offset bytes fin r v n =
    elim (check_write-Checked (RangeBuf.new bytes offset fin) r) [
      | passed _ a ↦ absurd (n a)
      | limited e h ↦ rw (e, write) (ground (arith, h))
      | contradicted e h _ ↦ rw (e, write) (ground (arith, h))
    ]

-- In a valid state, `write` comes to an end and accepts a frame, instead of a panic or an error, if
-- and only if the frame is within the flow control limit and does not contradict the final size.
pub write_accepts :
    (offset : ℕ) (bytes : List ℕ) (fin : Bool) (r : RecvBuf)
    → IsValid r
    → ((write offset bytes fin r).0 ≡ ok tt) ↔ Allowed (RangeBuf.new bytes offset fin) r
unfolding write
write_accepts offset bytes fin r v = (
  λ e. elim (check_write-Checked (RangeBuf.new bytes offset fin) r) [
    | passed _ a ↦ a
    | limited p h ↦
        let q : (write offset bytes fin r).0 ≡ err flow_control_error = rw (p, write) refl in
        absurd (cc (q, e))
    | contradicted p h n ↦
        let q : (write offset bytes fin r).0 ≡ err final_size_error = rw (p, write) refl in
        absurd (cc (q, e))
  ],
  λ a. (write-Accepts offset bytes fin r v a).answer,
)

-- In a valid state of a stream that is not shut down, `write` of a frame within the limits leaves a
-- valid state with the same read offset. It holds the bytes that were held before, and, at the offsets
-- from the read offset on where none was held, those of the frame; the end of a frame with FIN is the
-- final size from then on.
pub write_adds :
    (offset : ℕ) (bytes : List ℕ) (fin : Bool) (r : RecvBuf)
    → IsValid r
    → r.shut ≡ false
    → Allowed (RangeBuf.new bytes offset fin) r
    → IsValid (write offset bytes fin r).1
      × ((write offset bytes fin r).1.read_off ≡ r.read_off)
      × ((x : ℕ)
          → held (write offset bytes fin r).1.chunks x
            ≡ or_else (held r.chunks x) (unread r.read_off (RangeBuf.new bytes offset fin) x))
      × ((write offset bytes fin r).1.fin_off
          ≡ (if fin then some (offset + length bytes) else r.fin_off))
write_adds offset bytes fin r v s a =
    let w = write-Accepts offset bytes fin r v a in (w.valid, w.same_read_off, w.bytes s, w.final)
