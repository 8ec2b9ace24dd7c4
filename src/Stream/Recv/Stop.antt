-- ===== src/Stream/Recv/Stop.antt =====
-- `RecvBuf::reset` and `RecvBuf::shutdown` discard what is held and end at the last byte.
use raw_quic.Prelude.{
  Bool, Bool-cases, List, Option, Option-cases, [], ap, arith, false, inl, inr, leb, ltb, none,
  refl, some, sub64, true, ℕ, ◌+◌, ◌-◌, ◌<◌, ◌∙◌, ◌∷◌, ◌≡◌, ◌≢◌, ◌≤◌, ◌⊎◌,
}
use mathlib.Core.Path.{subst}
use raw_quic.Error.{Error, Result, ok, err, done, final_size_error, flow_control_error}
use raw_quic.Stream.RangeBuf
use raw_quic.Stream.RangeBuf.{RangeBuf, is_empty}
use raw_quic.Stream.Recv.{
  RecvBuf, write, write_checked, reset_first, reset_end, reset, final_changes, shutdown, store,
  write_pieces, is_fin, insert_chunk, read,
}
use raw_quic.Stream.Recv.Chunks.{held}
use raw_quic.Stream.Recv.Limits.{FinalAllows, passed, limited, contradicted, check_write-Checked}
use raw_quic.Stream.Recv.Write.{
  IsValid, clip, scan_piece_nil, step_kept, done_pieces, store_shut, store_open,
}
use raw_quic.Stream.Recv.Accept.{is_fin_lem}
use raw_quic.Stream.Recv.Read.{waiting, was_reset, delivered, read-Reads}

-- The empty chunk that marks the end, and the state that it leaves.
abbrev end_mark : ℕ → RangeBuf
end_mark n = RangeBuf.new [] n true

abbrev with_end : ℕ → RecvBuf → RecvBuf
with_end n r = record r { fin_off = some (n + 0) }

write_end :
    (n : ℕ) (r : RecvBuf)
    → r.chunks ≡ []
    → r.read_off ≤ n
    → write_pieces 1 (end_mark n ∷ []) (with_end n r) ≡ ok (store (end_mark n) (with_end n r))
write_end n r e h =
    let c : ltb n r.read_off ≡ false = ground (arith, h) in
    step_kept 0 (end_mark n) (clip r.read_off (end_mark n)) [] (with_end n r)
      (scan_piece_nil (end_mark n) (with_end n r) e (inl h))
    ∙ done_pieces 0 (store (clip r.read_off (end_mark n)) (with_end n r))
    ∙ rw c refl

stored_end-IsValid :
    (n : ℕ) (r : RecvBuf)
    → IsValid r
    → r.chunks ≡ []
    → r.recv_off ≤ n
    → IsValid (record (store (end_mark n) (with_end n r)) { read_off = n })
unfolding insert_chunk
stored_end-IsValid n r v e h = elim (Bool-cases r.shut) [
  | inl s ↦ rw (store_shut (end_mark n) (with_end n r) s) (record {
    in_order = rw e tt;
    below = rw e tt;
    offsets = omega arith;
    discarded = inr e;
    final_above = omega arith;
  })
  | inr s ↦ rw (store_open (end_mark n) (with_end n r) s) (record {
    in_order = rw e (omega arith, omega arith, tt);
    below = rw e (omega arith, tt);
    offsets = omega arith;
    discarded = inl s;
    final_above = omega arith;
  })
]

-- `write` of the empty chunk that marks the end, into a state without chunks.
data Marked (n : ℕ) (r : RecvBuf) (o : Result (Unit {0}) × RecvBuf) : Type 0 where
  refused : (r.flow_control.max_data < n) → o ≡ (err flow_control_error, r) → Marked n r o
  marked :
      (r2 : RecvBuf)
      → o ≡ (ok tt, r2)
      → IsValid (record r2 { read_off = n })
      → r2.error ≡ r.error
      → Marked n r o

store_error : (n : ℕ) (r : RecvBuf) → (store (end_mark n) (with_end n r)).error ≡ r.error
unfolding store
store_error n r = elim (Bool-cases r.shut) [ inl s ↦ rw s refl | inr s ↦ rw s refl ]

marker :
    (n : ℕ) (r : RecvBuf)
    → IsValid r
    → r.chunks ≡ []
    → r.recv_off ≤ n
    → (r.fin_off ≡ none) ⊎ (r.fin_off ≡ some n)
    → Marked n r (write n [] true r)
unfolding write write_checked is_empty
marker n r v e h f = elim (check_write-Checked (RangeBuf.new [] n true) r) [
  | limited p l ↦ rw (p, write) (refused (omega (arith, l)) refl)
  | contradicted p l k ↦
      absurd
        (k (record { within = l; at_end = inr (omega arith); at_final = at_final r.fin_off f }))
  | passed p a ↦
      let q = write_end n r e (omega (arith, v.offsets, h)) in
      elim (Bool-cases (is_fin r)) [
        | inl c ↦
            rw (p, write, c)
              (marked r refl
                (subst (λ k. IsValid (record r { read_off = k })) (same f (is_fin_lem r c)) v) refl)
        | inr c ↦ elim (Bool-cases (leb (n + 0) r.read_off)) [
          | inl d ↦
              rw (p, write, c, d)
                (rw q (
                  marked (store (end_mark n) (with_end n r)) refl (stored_end-IsValid n r v e h)
                    (store_error n r)))
          | inr d ↦
              rw (p, write, c, d)
                (rw q (
                  marked (store (end_mark n) (with_end n r)) refl (stored_end-IsValid n r v e h)
                    (store_error n r)))
        ]
      ]
]
  where
    at_final : (o : Option ℕ) → (o ≡ none) ⊎ (o ≡ some n) → FinalAllows (RangeBuf.new [] n true) o
    at_final none k = tt
    at_final (some off) (inl k) = absurd (cc k)
    at_final (some off) (inr k) = let q : off ≡ n = cc k in (omega arith, inr (omega arith))

    same : (r.fin_off ≡ none) ⊎ (r.fin_off ≡ some n) → r.fin_off ≡ some r.read_off → r.read_off ≡ n
    same (inl k) l = absurd (cc (k, l))
    same (inr k) l = cc (k, l)

-- What a successful `reset` leaves.
data Reset (code n : ℕ) (r : RecvBuf) (o : Result ℕ × RecvBuf) : Type 0 where
  rejected : (e : Error) → o.0 ≡ err e → Reset code n r o
  ended :
      (r2 : RecvBuf) (e : ℕ)
      → o ≡ (ok (n - r.recv_off), r2)
      → r.recv_off ≤ n
      → IsValid r2
      → r2.error ≡ some e
      → Reset code n r o

reset_first-Reset :
    (code n : ℕ) (r : RecvBuf)
    → IsValid r
    → r.recv_off ≤ n
    → (r.fin_off ≡ none) ⊎ (r.fin_off ≡ some n)
    → Reset code n r (reset_first code n r)
unfolding reset_first reset_end
reset_first-Reset code n r v h f =
    elim (marker n (record r { error = some code; chunks = [] })
      (record {
        in_order = tt;
        below = tt;
        offsets = v.offsets;
        discarded = inr refl;
        final_above = v.final_above;
      })
      refl h f) [
        | refused _ e ↦ rw (e, reset_first) (rejected flow_control_error refl)
        | marked r2 e w q ↦ rw (e, reset_first) (ended (record r2 { read_off = n }) code refl h w q)
      ]

reset-Reset : (code n : ℕ) (r : RecvBuf) → IsValid r → Reset code n r (reset code n r)
unfolding reset final_changes
reset-Reset code n r v = elim (Bool-cases (final_changes r.fin_off n)) [
  | inl c ↦ rw c (rejected final_size_error refl)
  | inr c ↦ elim (Bool-cases (ltb n r.recv_off)) [
    | inl d ↦ rw (c, d) (rejected final_size_error refl)
    | inr d ↦
        let h : r.recv_off ≤ n = ground (arith, d) in
        elim (Option-cases r.error) [
          | inl e ↦ simp (c, d, e) (reset_first-Reset code n r v h (not_changed r.fin_off c))
          | inr (code1, e) ↦ rw (c, d, e) (ended r code1 refl h v e)
        ]
  ]
]
  where
    not_changed : (o : Option ℕ) → final_changes o n ≡ false → (o ≡ none) ⊎ (o ≡ some n)
    not_changed none c = inl refl
    not_changed (some off) c = let e : off ≡ n = ground (arith, c) in inr (ap some e)

-- In a valid state, a successful `reset` at a final size answers with the number of bytes that the
-- stream grows by up to there, leaves a valid state, and no later `read` from it returns bytes.
pub reset_stops :
    (code n d : ℕ) (r : RecvBuf)
    → IsValid r
    → (reset code n r).0 ≡ ok d
    → (r.recv_off + d ≡ n)
      × IsValid (reset code n r).1
      × ((room : ℕ) (bytes : List ℕ) (fin : Bool)
          → (read room (reset code n r).1).0 ≢ ok (bytes, fin))
reset_stops code n d r v h = elim (reset-Reset code n r v) [
  | rejected e q ↦ absurd (cc (q, h))
  | ended r2 e q l w p ↦
      let k : n - r.recv_off ≡ d = cc (q, h) in
      rw q (
        omega arith,
        w,
        λ room bytes fin c. elim (read-Reads room r2 w) [
          | waiting a _ ↦ cc (a, c)
          | was_reset _ _ a ↦ cc (a, c)
          | delivered _ _ _ a _ _ _ ↦ cc (a, p)
        ],
      )
]

-- In a valid state, the first `shutdown` answers with the number of bytes that were received and not
-- read, holds none of them and leaves a valid state, and a later one is refused and changes nothing.
pub shutdown_discards :
    (r : RecvBuf)
    → IsValid r
    → r.shut ≡ false
    → ((shutdown r).0 ≡ ok (sub64 r.recv_off r.read_off))
      × IsValid (shutdown r).1
      × ((x : ℕ) → held (shutdown r).1.chunks x ≡ none)
      × (shutdown (shutdown r).1 ≡ (err done, (shutdown r).1))
unfolding shutdown
shutdown_discards r v s = simp s (
  refl,
  record {
    in_order = tt;
    below = tt;
    offsets = omega arith;
    discarded = inr refl;
    final_above = v.final_above;
  },
  λ x. unfold held in refl,
  refl,
)
