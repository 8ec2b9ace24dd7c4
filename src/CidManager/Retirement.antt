-- ===== src/CidManager/Retirement.antt =====
-- RETIRE_CONNECTION_ID frames.
use raw_quic.Prelude.{
  Bool-cases, Option, Option-cases, arith, false, if◌then◌else◌, inl, inr, leb, length, none, refl,
  some, ℕ, ◌&&◌, ◌<◌, ◌==◌, ◌≡◌, ◌≢◌, ◌⊎◌,
}
use raw_quic.Error.{Error, Result, ok, err, panic, internal_error, protocol_violation}
use raw_quic.Cid.{ConnectionId}
use raw_quic.CidManager.{ConnectionIdMgr, retire_scid, removed_scid, retired_scid, cid_eq}
use raw_quic.CidManager.Deque
use raw_quic.CidManager.Deque.{ConnectionIdItem, find_seq, delete_seq}
use raw_quic.CidManager.Sources.{
  IsValid, delete_seq-Rising, length-delete_seq, delete_seq_missing, find_seq-delete_seq,
  lowest_active-cases, at_prior-IsValid,
}

-- A state from which an identifier was removed, if another is left.
removed-IsValid :
    (seq : ℕ) (m : ConnectionIdMgr)
    → IsValid m
    → IsValid (record m { scids = (Deque.remove seq m.scids).1 })
unfolding Deque.remove
removed-IsValid seq m v =
    elim (Bool-cases (length m.scids.queue == 1 && Deque.is_some (find_seq seq m.scids.queue))) [
      | inl b ↦ simp (b, nonempty) v
      | inr b ↦
          simp (b, nonempty)
            (record {
              rising = delete_seq-Rising 0 m.next_scid_seq seq m.scids.queue v.rising;
              some_left = left b;
              bounded = omega (arith, length-delete_seq seq m.scids.queue, v.bounded);
              next_varint = v.next_varint;
            })
    ]
  where
    nonempty : (length m.scids.queue == 0) ≡ false
    nonempty = ground (arith, v.some_left)

    left :
        (length m.scids.queue == 1 && Deque.is_some (find_seq seq m.scids.queue)) ≡ false
        → 0 < length (delete_seq seq m.scids.queue)
    left b = elim (Option-cases (find_seq seq m.scids.queue)) [
      | inl n ↦ rw (delete_seq_missing seq m.scids.queue n) v.some_left
      | inr (c, n) ↦ ground (arith, b, n, length-delete_seq seq m.scids.queue)
    ]

retired_scid-IsValid :
    (e : ConnectionIdItem) (pkt_dcid : ConnectionId) (m : ConnectionIdMgr)
    → IsValid m
    → IsValid (retired_scid e pkt_dcid m).1 × ((retired_scid e pkt_dcid m).1.scids ≡ m.scids)
unfolding retired_scid
retired_scid-IsValid e pkt_dcid m v = elim (Bool-cases (cid_eq e.cid pkt_dcid)) [
  | inl b ↦ simp b (v, refl)
  | inr b ↦ elim (lowest_active-cases m) [
    | inl n ↦ simp (b, n) (v, refl)
    | inr (k, n) ↦ simp (b, n) (at_prior-IsValid k m v, refl)
  ]
]

removed_scid-IsValid :
    (r : Result (Option ConnectionIdItem)) (pkt_dcid : ConnectionId) (m : ConnectionIdMgr)
    → IsValid m
    → IsValid (removed_scid r pkt_dcid m).1 × ((removed_scid r pkt_dcid m).1.scids ≡ m.scids)
unfolding removed_scid
removed_scid-IsValid (ok none) pkt_dcid m v = (v, refl)
removed_scid-IsValid (ok (some e)) pkt_dcid m v = retired_scid-IsValid e pkt_dcid m v
removed_scid-IsValid (err e) pkt_dcid m v = (v, refl)
removed_scid-IsValid panic pkt_dcid m v = (v, refl)

-- Retiring an identifier keeps the invariant, also where it fails: in particular one is always left.
pub retire_scid-IsValid :
    (seq : ℕ) (pkt_dcid : ConnectionId) (m : ConnectionIdMgr)
    → IsValid m
    → IsValid (retire_scid seq pkt_dcid m).1
unfolding retire_scid
retire_scid-IsValid seq pkt_dcid m v = elim (Bool-cases (leb m.next_scid_seq seq)) [
  | inl b ↦ simp b v
  | inr b ↦
      simp b
        (removed_scid-IsValid (Deque.remove seq m.scids).0 pkt_dcid
          (record m { scids = (Deque.remove seq m.scids).1 }) (removed-IsValid seq m v)).0
]

removed_scid_err :
    (e : Error) (pkt_dcid : ConnectionId) (m : ConnectionIdMgr) (path : Option ℕ)
    → (removed_scid (err e) pkt_dcid m).0 ≢ ok path
unfolding removed_scid
removed_scid_err e pkt_dcid m path h = cc

remove-queue :
    (seq : ℕ) (m : ConnectionIdMgr)
    → ((e : Error) × ((Deque.remove seq m.scids).0 ≡ err e))
      ⊎ ((Deque.remove seq m.scids).1.queue ≡ delete_seq seq m.scids.queue)
unfolding Deque.remove
remove-queue seq m = elim (Bool-cases (length m.scids.queue == 0)) [
  | inl a ↦ inl (internal_error, rw a)
  | inr a ↦
      elim (Bool-cases (length m.scids.queue == 1 && Deque.is_some (find_seq seq m.scids.queue))) [
        | inl b ↦ inl (internal_error, rw (a, b))
        | inr b ↦ inr (rw (a, b))
      ]
]

-- When a RETIRE_CONNECTION_ID frame succeeds in a valid state, its number is in use no more, and every other number is
-- in use as before.
pub retire_scid-answer :
    (seq other : ℕ) (pkt_dcid : ConnectionId) (path : Option ℕ) (m : ConnectionIdMgr)
    → IsValid m
    → (retire_scid seq pkt_dcid m).0 ≡ ok path
    → find_seq other (retire_scid seq pkt_dcid m).1.scids.queue
      ≡ (if seq == other then none else find_seq other m.scids.queue)
unfolding retire_scid
retire_scid-answer seq other pkt_dcid path m v e = elim (Bool-cases (leb m.next_scid_seq seq)) [
  | inl b ↦ absurd (violation (simp b at e))
  | inr b ↦
      let left = record m { scids = (Deque.remove seq m.scids).1 } in
      let kept =
        (removed_scid-IsValid (Deque.remove seq m.scids).0 pkt_dcid left
          (removed-IsValid seq m v)).1 in
      elim (remove-queue seq m) [
        | inl (x, q) ↦ absurd (removed_scid_err x pkt_dcid left path (simp (b, q) at e))
        | inr q ↦
            simp (b, kept, q)
              (find_seq-delete_seq 0 m.next_scid_seq seq other m.scids.queue v.rising)
      ]
]
  where
    violation : ◌≢◌ {A = Result (Option ℕ)} (err protocol_violation) (ok path)
    violation h = cc
