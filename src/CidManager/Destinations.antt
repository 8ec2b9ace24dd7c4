-- ===== src/CidManager/Destinations.antt =====
-- The identifiers that the peer issued, as NEW_CONNECTION_ID frames change them.
use raw_quic.Prelude.{
  All, Bool-cases, List, [], append-nil, arith, false, inl, inr, leb, leb→le, length, le→ltb,
  lt→ltb, max, none, refl, some, ℕ, ◌%◌, ◌*◌, ◌++◌, ◌<◌, ◌^◌, ◌∙◌, ◌∷◌, ◌≡◌, ◌≤◌,
}
use raw_quic.Error.{ok}
use raw_quic.Cid.{ConnectionId}
use raw_quic.CidManager.{
  ConnectionIdMgr, find_issued, seqs, retired_paths, insert_dcid, add_new_dcid, add_dcid,
  check_dcids_to_retire, retire_dcids,
}
use raw_quic.CidManager.Deque
use raw_quic.CidManager.Deque.{ConnectionIdItem, at_least, lower}

-- Every identifier in use is one that the peer has not asked to retire.
abbrev pub AllFrom : ℕ → List ConnectionIdItem → Type 0
AllFrom n cs = All (λ (c : ConnectionIdItem). n ≤ c.seq) cs

abbrev pub AreActive : ConnectionIdMgr → Type 0
AreActive m = AllFrom m.largest_peer_retire_prior_to m.dcids.queue

at_least-AllFrom : (n : ℕ) (cs : List ConnectionIdItem) → AllFrom n (at_least n cs)
unfolding at_least
at_least-AllFrom n [] = tt
at_least-AllFrom n (c ∷ cs) = ground (arith, at_least-AllFrom n cs)

at_least_all : (n : ℕ) (cs : List ConnectionIdItem) → AllFrom n cs → at_least n cs ≡ cs
unfolding at_least
at_least_all n [] h = refl
at_least_all n (c ∷ cs) h = rw (at_least_all n cs h.1) (ground (arith, h.0))

lower_none : (n : ℕ) (cs : List ConnectionIdItem) → AllFrom n cs → lower n cs ≡ []
unfolding lower
lower_none n [] h = refl
lower_none n (c ∷ cs) h = rw (lower_none n cs h.1) (ground (arith, h.0))

AllFrom-append :
    (n : ℕ) (cs : List ConnectionIdItem) (c : ConnectionIdItem)
    → AllFrom n cs
    → n ≤ c.seq
    → AllFrom n (cs ++ (c ∷ []))
AllFrom-append n [] c h k = (k, tt)
AllFrom-append n (d ∷ cs) c h k = (h.0, AllFrom-append n cs c h.1 k)

AllFrom-le : (i j : ℕ) (cs : List ConnectionIdItem) → i ≤ j → AllFrom j cs → AllFrom i cs
AllFrom-le i j [] h k = tt
AllFrom-le i j (c ∷ cs) h k = (omega (arith, h, k.0), AllFrom-le i j cs h k.1)

-- The item that `add_dcid` inserts.
abbrev pub new_item : ConnectionId → ℕ → ℕ → ConnectionIdItem
new_item cid seq reset_token = record {
  cid = cid;
  seq = seq;
  reset_token = some reset_token;
  path_id = none;
}

not_issued :
    (cid : ConnectionId) (seq token prior : ℕ) (m : ConnectionIdMgr)
    → m.zero_length_dcid ≡ false
    → find_issued cid seq m.dcids.queue ≡ none
    → prior ≤ seq
    → add_dcid cid seq token prior m ≡ add_new_dcid (new_item cid seq token) prior m
unfolding add_dcid
not_issued cid seq token prior m z f p = simp (z, f, le→ltb seq prior p)

-- The state after a new identifier was accepted.
abbrev pub accepted : ConnectionIdItem → ℕ → ConnectionIdMgr → ConnectionIdMgr
accepted item prior m = record m {
  dcids = record m.dcids { queue = at_least prior m.dcids.queue ++ (item ∷ []) };
  dcids_to_retire = m.dcids_to_retire ++ seqs (lower prior m.dcids.queue);
  largest_peer_retire_prior_to = max m.largest_peer_retire_prior_to prior;
}

insert_dcid_room :
    (item : ConnectionIdItem) (paths : List (ℕ × ℕ)) (m : ConnectionIdMgr)
    → length m.dcids.queue < m.dcids.capacity
    → insert_dcid item paths m
      ≡ (ok paths, record m { dcids = record m.dcids { queue = m.dcids.queue ++ (item ∷ []) } })
unfolding insert_dcid Deque.insert
insert_dcid_room item paths m h = ground arith

-- A "Retire Prior To" that does not increase: nothing is retired.
add_new_dcid_kept :
    (item : ConnectionIdItem) (prior : ℕ) (m : ConnectionIdMgr)
    → AreActive m
    → prior ≤ m.largest_peer_retire_prior_to
    → m.largest_peer_retire_prior_to ≤ item.seq
    → length (at_least prior m.dcids.queue) < m.dcids.capacity
    → add_new_dcid item prior m
      ≡ (ok (retired_paths (lower prior m.dcids.queue)), accepted item prior m)
unfolding add_new_dcid retired_paths
add_new_dcid_kept item prior m a p l r =
    let all = AllFrom-le prior m.largest_peer_retire_prior_to m.dcids.queue p a in
    let same = at_least_all prior m.dcids.queue all in
    let largest : max m.largest_peer_retire_prior_to prior ≡ m.largest_peer_retire_prior_to =
      omega arith in
    simp (
      le→ltb item.seq m.largest_peer_retire_prior_to l,
      le→ltb m.largest_peer_retire_prior_to prior p,
      insert_dcid_room item [] m (rw⁻¹ same r),
      lower_none prior m.dcids.queue all,
      same,
      append-nil,
      largest,
    )

-- A larger "Retire Prior To".
add_new_dcid_raised :
    (item : ConnectionIdItem) (prior : ℕ) (m : ConnectionIdMgr)
    → m.largest_peer_retire_prior_to < prior
    → m.largest_peer_retire_prior_to ≤ item.seq
    → length (at_least prior m.dcids.queue) < m.dcids.capacity
    → length (m.dcids_to_retire ++ seqs (lower prior m.dcids.queue)) ≤ m.dcid_limit * 4
    → m.dcid_limit * 4 < 2 ^ 64
    → add_new_dcid item prior m
      ≡ (ok (retired_paths (lower prior m.dcids.queue)), accepted item prior m)
unfolding add_new_dcid check_dcids_to_retire retire_dcids Deque.remove_lower
add_new_dcid_raised item prior m p l r w s =
    let largest : max m.largest_peer_retire_prior_to prior ≡ prior = omega arith in
    let few =
      le→ltb (m.dcid_limit * 4 % 2 ^ 64)
        (length (m.dcids_to_retire ++ seqs (lower prior m.dcids.queue))) (omega arith) in
    simp (
      le→ltb item.seq m.largest_peer_retire_prior_to l,
      lt→ltb m.largest_peer_retire_prior_to prior p,
      few,
      insert_dcid_room item (retired_paths (lower prior m.dcids.queue)) (retire_dcids prior m) r,
      largest,
    )

accepted-AreActive :
    (item : ConnectionIdItem) (prior : ℕ) (m : ConnectionIdMgr)
    → AreActive m
    → prior ≤ item.seq
    → m.largest_peer_retire_prior_to ≤ item.seq
    → AreActive (accepted item prior m)
accepted-AreActive item prior m a p l =
    elim (Bool-cases (leb prior m.largest_peer_retire_prior_to)) [
      | inl k ↦
          let le = leb→le prior m.largest_peer_retire_prior_to k in
          let largest : max m.largest_peer_retire_prior_to prior ≡ m.largest_peer_retire_prior_to =
            omega arith in
          rw
            (
              largest,
              at_least_all prior m.dcids.queue
                  (AllFrom-le prior m.largest_peer_retire_prior_to m.dcids.queue le a),
            )
            (AllFrom-append m.largest_peer_retire_prior_to m.dcids.queue item a l)
      | inr k ↦
          let largest : max m.largest_peer_retire_prior_to prior ≡ prior = ground (arith, k) in
          rw largest (
            AllFrom-append prior (at_least prior m.dcids.queue) item
              (at_least-AllFrom prior m.dcids.queue) p)
    ]

-- While every identifier in use has a number from the largest "Retire Prior To" on and identifiers
-- are not empty, a NEW_CONNECTION_ID frame with a new identifier and number, not itself to be retired,
-- is accepted if there is room for it and at most four times the limit wait to be retired: the
-- identifiers below its "Retire Prior To" are queued to be retired and their paths returned, the
-- others stay in use, the new one joins them, and every one in use is again from the largest "Retire
-- Prior To" on.
pub add_dcid_lem :
    (cid : ConnectionId) (seq token prior : ℕ) (m : ConnectionIdMgr)
    → AreActive m
    → m.zero_length_dcid ≡ false
    → find_issued cid seq m.dcids.queue ≡ none
    → prior ≤ seq
    → m.largest_peer_retire_prior_to ≤ seq
    → length (at_least prior m.dcids.queue) < m.dcids.capacity
    → length (m.dcids_to_retire ++ seqs (lower prior m.dcids.queue)) ≤ m.dcid_limit * 4
    → m.dcid_limit * 4 < 2 ^ 64
    → (add_dcid cid seq token prior m ≡ (
      ok (retired_paths (lower prior m.dcids.queue)),
      accepted (new_item cid seq token) prior m,
    ))
      × AreActive (accepted (new_item cid seq token) prior m)
add_dcid_lem cid seq token prior m a z f p l r w s = (
  not_issued cid seq token prior m z f p ∙ spec,
  accepted-AreActive (new_item cid seq token) prior m a p l,
)
  where
    spec : add_new_dcid (new_item cid seq token) prior m ≡ (
      ok (retired_paths (lower prior m.dcids.queue)),
      accepted (new_item cid seq token) prior m,
    )
    spec = elim (Bool-cases (leb prior m.largest_peer_retire_prior_to)) [
      | inl k ↦ add_new_dcid_kept (new_item cid seq token) prior m a (leb→le _ _ k) l r
      | inr k ↦ add_new_dcid_raised (new_item cid seq token) prior m (ground (arith, k)) l r w s
    ]
