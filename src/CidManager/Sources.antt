-- ===== src/CidManager/Sources.antt =====
-- The identifiers that this endpoint issued.
use raw_quic.Prelude.{
  Bool, Bool-cases, List, Option, Option-cases, [], add64, ap, arith, if◌then◌else◌, inl, inr, leb,
  length, length-append, none, not, refl, some, suc, sym, ℕ, ◌&&◌, ◌++◌, ◌+◌, ◌-◌, ◌<◌, ◌==◌, ◌^◌,
  ◌∷◌, ◌≡◌, ◌≤◌, ◌⊎◌,
}
use raw_quic.Error.{Error, Result, ok, err, internal_error, connection_id_limit_error}
use raw_quic.Cid.{ConnectionId}
use raw_quic.CidManager.{
  ConnectionIdMgr, add_scid_item, add_scid, mark_scid_to_advertise, lowest_active_scid_seq, least,
  active_seqs,
}
use raw_quic.CidManager.Deque
use raw_quic.CidManager.Deque.{ConnectionIdItem, find_seq, delete_seq}

-- Sequence numbers from `lo` on, each larger than the one before, and all below `hi`.
abbrev pub Rising : ℕ → ℕ → List ConnectionIdItem → Type 0
Rising lo hi [] = Unit {0}
Rising lo hi (c ∷ cs) = (lo ≤ c.seq) × (c.seq < hi) × Rising (suc c.seq) hi cs

-- The identifiers in use have rising sequence numbers below the next one, there is at least one, and
-- no more than the queue may hold.
pub record IsValid (m : ConnectionIdMgr) : Type 0 where
  pub rising : Rising 0 m.next_scid_seq m.scids.queue
  pub some_left : 0 < length m.scids.queue
  pub bounded : length m.scids.queue ≤ m.scids.capacity
  pub next_varint : m.next_scid_seq < 2 ^ 62

Rising-append :
    (lo hi : ℕ) (cs : List ConnectionIdItem) (c : ConnectionIdItem)
    → Rising lo hi cs
    → lo ≤ hi
    → c.seq ≡ hi
    → Rising lo (hi + 1) (cs ++ (c ∷ []))
Rising-append lo hi [] c h k e = omega arith
Rising-append lo hi (d ∷ cs) c h k e =
    (h.0, omega (arith, h.1), Rising-append (suc d.seq) hi cs c h.2 (omega (arith, h.1)) e)

Rising-le : (i j hi : ℕ) (cs : List ConnectionIdItem) → i ≤ j → Rising j hi cs → Rising i hi cs
Rising-le i j hi [] h k = tt
Rising-le i j hi (c ∷ cs) h k = (omega (arith, h, k.0), k.1, k.2)

pub delete_seq-Rising :
    (lo hi seq : ℕ) (cs : List ConnectionIdItem)
    → Rising lo hi cs
    → Rising lo hi (delete_seq seq cs)
unfolding delete_seq
delete_seq-Rising lo hi seq [] h = tt
delete_seq-Rising lo hi seq (c ∷ cs) h =
    ground (arith, h, delete_seq-Rising (suc c.seq) hi seq cs h.2, Rising-le lo (suc c.seq) hi cs)

pub length-delete_seq :
    (seq : ℕ) (cs : List ConnectionIdItem)
    → (length (delete_seq seq cs) ≤ length cs) × (length cs ≤ suc (length (delete_seq seq cs)))
unfolding delete_seq
length-delete_seq seq [] = omega arith
length-delete_seq seq (c ∷ cs) = ground (arith, length-delete_seq seq cs)

pub delete_seq_missing :
    (seq : ℕ) (cs : List ConnectionIdItem) → find_seq seq cs ≡ none → delete_seq seq cs ≡ cs
unfolding delete_seq find_seq
delete_seq_missing seq [] h = refl
delete_seq_missing seq (c ∷ cs) h = ground (arith, delete_seq_missing seq cs)

-- Numbers below all of the queue are not in it.
find_seq_below :
    (lo hi seq : ℕ) (cs : List ConnectionIdItem)
    → Rising lo hi cs
    → seq < lo
    → find_seq seq cs ≡ none
unfolding find_seq
find_seq_below lo hi seq [] h k = refl
find_seq_below lo hi seq (c ∷ cs) h k = ground (arith, h, find_seq_below (suc c.seq) hi seq cs)

find_seq_above :
    (lo hi seq : ℕ) (cs : List ConnectionIdItem)
    → Rising lo hi cs
    → hi ≤ seq
    → find_seq seq cs ≡ none
unfolding find_seq
find_seq_above lo hi seq [] h k = refl
find_seq_above lo hi seq (c ∷ cs) h k = ground (arith, h, find_seq_above (suc c.seq) hi seq cs)

-- After a number is deleted it is not found, and all others are found as before.
pub find_seq-delete_seq :
    (lo hi seq other : ℕ) (cs : List ConnectionIdItem)
    → Rising lo hi cs
    → find_seq other (delete_seq seq cs) ≡ (if seq == other then none else find_seq other cs)
unfolding find_seq delete_seq
find_seq-delete_seq lo hi seq other [] h = ground arith
find_seq-delete_seq lo hi seq other (c ∷ cs) h = ground (
  arith,
  find_seq-delete_seq (suc c.seq) hi seq other cs h.2,
  find_seq_below (suc c.seq) hi other cs h.2,
)

find_seq-append :
    (seq : ℕ) (cs : List ConnectionIdItem) (c : ConnectionIdItem)
    → find_seq seq cs ≡ none
    → c.seq ≡ seq
    → find_seq seq (cs ++ (c ∷ [])) ≡ some c
unfolding find_seq
find_seq-append seq [] c h e = ground (arith, e)
find_seq-append seq (d ∷ cs) c h e = ground (arith, h, find_seq-append seq cs c)

-- The item that `add_scid` inserts.
abbrev pub issued : ConnectionId → Option ℕ → Option ℕ → ConnectionIdMgr → ConnectionIdItem
issued cid token path m = record {
  cid = cid;
  seq = m.next_scid_seq;
  reset_token = token;
  path_id = path;
}

-- The state after an identifier was issued.
abbrev added : ConnectionId → Option ℕ → Bool → Option ℕ → ConnectionIdMgr → ConnectionIdMgr
added cid token adv path m = mark_scid_to_advertise m.next_scid_seq adv (record m {
  scids = record m.scids { queue = m.scids.queue ++ (issued cid token path m ∷ []) };
  next_scid_seq = m.next_scid_seq + 1;
})

-- It fails and changes nothing, or issues an identifier if there is room.
add_scid_item-cases :
    (cid : ConnectionId) (token : Option ℕ) (adv : Bool) (path : Option ℕ) (m : ConnectionIdMgr)
    → IsValid m
    → ((e : Error) × (add_scid_item cid token adv path m ≡ (err e, m)))
      ⊎ ((length m.scids.queue < m.scids.capacity)
          × (add_scid_item cid token adv path m ≡ (ok m.next_scid_seq, added cid token adv path m)))
unfolding add_scid_item Deque.insert
add_scid_item-cases cid token adv path m v =
    elim (Bool-cases (not (m.next_scid_seq == 0) && not (Deque.is_some token))) [
      | inl b ↦ inl (internal_error, rw b)
      | inr b ↦ elim (Bool-cases (length m.scids.queue == m.scids.capacity)) [
        | inl c ↦ inl (connection_id_limit_error, rw (b, c))
        | inr c ↦ inr (ground (arith, c, v.bounded), simp (b, c, next))
      ]
    ]
  where
    next : add64 m.next_scid_seq 1 ≡ m.next_scid_seq + 1
    next = omega (arith, v.next_varint)

added-IsValid :
    (cid : ConnectionId) (token : Option ℕ) (adv : Bool) (path : Option ℕ) (m : ConnectionIdMgr)
    → IsValid m
    → m.next_scid_seq < 2 ^ 62 - 1
    → length m.scids.queue < m.scids.capacity
    → IsValid (added cid token adv path m)
unfolding mark_scid_to_advertise
added-IsValid cid token adv path m v n r = record {
  rising =
      Rising-append 0 m.next_scid_seq m.scids.queue (issued cid token path m) v.rising (omega arith)
        refl;
  some_left = omega (arith, length-append m.scids.queue (issued cid token path m ∷ []));
  bounded = omega (arith, length-append m.scids.queue (issued cid token path m ∷ []));
  next_varint = omega arith;
}

abbrev pub at_prior : ℕ → ConnectionIdMgr → ConnectionIdMgr
at_prior k m = record m { retire_prior_to = k }

pub at_prior-IsValid : (k : ℕ) (m : ConnectionIdMgr) → IsValid m → IsValid (at_prior k m)
at_prior-IsValid k m v = record {
  rising = v.rising;
  some_left = v.some_left;
  bounded = v.bounded;
  next_varint = v.next_varint;
}

pub lowest_active-cases :
    (m : ConnectionIdMgr)
    → (lowest_active_scid_seq m ≡ err internal_error)
      ⊎ ((k : ℕ) × (lowest_active_scid_seq m ≡ ok k))
unfolding lowest_active_scid_seq
lowest_active-cases m = elim (Option-cases (least (active_seqs m.retire_prior_to m.scids.queue))) [
  | inl n ↦ inl (rw n)
  | inr (k, n) ↦ inr (k, rw n)
]

-- `add_scid` fails, with at most "Retire Prior To" changed, or issues an identifier.
data Added (m : ConnectionIdMgr) (cid : ConnectionId) (token : Option ℕ) (adv : Bool)
    (path : Option ℕ) (r : Result ℕ × ConnectionIdMgr) : Type 0 where
  refused : (e : Error) (k : ℕ) → r ≡ (err e, at_prior k m) → Added m cid token adv path r
  accepted :
      (k : ℕ)
      → length m.scids.queue < m.scids.capacity
      → r ≡ (ok m.next_scid_seq, added cid token adv path (at_prior k m))
      → Added m cid token adv path r

item-Added :
    (cid : ConnectionId) (token : Option ℕ) (adv : Bool) (path : Option ℕ) (k : ℕ)
    (m : ConnectionIdMgr)
    → IsValid m
    → Added m cid token adv path (add_scid_item cid token adv path (at_prior k m))
item-Added cid token adv path k m v =
    elim (add_scid_item-cases cid token adv path (at_prior k m) (at_prior-IsValid k m v)) [
      | inl (e, q) ↦ refused e k q
      | inr (r, q) ↦ accepted k r q
    ]

add_scid-Added :
    (cid : ConnectionId) (token : Option ℕ) (adv : Bool) (path : Option ℕ) (retire : Bool)
    (m : ConnectionIdMgr)
    → IsValid m
    → Added m cid token adv path (add_scid cid token adv path retire m)
unfolding add_scid
add_scid-Added cid token adv path retire m v = elim (Bool-cases m.zero_length_scid) [
  | inl z ↦ refused internal_error m.retire_prior_to (ground (arith, z))
  | inr z ↦ elim (Bool-cases (leb m.scid_limit (length m.scids.queue))) [
    | inr l ↦
        let q : add_scid cid token adv path retire m
            ≡ add_scid_item cid token adv path (at_prior m.retire_prior_to m) =
          ground (arith, z, l) in
        rw q (item-Added cid token adv path m.retire_prior_to m v)
    | inl l ↦ elim (Bool-cases retire) [
      | inr t ↦ refused connection_id_limit_error m.retire_prior_to (ground (arith, z, l, t))
      | inl t ↦ elim (lowest_active-cases m) [
        | inl n ↦ refused internal_error m.retire_prior_to (ground (arith, z, l, t, n))
        | inr (k, n) ↦
            let q : add_scid cid token adv path retire m
                ≡ add_scid_item cid token adv path (at_prior (add64 k 1) m) =
              ground (arith, z, l, t, n) in
            rw q (item-Added cid token adv path (add64 k 1) m v)
      ]
    ]
  ]
]

-- Issuing an identifier keeps the numbers in use rising and below the next one, and the queue within
-- its capacity, also where it fails, as long as numbers are left.
pub add_scid-IsValid :
    (cid : ConnectionId) (token : Option ℕ) (adv : Bool) (path : Option ℕ) (retire : Bool)
    (m : ConnectionIdMgr)
    → IsValid m
    → m.next_scid_seq < 2 ^ 62 - 1
    → IsValid (add_scid cid token adv path retire m).1
add_scid-IsValid cid token adv path retire m v n =
    elim (add_scid-Added cid token adv path retire m v) [
      | refused e k q ↦ rw q (at_prior-IsValid k m v)
      | accepted k r q ↦
          rw q (added-IsValid cid token adv path (at_prior k m) (at_prior-IsValid k m v) n r)
    ]

-- After an identifier was issued in a valid state, it is found under the number returned, which was
-- not in use, and one more identifier is in use.
pub add_scid-answer :
    (cid : ConnectionId) (token path : Option ℕ) (adv retire : Bool) (seq : ℕ) (m : ConnectionIdMgr)
    → IsValid m
    → (add_scid cid token adv path retire m).0 ≡ ok seq
    → (find_seq seq m.scids.queue ≡ none)
      × (find_seq seq (add_scid cid token adv path retire m).1.scids.queue
          ≡ some (issued cid token path m))
      × (length (add_scid cid token adv path retire m).1.scids.queue ≡ suc (length m.scids.queue))
unfolding mark_scid_to_advertise
add_scid-answer cid token path adv retire seq m v e =
    elim (add_scid-Added cid token adv path retire m v) [
      | refused x k q ↦ absurd (ground (arith, e, ap fst q))
      | accepted k r q ↦
          let same : m.next_scid_seq ≡ seq = ground (arith, e, ap fst q) in
          let fresh =
            find_seq_above 0 m.next_scid_seq m.next_scid_seq m.scids.queue v.rising (omega arith) in
          rw (q, sym same)
            (
              fresh,
              find_seq-append m.next_scid_seq m.scids.queue (issued cid token path m) fresh refl,
              omega (arith, length-append m.scids.queue (issued cid token path m ∷ [])),
            )
    ]
  where
    fst : Result ℕ × ConnectionIdMgr → Result ℕ
    fst p = p.0
