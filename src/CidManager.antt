-- ===== src/CidManager.antt =====
-- The connection identifiers of a connection (src/connection/cid.rs). An operation that can fail
-- returns its result and the state that it leaves, also where it fails.
pub mod Deque
pub mod Destinations
pub mod Sources
pub mod Retirement
use raw_quic.Prelude.{
  Bool, List, Option, [], add64, false, if◌then◌else◌, leb, length, ltb, max, member, min, none,
  not, some, sub64, true, ℕ, ◌%◌, ◌&&◌, ◌*◌, ◌++◌, ◌+◌, ◌-◌, ◌==◌, ◌^◌, ◌||◌, ◌∷◌,
}
use raw_quic.Error
use raw_quic.Error.{
  Result, ok, err, panic, internal_error, protocol_violation, connection_id_limit_error,
}
use raw_quic.Codec.Encoder.{be_bytes}
use raw_quic.Cid.{ConnectionId}
use raw_quic.Frame.{Frame}
use raw_quic.CidManager.Deque
use raw_quic.CidManager.Deque.{
  ConnectionIdItem, ConnectionIdDeque, mark_path, is_some, remove_lower, enlarge,
}

abbrev pub max_cids_count : ℕ
max_cids_count = 16

pub record ConnectionIdMgr : Type 0 where
  pub dcids : ConnectionIdDeque
  pub scids : ConnectionIdDeque
  pub dcid_limit : ℕ
  pub scid_limit : ℕ
  pub zero_length_scid : Bool
  pub zero_length_dcid : Bool
  pub next_scid_seq : ℕ
  pub retire_prior_to : ℕ
  pub scids_to_advertise : List ℕ
  pub largest_peer_retire_prior_to : ℕ
  pub dcids_to_retire : List ℕ

-- The derived equality: the length and all the octets.
abbrev pub list_eq : List ℕ → List ℕ → Bool
list_eq [] [] = true
list_eq (x ∷ xs) (y ∷ ys) = (x == y) && list_eq xs ys
list_eq _ _ = false

unfoldable pub cid_eq : ConnectionId → ConnectionId → Bool
cid_eq a b = (a.len == b.len) && list_eq a.octets b.octets

abbrev pub token_eq : Option ℕ → ℕ → Bool
token_eq none t = false
token_eq (some s) t = s == t

unfoldable pub new : ℕ → ConnectionId → ℕ → Option ℕ → ConnectionIdMgr
unfolding Deque.new Deque.insert
new dcid_limit initial_scid initial_path_id reset_token = record {
  dcids = Deque.new (sub64 (dcid_limit * 2 % 2 ^ 64) 1);
  scids =
      (Deque.insert
        (record {
          cid = initial_scid;
          seq = 0;
          reset_token = reset_token;
          path_id = some initial_path_id;
        })
        (Deque.new 3)).1;
  dcid_limit = dcid_limit;
  scid_limit = 2;
  zero_length_scid = initial_scid.len == 0;
  zero_length_dcid = false;
  next_scid_seq = 1;
  retire_prior_to = 0;
  scids_to_advertise = [];
  largest_peer_retire_prior_to = 0;
  dcids_to_retire = [];
}

unfoldable pub set_initial_dcid :
    ConnectionId → Option ℕ → Option ℕ → ConnectionIdMgr → ConnectionIdMgr
unfolding Deque.insert Deque.clear
set_initial_dcid cid reset_token path_id m = record m {
  zero_length_dcid = cid.len == 0;
  dcids =
      (Deque.insert (record { cid = cid; seq = 0; reset_token = reset_token; path_id = path_id })
        (Deque.clear m.dcids)).1;
}

unfoldable pub set_scid_limit : ℕ → ConnectionIdMgr → ConnectionIdMgr
unfolding enlarge
set_scid_limit limit m =
    let l = max (min limit max_cids_count) 2 in
    record m { scid_limit = l; scids = enlarge (2 * l - 1) m.scids }

-- `ok_or(Error::InternalError)`.
abbrev ok_or : {A : Type 0} → Option A → Result A
ok_or none = err internal_error
ok_or (some a) = ok a

unfoldable pub get_scid : ℕ → ConnectionIdMgr → Result ConnectionIdItem
unfolding Deque.get
get_scid seq m = ok_or (Deque.get seq m.scids)

unfoldable pub get_dcid : ℕ → ConnectionIdMgr → Result ConnectionIdItem
unfolding Deque.get
get_dcid seq m = ok_or (Deque.get seq m.dcids)

unfoldable pub find_cid : ConnectionId → List ConnectionIdItem → Option (ℕ × Option ℕ)
unfolding cid_eq
find_cid cid [] = none
find_cid cid (c ∷ cs) = if cid_eq c.cid cid then some (c.seq, c.path_id) else find_cid cid cs

unfoldable pub find_scid : ConnectionId → ConnectionIdMgr → Option (ℕ × Option ℕ)
unfolding find_cid
find_scid scid m = find_cid scid m.scids.queue

unfoldable pub mark_scid_used : ℕ → ℕ → ConnectionIdMgr → Result (Unit {0}) × ConnectionIdMgr
unfolding Deque.get mark_path
mark_scid_used scid_seq path_id m = elim (Deque.get scid_seq m.scids) [
  | none ↦ (err internal_error, m)
  | some _ ↦ (
    ok tt,
    record m { scids = record m.scids { queue = mark_path scid_seq path_id m.scids.queue } },
  )
]

unfoldable pub mark_dcid_used : ℕ → ℕ → ConnectionIdMgr → Result (Unit {0}) × ConnectionIdMgr
unfolding Deque.get mark_path
mark_dcid_used dcid_seq path_id m = elim (Deque.get dcid_seq m.dcids) [
  | none ↦ (err internal_error, m)
  | some _ ↦ (
    ok tt,
    record m { dcids = record m.dcids { queue = mark_path dcid_seq path_id m.dcids.queue } },
  )
]

-- The items with no path.
unfoldable pub count_unused : List ConnectionIdItem → ℕ
count_unused [] = 0
count_unused (c ∷ cs) = (if is_some c.path_id then 0 else 1) + count_unused cs

unfoldable pub unused_scids : ConnectionIdMgr → ℕ
unfolding count_unused
unused_scids m = count_unused m.scids.queue

unfoldable pub unused_dcids : ConnectionIdMgr → ℕ
unfolding count_unused
unused_dcids m = if m.zero_length_dcid then 0 else count_unused m.dcids.queue

-- `Iterator::min`.
unfoldable pub least : List ℕ → Option ℕ
least [] = none
least (n ∷ ns) = elim (least ns) [ none ↦ some n | some k ↦ some (min n k) ]

unfoldable pub active_seqs : ℕ → List ConnectionIdItem → List ℕ
active_seqs prior [] = []
active_seqs prior (c ∷ cs) =
    let rest = active_seqs prior cs in if leb prior c.seq then c.seq ∷ rest else rest

unfoldable pub lowest_active_scid_seq : ConnectionIdMgr → Result ℕ
unfolding least active_seqs
lowest_active_scid_seq m = ok_or (least (active_seqs m.retire_prior_to m.scids.queue))

unfoldable pub unused_seqs : List ConnectionIdItem → List ℕ
unused_seqs [] = []
unused_seqs (c ∷ cs) = let rest = unused_seqs cs in if is_some c.path_id then rest else c.seq ∷ rest

unfoldable pub lowest_unused_dcid_seq : ConnectionIdMgr → Option ℕ
unfolding least unused_seqs
lowest_unused_dcid_seq m = least (unused_seqs m.dcids.queue)

abbrev without : ℕ → List ℕ → List ℕ
without seq [] = []
without seq (s ∷ ss) = let rest = without seq ss in if s == seq then rest else s ∷ rest

unfoldable pub mark_scid_to_advertise : ℕ → Bool → ConnectionIdMgr → ConnectionIdMgr
mark_scid_to_advertise seq advertise m = record m {
  scids_to_advertise =
      if advertise then m.scids_to_advertise ++ (seq ∷ []) else without seq m.scids_to_advertise;
}

unfoldable pub mark_dcid_to_retire : ℕ → Bool → ConnectionIdMgr → ConnectionIdMgr
mark_dcid_to_retire seq retire m = record m {
  dcids_to_retire =
      if retire then m.dcids_to_retire ++ (seq ∷ []) else without seq m.dcids_to_retire;
}

-- `add_scid` behind the check of the limit.
unfoldable pub add_scid_item :
    ConnectionId → Option ℕ → Bool → Option ℕ → ConnectionIdMgr → Result ℕ × ConnectionIdMgr
unfolding Deque.insert mark_scid_to_advertise
add_scid_item cid reset_token advertise path_id m =
    let seq = m.next_scid_seq in
    let item : ConnectionIdItem = record {
      cid = cid;
      seq = seq;
      reset_token = reset_token;
      path_id = path_id;
    } in
    if not (seq == 0) && not (is_some reset_token)
    then (err internal_error, m)
    else (elim (Deque.insert item m.scids).0 [
      | err e ↦ (err e, m)
      | panic ↦ (panic, m)
      | ok _ ↦ (
        ok seq,
        mark_scid_to_advertise seq advertise
            (record m { scids = (Deque.insert item m.scids).1; next_scid_seq = add64 seq 1 }),
      )
    ])

unfoldable pub add_scid :
    ConnectionId → Option ℕ → Bool → Option ℕ → Bool → ConnectionIdMgr → Result ℕ × ConnectionIdMgr
unfolding add_scid_item lowest_active_scid_seq
add_scid cid reset_token advertise path_id retire_if_needed m =
    let add = add_scid_item cid reset_token advertise path_id in
    if m.zero_length_scid
    then (err internal_error, m)
    else if leb m.scid_limit (length m.scids.queue)
    then (if not retire_if_needed
        then (err connection_id_limit_error, m)
        else (elim (lowest_active_scid_seq m) [
          | err e ↦ (err e, m)
          | panic ↦ (panic, m)
          | ok lowest ↦ add (record m { retire_prior_to = add64 lowest 1 })
        ]))
    else add m

unfoldable pub check_dcids_to_retire : ConnectionIdMgr → Result (Unit {0})
check_dcids_to_retire m =
    if ltb (m.dcid_limit * 4 % 2 ^ 64) (length m.dcids_to_retire)
    then err protocol_violation
    else ok tt

-- `iter().find` by the identifier or the sequence number.
unfoldable pub find_issued : ConnectionId → ℕ → List ConnectionIdItem → Option ConnectionIdItem
unfolding cid_eq
find_issued cid seq [] = none
find_issued cid seq (c ∷ cs) =
    if cid_eq c.cid cid || (c.seq == seq) then some c else find_issued cid seq cs

abbrev pub seqs : List ConnectionIdItem → List ℕ
seqs [] = []
seqs (c ∷ cs) = c.seq ∷ seqs cs

-- The retired identifiers that a path uses, with their paths.
unfoldable pub retired_paths : List ConnectionIdItem → List (ℕ × ℕ)
retired_paths [] = []
retired_paths (c ∷ cs) = elim c.path_id [
  | none ↦ retired_paths cs
  | some pid ↦ (c.seq, pid) ∷ retired_paths cs
]

-- The end of `add_dcid`: the insertion, and what is returned.
unfoldable pub insert_dcid :
    ConnectionIdItem → List (ℕ × ℕ) → ConnectionIdMgr → Result (List (ℕ × ℕ)) × ConnectionIdMgr
unfolding Deque.insert
insert_dcid item paths m =
    let (r, d) = Deque.insert item m.dcids in
    (Error.◌>>=◌ r (λ _. ok paths), record m { dcids = d })

-- The update for a larger "Retire Prior To".
unfoldable pub retire_dcids : ℕ → ConnectionIdMgr → ConnectionIdMgr
unfolding remove_lower
retire_dcids retire_prior_to m =
    let (retired, d) = remove_lower retire_prior_to m.dcids in
    record m {
      dcids = d;
      dcids_to_retire = m.dcids_to_retire ++ seqs retired;
      largest_peer_retire_prior_to = retire_prior_to;
    }

-- `add_dcid` for an identifier not issued before, behind the check of the two numbers.
unfoldable pub add_new_dcid :
    ConnectionIdItem → ℕ → ConnectionIdMgr → Result (List (ℕ × ℕ)) × ConnectionIdMgr
unfolding check_dcids_to_retire retire_dcids retired_paths insert_dcid remove_lower
add_new_dcid item retire_prior_to m =
    let late = record m { dcids_to_retire = m.dcids_to_retire ++ (item.seq ∷ []) } in
    let raised = retire_dcids retire_prior_to m in
    let paths = retired_paths (remove_lower retire_prior_to m.dcids).0 in
    if ltb item.seq m.largest_peer_retire_prior_to && not (member item.seq m.dcids_to_retire)
    then (Error.◌>>=◌ (check_dcids_to_retire late) (λ _. ok []), late)
    else if ltb m.largest_peer_retire_prior_to retire_prior_to
    then (elim (check_dcids_to_retire raised) [
      | err e ↦ (err e, raised)
      | panic ↦ (panic, raised)
      | ok _ ↦ insert_dcid item paths raised
    ])
    else insert_dcid item [] m

unfoldable pub add_dcid :
    ConnectionId → ℕ → ℕ → ℕ → ConnectionIdMgr → Result (List (ℕ × ℕ)) × ConnectionIdMgr
unfolding cid_eq find_issued add_new_dcid
add_dcid cid seq reset_token retire_prior_to m =
    if m.zero_length_dcid
    then (err protocol_violation, m)
    else (elim (find_issued cid seq m.dcids.queue) [
      | some e ↦
          if not (cid_eq e.cid cid)
            || not (e.seq == seq)
            || not (token_eq e.reset_token reset_token)
          then (err protocol_violation, m)
          else (ok [], m)
      | none ↦
          if ltb seq retire_prior_to
          then (err protocol_violation, m)
          else add_new_dcid
              (record { cid = cid; seq = seq; reset_token = some reset_token; path_id = none })
              retire_prior_to m
    ])

-- `retire_scid` on the item that `remove` returned.
unfoldable pub retired_scid :
    ConnectionIdItem → ConnectionId → ConnectionIdMgr → Result (Option ℕ) × ConnectionIdMgr
unfolding cid_eq lowest_active_scid_seq
retired_scid e pkt_dcid m =
    if cid_eq e.cid pkt_dcid
    then (err protocol_violation, m)
    else (elim (lowest_active_scid_seq m) [
      | err x ↦ (err x, m)
      | panic ↦ (panic, m)
      | ok lowest ↦ (ok e.path_id, record m { retire_prior_to = lowest })
    ])

-- `retire_scid` on what `remove` returned, in the state that it left.
unfoldable pub removed_scid :
    Result (Option ConnectionIdItem)
    → ConnectionId
    → ConnectionIdMgr
    → Result (Option ℕ) × ConnectionIdMgr
unfolding retired_scid
removed_scid (err e) pkt_dcid m = (err e, m)
removed_scid panic pkt_dcid m = (panic, m)
removed_scid (ok none) pkt_dcid m = (ok none, m)
removed_scid (ok (some e)) pkt_dcid m = retired_scid e pkt_dcid m

unfoldable pub retire_scid :
    ℕ → ConnectionId → ConnectionIdMgr → Result (Option ℕ) × ConnectionIdMgr
unfolding Deque.remove removed_scid
retire_scid seq pkt_dcid m =
    if leb m.next_scid_seq seq
    then (err protocol_violation, m)
    else removed_scid (Deque.remove seq m.scids).0 pkt_dcid
        (record m { scids = (Deque.remove seq m.scids).1 })

unfoldable pub next_scid_to_advertise : ConnectionIdMgr → Option ℕ
next_scid_to_advertise m = elim m.scids_to_advertise [ [] ↦ none | s ∷ _ ↦ some s ]

unfoldable pub next_dcid_to_retire : ConnectionIdMgr → Option ℕ
next_dcid_to_retire m = elim m.dcids_to_retire [ [] ↦ none | s ∷ _ ↦ some s ]

unfoldable pub create_new_connection_id_frame : ℕ → ConnectionIdMgr → Result Frame
unfolding Deque.get
create_new_connection_id_frame seq m = Error.◌>>=◌ (ok_or (Deque.get seq m.scids)) (λ item.
    Error.◌>>=◌ (ok_or item.reset_token)
      (λ token. ok (Frame.new_connection_id seq m.retire_prior_to item.cid (be_bytes 16 token))))

unfoldable pub need_send_cid_control_frames : ConnectionIdMgr → Bool
need_send_cid_control_frames m =
    not (length m.dcids_to_retire == 0) || not (length m.scids_to_advertise == 0)
