-- ===== src/Examples/Identifiers.antt =====
-- Runs of the theorems on the connection identifiers, at concrete inputs.
use raw_quic.Prelude.{Option, [], arith, false, none, refl, some, true, ℕ, ◌+◌, ◌∷◌, ◌≡◌}
use raw_quic.Error.{ok}
use raw_quic.Cid.{ConnectionId}
use raw_quic.CidManager.{
  ConnectionIdMgr, add_dcid, add_scid, retire_scid, find_issued, cid_eq, retired_paths,
  lowest_active_scid_seq, least, active_seqs, removed_scid, retired_scid,
}
use raw_quic.CidManager.Deque
use raw_quic.CidManager.Deque.{ConnectionIdItem, find_seq, at_least, lower}
use raw_quic.CidManager.Destinations.{AreActive, accepted, new_item, add_dcid_lem}
use raw_quic.CidManager.Sources
use raw_quic.CidManager.Sources.{add_scid-IsValid}
use raw_quic.CidManager.Retirement.{retire_scid-IsValid, retire_scid-answer}

abbrev item : ℕ → Option ℕ → ConnectionIdItem
item n path_id = record {
  cid = record { len = 1; octets = n ∷ [] };
  seq = n;
  reset_token = some (100 + n);
  path_id = path_id;
}

-- Numbers 1 and 2 of the peer are in use and 0 waits to be retired; 0 and 1 were issued.
abbrev manager : ConnectionIdMgr
manager = record {
  dcids = record { queue = item 1 (some 7) ∷ item 2 none ∷ []; capacity = 3 };
  scids = record { queue = item 0 (some 7) ∷ item 1 none ∷ []; capacity = 3 };
  dcid_limit = 2;
  scid_limit = 3;
  zero_length_scid = false;
  zero_length_dcid = false;
  next_scid_seq = 2;
  retire_prior_to = 0;
  scids_to_advertise = [];
  largest_peer_retire_prior_to = 1;
  dcids_to_retire = 0 ∷ [];
}

abbrev third : ConnectionId
third = record { len = 1; octets = 3 ∷ [] }

add_dcid_lem_example :
    (add_dcid third 3 103 2 manager ≡ (ok ((1, 7) ∷ []), accepted (new_item third 3 103) 2 manager))
    × AreActive (accepted (new_item third 3 103) 2 manager)
unfolding find_issued cid_eq lower at_least retired_paths
add_dcid_lem_example =
    add_dcid_lem third 3 103 2 manager (omega arith) refl refl (omega arith) (omega arith)
      (omega arith) (omega arith) (omega arith)

manager-IsValid : Sources.IsValid manager
manager-IsValid = omega arith

add_scid-IsValid_example : Sources.IsValid (add_scid third (some 9) true none false manager).1
add_scid-IsValid_example =
    add_scid-IsValid third (some 9) true none false manager manager-IsValid (omega arith)

retire_scid-IsValid_example : Sources.IsValid (retire_scid 0 third manager).1
retire_scid-IsValid_example = retire_scid-IsValid 0 third manager manager-IsValid

retire_scid-answer_example :
    find_seq 1 (retire_scid 0 third manager).1.scids.queue ≡ find_seq 1 manager.scids.queue
unfolding retire_scid removed_scid retired_scid lowest_active_scid_seq least active_seqs
    Deque.remove find_seq Deque.delete_seq cid_eq
retire_scid-answer_example = retire_scid-answer 0 1 third (some 7) manager manager-IsValid refl
