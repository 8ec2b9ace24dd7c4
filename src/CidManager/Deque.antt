-- ===== src/CidManager/Deque.antt =====
-- The bounded queue of connection identifiers (src/connection/cid.rs).
use raw_quic.Prelude.{
  Bool, List, Option, [], false, if◌then◌else◌, length, ltb, none, some, true, ℕ, ◌&&◌, ◌++◌, ◌==◌,
  ◌∷◌,
}
use raw_quic.Error.{Result, ok, err, internal_error, connection_id_limit_error}
use raw_quic.Cid.{ConnectionId}

pub record ConnectionIdItem : Type 0 where
  pub cid : ConnectionId
  pub seq : ℕ
  pub reset_token : Option ℕ
  pub path_id : Option ℕ

pub record ConnectionIdDeque : Type 0 where
  pub queue : List ConnectionIdItem
  pub capacity : ℕ

unfoldable pub new : ℕ → ConnectionIdDeque
new capacity = record { queue = []; capacity = capacity }

-- `iter().find` by the sequence number.
unfoldable pub find_seq : ℕ → List ConnectionIdItem → Option ConnectionIdItem
find_seq seq [] = none
find_seq seq (c ∷ cs) = if c.seq == seq then some c else find_seq seq cs

unfoldable pub get : ℕ → ConnectionIdDeque → Option ConnectionIdItem
unfolding find_seq
get seq d = find_seq seq d.queue

-- What is assigned through `get_mut`: the path of the first item with the number.
unfoldable pub mark_path : ℕ → ℕ → List ConnectionIdItem → List ConnectionIdItem
mark_path seq path_id [] = []
mark_path seq path_id (c ∷ cs) =
    let rest = mark_path seq path_id cs in
    if c.seq == seq then record c { path_id = some path_id } ∷ cs else c ∷ rest

unfoldable pub insert : ConnectionIdItem → ConnectionIdDeque → Result (Unit {0}) × ConnectionIdDeque
insert cid d =
    if length d.queue == d.capacity
    then (err connection_id_limit_error, d)
    else (ok tt, record d { queue = d.queue ++ (cid ∷ []) })

unfoldable pub clear : ConnectionIdDeque → ConnectionIdDeque
clear d = record d { queue = [] }

-- The queue without the first item with the number: `position` and `VecDeque::remove`.
unfoldable pub delete_seq : ℕ → List ConnectionIdItem → List ConnectionIdItem
delete_seq seq [] = []
delete_seq seq (c ∷ cs) = let rest = delete_seq seq cs in if c.seq == seq then cs else c ∷ rest

abbrev pub is_some : {A : Type 0} → Option A → Bool
is_some none = false
is_some (some _) = true

unfoldable pub remove : ℕ → ConnectionIdDeque → Result (Option ConnectionIdItem) × ConnectionIdDeque
unfolding find_seq delete_seq
remove seq d =
    if length d.queue == 0
    then (err internal_error, d)
    else if length d.queue == 1 && is_some (find_seq seq d.queue)
    then (err internal_error, d)
    else (ok (find_seq seq d.queue), record d { queue = delete_seq seq d.queue })

-- What `retain` keeps, and what it drops, in order.
unfoldable pub at_least : ℕ → List ConnectionIdItem → List ConnectionIdItem
at_least seq [] = []
at_least seq (c ∷ cs) = let rest = at_least seq cs in if ltb c.seq seq then rest else c ∷ rest

unfoldable pub lower : ℕ → List ConnectionIdItem → List ConnectionIdItem
lower seq [] = []
lower seq (c ∷ cs) = let rest = lower seq cs in if ltb c.seq seq then c ∷ rest else rest

-- The items on which the callback is called, and the queue that is left.
unfoldable pub remove_lower : ℕ → ConnectionIdDeque → List ConnectionIdItem × ConnectionIdDeque
unfolding at_least lower
remove_lower seq d = (lower seq d.queue, record d { queue = at_least seq d.queue })

unfoldable pub enlarge : ℕ → ConnectionIdDeque → ConnectionIdDeque
enlarge capacity d = if ltb d.capacity capacity then record d { capacity = capacity } else d
