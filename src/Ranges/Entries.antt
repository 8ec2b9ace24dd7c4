-- ===== src/Ranges/Entries.antt =====
-- `BTreeMap<u64, u64>` as the list of its entries in the order of the keys, with the calls that
-- src/ranges.rs makes of it.
use raw_quic.Prelude.{List, Option, [], if◌then◌else◌, leb, ltb, none, some, ℕ, ◌==◌, ◌∷◌}

abbrev pub Range : Type 0
Range = ℕ × ℕ

abbrev pub Map : Type 0
Map = List Range

unfoldable pub remove_key : ℕ → Map → Map
remove_key k [] = []
remove_key k ((s, e) ∷ m) = if s == k then m else (s, e) ∷ remove_key k m

unfoldable pub insert_key : ℕ → ℕ → Map → Map
insert_key k v [] = (k, v) ∷ []
insert_key k v ((s, e) ∷ m) =
    if ltb k s
    then (k, v) ∷ (s, e) ∷ m
    else if s == k
    then (k, v) ∷ m
    else (s, e) ∷ insert_key k v m

unfoldable pub pop_first : Map → Map
pop_first [] = []
pop_first (_ ∷ m) = m

-- `prev_to`: the last entry with a key up to `elem`.
unfoldable pub prev_to : ℕ → Map → Option Range
prev_to elem [] = none
prev_to elem ((s, e) ∷ m) =
    let rest = prev_to elem m in
    if leb s elem then (elim rest [ none ↦ some (s, e) | some r ↦ some r ]) else none

-- `next_to`: the first entry with a key from `elem` on.
unfoldable pub next_to : ℕ → Map → Option Range
next_to elem [] = none
next_to elem ((s, e) ∷ m) = if leb elem s then some (s, e) else next_to elem m

-- `next_after`: the first entry with a key above `elem`.
unfoldable pub next_after : ℕ → Map → Option Range
next_after elem [] = none
next_after elem ((s, e) ∷ m) = if ltb elem s then some (s, e) else next_after elem m
