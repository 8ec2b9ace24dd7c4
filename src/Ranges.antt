-- ===== src/Ranges.antt =====
-- A set of u64 values kept as ranges (src/ranges.rs). The `BTreeMap` from starts to ends is the list
-- of its entries in the order of the keys (child Entries).
pub mod Entries
pub mod Merge
pub mod Absorb
pub mod Insert
pub mod Subtract
pub mod Remove
pub mod Until
use raw_quic.Prelude.{
  Bool, List, Option, [], add64, false, if◌then◌else◌, leb, length, ltb, max, none, some, sub64,
  suc, true, zero, ℕ, ◌&&◌, ◌-◌, ◌==◌, ◌^◌, ◌||◌, ◌∷◌,
}
use raw_quic.Ranges.Entries.{
  Map, Range, remove_key, insert_key, pop_first, prev_to, next_to, next_after,
}

pub record RangeSet : Type 0 where
  pub set : Map
  pub capacity : ℕ

-- `usize::MAX`.
abbrev pub usize_max : ℕ
usize_max = 2 ^ 64 - 1

unfoldable pub new : ℕ → RangeSet
new capacity = record { set = []; capacity = capacity }

unfoldable pub default : RangeSet
unfolding new
default = new usize_max

-- `while let Some(r) = self.next_to(range.start)`: what is left of the map, and the new end. Each
-- round removes an entry, so the length of the map is enough fuel.
unfoldable pub absorb : ℕ → Map → ℕ → ℕ → Map × ℕ
absorb zero m start stop = (m, stop)
absorb (suc f) m start stop = elim (next_to start m) [
  | none ↦ (m, stop)
  | some (s, e) ↦
      let rest = absorb f (remove_key s m) start (max e stop) in
      if ltb stop s then (m, stop) else rest
]

-- The end of `insert`, once the preceding range is merged.
unfoldable pub insert_merged : ℕ → ℕ → RangeSet → RangeSet
unfolding absorb
insert_merged start stop r =
    let (m, stop') = absorb (length r.set) r.set start stop in
    let m' = if leb r.capacity (length m) then pop_first m else m in
    record r { set = insert_key start stop' m' }

unfoldable pub insert : Range → RangeSet → RangeSet
unfolding insert_merged
insert (start, stop) r = if leb stop start then r else (elim (prev_to start r.set) [
  | none ↦ insert_merged start stop r
  | some (s, e) ↦
      if leb stop e
      then r
      else if leb start e
      then insert_merged s stop (record r { set = remove_key s r.set })
      else insert_merged start stop r
])

unfoldable pub add_elem : ℕ → RangeSet → RangeSet
unfolding insert
add_elem elem r = insert (elem, add64 elem 1) r

-- The loop of `remove` over the ranges that begin at `start` or behind it.
unfoldable pub cut : ℕ → Map → ℕ → ℕ → Map
cut zero m start stop = m
cut (suc f) m start stop = elim (next_to start m) [
  | none ↦ m
  | some (s, e) ↦
      let rest = cut f (remove_key s m) start stop in
      if ltb stop s then m else if ltb stop e then insert_key stop e (remove_key s m) else rest
]

-- What `remove` leaves of the preceding range, which overlaps.
unfoldable pub split_prev : Range → Range → Map → Map
split_prev (start, stop) (s, e) m =
    let m1 = remove_key s m in
    let m2 = if ltb s start then insert_key s start m1 else m1 in
    if ltb stop e then insert_key stop e m2 else m2

-- The loop of `remove`, with its fuel.
unfoldable pub cut_after : Range → RangeSet → RangeSet
unfolding cut
cut_after (start, stop) r = record r { set = cut (length r.set) r.set start stop }

unfoldable pub remove : Range → RangeSet → RangeSet
unfolding cut_after split_prev
remove (start, stop) r =
    if length r.set == 0 || leb stop start then r else (elim (prev_to start r.set) [
      | none ↦ cut_after (start, stop) r
      | some (s, e) ↦
          let m = split_prev (start, stop) (s, e) r.set in
          if ltb start e
          then (if leb stop e
              then record r { set = m }
              else cut_after (start, stop) (record r { set = m }))
          else cut_after (start, stop) r
    ])

unfoldable pub remove_elem : ℕ → RangeSet → RangeSet
unfolding remove
remove_elem elem r = remove (elem, add64 elem 1) r

-- The entries with keys up to `elem`, collected before the loop of `remove_until`.
unfoldable pub up_to : ℕ → Map → Map
up_to elem [] = []
up_to elem ((s, e) ∷ m) = if leb s elem then (s, e) ∷ up_to elem m else []

unfoldable pub trim : ℕ → Map → RangeSet → RangeSet
unfolding insert
trim elem [] r = r
trim elem ((s, e) ∷ rs) r =
    let r1 = record r { set = remove_key s r.set } in
    trim elem rs (if ltb (add64 elem 1) e then insert (add64 elem 1, e) r1 else r1)

unfoldable pub remove_until : ℕ → RangeSet → RangeSet
unfolding up_to trim
remove_until elem r = trim elem (up_to elem r.set) r

unfoldable pub clear : RangeSet → RangeSet
clear r = record r { set = [] }

unfoldable pub filter : Range → RangeSet → Option Range
filter (start, stop) r =
    let new_end : ℕ = elim (next_after start r.set) [
      | none ↦ stop
      | some (s, e) ↦ if ltb s stop then s else stop
    ] in
    if length r.set == 0 then some (start, stop) else (elim (prev_to start r.set) [
      | none ↦ some (start, new_end)
      | some (s, e) ↦
          if leb stop e
          then none
          else if ltb start e
          then some (e, new_end)
          else some (start, new_end)
    ])

-- `Range::contains`.
abbrev pub in_range : ℕ → Range → Bool
in_range x (s, e) = leb s x && ltb x e

unfoldable pub contains : ℕ → RangeSet → Bool
contains elem r =
    let next : Bool = elim (next_to elem r.set) [ none ↦ false | some n ↦ in_range elem n ] in
    elim (prev_to elem r.set) [ none ↦ next | some p ↦ if in_range elem p then true else next ]

unfoldable pub peek_min : RangeSet → Option Range
peek_min r = elim r.set [ [] ↦ none | p ∷ _ ↦ some p ]

unfoldable pub pop_min : RangeSet → Option Range × RangeSet
unfolding peek_min
pop_min r = elim (peek_min r) [
  | none ↦ (none, r)
  | some (s, e) ↦ (some (s, e), record r { set = remove_key s r.set })
]

unfoldable pub set_min : RangeSet → Option ℕ
set_min r = elim r.set [ [] ↦ none | (s, e) ∷ _ ↦ some s ]

last_of : Map → Option Range
last_of [] = none
last_of (p ∷ m) = elim (last_of m) [ none ↦ some p | some q ↦ some q ]

unfoldable pub set_max : RangeSet → Option ℕ
unfolding last_of
set_max r = elim (last_of r.set) [ none ↦ none | some (s, e) ↦ some (sub64 e 1) ]

unfoldable pub len : RangeSet → ℕ
len r = length r.set

-- The ranges in order (`iter`), and the last first (`iter().rev()`).
unfoldable pub iter : RangeSet → List Range
iter r = r.set

-- Equal to one range: the set holds that range and no other.
unfoldable pub eq_range : RangeSet → Range → Bool
eq_range r (start, stop) = elim r.set [
  | [] ↦ false
  | (s, e) ∷ m ↦ length ((s, e) ∷ m) == 1 && s == start && e == stop
]
