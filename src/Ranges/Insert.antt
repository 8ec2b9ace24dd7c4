-- ===== src/Ranges/Insert.antt =====
-- `insert` is insertion in one pass, as long as the set is not full.
use raw_quic.Prelude.{
  Bool-cases, Option-cases, [], ap, arith, if◌then◌else◌, inl, inr, leb, leb→le, length, ltb, none,
  refl, some, suc, true, ℕ, ◌&&◌, ◌<◌, ◌||◌, ◌∙◌, ◌∷◌, ◌≡◌, ◌≤◌,
}
use raw_quic.Ranges.Entries.{Map, remove_key, prev_to}
use raw_quic.Ranges.{insert_merged, RangeSet, insert}
use raw_quic.Ranges.Absorb.{
  merged, merged_skip, merged-behind, length-remove_key, absorb_fuel, length-absorb,
}
use raw_quic.Ranges.Merge.{Above, Above-le, merge, covered, merge-Above, covered-merge}

pub prev_to-Above : (a : ℕ) (m : Map) → Above (suc a) m → prev_to a m ≡ none
unfolding prev_to
prev_to-Above a [] v = refl
prev_to-Above a ((s, e) ∷ m) v = ground arith

prev_to_bounds :
    (lo a s e : ℕ) (m : Map) → Above lo m → prev_to a m ≡ some (s, e) → (lo ≤ s) × (s ≤ a)
unfolding prev_to
prev_to_bounds lo a s e [] v h = cc
prev_to_bounds lo a s e ((s', e') ∷ m) v h = ground (arith, prev_to_bounds (suc e') a s e m)

-- `insert` on the map of a set that is not full.
joined : ℕ → ℕ → ℕ → Map → Map
joined f a b m = elim (prev_to a m) [
  | none ↦ merged f a b m
  | some (s, e) ↦
      if leb b e then m else if leb a e then merged f s b (remove_key s m) else merged f a b m
]

pub merge_behind : (a b : ℕ) (m : Map) → a ≤ b → Above (suc b) m → merge a b m ≡ (a, b) ∷ m
unfolding merge
merge_behind a b [] h v = refl
merge_behind a b ((s, e) ∷ m) h v = ground arith

-- The first range lies before the new one and does not touch it.
joined_skip :
    (f s e a b : ℕ) (m : Map)
    → s < e
    → e < a
    → a < b
    → Above (suc e) m
    → joined f a b ((s, e) ∷ m) ≡ (s, e) ∷ joined f a b m
unfolding joined prev_to remove_key
joined_skip f s e a b m p q r v = elim (Option-cases (prev_to a m)) [
  | inl n ↦ ground (arith, n, merged_skip f s e a b m)
  | inr ((s', e'), n) ↦ ground (
    arith,
    n,
    prev_to_bounds (suc e) a s' e' m v,
    merged_skip f s e a b m,
    merged_skip f s e s' b (remove_key s' m),
  )
]

-- The new range begins in the first one or at its end.
joined_touch :
    (f s e a b : ℕ) (m : Map)
    → length m ≤ f
    → s < e
    → s ≤ a
    → a ≤ e
    → a < b
    → Above (suc e) m
    → joined f a b ((s, e) ∷ m) ≡ merge a b ((s, e) ∷ m)
unfolding joined prev_to remove_key merge
joined_touch f s e a b m l p q r h v = ground (
  arith,
  prev_to-Above a m (Above-le m (suc a) (suc e) (omega arith) v),
  merged-behind f s b m l (Above-le m (suc s) (suc e) (omega arith) v),
  merge_behind s e m,
)

-- The new range begins before all others.
joined_front : (f a b : ℕ) (m : Map) → length m ≤ f → Above (suc a) m → joined f a b m ≡ merge a b m
unfolding joined
joined_front f a b m l v = rw (prev_to-Above a m v, joined) (merged-behind f a b m l v)

joined-merge :
    (f lo a b : ℕ) (m : Map) → a < b → length m ≤ f → Above lo m → joined f a b m ≡ merge a b m
joined-merge f lo a b [] h k v = joined_front f a b [] k tt
joined-merge f lo a b ((s, e) ∷ m) h k v = elim (Bool-cases (ltb e a)) [
  | inl p ↦ ground (arith, p, joined_skip f s e a b m, joined-merge f (suc e) a b m, merge_skip)
  | inr p ↦ elim (Bool-cases (leb s a)) [
    | inl q ↦ joined_touch f s e a b m (omega arith) v.1 (leb→le s a q) (ground arith) h v.2
    | inr q ↦ joined_front f a b ((s, e) ∷ m) k (ground arith, v.1, v.2)
  ]
]
  where
    merge_skip : ltb e a ≡ true → merge a b ((s, e) ∷ m) ≡ (s, e) ∷ merge a b m
    merge_skip p = unfold merge in rw p

insert_merged-merged :
    (f start stop : ℕ) (r : RangeSet)
    → length r.set ≤ f
    → length r.set < r.capacity
    → insert_merged start stop r ≡ record r { set = merged f start stop r.set }
unfolding insert_merged merged
insert_merged-merged f start stop r h k = ground (
  arith,
  absorb_fuel (length r.set) f start stop r.set,
  length-absorb (length r.set) start stop r.set,
)

insert-joined :
    (a b : ℕ) (r : RangeSet)
    → a < b
    → length r.set < r.capacity
    → insert (a, b) r ≡ record r { set = joined (length r.set) a b r.set }
unfolding insert joined
insert-joined a b r h k = elim (Option-cases (prev_to a r.set)) [
  | inl n ↦ ground (arith, n, insert_merged-merged (length r.set) a b r)
  | inr ((s, e), n) ↦ ground (
    arith,
    n,
    length-remove_key s r.set,
    insert_merged-merged (length r.set) a b r,
    insert_merged-merged (length r.set) s b (record r { set = remove_key s r.set }),
  )
]

-- A set with room for one more range, its ranges in order, none empty and no two touching.
abbrev pub IsValid : RangeSet → Type 0
IsValid r = Above 0 r.set × (length r.set < r.capacity)

pub insert-merge :
    (a b : ℕ) (r : RangeSet)
    → a < b
    → IsValid r
    → insert (a, b) r ≡ record r { set = merge a b r.set }
insert-merge a b r h v =
    insert-joined a b r h v.1
    ∙ ap (λ (m : Map). record r { set = m })
        (joined-merge (length r.set) 0 a b r.set h (omega arith) v.0)

-- Inserting a non-empty range into a set that is not full keeps its ranges in order, none empty and
-- no two touching, keeps the capacity, and adds exactly the elements of the range.
pub insert_lem :
    (a b x : ℕ) (r : RangeSet)
    → a < b
    → IsValid r
    → Above 0 (insert (a, b) r).set
      × ((insert (a, b) r).capacity ≡ r.capacity)
      × (covered (insert (a, b) r).set x ≡ ((leb a x && ltb x b) || covered r.set x))
insert_lem a b x r h v =
    rw (insert-merge a b r h v)
      (merge-Above 0 a b r.set (omega arith) h v.0, refl, covered-merge 0 a b x r.set h v.0)

-- A range below all others goes to the front.
pub insert_front :
    (s e : ℕ) (r : RangeSet)
    → s < e
    → Above (suc e) r.set
    → length r.set < r.capacity
    → insert (s, e) r ≡ record r { set = (s, e) ∷ r.set }
insert_front s e r h v k =
    insert-merge s e r h (Above-le r.set 0 (suc e) (omega arith) v, k)
    ∙ ap (λ (m : Map). record r { set = m }) (merge_behind s e r.set (omega arith) v)
