-- ===== src/Ranges/Until.antt =====
-- `remove_until` drops the numbers up to one.
use raw_quic.Prelude.{
  Bool-cases, [], arith, if◌then◌else◌, inl, inr, length, ltb, refl, suc, ℕ, ◌&&◌, ◌+◌, ◌-◌, ◌<◌,
  ◌^◌, ◌∷◌, ◌≡◌,
}
use raw_quic.Ranges.Entries.{Map, remove_key}
use raw_quic.Ranges.{RangeSet, up_to, trim, remove_until}
use raw_quic.Ranges.Merge.{Above, Above-le, covered, covered_below}
use raw_quic.Ranges.Insert.{IsValid, insert_front}

-- The reference definition: the parts of the ranges behind `elem`.
unfoldable pub keep_from : ℕ → Map → Map
keep_from elem [] = []
keep_from elem ((s, e) ∷ m) =
    let rest = keep_from elem m in
    if ltb elem s then (s, e) ∷ m else if ltb (elem + 1) e then (elem + 1, e) ∷ m else rest

keep_from-Above : (lo elem : ℕ) (m : Map) → Above lo m → Above lo (keep_from elem m)
unfolding keep_from
keep_from-Above lo elem [] v = tt
keep_from-Above lo elem ((s, e) ∷ m) v =
    ground (arith, keep_from-Above (suc e) elem m, Above-le (keep_from elem m) lo (suc e))

covered-keep_from :
    (lo elem x : ℕ) (m : Map)
    → Above lo m
    → covered (keep_from elem m) x ≡ (covered m x && ltb elem x)
unfolding keep_from covered
covered-keep_from lo elem x [] v = refl
covered-keep_from lo elem x ((s, e) ∷ m) v =
    ground (arith, covered-keep_from (suc e) elem x m, covered_below (suc e) x m)

-- Ranges that begin behind `elem` are not collected.
up_to_behind : (elem : ℕ) (m : Map) → Above (suc elem) m → up_to elem m ≡ []
unfolding up_to
up_to_behind elem [] v = refl
up_to_behind elem ((s, e) ∷ m) v = ground arith

trim-keep_from :
    (lo elem : ℕ) (m : Map) (r : RangeSet)
    → Above lo m
    → length m < r.capacity
    → elem < 2 ^ 64 - 1
    → trim elem (up_to elem m) (record r { set = m }) ≡ record r { set = keep_from elem m }
unfolding up_to trim keep_from remove_key
trim-keep_from lo elem [] r v k h = refl
trim-keep_from lo elem ((s, e) ∷ m) r v k h = elim (Bool-cases (ltb elem s)) [
  | inl a ↦ ground (arith, a)
  | inr a ↦ elim (Bool-cases (ltb (elem + 1) e)) [
    | inr b ↦ ground (arith, a, b, trim-keep_from (suc e) elem m r)
    | inl b ↦ ground (
      arith,
      a,
      b,
      up_to_behind elem m (Above-le m (suc elem) (suc e) (ground (arith, b)) v.2),
      insert_front (elem + 1) e (record r { set = m }),
    )
  ]
]

-- Removing the numbers up to `elem`, which is below 2 ^ 64 - 1, from a set with room for one more
-- range keeps its ranges in order, none empty and no two touching, keeps the capacity, and leaves exactly the elements above
-- `elem`.
pub remove_until_lem :
    (elem x : ℕ) (r : RangeSet)
    → IsValid r
    → elem < 2 ^ 64 - 1
    → Above 0 (remove_until elem r).set
      × ((remove_until elem r).capacity ≡ r.capacity)
      × (covered (remove_until elem r).set x ≡ (covered r.set x && ltb elem x))
unfolding remove_until
remove_until_lem elem x r v h =
    rw (trim-keep_from 0 elem r.set r v.0 v.1 h)
      (keep_from-Above 0 elem r.set v.0, refl, covered-keep_from 0 elem x r.set v.0)
