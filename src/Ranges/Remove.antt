-- ===== src/Ranges/Remove.antt =====
-- `remove` is removal in one pass.
use raw_quic.Prelude.{
  Bool-cases, Option-cases, [], ap, arith, false, if◌then◌else◌, inl, inr, leb, leb→le, length, ltb,
  none, not, refl, some, suc, sym, true, zero, ℕ, ◌&&◌, ◌<◌, ◌==◌, ◌∙◌, ◌∷◌, ◌≡◌, ◌≤◌,
}
use raw_quic.Ranges.Entries.{Map, remove_key, insert_key, prev_to, next_to}
use raw_quic.Ranges.{cut, split_prev, remove, RangeSet, cut_after}
use raw_quic.Ranges.Merge.{Above, Above-le, covered}
use raw_quic.Ranges.Absorb.{next_to_ge, remove_key-next_to, length-remove_key}
use raw_quic.Ranges.Insert.{prev_to-Above}
use raw_quic.Ranges.Subtract.{
  subtract, subtract_behind, cut-subtract, insert_key_front, prev_to_from, subtract-Above,
  covered-subtract,
}

-- Ranges that begin before `start` are passed over.
cut_skip :
    (f s e start stop : ℕ) (m : Map)
    → s < start
    → start < stop
    → cut f ((s, e) ∷ m) start stop ≡ (s, e) ∷ cut f m start stop
unfolding cut next_to remove_key insert_key
cut_skip zero s e start stop m h k = refl
cut_skip (suc f) s e start stop m h k = elim (Option-cases (next_to start m)) [
  | inl q ↦ ground (arith, q)
  | inr ((a, b), q) ↦
      ground (arith, q, next_to_ge start m a b q, cut_skip f s e start stop (remove_key a m) h k)
]

-- The fuel does not matter once it reaches the number of entries.
cut_fuel :
    (f g start stop : ℕ) (m : Map)
    → length m ≤ f
    → length m ≤ g
    → cut f m start stop ≡ cut g m start stop
unfolding cut next_to
cut_fuel zero zero start stop m h k = refl
cut_fuel zero (suc g) start stop [] h k = refl
cut_fuel zero (suc g) start stop (p ∷ m) h k = absurd (omega arith)
cut_fuel (suc f) zero start stop [] h k = refl
cut_fuel (suc f) zero start stop (p ∷ m) h k = absurd (omega arith)
cut_fuel (suc f) (suc g) start stop m h k = elim (Option-cases (next_to start m)) [
  | inl n ↦ rw (n, cut)
  | inr ((s, e), n) ↦
      ground (arith, n, remove_key-next_to start s e m n, cut_fuel f g start stop (remove_key s m))
]

-- `remove` on the map, with its fuel.
trimmed : ℕ → ℕ → ℕ → Map → Map
trimmed f a b m = elim (prev_to a m) [
  | none ↦ cut f m a b
  | some (s, e) ↦
      let m' = split_prev (a, b) (s, e) m in
      if ltb a e then (if leb b e then m' else cut f m' a b) else cut f m a b
]

split_prev_skip :
    (s e a b s' e' : ℕ) (m : Map)
    → s < s'
    → s' ≤ a
    → a < b
    → split_prev (a, b) (s', e') ((s, e) ∷ m) ≡ (s, e) ∷ split_prev (a, b) (s', e') m
unfolding split_prev remove_key insert_key
split_prev_skip s e a b s' e' m h k l = ground arith

-- The first range lies before the removed ones.
trimmed_skip :
    (f s e a b : ℕ) (m : Map)
    → s < e
    → e ≤ a
    → a < b
    → Above (suc e) m
    → trimmed f a b ((s, e) ∷ m) ≡ (s, e) ∷ trimmed f a b m
unfolding trimmed prev_to
trimmed_skip f s e a b m p q r v = elim (Option-cases (prev_to a m)) [
  | inl n ↦ ground (arith, n, cut_skip f s e a b m)
  | inr ((s', e'), n) ↦ ground (
    arith,
    n,
    prev_to_from (suc e) a (s', e') m v n,
    cut_skip f s e a b m,
    split_prev_skip s e a b s' e' m,
    cut_skip f s e a b (split_prev (a, b) (s', e') m),
  )
]

split_prev_first :
    (s e a b : ℕ) (m : Map)
    → s < e
    → s ≤ a
    → a < e
    → a < b
    → Above (suc e) m
    → split_prev (a, b) (s, e) ((s, e) ∷ m) ≡ (
        let behind = if ltb b e then (b, e) ∷ m else m in
        if ltb s a then (s, a) ∷ behind else behind)
unfolding split_prev remove_key insert_key
split_prev_first s e a b m h k l r v =
    ground (arith, insert_key_front s a m, insert_key_front b e m, Above-le m (suc a) (suc e))

-- The removed ones begin in the first range.
trimmed_first :
    (f s e a b : ℕ) (m : Map)
    → length m ≤ f
    → s < e
    → s ≤ a
    → a < e
    → a < b
    → Above (suc e) m
    → trimmed f a b ((s, e) ∷ m) ≡ subtract a b ((s, e) ∷ m)
unfolding trimmed prev_to subtract
trimmed_first f s e a b m h p q k r v = ground (
  arith,
  prev_to-Above a m (Above-le m (suc a) (suc e) (omega arith) v),
  split_prev_first s e a b m p q k r v,
  subtract_behind a b (suc e) m,
  cut_skip f s a a b m,
  cut-subtract f a b (suc e) m h r,
)

-- All ranges begin behind the start of the removed ones.
trimmed_front :
    (f a b : ℕ) (m : Map)
    → length m ≤ f
    → a < b
    → Above (suc a) m
    → trimmed f a b m ≡ subtract a b m
unfolding trimmed
trimmed_front f a b m l h v =
    rw (prev_to-Above a m v, trimmed) (cut-subtract f a b (suc a) m l h (omega arith) v)

trimmed-subtract :
    (f lo a b : ℕ) (m : Map) → a < b → length m ≤ f → Above lo m → trimmed f a b m ≡ subtract a b m
trimmed-subtract f lo a b [] h k v = trimmed_front f a b [] k h tt
trimmed-subtract f lo a b ((s, e) ∷ m) h k v = elim (Bool-cases (leb e a)) [
  | inl p ↦ ground (arith, p, trimmed_skip f s e a b m, trimmed-subtract f (suc e) a b m, skip)
  | inr p ↦ elim (Bool-cases (leb s a)) [
    | inl q ↦ trimmed_first f s e a b m (omega arith) v.1 (leb→le s a q) (ground (arith, p)) h v.2
    | inr q ↦ trimmed_front f a b ((s, e) ∷ m) k h (ground (arith, q), v.1, v.2)
  ]
]
  where
    skip : leb e a ≡ true → subtract a b ((s, e) ∷ m) ≡ (s, e) ∷ subtract a b m
    skip p = unfold subtract in simp p

length-insert_key : (k v : ℕ) (m : Map) → length (insert_key k v m) ≤ suc (length m)
unfolding insert_key
length-insert_key k v [] = omega arith
length-insert_key k v ((s, e) ∷ m) = ground (arith, length-insert_key k v m)

-- Where more is to be removed behind the preceding range.
length-split_prev :
    (a b s e : ℕ) (m : Map) → leb b e ≡ false → length (split_prev (a, b) (s, e) m) ≤ suc (length m)
unfolding split_prev
length-split_prev a b s e m h =
    ground (arith, h, length-remove_key s m, length-insert_key s a (remove_key s m))

cut_after-cut :
    (f a b : ℕ) (r : RangeSet)
    → length r.set ≤ f
    → cut_after (a, b) r ≡ record r { set = cut f r.set a b }
unfolding cut_after
cut_after-cut f a b r h = rw (cut_fuel (length r.set) f a b r.set (omega arith) h)

trimmed_empty : (f a b : ℕ) (m : Map) → (length m == 0) ≡ true → trimmed (suc f) a b m ≡ m
unfolding trimmed prev_to cut next_to
trimmed_empty f a b [] h = refl
trimmed_empty f a b (p ∷ m) h = absurd (ground (arith, h))

remove-trimmed :
    (a b : ℕ) (r : RangeSet)
    → a < b
    → remove (a, b) r ≡ record r { set = trimmed (suc (length r.set)) a b r.set }
unfolding remove trimmed
remove-trimmed a b r h = elim (Bool-cases (length r.set == 0)) [
  | inl z ↦
      kept z
      ∙ ap (λ (m : Map). record r { set = m }) (sym (trimmed_empty (length r.set) a b r.set z))
  | inr z ↦ elim (Option-cases (prev_to a r.set)) [
    | inl n ↦ ground (arith, z, n, cut_after-cut (suc (length r.set)) a b r)
    | inr ((s, e), n) ↦ ground (
      arith,
      z,
      n,
      cut_after-cut (suc (length r.set)) a b r,
      length-split_prev a b s e r.set,
      cut_after-cut (suc (length r.set)) a b (record r { set = split_prev (a, b) (s, e) r.set }),
    )
  ]
]
  where
    kept : (length r.set == 0) ≡ true → remove (a, b) r ≡ r
    kept z = rw z

-- Removing a non-empty range from a set whose ranges are in order, none empty and no two touching,
-- keeps that so, keeps the capacity, and takes away exactly the elements of the range.
pub remove_lem :
    (a b x : ℕ) (r : RangeSet)
    → a < b
    → Above 0 r.set
    → Above 0 (remove (a, b) r).set
      × ((remove (a, b) r).capacity ≡ r.capacity)
      × (covered (remove (a, b) r).set x ≡ (covered r.set x && not (leb a x && ltb x b)))
remove_lem a b x r h v =
    rw (remove-trimmed a b r h, trimmed-subtract (suc (length r.set)) 0 a b r.set h (omega arith) v)
      (subtract-Above 0 a b r.set h v, refl, covered-subtract 0 a b x r.set h v)
