-- ===== src/Ranges/Subtract.antt =====
-- Removal in one pass, and `contains` against what the set holds.
use raw_quic.Prelude.{
  Bool-cases, Option-cases, [], arith, false, if◌then◌else◌, inl, inr, leb, length, ltb, none, not,
  refl, some, suc, true, zero, ℕ, ◌&&◌, ◌<◌, ◌||◌, ◌∷◌, ◌≡◌, ◌≤◌,
}
use raw_quic.Ranges.Entries.{Map, remove_key, insert_key, prev_to, next_to}
use raw_quic.Ranges
use raw_quic.Ranges.{cut, Range, RangeSet, in_range}
use raw_quic.Ranges.Merge.{Above, Above-le, covered}

-- The reference definition of removal: the parts of each range that lie outside [a, b).
unfoldable pub subtract : ℕ → ℕ → Map → Map
subtract a b [] = []
subtract a b ((s, e) ∷ m) =
    let rest = subtract a b m in
    let behind = if ltb b e then (b, e) ∷ rest else rest in
    if leb e a || leb b s then (s, e) ∷ rest else if ltb s a then (s, a) ∷ behind else behind

pub subtract-Above : (lo a b : ℕ) (m : Map) → a < b → Above lo m → Above lo (subtract a b m)
unfolding subtract
subtract-Above lo a b [] h v = tt
subtract-Above lo a b ((s, e) ∷ m) h v = ground (
  arith,
  subtract-Above (suc e) a b m,
  Above-le (subtract a b m) lo (suc e),
  Above-le (subtract a b m) (suc a) (suc e),
)

pub covered-subtract :
    (lo a b x : ℕ) (m : Map)
    → a < b
    → Above lo m
    → covered (subtract a b m) x ≡ (covered m x && not (leb a x && ltb x b))
unfolding subtract covered
covered-subtract lo a b x [] h v = refl
covered-subtract lo a b x ((s, e) ∷ m) h v =
    let ih = covered-subtract (suc e) a b x m h v.2 in
    elim (Bool-cases (leb e a || leb b s)) [
      | inl o ↦ simp (o, ih) (apart o)
      | inr o ↦ elim (Bool-cases (ltb s a)) [
        | inl p ↦ elim (Bool-cases (ltb b e)) [
          | inl q ↦ simp (o, p, q, ih) (pieces o p q)
          | inr q ↦ simp (o, p, q, ih) (ground (arith, o, p, q))
        ]
        | inr p ↦ elim (Bool-cases (ltb b e)) [
          | inl q ↦ simp (o, p, q, ih) (ground (arith, o, p, q))
          | inr q ↦ simp (o, p, q, ih) (ground (arith, o, p, q))
        ]
      ]
    ]
  where
    apart :
        (leb e a || leb b s) ≡ true
        → ((leb s x && ltb x e) || (covered m x && not (leb a x && ltb x b)))
          ≡ (((leb s x && ltb x e) || covered m x) && not (leb a x && ltb x b))
    apart o = ground (arith, o)

    pieces :
        (leb e a || leb b s) ≡ false
        → ltb s a ≡ true
        → ltb b e ≡ true
        → ((leb s x && ltb x a)
            || ((leb b x && ltb x e) || (covered m x && not (leb a x && ltb x b))))
          ≡ (((leb s x && ltb x e) || covered m x) && not (leb a x && ltb x b))
    pieces o p q = ground (arith, o, p, q)

-- Ranges behind [a, b) stay.
pub subtract_behind : (a b lo : ℕ) (m : Map) → b ≤ lo → Above lo m → subtract a b m ≡ m
unfolding subtract
subtract_behind a b lo [] h v = refl
subtract_behind a b lo ((s, e) ∷ m) h v = ground (arith, subtract_behind a b (suc e) m)

pub insert_key_front : (k v : ℕ) (m : Map) → k < v → Above (suc v) m → insert_key k v m ≡ (k, v) ∷ m
unfolding insert_key
insert_key_front k v [] h a = refl
insert_key_front k v ((s, e) ∷ m) h a = ground arith

-- The loop, where all ranges begin at `start` or behind it.
pub cut-subtract :
    (f start stop lo : ℕ) (m : Map)
    → length m ≤ f
    → start < stop
    → start ≤ lo
    → Above lo m
    → cut f m start stop ≡ subtract start stop m
unfolding cut subtract next_to remove_key insert_key
cut-subtract zero start stop lo [] h p k v = refl
cut-subtract (suc f) start stop lo [] h p k v = refl
cut-subtract zero start stop lo ((s, e) ∷ m) h p k v = absurd (omega arith)
cut-subtract (suc f) start stop lo ((s, e) ∷ m) h p k v = ground (
  arith,
  cut-subtract f start stop (suc e) m,
  subtract_behind start stop (suc e) m,
  insert_key_front stop e m,
)

pub prev_to_from :
    (lo x : ℕ) (p : Range) (m : Map) → Above lo m → prev_to x m ≡ some p → (lo ≤ p.0) × (p.0 ≤ x)
unfolding prev_to
prev_to_from lo x p [] v h = cc
prev_to_from lo x p ((s, e) ∷ m) v h = elim (Option-cases (prev_to x m)) [
  | inl n ↦ ground (arith, n, h)
  | inr (q, n) ↦ ground (arith, n, h, prev_to_from (suc e) x q m v.2 n)
]

covered-prev_to :
    (lo x : ℕ) (m : Map)
    → Above lo m
    → covered m x ≡ (elim (prev_to x m) [ none ↦ false | some p ↦ ltb x p.1 ])
unfolding covered prev_to
covered-prev_to lo x [] v = refl
covered-prev_to lo x ((s, e) ∷ m) v = elim (Option-cases (prev_to x m)) [
  | inl n ↦ ground (arith, n, covered-prev_to (suc e) x m v.2)
  | inr (p, n) ↦
      ground (arith, n, covered-prev_to (suc e) x m v.2, prev_to_from (suc e) x p m v.2 n)
]

covered-next_to :
    (x : ℕ) (p : Range) (m : Map) → next_to x m ≡ some p → in_range x p ≡ true → covered m x ≡ true
unfolding covered next_to
covered-next_to x p [] n h = cc
covered-next_to x p ((s, e) ∷ m) n h = ground (arith, n, h, covered-next_to x p m)

-- `contains` answers whether the set holds the number.
pub contains-covered :
    (x : ℕ) (r : RangeSet) → Above 0 r.set → Ranges.contains x r ≡ covered r.set x
unfolding Ranges.contains
contains-covered x r v =
    let c = covered-prev_to 0 x r.set v in
    elim (Option-cases (next_to x r.set)) [
      | inl n ↦ elim (Option-cases (prev_to x r.set)) [
        | inl p ↦ ground (arith, n, p, c)
        | inr (q, p) ↦ ground (arith, n, p, c, prev_to_from 0 x q r.set v p)
      ]
      | inr (k, n) ↦ elim (Option-cases (prev_to x r.set)) [
        | inl p ↦ ground (arith, n, p, c, covered-next_to x k r.set n)
        | inr (q, p) ↦
            ground (arith, n, p, c, covered-next_to x k r.set n, prev_to_from 0 x q r.set v p)
      ]
    ]
