-- ===== src/Ranges/Merge.antt =====
-- Well-formed sets, what they hold, and insertion as one pass over the ranges.
use raw_quic.Prelude.{
  Bool, [], arith, false, if◌then◌else◌, leb, ltb, max, min, refl, suc, ℕ, ◌&&◌, ◌<◌, ◌||◌, ◌∷◌,
  ◌≡◌, ◌≤◌,
}
use raw_quic.Ranges.Entries.{Map}

-- Ranges from `lo` on, in order, none of them empty, and no two of them touching.
abbrev pub Above : ℕ → Map → Type 0
Above lo [] = Unit {0}
Above lo ((s, e) ∷ m) = (lo ≤ s) × (s < e) × Above (suc e) m

-- The elements of the set.
unfoldable pub covered : Map → ℕ → Bool
covered [] x = false
covered ((s, e) ∷ m) x = (leb s x && ltb x e) || covered m x

-- The reference definition of insertion: ranges that touch [a, b) join it.
unfoldable pub merge : ℕ → ℕ → Map → Map
merge a b [] = (a, b) ∷ []
merge a b ((s, e) ∷ m) =
    if ltb e a
    then (s, e) ∷ merge a b m
    else if ltb b s
    then (a, b) ∷ (s, e) ∷ m
    else merge (min a s) (max e b) m

pub Above-le : (m : Map) (i j : ℕ) → i ≤ j → Above j m → Above i m
Above-le [] i j h v = tt
Above-le ((s, e) ∷ m) i j h (p, q, r) = (omega arith, q, r)

pub merge-Above : (lo a b : ℕ) (m : Map) → lo ≤ a → a < b → Above lo m → Above lo (merge a b m)
unfolding merge
merge-Above lo a b [] h k v = omega arith
merge-Above lo a b ((s, e) ∷ m) h k v =
    ground (
      arith,
      merge-Above (suc e) a b m,
      merge-Above lo (min a s) (max e b) m,
      Above-le m lo (suc e),
    )

pub covered_below : (lo x : ℕ) (m : Map) → Above lo m → x < lo → covered m x ≡ false
unfolding covered
covered_below lo x [] v h = refl
covered_below lo x ((s, e) ∷ m) v h = ground (arith, covered_below (suc e) x m)

-- Insertion adds the elements of the range, and no others.
pub covered-merge :
    (lo a b x : ℕ) (m : Map)
    → a < b
    → Above lo m
    → covered (merge a b m) x ≡ ((leb a x && ltb x b) || covered m x)
unfolding covered merge
covered-merge lo a b x [] h v = refl
covered-merge lo a b x ((s, e) ∷ m) h v =
    ground (arith, covered-merge (suc e) a b x m, covered-merge (suc e) (min a s) (max e b) x m)
