-- ===== src/Stream/Concurrency/Side.antt =====
-- One limit of `ConcurrencyControl` with the streams opened under it and the ids available.
use raw_quic.Prelude.{
  Bool-cases, [], add64, arith, false, inl, inr, leb, length, ltb, refl, suc, sym, true, ℕ, ◌*◌,
  ◌-◌, ◌<◌, ◌==◌, ◌^◌, ◌∙◌, ◌∷◌, ◌≡◌, ◌≤◌,
}
use raw_quic.Ranges.Subtract.{contains-covered}
use raw_quic.Ranges
use raw_quic.Ranges.{RangeSet, usize_max}
use raw_quic.Ranges.Entries.{Map}
use raw_quic.Ranges.Remove.{remove_lem}
use raw_quic.Ranges.Merge.{Above, covered}
use raw_quic.Ranges.Insert.{insert_lem}

-- The set of ids is well formed and holds none from the limit on, and no more streams are opened than
-- the limit admits.
pub record Side (opened limit : ℕ) (avail : RangeSet) : Type 0 where
  pub opened_below : opened ≤ limit
  pub fits : limit < 2 ^ 64
  pub above : Above 0 avail.set
  pub room : avail.capacity ≡ usize_max
  pub below : (x : ℕ) → covered avail.set x ≡ true → x < limit

-- Each range takes a number and the gap behind it.
length_below :
    (lo hi : ℕ) (m : Map)
    → Above lo m
    → ((x : ℕ) → covered m x ≡ true → x < hi)
    → length m * 2 ≤ suc hi - lo
unfolding covered
length_below lo hi [] v h = omega arith
length_below lo hi ((s, e) ∷ m) v h =
    let l = length_below (suc e) hi m v.2 (λ x c. h x (ground (arith, c))) in
    let k : e - 1 < hi = h (e - 1) (ground (arith, v)) in omega (arith, v, l, k)

-- A higher limit makes the ids up to it available.
pub raise-Side :
    (opened limit max_streams : ℕ) (avail : RangeSet)
    → limit < max_streams
    → max_streams < 2 ^ 64
    → Side opened limit avail
    → Side opened max_streams (Ranges.insert (limit, max_streams) avail)
raise-Side opened limit max_streams avail l f s =
    let p =
      insert_lem limit max_streams 0 avail l
        (s.above, omega (arith, length_below 0 limit avail.set s.above s.below, s.room, s.fits)) in
    record {
      opened_below = omega (arith, s.opened_below);
      fits = f;
      above = p.0;
      room = p.1 ∙ s.room;
      below = λ x c.
          let q = insert_lem limit max_streams x avail l (
            s.above,
            omega (arith, length_below 0 limit avail.set s.above s.below, s.room, s.fits),
          ) in
          ground (arith, c, q.2, s.below x);
    }

remove_nothing : (a b : ℕ) (r : RangeSet) → leb b a ≡ true → Ranges.remove (a, b) r ≡ r
unfolding Ranges.remove
remove_nothing a b r h = elim (Bool-cases (length r.set == 0)) [
  | inl c ↦ rw c refl
  | inr c ↦ rw (c, h) refl
]

-- Taking an id out keeps the set so.
pub remove-Side :
    (opened limit id : ℕ) (avail : RangeSet)
    → Side opened limit avail
    → Side opened limit (Ranges.remove_elem id avail)
unfolding Ranges.remove_elem
remove-Side opened limit id avail s = elim (Bool-cases (leb (add64 id 1) id)) [
  | inl c ↦ rw (remove_nothing id (add64 id 1) avail c) s
  | inr c ↦
      let p = remove_lem id (add64 id 1) 0 avail (lt_of (add64 id 1) c) s.above in
      record {
        opened_below = s.opened_below;
        fits = s.fits;
        above = p.0;
        room = p.1 ∙ s.room;
        below = λ x k.
            let q = remove_lem id (add64 id 1) x avail (lt_of (add64 id 1) c) s.above in
            ground (arith, k, q.2, s.below x);
      }
]
  where
    lt_of : (b : ℕ) → leb b id ≡ false → id < b
    lt_of b c = ground (arith, c)

-- More streams may be opened up to the limit.
pub open-Side :
    (opened limit n : ℕ) (avail : RangeSet)
    → n ≤ limit
    → Side opened limit avail
    → Side n limit avail
open-Side opened limit n avail h s = record {
  opened_below = h;
  fits = s.fits;
  above = s.above;
  room = s.room;
  below = s.below;
}

pub empty-Side : Side 0 0 Ranges.default
unfolding Ranges.default covered
empty-Side = record {
  opened_below = omega arith;
  fits = omega arith;
  above = tt;
  room = refl;
  below = λ x c. absurd (cc c);
}

-- The initial set, for a limit that may be 0.
pub new-Side : (limit : ℕ) → limit < 2 ^ 64 → Side 0 limit (Ranges.insert (0, limit) Ranges.default)
unfolding Ranges.default
new-Side limit f = elim (Bool-cases (ltb 0 limit)) [
  | inl c ↦ raise-Side 0 0 limit Ranges.default (ground (arith, c)) f empty-Side
  | inr c ↦ let e : limit ≡ 0 = ground (arith, c) in rw e (unfold Ranges.insert in empty-Side)
]

-- An id that is available is not over the limit.
pub Side-available :
    (opened limit id : ℕ) (avail : RangeSet)
    → Side opened limit avail
    → Ranges.contains id avail ≡ true
    → id < limit
Side-available opened limit id avail s h = s.below id (sym (contains-covered id avail s.above) ∙ h)
