-- ===== src/Ranges/Absorb.antt =====
-- The loop of `insert` that joins the ranges behind the new one: it is one pass, and its fuel is enough.
use raw_quic.Prelude.{
  Option-cases, [], arith, if◌then◌else◌, inl, inr, length, ltb, max, refl, some, suc, zero, ℕ, ◌<◌,
  ◌∷◌, ◌≡◌, ◌≤◌,
}
use raw_quic.Ranges.Entries.{Map, Range, remove_key, insert_key, next_to}
use raw_quic.Ranges.{absorb}
use raw_quic.Ranges.Merge.{Above, Above-le, merge}

-- `insert` behind the merge of the preceding range, on the map alone.
unfoldable pub merged : ℕ → ℕ → ℕ → Map → Map
merged f start stop m = insert_key start (absorb f m start stop).1 (absorb f m start stop).0

-- The ranges that begin up to `stop` joined, where all begin behind the new one.
walk : Map → ℕ → Map × ℕ
walk [] stop = ([], stop)
walk ((s, e) ∷ m) stop =
    let rest = walk m (max e stop) in if ltb stop s then ((s, e) ∷ m, stop) else rest

absorb-walk :
    (f start stop lo : ℕ) (m : Map)
    → length m ≤ f
    → start ≤ lo
    → Above lo m
    → absorb f m start stop ≡ walk m stop
unfolding absorb walk next_to remove_key
absorb-walk zero start stop lo [] h k v = refl
absorb-walk (suc f) start stop lo [] h k v = refl
absorb-walk zero start stop lo ((s, e) ∷ m) h k v = absurd (omega arith)
absorb-walk (suc f) start stop lo ((s, e) ∷ m) h k v =
    ground (arith, absorb-walk f start (max e stop) (suc e) m)

pub next_to_ge : (k : ℕ) (m : Map) (a b : ℕ) → next_to k m ≡ some (a, b) → k ≤ a
unfolding next_to
next_to_ge k [] a b h = cc
next_to_ge k ((s, e) ∷ m) a b h = ground (arith, next_to_ge k m a b)

push : Range → Map × ℕ → Map × ℕ
push p (m, b) = (p ∷ m, b)

-- Entries that begin before `start` are passed over.
absorb_skip :
    (f s e start stop : ℕ) (m : Map)
    → s < start
    → absorb f ((s, e) ∷ m) start stop ≡ push (s, e) (absorb f m start stop)
unfolding absorb push next_to remove_key
absorb_skip zero s e start stop m h = refl
absorb_skip (suc f) s e start stop m h = elim (Option-cases (next_to start m)) [
  | inl q ↦ ground (arith, q)
  | inr ((a, b), q) ↦
      ground (
        arith,
        q,
        next_to_ge start m a b q,
        absorb_skip f s e start (max b stop) (remove_key a m) h,
      )
]

pub merged_skip :
    (f s e start stop : ℕ) (m : Map)
    → s < start
    → merged f start stop ((s, e) ∷ m) ≡ (s, e) ∷ merged f start stop m
unfolding merged push insert_key
merged_skip f s e start stop m h = rw (absorb_skip f s e start stop m h) (ground arith)

insert_key-walk :
    (start stop : ℕ) (m : Map)
    → Above (suc start) m
    → insert_key start (walk m stop).1 (walk m stop).0 ≡ merge start stop m
unfolding walk merge insert_key
insert_key-walk start stop [] v = refl
insert_key-walk start stop ((s, e) ∷ m) v =
    ground (arith, Above-le m (suc start) (suc e), insert_key-walk start (max e stop) m)

pub merged-behind :
    (f start stop : ℕ) (m : Map)
    → length m ≤ f
    → Above (suc start) m
    → merged f start stop m ≡ merge start stop m
unfolding merged
merged-behind f start stop m h v =
    rw (absorb-walk f start stop (suc start) m h (omega arith) v) (insert_key-walk start stop m v)

pub length-remove_key : (k : ℕ) (m : Map) → length (remove_key k m) ≤ length m
unfolding remove_key
length-remove_key k [] = omega arith
length-remove_key k ((s, e) ∷ m) = ground (arith, length-remove_key k m)

pub remove_key-next_to :
    (k s e : ℕ) (m : Map) → next_to k m ≡ some (s, e) → suc (length (remove_key s m)) ≡ length m
unfolding next_to remove_key
remove_key-next_to k s e [] h = cc
remove_key-next_to k s e ((s', e') ∷ m) h = ground (arith, remove_key-next_to k s e m)

-- The fuel does not matter once it reaches the number of entries: the loop ends by its tests.
pub absorb_fuel :
    (f g start stop : ℕ) (m : Map)
    → length m ≤ f
    → length m ≤ g
    → absorb f m start stop ≡ absorb g m start stop
unfolding absorb next_to
absorb_fuel zero zero start stop m h k = refl
absorb_fuel zero (suc g) start stop [] h k = refl
absorb_fuel zero (suc g) start stop (p ∷ m) h k = absurd (omega arith)
absorb_fuel (suc f) zero start stop [] h k = refl
absorb_fuel (suc f) zero start stop (p ∷ m) h k = absurd (omega arith)
absorb_fuel (suc f) (suc g) start stop m h k = elim (Option-cases (next_to start m)) [
  | inl n ↦ rw (n, absorb)
  | inr ((s, e), n) ↦ ground (
    arith,
    n,
    remove_key-next_to start s e m n,
    absorb_fuel f g start (max e stop) (remove_key s m),
  )
]

pub length-absorb : (f start stop : ℕ) (m : Map) → length (absorb f m start stop).0 ≤ length m
unfolding absorb
length-absorb zero start stop m = omega arith
length-absorb (suc f) start stop m = elim (Option-cases (next_to start m)) [
  | inl n ↦ ground (arith, n)
  | inr ((s, e), n) ↦
      ground (arith, n, length-remove_key s m, length-absorb f start (max e stop) (remove_key s m))
]
