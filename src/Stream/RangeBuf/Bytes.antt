-- ===== src/Stream/RangeBuf/Bytes.antt =====
-- The byte that a chunk holds at an offset of the stream.
use raw_quic.Prelude.{
  Bool-cases, List, Option, [], ap, arith, drop, get_elem?, if◌then◌else◌, inl, inr, leb, length,
  ltb, none, refl, some, suc, take, zero, ℕ, ◌&&◌, ◌+◌, ◌-◌, ◌<◌, ◌∷◌, ◌≡◌, ◌≤◌, ◌⊎◌,
}
use raw_quic.Error.{ok}
use raw_quic.Stream.RangeBuf.{RangeBuf, len, max_off, advance, advanced, split_off, cut_at}

module _ {ℓ} {A : Type ℓ} where
  pub get_elem?-beyond : (xs : List A) (i : ℕ) → length xs ≤ i → get_elem? xs i ≡ none
  get_elem?-beyond [] i h = refl
  get_elem?-beyond (x ∷ xs) zero h = absurd (omega arith)
  get_elem?-beyond (x ∷ xs) (suc i) h = get_elem?-beyond xs i (omega arith)

  pub get_elem?-within : (xs : List A) (i : ℕ) → i < length xs → (v : A) × (get_elem? xs i ≡ some v)
  get_elem?-within [] i h = absurd (omega arith)
  get_elem?-within (x ∷ xs) zero h = (x, refl)
  get_elem?-within (x ∷ xs) (suc i) h = get_elem?-within xs i (omega arith)

  pub get_elem?-drop :
      (n : ℕ) (xs : List A) (i : ℕ) → get_elem? (drop n xs) i ≡ get_elem? xs (n + i)
  get_elem?-drop zero xs i = ap (get_elem? xs) (omega arith)
  get_elem?-drop (suc n) [] i = refl
  get_elem?-drop (suc n) (x ∷ xs) i =
      let e : suc n + i ≡ suc (n + i) = omega arith in rw e (get_elem?-drop n xs i)

  pub get_elem?-take :
      (n : ℕ) (xs : List A) (i : ℕ)
      → get_elem? (take n xs) i ≡ (if ltb i n then get_elem? xs i else none)
  get_elem?-take zero xs i = ground arith
  get_elem?-take (suc n) [] i = ground arith
  get_elem?-take (suc n) (x ∷ xs) zero = ground arith
  get_elem?-take (suc n) (x ∷ xs) (suc i) = ground (arith, get_elem?-take n xs i)

unfoldable pub byte_at : RangeBuf → ℕ → Option ℕ
byte_at b x = if leb b.off x then get_elem? b.bytes (x - b.off) else none

-- The first, or else the second.
abbrev pub or_else : Option ℕ → Option ℕ → Option ℕ
or_else none b = b
or_else (some v) b = some v

pub byte_at_outside : (b : RangeBuf) (x : ℕ) → (x < b.off) ⊎ (max_off b ≤ x) → byte_at b x ≡ none
unfolding byte_at
byte_at_outside b x h = ground (arith, get_elem?-beyond b.bytes (x - b.off))

pub byte_at_inside :
    (b : RangeBuf) (x : ℕ) → b.off ≤ x → x < max_off b → (v : ℕ) × (byte_at b x ≡ some v)
unfolding byte_at
byte_at_inside b x h k =
    let (v, e) = get_elem?-within b.bytes (x - b.off) (omega arith) in (v, ground (arith, e))

pub byte_at-advanced :
    (n : ℕ) (b : RangeBuf) (x : ℕ)
    → byte_at (advanced n b) x ≡ (if ltb x (b.off + n) then none else byte_at b x)
unfolding byte_at advanced
byte_at-advanced n b x =
    let e : b.off + n ≤ x → n + (x - (b.off + n)) ≡ x - b.off = λ h. omega arith in
    ground (arith, get_elem?-drop n b.bytes (x - (b.off + n)), e)

pub byte_at-cut_at :
    (n : ℕ) (b : RangeBuf) (x : ℕ)
    → (byte_at (cut_at n b).0 x ≡ (if ltb x (b.off + n) then byte_at b x else none))
      × (byte_at (cut_at n b).1 x ≡ (if ltb x (b.off + n) then none else byte_at b x))
unfolding byte_at cut_at
byte_at-cut_at n b x =
    let e : b.off + n ≤ x → n + (x - (b.off + n)) ≡ x - b.off = λ h. omega arith in
    ground
      (arith, get_elem?-drop n b.bytes (x - (b.off + n)), get_elem?-take n b.bytes (x - b.off), e)

-- Where a chunk holds a byte, and where it does not.
pub byte_at-cases :
    (b : RangeBuf) (x : ℕ)
    → (((x < b.off) ⊎ (max_off b ≤ x)) × (byte_at b x ≡ none))
      ⊎ ((v : ℕ) × (b.off ≤ x) × (x < max_off b) × (byte_at b x ≡ some v))
byte_at-cases b x = elim (Bool-cases (leb b.off x && ltb x (max_off b))) [
  | inl h ↦
      let (v, e) = byte_at_inside b x (ground (arith, h)) (ground (arith, h)) in
      inr (v, ground (arith, h), ground (arith, h), e)
  | inr h ↦
      let o : (x < b.off) ⊎ (max_off b ≤ x) = ground (arith, h) in inl (o, byte_at_outside b x o)
]

-- Within the chunk, `advance` and `split_off` do not panic.
pub advance_within : (n : ℕ) (b : RangeBuf) → n ≤ len b → advance n b ≡ ok (advanced n b)
unfolding advance
advance_within n b h = ground arith

pub split_off_within : (n : ℕ) (b : RangeBuf) → n ≤ len b → split_off n b ≡ ok (cut_at n b)
unfolding split_off
split_off_within n b h = ground arith
