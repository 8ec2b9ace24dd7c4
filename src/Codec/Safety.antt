-- ===== src/Codec/Safety.antt =====
-- Readers on any bytes: they fail or return, and never panic.
use raw_quic.Prelude.{
  All, Bool, Bool-cases, List, [], arith, drop, false, if◌then◌else◌, inl, inr, length, length-drop,
  length-take, ltb, refl, suc, take, true, zero, ℕ, ◌%◌, ◌+◌, ◌/◌, ◌<◌, ◌==◌, ◌^◌, ◌∷◌, ◌≡◌, ◌≤◌,
  ◌⊎◌,
}
use raw_quic.Error
use raw_quic.Error.{Result, ok, err, panic, Error}
use raw_quic.Codec.Decoder
use raw_quic.Codec.{decode_varint_len}
use raw_quic.Codec.Decoder.{
  read_varint, read_varint_body, read_u8, read_u16, read_u32, read_u64, read_with_varint_length,
  read_with_u8_length, Decoder, ◌>>=◌, get_uint, read,
}

-- The result, if there is one, has the property; a failure is allowed, a panic is not.
abbrev pub Ensures : {A : Type 0} → (A → Type 0) → Result A → Type 0
Ensures P (ok a) = P a
Ensures P (err e) = Unit {0}
Ensures P panic = ⊥

pub bind-Ensures :
    {A B : Type 0} (P : A → Type 0) (Q : B → Type 0) (m : Result A) (k : A → Result B)
    → Ensures P m
    → ((a : A) → P a → Ensures Q (k a))
    → Ensures Q (Error.◌>>=◌ m k)
bind-Ensures P Q (ok a) k h g = g a h
bind-Ensures P Q (err e) k h g = tt
bind-Ensures P Q panic k h g = h

pub if-Ensures :
    {A : Type 0} (P : A → Type 0) (b : Bool) (x y : Result A)
    → (b ≡ true → Ensures P x)
    → (b ≡ false → Ensures P y)
    → Ensures P (if b then x else y)
if-Ensures P true x y h g = h refl
if-Ensures P false x y h g = g refl

abbrev pub IsBytes : List ℕ → Type 0
IsBytes s = All (λ b. b < 256) s

pub take-IsBytes : (n : ℕ) (s : List ℕ) → IsBytes s → IsBytes (take n s)
take-IsBytes zero s h = tt
take-IsBytes (suc n) [] h = tt
take-IsBytes (suc n) (b ∷ s) h = (h.0, take-IsBytes n s h.1)

pub drop-IsBytes : (n : ℕ) (s : List ℕ) → IsBytes s → IsBytes (drop n s)
drop-IsBytes zero s h = h
drop-IsBytes (suc n) [] h = tt
drop-IsBytes (suc n) (b ∷ s) h = drop-IsBytes n s h.1

-- What is left of `s`: bytes, and at least `k` fewer.
abbrev pub Left : ℕ → List ℕ → List ℕ → Type 0
Left k s rest = IsBytes rest × (length rest + k ≤ length s)

-- The reader takes at least `k` bytes, if it returns.
abbrev pub Safe : {A : Type 0} → (A → Type 0) → ℕ → Decoder A → Type 0
Safe {A} P k m =
    (s : List ℕ) → IsBytes s → Ensures {A = A × List ℕ} (λ r. P r.0 × Left k s r.1) (m s)

pub bind-Safe :
    {A B : Type 0} (P : A → Type 0) (Q : B → Type 0) (j k : ℕ) (m : Decoder A) (f : A → Decoder B)
    → Safe P j m
    → ((a : A) → P a → Safe Q k (f a))
    → Safe Q (j + k) (m >>= f)
bind-Safe {B = B} P Q j k m f h g s b =
    bind-Ensures (λ r. P r.0 × Left j s r.1) (λ r. Q r.0 × Left (j + k) s r.1) (m s)
      (λ r. f r.0 r.1) (h s b) (λ r p. widen (f r.0 r.1) r.1 p.1.1 (g r.0 p.0 r.1 p.1.0))
  where
    widen :
        (r : Result (B × List ℕ)) (mid : List ℕ)
        → length mid + j ≤ length s
        → Ensures (λ r. Q r.0 × Left k mid r.1) r
        → Ensures (λ r. Q r.0 × Left (j + k) s r.1) r
    widen (ok r) mid e p = (p.0, (p.1.0, omega (arith, e, p.1.1)))
    widen (err x) mid e p = tt
    widen panic mid e p = p

-- A reader of exactly `k` bytes, behind the check of the length.
pub cut-Safe :
    {A : Type 0} (P : A → Type 0) (k : ℕ) (a : A) (s : List ℕ)
    → (k ≤ length s → P a)
    → IsBytes s
    → Ensures {A = A × List ℕ}
        (λ r. P r.0 × Left k s r.1)
        (if ltb (length s) k then err Error.buffer_too_short else ok (a, drop k s))
cut-Safe {A} P k a s h b =
    if-Ensures {A = A × List ℕ} (λ r. P r.0 × Left k s r.1) (ltb (length s) k) _ _ (λ c. tt)
      (λ c. (h (ground (arith, c)), (drop-IsBytes k s b, ground (arith, c, length-drop k s))))

abbrev pub Any : {A : Type 0} → A → Type 0
Any a = Unit {0}

pub get_uint-Safe : (k : ℕ) → Safe {A = ℕ} Any k (get_uint k)
unfolding get_uint
get_uint-Safe k s b = cut-Safe Any k (Decoder.be_value 0 (take k s)) s (λ _. tt) b

-- Exactly the bytes asked for.
pub read-Safe : (n : ℕ) → Safe (λ v. IsBytes v × (length v ≡ n)) n (read n)
unfolding read
read-Safe n s b =
    cut-Safe (λ v. IsBytes v × (length v ≡ n)) n (take n s) s
      (λ e. (take-IsBytes n s b, ground (arith, e, length-take n s))) b

-- A weaker property, and fewer bytes taken.
pub weaken-Safe :
    {A : Type 0} (P Q : A → Type 0) (j k : ℕ) (m : Decoder A)
    → ((a : A) → P a → Q a)
    → k ≤ j
    → Safe P j m
    → Safe Q k m
weaken-Safe {A} P Q j k m f e h s b = weaken (m s) (h s b)
  where
    weaken :
        (r : Result (A × List ℕ))
        → Ensures (λ r. P r.0 × Left j s r.1) r
        → Ensures (λ r. Q r.0 × Left k s r.1) r
    weaken (ok r) p = (f r.0 p.0, (p.1.0, omega (arith, p.1.1)))
    weaken (err x) p = tt
    weaken panic p = p

pub return-Safe : {A : Type 0} (P : A → Type 0) (a : A) → P a → Safe P 0 (Decoder.return a)
return-Safe P a p s b = (p, (b, omega arith))

pub lift-Safe :
    {A : Type 0} (P : A → Type 0) (r : Result A) → Ensures P r → Safe P 0 (Decoder.lift r)
lift-Safe P (ok a) p s b = (p, (b, omega arith))
lift-Safe P (err e) p s b = tt
lift-Safe P panic p s b = p

-- The four lengths that the first byte of a varint tells.
varint_len-cases :
    (first : ℕ)
    → first < 256
    → (len : ℕ) × (decode_varint_len first ≡ ok len)
      × ((len ≡ 1) ⊎ ((len ≡ 2) ⊎ ((len ≡ 4) ⊎ (len ≡ 8))))
unfolding decode_varint_len
varint_len-cases first h = elim (Bool-cases (first / 2 ^ 6 == 0)) [
  | inl a ↦ (1, rw a refl, inl refl)
  | inr a ↦ elim (Bool-cases (first / 2 ^ 6 == 1)) [
    | inl b ↦ (2, rw (a, b) refl, inr (inl refl))
    | inr b ↦ elim (Bool-cases (first / 2 ^ 6 == 2)) [
      | inl c ↦ (4, rw (a, b, c) refl, inr (inr (inl refl)))
      | inr c ↦
          (let d : (first / 2 ^ 6 == 3) ≡ true = ground arith in
            (8, rw (a, b, c, d) refl, inr (inr (inr refl))))
    ]
  ]
]

masked-Safe :
    (j m : ℕ) (r : Decoder ℕ)
    → Safe {A = ℕ} Any j r
    → 1 ≤ j
    → Safe {A = ℕ} Any 1 (do v ← r; Decoder.return (v % 2 ^ m))
masked-Safe j m r h e =
    weaken-Safe {A = ℕ} Any Any (j + 0) 1 (do v ← r; Decoder.return (v % 2 ^ m)) (λ a p. p)
      (omega arith)
      (bind-Safe {A = ℕ} {B = ℕ} Any Any j 0 r (λ v. Decoder.return (v % 2 ^ m)) h
        (λ v p. return-Safe {A = ℕ} Any (v % 2 ^ m) tt))

body-Safe :
    (len : ℕ)
    → (len ≡ 1) ⊎ ((len ≡ 2) ⊎ ((len ≡ 4) ⊎ (len ≡ 8)))
    → Safe {A = ℕ} Any 1 (read_varint_body len)
unfolding read_varint_body
body-Safe len (inl e) = rw e (get_uint-Safe 1)
body-Safe len (inr (inl e)) = rw e (masked-Safe 2 14 read_u16 (get_uint-Safe 2) (omega arith))
body-Safe len (inr (inr (inl e))) = rw e (masked-Safe 4 30 read_u32 (get_uint-Safe 4) (omega arith))
body-Safe len (inr (inr (inr e))) = rw e (masked-Safe 8 62 read_u64 (get_uint-Safe 8) (omega arith))

pub read_varint-Safe : Safe {A = ℕ} Any 1 read_varint
unfolding read_varint
read_varint-Safe [] b = tt
read_varint-Safe (first ∷ rest) b =
    let (len, e, c) = varint_len-cases first b.0 in
    rw e (
      if-Ensures {A = ℕ × List ℕ} (λ r. Any r.0 × Left 1 (first ∷ rest) r.1)
        (ltb (length (first ∷ rest)) len) (err Error.buffer_too_short)
        (read_varint_body len (first ∷ rest)) (λ _. tt) (λ _. body-Safe len c (first ∷ rest) b))

pub read_with_varint_length-Safe : Safe IsBytes 1 read_with_varint_length
unfolding read_with_varint_length
read_with_varint_length-Safe =
    bind-Safe {A = ℕ} Any IsBytes 1 0 read_varint read read_varint-Safe (λ n _.
      weaken-Safe (λ v. IsBytes v × (length v ≡ n)) IsBytes n 0 (read n) (λ v p. p.0) (omega arith)
        (read-Safe n))

pub read_with_u8_length-Safe : Safe IsBytes 1 read_with_u8_length
unfolding read_with_u8_length
read_with_u8_length-Safe = bind-Safe {A = ℕ} Any IsBytes 1 0 read_u8 read (get_uint-Safe 1) (λ n _.
    weaken-Safe (λ v. IsBytes v × (length v ≡ n)) IsBytes n 0 (read n) (λ v p. p.0) (omega arith)
      (read-Safe n))

pub read_u8-Safe : Safe {A = ℕ} Any 1 read_u8
unfolding read_u8
read_u8-Safe = get_uint-Safe 1

pub read_u16-Safe : Safe {A = ℕ} Any 2 read_u16
unfolding read_u16
read_u16-Safe = get_uint-Safe 2

pub read_u32-Safe : Safe {A = ℕ} Any 4 read_u32
unfolding read_u32
read_u32-Safe = get_uint-Safe 4

-- Steps in sequence, where the count of the bytes does not matter.
pub step-Safe :
    {A B : Type 0} (P : A → Type 0) (Q : B → Type 0) (j : ℕ) (m : Decoder A) (f : A → Decoder B)
    → Safe P j m
    → ((a : A) → P a → Safe Q 0 (f a))
    → Safe Q 0 (m >>= f)
step-Safe P Q j m f h g =
    weaken-Safe Q Q (j + 0) 0 (m >>= f) (λ a p. p) (omega arith) (bind-Safe P Q j 0 m f h g)

pub read-IsBytes : (n : ℕ) → Safe IsBytes 0 (read n)
read-IsBytes n =
    weaken-Safe (λ v. IsBytes v × (length v ≡ n)) IsBytes n 0 (read n) (λ v p. p.0) (omega arith)
      (read-Safe n)
