-- ===== src/Stream/Send/Chunks.antt =====
-- The chunks of a send buffer as a function from offsets to bytes.
use raw_quic.Prelude.{
  List, Option, [], ap, arith, drop, inr, none, refl, some, suc, sym, zero, ℕ, ◌+◌, ◌<◌, ◌∙◌, ◌∷◌,
  ◌≡◌, ◌≤◌,
}
use mathlib.Core.Path.{subst}
use raw_quic.Stream.RangeBuf.{RangeBuf, max_off}
use raw_quic.Stream.RangeBuf.Bytes.{byte_at, or_else, byte_at_outside}

-- Chunks that are not empty and follow each other without a gap, from one offset to another.
abbrev pub Joined : ℕ → List RangeBuf → ℕ → Type 0
Joined base [] end = base ≡ end
Joined base (b ∷ bs) end = (b.off ≡ base) × (base < max_off b) × Joined (max_off b) bs end

-- The byte that the chunks hold at an offset.
unfoldable pub byte_of : List RangeBuf → ℕ → Option ℕ
unfolding byte_at
byte_of [] x = none
byte_of (b ∷ bs) x = or_else (byte_at b x) (byte_of bs x)

pub Joined-le : (base end : ℕ) (bs : List RangeBuf) → Joined base bs end → base ≤ end
Joined-le base end [] j = omega arith
Joined-le base end (b ∷ bs) j = omega (arith, j, Joined-le (max_off b) end bs j.2)

pub byte_of_below :
    (base end x : ℕ) (bs : List RangeBuf) → Joined base bs end → x < base → byte_of bs x ≡ none
unfolding byte_of
byte_of_below base end x [] j h = refl
byte_of_below base end x (b ∷ bs) j h = rw (
  byte_at_outside b x (omega (arith, j)),
  byte_of_below (max_off b) end x bs j.2 (omega (arith, j)),
)

pub byte_of_head :
    (base end x : ℕ) (b : RangeBuf) (bs : List RangeBuf)
    → Joined base (b ∷ bs) end
    → x < max_off b
    → byte_of (b ∷ bs) x ≡ byte_at b x
unfolding byte_of
byte_of_head base end x b bs j h =
    rw (byte_of_below (max_off b) end x bs j.2 h) (or_none (byte_at b x))
  where
    or_none : (a : Option ℕ) → or_else a none ≡ a
    or_none none = refl
    or_none (some v) = refl

pub byte_of_tail :
    (b : RangeBuf) (bs : List RangeBuf) (x : ℕ) → max_off b ≤ x → byte_of (b ∷ bs) x ≡ byte_of bs x
unfolding byte_of
byte_of_tail b bs x h = rw (byte_at_outside b x (inr h)) refl

drop-nil {ℓ} : {A : Type ℓ} (n : ℕ) → drop {A = A} n [] ≡ []
drop-nil zero = refl
drop-nil (suc n) = refl

pub drop-drop {ℓ} : {A : Type ℓ} (i j : ℕ) (xs : List A) → drop j (drop i xs) ≡ drop (i + j) xs
drop-drop zero j xs = ap (λ n. drop n xs) (omega arith)
drop-drop (suc i) j [] = drop-nil j ∙ sym (drop-nil (suc i + j))
drop-drop (suc i) j (x ∷ xs) =
    let e : suc i + j ≡ suc (i + j) = omega arith in rw e (drop-drop i j xs)

-- The chunks from a position on hold all bytes from some offset on, up to `n`, or before it.
pub record At (n pos : ℕ) (bs : List RangeBuf) (end : ℕ) : Type 0 where
  pub lo : ℕ
  pub joined : Joined lo (drop pos bs) end
  pub below : lo ≤ n
  pub same : (x : ℕ) → lo ≤ x → byte_of (drop pos bs) x ≡ byte_of bs x

pub At-le :
    (n n' pos : ℕ) (bs : List RangeBuf) (end : ℕ) → n ≤ n' → At n pos bs end → At n' pos bs end
At-le n n' pos bs end h a = record {
  lo = a.lo;
  joined = a.joined;
  below = omega (arith, a.below);
  same = a.same;
}

pub At-skip :
    (n i j : ℕ) (bs : List RangeBuf) (end : ℕ) (a : At n i bs end) (n' : ℕ)
    (b : At n' j (drop i bs) end)
    → a.lo ≤ b.lo
    → At n' (i + j) bs end
At-skip n i j bs end a n' b h = record {
  lo = b.lo;
  joined = subst (λ xs. Joined b.lo xs end) (drop-drop i j bs) b.joined;
  below = b.below;
  same = λ x k.
      ap (λ xs. byte_of xs x) (sym (drop-drop i j bs))
      ∙ b.same x k
      ∙ a.same x (omega (arith, h, k));
}
