-- ===== src/Window/Tracks.antt =====
-- The window answers as the list of all numbers inserted does, for the numbers that it still covers.
use raw_quic.Prelude.{
  Bool, Bool-cases, List, [], ap, append-nil, append_assoc, arith, false, if◌then◌else◌, inl, inr,
  leb, le→ltb, ltb, ltb→lt, lt→ltb, member, refl, reverse, reverse-cons, true, ℕ, ◌%◌, ◌++◌, ◌+◌,
  ◌-◌, ◌<◌, ◌^◌, ◌||◌, ◌∙◌, ◌∷◌, ◌≡◌, ◌≤◌, ◌⊎◌,
}
use raw_quic.Window.{SeqNumWindow, default, upper, shl, advance, insert, set_bit, contains}

-- Bit `i` stands for the number `i` below the end of the window, and no number lies beyond the end.
pub record Tracks (w : SeqNumWindow) (seen : List ℕ) : Type 0 where
  pub bits : (i : ℕ) → i < 128 → w.window i ≡ member (w.lower + 127 - i) seen
  pub bounded : (x : ℕ) → member x seen ≡ true → x ≤ w.lower + 127

-- Numbers are below 2 ^ 62, as packet numbers are.
abbrev pub IsNumber : ℕ → Type 0
IsNumber seq = seq < 2 ^ 62

pub upper_exact : (w : SeqNumWindow) → w.lower < 2 ^ 62 → upper w ≡ w.lower + 127
unfolding upper
upper_exact w h = omega arith

pub default-Tracks : Tracks default []
unfolding default
default-Tracks = record { bits = λ i h. refl; bounded = λ x h. cc }

beyond :
    {w : SeqNumWindow} (seen : List ℕ) (x : ℕ)
    → Tracks w seen
    → w.lower + 127 < x
    → member x seen ≡ false
beyond seen x t h = elim (Bool-cases (member x seen)) [
  | inl m ↦ absurd (omega (arith, t.bounded x m))
  | inr m ↦ m
]

moved-bits :
    (w : SeqNumWindow) (seen : List ℕ) (d i : ℕ)
    → d < 2 ^ 32
    → Tracks w seen
    → i < 128
    → shl d w.window i ≡ member (w.lower + d + 127 - i) seen
unfolding shl
moved-bits w seen d i s t h =
    let e : d % 2 ^ 32 ≡ d = omega arith in
    rw e (elim (Bool-cases (leb d i)) [
      | inl k ↦
          let q : w.lower + 127 - (i - d) ≡ w.lower + d + 127 - i = ground arith in
          ground (arith, k, q, t.bits (i - d))
      | inr k ↦ ground (arith, k, beyond seen (w.lower + d + 127 - i) t)
    ])

-- Moving the window keeps what it tracks, if it moves by less than 2 ^ 32.
advance-Tracks :
    (w : SeqNumWindow) (seen : List ℕ) (seq : ℕ)
    → w.lower < 2 ^ 62
    → seq < w.lower + 2 ^ 32
    → Tracks w seen
    → Tracks (advance seq w) seen
unfolding advance
advance-Tracks w seen seq l s t = elim (Bool-cases (ltb (upper w) seq)) [
  | inr k ↦ rw k t
  | inl k ↦ rw k (record {
    bits = λ i h. moved-bits w seen (seq - upper w) i (omega (arith, upper_exact w l)) t h;
    bounded = λ x m. omega (arith, t.bounded x m);
  })
]

advance-lower :
    (w : SeqNumWindow) (seq : ℕ)
    → w.lower < 2 ^ 62
    → (advance seq w).lower ≡ (if ltb (w.lower + 127) seq then seq - 127 else w.lower)
unfolding advance
advance-lower w seq l = ground (arith, upper_exact w l)

set_bit-Tracks :
    (w : SeqNumWindow) (seen : List ℕ) (seq : ℕ)
    → w.lower ≤ seq
    → seq ≤ w.lower + 127
    → Tracks w seen
    → Tracks (set_bit (w.lower + 127 - seq) w) (seq ∷ seen)
unfolding set_bit
set_bit-Tracks w seen seq l u t = record {
  bits = λ i h. ground (arith, t.bits i h);
  bounded = λ x m. ground (arith, t.bounded x);
}

-- Numbers below the window are dropped, and all others recorded.
pub insert-Tracks :
    (w : SeqNumWindow) (seen : List ℕ) (seq : ℕ)
    → w.lower < 2 ^ 62
    → IsNumber seq
    → w.lower ≤ seq
    → seq < w.lower + 2 ^ 32
    → Tracks w seen
    → Tracks (insert seq w) (seq ∷ seen)
unfolding insert
insert-Tracks w seen seq l n k s t =
    let a = advance-lower w seq l in
    rw (le→ltb seq w.lower k, upper_exact (advance seq w) (ground (arith, a)))
      (set_bit-Tracks (advance seq w) seen seq (ground (arith, a)) (ground (arith, a))
        (advance-Tracks w seen seq l s t))

pub contains-Tracks :
    (w : SeqNumWindow) (seen : List ℕ) (seq : ℕ)
    → w.lower < 2 ^ 62
    → Tracks w seen
    → contains seq w ≡ (ltb seq w.lower || member seq seen)
unfolding contains
contains-Tracks w seen seq l t =
    let e : w.lower + 127 - (w.lower + 127 - seq) ≡ seq ⊎ (seq < w.lower) ⊎ (w.lower + 127 < seq) =
      omega arith in
    rw (upper_exact w l) (ground (arith, e, beyond seen seq t, t.bits (w.lower + 127 - seq)))

dropped-Tracks :
    (w : SeqNumWindow) (seen : List ℕ) (seq : ℕ)
    → seq < w.lower
    → Tracks w seen
    → Tracks (insert seq w) (seq ∷ seen)
unfolding insert
dropped-Tracks w seen seq k t = rw (lt→ltb seq w.lower k) (record {
  bits = λ i h. ground (arith, t.bits i h);
  bounded = λ x m. ground (arith, t.bounded x);
})

insert-lower :
    (w : SeqNumWindow) (seq : ℕ) → w.lower < 2 ^ 62 → IsNumber seq → (insert seq w).lower < 2 ^ 62
unfolding insert set_bit
insert-lower w seq l n = ground (arith, advance-lower w seq l)

-- The numbers inserted one after the other.
abbrev pub insert_all : List ℕ → SeqNumWindow → SeqNumWindow
insert_all [] w = w
insert_all (seq ∷ seqs) w = insert_all seqs (insert seq w)

-- Each number is a packet number and lies less than 2 ^ 32 behind the start of the window.
abbrev pub AreNear : List ℕ → SeqNumWindow → Type 0
AreNear [] w = Unit {0}
AreNear (seq ∷ seqs) w = IsNumber seq × (seq < w.lower + 2 ^ 32) × AreNear seqs (insert seq w)

insert_all-Tracks :
    (seqs seen : List ℕ) (w : SeqNumWindow)
    → w.lower < 2 ^ 62
    → AreNear seqs w
    → Tracks w seen
    → Tracks (insert_all seqs w) (reverse seqs ++ seen) × ((insert_all seqs w).lower < 2 ^ 62)
insert_all-Tracks [] seen w l h t = (t, l)
insert_all-Tracks (seq ∷ seqs) seen w l h t =
    rw (reverse-cons seq seqs, append_assoc)
      (insert_all-Tracks seqs (seq ∷ seen) (insert seq w) (insert-lower w seq l h.0) h.2
        (elim (Bool-cases (ltb seq w.lower)) [
          | inl k ↦ dropped-Tracks w seen seq (ltb→lt seq w.lower k) t
          | inr k ↦ insert-Tracks w seen seq l h.0 (ground arith) h.1 t
        ]))

member-append : (x : ℕ) (xs ys : List ℕ) → member x (xs ++ ys) ≡ (member x xs || member x ys)
member-append x [] ys = refl
member-append x (y ∷ xs) ys = ground (arith, member-append x xs ys)

member-reverse : (x : ℕ) (xs : List ℕ) → member x (reverse xs) ≡ member x xs
member-reverse x [] = refl
member-reverse x (y ∷ xs) =
    rw (reverse-cons y xs)
      (ground (arith, member-append x (reverse xs) (y ∷ []), member-reverse x xs))

-- After any packet numbers, none of them 2 ^ 32 or more behind the start of the window that it
-- meets, the window calls a number a duplicate exactly if it was inserted or lies below the window.
pub contains-insert_all :
    (seqs : List ℕ) (seq : ℕ)
    → AreNear seqs default
    → contains seq (insert_all seqs default)
      ≡ (ltb seq (insert_all seqs default).lower || member seq seqs)
contains-insert_all seqs seq h =
    let (t, l) =
      insert_all-Tracks seqs [] default (unfold default in omega arith) h default-Tracks in
    contains-Tracks (insert_all seqs default) (reverse seqs ++ []) seq l t
    ∙ ap (λ (b : Bool). ltb seq (insert_all seqs default).lower || b)
        (rw append-nil (member-reverse seq seqs))
