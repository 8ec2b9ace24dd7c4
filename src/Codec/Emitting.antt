-- ===== src/Codec/Emitting.antt =====
-- Writers in sequence: what they append, joined.
use raw_quic.Prelude.{
  Bool-cases, List, [], ap, append-nil, append_assoc, arith, fun_ext, if◌then◌else◌, inl, inr,
  length, length-append, ltb, refl, sym, ℕ, ◌++◌, ◌-◌, ◌∙◌, ◌≡◌, ◌≤◌,
}
use raw_quic.Error
use raw_quic.Error.{Result, ok, err, panic}
use raw_quic.Codec.Encoder.{Writer, Encoder, put, ◌>>◌, return, write_varint}
use raw_quic.Codec.{vint_max}
use raw_quic.Codec.VarintBytes.{emit, after, Emits, varint_bytes, write_varint-Emits}

after-bind :
    {A B : Type 0} (r : Result (A × Writer)) (k : Encoder B)
    → after (Error.◌>>=◌ r (λ p. k p.1)) ≡ Error.◌>>=◌ (after r) (λ w. after (k w))
after-bind (ok p) k = refl
after-bind (err e) k = refl
after-bind panic k = refl

put-append : (bs cs : List ℕ) (w : Writer) → put (bs ++ cs) w ≡ put cs (put bs w)
put-append bs cs w =
    let e : w.room - length (bs ++ cs) ≡ w.room - length bs - length cs =
      omega (arith, length-append bs cs) in
    rw (e, append_assoc)

emit-append : (bs cs : List ℕ) (w : Writer) → emit (bs ++ cs) w ≡ Error.◌>>=◌ (emit bs w) (emit cs)
emit-append bs cs w = ground (arith, length-append bs cs, put-append bs cs w)

pub Emits-then :
    {A B : Type 0} (bs cs : List ℕ) (m : Encoder A) (k : Encoder B)
    → Emits bs m
    → Emits cs k
    → Emits (bs ++ cs) (m >> k)
Emits-then bs cs m k h g w =
    after-bind (m w) k
    ∙ ap (λ (r : Result Writer). Error.◌>>=◌ r (λ w. after (k w))) (h w)
    ∙ ap (λ (f : Writer → Result Writer). Error.◌>>=◌ (emit bs w) f) (fun_ext g)
    ∙ sym (emit-append bs cs w)

pub Emits-nil : {A : Type 0} (a : A) → Emits [] (return a)
Emits-nil a w = ground (arith, append-nil w.out)

-- A number, and what is written behind it.
pub number_then :
    {B : Type 0} (n : ℕ) (cs : List ℕ) (k : Encoder B)
    → n ≤ vint_max
    → Emits cs k
    → Emits (varint_bytes n ++ cs) (write_varint n >> k)
number_then n cs k h g =
    Emits-then (varint_bytes n) cs (write_varint n) k (write_varint-Emits n h) g

-- A number with nothing behind it.
pub number_last : (n : ℕ) → n ≤ vint_max → Emits (varint_bytes n ++ []) (write_varint n)
number_last n h = rw (append-nil) (write_varint-Emits n h)

-- The number of bytes by which the room shrank, and the writer.
abbrev counted : ℕ → Result Writer → Result (ℕ × Writer)
counted room r = Error.◌>>=◌ {B = ℕ × Writer} r (λ w. ok (room - w.room, w))

counted_after :
    {A : Type 0} (room : ℕ) (r : Result (A × Writer))
    → Error.◌>>=◌ {B = ℕ × Writer} r (λ p. ok (room - p.1.room, p.1)) ≡ counted room (after r)
counted_after room (ok p) = refl
counted_after room (err e) = refl
counted_after room panic = refl

counted_emit :
    (bs : List ℕ) (w : Writer)
    → counted w.room (emit bs w)
      ≡ (if ltb w.room (length bs) then err Error.buffer_too_short else ok (length bs, put bs w))
counted_emit bs w = elim (Bool-cases (ltb w.room (length bs))) [
  | inl c ↦ rw c refl
  | inr c ↦
      let e : w.room - (w.room - length bs) ≡ length bs = ground arith in
      rw c (ap (λ (k : ℕ). ok (k, put bs w)) e)
]

-- An operation that ends with `Ok(len - buf.len())`: with room for its bytes it returns their number.
pub counted_lem :
    {A : Type 0} (bs : List ℕ) (m : Encoder A)
    → Emits bs m
    → (w : Writer)
    → Error.◌>>=◌ {B = ℕ × Writer} (m w) (λ p. ok (w.room - p.1.room, p.1))
      ≡ (if ltb w.room (length bs) then err Error.buffer_too_short else ok (length bs, put bs w))
counted_lem bs m h w = counted_after w.room (m w) ∙ ap (counted w.room) (h w) ∙ counted_emit bs w
