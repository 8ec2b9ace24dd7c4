-- ===== src/Frame/Ack.antt =====
-- ACK frames: the ranges from the largest down, as the writer walks them.
use mathlib.Core.List.{reverse-append, reverse-cons}
use raw_quic.Prelude.{
  All, Option, [], arith, length, length-append, none, refl, reverse, some, sub64, suc, sym, ℕ,
  ◌++◌, ◌+◌, ◌-◌, ◌<◌, ◌^◌, ◌∙◌, ◌∷◌, ◌≡◌, ◌≢◌, ◌≤◌,
}
use raw_quic.Frame.{EcnCounts}
use raw_quic.Ranges.{RangeSet}
use raw_quic.Codec.Encoder.{◌>>◌, write_varint}
use raw_quic.Codec.VarintBytes.{Emits, varint_bytes}
use raw_quic.Codec.Emitting.{Emits-nil, number_then, number_last, Emits-then}
use raw_quic.Ranges.Entries.{Map, Range}
use raw_quic.Ranges.Merge.{Above}
use raw_quic.Frame.Encode.{encode_ack_blocks, encode_ack_ranges, encode_ecn, encode_ack, ack_type}
use raw_quic.Frame.Format.{blocks, Fits, three, two, FitsEcn, IsAckable, ecn_bytes, ack_bytes}

-- Ranges below `hi` and from `lo` on, the largest first, no two touching.
abbrev pub Down : ℕ → ℕ → Map → Type 0
Down lo hi [] = lo ≤ hi
Down lo hi ((s, e) ∷ m) = (suc e ≤ hi) × (s < e) × Down lo s m

Down-snoc :
    (lo hi s e : ℕ) (m : Map) → Down (suc e) hi m → s < e → lo ≤ s → Down lo hi (m ++ ((s, e) ∷ []))
Down-snoc lo hi s e [] d h k = (d, h, k)
Down-snoc lo hi s e ((s', e') ∷ m) d h k = (d.0, d.1, Down-snoc lo s' s e m d.2 h k)

abbrev pub top : ℕ
top = 2 ^ 62 + 1

pub Above→Down :
    (lo : ℕ) (m : Map)
    → lo ≤ top
    → Above lo m
    → All (λ (r : Range). r.1 ≤ 2 ^ 62) m
    → Down lo top (reverse m)
Above→Down lo [] h v b = h
Above→Down lo ((s, e) ∷ m) h v b =
    rw (reverse-append ((s, e) ∷ []) m)
      (Down-snoc lo top s e (reverse m) (Above→Down (suc e) m (omega arith) v.2 b.1) v.1 v.0)

sub64_exact : (a b : ℕ) → b ≤ a → a < 2 ^ 64 → sub64 a b ≡ a - b
sub64_exact a b h k = omega arith

ack_blocks-Emits :
    (lo smallest : ℕ) (m : Map)
    → smallest ≤ top
    → Down lo smallest m
    → Emits (blocks smallest m) (encode_ack_blocks smallest m)
unfolding encode_ack_blocks
ack_blocks-Emits lo smallest [] h d = Emits-nil {A = ℕ} 0
ack_blocks-Emits lo smallest ((s, e) ∷ m) h d =
    let p : sub64 (sub64 smallest e) 1 ≡ smallest - e - 1 = omega (arith, d) in
    let q : sub64 (sub64 e 1) s ≡ e - 1 - s = omega (arith, d) in
    rw (p, q)
      (number_then (smallest - e - 1) _ _ (omega (arith, d)) (
        number_then (e - 1 - s) _ _ (omega (arith, d))
          (ack_blocks-Emits lo s m (omega (arith, d)) d.2)))

pub two-Emits : (a b : ℕ) → Fits a → Fits b → Emits (two a b) (do write_varint a; write_varint b)
two-Emits a b h k = number_then a _ _ h (number_last b k)

pub three-Emits :
    (a b c : ℕ)
    → Fits a
    → Fits b
    → Fits c
    → Emits (three a b c) (do write_varint a; write_varint b; write_varint c)
three-Emits a b c h k l = number_then a _ _ h (two-Emits b c k l)

ecn-Emits : (ecn : Option EcnCounts) → FitsEcn ecn → Emits (ecn_bytes ecn) (encode_ecn ecn)
unfolding encode_ecn
ecn-Emits none h = Emits-nil {A = ℕ} 0
ecn-Emits (some c) h = three-Emits c.ect0_count c.ect1_count c.ecn_ce_count h.0 h.1 h.2

ack_ranges-Emits :
    (ack_delay : ℕ) (m : Map) (ecn : Option EcnCounts)
    → m ≢ []
    → Down 0 top m
    → Fits ack_delay
    → Fits (length m)
    → FitsEcn ecn
    → Emits (ack_bytes ack_delay m ecn) (encode_ack_ranges ack_delay m ecn)
unfolding encode_ack_ranges
ack_ranges-Emits ack_delay [] ecn n d h l c = absurd (n refl)
ack_ranges-Emits ack_delay ((s, e) ∷ m) ecn n d h l c =
    let p : sub64 e 1 ≡ e - 1 = omega (arith, d) in
    let q : sub64 (sub64 e 1) s ≡ e - 1 - s = omega (arith, d) in
    rw (q, p)
      (number_then (e - 1) _ _ (omega (arith, d)) (
        number_then ack_delay _ _ h (
          number_then (length m) _ _ (omega arith) (
            number_then (e - 1 - s) _ _ (omega (arith, d)) (
              Emits-then (blocks s m) (ecn_bytes ecn) (encode_ack_blocks s m) (encode_ecn ecn)
                (ack_blocks-Emits 0 s m (omega (arith, d)) d.2) (ecn-Emits ecn c))))))

pub reverse-ne-nil : (m : Map) → m ≢ [] → reverse m ≢ []
reverse-ne-nil [] n e = n e
reverse-ne-nil (p ∷ m) n e = append-ne-nil (reverse m) p (sym (reverse-cons p m) ∙ e)
  where
    append-ne-nil : (xs : Map) (p : Range) → xs ++ (p ∷ []) ≡ [] → ⊥
    append-ne-nil [] p e = cc
    append-ne-nil (x ∷ xs) p e = cc

pub length-reverse_ranges : (m : Map) → length (reverse m) ≡ length m
length-reverse_ranges [] = refl
length-reverse_ranges (p ∷ m) =
    rw (reverse-cons p m, length-append) (omega (arith, length-reverse_ranges m))

-- A set that an ACK frame can carry is written range by range from the largest down.
pub ack-Emits :
    (ack_delay : ℕ) (r : RangeSet) (ecn : Option EcnCounts)
    → Fits ack_delay
    → IsAckable r
    → FitsEcn ecn
    → Emits
        (varint_bytes (ack_type ecn) ++ ack_bytes ack_delay (reverse r.set) ecn)
        (encode_ack ack_delay r ecn)
unfolding encode_ack
ack-Emits ack_delay r ecn h a c = number_then (ack_type ecn) _ _ (frame_type-Fits ecn) (
    ack_ranges-Emits ack_delay (reverse r.set) ecn (reverse-ne-nil r.set a.nonempty)
      (Above→Down 0 r.set (omega arith) a.ordered a.bounded) h
      (rw (length-reverse_ranges r.set) a.counted) c)
  where
    frame_type-Fits : (ecn : Option EcnCounts) → Fits (ack_type ecn)
    frame_type-Fits none = omega arith
    frame_type-Fits (some c) = omega arith
