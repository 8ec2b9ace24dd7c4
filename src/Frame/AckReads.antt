-- ===== src/Frame/AckReads.antt =====
-- An ACK frame is read back into the set that was written.
use mathlib.Core.List.{reverse-cons, reverse-reverse}
use raw_quic.Prelude.{
  Bool, List, Option, [], append-nil, append_assoc, arith, drop_append, false, length,
  length-append, le→ltb, ltb, none, not, refl, reverse, some, suc, true, ℕ, ◌++◌, ◌+◌, ◌-◌, ◌<◌,
  ◌∙◌, ◌∷◌, ◌≡◌, ◌≢◌, ◌≤◌,
}
use raw_quic.Codec.Decoder.{skip, return, ◌>>=◌}
use raw_quic.Frame.{EcnCounts, Frame}
use raw_quic.Codec.Reading.{Reads, Reads-return, Reads-bind}
use raw_quic.Ranges
use raw_quic.Ranges.{RangeSet, usize_max}
use raw_quic.Ranges.Entries.{Map}
use raw_quic.Ranges.Merge.{Above, Above-le}
use raw_quic.Ranges.Insert.{insert_front}
use raw_quic.Frame.Decode.{
  parse_ack_blocks, parse_ecn, decode_ack, parse_ack_fields, parse_ack_frame, bit,
}
use raw_quic.Frame.Format.{blocks, FitsEcn, Fits, IsAckable, ack_bytes, ecn_bytes}
use raw_quic.Frame.Ack.{Down, top, reverse-ne-nil, Above→Down, length-reverse_ranges}
use raw_quic.Frame.Reads.{number_Reads_then, check-Reads}

-- Ranges put to the front one by one.
onto : Map → Map → Map
onto [] m = m
onto (p ∷ it) m = onto it (p ∷ m)

onto-reverse : (it m : Map) → onto it m ≡ reverse it ++ m
unfolding onto
onto-reverse [] m = refl
onto-reverse (p ∷ it) m = onto-reverse it (p ∷ m) ∙ rw (reverse-cons p it, append_assoc)

not-ltb : (a b : ℕ) → b ≤ a → not (ltb a b) ≡ true
not-ltb a b h = ground arith

blocks-Reads :
    (lo smallest : ℕ) (it : Map) (r : RangeSet)
    → smallest ≤ top
    → Down lo smallest it
    → Above smallest r.set
    → length it + length r.set < r.capacity
    → Reads
        (record r { set = onto it r.set })
        (blocks smallest it)
        (parse_ack_blocks (length it) smallest r)
unfolding parse_ack_blocks onto
blocks-Reads lo smallest [] r t d v c = Reads-return r
blocks-Reads lo smallest ((s, e) ∷ it) r t d v c =
    let g : smallest - (smallest - e - 1) - 2 ≡ e - 1 = omega (arith, d) in
    let b : e - 1 - (e - 1 - s) ≡ s = omega (arith, d) in
    let p : e - 1 + 1 ≡ e = omega (arith, d) in
    number_Reads_then (smallest - e - 1) _ _ _ (omega (arith, d)) (
      check-Reads _ _ _ _ _ (not-ltb smallest (2 + (smallest - e - 1)) (omega (arith, d))) (
        rw g (
          number_Reads_then (e - 1 - s) _ _ _ (omega (arith, d)) (
            check-Reads _ _ _ _ _ (not-ltb (e - 1) (e - 1 - s) (omega arith)) (
              rw
                (b, p, insert_front s e r d.1 (Above-le r.set (suc e) smallest d.0 v) (omega arith))
                (blocks-Reads lo s it (record r { set = (s, e) ∷ r.set }) (omega (arith, d)) d.2
                  (omega (arith), d.1, Above-le r.set (suc e) smallest d.0 v) (omega arith)))))))

-- Whether the frame carries ECN counts.
abbrev pub has_ecn : Option EcnCounts → Bool
has_ecn none = false
has_ecn (some _) = true

ecn-Reads :
    (ecn : Option EcnCounts) (t : ℕ)
    → FitsEcn ecn
    → bit 0 t ≡ has_ecn ecn
    → Reads ecn (ecn_bytes ecn) (parse_ecn (bit 0 t))
unfolding parse_ecn
ecn-Reads none t h e = rw e (Reads-return none)
ecn-Reads (some c) t h e = rw e (
    number_Reads_then c.ect0_count (some c) _ _ h.0 (
      number_Reads_then c.ect1_count (some c) _ _ h.1
        (number_Reads_then c.ecn_ce_count (some c) _ _ h.2 (Reads-return (some c)))))

-- The set that the ranges, largest first, are read into.
abbrev read_set : Map → RangeSet
read_set m = record { set = onto m []; capacity = usize_max }

ack_fields-Reads :
    (t ack_delay : ℕ) (m : Map) (ecn : Option EcnCounts)
    → m ≢ []
    → Down 0 top m
    → Fits ack_delay
    → Fits (length m)
    → FitsEcn ecn
    → bit 0 t ≡ has_ecn ecn
    → Reads (Frame.ack ack_delay (read_set m) ecn) (ack_bytes ack_delay m ecn) (parse_ack_fields t)
unfolding parse_ack_fields onto Ranges.default
ack_fields-Reads t ack_delay [] ecn n d h l c b = absurd (n refl)
ack_fields-Reads t ack_delay ((s, e) ∷ m) ecn n d h l c x =
    let b : e - 1 - (e - 1 - s) ≡ s = omega (arith, d) in
    let p : e - 1 + 1 ≡ e = omega (arith, d) in
    number_Reads_then (e - 1) _ _ _ (omega (arith, d)) (
      number_Reads_then ack_delay _ _ _ h (
        number_Reads_then (length m) _ _ _ (omega arith) (
          number_Reads_then (e - 1 - s) _ _ _ (omega (arith, d)) (
            check-Reads _ _ _ _ _ (not-ltb (e - 1) (e - 1 - s) (omega arith)) (
              rw (b, p, insert_front s e Ranges.default d.1 tt (omega arith))
                (Reads-bind (read_set ((s, e) ∷ m)) _ (blocks s m) (ecn_bytes ecn)
                  (parse_ack_blocks (length m) s
                    (record { set = (s, e) ∷ []; capacity = usize_max }))
                  (λ ranges. parse_ecn (bit 0 t) >>= λ ecn. return (Frame.ack ack_delay ranges ecn))
                  (blocks-Reads 0 s m (record { set = (s, e) ∷ []; capacity = usize_max })
                    (omega (arith, d)) d.2 (omega (arith, d)) (omega arith))
                  (rw append-nil at (
                    Reads-bind ecn (Frame.ack ack_delay (read_set ((s, e) ∷ m)) ecn) (ecn_bytes ecn)
                      [] (parse_ecn (bit 0 t))
                      (λ ecn. return (Frame.ack ack_delay (read_set ((s, e) ∷ m)) ecn))
                      (ecn-Reads ecn t c x)
                      (Reads-return (Frame.ack ack_delay (read_set ((s, e) ∷ m)) ecn))))))))))

-- `parse_ack_frame` returns what it read and how much, and the caller skips that.
skip_Reads :
    (t : ℕ) (f : Frame) (bs : List ℕ) → Reads f bs (parse_ack_fields t) → Reads f bs (decode_ack t)
unfolding decode_ack parse_ack_frame skip
skip_Reads t f bs h rest =
    let k : length (bs ++ rest) - length rest ≡ length bs = omega (arith, length-append bs rest) in
    let e : ltb (length (bs ++ rest)) (length bs) ≡ false =
      le→ltb _ _ (omega (arith, length-append bs rest)) in
    rw (h rest, k, e, drop_append bs rest)

pub ack-Reads :
    (t ack_delay : ℕ) (r : RangeSet) (ecn : Option EcnCounts)
    → Fits ack_delay
    → IsAckable r
    → FitsEcn ecn
    → r.capacity ≡ usize_max
    → bit 0 t ≡ has_ecn ecn
    → Reads (Frame.ack ack_delay r ecn) (ack_bytes ack_delay (reverse r.set) ecn) (decode_ack t)
ack-Reads t ack_delay r ecn h a c k b = rw same at (
    skip_Reads t (Frame.ack ack_delay (read_set (reverse r.set)) ecn) _ (
      ack_fields-Reads t ack_delay (reverse r.set) ecn (reverse-ne-nil r.set a.nonempty)
        (Above→Down 0 r.set (omega arith) a.ordered a.bounded) h
        (rw (length-reverse_ranges r.set) a.counted) c b))
  where
    same_set : onto (reverse r.set) [] ≡ r.set
    same_set = rw (onto-reverse, append-nil, reverse-reverse)

    same : read_set (reverse r.set) ≡ r
    same = cc (same_set, k)
