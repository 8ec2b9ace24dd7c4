-- ===== src/Stream/Recv/Limits.antt =====
-- The checks of `RecvBuf::write`: which frames the limits admit.
use raw_quic.Prelude.{
  Bool-cases, Option, arith, false, if◌then◌else◌, inl, inr, ltb, ltb→lt, none, not, refl, some, ℕ,
  ◌&&◌, ◌<◌, ◌==◌, ◌≡◌, ◌≤◌, ◌⊎◌,
}
use raw_quic.Error.{Result, ok, err, flow_control_error, final_size_error}
use raw_quic.Stream.RangeBuf.{RangeBuf, max_off}
use raw_quic.Stream.Recv.{RecvBuf, check_write, check_final}

-- The final size that is known admits a frame.
abbrev pub FinalAllows : RangeBuf → Option ℕ → Type 0
FinalAllows buf none = Unit {0}
FinalAllows buf (some off) = (max_off buf ≤ off) × ((buf.fin ≡ false) ⊎ (off ≡ max_off buf))

-- A frame within the flow control limit that does not contradict a final size.
pub record Allowed (buf : RangeBuf) (r : RecvBuf) : Type 0 where
  pub within : max_off buf ≤ r.flow_control.max_data
  pub at_end : (buf.fin ≡ false) ⊎ (r.recv_off ≤ max_off buf)
  pub at_final : FinalAllows buf r.fin_off

-- The outcomes of the checks.
pub data Checked (buf : RangeBuf) (r : RecvBuf) (c : Result (Unit {0})) : Type 0 where
  passed : c ≡ ok tt → Allowed buf r → Checked buf r c
  limited : c ≡ err flow_control_error → r.flow_control.max_data < max_off buf → Checked buf r c
  contradicted :
      c ≡ err final_size_error
      → max_off buf ≤ r.flow_control.max_data
      → ¬ Allowed buf r
      → Checked buf r c

check_final_lem :
    (o : Option ℕ) (buf : RangeBuf) (next : Result (Unit {0}))
    → ((check_final o buf next ≡ next) × FinalAllows buf o)
      ⊎ ((check_final o buf next ≡ err final_size_error) × ¬ FinalAllows buf o)
unfolding check_final
check_final_lem none buf next = inl (refl, tt)
check_final_lem (some off) buf next = elim (Bool-cases (ltb off (max_off buf))) [
  | inl c ↦ rw c (inr (refl, λ h. omega (arith, ltb→lt off (max_off buf) c, h)))
  | inr c ↦ elim (Bool-cases (buf.fin && not (off == max_off buf))) [
    | inl d ↦ rw (c, d) (inr (refl, λ h. ground (arith, d, h)))
    | inr d ↦ rw (c, d) (inl (refl, (ground (arith, c), ground (arith, d))))
  ]
]

pub check_write-Checked : (buf : RangeBuf) (r : RecvBuf) → Checked buf r (check_write buf r)
unfolding check_write
check_write-Checked buf r = elim (Bool-cases (ltb r.flow_control.max_data (max_off buf))) [
  | inl c ↦ rw c (limited refl (ground (arith, c)))
  | inr c ↦
      elim (check_final_lem r.fin_off buf
        (if buf.fin && ltb (max_off buf) r.recv_off then err final_size_error else ok tt)) [
          | inr (e, n) ↦ rw (c, e) (contradicted refl (ground (arith, c)) (λ a. n a.at_final))
          | inl (e, f) ↦ elim (Bool-cases (buf.fin && ltb (max_off buf) r.recv_off)) [
            | inl d ↦
                rw (c, e, d)
                  (contradicted refl (ground (arith, c)) (λ a. ground (arith, d, a.at_end)))
            | inr d ↦
                rw (c, e, d)
                  (passed refl (record {
                    within = ground (arith, c);
                    at_end = ground (arith, d);
                    at_final = f;
                  }))
          ]
        ]
]
