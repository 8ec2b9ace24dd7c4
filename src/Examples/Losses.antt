-- ===== src/Examples/Losses.antt =====
-- Acknowledgement and loss in a send buffer, at concrete inputs.
use raw_quic.Prelude.{
  [], arith, false, leb, ltb, none, not, refl, some, ℕ, ◌&&◌, ◌+◌, ◌||◌, ◌∷◌, ◌≡◌, ◌≤◌,
}
use raw_quic.Ranges.Merge.{Above, covered}
use raw_quic.Stream.Send.{SendBuf}
use raw_quic.Stream.Send.Chunks.{Joined, byte_of}
use raw_quic.Stream.Send.Loss.{retransmit, ack_and_drop, ack_off, first_end}
use raw_quic.Stream.Send.Retransmit.{retransmit_queues}
use raw_quic.Stream.Send.Acknowledge.{IsHeld, ack_and_drop_keeps}

-- Ten bytes written in two chunks, of which those from 6 on are acknowledged.
abbrev half_acked : SendBuf
half_acked = record {
  chunks =
      record { bytes = 10 ∷ 11 ∷ 12 ∷ 13 ∷ []; off = 0; fin = false }
      ∷ record { bytes = 14 ∷ 15 ∷ 16 ∷ 17 ∷ 18 ∷ 19 ∷ []; off = 4; fin = false }
      ∷ [];
  pos = 2;
  write_off = 10;
  unsent_off = 10;
  unacked_len = 10;
  max_data = 100;
  blocked_at = none;
  fin_off = none;
  shut = false;
  acked = record { set = (6, 8) ∷ []; capacity = 1000 };
  retransmits = record { set = (1, 2) ∷ []; capacity = 1000 };
  error = none;
}

-- The bytes from 4 to 9 are reported lost: 6 and 7 were acknowledged.
retransmit_queues_example :
    Above 0 (retransmit 4 5 half_acked).retransmits.set
    × (covered (retransmit 4 5 half_acked).retransmits.set 5
        ≡ (covered ((1, 2) ∷ []) 5 || ((leb 4 5 && ltb 5 9) && not (covered ((6, 8) ∷ []) 5))))
retransmit_queues_example =
    retransmit_queues 4 5 5 half_acked refl (omega arith) (omega arith) (omega arith)

half_acked-IsHeld : IsHeld half_acked
unfolding ack_off first_end
half_acked-IsHeld = record {
  joined = omega arith;
  unacked = omega arith;
  fits = omega arith;
  acked = omega arith;
  bounded = omega arith;
  lost = omega arith;
}

ack_and_drop_keeps_example :
    (t : SendBuf) × (ack_and_drop 0 6 half_acked ≡ some t)
    × (t.write_off ≡ 10)
    × Joined (ack_off t) t.chunks 10
    × (ack_off t + t.unacked_len ≡ 10)
    × ((x : ℕ) → ack_off t ≤ x → byte_of t.chunks x ≡ byte_of half_acked.chunks x)
    × ((x : ℕ) → covered t.acked.set x ≡ ((leb 0 x && ltb x 6) || covered ((6, 8) ∷ []) x))
    × ((x : ℕ)
        → covered t.retransmits.set x ≡ (covered ((1, 2) ∷ []) x && not (leb 0 x && ltb x 6)))
ack_and_drop_keeps_example =
    ack_and_drop_keeps 0 6 half_acked half_acked-IsHeld refl (omega arith) (omega arith)
