-- ===== src/Path/Unmatched.antt =====
-- What a response does that answers no challenge.
use raw_quic.Prelude.{
  All, Bool, Bool-cases, List, [], arith, false, inl, inr, leb, ltb, max, refl, true, ℕ, ◌<◌, ◌∷◌,
  ◌≡◌,
}
use raw_quic.Rtt.{RttEstimator}
use raw_quic.Path.{
  retain, Challenge, validating_mtu, rank, PathData, promote_to, is_validated, conclude,
  on_path_resp_received, min_client_initial_len, same_bytes, cmp_anti_ampl_limit,
  dec_anti_ampl_limit,
}

-- All challenges are kept when none is answered.
retain_unmatched :
    (now : ℕ) (content : List ℕ) (cs : List Challenge) (size : ℕ) (rtt : RttEstimator)
    → All (λ c. same_bytes c.content content ≡ false) cs
    → retain now content cs size rtt ≡ record { kept = cs; size = size; rtt = rtt }
unfolding retain
retain_unmatched now content [] size rtt a = refl
retain_unmatched now content (c ∷ cs) size rtt a =
    rw (a.0, retain_unmatched now content cs size rtt a.1) refl

-- The path after such a response: what is known of it stays, but for the address and the state.
record Unmatched (p : PathData) (o : Bool × PathData) : Type 0 where
  answer : o.0 ≡ false
  waits : is_validated o.1 ≡ false
  pending : o.1.sent_chals ≡ p.sent_chals
  estimate : o.1.rtt ≡ p.rtt
  verified : o.1.verified_peer_address ≡ true

conclude-Unmatched :
    (multipath : Bool) (p : PathData)
    → is_validated p ≡ false
    → p.verified_peer_address ≡ true
    → p.max_challenge_size < min_client_initial_len
    → Unmatched p (conclude multipath p)
unfolding conclude promote_to is_validated
conclude-Unmatched multipath p h v s =
    let small : leb min_client_initial_len p.max_challenge_size ≡ false = ground (arith, s) in
    elim (Bool-cases (ltb (rank p.state) (rank validating_mtu))) [
      | inl c ↦
          rw (c, small)
            (record { answer = refl; waits = refl; pending = refl; estimate = refl; verified = v })
      | inr c ↦
          rw (c, small)
            (record { answer = refl; waits = h; pending = refl; estimate = refl; verified = v })
    ]

-- On a path that is not validated, where no challenge of 1200 bytes was answered yet, a response whose
-- bytes are those of no challenge that waits for an answer keeps the challenges and the RTT, and the
-- path is still not validated; but all the same, however little had been received, the limit on
-- amplification does not hold for the path any more: a server may send whatever is left to send, and
-- what it sends is not counted.
pub response_unmatched :
    (now : ℕ) (content : List ℕ) (multipath is_server : Bool) (left n : ℕ) (p : PathData)
    → is_validated p ≡ false
    → All (λ c. same_bytes c.content content ≡ false) p.sent_chals
    → p.max_challenge_size < min_client_initial_len
    → ((on_path_resp_received now content multipath p).0 ≡ false)
      × (is_validated (on_path_resp_received now content multipath p).1 ≡ false)
      × ((on_path_resp_received now content multipath p).1.sent_chals ≡ p.sent_chals)
      × ((on_path_resp_received now content multipath p).1.rtt ≡ p.rtt)
      × (cmp_anti_ampl_limit is_server left (on_path_resp_received now content multipath p).1
          ≡ left)
      × (dec_anti_ampl_limit is_server n (on_path_resp_received now content multipath p).1
          ≡ (on_path_resp_received now content multipath p).1)
unfolding on_path_resp_received
response_unmatched now content multipath is_server left n p h a s =
    let q : PathData = record p {
      verified_peer_address = true;
      lost_chal = 0;
      max_challenge_size = max p.max_challenge_size 0;
    } in
    let w = conclude-Unmatched multipath q (unfold is_validated in h) refl (omega arith) in
    rw (h, retain_unmatched now content p.sent_chals 0 p.rtt a)
      (
        w.answer,
        w.waits,
        w.pending,
        w.estimate,
        unlimited is_server left (conclude multipath q).1 w.verified,
        uncounted is_server n (conclude multipath q).1 w.verified,
      )
  where
    unlimited :
        (is_server : Bool) (left : ℕ) (q : PathData)
        → q.verified_peer_address ≡ true
        → cmp_anti_ampl_limit is_server left q ≡ left
    unlimited is_server left q v = unfold cmp_anti_ampl_limit in ground (arith, v)

    uncounted :
        (is_server : Bool) (n : ℕ) (q : PathData)
        → q.verified_peer_address ≡ true
        → dec_anti_ampl_limit is_server n q ≡ q
    uncounted is_server n q v = unfold dec_anti_ampl_limit in ground (arith, v)
