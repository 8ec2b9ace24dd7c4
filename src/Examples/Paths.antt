-- ===== src/Examples/Paths.antt =====
-- Path validation and the anti-amplification limit, at concrete inputs.
use raw_quic.Prelude.{List, [], arith, false, none, refl, some, true, ℕ, ◌*◌, ◌+◌, ◌∷◌, ◌≡◌, ◌≤◌}
use raw_quic.Rtt.{RttEstimator}
use raw_quic.Path
use raw_quic.Path.{
  PathData, validating, validated, on_path_chal_timeout, on_path_resp_received,
  min_client_initial_len, is_validated, is_probing,
}
use raw_quic.Path.Timeout.{after_losses, on_path_chal_timeout_lem, expired}
use raw_quic.Path.Validation.{Event, run, AnsweredIn, run_validated, step}
use raw_quic.Path.Unmatched.{response_unmatched}
use raw_quic.Path.Amplification.{Datagram, Runs, total_sent, total_received, run_covered}

abbrev rtt_333 : RttEstimator
rtt_333 = record {
  latest_rtt = 333_000_000;
  smoothed = none;
  rttvar = 166_500_000;
  min_rtt = 333_000_000;
  max_rtt = 333_000_000;
}

-- One challenge waits for an answer, and seven were lost.
abbrev probed_path : PathData
probed_path = record {
  scid_seq = some 1;
  dcid_seq = some 1;
  active = false;
  rtt = rtt_333;
  max_datagram_size = 1200;
  state = validating;
  recv_chals = [];
  sent_chals = record { content = 1 ∷ 2 ∷ []; size = 1300; sent_time = 5; loss_time = 900 } ∷ [];
  need_send_challenge = false;
  lost_chal = 7;
  max_challenge_size = 0;
  verified_peer_address = false;
  peer_verified_local_address = false;
  anti_ampl_limit = 0;
}

on_path_chal_timeout_lem_example :
    on_path_chal_timeout 1000 probed_path
    ≡ after_losses (expired 1000 probed_path.sent_chals) probed_path
unfolding is_probing
on_path_chal_timeout_lem_example = on_path_chal_timeout_lem 1000 probed_path refl (omega arith)

abbrev answered : List Event
answered = Event.resp_received 20 (1 ∷ 2 ∷ []) true ∷ Event.chal_sent (1 ∷ 2 ∷ []) 1300 5 ∷ []

run-answered : (run answered (Path.new false rtt_333 1200)).state ≡ validated
unfolding run step Path.new on_path_resp_received
run-answered = refl

run_validated_example :
    (content : List ℕ) × (size : ℕ) × (min_client_initial_len ≤ size)
    × AnsweredIn content size answered
run_validated_example = run_validated rtt_333 1200 answered run-answered

abbrev unmatched : PathData
unmatched = (on_path_resp_received 20 (9 ∷ 9 ∷ []) false probed_path).1

response_unmatched_example :
    (false ≡ false)
    × (is_validated unmatched ≡ false)
    × (unmatched.sent_chals ≡ probed_path.sent_chals)
    × (unmatched.rtt ≡ probed_path.rtt)
    × (Path.cmp_anti_ampl_limit true 5000 unmatched ≡ 5000)
    × (Path.dec_anti_ampl_limit true 1200 unmatched ≡ unmatched)
unfolding is_validated on_path_resp_received
response_unmatched_example =
    response_unmatched 20 (9 ∷ 9 ∷ []) false true 5000 1200 probed_path refl (refl, tt)
      (omega arith)

-- A datagram of 100 bytes is received, and one of 250 sent.
exchange :
    Runs 3 probed_path
      (Datagram.sent 250 ∷ Datagram.received 100 ∷ [])
      (Path.dec_anti_ampl_limit true 250 (Path.inc_anti_ampl_limit true 3 100 probed_path))
unfolding Path.cmp_anti_ampl_limit Path.inc_anti_ampl_limit
exchange = Runs.send 250 1200 (omega arith) (Runs.receive 100 Runs.start)

run_covered_example :
    total_sent (Datagram.sent 250 ∷ Datagram.received 100 ∷ [])
      + (Path.dec_anti_ampl_limit true 250
          (Path.inc_anti_ampl_limit true 3 100 probed_path)).anti_ampl_limit
    ≤ 3 * total_received (Datagram.sent 250 ∷ Datagram.received 100 ∷ [])
run_covered_example = run_covered refl refl exchange
