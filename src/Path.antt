-- ===== src/Path.antt =====
-- The validation of a network path and its anti-amplification limit (src/connection/path.rs). Of the
-- recovery of the path the model keeps its RTT and its maximum datagram size; addresses, the context
-- of the application and the search for the path MTU (module Pmtu) are left out. A challenge is the
-- list of its 8 bytes; instants are nanoseconds, and the present is an argument.
pub mod Timeout
pub mod Validation
pub mod Unmatched
pub mod Amplification
use raw_quic.Prelude.{
  Bool, List, Option, [], drop, false, if◌then◌else◌, leb, length, ltb, max, min, none, not, some,
  true, ℕ, ◌%◌, ◌&&◌, ◌*◌, ◌++◌, ◌+◌, ◌-◌, ◌==◌, ◌^◌, ◌||◌, ◌∷◌,
}
use raw_quic.Rtt
use raw_quic.Rtt.{RttEstimator}

-- In the order of `PartialOrd`.
pub data PathState : Type 0 where
  failed unknown validating validating_mtu validated : PathState

abbrev pub rank : PathState → ℕ
rank failed = 0
rank unknown = 1
rank validating = 2
rank validating_mtu = 3
rank validated = 4

-- A challenge sent: its bytes, the size of its packet, when it was sent and when it is lost.
pub record Challenge : Type 0 where
  pub content : List ℕ
  pub size : ℕ
  pub sent_time : ℕ
  pub loss_time : ℕ

pub record PathData : Type 0 where
  pub scid_seq : Option ℕ
  pub dcid_seq : Option ℕ
  pub active : Bool
  pub rtt : RttEstimator
  pub max_datagram_size : ℕ
  pub state : PathState
  pub recv_chals : List (List ℕ)
  pub sent_chals : List Challenge
  pub need_send_challenge : Bool
  pub lost_chal : ℕ
  pub max_challenge_size : ℕ
  pub verified_peer_address : Bool
  pub peer_verified_local_address : Bool
  pub anti_ampl_limit : ℕ

abbrev pub initial_chal_timeout : ℕ
initial_chal_timeout = 25

abbrev pub max_probing_timeouts : ℕ
max_probing_timeouts = 8

abbrev pub max_path_chals_recv : ℕ
max_path_chals_recv = 8

abbrev pub min_path_probe_size : ℕ
min_path_probe_size = 64

abbrev pub min_client_initial_len : ℕ
min_client_initial_len = 1200

unfoldable pub new : Bool → RttEstimator → ℕ → PathData
new is_initial rtt max_datagram_size = record {
  scid_seq = if is_initial then some 0 else none;
  dcid_seq = if is_initial then some 0 else none;
  active = false;
  rtt = rtt;
  max_datagram_size = max_datagram_size;
  state = if is_initial then validated else unknown;
  recv_chals = [];
  sent_chals = [];
  need_send_challenge = false;
  lost_chal = 0;
  max_challenge_size = 0;
  verified_peer_address = false;
  peer_verified_local_address = false;
  anti_ampl_limit = 0;
}

-- `promote_to`: the state only rises.
unfoldable pub promote_to : PathState → PathData → PathData
promote_to state p = if ltb (rank p.state) (rank state) then record p { state = state } else p

unfoldable pub is_validated : PathData → Bool
is_validated p = rank p.state == rank validated

-- The oldest challenge gives way to the ninth.
unfoldable pub on_path_chal_received : List ℕ → PathData → PathData
on_path_chal_received content p =
    let kept =
      if leb max_path_chals_recv (length p.recv_chals) then drop 1 p.recv_chals else p.recv_chals in
    record p { recv_chals = kept ++ (content ∷ []); peer_verified_local_address = true }

unfoldable pub pop_recv_chal : PathData → Option (List ℕ) × PathData
pop_recv_chal p = elim p.recv_chals [
  | [] ↦ (none, p)
  | c ∷ cs ↦ (some c, record p { recv_chals = cs })
]

abbrev pub same_bytes : List ℕ → List ℕ → Bool
same_bytes [] [] = true
same_bytes [] (c ∷ cs) = false
same_bytes (b ∷ bs) [] = false
same_bytes (b ∷ bs) (c ∷ cs) = (b == c) && same_bytes bs cs

-- `sent_chals.retain(..)`: the challenges that were not answered, the size of the last that was, 0 if
-- none was, and the RTT.
pub record Retained : Type 0 where
  pub kept : List Challenge
  pub size : ℕ
  pub rtt : RttEstimator

unfoldable pub retain : ℕ → List ℕ → List Challenge → ℕ → RttEstimator → Retained
retain now content [] size rtt = record { kept = []; size = size; rtt = rtt }
retain now content (c ∷ cs) size rtt =
    let answered = retain now content cs c.size (Rtt.try_set_init_rtt (now - c.sent_time) rtt) in
    let other = retain now content cs size rtt in
    if same_bytes c.content content then answered else record other { kept = c ∷ other.kept }

-- The end of `on_path_resp_received`, once the largest size is known.
unfoldable pub conclude : Bool → PathData → Bool × PathData
unfolding promote_to
conclude multipath p =
    let q = promote_to validating_mtu p in
    if leb min_client_initial_len q.max_challenge_size
    then (true, record (promote_to validated q) { active = multipath; sent_chals = [] })
    else (false, record q { need_send_challenge = true })

unfoldable pub on_path_resp_received : ℕ → List ℕ → Bool → PathData → Bool × PathData
unfolding is_validated retain conclude
on_path_resp_received now content multipath p =
    let r = retain now content p.sent_chals 0 p.rtt in
    if is_validated p
    then (false, p)
    else conclude multipath (record p {
      verified_peer_address = true;
      lost_chal = 0;
      sent_chals = r.kept;
      rtt = r.rtt;
      max_challenge_size = max p.max_challenge_size r.size;
    })

unfoldable pub initiate_path_chal : PathData → PathData
initiate_path_chal p = record p { need_send_challenge = true }

-- The delay doubles with each loss; it is given in milliseconds. The shift of a u64 takes its count
-- modulo 64 and drops the bits above.
unfoldable pub loss_delay : ℕ → ℕ
loss_delay lost_chal = initial_chal_timeout * 2 ^ (lost_chal % 64) % 2 ^ 64 * 1_000_000

unfoldable pub on_path_chal_sent : List ℕ → ℕ → ℕ → PathData → PathData
unfolding promote_to loss_delay
on_path_chal_sent content size sent_time p =
    let q = promote_to validating p in
    let c : Challenge = record {
      content = content;
      size = size;
      sent_time = sent_time;
      loss_time = sent_time + loss_delay q.lost_chal;
    } in
    record q { need_send_challenge = false; sent_chals = q.sent_chals ++ (c ∷ []) }

-- The path validation failed.
unfoldable pub fail : PathData → PathData
fail p = record p { state = failed; active = false; sent_chals = [] }

-- `while let Some(first_chal) = self.sent_chals.front()`.
unfoldable pub expire : ℕ → List Challenge → PathData → PathData
unfolding fail initiate_path_chal
expire now [] p = record p { sent_chals = [] }
expire now (c ∷ cs) p =
    let lost = record p { sent_chals = cs; lost_chal = p.lost_chal + 1 } in
    let again = expire now cs (initiate_path_chal lost) in
    if ltb now c.loss_time
    then record p { sent_chals = c ∷ cs }
    else if ltb (p.lost_chal + 1) max_probing_timeouts
    then again
    else fail lost

unfoldable pub is_probing : PathState → Bool
is_probing validating = true
is_probing validating_mtu = true
is_probing _ = false

unfoldable pub on_path_chal_timeout : ℕ → PathData → PathData
unfolding expire is_probing
on_path_chal_timeout now p = if is_probing p.state then expire now p.sent_chals p else p

unfoldable pub need_send_validation_frames : Bool → PathData → Bool
need_send_validation_frames is_server p =
    if is_server && ltb p.anti_ampl_limit min_path_probe_size
    then false
    else p.need_send_challenge || not (length p.recv_chals == 0)

unfoldable pub need_expand_padding_frames : Bool → PathData → Bool
unfolding is_validated
need_expand_padding_frames is_server p =
    if is_validated p then false else not (is_server && leb p.anti_ampl_limit p.max_datagram_size)

unfoldable pub is_active : PathData → Bool
is_active p = elim p.dcid_seq [ none ↦ false | some _ ↦ p.active ]

unfoldable pub is_unused : PathData → Bool
is_unused p = elim p.dcid_seq [ none ↦ not p.active | some _ ↦ false ]

-- `saturating_add` and `saturating_mul` on usize.
abbrev pub saturate : ℕ → ℕ
saturate n = min n (2 ^ 64 - 1)

-- The three operations of `PathMap` on the limit, on the path that it finds.
unfoldable pub inc_anti_ampl_limit : Bool → ℕ → ℕ → PathData → PathData
inc_anti_ampl_limit is_server factor pkt_len p =
    if is_server && not p.verified_peer_address
    then record p { anti_ampl_limit = saturate (p.anti_ampl_limit + saturate (factor * pkt_len)) }
    else p

unfoldable pub dec_anti_ampl_limit : Bool → ℕ → PathData → PathData
dec_anti_ampl_limit is_server pkt_len p =
    if is_server && not p.verified_peer_address
    then record p { anti_ampl_limit = p.anti_ampl_limit - pkt_len }
    else p

unfoldable pub cmp_anti_ampl_limit : Bool → ℕ → PathData → ℕ
cmp_anti_ampl_limit is_server left p =
    if is_server && not p.verified_peer_address then min left p.anti_ampl_limit else left
