-- ===== src/Path/Amplification.antt =====
-- The anti-amplification limit of a server, over a run of datagrams received and sent.
use raw_quic.Prelude.{
  Bool, List, [], arith, false, if◌then◌else◌, min, not, refl, true, ℕ, ◌&&◌, ◌*◌, ◌+◌, ◌∷◌, ◌≡◌,
  ◌≤◌,
}
use native.Mathlib.Nat.{mul-add}
use raw_quic.Path.{cmp_anti_ampl_limit, PathData, inc_anti_ampl_limit, dec_anti_ampl_limit}

pub data Datagram : Type 0 where
  received : ℕ → Datagram
  sent : ℕ → Datagram

unfoldable pub total_received : List Datagram → ℕ
total_received [] = 0
total_received (received n ∷ ds) = n + total_received ds
total_received (sent n ∷ ds) = total_received ds

unfoldable pub total_sent : List Datagram → ℕ
total_sent [] = 0
total_sent (received n ∷ ds) = total_sent ds
total_sent (sent n ∷ ds) = n + total_sent ds

-- The runs of a server's path, the last datagram first: what is sent keeps to the limit that
-- `cmp_anti_ampl_limit` sets on the room left in the datagram.
pub data Runs (factor : ℕ) (origin : PathData) : List Datagram → PathData → Type 0 where
  start : Runs factor origin [] origin
  receive :
      {ds : List Datagram} {p : PathData} (n : ℕ)
      → Runs factor origin ds p
      → Runs factor origin (received n ∷ ds) (inc_anti_ampl_limit true factor n p)
  send :
      {ds : List Datagram} {p : PathData} (n left : ℕ)
      → n ≤ cmp_anti_ampl_limit true left p
      → Runs factor origin ds p
      → Runs factor origin (sent n ∷ ds) (dec_anti_ampl_limit true n p)

-- The peer's address is not verified, and what was sent and may be sent is covered by what was received.
record IsCovered (factor : ℕ) (ds : List Datagram) (p : PathData) : Type 0 where
  open_address : p.verified_peer_address ≡ false
  covered : total_sent ds + p.anti_ampl_limit ≤ factor * total_received ds

receive-IsCovered :
    (factor n : ℕ) (ds : List Datagram) (p : PathData)
    → IsCovered factor ds p
    → IsCovered factor (received n ∷ ds) (inc_anti_ampl_limit true factor n p)
unfolding inc_anti_ampl_limit total_sent total_received
receive-IsCovered factor n ds p c =
    let e : factor * (n + total_received ds) ≡ factor * n + factor * total_received ds =
      mul-add factor n (total_received ds) in
    simp c.open_address (record { open_address = refl; covered = omega (arith, e, c.covered) })

send-IsCovered :
    (factor n left : ℕ) (ds : List Datagram) (p : PathData)
    → n ≤ cmp_anti_ampl_limit true left p
    → IsCovered factor ds p
    → IsCovered factor (sent n ∷ ds) (dec_anti_ampl_limit true n p)
unfolding dec_anti_ampl_limit cmp_anti_ampl_limit total_sent total_received
send-IsCovered factor n left ds p h c =
    let b : n ≤ min left p.anti_ampl_limit = within p.verified_peer_address c.open_address h in
    simp c.open_address (record { open_address = refl; covered = omega (arith, b, c.covered) })
  where
    within :
        (v : Bool)
        → v ≡ false
        → n ≤ (if true && not v then min left p.anti_ampl_limit else left)
        → n ≤ min left p.anti_ampl_limit
    within false e h = h
    within true e h = absurd (cc e)

run-IsCovered :
    {factor : ℕ} {origin p : PathData} {ds : List Datagram}
    → origin.verified_peer_address ≡ false
    → origin.anti_ampl_limit ≡ 0
    → Runs factor origin ds p
    → IsCovered factor ds p
unfolding total_sent total_received
run-IsCovered {factor = factor} u z start = record { open_address = u; covered = omega (arith, z) }
run-IsCovered {factor = factor} u z (receive {ds} {p} n r) =
    receive-IsCovered factor n ds p (run-IsCovered u z r)
run-IsCovered {factor = factor} u z (send {ds} {p} n left h r) =
    send-IsCovered factor n left ds p h (run-IsCovered u z r)

-- A server whose path begins with no allowance and an address that is not verified, and that sends no
-- more in a datagram than the limit allows, sends in any run no more bytes than `factor` times those
-- that it received, what it may still send included.
pub run_covered :
    {factor : ℕ} {origin p : PathData} {ds : List Datagram}
    → origin.verified_peer_address ≡ false
    → origin.anti_ampl_limit ≡ 0
    → Runs factor origin ds p
    → total_sent ds + p.anti_ampl_limit ≤ factor * total_received ds
run_covered u z r = (run-IsCovered u z r).covered
