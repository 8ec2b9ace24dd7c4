-- ===== src/Path/Validation.antt =====
-- A path is validated only by the answer to a challenge that was sent on it in a large packet.
use raw_quic.Prelude.{
  All, Bool, Bool-cases, List, [], arith, false, inl, inr, leb, leb→le, ltb, max, refl, sym, true,
  ℕ, ◌++◌, ◌+◌, ◌∙◌, ◌∷◌, ◌≡◌, ◌≤◌, ◌⊎◌,
}
use raw_quic.Rtt.{RttEstimator}
use mathlib.Core.Path.{subst}
use raw_quic.Path.{
  validated, Challenge, PathData, Retained, on_path_chal_received, same_bytes, retain,
  on_path_resp_received, initiate_path_chal, on_path_chal_sent, on_path_chal_timeout,
  min_client_initial_len, promote_to, PathState, rank, conclude, new, is_validated, expire,
  validating, is_probing, fail, unknown, validating_mtu, failed, max_probing_timeouts,
}

pub data Event : Type 0 where
  chal_sent : List ℕ → ℕ → ℕ → Event  -- its bytes, the size of the packet, the time
  chal_received : List ℕ → Event
  resp_received : ℕ → List ℕ → Bool → Event
  timeout : ℕ → Event
  initiate : Event

unfoldable pub step : Event → PathData → PathData
unfolding on_path_chal_sent on_path_chal_received on_path_resp_received on_path_chal_timeout
    initiate_path_chal
step (chal_sent content size time) p = on_path_chal_sent content size time p
step (chal_received content) p = on_path_chal_received content p
step (resp_received now content multipath) p = (on_path_resp_received now content multipath p).1
step (timeout now) p = on_path_chal_timeout now p
step initiate p = initiate_path_chal p

-- The path after a list of events, the last one first.
unfoldable pub run : List Event → PathData → PathData
unfolding step
run [] p = p
run (e ∷ es) p = step e (run es p)

-- A challenge with these bytes was sent in a packet of this size.
abbrev pub SentIn : List ℕ → ℕ → List Event → Type 0
SentIn content size [] = ⊥
SentIn content size (chal_sent c n t ∷ es) = ((content ≡ c) × (size ≡ n)) ⊎ SentIn content size es
SentIn content size (chal_received c ∷ es) = SentIn content size es
SentIn content size (resp_received t c b ∷ es) = SentIn content size es
SentIn content size (timeout t ∷ es) = SentIn content size es
SentIn content size (initiate ∷ es) = SentIn content size es

-- A response came with the bytes of such a challenge, after it was sent.
abbrev pub AnsweredIn : List ℕ → ℕ → List Event → Type 0
AnsweredIn content size [] = ⊥
AnsweredIn content size (resp_received t c b ∷ es) =
    ((same_bytes content c ≡ true) × SentIn content size es) ⊎ AnsweredIn content size es
AnsweredIn content size (chal_sent c n t ∷ es) = AnsweredIn content size es
AnsweredIn content size (chal_received c ∷ es) = AnsweredIn content size es
AnsweredIn content size (timeout t ∷ es) = AnsweredIn content size es
AnsweredIn content size (initiate ∷ es) = AnsweredIn content size es

SentIn-cons :
    (c : List ℕ) (n : ℕ) (e : Event) (es : List Event) → SentIn c n es → SentIn c n (e ∷ es)
SentIn-cons c n (chal_sent c' n' t) es h = inr h
SentIn-cons c n (chal_received c') es h = h
SentIn-cons c n (resp_received t c' b) es h = h
SentIn-cons c n (timeout t) es h = h
SentIn-cons c n initiate es h = h

AnsweredIn-cons :
    (c : List ℕ) (n : ℕ) (e : Event) (es : List Event) → AnsweredIn c n es → AnsweredIn c n (e ∷ es)
AnsweredIn-cons c n (chal_sent c' n' t) es h = h
AnsweredIn-cons c n (chal_received c') es h = h
AnsweredIn-cons c n (resp_received t c' b) es h = inr h
AnsweredIn-cons c n (timeout t) es h = h
AnsweredIn-cons c n initiate es h = h

-- The challenges that wait for an answer were sent.
abbrev Pending : List Event → List Challenge → Type 0
Pending es cs = All (λ c. SentIn c.content c.size es) cs

Pending-cons :
    (e : Event) (es : List Event) (cs : List Challenge) → Pending es cs → Pending (e ∷ es) cs
Pending-cons e es [] h = tt
Pending-cons e es (c ∷ cs) h = (SentIn-cons c.content c.size e es h.0, Pending-cons e es cs h.1)

Pending-append :
    (es : List Event) (cs : List Challenge) (c : Challenge)
    → Pending es cs
    → SentIn c.content c.size es
    → Pending es (cs ++ (c ∷ []))
Pending-append es [] c h k = (k, tt)
Pending-append es (d ∷ cs) c h k = (h.0, Pending-append es cs c h.1 k)

-- No challenge, or an answered one of this size.
abbrev Largest : List Event → ℕ → Type 0
Largest es n = (n ≡ 0) ⊎ ((c : List ℕ) × AnsweredIn c n es)

record Holds (es : List Event) (p : PathData) : Type 0 where
  pending : Pending es p.sent_chals
  largest : Largest es p.max_challenge_size
  large : p.state ≡ validated → min_client_initial_len ≤ p.max_challenge_size

Largest-cons : (e : Event) (es : List Event) (n : ℕ) → Largest es n → Largest (e ∷ es) n
Largest-cons e es n (inl z) = inl z
Largest-cons e es n (inr (c, h)) = inr (c, AnsweredIn-cons c n e es h)

Largest-max : (es : List Event) (a b : ℕ) → Largest es a → Largest es b → Largest es (max a b)
Largest-max es a b h k = elim (Bool-cases (ltb a b)) [
  | inl c ↦ subst (Largest es) (ground (arith, c)) k
  | inr c ↦ subst (Largest es) (ground (arith, c)) h
]

-- The answered challenges leave, and the size is that of one of them.
record Answers (now : ℕ) (content : List ℕ) (b : Bool) (es : List Event) (r : Retained)
    : Type 0 where
  pending : Pending es r.kept
  size : Largest (resp_received now content b ∷ es) r.size

retain-Answers :
    (now : ℕ) (content : List ℕ) (b : Bool) (es : List Event) (cs : List Challenge) (size : ℕ)
    (rtt : RttEstimator)
    → Pending es cs
    → Largest (resp_received now content b ∷ es) size
    → Answers now content b es (retain now content cs size rtt)
unfolding retain
retain-Answers now content b es [] size rtt h k = record { pending = tt; size = k }
retain-Answers now content b es (c ∷ cs) size rtt h k =
    elim (Bool-cases (same_bytes c.content content)) [
      | inl m ↦
          rw m (retain-Answers now content b es cs c.size _ h.1 (inr (c.content, inl (m, h.0))))
      | inr m ↦
          let a = retain-Answers now content b es cs size rtt h.1 k in
          rw m (record { pending = (h.0, a.pending); size = a.size })
    ]

-- The state only rises to `validated` by being promoted to it.
promote_to-validated :
    (s : PathState) (p : PathData)
    → rank s ≤ 3
    → (promote_to s p).state ≡ validated
    → p.state ≡ validated
unfolding promote_to
promote_to-validated s p h e = elim (Bool-cases (ltb (rank p.state) (rank s))) [
  | inl c ↦ absurd (below s h (state_of c))
  | inr c ↦ kept c
]
  where
    state_of : ltb (rank p.state) (rank s) ≡ true → s ≡ validated
    state_of c = ground (arith, c, e)

    kept : ltb (rank p.state) (rank s) ≡ false → p.state ≡ validated
    kept c = ground (arith, c, e)

    below : (s : PathState) → rank s ≤ 3 → s ≡ validated → ⊥
    below s h e = ground (arith, h, e)

promote_to-fields :
    (s : PathState) (p : PathData)
    → ((promote_to s p).sent_chals ≡ p.sent_chals)
      × ((promote_to s p).max_challenge_size ≡ p.max_challenge_size)
unfolding promote_to
promote_to-fields s p = elim (Bool-cases (ltb (rank p.state) (rank s))) [
  | inl c ↦ rw c (refl, refl)
  | inr c ↦ rw c (refl, refl)
]

sent-Holds :
    (content : List ℕ) (size time : ℕ) (es : List Event) (p : PathData)
    → Holds es p
    → Holds (chal_sent content size time ∷ es) (on_path_chal_sent content size time p)
unfolding on_path_chal_sent
sent-Holds content size time es p h =
    let e : Event = chal_sent content size time in
    let f = promote_to-fields validating p in
    record {
      pending =
          Pending-append (e ∷ es) (promote_to validating p).sent_chals _
            (subst (Pending (e ∷ es)) (sym f.0) (Pending-cons e es p.sent_chals h.pending))
            (inl (refl, refl));
      largest =
          subst (Largest (e ∷ es)) (sym f.1) (Largest-cons e es p.max_challenge_size h.largest);
      large = λ v.
          subst (λ n. min_client_initial_len ≤ n) (sym f.1)
            (h.large (promote_to-validated validating p (omega arith) v));
    }

-- What the end of a response makes of a path whose state is not `validated` before it.
conclude-Holds :
    (multipath : Bool) (es : List Event) (p : PathData)
    → (p.state ≡ validated → ⊥)
    → Pending es p.sent_chals
    → Largest es p.max_challenge_size
    → Holds es (conclude multipath p).1
unfolding conclude
conclude-Holds multipath es p n h k =
    let q = promote_to validating_mtu p in
    let f = promote_to-fields validating_mtu p in
    let g = promote_to-fields validated q in
    elim (Bool-cases (leb min_client_initial_len q.max_challenge_size)) [
      | inl c ↦ rw c (record {
        pending = tt;
        largest = subst (Largest es) (sym (g.1 ∙ f.1)) k;
        large = λ v. subst (λ n. min_client_initial_len ≤ n) (sym g.1) (leb→le _ _ c);
      })
      | inr c ↦ rw c (record {
        pending = subst (Pending es) (sym f.0) h;
        largest = subst (Largest es) (sym f.1) k;
        large = λ v. absurd (n (promote_to-validated validating_mtu p (omega arith) v));
      })
    ]

not_validated : (p : PathData) → is_validated p ≡ false → p.state ≡ validated → ⊥
unfolding is_validated
not_validated p c e = ground (arith, c, e)

response-Holds :
    (now : ℕ) (content : List ℕ) (multipath : Bool) (es : List Event) (p : PathData)
    → Holds es p
    → Holds
        (resp_received now content multipath ∷ es)
        (on_path_resp_received now content multipath p).1
unfolding on_path_resp_received
response-Holds now content multipath es p h =
    let e : Event = resp_received now content multipath in
    let a = retain-Answers now content multipath es p.sent_chals 0 p.rtt h.pending (inl refl) in
    elim (Bool-cases (is_validated p)) [
      | inl c ↦ rw c (record {
        pending = Pending-cons e es p.sent_chals h.pending;
        largest = Largest-cons e es p.max_challenge_size h.largest;
        large = h.large;
      })
      | inr c ↦ rw c (
          conclude-Holds multipath (e ∷ es) _ (not_validated p c) (Pending-cons e es _ a.pending) (
            Largest-max (e ∷ es) p.max_challenge_size _
              (Largest-cons e es p.max_challenge_size h.largest) a.size))
    ]

-- The timer takes challenges away, and leaves the state or makes it `failed`.
expire-Holds :
    (now : ℕ) (es : List Event) (cs : List Challenge) (p : PathData)
    → Pending es cs
    → Largest es p.max_challenge_size
    → (p.state ≡ validated → min_client_initial_len ≤ p.max_challenge_size)
    → Holds es (expire now cs p)
unfolding expire fail initiate_path_chal
expire-Holds now es [] p h k l = record { pending = tt; largest = k; large = l }
expire-Holds now es (c ∷ cs) p h k l = elim (Bool-cases (ltb now c.loss_time)) [
  | inl a ↦ rw a (record { pending = h; largest = k; large = l })
  | inr a ↦ elim (Bool-cases (ltb (p.lost_chal + 1) max_probing_timeouts)) [
    | inl b ↦ rw (a, b) (expire-Holds now es cs _ h.1 k l)
    | inr b ↦ rw (a, b) (record { pending = tt; largest = k; large = λ v. absurd (failed_ne v) })
  ]
]
  where
    failed_ne : failed ≡ validated → ⊥
    failed_ne e = cc e

timeout-Holds :
    (now : ℕ) (es : List Event) (p : PathData) → Holds es p → Holds es (on_path_chal_timeout now p)
unfolding on_path_chal_timeout
timeout-Holds now es p h = elim (Bool-cases (is_probing p.state)) [
  | inl c ↦ rw c (expire-Holds now es p.sent_chals p h.pending h.largest h.large)
  | inr c ↦ rw c h
]

Holds-cons : (e : Event) (es : List Event) (p : PathData) → Holds es p → Holds (e ∷ es) p
Holds-cons e es p h = record {
  pending = Pending-cons e es p.sent_chals h.pending;
  largest = Largest-cons e es p.max_challenge_size h.largest;
  large = h.large;
}

step-Holds : (e : Event) (es : List Event) (p : PathData) → Holds es p → Holds (e ∷ es) (step e p)
unfolding step on_path_chal_received initiate_path_chal
step-Holds (chal_sent content size time) es p h = sent-Holds content size time es p h
step-Holds (resp_received now content multipath) es p h =
    response-Holds now content multipath es p h
step-Holds (timeout now) es p h = Holds-cons (timeout now) es _ (timeout-Holds now es p h)
step-Holds (chal_received content) es p h =
    let k = Holds-cons (chal_received content) es p h in
    record { pending = k.pending; largest = k.largest; large = k.large }
step-Holds initiate es p h =
    let k = Holds-cons initiate es p h in
    record { pending = k.pending; largest = k.largest; large = k.large }

run-Holds :
    (rtt : RttEstimator) (max_datagram_size : ℕ) (es : List Event)
    → Holds es (run es (new false rtt max_datagram_size))
unfolding run new
run-Holds rtt m [] = record { pending = tt; largest = inl refl; large = λ v. absurd (unknown_ne v) }
  where
    unknown_ne : unknown ≡ validated → ⊥
    unknown_ne e = cc e
run-Holds rtt m (e ∷ es) = step-Holds e es (run es (new false rtt m)) (run-Holds rtt m es)

-- A path that is not the initial one is validated, after any run of its operations, only if a response
-- came with the bytes of a challenge that had been sent on it before, in a packet of at least 1200 bytes.
pub run_validated :
    (rtt : RttEstimator) (max_datagram_size : ℕ) (es : List Event)
    → (run es (new false rtt max_datagram_size)).state ≡ validated
    → (content : List ℕ) × (size : ℕ) × (min_client_initial_len ≤ size) × AnsweredIn content size es
run_validated rtt m es v =
    let h = run-Holds rtt m es in
    answered (run es (new false rtt m)).max_challenge_size (h.large v) h.largest
  where
    answered :
        (n : ℕ)
        → min_client_initial_len ≤ n
        → Largest es n
        → (content : List ℕ) × (size : ℕ) × (min_client_initial_len ≤ size)
          × AnsweredIn content size es
    answered n g (inl z) = absurd (omega (arith, g, z))
    answered n g (inr (c, h)) = (c, n, g, h)
