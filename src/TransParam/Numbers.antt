-- ===== src/TransParam/Numbers.antt =====
-- What one number, read or left out, does to the parameters decoded.
use raw_quic.Prelude.{
  Bool, Bool-cases, List, Option, [], ap, append-nil, arith, false, if◌then◌else◌, inl, inr, leb,
  ltb, none, refl, some, sym, true, ℕ, ◌++◌, ◌<◌, ◌==◌, ◌^◌, ◌∙◌, ◌≡◌, ◌≤◌, ◌⊎◌,
}
use raw_quic.Error.{Result, ok}
use raw_quic.Codec.{vint_max}
use raw_quic.Codec.Decoder.{read_varint}
use raw_quic.Codec.VarintBytes.{varint_bytes}
use raw_quic.Codec.RoundTrip.{read_varint-bytes}
use raw_quic.TransParam.{TransportParams}
use raw_quic.TransParam.Decode.{apply_param, checked, with_value, max_streams_per_type}
use raw_quic.TransParam.Format.{nonzero, only_if}

-- The parameter, if it is there, changes what is decoded by `g`; if it is not, `g` changes nothing.
abbrev pub Applies : Bool → ℕ → Option (List ℕ) → (TransportParams → TransportParams) → Type 0
Applies is_server id none g = (tp : TransportParams) → g tp ≡ tp
Applies is_server id (some val) g =
    (tp : TransportParams) → apply_param is_server id val tp ≡ ok (g tp)

-- A reader that takes all of the value.
pub with_value-Reads :
    {A B : Type 0} (m : List ℕ → Result (A × List ℕ)) (val : List ℕ) (a : A) (k : A → Result B)
    → m (val ++ []) ≡ ok (a, [])
    → with_value m val k ≡ k a
with_value-Reads m val a k e =
    let e' : m val ≡ ok (a, []) = ap m (sym (append-nil val)) ∙ e in rw e'

-- The branches for numbers: what they do is given by the branch at the identifier.
number-Applies :
    (is_server : Bool) (id v : ℕ) (k : ℕ → TransportParams → Result TransportParams)
    (g : TransportParams → TransportParams)
    → v ≤ vint_max
    → ((val : List ℕ) (tp : TransportParams)
        → apply_param is_server id val tp ≡ with_value read_varint val (λ v. k v tp))
    → ((v == 0) ≡ true → (tp : TransportParams) → g tp ≡ tp)
    → ((v == 0) ≡ false → (tp : TransportParams) → k v tp ≡ ok (g tp))
    → Applies is_server id (nonzero v) g
number-Applies is_server id v k g h branch left read_it = elim (Bool-cases (v == 0)) [
  | inl c ↦ rw c (left c)
  | inr c ↦ rw c (λ tp.
      branch (varint_bytes v) tp
      ∙ with_value-Reads read_varint (varint_bytes v) v (λ v. k v tp) (read_varint-bytes v [] h)
      ∙ read_it c tp)
]

-- A number left out keeps the old value.
abbrev pub or_old : ℕ → ℕ → ℕ
or_old v old = if v == 0 then old else v

module _ (is_server : Bool) (v : ℕ) where
  pub idle-Applies :
      v ≤ vint_max
      → Applies is_server 0x0001
          (nonzero v)
          (λ tp. record tp { max_idle_timeout = or_old v tp.max_idle_timeout })
  unfolding apply_param
  idle-Applies h =
      number-Applies is_server 0x0001 v (λ v tp. ok (record tp { max_idle_timeout = v })) _ h
        (λ val tp. refl) (λ c tp. rw c) (λ c tp. rw c)

  pub payload-Applies :
      v ≤ vint_max
      → (v ≡ 0) ⊎ (1200 ≤ v)
      → Applies is_server 0x0003
          (nonzero v)
          (λ tp. record tp { max_udp_payload_size = or_old v tp.max_udp_payload_size })
  unfolding apply_param
  payload-Applies h m =
      number-Applies is_server 0x0003 v
        (λ v tp. checked (ltb v 1200) (record tp { max_udp_payload_size = v })) _ h (λ val tp. refl)
        (λ c tp. rw c)
        (λ c tp. let e : ltb v 1200 ≡ false = ground (arith, m, c) in rw (c, e, checked))

  pub initial-Applies :
      v ≤ vint_max
      → Applies is_server 0x0004
          (nonzero v)
          (λ tp. record tp { initial_max_data = or_old v tp.initial_max_data })
  unfolding apply_param
  initial-Applies h =
      number-Applies is_server 0x0004 v (λ v tp. ok (record tp { initial_max_data = v })) _ h
        (λ val tp. refl) (λ c tp. rw c) (λ c tp. rw c)

  pub bidi_local-Applies :
      v ≤ vint_max
      → Applies is_server 0x0005 (nonzero v) (λ tp. record tp {
        initial_max_stream_data_bidi_local = or_old v tp.initial_max_stream_data_bidi_local;
      })
  unfolding apply_param
  bidi_local-Applies h =
      number-Applies is_server 0x0005 v
        (λ v tp. ok (record tp { initial_max_stream_data_bidi_local = v })) _ h (λ val tp. refl)
        (λ c tp. rw c) (λ c tp. rw c)

  pub bidi_remote-Applies :
      v ≤ vint_max
      → Applies is_server 0x0006 (nonzero v) (λ tp. record tp {
        initial_max_stream_data_bidi_remote = or_old v tp.initial_max_stream_data_bidi_remote;
      })
  unfolding apply_param
  bidi_remote-Applies h =
      number-Applies is_server 0x0006 v
        (λ v tp. ok (record tp { initial_max_stream_data_bidi_remote = v })) _ h (λ val tp. refl)
        (λ c tp. rw c) (λ c tp. rw c)

  pub uni-Applies :
      v ≤ vint_max
      → Applies is_server 0x0007 (nonzero v) (λ tp. record tp {
        initial_max_stream_data_uni = or_old v tp.initial_max_stream_data_uni;
      })
  unfolding apply_param
  uni-Applies h =
      number-Applies is_server 0x0007 v (λ v tp. ok (record tp { initial_max_stream_data_uni = v }))
        _ h (λ val tp. refl) (λ c tp. rw c) (λ c tp. rw c)

  pub streams_bidi-Applies :
      v ≤ max_streams_per_type
      → Applies is_server 0x0008
          (nonzero v)
          (λ tp. record tp { initial_max_streams_bidi = or_old v tp.initial_max_streams_bidi })
  unfolding apply_param
  streams_bidi-Applies h =
      number-Applies is_server 0x0008 v
        (λ v tp. checked (ltb max_streams_per_type v) (record tp { initial_max_streams_bidi = v }))
        _ (omega arith) (λ val tp. refl) (λ c tp. rw c)
        (λ c tp. let e : (ltb max_streams_per_type v) ≡ false = ground arith in rw (c, e, checked))

  pub streams_uni-Applies :
      v ≤ max_streams_per_type
      → Applies is_server 0x0009
          (nonzero v)
          (λ tp. record tp { initial_max_streams_uni = or_old v tp.initial_max_streams_uni })
  unfolding apply_param
  streams_uni-Applies h =
      number-Applies is_server 0x0009 v
        (λ v tp. checked (ltb max_streams_per_type v) (record tp { initial_max_streams_uni = v })) _
        (omega arith) (λ val tp. refl) (λ c tp. rw c)
        (λ c tp. let e : (ltb max_streams_per_type v) ≡ false = ground arith in rw (c, e, checked))

  pub exponent-Applies :
      v ≤ 20
      → Applies is_server 0x000a
          (nonzero v)
          (λ tp. record tp { ack_delay_exponent = or_old v tp.ack_delay_exponent })
  unfolding apply_param
  exponent-Applies h =
      number-Applies is_server 0x000a v
        (λ v tp. checked (ltb 20 v) (record tp { ack_delay_exponent = v })) _ (omega arith)
        (λ val tp. refl) (λ c tp. rw c)
        (λ c tp. let e : (ltb 20 v) ≡ false = ground arith in rw (c, e, checked))

  pub delay-Applies :
      v < 2 ^ 14
      → Applies is_server 0x000b
          (nonzero v)
          (λ tp. record tp { max_ack_delay = or_old v tp.max_ack_delay })
  unfolding apply_param
  delay-Applies h =
      number-Applies is_server 0x000b v
        (λ v tp. checked (leb (2 ^ 14) v) (record tp { max_ack_delay = v })) _ (omega arith)
        (λ val tp. refl) (λ c tp. rw c)
        (λ c tp. let e : (leb (2 ^ 14) v) ≡ false = ground arith in rw (c, e, checked))

  pub cid_limit-Applies :
      v ≤ vint_max
      → Applies is_server 0x000e (only_if (leb 2 v) (some (varint_bytes v))) (λ tp. record tp {
        active_conn_id_limit = if leb 2 v then v else tp.active_conn_id_limit;
      })
  unfolding apply_param
  cid_limit-Applies h = elim (Bool-cases (leb 2 v)) [
    | inr c ↦ rw c (λ tp. refl)
    | inl c ↦ rw c (λ tp.
        let e : ltb v 2 ≡ false = ground arith in
        with_value-Reads read_varint (varint_bytes v) v
          (λ v. checked (ltb v 2) (record tp { active_conn_id_limit = v }))
          (read_varint-bytes v [] h)
        ∙ rw (e, checked))
  ]
