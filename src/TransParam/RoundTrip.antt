-- ===== src/TransParam/RoundTrip.antt =====
-- `decode` takes back what `encode` wrote.
use raw_quic.Prelude.{
  Bool, Bool-cases, List, Option, [], arith, drop, false, if◌then◌else◌, inl, inr, leb, length, ltb,
  none, not, refl, some, sym, true, ℕ, ◌+◌, ◌-◌, ◌<◌, ◌==◌, ◌||◌, ◌∙◌, ◌∷◌, ◌≡◌, ◌≤◌,
}
use raw_quic.Error.{ok, Result, err, buffer_too_short}
use raw_quic.Cid.{ConnectionId, IsCid}
use raw_quic.Codec.{vint_max}
use raw_quic.Codec.Bytes.{length-be_bytes}
use raw_quic.Codec.VarintBytes.{varint_bytes, length-varint_bytes}
use raw_quic.TransParam.{PreferredAddress, TransportParams, default}
use raw_quic.TransParam.Preferred.{wire_len}
use raw_quic.TransParam.Decode.{decode_loop, decode}
use raw_quic.TransParam.Encode.{encode}
use raw_quic.TransParam.Written.{encode_lem}
use raw_quic.Codec.Encoder.{Writer, put}
use raw_quic.TransParam.Format.{
  params_bytes, params, nonzero, only_if, cid_value, token_value, flag_value, preferred_value, Each,
  IsPreferred, IsSendable,
}
use raw_quic.TransParam.Writes.{length-preferred_bytes}
use raw_quic.TransParam.Loop.{nil-Fresh, length-le-bytes, opt-Decodes, nil-Decodes}
use raw_quic.TransParam.Numbers.{
  or_old, idle-Applies, payload-Applies, initial-Applies, bidi_local-Applies, bidi_remote-Applies,
  uni-Applies, streams_bidi-Applies, streams_uni-Applies, exponent-Applies, delay-Applies,
  cid_limit-Applies,
}
use raw_quic.TransParam.Applies.{
  option_or, original-Applies, retry-Applies, source-Applies, token-Applies, preferred-Applies,
  migration-Applies, multipath-Applies, encryption-Applies,
}

-- The length of a value is a varint.
abbrev Short : Option (List ℕ) → Type 0
Short o = Each (λ v. length v ≤ vint_max) o

varint-short : (v : ℕ) → length (varint_bytes v) ≤ vint_max
varint-short v = ground (arith, length-varint_bytes v)

nonzero-Short : (v : ℕ) → Short (nonzero v)
nonzero-Short v = elim (Bool-cases (v == 0)) [ inl c ↦ rw c tt | inr c ↦ rw c (varint-short v) ]

only_if-Short : (b : Bool) (o : Option (List ℕ)) → Short o → Short (only_if b o)
only_if-Short true o h = h
only_if-Short false o h = tt

cid-Short : (o : Option ConnectionId) → Each IsCid o → Short (cid_value o)
cid-Short none h = tt
cid-Short (some cid) h = omega (arith, h.short)

token-Short : (o : Option ℕ) → Short (token_value o)
token-Short none = tt
token-Short (some t) = omega (arith, length-be_bytes 16 t)

flag-Short : (b : Bool) → Short (flag_value b)
flag-Short false = tt
flag-Short true = omega arith

preferred-Short : (o : Option PreferredAddress) → Each IsPreferred o → Short (preferred_value o)
unfolding wire_len
preferred-Short none h = tt
preferred-Short (some p) h = omega (arith, length-preferred_bytes p h, h.cid.short)

-- The parameters as the peer decodes them: those that only a server sends are left out by a client,
-- and what is left out has its default.
pub received : TransportParams → Bool → TransportParams
received tp is_server = record tp {
  original_destination_connection_id =
      if is_server then tp.original_destination_connection_id else none;
  stateless_reset_token = if is_server then tp.stateless_reset_token else none;
  max_udp_payload_size = if tp.max_udp_payload_size == 0 then 65527 else tp.max_udp_payload_size;
  ack_delay_exponent = if tp.ack_delay_exponent == 0 then 3 else tp.ack_delay_exponent;
  max_ack_delay = if tp.max_ack_delay == 0 then 25 else tp.max_ack_delay;
  active_conn_id_limit = if leb 2 tp.active_conn_id_limit then tp.active_conn_id_limit else 2;
  retry_source_connection_id = if is_server then tp.retry_source_connection_id else none;
}

-- What the branches make of the defaults, one after the other.
decoded : TransportParams → Bool → TransportParams
decoded tp b = record {
  original_destination_connection_id =
      if b then option_or tp.original_destination_connection_id none else none;
  max_idle_timeout = or_old tp.max_idle_timeout 0;
  stateless_reset_token = if b then option_or tp.stateless_reset_token none else none;
  max_udp_payload_size = or_old tp.max_udp_payload_size 65527;
  initial_max_data = or_old tp.initial_max_data 0;
  initial_max_stream_data_bidi_local = or_old tp.initial_max_stream_data_bidi_local 0;
  initial_max_stream_data_bidi_remote = or_old tp.initial_max_stream_data_bidi_remote 0;
  initial_max_stream_data_uni = or_old tp.initial_max_stream_data_uni 0;
  initial_max_streams_bidi = or_old tp.initial_max_streams_bidi 0;
  initial_max_streams_uni = or_old tp.initial_max_streams_uni 0;
  ack_delay_exponent = or_old tp.ack_delay_exponent 3;
  max_ack_delay = or_old tp.max_ack_delay 25;
  disable_active_migration = tp.disable_active_migration || false;
  preferred_address = option_or tp.preferred_address none;
  active_conn_id_limit = if leb 2 tp.active_conn_id_limit then tp.active_conn_id_limit else 2;
  initial_source_connection_id = option_or tp.initial_source_connection_id none;
  retry_source_connection_id = if b then option_or tp.retry_source_connection_id none else none;
  enable_multipath = tp.enable_multipath || false;
  disable_encryption = tp.disable_encryption || false;
}

option_or-none : {A : Type 0} (o : Option A) → option_or o none ≡ o
option_or-none none = refl
option_or-none (some a) = refl

or_old-zero : (v : ℕ) → or_old v 0 ≡ v
or_old-zero v = ground arith

or-false : (b : Bool) → (b || false) ≡ b
or-false true = refl
or-false false = refl

decoded-eq-received : (tp : TransportParams) (b : Bool) → decoded tp b ≡ received tp b
unfolding decoded received
decoded-eq-received tp b = simp (option_or-none, or_old-zero, or-false)

-- The identifiers, in the order in which they are sent.
abbrev ids : List ℕ
ids =
    0x0000 ∷ 0x0001 ∷ 0x0002 ∷ 0x0003 ∷ 0x0004 ∷ 0x0005 ∷ 0x0006 ∷ 0x0007 ∷ 0x0008 ∷ 0x0009 ∷ 0x000a
    ∷ 0x000b ∷ 0x000c ∷ 0x000d ∷ 0x000e ∷ 0x000f ∷ 0x0010 ∷ 0x0f739bbc1b666d05 ∷ 0xbaad ∷ []

params-decoded :
    (tp : TransportParams) (b : Bool) (fuel : ℕ)
    → IsSendable tp b
    → length (params tp b) < fuel
    → decode_loop fuel (not b) [] default (params_bytes (params tp b)) ≡ ok (decoded tp b, [])
unfolding params decoded
params-decoded tp b fuel h =
    (opt-Decodes (not b) 0x0000 _ (drop 1 ids) _ _ _ (omega arith)
        (only_if-Short b _ (cid-Short _ h.original)) refl (original-Applies b _ h.original)
        (opt-Decodes (not b) 0x0001 _ (drop 2 ids) _ _ _ (omega arith) (nonzero-Short _) refl
          (idle-Applies (not b) _ h.idle)
          (opt-Decodes (not b) 0x0002 _ (drop 3 ids) _ _ _ (omega arith)
            (only_if-Short b _ (token-Short _)) refl (token-Applies b _ h.token)
            (opt-Decodes (not b) 0x0003 _ (drop 4 ids) _ _ _ (omega arith) (nonzero-Short _) refl
              (payload-Applies (not b) _ h.payload h.payload_min)
              (opt-Decodes (not b) 0x0004 _ (drop 5 ids) _ _ _ (omega arith) (nonzero-Short _) refl
                (initial-Applies (not b) _ h.initial)
                (opt-Decodes (not b) 0x0005 _ (drop 6 ids) _ _ _ (omega arith) (nonzero-Short _)
                  refl (bidi_local-Applies (not b) _ h.bidi_local)
                  (opt-Decodes (not b) 0x0006 _ (drop 7 ids) _ _ _ (omega arith) (nonzero-Short _)
                    refl (bidi_remote-Applies (not b) _ h.bidi_remote)
                    (opt-Decodes (not b) 0x0007 _ (drop 8 ids) _ _ _ (omega arith) (nonzero-Short _)
                      refl (uni-Applies (not b) _ h.uni)
                      (opt-Decodes (not b) 0x0008 _ (drop 9 ids) _ _ _ (omega arith)
                        (nonzero-Short _) refl (streams_bidi-Applies (not b) _ h.streams_bidi)
                        (opt-Decodes (not b) 0x0009 _ (drop 10 ids) _ _ _ (omega arith)
                          (nonzero-Short _) refl (streams_uni-Applies (not b) _ h.streams_uni)
                          (opt-Decodes (not b) 0x000a _ (drop 11 ids) _ _ _ (omega arith)
                            (nonzero-Short _) refl (exponent-Applies (not b) _ h.exponent)
                            (opt-Decodes (not b) 0x000b _ (drop 12 ids) _ _ _ (omega arith)
                              (nonzero-Short _) refl (delay-Applies (not b) _ h.delay)
                              (opt-Decodes (not b) 0x000c _ (drop 13 ids) _ _ _ (omega arith)
                                (flag-Short _) refl (migration-Applies (not b) _)
                                (opt-Decodes (not b) 0x000d _ (drop 14 ids) _ _ _ (omega arith)
                                  (preferred-Short _ h.preferred) refl
                                  (preferred-Applies b _ h.preferred_server h.preferred)
                                  (opt-Decodes (not b) 0x000e _ (drop 15 ids) _ _ _ (omega arith)
                                    (only_if-Short (leb 2 tp.active_conn_id_limit)
                                      (some (varint_bytes tp.active_conn_id_limit))
                                      (varint-short tp.active_conn_id_limit))
                                    refl (cid_limit-Applies (not b) _ h.cid_limit)
                                    (opt-Decodes (not b) 0x000f _ (drop 16 ids) _ _ _ (omega arith)
                                      (cid-Short _ h.source) refl
                                      (source-Applies (not b) _ h.source)
                                      (opt-Decodes (not b) 0x0010 _ (drop 17 ids) _ _ _
                                        (omega arith) (only_if-Short b _ (cid-Short _ h.retry)) refl
                                        (retry-Applies b _ h.retry)
                                        (opt-Decodes (not b) 0x0f739bbc1b666d05 _ (drop 18 ids) _ _
                                          _ (omega arith) (flag-Short _) refl
                                          (multipath-Applies (not b) _)
                                          (opt-Decodes (not b) 0xbaad _ (drop 19 ids) _ _ _
                                            (omega arith) (flag-Short _) refl
                                            (encryption-Applies (not b) _)
                                            (nil-Decodes (not b)))))))))))))))))))))
      fuel [] default (nil-Fresh ids)

decode-params :
    (tp : TransportParams) (b : Bool)
    → IsSendable tp b
    → decode (params_bytes (params tp b)) (not b)
      ≡ ok (received tp b, length (params_bytes (params tp b)))
unfolding decode
decode-params tp b h =
    let bytes : List ℕ = params_bytes (params tp b) in
    let n : length bytes - 0 ≡ length bytes = omega arith in
    rw (
      params-decoded tp b (length bytes + 1) h (omega (arith, length-le-bytes (params tp b))),
      decoded-eq-received tp b,
      n,
    )

-- What `encode` wrote into an empty buffer, for parameters that an endpoint of this side may send, the
-- peer's `decode` reads to the end, and gets the same parameters, except that those only a server
-- sends are missing from a client's, and that what `encode` leaves out has its default: a maximum
-- payload size, an exponent or a maximum delay of 0, and a limit on identifiers below 2.
pub decode-encode :
    (tp : TransportParams) (is_server : Bool) (room n : ℕ) (w : Writer)
    → IsSendable tp is_server
    → encode tp is_server (record { out = []; room = room }) ≡ ok (n, w)
    → decode w.out (not is_server) ≡ ok (received tp is_server, n)
decode-encode tp b room n w h e =
    let (bytes, count) = written in rw (bytes, count) (decode-params tp b h)
  where
    sent : List ℕ
    sent = params_bytes (params tp b)

    start : Writer
    start = record { out = []; room = room }

    answer : Result (ℕ × Writer)
    answer =
        if ltb room (length sent) then err buffer_too_short else ok (length sent, put sent start)

    shape : answer ≡ ok (n, w)
    shape = sym (encode_lem tp b start h) ∙ e

    written : (w.out ≡ sent) × (n ≡ length sent)
    written = ground (arith, shape)
