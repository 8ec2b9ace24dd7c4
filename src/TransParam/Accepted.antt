-- ===== src/TransParam/Accepted.antt =====
-- What `decode` accepts, and that it reads any bytes without a panic.
use raw_quic.Prelude.{
  Bool, List, [], arith, false, if◌then◌else◌, leb, length, ltb, member, none, refl, suc, sym, take,
  true, zero, ℕ, ◌+◌, ◌-◌, ◌<◌, ◌==◌, ◌^◌, ◌∷◌, ◌≡◌, ◌≤◌,
}
use raw_quic.Error.{Result, ok, err, transport_parameter_error}
use raw_quic.Codec.Decoder
use raw_quic.Error
use raw_quic.TransParam.Decode.{
  decode_round, decode_loop, decode, checked, with_value, max_streams_per_type, apply_param,
}
use raw_quic.TransParam.{default, PreferredAddress, TransportParams}
use raw_quic.Codec.Safety.{
  bind-Safe, Left, read_with_varint_length-Safe, read_varint-Safe, bind-Ensures, if-Ensures,
  step-Safe, read-IsBytes, read_u16-Safe, read_u8-Safe, lift-Safe, read-Safe, Ensures, IsBytes,
  Safe, Any, cut-Safe,
}
use mathlib.Core.Path.{subst}
use raw_quic.Codec.Decoder.{
  Decoder, read_varint, read_u8, read_u16, read_ipv4_addr, read_ipv6_addr, read,
  read_with_varint_length,
}
use raw_quic.TransParam.Preferred.{from_bytes, new_token}

-- The bounds of RFC 9000, section 18.2, and that a client sends none of the server's parameters.
pub record IsAccepted (is_server : Bool) (tp : TransportParams) : Type 0 where
  pub payload : 1200 ≤ tp.max_udp_payload_size
  pub streams_bidi : tp.initial_max_streams_bidi ≤ max_streams_per_type
  pub streams_uni : tp.initial_max_streams_uni ≤ max_streams_per_type
  pub exponent : tp.ack_delay_exponent ≤ 20
  pub delay : tp.max_ack_delay < 2 ^ 14
  pub cid_limit : 2 ≤ tp.active_conn_id_limit
  pub original : is_server ≡ true → tp.original_destination_connection_id ≡ none
  pub token : is_server ≡ true → tp.stateless_reset_token ≡ none
  pub preferred : is_server ≡ true → tp.preferred_address ≡ none
  pub retry : is_server ≡ true → tp.retry_source_connection_id ≡ none

ipv4-Safe : Safe {A = List ℕ} Any 4 read_ipv4_addr
unfolding read_ipv4_addr
ipv4-Safe s b = cut-Safe Any 4 (take 4 s) s (λ _. tt) b

ipv6-Safe : Safe {A = List ℕ} Any 16 read_ipv6_addr
unfolding read_ipv6_addr
ipv6-Safe s b = cut-Safe Any 16 (take 16 s) s (λ _. tt) b

new_token-Ensures : (bs : List ℕ) → length bs ≡ 16 → Ensures {A = List ℕ} Any (new_token bs)
unfolding new_token
new_token-Ensures bs h = rw h tt

-- A value is read from its own bytes.
value-Ensures :
    {A B : Type 0} (P : A → Type 0) (Q : B → Type 0) (n : ℕ) (m : Decoder A) (val : List ℕ)
    (k : A → Result B)
    → Safe P n m
    → IsBytes val
    → ((a : A) → P a → Ensures Q (k a))
    → Ensures Q (with_value m val k)
value-Ensures P Q n m val k h b g =
    bind-Ensures (λ r. P r.0 × Left n val r.1) Q (m val) (λ r. k r.0) (h val b) (λ r p. g r.0 p.0)

from_bytes-Safe : Safe {A = PreferredAddress} Any 0 from_bytes
unfolding from_bytes
from_bytes-Safe = step-Safe {A = List ℕ} Any Any 4 read_ipv4_addr _ ipv4-Safe (λ ip4 _.
    step-Safe {A = ℕ} Any Any 2 read_u16 _ read_u16-Safe (λ port4 _.
      step-Safe {A = List ℕ} Any Any 16 read_ipv6_addr _ ipv6-Safe (λ ip6 _.
        step-Safe {A = ℕ} Any Any 2 read_u16 _ read_u16-Safe (λ port6 _.
          step-Safe {A = ℕ} Any Any 1 read_u8 _ read_u8-Safe (λ n _.
            step-Safe {A = List ℕ} IsBytes Any 0 (read n) _ (read-IsBytes n) (λ cid _.
              step-Safe {A = List ℕ} (λ v. IsBytes v × (length v ≡ 16)) Any 16 (read 16) _
                (read-Safe 16)
                (λ token p.
                  step-Safe {A = List ℕ} Any Any 0 (Decoder.lift (new_token token)) _
                    (lift-Safe {A = List ℕ} Any (new_token token) (new_token-Ensures token p.1))
                    (λ token' _ s b. (tt, (b, omega arith))))))))))

checked-Ensures :
    (P : TransportParams → Type 0) (bad : Bool) (tp : TransportParams)
    → (bad ≡ false → P tp)
    → Ensures P (checked bad tp)
unfolding checked
checked-Ensures P true tp h = tt
checked-Ensures P false tp h = h refl

-- A branch for a number, with the bound that it checks.
number-Ensures :
    (P : TransportParams → Type 0) (val : List ℕ) (bad : ℕ → Bool) (f : ℕ → TransportParams)
    → IsBytes val
    → ((v : ℕ) → bad v ≡ false → P (f v))
    → Ensures P (with_value read_varint val (λ v. checked (bad v) (f v)))
number-Ensures P val bad f b h =
    value-Ensures {A = ℕ} Any P 1 read_varint val (λ v. checked (bad v) (f v)) read_varint-Safe b
      (λ v _. checked-Ensures P (bad v) (f v) (h v))

plain-Ensures :
    (P : TransportParams → Type 0) (val : List ℕ) (f : ℕ → TransportParams)
    → IsBytes val
    → ((v : ℕ) → P (f v))
    → Ensures P (with_value read_varint val (λ v. ok (f v)))
plain-Ensures P val f b h =
    value-Ensures {A = ℕ} Any P 1 read_varint val (λ v. ok (f v)) read_varint-Safe b (λ v _. h v)

module _ (is_server : Bool) (val : List ℕ) (b : IsBytes val) (tp : TransportParams)
    (h : IsAccepted is_server tp) where
  abbrev P : TransportParams → Type 0
  P = IsAccepted is_server

  -- What only a server sends is refused by a server.
  server-Ensures :
      (k : TransportParams → Result TransportParams)
      → (is_server ≡ false → Ensures (IsAccepted is_server) (k tp))
      → Ensures (IsAccepted is_server) (Error.◌>>=◌ (checked is_server tp) k)
  unfolding checked
  server-Ensures k g =
      bind-Ensures (λ t. (is_server ≡ false) × (t ≡ tp)) (IsAccepted is_server)
        (checked is_server tp) k
        (checked-Ensures (λ t. (is_server ≡ false) × (t ≡ tp)) is_server tp (λ e. (e, refl)))
        (λ t p. subst (λ t. Ensures (IsAccepted is_server) (k t)) (sym p.1) (g p.0))

  apply-Ensures : (id : ℕ) → Ensures (IsAccepted is_server) (apply_param is_server id val tp)
  unfolding apply_param
  apply-Ensures id =
      if-Ensures P (id == 0x0000) _ _ (λ _. checked-Ensures P is_server _ (λ e. ground arith))
        (λ _.
          if-Ensures P (id == 0x0001) _ _ (λ _. plain-Ensures P val _ b (λ v. ground arith))
            (λ _.
              if-Ensures P (id == 0x0002) _ _
                (λ _. server-Ensures _ (λ e.
                  value-Ensures (λ v. IsBytes v × (length v ≡ 16)) P 16 (read 16) val _
                    (read-Safe 16) b (λ v p. ground arith)))
                (λ _.
                  if-Ensures P (id == 0x0003) _ _
                    (λ _. number-Ensures P val (λ v. ltb v 1200) _ b (λ v c. ground arith))
                    (λ _.
                      if-Ensures P (id == 0x0004) _ _
                        (λ _. plain-Ensures P val _ b (λ v. ground arith))
                        (λ _.
                          if-Ensures P (id == 0x0005) _ _
                            (λ _. plain-Ensures P val _ b (λ v. ground arith))
                            (λ _.
                              if-Ensures P (id == 0x0006) _ _
                                (λ _. plain-Ensures P val _ b (λ v. ground arith))
                                (λ _.
                                  if-Ensures P (id == 0x0007) _ _
                                    (λ _. plain-Ensures P val _ b (λ v. ground arith))
                                    (λ _.
                                      if-Ensures P (id == 0x0008) _ _
                                        (λ _.
                                          number-Ensures P val (λ v. ltb max_streams_per_type v) _ b
                                            (λ v c. ground arith))
                                        (λ _.
                                          if-Ensures P (id == 0x0009) _ _
                                            (λ _.
                                              number-Ensures P val (λ v. ltb max_streams_per_type v)
                                                _ b (λ v c. ground arith))
                                            (λ _.
                                              if-Ensures P (id == 0x000a) _ _
                                                (λ _.
                                                  number-Ensures P val (λ v. ltb 20 v) _ b
                                                    (λ v c. ground arith))
                                                (λ _.
                                                  if-Ensures P (id == 0x000b) _ _
                                                    (λ _.
                                                      number-Ensures P val (λ v. leb (2 ^ 14) v) _ b
                                                        (λ v c. ground arith))
                                                    (λ _.
                                                      if-Ensures P (id == 0x000c) _ _
                                                        (λ _. ground arith)
                                                        (λ _.
                                                          if-Ensures P (id == 0x000d) _ _
                                                            (λ _. server-Ensures _ (λ e.
                                                            value-Ensures {A = PreferredAddress} Any
                                                            P 0 from_bytes val _ from_bytes-Safe b
                                                            (λ v p. ground arith)))
                                                            (λ _.
                                                            if-Ensures P (id == 0x000e) _ _
                                                            (λ _.
                                                            number-Ensures P val (λ v. ltb v 2) _ b
                                                            (λ v c. ground arith))
                                                            (λ _.
                                                            if-Ensures P (id == 0x000f) _ _
                                                            (λ _. ground arith)
                                                            (λ _.
                                                            if-Ensures P (id == 0x0010) _ _
                                                            (λ _.
                                                            checked-Ensures P is_server _
                                                            (λ e. ground arith))
                                                            (λ _.
                                                            if-Ensures P (id == 0x0f739bbc1b666d05)
                                                            _ _ (λ _. ground arith)
                                                            (λ _.
                                                            if-Ensures P (id == 0xbaad) _ _
                                                            (λ _. ground arith)
                                                            (λ _. h)))))))))))))))))))

round-Safe :
    (is_server : Bool) (found : List ℕ) (tp : TransportParams)
    → IsAccepted is_server tp
    → Safe {A = ℕ × TransportParams}
        (λ p. IsAccepted is_server p.1)
        1
        (decode_round is_server found tp)
unfolding decode_round
round-Safe is_server found tp h =
    bind-Safe {A = ℕ} {B = ℕ × TransportParams} Any (λ p. IsAccepted is_server p.1) 1 0 read_varint
      _ read_varint-Safe
      (λ id _.
        step-Safe {A = Unit {0}} Any (λ p. IsAccepted is_server p.1) 0
          (Decoder.lift (if member id found then err transport_parameter_error else ok tt)) _
          (lift-Safe {A = Unit {0}} Any
            (if member id found then err transport_parameter_error else ok tt)
            (if-Ensures {A = Unit {0}} Any (member id found) _ _ (λ _. tt) (λ _. tt)))
          (λ _ _.
            step-Safe {A = List ℕ} IsBytes (λ p. IsAccepted is_server p.1) 1 read_with_varint_length
              _ read_with_varint_length-Safe
              (λ val b.
                step-Safe {A = TransportParams} (IsAccepted is_server)
                  (λ p. IsAccepted is_server p.1) 0 (Decoder.lift (apply_param is_server id val tp))
                  _
                  (lift-Safe (IsAccepted is_server) (apply_param is_server id val tp)
                    (apply-Ensures is_server val b tp h id))
                  (λ tp' g s c. (g, (c, omega arith))))))

loop-Safe :
    (fuel : ℕ) (is_server : Bool) (found : List ℕ) (tp : TransportParams) (s : List ℕ)
    → IsAccepted is_server tp
    → IsBytes s
    → length s < fuel
    → Ensures {A = TransportParams × List ℕ}
        (λ r. IsAccepted is_server r.0 × (r.1 ≡ []))
        (decode_loop fuel is_server found tp s)
unfolding decode_loop
loop-Safe zero is_server found tp s h b f = absurd (omega arith)
loop-Safe (suc fuel) is_server found tp [] h b f = (h, refl)
loop-Safe (suc fuel) is_server found tp (c ∷ s) h b f =
    bind-Ensures (λ r. IsAccepted is_server r.0.1 × Left 1 (c ∷ s) r.1)
      (λ r. IsAccepted is_server r.0 × (r.1 ≡ [])) (decode_round is_server found tp (c ∷ s))
      (λ r. decode_loop fuel is_server (r.0.0 ∷ found) r.0.1 r.1)
      (round-Safe is_server found tp h (c ∷ s) b)
      (λ r p.
        loop-Safe fuel is_server (r.0.0 ∷ found) r.0.1 r.1 p.0 p.1.0 (omega (arith, p.1.1, f)))

default-IsAccepted : (is_server : Bool) → IsAccepted is_server default
default-IsAccepted is_server = ground arith

-- Decoding any bytes whatever from a peer does not panic. It fails, or reads them all, and then the
-- parameters are within the bounds that the protocol sets, and none of those that only a server
-- sends was taken by a server.
pub decode-Ensures :
    (buf : List ℕ) (is_server : Bool)
    → IsBytes buf
    → Ensures {A = TransportParams × ℕ}
        (λ r. IsAccepted is_server r.0 × (r.1 ≡ length buf))
        (decode buf is_server)
unfolding decode
decode-Ensures buf is_server b =
    bind-Ensures (λ r. IsAccepted is_server r.0 × (r.1 ≡ []))
      (λ r. IsAccepted is_server r.0 × (r.1 ≡ length buf))
      (decode_loop (length buf + 1) is_server [] default buf)
      (λ r. ok (r.0, length buf - length r.1))
      (loop-Safe (length buf + 1) is_server [] default buf (default-IsAccepted is_server) b
        (omega arith))
      (λ r p. (p.0, rw p.1 (omega arith)))
