-- ===== src/TransParam/Decode.antt =====
-- `TransportParams::decode` (src/trans_param.rs).
use raw_quic.Prelude.{
  Bool, List, [], if◌then◌else◌, leb, length, ltb, member, some, suc, true, zero, ℕ, ◌+◌, ◌-◌, ◌==◌,
  ◌^◌, ◌∷◌,
}
use raw_quic.Error
use raw_quic.Error.{Result, ok, err, panic, transport_parameter_error}
use raw_quic.Cid
use raw_quic.Codec.Decoder
use raw_quic.Codec.Decoder.{
  Decoder, ◌>>=◌, ◌>>◌, return, be_value, read, read_varint, read_with_varint_length,
}
use raw_quic.TransParam.{TransportParams, default}
use raw_quic.TransParam.Preferred.{from_bytes}

abbrev pub max_streams_per_type : ℕ
max_streams_per_type = 2 ^ 60

-- A value read from its bytes, and what is done with it; what stands behind it is not looked at.
abbrev pub with_value : {A B : Type 0} → Decoder A → List ℕ → (A → Result B) → Result B
with_value m val k = Error.◌>>=◌ (m val) (λ r. k r.0)

-- The branches that check the value.
unfoldable pub checked : Bool → TransportParams → Result TransportParams
checked bad tp = if bad then err transport_parameter_error else ok tp

-- The `match id` of the loop.
unfoldable pub apply_param : Bool → ℕ → List ℕ → TransportParams → Result TransportParams
unfolding checked
apply_param is_server id val tp =
    if id == 0x0000
    then checked is_server (record tp { original_destination_connection_id = some (Cid.new val) })
    else if id == 0x0001
    then with_value read_varint val (λ v. ok (record tp { max_idle_timeout = v }))
    else if id == 0x0002
    then Error.◌>>=◌ (checked is_server tp) (λ tp.
      with_value (read 16) val
        (λ bytes. ok (record tp { stateless_reset_token = some (be_value 0 bytes) })))
    else if id == 0x0003
    then with_value read_varint val
        (λ v. checked (ltb v 1200) (record tp { max_udp_payload_size = v }))
    else if id == 0x0004
    then with_value read_varint val (λ v. ok (record tp { initial_max_data = v }))
    else if id == 0x0005
    then with_value read_varint val (λ v. ok (record tp { initial_max_stream_data_bidi_local = v }))
    else if id == 0x0006
    then with_value read_varint val
        (λ v. ok (record tp { initial_max_stream_data_bidi_remote = v }))
    else if id == 0x0007
    then with_value read_varint val (λ v. ok (record tp { initial_max_stream_data_uni = v }))
    else if id == 0x0008
    then with_value read_varint val
        (λ v. checked (ltb max_streams_per_type v) (record tp { initial_max_streams_bidi = v }))
    else if id == 0x0009
    then with_value read_varint val
        (λ v. checked (ltb max_streams_per_type v) (record tp { initial_max_streams_uni = v }))
    else if id == 0x000a
    then with_value read_varint val (λ v. checked (ltb 20 v) (record tp { ack_delay_exponent = v }))
    else if id == 0x000b
    then with_value read_varint val
        (λ v. checked (leb (2 ^ 14) v) (record tp { max_ack_delay = v }))
    else if id == 0x000c
    then ok (record tp { disable_active_migration = true })
    else if id == 0x000d
    then Error.◌>>=◌ (checked is_server tp)
        (λ tp. with_value from_bytes val (λ p. ok (record tp { preferred_address = some p })))
    else if id == 0x000e
    then with_value read_varint val
        (λ v. checked (ltb v 2) (record tp { active_conn_id_limit = v }))
    else if id == 0x000f
    then ok (record tp { initial_source_connection_id = some (Cid.new val) })
    else if id == 0x0010
    then checked is_server (record tp { retry_source_connection_id = some (Cid.new val) })
    else if id == 0x0f739bbc1b666d05
    then ok (record tp { enable_multipath = true })
    else if id == 0xbaad
    then ok (record tp { disable_encryption = true })
    else ok tp

-- One round of the loop, with the identifiers found before it: the identifier that it adds, and the
-- parameters that it leaves.
unfoldable pub decode_round : Bool → List ℕ → TransportParams → Decoder (ℕ × TransportParams)
unfolding apply_param
decode_round is_server found tp = do
  id ← read_varint
  Decoder.lift (if member id found then err transport_parameter_error else ok tt)
  val ← read_with_varint_length
  tp' ← Decoder.lift (apply_param is_server id val tp)
  return (id, tp')

-- The loop, while the buffer is not empty.
unfoldable pub decode_loop : ℕ → Bool → List ℕ → TransportParams → Decoder TransportParams
decode_loop zero is_server found tp s = panic
decode_loop (suc fuel) is_server found tp [] = ok (tp, [])
decode_loop (suc fuel) is_server found tp (b ∷ s) =
    Error.◌>>=◌ (decode_round is_server found tp (b ∷ s))
      (λ r. decode_loop fuel is_server (r.0.0 ∷ found) r.0.1 r.1)

-- The parameters, and the number of bytes read. Each round reads a byte at least.
unfoldable pub decode : List ℕ → Bool → Result (TransportParams × ℕ)
unfolding decode_loop
decode buf is_server =
    Error.◌>>=◌ (decode_loop (length buf + 1) is_server [] default buf)
      (λ r. ok (r.0, length buf - length r.1))
