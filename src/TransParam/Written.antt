-- ===== src/TransParam/Written.antt =====
-- All parameters in sequence: what `encode` writes, and what it returns.
use raw_quic.Prelude.{Bool, arith, if◌then◌else◌, length, ltb, ◌≡◌}
use raw_quic.Error.{ok, err, buffer_too_short}
use raw_quic.Codec.Encoder.{Writer, put}
use raw_quic.Codec.Emitting.{counted_lem}
use raw_quic.Codec.VarintBytes.{Emits}
use raw_quic.TransParam.{TransportParams}
use raw_quic.TransParam.Encode.{encode_params, encode}
use raw_quic.TransParam.Format.{params_bytes, params, IsSendable}
use raw_quic.TransParam.Writes.{
  then_rest, number-Emits, one_param, nonzero-Writes, cid-Writes, token-Writes, flag-Writes,
  preferred-Writes, when-Writes, last_param,
}

pub encode_params-Emits :
    (tp : TransportParams) (is_server : Bool)
    → IsSendable tp is_server
    → Emits (params_bytes (params tp is_server)) (encode_params tp is_server)
unfolding encode_params params
encode_params-Emits tp b h =
    then_rest 0x0000 _ _ _ _
      (when-Writes 0x0000 b _ _ (λ _. cid-Writes 0x0000 _ (omega arith) h.original))
      (then_rest 0x0001 _ _ _ _ (nonzero-Writes 0x0001 _ (omega arith) h.idle) (
        then_rest 0x0002 _ _ _ _ (when-Writes 0x0002 b _ _ (λ _. token-Writes _)) (
          then_rest 0x0003 _ _ _ _ (nonzero-Writes 0x0003 _ (omega arith) h.payload) (
            then_rest 0x0004 _ _ _ _ (nonzero-Writes 0x0004 _ (omega arith) h.initial) (
              then_rest 0x0005 _ _ _ _ (nonzero-Writes 0x0005 _ (omega arith) h.bidi_local) (
                then_rest 0x0006 _ _ _ _ (nonzero-Writes 0x0006 _ (omega arith) h.bidi_remote) (
                  then_rest 0x0007 _ _ _ _ (nonzero-Writes 0x0007 _ (omega arith) h.uni) (
                    then_rest 0x0008 _ _ _ _
                      (nonzero-Writes 0x0008 _ (omega arith) (omega (arith, h.streams_bidi)))
                      (then_rest 0x0009 _ _ _ _
                        (nonzero-Writes 0x0009 _ (omega arith) (omega (arith, h.streams_uni)))
                        (then_rest 0x000a _ _ _ _
                          (nonzero-Writes 0x000a _ (omega arith) (omega (arith, h.exponent)))
                          (then_rest 0x000b _ _ _ _
                            (nonzero-Writes 0x000b _ (omega arith) (omega (arith, h.delay)))
                            (then_rest 0x000c _ _ _ _ (flag-Writes 0x000c _ (omega arith)) (
                              then_rest 0x000d _ _ _ _ (preferred-Writes _ h.preferred) (
                                then_rest 0x000e _ _ _ _
                                  (when-Writes 0x000e _ _ _ (λ _.
                                    one_param 0x000e _ _
                                      (number-Emits 0x000e _ (omega arith) h.cid_limit)))
                                  (then_rest 0x000f _ _ _ _
                                    (cid-Writes 0x000f _ (omega arith) h.source)
                                    (then_rest 0x0010 _ _ _ _
                                      (when-Writes 0x0010 b _ _
                                        (λ _. cid-Writes 0x0010 _ (omega arith) h.retry))
                                      (then_rest 0x0f739bbc1b666d05 _ _ _ _
                                        (flag-Writes 0x0f739bbc1b666d05 _ (omega arith))
                                        (last_param 0xbaad _ _
                                          (flag-Writes 0xbaad _ (omega arith))))))))))))))))))))

-- Encoding a set of parameters that the endpoint may send, on both branches: with room for the
-- format of those that are sent, it appends that format and returns its length; otherwise the
-- buffer is too short.
pub encode_lem :
    (tp : TransportParams) (is_server : Bool) (w : Writer)
    → IsSendable tp is_server
    → encode tp is_server w ≡ (
        if ltb w.room (length (params_bytes (params tp is_server)))
        then err buffer_too_short
        else ok (
          length (params_bytes (params tp is_server)),
          put (params_bytes (params tp is_server)) w,
        ))
unfolding encode
encode_lem tp b w h =
    counted_lem (params_bytes (params tp b)) (encode_params tp b) (encode_params-Emits tp b h) w
