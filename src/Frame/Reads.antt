-- ===== src/Frame/Reads.antt =====
-- `from_bytes` reads the format back.
use native.Mathlib.Nat.{add-zero}
use raw_quic.Prelude.{
  Bool, List, [], add64, ap, append-nil, append_assoc, arith, drop_append, false, if◌then◌else◌,
  length, length-append, le→ltb, ltb, lt→ltb, not, replicate, suc, take_append, true, zero, ℕ, ◌++◌,
  ◌+◌, ◌∙◌, ◌∷◌, ◌≡◌, ◌≢◌,
}
use raw_quic.Error.{buffer_too_short, Error, ok}
use raw_quic.Codec.Decoder.{
  Decoder, ◌>>=◌, ◌>>◌, return, remaining, read_varint, read, read_with_varint_length, skip,
  read_with_u8_length,
}
use raw_quic.Codec.VarintBytes.{varint_bytes, varint_2}
use raw_quic.Codec.Reading.{
  Reads, Reads-bind, Reads-return, read_varint-Reads, read_vec-Reads, read_vec8-Reads,
}
use raw_quic.Codec.RoundTrip.{read-append, read_varint-bytes_2}
use raw_quic.Cid
use raw_quic.Cid.{as_bytes}
use raw_quic.Codec.Encoder.{be_bytes}
use raw_quic.Frame.{Frame, max_stream_size, ConnectionId}
use raw_quic.Frame.Decode.{
  number, numbers, three_numbers, check, slice, decode_paddings, decode_crypto,
  decode_new_connection_id, decode_stream,
}
use raw_quic.Frame.Format.{Fits, vec, one, two, three, payload, IsWellFormed}

-- What follows a PADDING frame is no padding.
abbrev pub NoZero : List ℕ → Type 0
NoZero [] = Unit {0}
NoZero (b ∷ _) = b ≢ 0

pub number_Reads_then :
    {B : Type 0} (n : ℕ) (b : B) (cs : List ℕ) (k : ℕ → Decoder B)
    → Fits n
    → Reads b cs (k n)
    → Reads b (varint_bytes n ++ cs) (read_varint >>= k)
number_Reads_then n b cs k h g =
    Reads-bind n b (varint_bytes n) cs read_varint k (read_varint-Reads n h) g

pub one-Reads : (f : ℕ → Frame) (a : ℕ) → Fits a → Reads (f a) (one a) (number f)
one-Reads f a h = number_Reads_then a (f a) [] _ h (Reads-return (f a))

pub two-Reads :
    (f : ℕ → ℕ → Frame) (a b : ℕ) → Fits a → Fits b → Reads (f a b) (two a b) (numbers f)
two-Reads f a b h k =
    number_Reads_then a (f a b) (one b) _ h
      (number_Reads_then b (f a b) [] _ k (Reads-return (f a b)))

pub three-Reads :
    (f : ℕ → ℕ → ℕ → Frame) (a b c : ℕ)
    → Fits a
    → Fits b
    → Fits c
    → Reads (f a b c) (three a b c) (three_numbers f)
three-Reads f a b c h k l = number_Reads_then a (f a b c) (two b c) _ h (
    number_Reads_then b (f a b c) (one c) _ k
      (number_Reads_then c (f a b c) [] _ l (Reads-return (f a b c))))

-- Bytes behind their number, and then nothing.
pub vec-Reads_last :
    (bs : List ℕ) (f : List ℕ → Frame)
    → Fits (length bs)
    → Reads (f bs) (vec bs) (read_with_varint_length >>= λ bs. return (f bs))
vec-Reads_last bs f h = rw append-nil at (
    Reads-bind bs (f bs) (vec bs) [] read_with_varint_length (λ bs. return (f bs))
      (read_vec-Reads bs h) (Reads-return (f bs)))

pub bytes_Reads_last :
    (n : ℕ) (bs : List ℕ) (f : List ℕ → Frame)
    → length bs ≡ n
    → Reads (f bs) bs (read n >>= λ bs. return (f bs))
bytes_Reads_last n bs f h = rw (← h) (
    rw append-nil at (
      Reads-bind bs (f bs) bs [] (read (length bs)) (λ bs. return (f bs)) (read-append bs)
        (Reads-return (f bs))))

-- The data of CRYPTO and STREAM frames, sliced off and skipped.
content_Reads :
    (bs : List ℕ) (f : List ℕ → Frame)
    → Reads (f bs) bs (do
      left ← remaining
      check (not (ltb left (length bs))) buffer_too_short
      content ← slice (length bs)
      skip (length bs)
      return (f content))
unfolding skip slice
content_Reads bs f rest =
    let e : ltb (length (bs ++ rest)) (length bs) ≡ false =
      le→ltb _ _ (omega (arith, length-append bs rest)) in
    rw (e, e, take_append bs rest, e, drop_append bs rest)

pub check-Reads :
    {A : Type 0} (a : A) (bs : List ℕ) (test : Bool) (e : Error) (k : Decoder A)
    → test ≡ true
    → Reads a bs k
    → Reads a bs (check test e >> k)
check-Reads a bs test e k h g rest = rw h (g rest)

pub crypto-Reads :
    (offset len : ℕ) (content : List ℕ)
    → IsWellFormed (Frame.crypto offset len content)
    → Reads
        (Frame.crypto offset len content)
        (payload (Frame.crypto offset len content))
        decode_crypto
unfolding decode_crypto payload
crypto-Reads offset len content h = rw h.1 (
    number_Reads_then offset (Frame.crypto offset (length content) content) _ _ h.0 (
      Reads-bind (length content) (Frame.crypto offset (length content) content)
        (varint_2 (length content)) content read_varint _
        (λ rest. read_varint-bytes_2 (length content) rest h.2)
        (content_Reads content (Frame.crypto offset (length content)))))

pub stream-Reads :
    (stream_id offset len : ℕ) (fin : Bool) (content : List ℕ)
    → IsWellFormed (Frame.stream stream_id offset len fin content)
    → Reads
        (Frame.stream stream_id offset len fin content)
        (payload (Frame.stream stream_id offset len fin content))
        (decode_stream (if fin then 0x0f else 0x0e))
unfolding decode_stream payload
stream-Reads stream_id offset len fin content h = go fin
  where
    below : ltb (add64 offset (length content)) max_stream_size ≡ true
    below = lt→ltb _ _ (omega (arith, h))

    go :
        (fin : Bool)
        → Reads
            (Frame.stream stream_id offset len fin content)
            (payload (Frame.stream stream_id offset len fin content))
            (decode_stream (if fin then 0x0f else 0x0e))
    go true = rw h.2 (
        number_Reads_then stream_id _ _ _ h.0 (
          number_Reads_then offset _ _ _ h.1 (
            Reads-bind (length content) _ (varint_2 (length content)) content read_varint _
              (λ rest. read_varint-bytes_2 (length content) rest h.3)
              (check-Reads _ content _ _ _ below
                (content_Reads content (Frame.stream stream_id offset (length content) true))))))
    go false = rw h.2 (
        number_Reads_then stream_id _ _ _ h.0 (
          number_Reads_then offset _ _ _ h.1 (
            Reads-bind (length content) _ (varint_2 (length content)) content read_varint _
              (λ rest. read_varint-bytes_2 (length content) rest h.3)
              (check-Reads _ content _ _ _ below
                (content_Reads content (Frame.stream stream_id offset (length content) false))))))

pub new_connection_id-Reads :
    (seq_num prior : ℕ) (cid : ConnectionId) (token : List ℕ)
    → IsWellFormed (Frame.new_connection_id seq_num prior cid token)
    → Reads
        (Frame.new_connection_id seq_num prior cid token)
        (payload (Frame.new_connection_id seq_num prior cid token))
        decode_new_connection_id
unfolding decode_new_connection_id payload read_with_u8_length
new_connection_id-Reads seq_num prior cid token h = number_Reads_then seq_num _ _ _ h.0 (
    number_Reads_then prior _ _ _ h.1 (
      rw append_assoc at (
        Reads-bind (as_bytes cid) (Frame.new_connection_id seq_num prior cid token)
          (be_bytes 1 (length (as_bytes cid)) ++ as_bytes cid) token read_with_u8_length
          (λ octets.
            read 16 >>= λ t. return (Frame.new_connection_id seq_num prior (Cid.new octets) t))
          (read_vec8-Reads (as_bytes cid) (omega (arith, h)))
          (rw h.3 (bytes_Reads_last 16 token (Frame.new_connection_id seq_num prior cid) h.4)))))

pub paddings-Reads :
    (n len : ℕ) (rest : List ℕ)
    → NoZero rest
    → decode_paddings len (replicate n 0 ++ rest) ≡ ok (Frame.paddings (len + n), rest)
unfolding decode_paddings
paddings-Reads zero len [] h = rw add-zero
paddings-Reads zero len (b ∷ rest) h = ground (arith)
paddings-Reads (suc n) len rest h =
    paddings-Reads n (len + 1) rest h ∙ ap (λ (k : ℕ). ok (Frame.paddings k, rest)) (omega arith)
