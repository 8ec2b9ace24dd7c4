-- ===== src/Frame/Readers.antt =====
-- Readers of the parts of a frame: what they promise of it, and that they do not panic.
use raw_quic.Prelude.{
  Bool, Bool-cases, List, [], add64, arith, false, if◌then◌else◌, inl, inr, length, length-drop,
  length-take, ltb, ltb→lt, not, refl, take, true, ℕ, ◌+◌, ◌<◌, ◌==◌, ◌∷◌, ◌≡◌, ◌≤◌,
}
use raw_quic.Error.{Result, ok, err, panic, buffer_too_short, frame_encoding_error, Error}
use raw_quic.Cid.{as_bytes, max_cid_len}
use raw_quic.Codec.Decoder.{Decoder, ◌>>=◌, ◌>>◌, return, remaining, skip, read_varint}
use raw_quic.Codec.Safety.{
  Ensures, if-Ensures, Left, Safe, step-Safe, weaken-Safe, Any, read_varint-Safe, drop-IsBytes,
}
use raw_quic.Frame.{Frame, max_stream_size}
use raw_quic.Frame.Decode.{
  check, slice, bit, decode_paddings, decode_crypto, decode_stream, number, numbers, three_numbers,
}

-- What the reader promises of the frame: the lengths that it declares are those of what it carries,
-- and a stream's bytes lie below the largest offset.
abbrev pub IsDecoded : Frame → Type 0
IsDecoded (Frame.crypto offset len content) = length content ≡ len
IsDecoded (Frame.stream stream_id offset len fin content) =
    (length content ≡ len) × (add64 offset len < max_stream_size)
IsDecoded (Frame.new_connection_id seq_num retire_prior_to cid token) =
    (length (as_bytes cid) ≤ max_cid_len) × (length token ≡ 16)
IsDecoded (Frame.path_challenge content) = length content ≡ 8
IsDecoded (Frame.path_response content) = length content ≡ 8
IsDecoded _ = Unit {0}

-- A reader of a frame.
abbrev pub Reader : Decoder Frame → Type 0
Reader m = Safe IsDecoded 0 m

pub return-Reader : (f : Frame) → IsDecoded f → Reader (return f)
return-Reader f h s b = (h, (b, omega arith))

pub check-Safe : (test : Bool) (e : Error) → Safe {A = Unit {0}} (λ _. test ≡ true) 0 (check test e)
check-Safe true e s b = (refl, (b, omega arith))
check-Safe false e s b = tt

remaining-Safe : Safe {A = ℕ} Any 0 remaining
remaining-Safe s b = (tt, (b, omega arith))

pub paddings-Reader : (n : ℕ) → Reader (decode_paddings n)
unfolding decode_paddings
paddings-Reader n [] b = (tt, (tt, omega arith))
paddings-Reader n (c ∷ s) b =
    if-Ensures (λ r. IsDecoded r.0 × Left 0 (c ∷ s) r.1) (c == 0) (decode_paddings (n + 1) s)
      (ok (Frame.paddings n, c ∷ s))
      (λ _. longer (decode_paddings (n + 1) s) (paddings-Reader (n + 1) s b.1))
      (λ _. (tt, (b, omega arith)))
  where
    longer :
        (r : Result (Frame × List ℕ))
        → Ensures (λ r. IsDecoded r.0 × Left 0 s r.1) r
        → Ensures (λ r. IsDecoded r.0 × Left 0 (c ∷ s) r.1) r
    longer (ok r) p = (p.0, (p.1.0, omega (arith, p.1.1)))
    longer (err e) p = tt
    longer panic p = p

pub number-Reader : (f : ℕ → Frame) → ((a : ℕ) → IsDecoded (f a)) → Reader (number f)
number-Reader f h =
    step-Safe {A = ℕ} Any IsDecoded 1 read_varint _ read_varint-Safe
      (λ a _. return-Reader (f a) (h a))

pub numbers-Reader : (f : ℕ → ℕ → Frame) → ((a b : ℕ) → IsDecoded (f a b)) → Reader (numbers f)
numbers-Reader f h =
    step-Safe {A = ℕ} Any IsDecoded 1 read_varint _ read_varint-Safe
      (λ a _. number-Reader (f a) (h a))

pub three-Reader :
    (f : ℕ → ℕ → ℕ → Frame) → ((a b c : ℕ) → IsDecoded (f a b c)) → Reader (three_numbers f)
three-Reader f h =
    step-Safe {A = ℕ} Any IsDecoded 1 read_varint _ read_varint-Safe
      (λ a _. numbers-Reader (f a) (h a))

-- The bytes that a frame declares, behind the check that they are there.
content-Reader :
    (f : List ℕ → Frame) (len : ℕ)
    → ((c : List ℕ) → length c ≡ len → IsDecoded (f c))
    → Reader (do
      left ← remaining
      check (not (ltb left len)) buffer_too_short
      content ← slice len
      skip len
      return (f content))
unfolding skip slice
content-Reader f len h s b = elim (Bool-cases (ltb (length s) len)) [
  | inl c ↦ rw c tt
  | inr c ↦
      rw (c, c, c)
        (
          h (take len s) (ground (arith, c, length-take len s)),
          (drop-IsBytes len s b, ground (arith, length-drop len s)),
        )
]

pub crypto-Reader : Reader decode_crypto
unfolding decode_crypto
crypto-Reader = step-Safe {A = ℕ} Any IsDecoded 1 read_varint _ read_varint-Safe (λ offset _.
    step-Safe {A = ℕ} Any IsDecoded 1 read_varint _ read_varint-Safe
      (λ len _. content-Reader (Frame.crypto offset len) len (λ c e. e)))

pub stream-Reader : (first : ℕ) → Reader (decode_stream first)
unfolding decode_stream
stream-Reader first =
    step-Safe {A = ℕ} Any IsDecoded 1 read_varint _ read_varint-Safe (λ stream_id _.
      step-Safe {A = ℕ} Any IsDecoded 0 (if bit 2 first then read_varint else return 0) _
        (either (bit 2 first) (return 0) (λ s b. (tt, (b, omega arith))))
        (λ offset _.
          step-Safe {A = ℕ} Any IsDecoded 0 (if bit 1 first then read_varint else remaining) _
            (either (bit 1 first) remaining remaining-Safe)
            (λ len _.
              step-Safe {A = Unit {0}} (λ _. ltb (add64 offset len) max_stream_size ≡ true)
                IsDecoded 0 (check (ltb (add64 offset len) max_stream_size) frame_encoding_error) _
                (check-Safe (ltb (add64 offset len) max_stream_size) frame_encoding_error)
                (λ _ t.
                  content-Reader (Frame.stream stream_id offset len (bit 0 first)) len
                    (λ c e. (e, ltb→lt _ _ t))))))
  where
    either :
        (test : Bool) (m : Decoder ℕ)
        → Safe {A = ℕ} Any 0 m
        → Safe {A = ℕ} Any 0 (if test then read_varint else m)
    either true m h =
        weaken-Safe {A = ℕ} Any Any 1 0 read_varint (λ a p. p) (omega arith) read_varint-Safe
    either false m h = h
