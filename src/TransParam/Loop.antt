-- ===== src/TransParam/Loop.antt =====
-- The loop of `decode`, over the parameters that stand in the buffer.
use raw_quic.Prelude.{
  All, Bool, List, Option, [], ap, append_assoc, arith, false, length, length-append, member, none,
  refl, some, suc, sym, zero, ℕ, ◌++◌, ◌<◌, ◌∙◌, ◌∷◌, ◌≡◌, ◌≤◌,
}
use raw_quic.Error.{ok}
use raw_quic.Codec.{vint_max}
use raw_quic.Codec.Decoder.{read_varint}
use raw_quic.Codec.VarintBytes.{varint_bytes, length-varint_bytes}
use raw_quic.Codec.Reading.{read_vec-Reads}
use raw_quic.Codec.RoundTrip.{read_varint-bytes}
use raw_quic.TransParam.{TransportParams}
use raw_quic.TransParam.Decode.{apply_param, decode_round, decode_loop}
use raw_quic.TransParam.Format.{param_bytes, params_bytes, opt, Each}
use raw_quic.TransParam.Numbers.{Applies}

-- None of the identifiers was found before.
abbrev pub Fresh : List ℕ → List ℕ → Type 0
Fresh js found = All (λ j. member j found ≡ false) js

round_lem :
    (is_server : Bool) (id : ℕ) (val found rest : List ℕ) (tp tp' : TransportParams)
    → id ≤ vint_max
    → length val ≤ vint_max
    → member id found ≡ false
    → apply_param is_server id val tp ≡ ok tp'
    → decode_round is_server found tp (param_bytes id val ++ rest) ≡ ok ((id, tp'), rest)
unfolding decode_round param_bytes
round_lem is_server id val found rest tp tp' g h m e = rw append_assoc (
    rw (read_varint-bytes id ((varint_bytes (length val) ++ val) ++ rest) g, m)
      (rw (read_vec-Reads val h rest) (rw e)))

-- A round that succeeds is followed by the rest of the loop.
pub loop_lem :
    (fuel : ℕ) (is_server : Bool) (found s rest : List ℕ) (id : ℕ) (tp tp' : TransportParams)
    → decode_round is_server found tp s ≡ ok ((id, tp'), rest)
    → decode_loop (suc fuel) is_server found tp s ≡ decode_loop fuel is_server (id ∷ found) tp' rest
unfolding decode_loop decode_round read_varint
loop_lem fuel is_server found [] rest id tp tp' e = absurd (cc e)
loop_lem fuel is_server found (b ∷ s) rest id tp tp' e = rw e

-- The loop reads the parameters to the end, and they change what is decoded by `g`. `js` holds
-- their identifiers.
abbrev pub Decodes :
    Bool → List ℕ → List (ℕ × List ℕ) → (TransportParams → TransportParams) → Type 0
Decodes is_server js ps g =
    (fuel : ℕ) (found : List ℕ) (tp : TransportParams)
    → Fresh js found
    → length ps < fuel
    → decode_loop fuel is_server found tp (params_bytes ps) ≡ ok (g tp, [])

pub nil-Decodes : (is_server : Bool) → Decodes is_server [] [] (λ tp. tp)
unfolding decode_loop params_bytes
nil-Decodes is_server zero found tp f h = absurd (omega arith)
nil-Decodes is_server (suc fuel) found tp f h = refl

Fresh-cons :
    (id : ℕ) (js found : List ℕ) → member id js ≡ false → Fresh js found → Fresh js (id ∷ found)
Fresh-cons id [] found d f = tt
Fresh-cons id (j ∷ js) found d f =
    (ground (arith, d, f.0), Fresh-cons id js found (ground (arith, d)) f.1)

pub opt-Decodes :
    (is_server : Bool) (id : ℕ) (o : Option (List ℕ)) (js : List ℕ) (ps : List (ℕ × List ℕ))
    (g k : TransportParams → TransportParams)
    → id ≤ vint_max
    → Each (λ v. length v ≤ vint_max) o
    → member id js ≡ false
    → Applies is_server id o g
    → Decodes is_server js ps k
    → Decodes is_server (id ∷ js) (opt id o ++ ps) (λ tp. k (g tp))
unfolding params_bytes
opt-Decodes is_server id none js ps g k m l d a r fuel found tp f h =
    r fuel found tp f.1 h ∙ ap (λ (t : TransportParams). ok (k t, [])) (sym (a tp))
opt-Decodes is_server id (some v) js ps g k m l d a r zero found tp f h = absurd (omega arith)
opt-Decodes is_server id (some v) js ps g k m l d a r (suc fuel) found tp f h =
    loop_lem fuel is_server found (param_bytes id v ++ params_bytes ps) (params_bytes ps) id tp
      (g tp) (round_lem is_server id v found (params_bytes ps) tp (g tp) m l f.0 (a tp))
    ∙ r fuel (id ∷ found) (g tp) (Fresh-cons id js found d f.1) (omega (arith, h))

pub nil-Fresh : (js : List ℕ) → Fresh js []
nil-Fresh [] = tt
nil-Fresh (j ∷ js) = (refl, nil-Fresh js)

-- Every parameter takes a byte at least.
pub length-le-bytes : (ps : List (ℕ × List ℕ)) → length ps ≤ length (params_bytes ps)
unfolding params_bytes param_bytes
length-le-bytes [] = omega arith
length-le-bytes (p ∷ ps) = ground (
  arith,
  length-le-bytes ps,
  length-append (param_bytes p.0 p.1) (params_bytes ps),
  length-append (varint_bytes p.0) (varint_bytes (length p.1) ++ p.1),
  length-varint_bytes p.0,
)
