-- ===== src/TransParam/Applies.antt =====
-- What one parameter, read or left out, does to the parameters decoded.
use raw_quic.Prelude.{
  Bool, Bool-cases, Option, [], arith, false, if◌then◌else◌, inl, inr, none, not, refl, some, true,
  ℕ, ◌%◌, ◌<◌, ◌^◌, ◌||◌, ◌∙◌, ◌≡◌,
}
use raw_quic.Error.{ok}
use raw_quic.Codec.Decoder.{be_value, read}
use raw_quic.Cid.{ConnectionId}
use raw_quic.Codec.Bytes.{length-be_bytes}
use raw_quic.Codec.Encoder.{be_bytes}
use raw_quic.TransParam.Preferred.{from_bytes}
use raw_quic.TransParam.Reads.{be_value-be_bytes_16, token-read, preferred-Reads}
use raw_quic.TransParam.{PreferredAddress}
use raw_quic.TransParam.Decode.{apply_param, checked}
use raw_quic.Cid.{IsCid}
use raw_quic.TransParam.Format.{
  only_if, flag_value, Each, IsPreferred, token_value, cid_value, preferred_value, preferred_bytes,
}
use raw_quic.TransParam.Numbers.{Applies, with_value-Reads}

-- An identifier that was left out keeps the old one.
abbrev pub option_or {ℓ} : {A : Type ℓ} → Option A → Option A → Option A
option_or none old = old
option_or (some a) old = some a

-- What only a server sends, only a client takes.
pub original-Applies :
    (b : Bool) (o : Option ConnectionId)
    → Each IsCid o
    → Applies (not b) 0x0000 (only_if b (cid_value o)) (λ tp. record tp {
      original_destination_connection_id =
          if b
          then option_or o tp.original_destination_connection_id
          else tp.original_destination_connection_id;
    })
unfolding apply_param checked
original-Applies false o h = λ tp. refl
original-Applies true none h = λ tp. refl
original-Applies true (some cid) h = λ tp. rw h.made

pub retry-Applies :
    (b : Bool) (o : Option ConnectionId)
    → Each IsCid o
    → Applies (not b) 0x0010 (only_if b (cid_value o)) (λ tp. record tp {
      retry_source_connection_id =
          if b then option_or o tp.retry_source_connection_id else tp.retry_source_connection_id;
    })
unfolding apply_param checked
retry-Applies false o h = λ tp. refl
retry-Applies true none h = λ tp. refl
retry-Applies true (some cid) h = λ tp. rw h.made

pub source-Applies :
    (is_server : Bool) (o : Option ConnectionId)
    → Each IsCid o
    → Applies is_server 0x000f (cid_value o) (λ tp. record tp {
      initial_source_connection_id = option_or o tp.initial_source_connection_id;
    })
unfolding apply_param
source-Applies is_server none h = λ tp. refl
source-Applies is_server (some cid) h = λ tp. rw h.made

pub token-Applies :
    (b : Bool) (o : Option ℕ)
    → Each (λ t. t < 2 ^ 128) o
    → Applies (not b) 0x0002 (only_if b (token_value o)) (λ tp. record tp {
      stateless_reset_token =
          if b then option_or o tp.stateless_reset_token else tp.stateless_reset_token;
    })
unfolding apply_param checked
token-Applies false o h = λ tp. refl
token-Applies true none h = λ tp. refl
token-Applies true (some t) h = λ tp.
    let e : t % 2 ^ 128 ≡ t = omega arith in
    with_value-Reads (read 16) (be_bytes 16 t) (be_bytes 16 t)
      (λ bytes. ok (record tp { stateless_reset_token = some (be_value 0 bytes) }))
      (token-read (be_bytes 16 t) (length-be_bytes 16 t) [])
    ∙ rw (be_value-be_bytes_16 t, e)

pub preferred-Applies :
    (b : Bool) (o : Option PreferredAddress)
    → (b ≡ false → o ≡ none)
    → Each IsPreferred o
    → Applies
        (not b)
        0x000d
        (preferred_value o)
        (λ tp. record tp { preferred_address = option_or o tp.preferred_address })
unfolding apply_param checked
preferred-Applies b none s h = λ tp. refl
preferred-Applies false (some p) s h = λ tp. absurd (cc (s refl))
preferred-Applies true (some p) s h = λ tp.
    with_value-Reads from_bytes (preferred_bytes p) p
      (λ p. ok (record tp { preferred_address = some p })) (preferred-Reads p h [])

module _ (is_server flag : Bool) where
  pub migration-Applies :
      Applies is_server 0x000c
        (flag_value flag)
        (λ tp. record tp { disable_active_migration = flag || tp.disable_active_migration })
  unfolding apply_param
  migration-Applies = elim (Bool-cases flag) [
    | inl c ↦ rw c (λ tp. refl)
    | inr c ↦ rw c (λ tp. refl)
  ]

  pub multipath-Applies :
      Applies is_server 0x0f739bbc1b666d05
        (flag_value flag)
        (λ tp. record tp { enable_multipath = flag || tp.enable_multipath })
  unfolding apply_param
  multipath-Applies = elim (Bool-cases flag) [
    | inl c ↦ rw c (λ tp. refl)
    | inr c ↦ rw c (λ tp. refl)
  ]

  pub encryption-Applies :
      Applies is_server 0xbaad
        (flag_value flag)
        (λ tp. record tp { disable_encryption = flag || tp.disable_encryption })
  unfolding apply_param
  encryption-Applies = elim (Bool-cases flag) [
    | inl c ↦ rw c (λ tp. refl)
    | inr c ↦ rw c (λ tp. refl)
  ]
