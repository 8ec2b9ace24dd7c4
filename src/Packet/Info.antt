-- ===== src/Packet/Info.antt =====
-- The two readers of a packet header agree.
use raw_quic.Prelude.{
  Bool, Bool-cases, List, ap, false, if◌then◌else◌, inl, inr, ltb, refl, sym, true, ℕ, ◌%◌, ◌&&◌,
  ◌/◌, ◌==◌, ◌∙◌, ◌≡◌,
}
use raw_quic.Codec.Decoder.{read_u8, read_u32, read}
use raw_quic.Cid
use raw_quic.Error.{invalid_packet, Result, ok, err, panic}
use raw_quic.Cid.{ConnectionId}
use raw_quic.Packet.Header.{
  read_long, type_of, read_cid, PacketHeader, read_token, version_is_supported, read_short,
  from_bytes, header_info, long_header,
}
use raw_quic.Error
use raw_quic.Frame.{PacketType, one_rtt}

-- A step that comes before a success succeeded.
bind-ok {ℓ} :
    {A B : Type ℓ} (m : Result A) (k : A → Result B) (b : B)
    → Error.◌>>=◌ m k ≡ ok b
    → (a : A) × (m ≡ ok a) × (k a ≡ ok b)
bind-ok (ok a) k b e = (a, refl, e)
bind-ok (err x) k b e = absurd (cc e)
bind-ok panic k b e = absurd (cc e)

answer_of {ℓ} : {A : Type ℓ} → A → Result A → A
answer_of x (ok a) = a
answer_of x (err e) = x
answer_of x panic = x

ok_injective {ℓ} : {A : Type ℓ} {a b : A} → ok a ≡ ok b → a ≡ b
unfolding answer_of
ok_injective {a = a} e = ap (answer_of a) e

-- A packet has a short header exactly if it is a 1-RTT packet.
abbrev pub is_long : PacketType → Bool
is_long one_rtt = false
is_long _ = true

type_of_lem : (version first : ℕ) → is_long (type_of version first) ≡ true
unfolding type_of
type_of_lem version first = elim (Bool-cases (version == 0)) [
  | inl a ↦ rw a refl
  | inr a ↦ elim (Bool-cases (first / 16 % 4 == 0)) [
    | inl b ↦ rw (a, b) refl
    | inr b ↦ elim (Bool-cases (first / 16 % 4 == 1)) [
      | inl c ↦ rw (a, b, c) refl
      | inr c ↦ elim (Bool-cases (first / 16 % 4 == 2)) [
        | inl d ↦ rw (a, b, c, d) refl
        | inr d ↦ rw (a, b, c, d) refl
      ]
    ]
  ]
]

read_cid_lem :
    (version : ℕ) (s : List ℕ) (d : ConnectionId × List ℕ)
    → read_cid version s ≡ ok d
    → (l : ℕ × List ℕ) × (p : List ℕ × List ℕ) × (read_u8 s ≡ ok l)
      × (read l.0 l.1 ≡ ok p)
      × (d.0 ≡ Cid.new p.0)
unfolding read_cid
read_cid_lem version s d e =
    let (l, e1, f1) = bind-ok (read_u8 s) _ d e in
    elim (Bool-cases (version_is_supported version && ltb Cid.max_cid_len l.0)) [
      | inl c ↦ absurd (refused _ _ c f1)
      | inr c ↦
          (let (p, e2, f2) =
              bind-ok (read l.0 l.1) (λ q. ok (Cid.new q.0, q.1)) d (passed _ _ c f1) in
            (l, p, e1, e2, cc f2))
    ]
  where
    refused :
        (b : Bool) (r : Result (ConnectionId × List ℕ))
        → b ≡ true
        → (if b then err invalid_packet else r) ≡ ok d
        → ⊥
    refused true r c f = cc f
    refused false r c f = cc c

    passed :
        (b : Bool) (r : Result (ConnectionId × List ℕ))
        → b ≡ false
        → (if b then err invalid_packet else r) ≡ ok d
        → r ≡ ok d
    passed true r c f = absurd (cc c)
    passed false r c f = f

read_long_lem :
    (tag_len first : ℕ) (s : List ℕ) (h : PacketHeader × List ℕ)
    → read_long tag_len first s ≡ ok h
    → (v : ℕ × List ℕ) × (l : ℕ × List ℕ) × (p : List ℕ × List ℕ) × (read_u32 s ≡ ok v)
      × (read_u8 v.1 ≡ ok l)
      × (read l.0 l.1 ≡ ok p)
      × (h.0.version ≡ v.0)
      × (h.0.dcid ≡ Cid.new p.0)
      × (is_long h.0.pkt_type ≡ true)
unfolding read_long
read_long_lem tag_len first s h e =
    let (v, e1, f1) = bind-ok (read_u32 s) _ h e in
    let (d, e2, f2) = bind-ok (read_cid v.0 v.1) _ h f1 in
    let (c, e3, f3) = bind-ok (read_cid v.0 d.1) _ h f2 in
    let (t, e4, f4) = bind-ok (read_token tag_len (type_of v.0 first) c.1) _ h f3 in
    let (l, p, a1, a2, a3) = read_cid_lem v.0 v.1 d e2 in
    let q = ok_injective f4 in
    (
      v,
      l,
      p,
      e1,
      a1,
      a2,
      sym (ap (λ (z : PacketHeader × List ℕ). z.0.version) q),
      sym (ap (λ (z : PacketHeader × List ℕ). z.0.dcid) q) ∙ a3,
      sym (ap (λ (z : PacketHeader × List ℕ). is_long z.0.pkt_type) q) ∙ type_of_lem v.0 first,
    )

read_short_lem :
    (dcid_len : ℕ) (s : List ℕ) (h : PacketHeader × List ℕ)
    → read_short dcid_len s ≡ ok h
    → (p : List ℕ × List ℕ) × (read dcid_len s ≡ ok p)
      × (h.0.version ≡ 0)
      × (h.0.dcid ≡ Cid.new p.0)
      × (is_long h.0.pkt_type ≡ false)
unfolding read_short
read_short_lem dcid_len s h e =
    let (p, e1, f1) = bind-ok (read dcid_len s) _ h e in
    let q = ok_injective f1 in
    (
      p,
      e1,
      sym (ap (λ (z : PacketHeader × List ℕ). z.0.version) q),
      sym (ap (λ (z : PacketHeader × List ℕ). z.0.dcid) q),
      sym (ap (λ (z : PacketHeader × List ℕ). is_long z.0.pkt_type) q),
    )

-- If `from_bytes` reads a header, then `header_info` finds in the same bytes, under the same length for
-- identifiers of short headers, the form of that header, its version and its destination identifier.
pub header_info-from_bytes :
    (tag_len dcid_len n : ℕ) (buf : List ℕ) (h : PacketHeader)
    → from_bytes tag_len dcid_len buf ≡ ok (h, n)
    → header_info dcid_len buf ≡ ok (is_long h.pkt_type, h.version, h.dcid)
unfolding from_bytes header_info
header_info-from_bytes tag_len dcid_len n buf h e =
    let (r, e1, f1) = bind-ok (read_u8 buf) _ (h, n) e in
    let (q, e2, f2) =
      bind-ok ((if long_header r.0 then read_long tag_len r.0 else read_short dcid_len) r.1) _
        (h, n) f1 in
    let z : q.0 ≡ h = ap (λ (x : PacketHeader × ℕ). x.0) (ok_injective f2) in
    elim (Bool-cases (long_header r.0)) [
      | inl c ↦
          let (v, l, p, a1, a2, a3, a4, a5, a6) =
            read_long_lem tag_len r.0 r.1 q (long (long_header r.0) r.1 r.0 (ok q) c e2) in
          rw (e1, header_info, c, a1, a2, a3) (fields q.0 true v.0 (Cid.new p.0) z a6 a4 a5)
      | inr c ↦
          let (p, a1, a4, a5, a6) =
            read_short_lem dcid_len r.1 q (short (long_header r.0) r.1 r.0 (ok q) c e2) in
          rw (e1, header_info, c, a1) (fields q.0 false 0 (Cid.new p.0) z a6 a4 a5)
    ]
  where
    long :
        (b : Bool) (s : List ℕ) (first : ℕ) (o : Result (PacketHeader × List ℕ))
        → b ≡ true
        → (if b then read_long tag_len first else read_short dcid_len) s ≡ o
        → read_long tag_len first s ≡ o
    long true s first o c f = f
    long false s first o c f = absurd (cc c)

    short :
        (b : Bool) (s : List ℕ) (first : ℕ) (o : Result (PacketHeader × List ℕ))
        → b ≡ false
        → (if b then read_long tag_len first else read_short dcid_len) s ≡ o
        → read_short dcid_len s ≡ o
    short true s first o c f = absurd (cc c)
    short false s first o c f = f

    fields :
        (q : PacketHeader) (b : Bool) (version : ℕ) (dcid : ConnectionId)
        → q ≡ h
        → is_long q.pkt_type ≡ b
        → q.version ≡ version
        → q.dcid ≡ dcid
        → ◌≡◌ {A = Result (Bool × ℕ × ConnectionId)}
            (ok (b, version, dcid))
            (ok (is_long h.pkt_type, h.version, h.dcid))
    fields q b version dcid z i j k =
        rw (sym i, sym j, sym k)
          (ap (λ (x : PacketHeader). ok (is_long x.pkt_type, x.version, x.dcid)) z)
