-- ===== src/Stream/Send/Write.antt =====
-- `SendBuf::write` appends the bytes that the peer's limit has room for, in chunks without a gap.
use raw_quic.Prelude.{
  Bool, Bool-cases, List, Option, [], ap, append-nil, append_assoc, arith, drop, false,
  if◌then◌else◌, inl, inr, length, length-drop, length-take, ltb, min, none, refl, some, suc, sym,
  take, true, zero, ℕ, ◌&&◌, ◌++◌, ◌+◌, ◌-◌, ◌<◌, ◌==◌, ◌^◌, ◌∙◌, ◌∷◌, ◌≡◌, ◌≤◌,
}
use mathlib.Core.Path.{subst}
use raw_quic.Stream.RangeBuf
use raw_quic.Stream.RangeBuf.{RangeBuf, len, max_off}
use raw_quic.Error.{Result, ok}
use raw_quic.Stream.Send.{
  write_within, write, capacity, final_refuses, split_data, send_buffer_size, SendBuf, append_data,
}
use raw_quic.Stream.Send.Chunks.{Joined}

-- The bytes of all chunks, in order.
unfoldable pub contents : List RangeBuf → List ℕ
contents [] = []
contents (b ∷ bs) = b.bytes ++ contents bs

contents-append : (xs ys : List RangeBuf) → contents (xs ++ ys) ≡ contents xs ++ contents ys
unfolding contents
contents-append [] ys = refl
contents-append (b ∷ xs) ys =
    rw (contents-append xs ys) (sym (append_assoc b.bytes (contents xs) (contents ys)))

Joined-append :
    (i j k : ℕ) (xs ys : List RangeBuf) → Joined i xs j → Joined j ys k → Joined i (xs ++ ys) k
Joined-append i j k [] ys v w = rw v w
Joined-append i j k (b ∷ xs) ys v w = (v.0, v.1, Joined-append (max_off b) j k xs ys v.2 w)

take-drop : (n : ℕ) (xs : List ℕ) → take n xs ++ drop n xs ≡ xs
take-drop zero xs = refl
take-drop (suc n) [] = refl
take-drop (suc n) (x ∷ xs) = ap (λ ys. x ∷ ys) (take-drop n xs)

-- No chunk is longer than `SEND_BUFFER_SIZE`.
abbrev Small : List RangeBuf → Type 0
Small [] = Unit {0}
Small (b ∷ bs) = (len b ≤ send_buffer_size) × Small bs

-- What the splitting makes of the bytes.
record Split (off : ℕ) (bytes : List ℕ) (o : List RangeBuf × ℕ) : Type 0 where
  end : o.1 ≡ off + length bytes
  joined : Joined off o.0 o.1
  same : contents o.0 ≡ bytes
  small : Small o.0

split_data-Split :
    (f : ℕ) (bytes : List ℕ) (off taken total : ℕ) (fin : Bool)
    → length bytes ≤ f
    → Split off bytes (split_data f bytes off taken total fin)
unfolding split_data contents
split_data-Split zero [] off taken total fin h = record {
  end = omega arith;
  joined = refl;
  same = refl;
  small = tt;
}
split_data-Split zero (b ∷ bytes) off taken total fin h = absurd (omega arith)
split_data-Split (suc f) bytes off taken total fin h =
    elim (Bool-cases (ltb send_buffer_size (length bytes))) [
      | inl c ↦ rw c (
          first (taken + send_buffer_size == total && fin) (ground (arith, c))
            (split_data f (drop send_buffer_size bytes) (off + send_buffer_size)
              (taken + send_buffer_size) total fin)
            (split_data-Split f (drop send_buffer_size bytes) (off + send_buffer_size)
              (taken + send_buffer_size) total fin
              (omega (arith, length-drop send_buffer_size bytes))))
      | inr c ↦ elim (Bool-cases (length bytes == 0)) [
        | inl d ↦
            rw (c, d)
              (record {
                end = ground (arith, d);
                joined = refl;
                same = nothing bytes (ground (arith, d));
                small = tt;
              })
        | inr d ↦
            rw (c, d)
              (record {
                end = refl;
                joined = (refl, ground (arith, d), refl);
                same = append-nil bytes;
                small = (ground (arith, c), tt);
              })
      ]
    ]
  where
    nothing : (xs : List ℕ) → length xs ≡ 0 → [] ≡ xs
    nothing [] e = refl
    nothing (x ∷ xs) e = absurd (omega (arith, e))

    first :
        (last : Bool)
        → send_buffer_size < length bytes
        → (o : List RangeBuf × ℕ) → Split (off + send_buffer_size) (drop send_buffer_size bytes) o
        → Split off bytes (RangeBuf.new (take send_buffer_size bytes) off last ∷ o.0, o.1)
    first last g o t =
        let l = length-take send_buffer_size bytes in
        let d = length-drop send_buffer_size bytes in
        let e : off + send_buffer_size ≡ off + length (take send_buffer_size bytes) = omega arith in
        record {
          end = omega (arith, t.end, d, g);
          joined = (refl, omega (arith, l, g), subst (λ n. Joined n o.0 o.1) e t.joined);
          same =
              ap (λ xs. take send_buffer_size bytes ++ xs) t.same
              ∙ take-drop send_buffer_size bytes;
          small = (omega (arith, l), t.small);
        }

-- What `write` appends.
record Appended (base : ℕ) (bytes : List ℕ) (s : SendBuf) (r : SendBuf) : Type 0 where
  joined : Joined base r.chunks r.write_off
  same : contents r.chunks ≡ contents s.chunks ++ bytes
  moved : r.write_off ≡ s.write_off + length bytes
  unacked : r.unacked_len ≡ s.unacked_len + length bytes

append_data-Appended :
    (base : ℕ) (bytes : List ℕ) (fin : Bool) (s : SendBuf)
    → Joined base s.chunks s.write_off
    → Appended base bytes s (append_data bytes fin s)
unfolding append_data
append_data-Appended base bytes fin s j =
    let o = split_data (length bytes) bytes s.write_off 0 (length bytes) fin in
    let t = split_data-Split (length bytes) bytes s.write_off 0 (length bytes) fin (omega arith) in
    record {
      joined = Joined-append base s.write_off o.1 s.chunks o.0 j t.joined;
      same = contents-append s.chunks o.0 ∙ ap (λ xs. contents s.chunks ++ xs) t.same;
      moved = t.end;
      unacked = refl;
    }

-- The outcome of `write`.
record Wrote (base : ℕ) (bytes : List ℕ) (s : SendBuf) (o : Result ℕ × SendBuf) : Type 0 where
  answer : o.0 ≡ ok (length bytes)
  state : Appended base bytes s o.1

-- Nothing is appended where no byte is left.
nothing-Appended :
    (base : ℕ) (bytes : List ℕ) (s : SendBuf)
    → Joined base s.chunks s.write_off
    → length bytes ≡ 0
    → Appended base bytes s s
nothing-Appended base [] s j h = record {
  joined = j;
  same = sym (append-nil (contents s.chunks));
  moved = omega arith;
  unacked = omega arith;
}
nothing-Appended base (x ∷ bytes) s j h = absurd (omega (arith, h))

-- The end of `write`, once the bytes that fit and the fin flag are known.
write_kept :
    (base : ℕ) (kept : List ℕ) (fin : Bool) (n : ℕ) (s : SendBuf)
    → Joined base s.chunks s.write_off
    → Wrote base kept s (
        if length kept == 0 then (ok 0, (if fin then record s { fin_off = some n } else s)) else (
          ok (length kept),
          append_data kept fin (if fin then record s { fin_off = some n } else s),
        ))
write_kept base kept fin n s j = elim (Bool-cases (length kept == 0)) [
  | inl c ↦ let h : length kept ≡ 0 = ground (arith, c) in rw c (empty fin h)
  | inr c ↦ rw c (full fin)
]
  where
    empty :
        (b : Bool)
        → length kept ≡ 0
        → Wrote base kept s (ok 0, (if b then record s { fin_off = some n } else s))
    empty true h =
        let a = nothing-Appended base kept s j h in
        record {
          answer = ap ok (sym h);
          state = record { joined = a.joined; same = a.same; moved = a.moved; unacked = a.unacked };
        }
    empty false h = record { answer = ap ok (sym h); state = nothing-Appended base kept s j h }

    full :
        (b : Bool)
        → Wrote base kept s
            (ok (length kept), append_data kept b (if b then record s { fin_off = some n } else s))
    full true =
        let a = append_data-Appended base kept true (record s { fin_off = some n }) j in
        record {
          answer = refl;
          state = record { joined = a.joined; same = a.same; moved = a.moved; unacked = a.unacked };
        }
    full false = record { answer = refl; state = append_data-Appended base kept false s j }

take_all : (n : ℕ) (xs : List ℕ) → length xs ≤ n → take n xs ≡ xs
take_all zero [] h = refl
take_all zero (x ∷ xs) h = absurd (omega arith)
take_all (suc n) [] h = refl
take_all (suc n) (x ∷ xs) h = ap (λ ys. x ∷ ys) (take_all n xs (omega arith))

write_within-Wrote :
    (base room : ℕ) (bytes : List ℕ) (fin : Bool) (s : SendBuf)
    → s.fin_off ≡ none
    → Joined base s.chunks s.write_off
    → Wrote base (take room bytes) s (write_within room bytes fin s)
unfolding write_within
write_within-Wrote base room bytes fin s e j = elim (Bool-cases (ltb room (length bytes))) [
  | inl c ↦
      rw (c, allowed false s.fin_off e)
        (write_kept base (take room bytes) false (s.write_off + length bytes) s j)
  | inr c ↦
      rw (c, allowed fin s.fin_off e, take_all room bytes (ground (arith, c)))
        (write_kept base bytes fin (s.write_off + length bytes) s j)
]
  where
    allowed :
        (b : Bool) (o : Option ℕ)
        → o ≡ none
        → final_refuses o (s.write_off + length bytes) b ≡ false
    allowed b o q = unfold final_refuses in rw q refl

-- On a stream that was not stopped and whose end is not known, with chunks that follow each other from
-- some offset to the write offset, which is within the peer's limit, a u64 number: `write` accepts as
-- many bytes as the limit has room for and answers their number, appends just them to the bytes that
-- the buffer holds, moves the write offset behind them, and keeps the chunks without a gap.
pub write_appends :
    (base : ℕ) (bytes : List ℕ) (fin : Bool) (s : SendBuf)
    → s.error ≡ none
    → s.fin_off ≡ none
    → s.write_off ≤ s.max_data
    → s.max_data < 2 ^ 64
    → Joined base s.chunks s.write_off
    → ((write bytes fin s).0 ≡ ok (min (s.max_data - s.write_off) (length bytes)))
      × (contents (write bytes fin s).1.chunks
          ≡ contents s.chunks ++ take (s.max_data - s.write_off) bytes)
      × ((write bytes fin s).1.write_off
          ≡ s.write_off + min (s.max_data - s.write_off) (length bytes))
      × Joined base (write bytes fin s).1.chunks (write bytes fin s).1.write_off
unfolding write capacity
write_appends base bytes fin s e f h k j =
    let room = s.max_data - s.write_off in
    let c : capacity s ≡ ok room = can_write in
    let w = write_within-Wrote base room bytes fin s f j in
    let l : length (take room bytes) ≡ min room (length bytes) = length-take room bytes in
    rw (c, write)
      (
        w.answer ∙ ap ok l,
        w.state.same,
        w.state.moved ∙ ap (λ n. s.write_off + n) l,
        w.state.joined,
      )
  where
    can_write : capacity s ≡ ok (s.max_data - s.write_off)
    can_write = rw (e, capacity) (ap ok (omega arith))
