-- ===== src/Examples/Streams.antt =====
-- Runs of the theorems on streams, at concrete inputs.
use raw_quic.Prelude.{
  Bool, List, [], arith, false, get_elem?, if◌then◌else◌, inl, inr, length, ltb, none, refl, some,
  suc, true, zero, ℕ, ◌++◌, ◌+◌, ◌<◌, ◌↔◌, ◌∷◌, ◌≡◌, ◌≢◌, ◌≤◌, ◌⊎◌,
}
use raw_quic.Error.{ok, err, stream_limit_error, flow_control_error, final_size_error}
use raw_quic.FlowControl
use raw_quic.Ranges
use raw_quic.Ranges.Entries.{prev_to, next_to, remove_key, insert_key, pop_first}
use raw_quic.Stream.Kind.{is_local, is_bidi}
use raw_quic.Stream.RangeBuf
use raw_quic.Stream.RangeBuf.{RangeBuf}
use raw_quic.Stream.RangeBuf.Bytes.{or_else}
use raw_quic.Stream.Recv
use raw_quic.Stream.Recv.{RecvBuf}
use raw_quic.Stream.Recv.Chunks.{held}
use raw_quic.Stream.Recv.Limits.{Allowed}
use raw_quic.Stream.Recv.Write
use raw_quic.Stream.Recv.Write.{unread}
use raw_quic.Stream.Recv.Accept.{write_accepts, write_refused, write_adds}
use raw_quic.Stream.Recv.Read.{read_delivers}
use raw_quic.Stream.Recv.Stop.{reset_stops}
use raw_quic.Stream.Recv.Delivery
use raw_quic.Stream.Recv.Delivery.{Event, frame, reading, run_delivers, segment}
use raw_quic.Stream.Concurrency
use raw_quic.Stream.Concurrency.{check_concurrency_limits, is_limited, is_available}
use raw_quic.Stream.Concurrency.Limits
use raw_quic.Stream.Concurrency.Limits.{
  Op, takes, credits, local_limit, run_available, check_limits, new-IsValid,
}
use raw_quic.Stream.Send
use raw_quic.Stream.Send.{SendBuf, send_off}
use raw_quic.Stream.Send.Chunks.{byte_of, Joined}
use raw_quic.Stream.Send.Write.{contents, write_appends}
use raw_quic.Stream.Send.Read
use raw_quic.Stream.Send.Read.{read_sends}

-- Bytes 4 and 5 have arrived, and 0 to 3 were read.
abbrev received : RecvBuf
received = record {
  chunks = (6, RangeBuf.new (40 ∷ 50 ∷ []) 4 false) ∷ [];
  read_off = 4;
  recv_off = 6;
  fin_off = none;
  error = none;
  shut = false;
  flow_control = FlowControl.new 20 20;
}

received-IsValid : Write.IsValid received
received-IsValid = record {
  in_order = (omega arith, omega arith, tt);
  below = (omega arith, tt);
  offsets = omega arith;
  discarded = inl refl;
  final_above = tt;
}

fits : Allowed (RangeBuf.new (50 ∷ 60 ∷ []) 5 true) received
unfolding FlowControl.new
fits = record { within = omega arith; at_end = inr (omega arith); at_final = tt }

write_accepts_example :
    ((Recv.write 5 (50 ∷ 60 ∷ []) true received).0 ≡ ok tt)
    ↔ Allowed (RangeBuf.new (50 ∷ 60 ∷ []) 5 true) received
write_accepts_example = write_accepts 5 (50 ∷ 60 ∷ []) true received received-IsValid

too_far : ¬ Allowed (RangeBuf.new (1 ∷ 2 ∷ []) 19 false) received
unfolding FlowControl.new
too_far a = omega (arith, a.within)

write_refused_example : Recv.write 19 (1 ∷ 2 ∷ []) false received ≡ (
  (if ltb received.flow_control.max_data 21 then err flow_control_error else err final_size_error),
  received,
)
write_refused_example = write_refused 19 (1 ∷ 2 ∷ []) false received received-IsValid too_far

write_adds_example :
    Write.IsValid (Recv.write 5 (50 ∷ 60 ∷ []) true received).1
    × ((Recv.write 5 (50 ∷ 60 ∷ []) true received).1.read_off ≡ 4)
    × ((x : ℕ)
        → held (Recv.write 5 (50 ∷ 60 ∷ []) true received).1.chunks x
          ≡ or_else (held received.chunks x) (unread 4 (RangeBuf.new (50 ∷ 60 ∷ []) 5 true) x))
    × ((Recv.write 5 (50 ∷ 60 ∷ []) true received).1.fin_off ≡ some 7)
write_adds_example = write_adds 5 (50 ∷ 60 ∷ []) true received received-IsValid refl fits

read_delivers_example :
    ((Recv.read 1 received).1.read_off ≡ 5)
    × ((i : ℕ) → i < 1 → get_elem? (40 ∷ []) i ≡ held received.chunks (4 + i))
    × (1 ≤ 1)
    × ((length {A = ℕ} (40 ∷ []) ≡ 1) ⊎ (held received.chunks 5 ≡ none))
    × ((x : ℕ)
        → held (Recv.read 1 received).1.chunks x
          ≡ (if ltb x (Recv.read 1 received).1.read_off then none else held received.chunks x))
    × (false ≡ Recv.is_fin (Recv.read 1 received).1)
unfolding Recv.read Recv.read_end RangeBuf.advance Recv.ready Recv.take_chunks Recv.is_fin
read_delivers_example = read_delivers 1 received (40 ∷ []) false received-IsValid refl

reset_stops_example :
    (6 + 2 ≡ 8)
    × Write.IsValid (Recv.reset 9 8 received).1
    × ((room : ℕ) (bytes : List ℕ) (fin : Bool)
        → (Recv.read room (Recv.reset 9 8 received).1).0 ≢ ok (bytes, fin))
unfolding Recv.reset Recv.final_changes Recv.reset_first Recv.reset_end Recv.write Recv.check_write
    Recv.check_final Recv.write_checked Recv.is_fin Recv.write_pieces Recv.scan_piece
    Recv.unread_part Recv.scan Recv.store Recv.insert_chunk Recv.from_key RangeBuf.is_empty
    RangeBuf.advance FlowControl.new
reset_stops_example = reset_stops 9 8 2 received received-IsValid refl

-- The stream 10, 11, 12, ..., of which two frames overlap and come in the wrong order.
abbrev events : List Event
events =
    frame 2 (12 ∷ 13 ∷ []) false
    ∷ reading 8
    ∷ frame 0 (10 ∷ 11 ∷ 12 ∷ []) false
    ∷ reading 3
    ∷ reading 8
    ∷ []

first_agrees : (i v : ℕ) → get_elem? (12 ∷ 13 ∷ []) i ≡ some v → 2 + i + 10 ≡ v
first_agrees zero v e = cc e
first_agrees (suc zero) v e = cc e
first_agrees (suc (suc i)) v e = absurd (cc e)

second_agrees : (i v : ℕ) → get_elem? (10 ∷ 11 ∷ 12 ∷ []) i ≡ some v → 0 + i + 10 ≡ v
second_agrees zero v e = cc e
second_agrees (suc zero) v e = cc e
second_agrees (suc (suc zero)) v e = cc e
second_agrees (suc (suc (suc i))) v e = absurd (cc e)

run_delivers_example :
    (Delivery.run events (Recv.new 100 100)).0
    ≡ segment (λ n. n + 10) 0 (Delivery.run events (Recv.new 100 100)).1.read_off
run_delivers_example = run_delivers (λ n. n + 10) 100 100 events (first_agrees, (second_agrees, tt))

abbrev calls : List Op
calls = takes 0 true ∷ credits true 3 ∷ local_limit true ∷ []

available : is_available 16 true (Limits.run calls (Concurrency.new 2 1)) ≡ true
unfolding Limits.run Limits.step is_available is_local is_bidi Concurrency.avail_ids Concurrency.new
    Concurrency.remove_avail_id Concurrency.remove_id Concurrency.increase_max_streams_credits
    Concurrency.update_local_max_streams Concurrency.insert_avail_id Ranges.contains Ranges.insert
    Ranges.insert_merged Ranges.absorb Ranges.default Ranges.new Ranges.remove_elem Ranges.remove
    Ranges.cut_after Ranges.cut Ranges.split_prev prev_to next_to remove_key insert_key pop_first
available = refl

run_available_example : is_limited 16 true (Limits.run calls (Concurrency.new 2 1)) ≡ false
run_available_example =
    run_available 2 1 calls 16 true (omega arith) (omega arith) (tt, (tt, (tt, tt))) available

check_limits_example :
    ((check_concurrency_limits 8 true (Concurrency.new 2 1)).0
      ≡ (if is_limited 8 true (Concurrency.new 2 1) then err stream_limit_error else ok tt))
    × Limits.IsValid (check_concurrency_limits 8 true (Concurrency.new 2 1)).1
check_limits_example =
    check_limits 8 true (Concurrency.new 2 1) (new-IsValid 2 1 (omega arith) (omega arith))

-- Five bytes were sent, and two of them were lost.
abbrev sending : SendBuf
sending = record {
  chunks = RangeBuf.new (1 ∷ 2 ∷ 3 ∷ []) 0 false ∷ RangeBuf.new (4 ∷ 5 ∷ []) 3 false ∷ [];
  pos = 0;
  write_off = 5;
  unsent_off = 5;
  unacked_len = 5;
  max_data = 9;
  blocked_at = none;
  fin_off = none;
  shut = false;
  acked = Ranges.default;
  retransmits = record { set = (2, 4) ∷ []; capacity = 100 };
  error = none;
}

sending-IsValid : Read.IsValid sending
unfolding send_off Ranges.set_min
sending-IsValid = record {
  at = record {
    lo = 0;
    joined = (refl, omega arith, (refl, omega arith, refl));
    below = omega arith;
    same = λ x h. refl;
  };
  unsent = omega arith;
  fits = omega arith;
  order = (omega arith, omega arith, tt);
  room = omega arith;
  sent = (omega arith, tt);
}

read_sends_example :
    (out : List ℕ) × (fin : Bool) × ((Send.read 4 sending).0 ≡ ok (out, fin))
    × (length out ≤ 4)
    × ((i : ℕ) → i < length out → get_elem? out i ≡ byte_of sending.chunks (send_off sending + i))
    × ((0 < length out) ⊎ (◌≡◌ {A = ℕ} 4 0) ⊎ (Send.ready sending ≡ false) ⊎ (9 ≤ send_off sending))
    × Read.IsValid (Send.read 4 sending).1
    × ((Send.read 4 sending).1.chunks ≡ sending.chunks)
read_sends_example = read_sends 4 sending sending-IsValid

write_appends_example :
    ((Send.write (6 ∷ 7 ∷ 8 ∷ 9 ∷ 10 ∷ []) true sending).0 ≡ ok 4)
    × (contents (Send.write (6 ∷ 7 ∷ 8 ∷ 9 ∷ 10 ∷ []) true sending).1.chunks
        ≡ contents sending.chunks ++ (6 ∷ 7 ∷ 8 ∷ 9 ∷ []))
    × ((Send.write (6 ∷ 7 ∷ 8 ∷ 9 ∷ 10 ∷ []) true sending).1.write_off ≡ 9)
    × Joined 0
        (Send.write (6 ∷ 7 ∷ 8 ∷ 9 ∷ 10 ∷ []) true sending).1.chunks
        (Send.write (6 ∷ 7 ∷ 8 ∷ 9 ∷ 10 ∷ []) true sending).1.write_off
write_appends_example =
    write_appends 0 (6 ∷ 7 ∷ 8 ∷ 9 ∷ 10 ∷ []) true sending refl refl (omega arith) (omega arith)
      (refl, omega arith, (refl, omega arith, refl))
