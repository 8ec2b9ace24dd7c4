-- ===== src/Examples/State.antt =====
-- Runs of the theorems on the state of a connection, at concrete inputs.
use raw_quic.Prelude.{[], arith, false, ltb, none, refl, some, true, ◌+◌, ◌<◌, ◌^◌, ◌||◌, ◌∷◌, ◌≡◌}
use raw_quic.Window.Jump.{insert_jump}
use raw_quic.Window
use raw_quic.Window.{contains, advance, upper, set_bit}
use raw_quic.Window.Tracks.{contains-insert_all, insert_all}
use raw_quic.FlowControl.{FlowControl}
use raw_quic.FlowControl.Limits
use raw_quic.Timer.{TimerTable}
use raw_quic.Pmtu.{
  Dplpmtud, cal_mtu_ceiling, cal_probe_size, check_finish, on_pmtu_probe_acked, on_pmtu_probe_lost,
}
use raw_quic.Pmtu.Search
use raw_quic.Pmtu.Search.{left, acked_lem, three_losses}

contains-insert_all_example :
    contains 200 (insert_all (5 ∷ 300 ∷ 200 ∷ []) Window.default)
    ≡ (ltb 200 (insert_all (5 ∷ 300 ∷ 200 ∷ []) Window.default).lower || true)
unfolding Window.insert advance upper set_bit Window.default
contains-insert_all_example = contains-insert_all (5 ∷ 300 ∷ 200 ∷ []) 200 (omega arith)

abbrev one_window : Window.SeqNumWindow
one_window = Window.insert 0 Window.default

insert_jump_example :
    ((Window.insert (0 + 127 + 2 ^ 32) one_window).lower ≡ 0 + 2 ^ 32)
    × (contains (0 + 2 ^ 32) (Window.insert (0 + 127 + 2 ^ 32) one_window) ≡ true)
unfolding contains Window.insert advance upper set_bit Window.default
insert_jump_example = insert_jump one_window 0 (omega arith) (omega arith) (omega arith)

-- 80 of 100 bytes were read.
abbrev control : FlowControl
control = record {
  read_off = 80;
  recv_off = 90;
  max_data = 100;
  window = 100;
  max_window = 150;
  last_updated = some 1000;
}

control-IsValid : Limits.IsValid control
control-IsValid = omega arith

abbrev table : TimerTable
table = record { expires = none ∷ some 50 ∷ none ∷ some 40 ∷ none ∷ none ∷ none ∷ none ∷ none ∷ [] }

-- A first probe of 1452 bytes over IPv4.
abbrev search_state : Dplpmtud
search_state = record {
  should_probe = true;
  current_size = 1200;
  probe_size = some 1472;
  probe_count = 0;
  failed_size = 0;
  max_pmtu = 1472;
  is_ipv6 = false;
}

search_state-IsValid : Search.IsValid 1500 search_state
unfolding cal_mtu_ceiling
search_state-IsValid = omega arith

acked_lem_example :
    ((on_pmtu_probe_acked 1400 1500 search_state).current_size ≡ 1400)
    × (cal_mtu_ceiling 1500 (on_pmtu_probe_acked 1400 1500 search_state)
        ≡ cal_mtu_ceiling 1500 search_state)
    × (left 1500 (on_pmtu_probe_acked 1400 1500 search_state) < left 1500 search_state)
    × Search.IsValid 1500 (on_pmtu_probe_acked 1400 1500 search_state)
acked_lem_example =
    acked_lem 1500 1400 search_state search_state-IsValid (omega arith)
      (unfold cal_mtu_ceiling in omega arith)

abbrev lost_thrice : Dplpmtud
lost_thrice =
    on_pmtu_probe_lost 1472 1500
      (on_pmtu_probe_lost 1472 1500 (on_pmtu_probe_lost 1472 1500 search_state))

three_losses_example :
    (cal_mtu_ceiling 1500 lost_thrice ≡ 1472)
    × (lost_thrice.probe_count ≡ 0)
    × (left 1500 lost_thrice < left 1500 search_state)
    × Search.IsValid 1500 lost_thrice
unfolding check_finish cal_probe_size cal_mtu_ceiling
three_losses_example =
    three_losses 1500 1472 search_state search_state-IsValid refl refl refl refl (omega arith)
