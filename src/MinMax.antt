-- ===== src/MinMax.antt =====
-- The windowed maximum and minimum (src/congestion_control/minmax.rs). The array of three samples is
-- three fields.
pub mod Window
pub mod Minimum
use raw_quic.Prelude.{if◌then◌else◌, leb, ltb, zero, ℕ, ◌&&◌, ◌-◌, ◌/◌, ◌==◌, ◌||◌}

pub record MinMaxSample : Type 0 where
  pub time : ℕ
  pub value : ℕ

pub record MinMax : Type 0 where
  pub window : ℕ
  pub best : MinMaxSample
  pub second : MinMaxSample
  pub third : MinMaxSample

unfoldable pub new : ℕ → MinMax
new window =
    let zero : MinMaxSample = record { time = 0; value = 0 } in
    record { window = window; best = zero; second = zero; third = zero }

unfoldable pub set_window : ℕ → MinMax → MinMax
set_window window m = record m { window = window }

unfoldable pub reset : MinMaxSample → MinMax → MinMax
reset sample m = record m { best = sample; second = sample; third = sample }

-- The best sample is dropped, and the new one comes in last.
unfoldable pub shift : MinMaxSample → MinMax → MinMax
shift sample m = record m { best = m.second; second = m.third; third = sample }

unfoldable pub subwin_update : MinMaxSample → MinMax → MinMax
unfolding shift
subwin_update sample m =
    let dt = sample.time - m.best.time in
    let m1 = shift sample m in
    if ltb m.window dt
    then (if ltb m.window (sample.time - m1.best.time) then shift sample m1 else m1)
    else if (m.second.time == m.best.time) && ltb (m.window / 4) dt
    then record m { second = sample; third = sample }
    else if (m.third.time == m.second.time) && ltb (m.window / 2) dt
    then record m { third = sample }
    else m

unfoldable pub place_max : MinMaxSample → MinMax → MinMax
place_max sample m =
    if leb m.second.value sample.value
    then record m { second = sample; third = sample }
    else if leb m.third.value sample.value
    then record m { third = sample }
    else m

unfoldable pub update_max : ℕ → ℕ → MinMax → MinMax
unfolding reset place_max subwin_update
update_max time value m =
    let sample : MinMaxSample = record { time = time; value = value } in
    if ltb time m.third.time
    then m
    else if (m.best.value == 0) || (leb m.best.value value || ltb m.window (time - m.third.time))
    then reset sample m
    else subwin_update sample (place_max sample m)

unfoldable pub place_min : MinMaxSample → MinMax → MinMax
place_min sample m =
    if leb sample.value m.second.value
    then record m { second = sample; third = sample }
    else if leb sample.value m.third.value
    then record m { third = sample }
    else m

unfoldable pub update_min : ℕ → ℕ → MinMax → MinMax
unfolding reset place_min subwin_update
update_min time value m =
    let sample : MinMaxSample = record { time = time; value = value } in
    if ltb time m.third.time
    then m
    else if (m.best.value == 0) || (leb value m.best.value || ltb m.window (time - m.third.time))
    then reset sample m
    else subwin_update sample (place_min sample m)

unfoldable pub get : MinMax → ℕ
get m = m.best.value
