-- ===== src/MinMax/Minimum.antt =====
-- The windowed minimum: the samples stay in order, and the best one lies within the window.
use raw_quic.Prelude.{
  Bool-cases, arith, inl, inr, leb, le→ltb, ltb, ℕ, ◌-◌, ◌<◌, ◌==◌, ◌||◌, ◌≡◌, ◌≤◌,
}
use raw_quic.MinMax.{MinMax, MinMaxSample, reset, shift, subwin_update, place_min, update_min, get}

-- The better samples are the older ones.
pub record IsOrdered (m : MinMax) : Type 0 where
  pub times_best : m.best.time ≤ m.second.time
  pub times_second : m.second.time ≤ m.third.time
  pub values_best : m.best.value ≤ m.second.value
  pub values_second : m.second.value ≤ m.third.value

-- What holds of a state to which a sample is added that is larger than the best.
record Fits (sample : MinMaxSample) (m : MinMax) : Type 0 where
  ordered : IsOrdered m
  later : m.third.time ≤ sample.time
  recent : sample.time - m.third.time ≤ m.window
  larger : m.third.value ≤ sample.value

place_min-Fits :
    (sample : MinMaxSample) (m : MinMax)
    → IsOrdered m
    → m.third.time ≤ sample.time
    → sample.time - m.third.time ≤ m.window
    → m.best.value < sample.value
    → Fits sample (place_min sample m)
unfolding place_min
place_min-Fits sample m o l r s = ground arith

place_min_window : (sample : MinMaxSample) (m : MinMax) → (place_min sample m).window ≡ m.window
unfolding place_min
place_min_window sample m = ground arith

subwin_update_min_lem :
    (sample : MinMaxSample) (m : MinMax)
    → Fits sample m
    → IsOrdered (subwin_update sample m)
      × (sample.time - (subwin_update sample m).best.time ≤ m.window)
      × (get (subwin_update sample m) ≤ sample.value)
unfolding subwin_update shift get
subwin_update_min_lem sample m f = ground arith

-- A sample that is not older than the last keeps the three samples in order; the best is then at most
-- the new one, and it was taken within the window.
pub update_min_lem :
    (time value : ℕ) (m : MinMax)
    → IsOrdered m
    → m.third.time ≤ time
    → IsOrdered (update_min time value m)
      × (time - (update_min time value m).best.time ≤ m.window)
      × (get (update_min time value m) ≤ value)
unfolding update_min reset get
update_min_lem time value m o l =
    elim (Bool-cases
      ((m.best.value == 0) || (leb value m.best.value || ltb m.window (time - m.third.time)))) [
        | inl g ↦ simp (le→ltb time m.third.time l, g) (omega arith, omega arith, omega arith)
        | inr g ↦
            let f = place_min-Fits sample m o l (ground (arith, g)) (ground (arith, g)) in
            let (a, b, c) = subwin_update_min_lem sample (place_min sample m) f in
            let b' : time - (subwin_update sample (place_min sample m)).best.time ≤ m.window =
              omega (arith, b, place_min_window sample m) in
            simp (le→ltb time m.third.time l, g) (a, b', c)
      ]
  where
    sample : MinMaxSample
    sample = record { time = time; value = value }
