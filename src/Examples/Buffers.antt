-- ===== src/Examples/Buffers.antt =====
-- Runs of the theorems on the windowed maximum and on the buffered frames, at concrete inputs.
use raw_quic.Prelude.{[], arith, some, ◌-◌, ◌∷◌, ◌≡◌, ◌≤◌}
use raw_quic.MinMax.{MinMax, update_max}
use raw_quic.MinMax
use raw_quic.MinMax.Window.{IsOrdered, update_max_lem}
use raw_quic.Frame.{Frame}
use raw_quic.Space.{BufferQueue, mid, pop_front}
use raw_quic.Space.Order.{contents, IsCounted, pop_front-contents}

abbrev samples : MinMax
samples = record {
  window = 10;
  best = record { time = 2; value = 50 };
  second = record { time = 6; value = 40 };
  third = record { time = 9; value = 30 };
}

update_max_lem_example :
    IsOrdered (update_max 13 20 samples)
    × (13 - (update_max 13 20 samples).best.time ≤ 10)
    × (20 ≤ MinMax.get (update_max 13 20 samples))
update_max_lem_example = update_max_lem 13 20 samples (omega arith) (omega arith)

abbrev buffer : BufferQueue
buffer = record {
  high_queue = [];
  mid_queue = Frame.max_data 5 ∷ [];
  low_queue = Frame.handshake_done ∷ [];
  count = 2;
}

pop_front-contents_example :
    ((pop_front buffer).0 ≡ some (Frame.max_data 5, mid))
    × (contents (pop_front buffer).1 ≡ contents (record buffer { mid_queue = [] }))
    × IsCounted (pop_front buffer).1
pop_front-contents_example = pop_front-contents buffer (omega arith)

abbrev low_samples : MinMax
low_samples = record {
  window = 10;
  best = record { time = 2; value = 30 };
  second = record { time = 6; value = 40 };
  third = record { time = 9; value = 50 };
}
