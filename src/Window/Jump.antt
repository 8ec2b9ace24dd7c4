-- ===== src/Window/Jump.antt =====
-- The cast of the shift count to u32.
use raw_quic.Prelude.{Bool, arith, le→ltb, refl, ℕ, ◌+◌, ◌-◌, ◌<◌, ◌==◌, ◌^◌, ◌||◌, ◌≡◌, ◌≤◌}
use raw_quic.Window.{SeqNumWindow, shl, advance, set_bit, insert, contains}
use raw_quic.Window.Tracks.{upper_exact}

advanced :
    (w : SeqNumWindow)
    → w.lower < 2 ^ 62
    → advance (w.lower + 127 + 2 ^ 32) w
      ≡ record { lower = w.lower + 2 ^ 32; window = shl (2 ^ 32) w.window }
unfolding advance
advanced w l = ground (arith, upper_exact w l)

kept : (bits : ℕ → Bool) (i : ℕ) → i < 128 → shl (2 ^ 32) bits i ≡ bits i
unfolding shl
kept bits i h = ground arith

-- The shift count is cast to u32: from a window that starts below 2 ^ 62, inserting the number exactly
-- 2 ^ 32 behind its end moves its beginning by 2 ^ 32 and keeps all its bits, so that each number in
-- the window that moved is taken for a duplicate if and only if it is the one inserted, or the number
-- 2 ^ 32 below it was taken for one before.
pub insert_jump :
    (w : SeqNumWindow) (x : ℕ)
    → w.lower < 2 ^ 62
    → w.lower ≤ x
    → x ≤ w.lower + 127
    → ((insert (w.lower + 127 + 2 ^ 32) w).lower ≡ w.lower + 2 ^ 32)
      × (contains (x + 2 ^ 32) (insert (w.lower + 127 + 2 ^ 32) w)
          ≡ (x == w.lower + 127 || contains x w))
unfolding insert contains set_bit
insert_jump w x l k m =
    rw (advanced w l, le→ltb (w.lower + 127 + 2 ^ 32) w.lower (omega arith))
      (
        refl,
        ground (
          arith,
          kept w.window (w.lower + 127 - x),
          upper_exact w l,
          upper_exact (record w { lower = w.lower + 2 ^ 32 }),
        ),
      )
