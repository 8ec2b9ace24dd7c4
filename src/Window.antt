-- ===== src/Window.antt =====
-- The sliding window that detects duplicated packet numbers (src/window.rs). The u128 is the
-- function from the index of a bit to the bit.
pub mod Tracks
pub mod Jump
use raw_quic.Prelude.{
  Bool, false, if◌then◌else◌, leb, ltb, min, true, ℕ, ◌%◌, ◌&&◌, ◌+◌, ◌-◌, ◌==◌, ◌^◌, ◌||◌,
}

abbrev pub seq_num_window_size : ℕ
seq_num_window_size = 128

pub record SeqNumWindow : Type 0 where
  pub lower : ℕ
  pub window : ℕ → Bool

unfoldable pub default : SeqNumWindow
default = record { lower = 0; window = λ _. false }

-- `saturating_add(128) - 1` on u64.
unfoldable pub upper : SeqNumWindow → ℕ
upper w = min (w.lower + seq_num_window_size) (2 ^ 64 - 1) - 1

-- `checked_shl(diff as u32).unwrap_or(0)` on u128: nothing is left by a shift of 128 and more.
unfoldable pub shl : ℕ → (ℕ → Bool) → ℕ → Bool
shl diff bits i =
    let d = diff % 2 ^ 32 in if ltb d 128 then leb d i && ltb i 128 && bits (i - d) else false

-- The window moved so that it ends at `seq`, if that lies behind its end.
unfoldable pub advance : ℕ → SeqNumWindow → SeqNumWindow
unfolding upper shl
advance seq w =
    if ltb (upper w) seq
    then record w { lower = w.lower + (seq - upper w); window = shl (seq - upper w) w.window }
    else w

-- `window |= 1_u128 << (upper - seq)`.
unfoldable pub set_bit : ℕ → SeqNumWindow → SeqNumWindow
set_bit k w = record w { window = λ i. (i == k) || w.window i }

unfoldable pub insert : ℕ → SeqNumWindow → SeqNumWindow
unfolding advance set_bit
insert seq w = let w' = advance seq w in if ltb seq w.lower then w else set_bit (upper w' - seq) w'

unfoldable pub contains : ℕ → SeqNumWindow → Bool
unfolding upper
contains seq w =
    if ltb (upper w) seq then false else if ltb seq w.lower then true else w.window (upper w - seq)
