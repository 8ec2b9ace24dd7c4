-- ===== src/Prelude/Words.antt =====
-- Unsigned machine words as native numbers: sums and differences wrap at the width, as they do in
-- a release build.
use Prim.Native.Nat.{ℕ, ◌+◌, ◌-◌, ◌/◌, ◌%◌, ◌^◌}
use raw_quic.Prelude.Tests.{◌==◌, if◌then◌else◌}

-- a + b and a - b on u64 (and on usize, whose width is 64 bits here).
abbrev pub add64 : ℕ → ℕ → ℕ
add64 a b = (a + b) % 2 ^ 64

abbrev pub sub64 : ℕ → ℕ → ℕ
sub64 a b = (a + 2 ^ 64 - b) % 2 ^ 64

-- `x | 1 << k` for one bit.
abbrev pub or_bit : ℕ → ℕ → ℕ
or_bit k x = if x / 2 ^ k % 2 == 0 then x + 2 ^ k else x
