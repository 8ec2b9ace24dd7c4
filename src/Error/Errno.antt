-- ===== src/Error/Errno.antt =====
-- The numbering that C callers see.
use raw_quic.Prelude.{ℕ, ◌≡◌, arith}
use raw_quic.Prelude.Int.{pos}
use raw_quic.Error.{Error, no_error, to_errno}

-- The number that C sees is 0 for no error and is negative for every other.
pub to_errno-eq-pos : (e : Error) (n : ℕ) → to_errno e ≡ pos n → (e ≡ no_error) × (n ≡ 0)
unfolding to_errno
to_errno-eq-pos e n h = ground arith
