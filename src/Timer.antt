-- ===== src/Timer.antt =====
-- The timers of a connection (src/connection/timer.rs). Instants are nanoseconds; the table is an
-- array with one entry for each timer, indexed by the timer's number.
pub mod Next
use raw_quic.Prelude.{
  Bool, List, Option, [], false, get_elem?, leb, min, none, replicate, set, some, ℕ, ◌∷◌,
}

pub data Timer : Type 0 where
  loss_detection ack pacer idle handshake draining key_discard keep_alive path_challenge : Timer

-- `timer as usize`.
abbrev pub index : Timer → ℕ
index loss_detection = 0
index ack = 1
index pacer = 2
index idle = 3
index handshake = 4
index draining = 5
index key_discard = 6
index keep_alive = 7
index path_challenge = 8

abbrev pub count : ℕ
count = 9

pub record TimerTable : Type 0 where
  pub expires : List (Option ℕ)

unfoldable pub default : TimerTable
default = record { expires = replicate count none }

unfoldable pub set_timer : Timer → ℕ → TimerTable → TimerTable
set_timer timer time t = record { expires = set t.expires (index timer) (some time) }

-- The entry; the index is below the length of the array.
unfoldable pub get : Timer → TimerTable → Option ℕ
get timer t = elim (get_elem? t.expires (index timer)) [ none ↦ none | some x ↦ x ]

unfoldable pub stop : Timer → TimerTable → TimerTable
stop timer t = record { expires = set t.expires (index timer) none }

-- `iter().filter_map(|&x| x).min()`.
unfoldable pub min_set : List (Option ℕ) → Option ℕ
min_set [] = none
min_set (none ∷ xs) = min_set xs
min_set (some x ∷ xs) = elim (min_set xs) [ none ↦ some x | some y ↦ some (min x y) ]

unfoldable pub next_timeout : TimerTable → Option ℕ
unfolding min_set
next_timeout t = min_set t.expires

unfoldable pub is_expired : Timer → ℕ → TimerTable → Bool
unfolding get
is_expired timer after t = elim (get timer t) [ none ↦ false | some x ↦ leb x after ]
