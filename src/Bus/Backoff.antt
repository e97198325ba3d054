-- ===== src/Bus/Backoff.antt =====
-- relay/bus/backoff.go. The jitter, a random number below 4, is an argument.
pub mod Waits
mod Tests
use go_relay.Base.{
  ℕ, ◌+◌, ◌-◌, Option, none, some, List, [], ◌∷◌, Outcome, ok, err, panic, ◌>>=◌, length, get_elem?,
  ltb, if◌then◌else◌,
}

-- In seconds.
abbrev pub interval_table : List ℕ
interval_table = 5 ∷ 5 ∷ 5 ∷ 15 ∷ 15 ∷ 15 ∷ 30 ∷ 30 ∷ 30 ∷ 60 ∷ 60 ∷ 60 ∷ 90 ∷ []

abbrev pub intervals : ℕ
intervals = length interval_table - 1

unfoldable pub new_backoff : ℕ
new_backoff = 0

unfoldable pub reset : ℕ → ℕ
reset interval = 0

abbrev pub advance : ℕ → ℕ
advance interval = if ltb interval intervals then interval + 1 else interval

abbrev pub entry_of : Option ℕ → Outcome ℕ
entry_of none = panic
entry_of (some seconds) = ok seconds

-- The seconds to wait, and the interval afterwards.
unfoldable pub next_interval : ℕ → ℕ → Outcome (ℕ × ℕ)
next_interval jitter interval = do
  seconds ← entry_of (get_elem? interval_table (advance interval))
  ok (seconds + jitter, advance interval)
