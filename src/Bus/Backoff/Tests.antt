-- ===== src/Bus/Backoff/Tests.antt =====
-- Three waits from a fresh backoff.
use go_relay.Base.{ℕ, ◌≡◌, refl, List, [], ◌∷◌, ok, length, All, arith}
use go_relay.Bus.Backoff.{next_interval}
use go_relay.Bus.Backoff.Waits.{waits, IsWait, waits_lem}

waits_lem_example :
    (ws : List ℕ) × (waits (0 ∷ 3 ∷ 1 ∷ []) 0 ≡ ok ws) × All IsWait ws × (length ws ≡ 3)
waits_lem_example = waits_lem (0 ∷ 3 ∷ 1 ∷ []) 0 (ground arith) (omega arith)

first_waits : waits (0 ∷ 3 ∷ 1 ∷ []) 0 ≡ ok (5 ∷ 8 ∷ 16 ∷ [])
unfolding waits next_interval
first_waits = refl
