-- ===== src/Bus/Backoff/Waits.antt =====
-- How long a sequence of attempts to reconnect waits.
use go_relay.Base.{
  ℕ, zero, suc, ◌+◌, ◌≤◌, ◌<◌, ◌≡◌, refl, ap, ◌∙◌, some, List, [], ◌∷◌, Outcome, ok, ◌>>=◌, length,
  get_elem?, All, arith,
}
use go_relay.Bus.Backoff.{interval_table, advance, entry_of, next_interval}

-- Consecutive waits, one for each jitter, from an interval.
unfoldable pub waits : List ℕ → ℕ → Outcome (List ℕ)
waits [] interval = ok []
waits (jitter ∷ jitters) interval = do
  (seconds, interval') ← next_interval jitter interval
  rest ← waits jitters interval'
  ok (seconds ∷ rest)

entry_lem {ℓ} :
    (P : ℕ → Type ℓ) (xs : List ℕ) (i : ℕ)
    → All P xs
    → i < length xs
    → (x : ℕ) × (get_elem? xs i ≡ some x) × P x
entry_lem P [] i h l = absurd (ground (arith, l))
entry_lem P (x ∷ xs) zero h l = (x, refl, h.0)
entry_lem P (x ∷ xs) (suc i) h l = entry_lem P xs i h.1 (omega (arith, l))

abbrev InTable : ℕ → Type 0
InTable t = (5 ≤ t) × (t ≤ 90)

table_lem : All InTable interval_table
table_lem = ground arith

abbrev pub IsWait : ℕ → Type 0
IsWait s = (5 ≤ s) × (s ≤ 93)

pub next_interval_lem :
    (jitter interval : ℕ)
    → jitter < 4
    → interval ≤ 12
    → (s : ℕ) × (next_interval jitter interval ≡ ok (s, advance interval))
      × IsWait s
      × (advance interval ≤ 12)
unfolding next_interval
next_interval_lem jitter interval j h =
    let below : advance interval < 13 = ground arith in
    let (t, e, b) = entry_lem InTable interval_table (advance interval) table_lem below in
    (
      t + jitter,
      ap (λ o. entry_of o >>= λ seconds. ok (seconds + jitter, advance interval)) e,
      (omega (arith, b), omega (arith, b)),
      omega (arith, below),
    )

-- With jitters below 4, consecutive waits from any interval of the table never leave the table: each
-- takes from 5 to 93 seconds.
pub waits_lem :
    (jitters : List ℕ) (interval : ℕ)
    → All (λ j. j < 4) jitters
    → interval ≤ 12
    → (ws : List ℕ) × (waits jitters interval ≡ ok ws)
      × All IsWait ws
      × (length ws ≡ length jitters)
unfolding waits
waits_lem [] interval j h = ([], refl, tt, refl)
waits_lem (jitter ∷ jitters) interval j h =
    let (s, e, w, b) = next_interval_lem jitter interval j.0 h in
    let (ws, e', w', l) = waits_lem jitters (advance interval) j.1 b in
    (
      s ∷ ws,
      ap (λ m. m >>= λ r. waits jitters r.1 >>= λ rest. ok (r.0 ∷ rest)) e
          ∙ ap (λ m. m >>= λ rest. ok (s ∷ rest)) e',
      (w, w'),
      ap (λ n. suc n) l,
    )
