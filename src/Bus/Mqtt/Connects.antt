-- ===== src/Bus/Mqtt/Connects.antt =====
-- Connecting ends with the first attempt that succeeds, and what the connection is then.
use go_relay.Base.{
  ℕ, zero, suc, ◌≤◌, ◌<◌, ◌≡◌, refl, ap, Bool, true, false, not, Option, none, some, List, [], ◌∷◌,
  Outcome, ok, length, All, Text, arith, if◌then◌else◌,
}
use go_relay.Bus.Backoff.{new_backoff, reset, advance}
use go_relay.Bus.Backoff.Waits.{IsWait, next_interval_lem}
use go_relay.Bus.Connection.{ConnectionOptions}
use go_relay.Bus.Mqtt.{
  ClientOptions, call, MqttConnection, connect_loop, client_options, connect, disconnected,
}

-- The attempts from the i-th on fail with these jitters, and the one after them succeeds.
abbrev pub FailsThenSucceeds : (ℕ → Option ℕ) → ℕ → List ℕ → Type 0
FailsThenSucceeds attempts i [] = attempts i ≡ none
FailsThenSucceeds attempts i (jitter ∷ jitters) =
    (attempts i ≡ some jitter) × FailsThenSucceeds attempts (suc i) jitters

-- With more fuel than failures, the loop ends at the first success: one wait for each failure, each
-- from 5 to 93 seconds, and the interval reset.
connect_loop_lem :
    (attempts : ℕ → Option ℕ) (jitters : List ℕ) (fuel i interval : ℕ)
    → FailsThenSucceeds attempts i jitters
    → All (λ j. j < 4) jitters
    → interval ≤ 12
    → length jitters < fuel
    → (ws : List ℕ) × (connect_loop attempts fuel i interval ≡ ok (some (ws, 0)))
      × All IsWait ws
      × (length ws ≡ length jitters)
unfolding connect_loop reset
connect_loop_lem attempts jitters zero i interval f j h l = absurd (ground (arith, l))
connect_loop_lem attempts [] (suc fuel) i interval f j h l = ([], rw (connect_loop, f), tt, refl)
connect_loop_lem attempts (jitter ∷ jitters) (suc fuel) i interval f j h l =
    let (s, e, w, b) = next_interval_lem jitter interval j.0 h in
    let (ws, e', w', n) =
      connect_loop_lem attempts jitters fuel (suc i) (advance interval) f.1 j.1 b
        (omega (arith, l)) in
    (s ∷ ws, rw (connect_loop, f.0, e, e'), (w, w'), ap (λ n. suc n) n)

-- The handlers that a connection with these options has called at its end.
abbrev pub called_for : {H : Type 0} → Bool → Option H → List H → List H
called_for true handler called = called
called_for false none called = called
called_for false (some handler) called = handler ∷ called

connected_lem :
    {H : Type 0} (auto : Bool) (handler : Option H) (c : MqttConnection H)
    → (if not auto then call handler c else c)
      ≡ record c { called = called_for auto handler c.called }
connected_lem true handler c = refl
connected_lem false none c = refl
connected_lem false (some handler) c = refl

module _ {H R : Type 0} (read_file : Text → Outcome Text) (append_certs : Text → Option R)
    (encode : Text → Text) where
  -- With options that the client accepts, Connect returns as soon as an attempt succeeds, however
  -- many fail before: it has waited from 5 to 93 seconds after each failure, the backoff is reset,
  -- the connection has a client and the options, and the handler was called once, unless there is
  -- none or the client reconnects by itself.
  pub connect_lem :
      (client_id : Text) (options : ConnectionOptions H) (client : ClientOptions R)
      (c : MqttConnection H) (attempts : ℕ → Option ℕ) (jitters : List ℕ) (fuel : ℕ)
      → client_options read_file append_certs encode client_id options ≡ ok client
      → FailsThenSucceeds attempts 0 jitters
      → All (λ j. j < 4) jitters
      → length jitters < fuel
      → (ws : List ℕ) × (connect read_file append_certs encode client_id options attempts fuel c
          ≡ ok (
            client,
            some (record {
              options = options;
              conn = true;
              backoff = some 0;
              waited = ws;
              called = called_for options.auto_reconnect options.events_handler c.called;
            }),
          ))
        × All IsWait ws
        × (length ws ≡ length jitters)
  unfolding connect new_backoff
  connect_lem client_id options client c attempts jitters fuel a f j l =
      let (ws, e, w, n) = connect_loop_lem attempts jitters fuel 0 0 f j (omega arith) l in
      (
        ws,
        rw (a, e)
            (ap (λ c. ok (client, some c))
              (connected_lem options.auto_reconnect options.events_handler _)),
        w,
        n,
      )

-- The same for a connection that was lost, with whatever interval its backoff has: the handler is
-- called once if there is one.
pub disconnected_lem :
    {H : Type 0} (c : MqttConnection H) (interval : ℕ) (attempts : ℕ → Option ℕ) (jitters : List ℕ)
    (fuel : ℕ)
    → c.backoff ≡ some interval
    → interval ≤ 12
    → FailsThenSucceeds attempts 0 jitters
    → All (λ j. j < 4) jitters
    → length jitters < fuel
    → (ws : List ℕ) × (disconnected attempts fuel c
        ≡ ok (
            some (record c {
              backoff = some 0;
              waited = ws;
              called = called_for false c.options.events_handler c.called;
            })))
      × All IsWait ws
      × (length ws ≡ length jitters)
unfolding disconnected
disconnected_lem c interval attempts jitters fuel b h f j l =
    let (ws, e, w, n) = connect_loop_lem attempts jitters fuel 0 interval f j h l in
    (ws, rw (b, e) (ap (λ c. ok (some c)) (connected_lem false c.options.events_handler _)), w, n)
