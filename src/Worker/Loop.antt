-- ===== src/Worker/Loop.antt =====
-- relay/worker/execution.go: the loop of ExecutionWorker, whose requests share one JSON decoder. The
-- decoder, with states `S`, is an interface.
use go_relay.Base.{
  ◌≡◌, refl, Option, none, some, List, [], ◌∷◌, Text, Outcome, ok, err, panic, ◌>>=◌,
}
use go_relay.Messages.Execution.{ExecutionRequest}
use go_relay.Worker.Commands.{Surroundings, Effect, execute_command}

-- `reset` gives the buffered reader behind the decoder a new payload.
pub record Decoder (S : Type 0) : Type 0 where
  pub open_on : Text → S
  pub reset : Text → S → S
  pub decode : S → Outcome ExecutionRequest × S

-- What a worker takes off the queue: something improper, or a request's payload with what its
-- CommandInvocation holds besides.
pub data Queued : Type 0 where
  improper : Queued
  invocation : Surroundings → Text → Queued

module _ {S : Type 0} (decoder : Decoder S) where
  abbrev pub prepared : Option S → Text → S
  prepared none payload = decoder.open_on payload
  prepared (some s) payload = decoder.reset payload s

  abbrev pub request_of : Outcome ExecutionRequest → Option ExecutionRequest
  request_of (ok r) = some r
  request_of (err e) = none
  request_of panic = none

  -- One turn of the loop: the effects, and the decoder afterwards.
  unfoldable pub turn : Queued → Option S → Outcome (List Effect) × Option S
  turn improper s = (ok [], s)
  turn (invocation w payload) s =
      let (request, s') = decoder.decode (prepared s payload) in
      (execute_command w (request_of request), some s')

  -- The effects of each turn.
  unfoldable pub execution_worker : List Queued → Option S → Outcome (List (List Effect))
  unfolding turn
  execution_worker [] s = ok []
  execution_worker (thing ∷ things) s = do
    let (effects, s') = turn thing s
    es ← effects
    rest ← execution_worker things s'
    ok (es ∷ rest)

  abbrev nothing : List Queued → List (List Effect)
  nothing [] = []
  nothing (thing ∷ things) = [] ∷ nothing things

  -- A decoder that keeps its error, as encoding/json's does after a syntax error, makes the worker
  -- ignore everything that it takes off the queue.
  pub stuck_lem :
      (IsStuck : S → Type 0)
      → ((s : S) (payload : Text)
          → IsStuck s
          → (e : Text) × ((decoder.decode (decoder.reset payload s)).0 ≡ err e)
            × IsStuck (decoder.decode (decoder.reset payload s)).1)
      → (things : List Queued) (s : S) → IsStuck s
      → execution_worker things (some s) ≡ ok (nothing things)
  unfolding execution_worker execute_command
  stuck_lem IsStuck h [] s k = refl
  stuck_lem IsStuck h (improper ∷ things) s k = rw (stuck_lem IsStuck h things s k)
  stuck_lem IsStuck h (invocation w payload ∷ things) s k =
      let (e, q, k') = h s payload k in
      rw (q, stuck_lem IsStuck h things (decoder.decode (decoder.reset payload s)).1 k')
