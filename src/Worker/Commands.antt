-- ===== src/Worker/Commands.antt =====
-- relay/worker/execution.go: executeCommand, as the list of its effects on the engines, the
-- environments and the bus. What the engines, the driver, the configuration and the decoders answer
-- is a parameter.
pub mod Effects
mod Tests
use go_relay.Base.{
  ℕ, Bool, true, false, Option, none, some, List, [], ◌∷◌, ◌++◌, Text, lit, Outcome, ok, err, panic,
  ◌>>=◌, if◌then◌else◌,
}
use go_relay.Config.Bundle.{Bundle}
use go_relay.Catalog.{Catalog, find}
use go_relay.Engines.{EngineType}
use go_relay.Messages.Value.{Value}
use go_relay.Messages.Execution.{ExecutionRequest, ExecutionResponse, empty_response, parse}
use go_relay.Messages.EnvBuilder.{Env, CircuitRequest, to_circuit_request}
use go_relay.Worker.Output
use go_relay.Worker.Output.{Matcher, ExecResult}

-- An environment taken from an engine, told that there is no dynamic configuration, run, and given
-- back; and a response published on a topic.
pub data Effect : Type 0 where
  acquires : ℕ → Effect
  remembers : ℕ → Effect
  runs : ℕ → CircuitRequest → Effect
  releases : ℕ → Effect
  publishes : Text → ExecutionResponse → Effect

-- `user_data` is the environment's entry dynamic-config, which only this function stores.
pub record Surroundings : Type 0 where
  pub catalog : Catalog
  pub engine_for : Bundle → Outcome EngineType
  pub new_environment : EngineType → Text → Bundle → Outcome ℕ
  pub user_data : ℕ → Option Bool
  pub run : ℕ → CircuitRequest → ExecResult × Option Text
  pub extra : Option Env
  pub dynamic : ExecutionRequest → Env
  pub matchers : List Matcher
  pub decode : Text → Option Value

unfoldable pub set_error : Text → ExecutionResponse → ExecutionResponse
set_error e resp = record resp { status = lit "error"; status_message = e }

-- What `EngineForBundle`, `NewEnvironment` and `ToCircuitRequest` lead to: `failed` for an error.
abbrev pub on_error {ℓ κ} :
    {A : Type ℓ} {B : Type κ} → (Text → B) → (A → Outcome B) → Outcome A → Outcome B
on_error failed next (ok a) = next a
on_error failed next (err e) = ok (failed e)
on_error failed next panic = panic

abbrev pub uses_dynamic_config : Option Bool → Bool
uses_dynamic_config none = true
uses_dynamic_config (some b) = b

module _ (w : Surroundings) (request : ExecutionRequest) where
  abbrev pub reply : ExecutionResponse → List Effect
  reply response = publishes request.reply_to response ∷ []

  abbrev pub failure : Text → List Effect
  failure e = reply (set_error e empty_response)

  -- From the call of `Run` on.
  unfoldable pub run_command : ℕ → CircuitRequest → Bool → List Effect
  run_command env circuit_request found =
      let (result, error) = w.run env circuit_request in
      let (response, logged) = Output.parse w.decode w.matchers result request error in
      (if found then [] else remembers env ∷ [])
      ++ runs env circuit_request ∷ releases env ∷ reply response

  unfoldable pub use_environment : Bundle → ℕ → Outcome (List Effect)
  unfolding run_command
  use_environment bundle env =
      on_error (λ e. acquires env ∷ failure e)
        (λ built. ok (acquires env ∷ run_command env built.0 built.1))
        (to_circuit_request request bundle w.extra (w.dynamic request)
          (uses_dynamic_config (w.user_data env)))

  unfoldable pub use_bundle : Bundle → Outcome (List Effect)
  unfolding use_environment
  use_bundle bundle =
      on_error failure
        (λ engine.
          on_error failure (use_environment bundle)
            (w.new_environment engine request.pipeline_id bundle))
        (w.engine_for bundle)

  unfoldable pub answer_request : Option Bundle → Outcome (List Effect)
  unfolding use_bundle
  answer_request none = ok (failure (lit "Unknown command bundle " ++ request.bundle_name))
  answer_request (some bundle) = use_bundle bundle

-- `none` is a payload that does not decode.
unfoldable pub execute_command : Surroundings → Option ExecutionRequest → Outcome (List Effect)
unfolding answer_request
execute_command w none = ok []
execute_command w (some decoded) = do
  request ← parse decoded
  answer_request w request (find w.catalog request.bundle_name)
