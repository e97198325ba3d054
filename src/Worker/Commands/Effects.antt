-- ===== src/Worker/Commands/Effects.antt =====
-- What every run of a command does to the bus and to the environments.
use go_relay.Base.{
  ℕ, ◌+◌, ◌≤◌, ◌≡◌, refl, ap, ◌∙◌, subst, split_n, lookup, Bool, true, false, Option, none, some,
  List, [], ◌∷◌, Text, lit, Outcome, ok, err, panic, ◌>>=◌, Holds, Holds-bind_eq, Holds-bind, arith,
}
use go_relay.Config.Bundle.{Bundle}
use go_relay.Catalog.{find}
use go_relay.Engines.{EngineType}
use go_relay.Messages.Execution.{ExecutionRequest, empty_response, parse, parse_parts, index}
use go_relay.Messages.EnvBuilder.{CircuitRequest, find_command, fill_request, to_circuit_request}
use go_relay.Worker.Commands.{
  Effect, acquires, runs, releases, publishes, Surroundings, set_error, on_error,
  uses_dynamic_config, failure, run_command, use_environment, use_bundle, answer_request,
  execute_command,
}

abbrev pub taken : List Effect → ℕ
taken [] = 0
taken (acquires env ∷ es) = 1 + taken es
taken (e ∷ es) = taken es

abbrev pub ran : List Effect → ℕ
ran [] = 0
ran (runs env r ∷ es) = 1 + ran es
ran (e ∷ es) = ran es

abbrev pub returned : List Effect → ℕ
returned [] = 0
returned (releases env ∷ es) = 1 + returned es
returned (e ∷ es) = returned es

-- The topics that are published to.
abbrev pub topics : List Effect → List Text
topics [] = []
topics (publishes topic r ∷ es) = topic ∷ topics es
topics (e ∷ es) = topics es

-- One reply, on the topic that the request names, and no environment given back that was not taken,
-- nor run without being given back.
abbrev pub IsAnswered : Text → List Effect → Type 0
IsAnswered topic es =
    (topics es ≡ topic ∷ []) × (ran es ≡ returned es) × (returned es ≤ taken es) × (taken es ≤ 1)

on_error-Holds {ℓ κ ν} :
    {A : Type ℓ} {B : Type κ} (Q : B → Type ν) (failed : Text → B) (next : A → Outcome B)
    (m : Outcome A)
    → ((e : Text) → Q (failed e))
    → ((a : A) → Holds Q (next a))
    → Holds Q (on_error failed next m)
on_error-Holds Q failed next (ok a) f g = g a
on_error-Holds Q failed next (err e) f g = f e
on_error-Holds Q failed next panic f g = tt

module _ (w : Surroundings) (request : ExecutionRequest) where
  run_command-IsAnswered :
      (env : ℕ) (r : CircuitRequest) (found : Bool)
      → IsAnswered request.reply_to (acquires env ∷ run_command w request env r found)
  unfolding run_command
  run_command-IsAnswered env r true = (refl, refl, omega arith, omega arith)
  run_command-IsAnswered env r false = (refl, refl, omega arith, omega arith)

  answer_request-IsAnswered :
      (bundle : Option Bundle)
      → Holds (IsAnswered request.reply_to) (answer_request w request bundle)
  unfolding answer_request use_bundle use_environment
  answer_request-IsAnswered none = (refl, refl, omega arith, omega arith)
  answer_request-IsAnswered (some bundle) =
      let Q = IsAnswered request.reply_to in
      on_error-Holds Q _ _ (w.engine_for bundle) (λ e. (refl, refl, omega arith, omega arith))
        λ engine.
          on_error-Holds Q _ _ (w.new_environment engine request.pipeline_id bundle)
            (λ e. (refl, refl, omega arith, omega arith))
            λ env.
              on_error-Holds Q _ _
                (to_circuit_request request bundle w.extra (w.dynamic request)
                  (uses_dynamic_config (w.user_data env)))
                (λ e. (refl, refl, omega arith, omega arith))
                λ built. run_command-IsAnswered env built.0 built.1

reply_topic :
    (decoded : ExecutionRequest) → Holds (λ r. r.reply_to ≡ decoded.reply_to) (parse decoded)
unfolding parse parse_parts
reply_topic decoded =
    let Q = λ (r : ExecutionRequest). r.reply_to ≡ decoded.reply_to in
    let commands = split_n 2 b':' decoded.command in
    Holds-bind_eq Q (index commands 0) _ λ b _.
      Holds-bind_eq Q (index commands 1) _
        λ c _. Holds-bind_eq Q (index (split_n 5 b'/' decoded.reply_to) 3) _ λ p _. refl

-- Unless something panics, a request that decodes gets exactly one reply, on the topic that it
-- names; at most one environment is taken for it, and it is given back exactly if the command ran.
pub execute_command-IsAnswered :
    (w : Surroundings) (decoded : ExecutionRequest)
    → Holds (IsAnswered decoded.reply_to) (execute_command w (some decoded))
unfolding execute_command
execute_command-IsAnswered w decoded =
    Holds-bind (λ r. r.reply_to ≡ decoded.reply_to) (IsAnswered decoded.reply_to) (parse decoded) _
      (reply_topic decoded)
      λ r e.
        subst (λ t. Holds (IsAnswered t) (answer_request w r (find w.catalog r.bundle_name))) e
          (answer_request-IsAnswered w r (find w.catalog r.bundle_name))

not_found :
    (w : Surroundings) (request : ExecutionRequest) (bundle : Bundle) (use_dynamic : Bool)
    → lookup request.command_name bundle.commands ≡ none
    → to_circuit_request request bundle w.extra (w.dynamic request) use_dynamic
      ≡ err (lit "Command not found")
unfolding to_circuit_request
not_found w request bundle use_dynamic h =
    ap (λ o. find_command o >>= fill_request request w.extra (w.dynamic request) use_dynamic) h

-- A request for a command that its bundle does not have is answered by an error, and the environment
-- that was taken for it is not given back.
pub execute_command_leaks :
    (w : Surroundings) (decoded request : ExecutionRequest) (bundle : Bundle) (engine : EngineType)
    (env : ℕ)
    → parse decoded ≡ ok request
    → find w.catalog request.bundle_name ≡ some bundle
    → w.engine_for bundle ≡ ok engine
    → w.new_environment engine request.pipeline_id bundle ≡ ok env
    → lookup request.command_name bundle.commands ≡ none
    → execute_command w (some decoded)
      ≡ ok (
          acquires env
          ∷ publishes request.reply_to (set_error (lit "Command not found") empty_response)
          ∷ [])
unfolding execute_command answer_request use_bundle use_environment
execute_command_leaks w decoded request bundle engine env hp hb he hn hc =
    ap (λ m. m >>= λ r. answer_request w r (find w.catalog r.bundle_name)) hp
    ∙ ap (answer_request w request) hb
    ∙ ap
        (on_error (failure w request) λ a.
          on_error (failure w request) (use_environment w request bundle)
            (w.new_environment a request.pipeline_id bundle))
        he
    ∙ ap (on_error (failure w request) (use_environment w request bundle)) hn
    ∙ ap
        (on_error (λ e. acquires env ∷ failure w request e)
          (λ built. ok (acquires env ∷ run_command w request env built.0 built.1)))
        (not_found w request bundle (uses_dynamic_config (w.user_data env)) hc)
