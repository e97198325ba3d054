-- ===== src/Messages/EnvBuilder.antt =====
-- relay/messages/env_builder.go and ToCircuitRequest of execution.go: the environment variables of
-- a command, as the list of the PutEnv calls on the driver's request, in their order.
pub mod Arguments
pub mod Layers
pub mod Visible
mod Tests
use go_relay.Base.{
  ℕ, suc, ◌+◌, ◌≡◌, Bool, true, false, Option, none, some, List, [], ◌∷◌, ◌++◌, Text, lit, text_eq,
  to_upper, show_nat, length, Table, lookup, Outcome, ok, err, panic, ◌>>=◌, if◌then◌else◌, ltb,
}
use go_relay.Config.Bundle.{Bundle, BundleCommand}
use go_relay.Messages.Value.{Value, Items, null, arr, nil, cons, show}
use go_relay.Messages.Execution.{ExecutionRequest}

abbrev pub Env : Type 0
Env = Table Text

-- The values of a list under numbered names, from a number on.
unfoldable pub numbered : Text → ℕ → List Value → Env
numbered name i [] = []
numbered name i (v ∷ vs) = (name ++ show_nat i, show v) ∷ numbered name (suc i) vs

abbrev pub values_of : Items → List Value
values_of nil = []
values_of (cons v vs) = v ∷ values_of vs

-- One option's variables. reflect.TypeOf has no type for a null, and asking for its kind panics.
unfoldable pub put_option : Text → Value → Outcome Env
unfolding numbered
put_option k null = panic
put_option k (arr items) =
    let name = lit "COG_OPT_" ++ to_upper k ++ lit "_" in
    let values = values_of items in
    ok ((name ++ lit "COUNT", show_nat (length values)) ∷ numbered name 0 values)
put_option k v = ok ((lit "COG_OPT_" ++ to_upper k, show v) ∷ [])

unfoldable pub put_options : Table Value → Text → Outcome (Env × Text)
unfolding put_option
put_options [] cog_opts = ok ([], cog_opts)
put_options ((k, v) ∷ options) cog_opts = do
  env ← put_option k v
  (rest, names) ← put_options options (if text_eq cog_opts [] then k else cog_opts ++ lit "," ++ k)
  ok (env ++ rest, names)

abbrev pub option_env : Table Value → Outcome Env
option_env [] = ok []
option_env ((k, v) ∷ options) = do
  (env, names) ← put_options ((k, v) ∷ options) []
  ok (env ++ (lit "COG_OPTS", names) ∷ [])

unfoldable pub argument_env : List Value → Env
unfolding numbered
argument_env args =
    numbered (lit "COG_ARGV_") 0 args ++ (lit "COG_ARGC", show_nat (length args)) ∷ []

unfoldable pub request_env : ExecutionRequest → Env
request_env er =
    (lit "COG_BUNDLE", er.bundle_name)
    ∷ (lit "COG_COMMAND", er.command_name)
    ∷ (lit "COG_ROOM", er.room.name)
    ∷ (lit "COG_CHAT_HANDLE", er.requestor.handle)
    ∷ (lit "COG_USERNAME", er.user.username)
    ∷ (lit "COG_EMAIL", er.user.email)
    ∷ (lit "COG_PIPELINE_ID", er.pipeline_id)
    ∷ (lit "COG_SERVICE_TOKEN", er.service_token)
    ∷ (lit "COG_SERVICES_ROOT", er.services_root)
    ∷ (lit "COG_INVOCATION_ID", er.invocation_id)
    ∷ (if text_eq er.invocation_step []
        then []
        else (lit "COG_INVOCATION_STEP", er.invocation_step) ∷ [])

abbrev pub own_env : ExecutionRequest → Env → Env
own_env er options = argument_env er.args ++ options ++ request_env er

abbrev pub extra_of : Option Env → Env
extra_of none = []
extra_of (some extra) = extra

-- compileEnvironment: `dynamic` is what LoadDynamicConfig answers, printed, and `extra` the parsed
-- extra variables of the execution settings, if there are such settings.
unfoldable pub compile_environment :
    ExecutionRequest → BundleCommand → Option Env → Env → Bool → Outcome (Env × Bool)
unfolding put_options argument_env request_env
compile_environment er command extra dynamic use_dynamic_config = do
  options ← option_env er.options
  let layer = if use_dynamic_config then dynamic else [] in
      let found = if use_dynamic_config then ltb 0 (length dynamic) else false in
      ok (own_env er options ++ command.env_vars ++ layer ++ extra_of extra, found)

-- An ExecRequest of the driver, as far as it is filled in.
pub record CircuitRequest : Type 0 where
  pub executable : Text
  pub env : Env
  pub stdin : Option Value

abbrev stdin_of : Value → Option Value
stdin_of null = none
stdin_of v = some v

-- bundle.Commands[name], where a missing key and a nil value are the same.
abbrev pub find_command : Option (Option BundleCommand) → Outcome BundleCommand
find_command (some (some command)) = ok command
find_command (some none) = err (lit "Command not found")
find_command none = err (lit "Command not found")

abbrev pub fill_request :
    ExecutionRequest → Option Env → Env → Bool → BundleCommand → Outcome (CircuitRequest × Bool)
fill_request er extra dynamic use_dynamic_config command = do
  (env, found) ← compile_environment er command extra dynamic use_dynamic_config
  ok (record { executable = command.executable; env = env; stdin = stdin_of er.cog_env }, found)

unfoldable pub to_circuit_request :
    ExecutionRequest → Bundle → Option Env → Env → Bool → Outcome (CircuitRequest × Bool)
unfolding compile_environment
to_circuit_request er bundle extra dynamic use_dynamic_config =
    find_command (lookup er.command_name bundle.commands)
    >>= fill_request er extra dynamic use_dynamic_config
