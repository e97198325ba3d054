-- ===== src/Messages/EnvBuilder/Tests.antt =====
-- The environment of a small request.
use go_relay.Base.{
  ◌≡◌, refl, ap, ◌∙◌, inl, inr, Bool, Bool-cases, if_no, text_eq_iff, true, false, none, some, [],
  ◌∷◌, Text, lit, text_eq, show_nat, lookup, has_prefix, arith, Holds,
}
use go_relay.Config.Bundle.{BundleCommand}
use go_relay.Config.Settings.{is_reserved}
use go_relay.Messages.Value.{null, str, number, show}
use go_relay.Messages.Execution.{ExecutionRequest}
use go_relay.Messages.EnvBuilder.{Env, argument_env, compile_environment}
use go_relay.Messages.EnvBuilder.Arguments.{lookup-argument_env}
use go_relay.Messages.EnvBuilder.Layers.{is_panic, compile_environment_panics}
use go_relay.Messages.EnvBuilder.Visible.{AllVisible, own_variables, compile_environment-AllVisible}

abbrev request : ExecutionRequest
request = record {
  options = (lit "n", null) ∷ [];
  args = str (lit "x") ∷ number (lit "7") ∷ [];
  cog_env = null;
  invocation_id = [];
  invocation_step = [];
  command = lit "foo:bar";
  reply_to = [];
  requestor = record { id = null; handle = []; provider = [] };
  user = record { id = []; email = []; first_name = []; last_name = []; username = [] };
  room = record { name = lit "ops" };
  service_token = [];
  services_root = [];
  bundle_name = lit "foo";
  command_name = lit "bar";
  pipeline_id = lit "1";
}

abbrev command : BundleCommand
command = record {
  name = lit "bar";
  executable = lit "/bin/bar";
  options = [];
  rules = [];
  env_vars = [];
}

lookup-argument_env_example :
    (lookup (lit "COG_ARGV_1") (argument_env request.args) ≡ some (lit "7"))
    × (lookup (lit "COG_ARGC") (argument_env request.args) ≡ some (lit "2"))
unfolding show_nat show
lookup-argument_env_example = lookup-argument_env request.args 1 (omega arith) (omega arith)

abbrev layer : Env
layer = (lit "REGION", lit "eu") ∷ []

abbrev plain : ExecutionRequest
plain = record request { options = [] }

layer-IsOpen : (k : Text) → is_reserved k ≡ true → lookup k layer ≡ none
unfolding is_reserved has_prefix lookup
layer-IsOpen k h = elim (Bool-cases (text_eq (lit "REGION") k)) [
  | inl b ↦
      let clash : false ≡ true = ap is_reserved ((text_eq_iff (lit "REGION") k).0 b) ∙ h in cc clash
  | inr b ↦ if_no _ _ b
]

nothing-IsOpen : (k : Text) → is_reserved k ≡ true → lookup {V = Text} k [] ≡ none
unfolding lookup
nothing-IsOpen k h = refl

compile_environment-AllVisible_example :
    Holds
      (λ (r : Env × Bool). AllVisible r.0 (own_variables plain))
      (compile_environment plain command (some layer) layer true)
compile_environment-AllVisible_example =
    compile_environment-AllVisible plain command layer layer true nothing-IsOpen layer-IsOpen
      layer-IsOpen

null_option : is_panic (compile_environment request command none [] true) ≡ true
null_option = compile_environment_panics request command none [] true
