-- ===== src/Worker/Commands/Tests.antt =====
-- A request for a command that the bundle has, and one for a command that it lacks.
use go_relay.Base.{◌≡◌, refl, true, none, some, [], ◌∷◌, lit, ok, Holds, lookup, text_eq, split_n}
use go_relay.Config.Bundle.{Bundle}
use go_relay.Catalog.{find}
use go_relay.Engines.{native_engine_type}
use go_relay.Messages.Value.{null}
use go_relay.Messages.Execution.{ExecutionRequest, empty_response, parse}
use go_relay.Worker.Output.Lines.{all_matchers}
use go_relay.Worker.Commands.{acquires, publishes, Surroundings, set_error, execute_command}
use go_relay.Worker.Commands.Effects.{IsAnswered, execute_command-IsAnswered, execute_command_leaks}

abbrev bundle : Bundle
bundle = record {
  bundle_version = 4;
  name = lit "foo";
  version = lit "1.0.0";
  permissions = [];
  docker = none;
  commands = [];
  templates = [];
  available = true;
}

abbrev decoded : ExecutionRequest
decoded = record {
  options = [];
  args = [];
  cog_env = null;
  invocation_id = [];
  invocation_step = [];
  command = lit "foo:bar";
  reply_to = lit "/bot/pipelines/1/reply";
  requestor = record { id = null; handle = []; provider = [] };
  user = record { id = []; email = []; first_name = []; last_name = []; username = [] };
  room = record { name = [] };
  service_token = [];
  services_root = [];
  bundle_name = [];
  command_name = [];
  pipeline_id = [];
}

abbrev request : ExecutionRequest
request = record decoded {
  bundle_name = lit "foo";
  command_name = lit "bar";
  pipeline_id = lit "1";
}

abbrev surroundings : Surroundings
surroundings = record {
  catalog = record { last_acked = 0; epoch = 1; bundles = (lit "foo", bundle) ∷ [] };
  engine_for = λ b. ok native_engine_type;
  new_environment = λ engine key b. ok 7;
  user_data = λ env. none;
  run = λ env r. (record { stdout = []; stderr = []; success = true }, none);
  extra = none;
  dynamic = λ r. [];
  matchers = all_matchers;
  decode = λ s. none;
}

execute_command-IsAnswered_example :
    Holds (IsAnswered (lit "/bot/pipelines/1/reply")) (execute_command surroundings (some decoded))
execute_command-IsAnswered_example = execute_command-IsAnswered surroundings decoded

leaked :
    execute_command surroundings (some decoded)
    ≡ ok (
        acquires 7
        ∷ publishes
            (lit "/bot/pipelines/1/reply")
            (set_error (lit "Command not found") empty_response)
        ∷ [])
unfolding parse split_n find lookup text_eq
leaked =
    execute_command_leaks surroundings decoded request bundle native_engine_type 7 refl refl refl
      refl refl
