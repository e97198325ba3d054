-- ===== src/Config/Bundle/Tests.antt =====
-- Bundles at work.
use go_relay.Base.{◌≡◌, refl, false, none, some, [], ◌∷◌, lit, Outcome, ok}
use go_relay.Config.Bundle.{
  Bundle, BundleCommand, validate_bundle_config, name_options, name_commands, name_templates,
  parse_bundle_config,
}
use go_relay.Config.Bundle.Parsed.{IsParsed, parse_bundle_config-IsParsed}

abbrev raw_command : BundleCommand
raw_command = record {
  name = [];
  executable = lit "/bin/echo";
  options = [];
  rules = [];
  env_vars = [];
}

abbrev named_command : BundleCommand
named_command = record raw_command { name = lit "echo" }

abbrev raw_bundle : Bundle
raw_bundle = record {
  bundle_version = 4;
  name = lit "test";
  version = lit "0.1.0";
  permissions = [];
  docker = none;
  commands = (lit "echo", some raw_command) ∷ [];
  templates = [];
  available = false;
}

abbrev accept {ℓ} : {A : Type ℓ} → A → Outcome (Unit {0})
accept a = ok tt

parsed :
    parse_bundle_config (λ _. ok raw_bundle) accept accept []
    ≡ ok (record raw_bundle { commands = (lit "echo", some named_command) ∷ [] })
unfolding parse_bundle_config validate_bundle_config name_commands name_options name_templates
parsed = refl

parse_bundle_config-IsParsed_example :
    IsParsed
      (λ _. ok raw_bundle)
      accept
      accept
      []
      (record raw_bundle { commands = (lit "echo", some named_command) ∷ [] })
parse_bundle_config-IsParsed_example =
    parse_bundle_config-IsParsed (λ _. ok raw_bundle) accept accept [] _ parsed
