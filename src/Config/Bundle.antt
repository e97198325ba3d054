-- ===== src/Config/Bundle.antt =====
-- relay/config/bundle_config.go. A Go pointer that may be nil is an `Option`; the decoder of
-- encoding/json and the struct validator of govalidator are parameters of the parser.
pub mod Parsed
mod Tests
use go_relay.Base.{
  ℕ, ◌≡◌, Bool, true, false, not, ◌||◌, Option, none, some, List, [], ◌∷◌, ◌++◌, Text, lit, text_eq,
  Table, Outcome, ok, err, panic, ◌>>=◌, if◌then◌else◌,
}

pub record DockerImage : Type 0 where
  pub image : Text
  pub tag : Text
  pub binds : List Text

pub record BundleCommandOption : Type 0 where
  pub name : Text
  pub type : Text
  pub description : Text
  pub required : Bool
  pub short_flag : Text

pub record BundleCommand : Type 0 where
  pub name : Text
  pub executable : Text
  pub options : Table (Option BundleCommandOption)
  pub rules : List Text
  pub env_vars : Table Text

pub record BundleTemplate : Type 0 where
  pub name : Text
  pub slack : Text
  pub hip_chat : Text
  pub irc : Text

-- `bundle_version` is a format number that the program stores and never computes with.
pub record Bundle : Type 0 where
  pub bundle_version : ℕ
  pub name : Text
  pub version : Text
  pub permissions : List Text
  pub docker : Option DockerImage
  pub commands : Table (Option BundleCommand)
  pub templates : Table (Option BundleTemplate)
  pub available : Bool

abbrev is_some {ℓ} : {A : Type ℓ} → Option A → Bool
is_some none = false
is_some (some a) = true

unfoldable pub is_docker : Bundle → Bool
is_docker b = is_some b.docker

unfoldable pub is_available : Bundle → Bool
is_available b = b.available

unfoldable pub set_available : Bool → Bundle → Bundle
set_available flag b = record b { available = flag }

abbrev tag_of : Option DockerImage → Text
tag_of none = []
tag_of (some d) = d.tag

unfoldable pub needs_refresh : Bundle → Bool
unfolding is_docker
needs_refresh b =
    if is_docker b
    then text_eq (tag_of b.docker) (lit "latest") || not b.available
    else not b.available

unfoldable pub pretty_image_name : DockerImage → Text
pretty_image_name di = di.image ++ (lit ":" ++ di.tag)

-- Go's `a && b` chain of two validations, the second only for Docker bundles.
module _ (valid_bundle : Bundle → Outcome (Unit {0}))
    (valid_docker : DockerImage → Outcome (Unit {0})) where
  unfoldable pub validate_bundle_config : Bundle → Outcome (Unit {0})
  validate_bundle_config b = do
    _ ← valid_bundle b
    elim b.docker [ none ↦ ok tt | some d ↦ valid_docker d ]

-- `option.Name = optname` through a nil pointer panics.
unfoldable pub name_options :
    Table (Option BundleCommandOption) → Outcome (Table (Option BundleCommandOption))
name_options [] = ok []
name_options ((k, none) ∷ m) = panic
name_options ((k, some o) ∷ m) = do
  rest ← name_options m
  ok ((k, some (record o { name = k })) ∷ rest)

unfoldable pub name_commands : Table (Option BundleCommand) → Outcome (Table (Option BundleCommand))
name_commands [] = ok []
name_commands ((k, none) ∷ m) = panic
name_commands ((k, some c) ∷ m) = do
  options ← name_options c.options
  rest ← name_commands m
  ok ((k, some (record c { options = options; name = k })) ∷ rest)

unfoldable pub name_templates :
    Table (Option BundleTemplate) → Outcome (Table (Option BundleTemplate))
name_templates [] = ok []
name_templates ((k, none) ∷ m) = panic
name_templates ((k, some t) ∷ m) = do
  rest ← name_templates m
  ok ((k, some (record t { name = k })) ∷ rest)

module _ (unmarshal : Text → Outcome Bundle) (valid_bundle : Bundle → Outcome (Unit {0}))
    (valid_docker : DockerImage → Outcome (Unit {0})) where
  unfoldable pub parse_bundle_config : Text → Outcome Bundle
  parse_bundle_config input = do
    result ← unmarshal input
    _ ← validate_bundle_config valid_bundle valid_docker result
    commands ← name_commands result.commands
    templates ← name_templates result.templates
    ok (record result { commands = commands; templates = templates })
