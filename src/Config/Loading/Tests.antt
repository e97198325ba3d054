-- ===== src/Config/Loading/Tests.antt =====
-- A file that turns the managed configuration off, and an environment that names a log level.
use go_relay.Base.{
  ℕ, ◌≡◌, refl, Bool, true, false, Option, none, some, [], Text, lit, text_eq, Outcome, ok, Holds,
  if◌then◌else◌,
}
use go_relay.Config.Infos.{Config, empty_config, DockerInfo}
use go_relay.Config.Settings.{parse_extra_env}
use go_relay.Config.Loading.{parse, populate}
use go_relay.Config.Loading.Parsed.{IsFinished, parse-IsFinished}

abbrev getenv : Text → Text
getenv name = if text_eq name (lit "RELAY_LOG_LEVEL") then lit "debug" else []

abbrev parse_int : Text → Option ℕ
parse_int t = none

abbrev file : Config
file = record empty_config { version = 1; managed_dynamic_config = false; log_path = lit "stderr" }

abbrev managed_of : Outcome Config → Option Bool
managed_of (ok c) = some c.managed_dynamic_config
managed_of _ = none

still_managed : managed_of (populate getenv parse_int file) ≡ some true
unfolding populate text_eq parse_extra_env
still_managed = refl

abbrev decode : Text → Outcome Config
decode raw = ok file

abbrev validate : Config → Option Text
validate c = none

abbrev validate_docker : DockerInfo → Option Text
validate_docker d = none

parse_file :
    Holds
      (IsFinished validate validate_docker)
      (parse decode getenv parse_int validate validate_docker (lit "0.14") (lit "version: 1"))
unfolding text_eq
parse_file =
    parse-IsFinished decode getenv parse_int validate validate_docker (lit "0.14")
      (lit "version: 1") refl
