-- ===== src/Config/Durations.antt =====
-- The intervals of relay/config/config.go and docker_info.go, in the units of time.ParseDuration, which
-- is a parameter. Reading a nil pointer panics.
use go_relay.Base.{ℕ, Option, none, some, Text, Outcome, ok, err, panic, ◌>>=◌}
use go_relay.Config.Infos.{Config, DockerInfo}

abbrev pub deref {ℓ} : {A : Type ℓ} → Option A → Outcome A
deref none = panic
deref (some a) = ok a

abbrev or_panic : Outcome ℕ → Outcome ℕ
or_panic (ok duration) = ok duration
or_panic (err e) = panic
or_panic panic = panic

module _ (parse_duration : Text → Outcome ℕ) where
  unfoldable pub refresh_duration : Config → Outcome ℕ
  refresh_duration c = do cog ← deref c.cog; or_panic (parse_duration cog.refresh_interval)

  unfoldable pub managed_dynamic_config_refresh_duration : Config → Outcome ℕ
  managed_dynamic_config_refresh_duration c = or_panic (parse_duration c.dynamic_config_interval)

  unfoldable pub clean_duration : DockerInfo → Outcome ℕ
  clean_duration d = or_panic (parse_duration d.clean_interval)
