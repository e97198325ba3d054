-- ===== src/Startup/Online.antt =====
-- What holds of a relay that comes online.
use go_relay.Config.Infos.{Config}
use go_relay.Base.{
  ◌≡◌, refl, Bool, true, false, ◌&&◌, ◌||◌, Option, none, [], Text, lit, text_eq, Outcome, ok, err,
  panic, if◌then◌else◌,
}
use go_relay.Config.Settings.{docker_enabled, native_enabled}
use go_relay.Startup.{
  Started, exits, panics, goes_on, logged, Logger, Flags, locations_of, try_loading_config,
}

abbrev pub IfOn {ℓ} : {A : Type ℓ} → (A → Type 0) → Started A → Type 0
IfOn P (exits code e) = Unit
IfOn P panics = Unit
IfOn P (goes_on a) = P a

-- What Verify lets through, and the root that it leaves.
abbrev pub IsVerified : (Text → Text → Text) → Config → Text → Type 0
IsVerified join_path c root =
    ((docker_enabled c.parsed_engines_enabled || native_enabled c.parsed_engines_enabled) ≡ true)
    × ((c.managed_dynamic_config && text_eq c.dynamic_config_root []) ≡ false)
    × (root ≡ (
        if c.managed_dynamic_config
        then join_path c.dynamic_config_root (lit "__managed__")
        else c.dynamic_config_root))

module _ (load : Text → Outcome Text) (parse : Text → Outcome (Config × Option Text))
    (opens : Text → Bool) where
  abbrev IsPrepared : Flags → Config × Logger → Type 0
  IsPrepared flags r =
      (c : Config) × (parse (try_loading_config load (locations_of flags.file)) ≡ ok (c, none))
      × (r.0 ≡ record c { dev_mode = flags.dev })

  logged_lem : (c : Config) (m : Outcome Logger) → IfOn (λ r. r.0 ≡ c) (logged c m)
  logged_lem c (ok logger) = refl
  logged_lem c (err e) = tt
  logged_lem c panic = tt

  module _ {R : Type 0} (join_path : Text → Text → Text) (start : Config → Outcome R) where
    -- What the relay that is online was configured with.
    abbrev pub IsOnline : Flags → Config × (Logger × R) → Type 0
    IsOnline flags (c', (logger, r)) =
        (c : Config) × (parse (try_loading_config load (locations_of flags.file)) ≡ ok (c, none))
        × IsVerified join_path c c'.dynamic_config_root
        × (c' ≡ record c { dev_mode = flags.dev; dynamic_config_root = c'.dynamic_config_root })
        × (start c' ≡ ok r)
