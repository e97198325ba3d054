-- ===== src/Startup/Process.antt =====
-- main.go as a whole: from the command line over the signals to the end of the process.
use go_relay.Base.{ℕ, Bool, Option, none, some, List, [], ◌∷◌, Text, Outcome, ok, err, panic, ◌>>=◌}
use go_relay.Catalog.{new_catalog}
use go_relay.Config.Durations.{
  deref, refresh_duration, managed_dynamic_config_refresh_duration, clean_duration,
}
use go_relay.Config.Infos.{Config}
use go_relay.Config.Settings.{docker_enabled, native_enabled}
use go_relay.Messages.Directives.{Announcement}
use go_relay.Relay.Lifecycle.{Starting, start, stop}
use go_relay.Relay.Session.{Settings, Relay, new_relay}
use go_relay.Startup.{
  Started, exits, panics, goes_on, and_then, Logger, configure_logger, display_version_info, Flags,
  main,
}

-- A received signal; `hangup` comes with what opening files for appending answers at this time.
pub data Signal : Type 0 where
  hangup : (Text → Bool) → Signal
  interrupt : Signal

-- The loop over SIGHUP and the wait for SIGINT: the logger when the interrupt comes, `none` if it
-- has not come.
unfoldable pub await_interrupt : Config → List Signal → Logger → Outcome (Option Logger)
unfolding configure_logger
await_interrupt c [] logger = ok none
await_interrupt c (hangup opens ∷ signals) logger = do
  logger' ← configure_logger opens c logger.json
  await_interrupt c signals logger'
await_interrupt c (interrupt ∷ signals) logger = ok (some logger)

pub data Process : Type 0 where
  connecting : Process
  running : Relay → Process
  shut_down : Logger → Relay → Process

abbrev stopped : Logger → Outcome Relay → Started Process
stopped logger (ok relay) = goes_on (shut_down logger relay)
stopped logger (err e) = panics
stopped logger panic = panics

abbrev pub finish : Settings → Relay → Outcome (Option Logger) → Started Process
finish s relay (ok none) = goes_on (running relay)
finish s relay (ok (some logger)) = stopped logger (stop s relay)
finish s relay (err e) = panics
finish s relay panic = panics

-- The flag `-version` ends the process in init, before main.
abbrev pub inited : Option Text → Started (Unit {0})
inited none = goes_on tt
inited (some text) = exits 0 text

module _ (parse_duration : Text → Outcome ℕ) (will_body : Announcement → Text) where
  -- What the relay reads of the configuration; main's pointers are set by Parse.
  unfoldable pub settings_of : Config → Outcome Settings
  settings_of c = do
    cog ← deref c.cog
    ok (record {
      id = c.id;
      token = cog.token;
      host = cog.host;
      port = cog.port;
      ssl_enabled = cog.ssl_enabled;
      ssl_cert_path = cog.ssl_cert_path;
      docker_enabled = docker_enabled c.parsed_engines_enabled;
      native_enabled = native_enabled c.parsed_engines_enabled;
      managed_dynamic_config = c.managed_dynamic_config;
      dynamic_config_root = c.dynamic_config_root;
      refresh_duration = refresh_duration parse_duration c;
      dynamic_config_duration = managed_dynamic_config_refresh_duration parse_duration c;
      clean_duration = (do docker ← deref c.docker; clean_duration parse_duration docker);
      will_body = will_body;
    })

  module _ {R : Type 0} (read_file : Text → Outcome Text) (append_certs : Text → Option R)
      (encode : Text → Text) (surroundings : Starting) (fuel : ℕ) where
    -- NewRelay and Start.
    unfoldable pub start_relay : Config → Outcome (Settings × Option Relay)
    unfolding settings_of
    start_relay c = do
      s ← settings_of c
      relay ← start s read_file append_certs encode surroundings fuel (new_relay new_catalog)
      ok (s, relay)

    abbrev pub serve : List Signal → Config × (Logger × (Settings × Option Relay)) → Started Process
    serve signals (c, (logger, (s, none))) = goes_on connecting
    serve signals (c, (logger, (s, some relay))) = finish s relay (await_interrupt c signals logger)

    module _ (load : Text → Outcome Text) (parse : Text → Outcome (Config × Option Text))
        (opens : Text → Bool) (join_path : Text → Text → Text) (creates : Text → Option Text)
        (hash tag stamp : Text) where
      unfoldable pub run : List Text → Flags → List Signal → Started Process
      unfolding main start_relay await_interrupt stop display_version_info
      run args flags signals = and_then (inited (display_version_info hash tag stamp args)) (λ u.
          and_then (main load parse opens join_path start_relay creates flags) (serve signals))
