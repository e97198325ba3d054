-- ===== src/Startup/Ending.antt =====
-- From the command line to a clean end of the process.
use go_relay.Base.{
  ℕ, ◌<◌, ◌≡◌, refl, ◌∙◌, Bool, true, false, not, ◌&&◌, Option, none, some, List, [], ◌∷◌, ◌++◌,
  Text, Outcome, ok, err, panic, Returns, Returns-mono, length, All, arith, if◌then◌else◌,
}
use go_relay.Announcer.{unset, armed, new_announcer}
use go_relay.Bus.Mqtt.{ClientOptions, client_options}
use go_relay.Bus.Mqtt.Connects.{FailsThenSucceeds}
use go_relay.Config.Infos.{Config}
use go_relay.Config.Settings.{verify}
use go_relay.Messages.Directives.{Announcement}
use go_relay.Relay.Lifecycle.{Starting, stop, halt_announcer}
use go_relay.Relay.Running.{IsServed, IsTimed, first_connected, start_lem}
use go_relay.Relay.Session.{Settings, Relay, new_relay, relay_conn_opts, init_docker}
use go_relay.Relay.Started.{started_relay, started_relay-IsStoppable}
use go_relay.Relay.Stopping.{is_armed, is_refreshing, stop_lem}
use go_relay.Startup.{
  Started, exits, panics, goes_on, Logger, configure_logger, display_version_info, Flags,
  locations_of, try_loading_config, creates_profile, main,
}
use go_relay.Startup.Process.{
  Signal, hangup, interrupt, await_interrupt, Process, connecting, running, shut_down, finish,
  settings_of, start_relay, run,
}

-- Signals that ask to open the log file again.
abbrev pub hangups : List (Text → Bool) → List Signal
hangups [] = []
hangups (opens ∷ more) = hangup opens ∷ hangups more

configure_again :
    (opens again : Text → Bool) (c : Config) (logger : Logger)
    → configure_logger opens c false ≡ ok logger
    → again c.log_path ≡ true
    → configure_logger again c logger.json ≡ ok logger
unfolding configure_logger
configure_again opens again c logger e h = ground (arith, e, h)

await_lem :
    (opens : Text → Bool) (c : Config) (logger : Logger) (again : List (Text → Bool))
    (later : List Signal)
    → configure_logger opens c false ≡ ok logger
    → All (λ o. o c.log_path ≡ true) again
    → await_interrupt c (hangups again ++ interrupt ∷ later) logger ≡ ok (some logger)
unfolding await_interrupt
await_lem opens c logger [] later e h = refl
await_lem opens c logger (o ∷ again) later e (h, hs) =
    rw (configure_again opens o c logger e h) (await_lem opens c logger again later e hs)

-- The process has shut the relay down, with this logger.
abbrev pub Ends : (Logger → Relay → Type 0) → Started Process → Type 0
Ends P (exits code e) = ⊥
Ends P panics = ⊥
Ends P (goes_on connecting) = ⊥
Ends P (goes_on (running relay)) = ⊥
Ends P (goes_on (shut_down logger relay)) = P logger relay

-- What is left of the relay: only the clean-up timer, since no list of bundles has come.
abbrev pub IsStopped : Settings → Starting → Relay → Type 0
IsStopped s o r' =
    (is_armed r'.bundle_timer ≡ false)
    × (is_refreshing r'.updater ≡ false)
    × (r'.announcer ≡ halt_announcer (first_connected s o.answers).announcer)
    × (is_armed r'.clean_timer ≡ s.docker_enabled)

stop_started :
    (s : Settings) (o : Starting) → Returns (IsStopped s o) (stop s (started_relay s o.answers))
unfolding new_relay new_announcer
stop_started s o =
    Returns-mono _ (IsStopped s o) (stop s (started_relay s o.answers))
      (λ r' h. (h.0, h.1, h.2, h.3 ∙ still_armed s.docker_enabled))
      (let (clean, updater) = started_relay-IsStoppable s o.answers in
        stop_lem s (started_relay s o.answers) clean updater refl)
  where
    still_armed :
        (docker : Bool)
        → (is_armed (if docker then armed else unset) && not (docker && not true)) ≡ docker
    still_armed true = refl
    still_armed false = refl

finish_lem :
    (P : Relay → Type 0) (s : Settings) (r : Relay) (logger : Logger)
    → Returns P (stop s r)
    → Ends (λ logger' r'. (logger' ≡ logger) × P r') (finish s r (ok (some logger)))
finish_lem P s r logger h = by_stop (stop s r) h
  where
    by_stop :
        (m : Outcome Relay)
        → Returns P m
        → Ends
            (λ logger' r'. (logger' ≡ logger) × P r')
            (elim m [ ok r' ↦ goes_on (shut_down logger r') | err e ↦ panics | panic ↦ panics ])
    by_stop (ok r') h = (refl, h)
    by_stop (err e) h = elim h [ ]
    by_stop panic h = elim h [ ]

module _ {R : Type 0} (parse_duration : Text → Outcome ℕ) (will_body : Announcement → Text)
    (read_file : Text → Outcome Text) (append_certs : Text → Option R) (encode : Text → Text)
    (o : Starting) (load : Text → Outcome Text) (parse : Text → Outcome (Config × Option Text))
    (opens : Text → Bool) (join_path : Text → Text → Text) (creates : Text → Option Text)
    (hash tag stamp : Text) where
  profile_lem :
      (path : Text)
      → ((path : Text) → creates path ≡ none)
      → creates_profile creates path ≡ goes_on tt
  profile_lem [] h = refl
  profile_lem (b ∷ path) h = rw (creates_profile, h (b ∷ path)) refl

  -- A process without -version that finds a configuration which Parse accepts, that can open its log
  -- file and create the files of its profiles, whose configuration Verify accepts, and whose relay
  -- starts as in Relay.Running.start_lem, serves until the first interrupt: signals to open the log file
  -- again, where it can be opened, leave the logger as it is, and on the interrupt the process ends
  -- with its announcer sent its stop and no refresh timer armed. Where Docker is on, the clean-up timer stays
  -- armed, as Stop leaves it alone while no bundle timer was made.
  pub run-Ends :
      (args : List Text) (flags : Flags) (c : Config) (logger : Logger) (root : Text) (s : Settings)
      (client : ClientOptions R) (jitters : List ℕ) (fuel : ℕ) (again : List (Text → Bool))
      (later : List Signal)
      → display_version_info hash tag stamp args ≡ none
      → parse (try_loading_config load (locations_of flags.file)) ≡ ok (c, none)
      → configure_logger opens (record c { dev_mode = flags.dev }) false ≡ ok logger
      → ((path : Text) → creates path ≡ none)
      → verify join_path c.parsed_engines_enabled c.managed_dynamic_config c.dynamic_config_root
        ≡ ok root
      → settings_of parse_duration will_body
          (record c { dev_mode = flags.dev; dynamic_config_root = root })
        ≡ ok s
      → IsServed o.answers
      → IsTimed s
      → init_docker s o.docker_init ≡ ok tt
      → client_options read_file append_certs encode o.client_id (relay_conn_opts s) ≡ ok client
      → FailsThenSucceeds o.attempts 0 jitters
      → All (λ j. j < 4) jitters
      → length jitters < fuel
      → All (λ o'. o' c.log_path ≡ true) again
      → Ends
          (λ logger' r'. (logger' ≡ logger) × IsStopped s o r')
          (run parse_duration will_body read_file append_certs encode o fuel load parse opens
            join_path creates hash tag stamp args flags
            (hangups again ++ interrupt ∷ later))
  unfolding run main start_relay
  run-Ends args flags c logger root s client jitters fuel again later version parsed logs profiles
        verified settings v t d a f j l reopens =
      rw (version, parsed)
        (rw logs (
          rw (profile_lem flags.cpuprofile profiles, profile_lem flags.memprofile profiles)
            (rw verified (
              rw settings (
                rw (start_lem s read_file append_certs encode o client jitters fuel v t d a f j l) (
                  rw
                    (await_lem opens (record c { dev_mode = flags.dev; dynamic_config_root = root })
                      logger again later (unfold configure_logger in logs) reopens)
                    (finish_lem (IsStopped s o) s (started_relay s o.answers) logger
                      (stop_started s o))))))))
