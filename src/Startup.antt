-- ===== src/Startup.antt =====
-- main.go: from the command line to a running relay. An exit of the process is a value; what
-- the profiles hold is left.
pub mod Messages
pub mod Online
pub mod Process
pub mod Ending
mod Tests
use go_relay.Base.{
  ℕ, Bool, true, false, not, ◌&&◌, ◌||◌, Option, none, some, List, [], ◌∷◌, ◌++◌, Text, lit,
  text_eq, split, join, Outcome, ok, err, panic, ◌>>=◌, if◌then◌else◌,
}
use go_relay.Config.Infos.{Config, empty_cog, empty_docker, or_empty, CogInfo, DockerInfo}
use go_relay.Config.Settings.{docker_enabled, native_enabled, verify}
use go_relay.Messages.Directives.{Announcement}
use go_relay.Relay.Session.{Settings}

abbrev pub config_locations : List Text
config_locations = lit "/etc/relay.conf" ∷ lit "/usr/local/etc/relay.conf" ∷ []

abbrev is_version_flag : Text → Bool
is_version_flag arg =
    text_eq arg (lit "-v") || text_eq arg (lit "--version") || text_eq arg (lit "-version")

-- What is printed before the process exits with 0, if a flag asks for it.
unfoldable pub display_version_info : Text → Text → Text → List Text → Option Text
display_version_info hash tag stamp [] = none
display_version_info hash tag stamp (arg ∷ args) =
    let rest = display_version_info hash tag stamp args in
    if is_version_flag arg
    then some (
        lit "Git commit: "
        ++ hash
        ++ lit "\nGit tag: "
        ++ (if text_eq tag [] then lit "<None>" else tag)
        ++ lit "\nBuild timestamp: "
        ++ stamp
        ++ lit " UTC\n")
    else rest

pub data Output : Type 0 where
  to_stderr to_stdout : Output
  to_file : Text → Output

pub data Level : Type 0 where
  debug_level info_level warn_level error_level : Level

pub record Logger : Type 0 where
  pub json : Bool
  pub output : Output
  pub level : Level

-- `opens` tells whether the file can be opened for appending: if not, the code panics.
abbrev pub output_of : (Text → Bool) → Text → Outcome Output
output_of opens path =
    if text_eq path (lit "stderr")
    then ok to_stderr
    else if text_eq path (lit "console") || text_eq path (lit "stdout")
    then ok to_stdout
    else if opens path
    then ok (to_file path)
    else panic

abbrev pub level_of : Text → Level
level_of level =
    if text_eq level (lit "debug")
    then debug_level
    else if text_eq level (lit "info")
    then info_level
    else if text_eq level (lit "warn")
    then warn_level
    else if text_eq level (lit "err") || text_eq level (lit "error")
    then error_level
    else info_level

-- The formatter is only ever switched to JSON.
unfoldable pub configure_logger : (Text → Bool) → Config → Bool → Outcome Logger
configure_logger opens c json = do
  output ← output_of opens c.log_path
  ok (record { json = c.log_json || json; output = output; level = level_of c.log_level })

-- The first file that loads, or an empty text.
unfoldable pub try_loading_config : (Text → Outcome Text) → List Text → Text
try_loading_config load [] = []
try_loading_config load (location ∷ locations) =
    let rest = try_loading_config load locations in
    elim (load location) [ ok raw ↦ raw | err e ↦ rest | panic ↦ rest ]

abbrev pub nonempty : List Text → List Text
nonempty [] = []
nonempty ([] ∷ msgs) = nonempty msgs
nonempty ((b ∷ msg) ∷ msgs) = (b ∷ msg) ∷ nonempty msgs

-- The loop over the messages: `count` is the index of the last one.
unfoldable pub add_messages : Text → List Text → Text
add_messages log_message [] = log_message
add_messages log_message (msg ∷ []) = log_message ++ (lit "  " ++ msg)
add_messages log_message (msg ∷ next ∷ msgs) =
    add_messages (log_message ++ (lit "  " ++ (msg ++ lit "\n"))) (next ∷ msgs)

unfoldable pub error_message : Text → Text
unfolding add_messages
error_message e = add_messages [] (nonempty (split e b';'))

-- An exit with its code and the error that is logged.
pub data Started {ℓ} (A : Type ℓ) : Type ℓ where
  exits : ℕ → Text → Started A
  panics : Started A
  goes_on : A → Started A

abbrev pub bad_config : ℕ
bad_config = 1

abbrev pub and_then {ℓ κ} : {A : Type ℓ} {B : Type κ} → Started A → (A → Started B) → Started B
and_then (exits code e) f = exits code e
and_then panics f = panics
and_then (goes_on a) f = f a

abbrev pub logged : Config → Outcome Logger → Started (Config × Logger)
logged c (ok logger) = goes_on (c, logger)
logged c (err e) = panics
logged c panic = panics

-- What Parse returned: a configuration without an error is used.
abbrev pub prepared :
    (Text → Bool) → Bool → Outcome (Config × Option Text) → Started (Config × Logger)
prepared opens dev_mode (ok (c, none)) =
    (let c' = record c { dev_mode = dev_mode } in logged c' (configure_logger opens c' false))
prepared opens dev_mode (ok (c, some e)) = exits bad_config (error_message e)
prepared opens dev_mode (err e) = exits bad_config (error_message e)
prepared opens dev_mode panic = panics

-- The command line's flags.
pub record Flags : Type 0 where
  pub file : Text
  pub cpuprofile : Text
  pub memprofile : Text
  pub dev : Bool

abbrev pub locations_of : Text → List Text
locations_of [] = config_locations
locations_of (b ∷ file) = (b ∷ file) ∷ []

-- The file of a profile, where one is asked for: `creates` gives the error of os.Create, which ends
-- the process.
abbrev pub creates_profile : (Text → Option Text) → Text → Started (Unit {0})
creates_profile creates [] = goes_on tt
creates_profile creates (b ∷ path) = elim (creates (b ∷ path)) [
  | none ↦ goes_on tt
  | some e ↦ exits 1 e
]

-- `load` is LoadConfig and `parse` is Parse with the build's driver tag.
module _ (load : Text → Outcome Text) (parse : Text → Outcome (Config × Option Text))
    (opens : Text → Bool) where
  unfoldable pub prepare : Flags → Started (Config × Logger)
  unfolding configure_logger error_message try_loading_config
  prepare flags =
      prepared opens flags.dev (parse (try_loading_config load (locations_of flags.file)))

  module _ {R : Type 0} (join_path : Text → Text → Text) (start : Config → Outcome R) where
    abbrev pub verified : Config → Outcome Text → Started Config
    verified c (ok root) = goes_on (record c { dynamic_config_root = root })
    verified c (err e) = exits bad_config e
    verified c panic = panics

    abbrev pub started : Config → Logger → Outcome R → Started (Config × (Logger × R))
    started c logger (ok relay) = goes_on (c, (logger, relay))
    started c logger (err e) = exits 1 e
    started c logger panic = panics

    -- Up to the wait for the interrupt, with the logger and the relay that Start leaves.
    unfoldable pub main : (Text → Option Text) → Flags → Started (Config × (Logger × R))
    unfolding prepare
    main creates flags = and_then (prepare flags) (λ (c, logger).
        and_then
          (and_then (creates_profile creates flags.cpuprofile)
            (λ u. creates_profile creates flags.memprofile))
          (λ u.
            and_then
              (verified c (
                verify join_path c.parsed_engines_enabled c.managed_dynamic_config
                  c.dynamic_config_root))
              (λ c'. started c' logger (start c'))))
