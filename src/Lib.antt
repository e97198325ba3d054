-- ===== src/Lib.antt =====
-- Relay runs chat commands for Cog: it keeps a catalog of the bundles that Cog assigns to it,
-- announces the available ones over a message bus, and runs the commands of requests in Docker or
-- natively. This library models its parts and proves what makes them correct.
--
-- Base: what the parts share. A Go string is a list of bytes (Base.Strings), a map with string keys
--   an association list in the order of its iteration (Base.Maps), and a call that may return an
--   error or panic an `Outcome` (Base.Errors). Base.Decimal has fmt's %d and strconv.ParseUint; the
--   fuel n + 1 of `digits` is enough for n, since each digit divides by ten.
-- Catalog: relay/bundle/catalog.go. `replace` is Replace, made of `diff`, `remove_all` and
--   `add_all`; the epoch counts modulo 2^64 as a uint64 does. Catalog.Replace, Changes and Order
--   are about Replace, Catalog.Epochs about sequences of calls.
-- Announcer: relay/announcer.go. The state holds the goroutine's place in its loop, the channel of
--   two commands, the timers and the announcements published. Each function is one step of the
--   loop (`loop_step`), of a timer (`expire_from`, `fire`, `fire_orphan`, `resend`), of a sender that
--   waits for room in the channel (`admit_from`) or of the bus (`cog_receipt`);
--   Announcer.Steps composes them, and the catalog's calls between them, in any order.
-- Worker.Output: relay/worker/output_parser_v1.go, from the scan of the output's lines to the reply.
-- Worker.Commands: relay/worker/execution.go. `execute_command` lists what executeCommand does to
--   the environments and the bus; Worker.Loop is ExecutionWorker, which takes requests off the queue.
-- Messages: relay/messages. Value has the decoded JSON values, Execution the request with its names
--   (Parse), EnvBuilder the variables of a command (compileEnvironment, ToCircuitRequest),
--   Directives the messages to and from Cog, Wire the JSON of what the relay publishes, by the tags
--   of the structs; Wire.Reading reads it back and Wire.Schema gives its shape.
-- Config: relay/config. Bundle has bundle_config.go, Settings the engines and the extra variables of
--   config.go and execution_info.go, DynamicConfig the layers of dynamic_config.go, Loading the way
--   from the file to the configuration (config.go's populate, raw.go, loader.go) over the types of
--   Infos (config.go, cog_info.go, docker_info.go, execution_info.go), Durations the intervals.
-- Engines: relay/engines. EnvCache is env_cache.go; Engines chooses an engine, takes an environment
--   from the cache or the driver, gives it back, and cleans up (engines.go, docker.go, native.go).
--   Engines.Workers runs these operations of both engines for several workers.
--   Engines.Docker is the rest of docker.go, over the Docker client of Engines.Docker.Daemon: an
--   action threads the engine and the daemon's state, and keeps what it changed when it fails;
--   Engines.Docker.Environments has Init with the driver's container, and new environments.
-- Versions: relay/bundle/version_list.go, over an interface of the semver library and package sort.
-- Updater: relay/dynamic_config.go. `update_configs` is updateConfigs on the disk of Updater.Files,
--   whose operations may each fail; Updater.Session is the updater with its connection and timer, and
--   Updater.Running about what happens to it.
-- Bus: relay/bus. Backoff is backoff.go, Connection the types of connection.go, Mqtt mqtt.go. The
--   loop of Connect runs on fuel: one unit for each attempt, so n + 1 are enough for n failures.
-- Relay: relay/relay.go. Relay itself has updateCatalog and refreshBundles, Relay.Session the bus
--   events, the directives, the timers and the commands, Relay.Lifecycle the start and the stop; they
--   call the announcer, the updater and the connection. Relay.Events has all that can happen to a
--   running relay as a relation between its states, Relay.Serving, Listing and Reached are about
--   the states that it reaches, Relay.Interrupted and Started about a stop in them.
--   Relay.Images asks the Docker engine for the bundles' images, which Relay takes as a parameter.
-- Startup: main.go, from the flags to a relay that is online; Startup.Process goes on over the signals
--   to the shutdown.
--
-- How the parts meet: an update replaces the catalog's contents and asks the engines for the bundles'
-- images; the announcer reads the catalog and acks its epochs; a request finds its bundle in the
-- catalog, gets its variables from the environment builder, which takes what the dynamic
-- configuration and the settings made, and is answered by the output parser. Connecting calls the
-- relay's handler, which makes the announcer and the updater, subscribes to the directives and the
-- commands and asks for the bundles; main starts the relay with the configuration it has loaded.
--
-- Parameters stand for what is not in the repository's own code: the decoders of JSON and YAML, the
-- struct validator, the file system, path.Join, the circuit driver and the Docker client; `utf8` is
-- what json.Marshal makes of a text that is not valid UTF-8. Logging
-- has no effect on the models, but for the log of a command's output, which is returned.
--
-- Not modelled: what the profiles of main.go hold, the parsing of its flags, and the choice of the
-- JSON decoder (relay/util/json.go).
-- Times are numbers, and so are ports and limits, which are not negative; that the locks make each
-- step atomic is taken from the code, not proved.
pub mod Base
pub mod Bus
pub mod Config
pub mod Catalog
pub mod Messages
pub mod Announcer
pub mod Engines
pub mod Relay
pub mod Updater
pub mod Versions
pub mod Startup
pub mod Worker
