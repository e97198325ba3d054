-- ===== src/Engines/Docker/Environments.antt =====
-- relay/engines/docker.go: the driver's container, which Init creates, and new environments.
use go_relay.Base.{
  ℕ, ◌*◌, false, not, Option, none, some, [], ◌∷◌, Text, lit, Outcome, ok, panic, if◌then◌else◌,
}
use go_relay.Config.Bundle.{Bundle, DockerImage}
use go_relay.Config.Infos.{DockerInfo}
use go_relay.Engines.Docker.{
  Docker, DockerEngine, Act, ContainerConfig, EnvironmentOptions, ◌>>=◌, return, fail, of_outcome,
  caught, get_engine, request, client, driver, full_name, short_image_id, new_client,
  ensure_connected, inspect, attempt_auth, pull_image, is_available,
}

abbrev pub megabyte : ℕ
megabyte = 1024 * 1024

abbrev pub relay_created_label : Text
relay_created_label = lit "io.operable.cog.relay.create"

abbrev pub driver_instance : Text
driver_instance = lit "cog-circuit-driver"

module _ {C D : Type 0} (docker : Docker C D) where
  unfoldable pub remove_container : Text → Act C D (Unit {0})
  remove_container id = do c ← client docker; request (docker.remove_container c id)

  abbrev pub driver_config : DockerInfo → ContainerConfig
  driver_config config = record {
    name = driver_instance;
    image = full_name driver config.command_driver_version;
    cmd = lit "/bin/date" ∷ [];
    labels = (relay_created_label, lit "yes") ∷ [];
    memory = 4 * megabyte;
    privileged = false;
  }

  unfoldable pub create_circuit_driver : Act C D (Unit {0})
  unfolding ensure_connected remove_container is_available
  create_circuit_driver = do
    _ ← ensure_connected docker
    _ ← caught (remove_container driver_instance)
    e ← get_engine
    available ← is_available docker driver e.config.command_driver_version
    (if not available
        then fail (lit "Command driver image is unavailable")
        else (do c ← client docker; request (docker.create_container c (driver_config e.config))))

  unfoldable pub init : Act C D (Unit {0})
  unfolding create_circuit_driver
  init = create_circuit_driver

  -- The bundle's image is read unchecked: nil panics.
  abbrev pub image_of : Option DockerImage → Outcome DockerImage
  image_of none = panic
  image_of (some image) = ok image

  abbrev pub refresh_image : DockerImage → Act C D (Unit {0})
  refresh_image image = do
    let name = full_name image.image image.tag
    _ ← attempt_auth docker
    _ ← pull_image docker name
    id ← inspect docker name
    short ← of_outcome (short_image_id id)
    return tt

  unfoldable pub developer_mode_refresh : Bundle → Act C D (Unit {0})
  unfolding ensure_connected attempt_auth pull_image
  developer_mode_refresh bundle = do
    e ← get_engine
    (if e.dev_mode
        then (do
          _ ← ensure_connected docker
          image ← of_outcome (image_of bundle.docker)
          refresh_image image)
        else return tt)

  abbrev pub environment_options : DockerEngine C → C → Bundle → DockerImage → EnvironmentOptions C
  environment_options e c bundle image = record {
    bundle = bundle.name;
    conn = c;
    image = image.image;
    tag = image.tag;
    binds = image.binds;
    driver_instance = driver_instance;
    driver_path = lit "/operable/circuit/bin/circuit-driver";
    memory = e.container_memory * megabyte;
  }

  unfoldable pub new_environment : Bundle → Act C D ℕ
  unfolding developer_mode_refresh new_client
  new_environment bundle = do
    _ ← developer_mode_refresh bundle
    e ← get_engine
    c ← new_client docker e.config
    image ← of_outcome (image_of bundle.docker)
    request (docker.create_environment (environment_options e c bundle image))
