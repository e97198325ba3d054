-- ===== src/Engines/Docker.antt =====
-- relay/engines/docker.go: finding, pulling and replacing images. The Docker client and the daemon
-- behind it, with the state `D`, are an interface; `C` is the type of clients.
pub mod Daemon
pub mod Found
pub mod Environments
pub mod Available
pub mod Sparing
pub mod Shared
pub mod Driver
mod Tests
pub use Daemon.*
use go_relay.Base.{
  ℕ, ◌*◌, ltb, Bool, true, false, not, ◌&&◌, ◌||◌, Option, none, some, List, [], ◌∷◌, ◌++◌, Text,
  lit, text_eq, split, length, take, Outcome, ok, err, panic, if◌then◌else◌, Table,
}
use go_relay.Config.Bundle.{Bundle, DockerImage}
use go_relay.Config.Infos.{Config, DockerInfo}

abbrev pub driver : Text
driver = lit "operable/circuit-driver"

abbrev pub full_name : Text → Text → Text
full_name name meta = name ++ (lit ":" ++ meta)

-- The first eleven bytes, which panics on fewer.
abbrev pub first_eleven : Text → Outcome Text
first_eleven t = if ltb (length t) 11 then panic else ok (take 11 t)

unfoldable pub short_image_id : Text → Outcome Text
short_image_id id = elim (split id b':') [
  | [] ↦ panic
  | chunk ∷ [] ↦ first_eleven chunk
  | chunk ∷ digest ∷ chunks ↦ first_eleven digest
]

unfoldable pub make_auth_config : DockerInfo → Option AuthConfig
make_auth_config config =
    if text_eq config.registry_user []
      || text_eq config.registry_password []
      || text_eq config.registry_email []
    then none
    else some (record {
      server_address = config.registry_host;
      username = config.registry_user;
      password = config.registry_password;
      email = config.registry_email;
    })

-- GetEngine makes an engine without a client at each call. A nil pointer panics.
unfoldable pub new_docker_engine : {C : Type 0} → Config → Outcome (DockerEngine C)
new_docker_engine c = elim c.docker [
  | none ↦ panic
  | some info ↦ ok (record {
    client = none;
    config = info;
    dev_mode = c.dev_mode;
    container_memory = info.container_memory;
    auth = [];
  })
]

module _ {C D : Type 0} (docker : Docker C D) where
  abbrev pub api_version_of : Outcome Text → C → C
  api_version_of (ok version) c =
      let server = if text_eq version [] then lit "1.24" else version in
      if docker.version_less_than server (docker.client_version c)
      then docker.update_client_version server c
      else c
  api_version_of (err e) c = c
  api_version_of panic c = c

  unfoldable pub new_client : DockerInfo → Act C D C
  new_client config = do
    c ← ask (λ d.
        if config.use_env
        then docker.new_env_client d
        else docker.new_client config.socket_path
            (if text_eq docker.api_version [] then docker.default_version else docker.api_version)
            d)
    ping ← caught (ask (docker.ping c))
    return (api_version_of ping c)

  abbrev pub connect_from : Option C → Act C D (Unit {0})
  connect_from (some c) = return tt
  connect_from none = do
    e ← get_engine
    c ← new_client e.config
    set_engine (record e { client = some c })

  unfoldable pub ensure_connected : Act C D (Unit {0})
  unfolding new_client
  ensure_connected = do e ← get_engine; connect_from e.client

  -- The client behind a call.
  abbrev pub client : Act C D C
  client = do e ← get_engine; of_outcome (client_of e.client)

  abbrev pub inspect : Text → Act C D Text
  inspect name = do c ← client; ask (λ d. docker.inspect c name d)

  unfoldable pub id_for_name : Text → Text → Act C D Text
  unfolding ensure_connected
  id_for_name name meta = do _ ← ensure_connected; inspect (full_name name meta)

  -- The ID that a failed inspection leaves is empty.
  abbrev pub id_of : Outcome Text → Text
  id_of (ok id) = id
  id_of (err e) = []
  id_of panic = []

  -- The log lines shorten the ID.
  abbrev pub is_stale : Bool → Text → Text → Act C D Bool
  is_stale dev_mode name id = if text_eq id [] then return true else (do
    short ← of_outcome (short_image_id id)
    return (not (text_eq name driver) && dev_mode))

  unfoldable pub needs_update : Text → Text → Act C D Bool
  unfolding short_image_id
  needs_update name meta = if text_eq meta (lit "latest") then return true else (do
    e ← get_engine
    image ← caught (inspect (full_name name meta))
    is_stale e.dev_mode name (id_of image))

  abbrev pub log_in : Option AuthConfig → Act C D (Unit {0})
  log_in none = return tt
  log_in (some auth_config) = do
    c ← client
    _ ← request (docker.login c auth_config)
    e ← get_engine
    set_engine (record e { auth = docker.encode_auth auth_config })

  unfoldable pub attempt_auth : Act C D (Unit {0})
  unfolding make_auth_config
  attempt_auth = do
    e ← get_engine
    if text_eq e.auth [] then log_in (make_auth_config e.config) else return tt

  -- The reader of the pull's progress is read to its end.
  unfoldable pub pull_image : Text → Act C D (Unit {0})
  unfolding ensure_connected
  pull_image name = do
    _ ← ensure_connected
    e ← get_engine
    c ← client
    request (docker.pull c name e.auth)

  -- The log lines shorten the IDs.
  abbrev pub log_removal : Outcome (Unit {0}) → Text → Text → Act C D (Unit {0})
  log_removal (ok u) old_id new_id = do
    old ← of_outcome (short_image_id old_id)
    new ← of_outcome (short_image_id new_id)
    return tt
  log_removal (err e) old_id new_id = do old ← of_outcome (short_image_id old_id); return tt
  log_removal panic old_id new_id = of_outcome panic

  unfoldable pub remove_old_image : Text → Text → Act C D (Unit {0})
  unfolding short_image_id
  remove_old_image old_id new_id =
      if not (text_eq old_id []) && not (text_eq old_id new_id)
      then (do
        c ← client
        removed ← caught (request (docker.remove_image c old_id))
        log_removal removed old_id new_id)
      else (if not (text_eq old_id [])
          then (do old ← of_outcome (short_image_id old_id); return tt)
          else return tt)

  -- From the retrieval on.
  abbrev pub retrieve : Text → Text → Act C D Bool
  retrieve name meta = do
    before ← caught (id_for_name name meta)
    _ ← pull_image (full_name name meta)
    after_id ← id_for_name name meta
    _ ← remove_old_image (id_of before) after_id
    return true

  -- With an error the Boolean is false.
  unfoldable pub is_available : Text → Text → Act C D Bool
  unfolding ensure_connected needs_update attempt_auth id_for_name pull_image remove_old_image
  is_available name meta = do
    _ ← ensure_connected
    needs ← needs_update name meta
    (if not needs then return true else (do
      _ ← (if not (text_eq name driver) then attempt_auth else return tt)
      retrieve name meta))
