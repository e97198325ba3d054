-- ===== src/Engines/Docker/Daemon.antt =====
-- The Docker client that docker.go calls, and the actions over an engine and the daemon's state: an
-- action keeps what it changed when it fails.
use go_relay.Base.{
  ◌≡◌, ℕ, Bool, false, text_eq, Option, none, some, List, Text, Table, Outcome, ok, err, panic,
}
use go_relay.Config.Infos.{DockerInfo}

pub record AuthConfig : Type 0 where
  pub server_address : Text
  pub username : Text
  pub password : Text
  pub email : Text

-- The container.Config and the name, the memory and the privileges of a new container.
pub record ContainerConfig : Type 0 where
  pub name : Text
  pub image : Text
  pub cmd : List Text
  pub labels : Table Text
  pub memory : ℕ
  pub privileged : Bool

pub record EnvironmentOptions (C : Type 0) : Type 0 where
  pub bundle : Text
  pub conn : C
  pub image : Text
  pub tag : Text
  pub binds : List Text
  pub driver_instance : Text
  pub driver_path : Text
  pub memory : ℕ

-- `inspect` gives the image's ID. The API version is that of the environment.
pub record Docker (C D : Type 0) : Type 0 where
  pub new_env_client : D → Outcome C
  pub new_client : Text → Text → D → Outcome C
  pub default_version : Text
  pub api_version : Text
  pub ping : C → D → Outcome Text
  pub client_version : C → Text
  pub update_client_version : Text → C → C
  pub version_less_than : Text → Text → Bool
  pub inspect : C → Text → D → Outcome Text
  pub pull : C → Text → Text → D → Outcome (Unit {0}) × D
  pub remove_image : C → Text → D → Outcome (Unit {0}) × D
  pub login : C → AuthConfig → D → Outcome (Unit {0}) × D
  pub remove_container : C → Text → D → Outcome (Unit {0}) × D
  pub create_container : C → ContainerConfig → D → Outcome (Unit {0}) × D
  pub create_environment : EnvironmentOptions C → D → Outcome ℕ × D
  pub encode_auth : AuthConfig → Text

-- What Docker documents. The tags are references in their full form, name and tag, so that no two of
-- them stand for the same one and none is an ID; the IDs are those that an inspection gives. A login
-- changes no image; a pull changes no other tag; the removal of an ID leaves the tags of other IDs.
pub record DockerLaws {C D : Type 0} (docker : Docker C D) (IsTag IsId : Text → Type 0)
    : Type 0 where
  pub inspect_gives : (c : C) (name id : Text) (d : D) → docker.inspect c name d ≡ ok id → IsId id
  pub login_keeps :
      (c : C) (a : AuthConfig) (n : Text) (d : D)
      → docker.inspect c n (docker.login c a d).1 ≡ docker.inspect c n d
  pub pull_keeps :
      (c : C) (pulled auth n : Text) (d : D)
      → IsTag pulled
      → IsTag n
      → text_eq pulled n ≡ false
      → docker.inspect c n (docker.pull c pulled auth d).1 ≡ docker.inspect c n d
  pub remove_keeps :
      (c : C) (old_id name id : Text) (d : D)
      → IsId old_id
      → IsTag name
      → docker.inspect c name d ≡ ok id
      → text_eq old_id id ≡ false
      → docker.inspect c name (docker.remove_image c old_id d).1 ≡ ok id

-- The engine; its cache is that of Engines.EnvCache.
pub record DockerEngine (C : Type 0) : Type 0 where
  pub client : Option C
  pub config : DockerInfo
  pub dev_mode : Bool
  pub container_memory : ℕ
  pub auth : Text

abbrev pub State : Type 0 → Type 0 → Type 0
State C D = DockerEngine C × D

abbrev pub Act : Type 0 → Type 0 → Type 0 → Type 0
Act C D A = State C D → Outcome A × State C D

module _ {C D : Type 0} where
  abbrev pub return : {A : Type 0} → A → Act C D A
  return a s = (ok a, s)

  abbrev pub fail : {A : Type 0} → Text → Act C D A
  fail e s = (err e, s)

  abbrev pub of_outcome : {A : Type 0} → Outcome A → Act C D A
  of_outcome m s = (m, s)

  abbrev pub next : {A B : Type 0} → Outcome A × State C D → (A → Act C D B) → Outcome B × State C D
  next (ok a, s) f = f a s
  next (err e, s) f = (err e, s)
  next (panic, s) f = (panic, s)

  infixl 5 ◌>>=◌
  abbrev pub ◌>>=◌ : {A B : Type 0} → Act C D A → (A → Act C D B) → Act C D B
  (m >>= f) s = next (m s) f

  -- The error as a value.
  abbrev pub caught_from : {A : Type 0} → Outcome A × State C D → Outcome (Outcome A) × State C D
  caught_from (ok a, s) = (ok (ok a), s)
  caught_from (err e, s) = (ok (err e), s)
  caught_from (panic, s) = (panic, s)

  abbrev pub caught : {A : Type 0} → Act C D A → Act C D (Outcome A)
  caught m s = caught_from (m s)

  abbrev pub get_engine : Act C D (DockerEngine C)
  get_engine (e, d) = (ok e, (e, d))

  abbrev pub set_engine : DockerEngine C → Act C D (Unit {0})
  set_engine e (e', d) = (ok tt, (e, d))

  -- A question to the daemon, and a request that may change its state.
  abbrev pub ask : {A : Type 0} → (D → Outcome A) → Act C D A
  ask f (e, d) = (f d, (e, d))

  abbrev pub request_from : {A : Type 0} → DockerEngine C → Outcome A × D → Outcome A × State C D
  request_from e (a, d) = (a, (e, d))

  abbrev pub request : {A : Type 0} → (D → Outcome A × D) → Act C D A
  request f (e, d) = request_from e (f d)

-- The client, which is nil until ensureConnected has made it.
abbrev pub client_of : {C : Type 0} → Option C → Outcome C
client_of none = panic
client_of (some c) = ok c
