-- ===== src/Engines.antt =====
-- relay/engines: the engines' environments (engines.go, native.go, docker.go) over the cache of
-- env_cache.go. Environments are numbered, as pointers are told apart; creating one, shutting one
-- down and the Docker client are parameters.
pub mod EnvCache
pub mod Workers
pub mod Leases
pub mod Docker
mod Tests
use go_relay.Base.{
  ℕ, ◌+◌, ◌≡◌, Bool, true, false, not, Option, none, some, List, [], ◌∷◌, ◌++◌, Text, lit, Outcome,
  ok, err, ◌>>=◌, text_eq, if◌then◌else◌,
}
use go_relay.Config.Bundle.{Bundle, is_docker}
use go_relay.Engines.EnvCache.{Cache, get, put, get_old}

pub data EngineType : Type 0 where
  docker_engine_type native_engine_type : EngineType

abbrev pub new_native_engine : Bool → Outcome (Unit {0})
new_native_engine native_enabled =
    if native_enabled then ok tt else err (lit "Native execution engine is disabled.")

-- GetEngine, given what DockerEnabled and NativeEnabled answer.
unfoldable pub get_engine : Bool → Bool → EngineType → Outcome EngineType
get_engine docker_enabled native_enabled docker_engine_type =
    if docker_enabled then ok docker_engine_type else err (lit "Docker engine is disabled")
get_engine docker_enabled native_enabled native_engine_type = do
  engine ← new_native_engine native_enabled
  ok native_engine_type

unfoldable pub engine_for_bundle : Bool → Bool → Bundle → Outcome EngineType
unfolding get_engine
engine_for_bundle docker_enabled native_enabled bundle =
    if is_docker bundle
    then get_engine docker_enabled native_enabled docker_engine_type
    else get_engine docker_enabled native_enabled native_engine_type

unfoldable pub make_key : Text → Bundle → Text
make_key pipeline_id bundle = pipeline_id ++ lit "/" ++ bundle.name ++ lit ":" ++ bundle.version

module _ {ℓ} {D : Type ℓ} (create : D → Outcome ℕ × D) where
  abbrev pub answer : Option ℕ → Cache → D → Outcome ℕ × (Cache × D)
  answer (some env) cache d = (ok env, (cache, d))
  answer none cache d = let (made, d') = create d in (made, (cache, d'))

  -- The Docker engine's NewEnvironment at a cache's key; `create` is its newEnvironment, which asks
  -- the driver.
  unfoldable pub new_environment : ℕ → Text → Cache → D → Outcome ℕ × (Cache × D)
  new_environment now key cache d =
      let (cached, cache') = get now key cache in answer cached cache' d

-- The Docker engine's ReleaseEnvironment: the environments that it shuts down, and the cache.
unfoldable pub release_environment : ℕ → Text → ℕ → Cache → List ℕ × Cache
release_environment now key env cache =
    let (kept, cache') = put now key env cache in (if kept then [] else env ∷ [], cache')

abbrev count_ok {ℓ} : {A : Type ℓ} → (A → Bool) → List A → ℕ
count_ok f [] = 0
count_ok f (x ∷ xs) = let n = count_ok f xs in if f x then 1 + n else n

-- Clean: what it counts, the environments it shuts down, and the cache. `listing` holds the dead
-- containers, or is `none` on an error.
unfoldable pub clean :
    Bool → (ℕ → Bool) → Option (List Text) → (Text → Bool) → ℕ → Cache → ℕ × (List ℕ × Cache)
clean connected shut_ok listing removed now cache =
    let (old, cache') = get_old now cache in
    if connected
    then (
      elim listing [
        | none ↦ 0
        | some containers ↦ count_ok shut_ok old + count_ok removed containers
      ],
      (old, cache'),
    )
    else (0, ([], cache))

-- The native engine, which caches nothing and has nothing to set up, to fetch or to clean. `create`
-- is the circuit library's CreateEnvironment for a bundle's name.
unfoldable pub native_init : Outcome (Unit {0})
native_init = ok tt

unfoldable pub native_is_available : Text → Text → Outcome Bool
native_is_available name version = ok true

unfoldable pub native_new_environment {ℓ} :
    {D : Type ℓ} → (Text → D → Outcome ℕ × D) → Bundle → D → Outcome ℕ × D
native_new_environment create bundle d = create bundle.name d

unfoldable pub native_release : ℕ → List ℕ
native_release env = env ∷ []

unfoldable pub native_clean : ℕ
native_clean = 0
