-- ===== src/Engines/Docker/Driver.antt =====
-- The container that a new engine's Init creates.
use go_relay.Base.{◌≡◌, Bool, not, Text, lit, ok, if◌then◌else◌}
use go_relay.Config.Infos.{Config, DockerInfo}
use go_relay.Engines.Docker.{
  Docker, State, Act, next, request, client_of, fail, of_outcome, driver, full_name,
}
use go_relay.Engines.Docker.Daemon.{DockerLaws}
use go_relay.Engines.Docker.Environments.{driver_config}

module _ {C D : Type 0} (docker : Docker C D) (IsTag IsId : Text → Type 0)
    (laws : DockerLaws docker IsTag IsId) where
  -- The daemon has made the driver's container, from an image that the client has found.
  abbrev pub IsInited : DockerInfo → State C D → Type 0
  IsInited info s' =
      (c : C) × (id : Text) × (d : D) × (docker.inspect c
          (full_name driver info.command_driver_version) d
        ≡ ok id)
      × (docker.create_container c (driver_config docker info) d ≡ (ok tt, s'.1))

  -- What is left of Init once the image's availability is known.
  abbrev create : DockerInfo → Bool → Act C D (Unit {0})
  create info available =
      if not available then fail (lit "Command driver image is unavailable") else (λ s.
        next (next (ok s.0, s) (λ e. of_outcome (client_of e.client)))
          (λ c. request (docker.create_container c (driver_config docker info))))

  -- The engine's configuration stays what it is.
  abbrev Configured : DockerInfo → State C D → Type 0
  Configured info s = s.0.config ≡ info
