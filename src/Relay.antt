-- ===== src/Relay.antt =====
-- relay/relay.go: what an update of the bundle list from Cog does to the catalog and the announcer.
-- The Docker engine's answer on an image is a parameter.
pub mod Updates
pub mod Session
pub mod Lifecycle
pub mod Running
pub mod Stopping
pub mod Events
pub mod Serving
pub mod Listing
pub mod Reached
pub mod Interrupted
pub mod Started
pub mod Images
mod Tests
use go_relay.Base.{
  Bool, true, false, Option, none, some, List, [], ◌∷◌, ◌++◌, Text, lit, split, length, Outcome, ok,
  err, panic, ◌>>=◌, ◌==◌, if◌then◌else◌,
}
use go_relay.Config.Bundle.{Bundle, DockerImage, needs_refresh}
use go_relay.Catalog.{Catalog, bundle_names, find, mark_available, replace, is_changed}
use go_relay.Engines.{EngineType, engine_for_bundle}
use go_relay.Messages.Directives.{BundleSpec, ListBundlesResponseEnvelope}

unfoldable pub fix_bundle_version : Text → Text
fix_bundle_version version =
    if length (split version b'.') == 2 then version ++ lit ".0" else version

unfoldable pub fixed_bundles : List BundleSpec → List Bundle
unfolding fix_bundle_version
fixed_bundles [] = []
fixed_bundles (spec ∷ specs) =
    let b = spec.config_file in
    record b { version = fix_bundle_version b.version } ∷ fixed_bundles specs

module _ (docker_enabled native_enabled : Bool) (image_available : Text → Text → Bool) where
  -- The native engine has everything; a missing engine is nil, and asking it panics.
  abbrev pub native_available : Outcome EngineType → Text → Catalog → Outcome Catalog
  native_available (ok engine) name c = ok (mark_available c name true)
  native_available (err e) name c = panic
  native_available panic name c = panic

  abbrev pub check_bundle : Option DockerImage → Bundle → Text → Catalog → Outcome Catalog
  check_bundle (some d) b name c =
      if docker_enabled
      then ok (mark_available c name (image_available d.image d.tag))
      else ok (mark_available c name false)
  check_bundle none b name c =
      native_available (engine_for_bundle docker_enabled native_enabled b) name c

  abbrev pub refresh_bundle : Option Bundle → Text → Catalog → Outcome Catalog
  refresh_bundle none name c = ok c
  refresh_bundle (some b) name c = if needs_refresh b then check_bundle b.docker b name c else ok c

  -- The loop over the names. Asking for the Docker engine beforehand has no error when it is enabled.
  unfoldable pub refresh_names : List Text → Catalog → Outcome Catalog
  refresh_names [] c = ok c
  refresh_names (name ∷ names) c = do
    c' ← refresh_bundle (find c name) name c
    refresh_names names c'

  unfoldable pub refresh_bundles : Catalog → Outcome Catalog
  unfolding refresh_names
  refresh_bundles c = refresh_names (bundle_names c) c

  -- The catalog afterwards, and whether an announcement is requested.
  unfoldable pub update_catalog : ListBundlesResponseEnvelope → Catalog → Outcome (Catalog × Bool)
  unfolding refresh_bundles fixed_bundles
  update_catalog envelope c =
      let (replaced, dirty) = replace c (fixed_bundles envelope.bundles) in
      if is_changed replaced
      then (do refreshed ← refresh_bundles replaced; ok (refreshed, true))
      else ok (replaced, false)
