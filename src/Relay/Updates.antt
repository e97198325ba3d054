-- ===== src/Relay/Updates.antt =====
-- What an update changes, and when it is announced.
use go_relay.Base.{
  ◌≡◌, refl, sym, ap, ◌∙◌, Bool, true, false, Option, none, some, List, [], ◌∷◌, Text, text_eq,
  Outcome, ok, err, panic, ◌>>=◌, Holds, Holds-bind, Holds-mono, arith, if◌then◌else◌,
}
use go_relay.Config.Bundle.{Bundle, DockerImage, needs_refresh, set_available}
use go_relay.Catalog.{Catalog, bundle_names, find, mark_available, replace, is_changed}
use go_relay.Catalog.Epochs.{flagged, find-mark_available}
use go_relay.Engines.{EngineType, engine_for_bundle}
use go_relay.Messages.Directives.{ListBundlesResponseEnvelope}
use go_relay.Relay.{
  fixed_bundles, native_available, check_bundle, refresh_bundle, refresh_names, refresh_bundles,
  update_catalog,
}

-- A bundle without the availability flag.
abbrev pub settled : Option Bundle → Option Bundle
settled none = none
settled (some b) = some (record b { available = false })

-- The same bundles under the same names and the same epochs: only availability differs.
abbrev pub IsRefreshed : Catalog → Catalog → Type 0
IsRefreshed c c' =
    (c'.epoch ≡ c.epoch)
    × (c'.last_acked ≡ c.last_acked)
    × ((k : Text) → settled (find c' k) ≡ settled (find c k))

abbrev kept : (c : Catalog) → IsRefreshed c c
kept c = (refl, refl, λ k. refl)

settled-flagged : (flag : Bool) (o : Option Bundle) → settled (flagged flag o) ≡ settled o
settled-flagged flag none = refl
settled-flagged flag (some b) = unfold set_available in refl

mark-IsRefreshed :
    (c : Catalog) (name : Text) (flag : Bool) → IsRefreshed c (mark_available c name flag)
mark-IsRefreshed c name flag = (
  unfold mark_available in ground arith,
  unfold mark_available in ground arith,
  λ k. ap settled (find-mark_available c name flag k) ∙ by_name k (text_eq name k),
)
  where
    by_name :
        (k : Text) (b : Bool)
        → settled (if b then flagged flag (find c k) else find c k) ≡ settled (find c k)
    by_name k true = settled-flagged flag (find c k)
    by_name k false = refl

changed-IsRefreshed : (c c' : Catalog) → IsRefreshed c c' → is_changed c' ≡ is_changed c
unfolding is_changed
changed-IsRefreshed c c' (e, l, f) = ground (arith, e, l)

module _ (docker_enabled native_enabled : Bool) (image_available : Text → Text → Bool) where
  native-IsRefreshed :
      (engine : Outcome EngineType) (name : Text) (c : Catalog)
      → Holds
          (IsRefreshed c)
          (native_available docker_enabled native_enabled image_available engine name c)
  native-IsRefreshed (ok engine) name c = mark-IsRefreshed c name true
  native-IsRefreshed (err e) name c = tt
  native-IsRefreshed panic name c = tt

  check-IsRefreshed :
      (image : Option DockerImage) (b : Bundle) (name : Text) (c : Catalog)
      → Holds
          (IsRefreshed c)
          (check_bundle docker_enabled native_enabled image_available image b name c)
  check-IsRefreshed none b name c =
      native-IsRefreshed (engine_for_bundle docker_enabled native_enabled b) name c
  check-IsRefreshed (some d) b name c = by_engine docker_enabled
    where
      by_engine :
          (enabled : Bool)
          → Holds (IsRefreshed c) (
              if enabled
              then ok (mark_available c name (image_available d.image d.tag))
              else ok (mark_available c name false))
      by_engine true = mark-IsRefreshed c name (image_available d.image d.tag)
      by_engine false = mark-IsRefreshed c name false

  bundle-IsRefreshed :
      (o : Option Bundle) (name : Text) (c : Catalog)
      → Holds
          (IsRefreshed c)
          (refresh_bundle docker_enabled native_enabled image_available o name c)
  bundle-IsRefreshed none name c = kept c
  bundle-IsRefreshed (some b) name c = by_need (needs_refresh b)
    where
      by_need :
          (need : Bool)
          → Holds (IsRefreshed c) (
              if need
              then check_bundle docker_enabled native_enabled image_available b.docker b name c
              else ok c)
      by_need true = check-IsRefreshed b.docker b name c
      by_need false = kept c

  names-IsRefreshed :
      (names : List Text) (c : Catalog)
      → Holds (IsRefreshed c) (refresh_names docker_enabled native_enabled image_available names c)
  unfolding refresh_names
  names-IsRefreshed [] c = kept c
  names-IsRefreshed (name ∷ names) c =
      Holds-bind (IsRefreshed c) (IsRefreshed c)
        (refresh_bundle docker_enabled native_enabled image_available (find c name) name c) _
        (bundle-IsRefreshed (find c name) name c)
        λ c' (e, l, f).
          Holds-mono (IsRefreshed c') (IsRefreshed c)
            (refresh_names docker_enabled native_enabled image_available names c')
            (λ c'' (e', l', f'). (e' ∙ e, l' ∙ l, λ k. f' k ∙ f k)) (names-IsRefreshed names c')

  -- Unless something panics, an update leaves the catalog as `Replace` by the fixed bundles does, but
  -- for the availability flags, and requests an announcement exactly if there is one to make.
  pub update_catalog-IsRefreshed :
      (envelope : ListBundlesResponseEnvelope) (c : Catalog)
      → Holds
          (λ r.
            IsRefreshed (replace c (fixed_bundles envelope.bundles)).0 r.0 × (r.1 ≡ is_changed r.0))
          (update_catalog docker_enabled native_enabled image_available envelope c)
  unfolding update_catalog refresh_bundles
  update_catalog-IsRefreshed envelope c = by_changed (is_changed replaced) refl
    where
      replaced : Catalog
      replaced = (replace c (fixed_bundles envelope.bundles)).0

      IsDone : Catalog × Bool → Type 0
      IsDone r = IsRefreshed replaced r.0 × (r.1 ≡ is_changed r.0)

      by_changed :
          (changed : Bool)
          → is_changed replaced ≡ changed
          → Holds IsDone (
              if changed
              then (refresh_names docker_enabled native_enabled image_available
                    (bundle_names replaced)
                    replaced
                  >>= λ refreshed. ok (refreshed, true))
              else ok (replaced, false))
      by_changed true h =
          Holds-bind (IsRefreshed replaced) IsDone
            (refresh_names docker_enabled native_enabled image_available (bundle_names replaced)
              replaced)
            _ (names-IsRefreshed (bundle_names replaced) replaced)
            λ r v. (v, sym (changed-IsRefreshed replaced r v ∙ h))
      by_changed false h = (kept replaced, sym h)
