-- ===== src/Relay/Listing.antt =====
-- The relay after a list of bundles.
use go_relay.Base.{
  ◌^◌, ◌<◌, ◌≡◌, refl, sym, ◌∙◌, subst, Bool, true, false, some, List, Text, ok, Holds, Holds-bind,
  length, arith,
}
use go_relay.Announcer.{Announcer, armed, send_announcement_request}
use go_relay.Announcer.Runs.{on_event-IsTracked}
use go_relay.Announcer.Steps
use go_relay.Announcer.Steps.{on_event}
use go_relay.Announcer.Tracking.{IsTracked}
use go_relay.Catalog.{Catalog, replace}
use go_relay.Config.Bundle.{Bundle}
use go_relay.Messages.Directives.{ListBundlesResponseEnvelope}
use go_relay.Relay.{fixed_bundles, update_catalog}
use go_relay.Relay.Updates.{update_catalog-IsRefreshed}
use go_relay.Relay.Session.{
  Settings, Relay, catalog_of, set_catalog, handle_directive, after_update,
}
use go_relay.Relay.Serving.{IsServing, set_catalog-IsServing}

module _ (s : Settings) where
  catalog_fits : (r : Relay) → IsServing s r → (catalog_of r.announcer r.catalog).epoch < 2 ^ 64
  catalog_fits r v = by_announcer v.announcer
    where
      by_announcer :
          (a : Announcer) × (r.announcer ≡ some a) × IsTracked a
          → (catalog_of r.announcer r.catalog).epoch < 2 ^ 64
      by_announcer (a, q, t) = rw q t.fits

  replace_fits :
      (c : Catalog) (snapshot : List Bundle)
      → c.epoch < 2 ^ 64
      → (replace c snapshot).0.epoch < 2 ^ 64
  unfolding replace
  replace_fits c snapshot h = ground (arith, h)

  -- A list of bundles was received.
  pub record IsListed (r r' : Relay) : Type 0 where
    pub serving : IsServing s r'
    pub requests : length r'.requests ≡ length r.requests
    pub timer : r'.bundle_timer ≡ armed

  after_update_lem :
      (c : Catalog) (asks : Bool) (r : Relay)
      → IsServing s (set_catalog c r)
      → Holds (IsListed r) (after_update s (c, asks) r)
  after_update_lem c true r v = by_announcer v.announcer
    where
      by_announcer :
          (a : Announcer) × ((set_catalog c r).announcer ≡ some a) × IsTracked a
          → Holds (IsListed r) (after_update s (c, true) r)
      by_announcer (a, q, t) = rw q (record {
        serving = record {
          announcer = (
            send_announcement_request a,
            refl,
            (unfold on_event in on_event-IsTracked a Steps.announces t),
          );
          requests = v.requests;
          topics = v.topics;
        };
        requests = refl;
        timer = refl;
      })
  after_update_lem c false r v = record {
    serving = record { announcer = v.announcer; requests = v.requests; topics = v.topics };
    requests = refl;
    timer = refl;
  }

  pub handle_directive-IsListed :
      (images : Text → Text → Bool) (envelope : ListBundlesResponseEnvelope) (r : Relay)
      → IsServing s r
      → Holds (IsListed r) (handle_directive s images (ok envelope) r)
  unfolding handle_directive
  handle_directive-IsListed images envelope r v =
      Holds-bind _ (IsListed r) (update_catalog s.docker_enabled s.native_enabled images envelope c)
        _ (update_catalog-IsRefreshed s.docker_enabled s.native_enabled images envelope c)
        (λ u h. after_update_lem u.0 u.1 r (
          set_catalog-IsServing s u.0 r
            (subst (λ n. n < 2 ^ 64) (sym h.0.0)
              (replace_fits c (fixed_bundles envelope.bundles) (catalog_fits r v)))
            (h.0.1 ∙ unfold replace in refl) v))
    where
      c : Catalog
      c = catalog_of r.announcer r.catalog
