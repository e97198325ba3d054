-- ===== src/Relay/Events.antt =====
-- Everything that can happen to a relay that runs, as a relation between its states. Go arms a new
-- timer for every list of bundles that it receives, and `bundle_timer` points to the last one only.
use go_relay.Base.{
  Option, none, List, [], length, ℕ, suc, ◌+◌, ◌≡◌, Bool, true, false, not, ◌&&◌, some, Text, ok,
  ltb,
}
use go_relay.Announcer.{Announcer, Command, armed}
use go_relay.Announcer.Steps.{
  Event, admits, expires, loops, fires, orphan_fires, resends, receipts, on_event,
}
use go_relay.Catalog.{len}
use go_relay.Messages.Directives.{ListBundlesResponseEnvelope}
use go_relay.Relay.Session.{
  Settings, Relay, Answers, catalog_of, required, set_subscriptions, announce_connected,
  load_or_announce, handle_bus_events, handle_directive, handle_command, scheduled_bundle_refresh,
  orphan_bundle_refresh, scheduled_docker_cleanup,
}
use go_relay.Relay.Lifecycle.{is_open}
use go_relay.Relay.Stopping.{is_armed}

-- `orphans` counts the armed timers that `bundle_timer` does not point to, `replies` the lists of
-- bundles that were received, and `loads` the connections that found the catalog empty and asked.
-- `listing` and `connecting` count the handlers of a list and of a connection that wait in
-- SendAnnouncement; when one of them goes on is left open.
pub record World : Type 0 where
  pub relay : Relay
  pub orphans : ℕ
  pub replies : ℕ
  pub loads : ℕ
  pub listing : ℕ
  pub connecting : ℕ

abbrev pub bit : Bool → ℕ
bit true = 1
bit false = 0

abbrev pub is_empty : Relay → Bool
is_empty r = not (ltb 0 (len (catalog_of r.announcer r.catalog)))

-- The events of the announcer's own goroutines and of its subscription.
abbrev pub is_own : Event → Bool
is_own admits = true
is_own expires = true
is_own (loops published) = true
is_own (fires published) = true
is_own (orphan_fires published) = true
is_own (resends i published) = true
is_own (receipts receipt) = true
is_own _ = false

abbrev senders_of : Option Announcer → List Command
senders_of none = []
senders_of (some a) = a.senders

-- The handler has sent an announcement that blocks.
abbrev pub is_blocked : Relay → Relay → Bool
is_blocked r r' = ltb (length (senders_of r.announcer)) (length (senders_of r'.announcer))

pub data Step (s : Settings) (w : World) : World → Type 0 where
  connects :
      (o : Answers) (r : Relay)
      → is_open w.relay.announcer ≡ true
      → handle_bus_events s o w.relay ≡ ok r
      → Step s w (record w { relay = r; loads = w.loads + bit (is_empty w.relay && o.published) })
  connects_waits :
      (o : Answers) (r : Relay)
      → is_open w.relay.announcer ≡ false
      → announce_connected s o w.relay.announcer (record w.relay { conn = true }) ≡ ok r
      → Step s w (record w { relay = r; connecting = suc w.connecting })
  connects_on :
      (o : Answers) (r : Relay) (n : ℕ)
      → w.connecting ≡ suc n
      → required (set_subscriptions s o w.relay) ≡ ok r
      → Step s w (record w {
        relay = load_or_announce s o.published (catalog_of r.announcer r.catalog) r;
        loads = w.loads + bit (is_empty r && o.published);
        connecting = n;
      })
  lists :
      (images : Text → Text → Bool) (envelope : ListBundlesResponseEnvelope) (r : Relay)
      → handle_directive s images (ok envelope) w.relay ≡ ok r
      → is_blocked w.relay r ≡ false
      → Step s w (record w {
        relay = r;
        orphans = w.orphans + bit (is_armed w.relay.bundle_timer);
        replies = suc w.replies;
      })
  lists_waits :
      (images : Text → Text → Bool) (envelope : ListBundlesResponseEnvelope) (r : Relay)
      → handle_directive s images (ok envelope) w.relay ≡ ok r
      → is_blocked w.relay r ≡ true
      → Step s w (record w {
        relay = record r { bundle_timer = w.relay.bundle_timer };
        replies = suc w.replies;
        listing = suc w.listing;
      })
  lists_on :
      (n : ℕ)
      → w.listing ≡ suc n
      → Step s w (record w {
        relay = record w.relay { bundle_timer = armed };
        orphans = w.orphans + bit (is_armed w.relay.bundle_timer);
        listing = n;
      })
  refreshes :
      (published : Bool)
      → is_armed w.relay.bundle_timer ≡ true
      → Step s w (record w { relay = scheduled_bundle_refresh s published w.relay })
  orphan_refreshes :
      (published : Bool) (n : ℕ)
      → w.orphans ≡ suc n
      → Step s w (record w {
        relay = orphan_bundle_refresh s published w.relay;
        orphans = n + bit (not published && is_armed w.relay.bundle_timer);
      })
  cleans : Step s w (record w { relay = scheduled_docker_cleanup s w.relay })
  invokes :
      (topic message : Text)
      → Step s w (record w { relay = handle_command s topic message w.relay })
  announces :
      (e : Event) (a b : Announcer)
      → w.relay.announcer ≡ some a
      → is_own e ≡ true
      → on_event a e ≡ ok b
      → Step s w (record w { relay = record w.relay { announcer = some b; catalog = b.catalog } })

pub data Reach (s : Settings) (w : World) : World → Type 0 where
  here : Reach s w w
  next : {v u : World} → Reach s w v → Step s v u → Reach s w u
