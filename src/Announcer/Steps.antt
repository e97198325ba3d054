-- ===== src/Announcer/Steps.antt =====
-- Everything that can happen to a running announcer, as events, and runs over sequences of them.
use go_relay.Base.{ℕ, Bool, Option, List, [], ◌∷◌, Text, Outcome, ok, ◌>>=◌}
use go_relay.Config.Bundle.{Bundle}
use go_relay.Catalog.{Catalog}
use go_relay.Catalog
use go_relay.Messages.Directives.{AnnouncementReceipt}
use go_relay.Announcer.{
  Announcer, send_announcement_request, halt, admit_from, expire_from, loop_step, fire, fire_orphan,
  resend, cog_receipt,
}

-- The last four are the calls that other parts of Relay make on the shared catalog; only the
-- announcer acks epochs.
pub data Event : Type 0 where
  announces halts admits expires : Event
  loops fires orphan_fires : Bool → Event
  resends : ℕ → Bool → Event
  receipts : Option AnnouncementReceipt → Event
  replaces : List Bundle → Event
  removes : Text → Event
  marks : Text → Bool → Event
  reconnects : Event

unfoldable pub on_event : Announcer → Event → Outcome Announcer
on_event a announces = ok (send_announcement_request a)
on_event a halts = ok (halt a)
on_event a admits = ok (admit_from a.senders a)
on_event a expires = ok (expire_from a.announce_timer a)
on_event a (loops published) = loop_step a.loop a published
on_event a (fires published) = fire a published
on_event a (orphan_fires published) = fire_orphan a published
on_event a (resends i published) = resend a i published
on_event a (receipts receipt) = cog_receipt a receipt
on_event a (replaces snapshot) = ok (record a { catalog = (Catalog.replace a.catalog snapshot).0 })
on_event a (removes name) = ok (record a { catalog = Catalog.remove a.catalog name })
on_event a (marks name flag) =
    ok (record a { catalog = Catalog.mark_available a.catalog name flag })
on_event a reconnects = ok (record a { catalog = Catalog.reconnected a.catalog })

unfoldable pub on_events : Announcer → List Event → Outcome Announcer
on_events a [] = ok a
on_events a (e ∷ es) = do a' ← on_event a e; on_events a' es
