-- ===== src/Announcer/Runs.antt =====
-- Every run of the announcer keeps the invariant.
use go_relay.Base.{
  ◌^◌, ◌<◌, ◌≡◌, inl, inr, refl, Bool-cases, List, [], ◌∷◌, Text, Holds, Holds-bind, length, arith,
  ltb,
}
use go_relay.Catalog.{Catalog, epoch_acked, current_epoch}
use go_relay.Catalog
use go_relay.Announcer.{
  Announcer, Command, announce_command, stop_command, new_announcer, enqueue,
  send_announcement_request, halt, has_room, admit_from, expire_from, Timer,
}
use go_relay.Announcer.Steps.{Event, on_event, on_events}
use go_relay.Announcer.Steps
use go_relay.Announcer.Tracking.{IsTracked, with_catalog}
use go_relay.Announcer.Sends.{
  loop_step-IsTracked, fire-IsTracked, fire_orphan-IsTracked, resend-IsTracked,
}
use go_relay.Announcer.Receipts.{cog_receipt-IsTracked}

enqueue-IsTracked : (cmd : Command) (a : Announcer) → IsTracked a → IsTracked (enqueue cmd a)
unfolding enqueue
enqueue-IsTracked cmd a v = elim (Bool-cases (has_room a)) [ inl e ↦ rw e v | inr e ↦ rw e v ]

admit-IsTracked :
    (cmds : List Command) (a : Announcer) → IsTracked a → IsTracked (admit_from cmds a)
unfolding admit_from
admit-IsTracked [] a v = v
admit-IsTracked (cmd ∷ rest) a v = elim (Bool-cases (ltb (length a.control) 2)) [
  | inl e ↦ rw e v
  | inr e ↦ rw e v
]

expire-IsTracked : (t : Timer) (a : Announcer) → IsTracked a → IsTracked (expire_from t a)
unfolding expire_from
expire-IsTracked Timer.armed a v = v
expire-IsTracked Timer.unset a v = v
expire-IsTracked Timer.idle a v = v

pub on_event-IsTracked : (a : Announcer) (e : Event) → IsTracked a → Holds IsTracked (on_event a e)
unfolding on_event send_announcement_request halt
on_event-IsTracked a Steps.announces v = enqueue-IsTracked announce_command a v
on_event-IsTracked a Steps.halts v = enqueue-IsTracked stop_command a v
on_event-IsTracked a Steps.admits v = admit-IsTracked a.senders a v
on_event-IsTracked a Steps.expires v = expire-IsTracked a.announce_timer a v
on_event-IsTracked a (Steps.loops published) v = loop_step-IsTracked a published a.loop refl v
on_event-IsTracked a (Steps.fires published) v = fire-IsTracked a published v
on_event-IsTracked a (Steps.orphan_fires published) v = fire_orphan-IsTracked a published v
on_event-IsTracked a (Steps.resends i published) v = resend-IsTracked a i published v
on_event-IsTracked a (Steps.receipts receipt) v = cog_receipt-IsTracked a receipt v
on_event-IsTracked a (Steps.replaces snapshot) v =
    unfold Catalog.replace in with_catalog a _ (ground (arith, v.fits)) refl v
on_event-IsTracked a (Steps.removes name) v =
    with_catalog a _ (unfold Catalog.remove in ground (arith, v.fits))
      (unfold Catalog.remove in ground arith) v
on_event-IsTracked a (Steps.marks name flag) v =
    with_catalog a _ (unfold Catalog.mark_available in ground (arith, v.fits))
      (unfold Catalog.mark_available in ground arith) v
on_event-IsTracked a Steps.reconnects v =
    with_catalog a _ (unfold Catalog.reconnected in omega arith)
      (unfold Catalog.reconnected in refl) v

-- Over every sequence of events, where the loop, the timers and their expired callbacks, the blocked
-- senders and the receipts interleave at the lock, and unless something panics, this stays so if it was so at the start: a receipt is awaited only for a
-- published announcement, the announcements that wait for another attempt bear issued epochs, and the
-- epoch that the catalog counts as acked is 0 or was published as an announcement's id.
pub on_events-IsTracked :
    (a : Announcer) (es : List Event) → IsTracked a → Holds IsTracked (on_events a es)
unfolding on_events
on_events-IsTracked a [] v = v
on_events-IsTracked a (e ∷ es) v =
    Holds-bind IsTracked IsTracked (on_event a e) _ (on_event-IsTracked a e v)
      λ a' w. on_events-IsTracked a' es w

pub new_announcer-IsTracked :
    (id : Text) (c : Catalog) → c.epoch < 2 ^ 64 → c.last_acked ≡ 0 → IsTracked (new_announcer id c)
unfolding new_announcer
new_announcer-IsTracked id c h e = record {
  fits = h;
  issued = tt;
  loop_issued = tt;
  resends_issued = tt;
  awaited = inl refl;
  acked = inl e;
}
