-- ===== src/Announcer/Pending.antt =====
-- `announcementPending` is set by a request that comes while a receipt is awaited, and is never
-- cleared. From then on the announcer does not come back to rest.
use go_relay.Base.{
  ℕ, zero, suc, ◌≡◌, refl, inl, inr, Bool, true, false, Bool-cases, Option-cases, Option, none,
  some, List, [], ◌∷◌, text_eq, Holds, Holds-bind, Holds-bind_eq, length, ltb,
}
use go_relay.Messages.Directives.{Announcement, AnnouncementReceipt}
use go_relay.Announcer.{
  Announcer, State, Loop, Timer, Command, stopped, waiting, receipt_waiting, prepare, attempt,
  sent_now, loop_step, handle_command, is_receipt_waiting, stop_timer, reset_timer, fire,
  fire_orphan, pick_resend, resend, cog_receipt, enqueue, send_announcement_request, halt, has_room,
  admit_from, expire_from,
}
use go_relay.Announcer.Steps.{Event, on_event, on_events}
use go_relay.Announcer.Steps

abbrev pub is_waiting : State → Bool
is_waiting waiting = true
is_waiting receipt_waiting = false
is_waiting stopped = false

-- A request is pending and the announcer is not at rest.
abbrev pub IsStuck : Announcer → Type 0
IsStuck a = (a.announcement_pending ≡ true) × (is_waiting a.state ≡ false)

attempt-IsStuck :
    (skip : Bool) (a : Announcer) (ann : Announcement) (published : Bool)
    → IsStuck a
    → Holds IsStuck (attempt skip a ann published)
unfolding attempt sent_now
attempt-IsStuck true a ann true v = (v.0, refl)
attempt-IsStuck true a ann false v = v
attempt-IsStuck false a ann true v =
    Holds-bind_eq IsStuck (reset_timer a.announce_timer) _ λ t _. (v.0, refl)
attempt-IsStuck false a ann false v = v

handle_command-IsStuck :
    (cmd : Command) (a : Announcer) (published : Bool)
    → IsStuck a
    → Holds IsStuck (handle_command cmd a published)
unfolding handle_command
handle_command-IsStuck Command.stop_command a published v = (v.0, refl)
handle_command-IsStuck Command.announce_command a published v =
    elim (Bool-cases (is_receipt_waiting a.state)) [
      | inl e ↦ rw e (refl, v.1)
      | inr e ↦ rw e (attempt-IsStuck true a (prepare a) published v)
    ]

loop_step-IsStuck :
    (l : Loop) (cmds : List Command) (a : Announcer) (published : Bool)
    → a.control ≡ cmds
    → IsStuck a
    → Holds IsStuck (loop_step l a published)
unfolding loop_step
loop_step-IsStuck Loop.ready [] a published e v = rw e v
loop_step-IsStuck Loop.ready (cmd ∷ rest) a published e v =
    rw e (handle_command-IsStuck cmd (record a { control = rest }) published v)
loop_step-IsStuck (Loop.sending ann) cmds a published e v = attempt-IsStuck true a ann published v
loop_step-IsStuck Loop.arming cmds a published e v = v
loop_step-IsStuck Loop.stopping cmds a published e v =
    Holds-bind_eq IsStuck (stop_timer a.announce_timer) _ λ t _. v
loop_step-IsStuck Loop.checking cmds a published e v = v
loop_step-IsStuck Loop.unstarted cmds a published e v = v
loop_step-IsStuck Loop.exited cmds a published e v = v

fire-IsStuck :
    (t : Timer) (a : Announcer) (published : Bool)
    → a.announce_timer ≡ t
    → IsStuck a
    → Holds IsStuck (fire a published)
unfolding fire
fire-IsStuck Timer.armed a published e v =
    rw (e, fire)
      (attempt-IsStuck false (record a { announce_timer = Timer.idle }) (prepare a) published v)
fire-IsStuck Timer.unset a published e v = rw (e, fire) v
fire-IsStuck Timer.idle a published e v = rw (e, fire) v

fire_orphan-IsStuck :
    (n : ℕ) (a : Announcer) (published : Bool)
    → a.orphans ≡ n
    → IsStuck a
    → Holds IsStuck (fire_orphan a published)
unfolding fire_orphan
fire_orphan-IsStuck zero a published e v = rw (e, fire_orphan) v
fire_orphan-IsStuck (suc n) a published e v =
    rw (e, fire_orphan) (attempt-IsStuck false (record a { orphans = n }) (prepare a) published v)

resend-IsStuck :
    (a : Announcer) (i : ℕ) (published : Bool) → IsStuck a → Holds IsStuck (resend a i published)
unfolding resend
resend-IsStuck a i published v = elim (Option-cases (pick_resend a.resends i)) [
  | inl p ↦ rw (p, resend) v
  | inr ((ann, rest), p) ↦
      rw (p, resend) (attempt-IsStuck false (record a { resends = rest }) ann published v)
]

receipt-IsStuck :
    (a : Announcer) (receipt : Option AnnouncementReceipt)
    → IsStuck a
    → Holds IsStuck (cog_receipt a receipt)
unfolding cog_receipt
receipt-IsStuck a none v = v
receipt-IsStuck a (some r) v = elim (Bool-cases (text_eq r.id a.receipt_for)) [
  | inl p ↦ rw p (rw v.0 (refl, v.1))
  | inr p ↦ rw p v
]

enqueue-IsStuck : (cmd : Command) (a : Announcer) → IsStuck a → IsStuck (enqueue cmd a)
unfolding enqueue
enqueue-IsStuck cmd a v = elim (Bool-cases (has_room a)) [ inl e ↦ rw e v | inr e ↦ rw e v ]

admit-IsStuck : (cmds : List Command) (a : Announcer) → IsStuck a → IsStuck (admit_from cmds a)
unfolding admit_from
admit-IsStuck [] a v = v
admit-IsStuck (cmd ∷ rest) a v = elim (Bool-cases (ltb (length a.control) 2)) [
  | inl e ↦ rw e v
  | inr e ↦ rw e v
]

expire-IsStuck : (t : Timer) (a : Announcer) → IsStuck a → IsStuck (expire_from t a)
unfolding expire_from
expire-IsStuck Timer.armed a v = v
expire-IsStuck Timer.unset a v = v
expire-IsStuck Timer.idle a v = v

on_event-IsStuck : (a : Announcer) (e : Event) → IsStuck a → Holds IsStuck (on_event a e)
unfolding on_event send_announcement_request halt
on_event-IsStuck a Steps.announces v = enqueue-IsStuck Command.announce_command a v
on_event-IsStuck a Steps.halts v = enqueue-IsStuck Command.stop_command a v
on_event-IsStuck a Steps.admits v = admit-IsStuck a.senders a v
on_event-IsStuck a Steps.expires v = expire-IsStuck a.announce_timer a v
on_event-IsStuck a (Steps.loops published) v = loop_step-IsStuck a.loop a.control a published refl v
on_event-IsStuck a (Steps.fires published) v = fire-IsStuck a.announce_timer a published refl v
on_event-IsStuck a (Steps.orphan_fires published) v =
    fire_orphan-IsStuck a.orphans a published refl v
on_event-IsStuck a (Steps.resends i published) v = resend-IsStuck a i published v
on_event-IsStuck a (Steps.receipts receipt) v = receipt-IsStuck a receipt v
on_event-IsStuck a (Steps.replaces snapshot) v = v
on_event-IsStuck a (Steps.removes name) v = v
on_event-IsStuck a (Steps.marks name flag) v = v
on_event-IsStuck a Steps.reconnects v = v

-- Once a request is pending while a receipt is awaited, no events, receipts included, ever bring
-- the announcer back to its waiting state or clear the flag.
pub pending_is_permanent :
    (a : Announcer) (es : List Event) → IsStuck a → Holds IsStuck (on_events a es)
unfolding on_events
pending_is_permanent a [] v = v
pending_is_permanent a (e ∷ es) v =
    Holds-bind IsStuck IsStuck (on_event a e) _ (on_event-IsStuck a e v)
      λ a' w. pending_is_permanent a' es w
