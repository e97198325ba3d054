-- ===== src/Announcer/Cycle.antt =====
-- One whole announcement, and what a receipt does in each case.
use go_relay.Base.{
  ℕ, zero, suc, ◌<◌, ◌≡◌, refl, ap, ◌∙◌, inl, inr, Bool, true, false, Bool-cases, some, List, [],
  ◌∷◌, Text, text_eq, text_eq_refl, ok, panic, ◌>>=◌, Holds, Holds-bind_eq, arith, show_nat,
  parse_uint, parse_uint-show_nat, if◌then◌else◌, if_no,
}
use go_relay.Catalog.{Catalog, epoch_acked, is_changed, current_epoch}
use go_relay.Catalog.Epochs.{IsCatalog}
use go_relay.Messages.Directives.{
  Announcement, AnnouncementReceipt, new_bundle_announcement_extended,
}
use go_relay.Announcer.{
  Announcer, Loop, Timer, Command, waiting, receipt_waiting, prepare, attempt, sent_now, loop_step,
  receive_from, handle_command, is_receipt_waiting, stop_timer, cog_receipt, new_announcer, run,
  halt, enqueue,
}
use go_relay.Announcer.Steps.{Event, on_event, on_events}
use go_relay.Announcer.Steps

-- k publish attempts that fail.
abbrev pub failures : ℕ → List Event → List Event
failures zero es = es
failures (suc k) es = Steps.loops false ∷ failures k es

-- A loop that is between two attempts stays there as long as they fail.
sending_failures :
    (k : ℕ) (a : Announcer) (ann : Announcement) (es : List Event)
    → on_events (record a { loop = Loop.sending ann }) (failures k es)
      ≡ on_events (record a { loop = Loop.sending ann }) es
unfolding on_events on_event loop_step attempt
sending_failures zero a ann es = refl
sending_failures (suc k) a ann es = sending_failures k a ann es

-- The announcer at rest with a request to announce in front.
pub record IsRequested (a : Announcer) (rest : List Command) : Type 0 where
  pub loop_ready : a.loop ≡ Loop.ready
  pub at_rest : a.state ≡ waiting
  pub not_pending : a.announcement_pending ≡ false
  pub requested : a.control ≡ Command.announce_command ∷ rest
  pub catalog_fits : IsCatalog a.catalog

-- The state after the announcement has been published, before the timer is created.
abbrev published : Announcer → List Command → Announcer
published a rest = record a {
  control = rest;
  receipt_for = (prepare a).id;
  state = receipt_waiting;
  loop = Loop.arming;
  sent = prepare a ∷ a.sent;
}

-- The loop takes the request and makes its first attempt.
request_step :
    (a : Announcer) (rest : List Command) (outcome : Bool)
    → IsRequested a rest
    → on_event a (Steps.loops outcome)
      ≡ attempt true (record a { control = rest }) (prepare a) outcome
unfolding on_event loop_step prepare
request_step a rest outcome r =
    ap (λ l. loop_step l a outcome) r.loop_ready
    ∙ ap (λ cmds. receive_from cmds a outcome) r.requested
    ∙ ap
        (λ s.
          if is_receipt_waiting s
          then ok (record a { control = rest; announcement_pending = true })
          else attempt true (record a { control = rest }) (prepare a) outcome)
        r.at_rest

-- However often publishing fails first, what is published once is what was prepared.
first_publish :
    (k : ℕ) (a : Announcer) (rest : List Command) (es : List Event)
    → IsRequested a rest
    → on_events a (failures k (Steps.loops true ∷ es)) ≡ on_events (published a rest) es
unfolding on_events attempt sent_now
first_publish zero a rest es r = ap (λ m. m >>= λ b. on_events b es) (request_step a rest true r)
first_publish (suc k) a rest es r =
    ap (λ m. m >>= λ b. on_events b (failures k (Steps.loops true ∷ es)))
      (request_step a rest false r)
    ∙ sending_failures k (record a { control = rest }) (prepare a) (Steps.loops true ∷ es)
    ∙ unfold on_event loop_step in refl

-- At rest again, with the current epoch acked and one announcement more published.
abbrev pub announced : Announcer → List Command → Announcer
announced a rest = record a {
  control = rest;
  catalog = record a.catalog { last_acked = a.catalog.epoch };
  receipt_for = [];
  state = waiting;
  loop = Loop.ready;
  announce_timer = Timer.idle;
  orphans = elim a.announce_timer [ Timer.armed ↦ suc a.orphans | _ ↦ a.orphans ];
  sent = prepare a ∷ a.sent;
}

-- The receipt that Cog sends for the announcement that `a` publishes next.
abbrev pub receipt_of : Announcer → Text → AnnouncementReceipt
receipt_of a status = record { id = show_nat (current_epoch a.catalog); status = status }

ack_current :
    (c : Catalog)
    → IsCatalog c
    → epoch_acked c (parse_uint (show_nat c.epoch)) ≡ record c { last_acked = c.epoch }
unfolding epoch_acked
ack_current c v = rw (parse_uint-show_nat c.epoch v.fits) (ground arith)

receipt_step :
    (a : Announcer) (rest : List Command) (status : Text)
    → IsRequested a rest
    → cog_receipt
        (record (published a rest) {
          loop = Loop.ready;
          announce_timer = Timer.armed;
          orphans = elim a.announce_timer [ Timer.armed ↦ suc a.orphans | _ ↦ a.orphans ];
        })
        (some (receipt_of a status))
      ≡ ok (announced a rest)
unfolding cog_receipt prepare new_bundle_announcement_extended current_epoch stop_timer
receipt_step a rest status r = rw (text_eq_refl (show_nat a.catalog.epoch)) (
    if_no _ _ r.not_pending
    ∙ ap (λ c. ok (record (announced a rest) { catalog = c }))
        (ack_current a.catalog r.catalog_fits))

-- A request that finds the announcer at rest is published once, however often publishing fails
-- first, and after Cog's receipt, whatever its status, the announcer is at rest again with nothing
-- left to announce and its timer stopped.
pub announce_cycle :
    (k : ℕ) (a : Announcer) (rest : List Command) (status : Text)
    → IsRequested a rest
    → (on_events a (
          failures k (
            Steps.loops true ∷ Steps.loops true ∷ Steps.receipts (some (receipt_of a status)) ∷ []))
        ≡ ok (announced a rest))
      × (is_changed (announced a rest).catalog ≡ false)
unfolding on_events
announce_cycle k a rest status r = (
  first_publish k a rest _ r
      ∙ (unfold on_event loop_step in ap (λ m. m >>= ok) (receipt_step a rest status r)),
  unfold is_changed in ground arith,
)

-- A halt that is received before the first announcement has created the timer is a panic.
pub early_halt_panics :
    (relay_id : Text) (c : Catalog) (outcome : Bool)
    → (do
      a ← run (ok tt) (new_announcer relay_id c)
      on_events a (Steps.halts ∷ Steps.loops outcome ∷ Steps.loops outcome ∷ []))
      ≡ panic
unfolding run new_announcer on_events on_event halt enqueue loop_step handle_command receive_from
    stop_timer
early_halt_panics relay_id c outcome = refl

zero_ack :
    (c : Catalog)
    → 0 < c.epoch
    → ((epoch_acked c 0).last_acked ≡ 0) × (is_changed (epoch_acked c 0) ≡ true)
unfolding epoch_acked is_changed
zero_ack c h = (ground arith, ground arith)

-- While no receipt is awaited, a receipt with an empty id is taken for one: it sets the acked epoch
-- back to 0, so that a catalog whose epoch is not 0 counts as changed again.
pub empty_receipt_resets :
    (a : Announcer) (status : Text)
    → a.receipt_for ≡ []
    → 0 < a.catalog.epoch
    → Holds
        (λ b. (b.catalog.last_acked ≡ 0) × (is_changed b.catalog ≡ true))
        (cog_receipt a (some (record { id = []; status = status })))
unfolding cog_receipt text_eq parse_uint
empty_receipt_resets a status e h = rw e (elim (Bool-cases a.announcement_pending) [
  | inl p ↦ rw p (zero_ack a.catalog h)
  | inr p ↦ rw p (
      Holds-bind_eq (λ b. (b.catalog.last_acked ≡ 0) × (is_changed b.catalog ≡ true))
        (stop_timer a.announce_timer) _ λ t _. zero_ack a.catalog h)
])
