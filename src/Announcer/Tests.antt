-- ===== src/Announcer/Tests.antt =====
-- The announcer at work.
use go_relay.Base.{
  List, ◌≡◌, refl, true, false, none, some, [], ◌∷◌, Text, lit, ok, panic, ◌>>=◌, Holds, arith,
  lookup,
}
use go_relay.Config.Bundle.{Bundle}
use go_relay.Catalog.{new_catalog, is_changed}
use go_relay.Announcer.{
  Announcer, Loop, Timer, announce_command, waiting, receipt_waiting, new_announcer, run,
  cog_receipt,
}
use go_relay.Announcer.Steps.{Event, on_event, on_events}
use go_relay.Announcer.Steps
use go_relay.Announcer.Tracking.{IsTracked, with_loop}
use go_relay.Announcer.Runs.{on_events-IsTracked, new_announcer-IsTracked}
use go_relay.Announcer.Pending.{IsStuck, pending_is_permanent}
use go_relay.Announcer.Cycle.{
  failures, IsRequested, announced, receipt_of, announce_cycle, early_halt_panics,
  empty_receipt_resets,
}

abbrev fresh : Announcer
fresh = new_announcer (lit "r1") new_catalog

-- The announcer once it runs.
abbrev started : Announcer
started = record fresh { state = waiting; loop = Loop.ready }

-- An announcement that fails once, whose timer expires before its receipt and sends behind it.
abbrev events : List Event
events =
    Steps.announces
    ∷ Steps.loops false
    ∷ Steps.loops true
    ∷ Steps.loops true
    ∷ Steps.expires
    ∷ Steps.receipts (some (record { id = lit "0"; status = lit "success" }))
    ∷ Steps.orphan_fires true
    ∷ []

on_events-IsTracked_example : Holds IsTracked (on_events started events)
on_events-IsTracked_example = on_events-IsTracked started events (
    with_loop (record fresh { state = waiting }) Loop.ready tt
      (new_announcer-IsTracked (lit "r1") new_catalog (unfold new_catalog in omega arith)
        (unfold new_catalog in refl)))

abbrev requested : Announcer
requested = record {
  id = lit "r1";
  receipt_topic = lit "bot/relays/r1/announcer";
  catalog = record { last_acked = 0; epoch = 3; bundles = [] };
  state = waiting;
  control = announce_command ∷ [];
  senders = [];
  receipt_for = [];
  announce_timer = Timer.unset;
  announcement_pending = false;
  loop = Loop.ready;
  resends = [];
  orphans = 0;
  sent = [];
}

none_there : (k : Text) (b : Bundle) → lookup k [] ≡ some b → b.name ≡ k
unfolding lookup
none_there k b e = cc

requested-IsRequested : IsRequested requested []
requested-IsRequested = record {
  loop_ready = refl;
  at_rest = refl;
  not_pending = refl;
  requested = refl;
  catalog_fits = record { table = tt; named = none_there; acked = omega arith; fits = omega arith };
}

announce_cycle_example :
    (on_events requested (
        failures 2 (
          Steps.loops true
          ∷ Steps.loops true
          ∷ Steps.receipts (some (receipt_of requested (lit "success")))
          ∷ []))
      ≡ ok (announced requested []))
    × (is_changed (announced requested []).catalog ≡ false)
announce_cycle_example = announce_cycle 2 requested [] (lit "success") requested-IsRequested

abbrev stuck : Announcer
stuck = record requested { announcement_pending = true; state = receipt_waiting }

pending_is_permanent_example :
    Holds IsStuck (on_events stuck (Steps.receipts none ∷ Steps.fires true ∷ []))
pending_is_permanent_example =
    pending_is_permanent stuck (Steps.receipts none ∷ Steps.fires true ∷ []) (refl, refl)

early_halt :
    (do
      a ← run (ok tt) (new_announcer (lit "r1") new_catalog)
      on_events a (Steps.halts ∷ Steps.loops true ∷ Steps.loops true ∷ []))
    ≡ panic
early_halt = early_halt_panics (lit "r1") new_catalog true

empty_receipt :
    Holds
      (λ b. (b.catalog.last_acked ≡ 0) × (is_changed b.catalog ≡ true))
      (cog_receipt requested (some (record { id = []; status = lit "success" })))
empty_receipt = empty_receipt_resets requested (lit "success") refl (omega arith)
