-- ===== src/Relay/Started.antt =====
-- A relay that has started, with whatever happens to it until it is stopped.
use go_relay.Base.{◌≡◌, refl, inl, inr, Bool, true, false, ◌&&◌, arith, if◌then◌else◌}
use go_relay.Announcer as Announcer
use go_relay.Announcer.{Announcer, unset, armed, waiting, new_announcer, halt}
use go_relay.Announcer.Runs.{new_announcer-IsTracked}
use go_relay.Announcer.Tracking.{with_loop}
use go_relay.Catalog.{new_catalog}
use go_relay.Relay.Events.{World}
use go_relay.Relay.Interrupted.{IsStoppable}
use go_relay.Relay.Reached.{IsSound}
use go_relay.Relay.Running.{updater_of, first_connected}
use go_relay.Relay.Session.{Settings, Relay, Answers, new_relay}
use go_relay.Updater.Session.{new_dynamic_config_updater}
use go_relay.Relay.Stopping.{is_nil, IsTimed}

-- What Relay.Running.start_lem gives.
abbrev pub started_relay : Settings → Answers → Relay
started_relay s o = record (first_connected s o) {
  clean_timer = if s.docker_enabled then armed else unset;
}

abbrev pub started_world : Settings → Answers → World
started_world s o = record {
  relay = started_relay s o;
  orphans = 0;
  replies = 0;
  loads = 1;
  listing = 0;
  connecting = 0;
}

pub started_world-IsSound : (s : Settings) (o : Answers) → IsSound s (started_world s o)
unfolding new_announcer new_relay
started_world-IsSound s o = (
  record {
    announcer = (
      record (new_announcer s.id new_catalog) { state = waiting; loop = Announcer.ready },
      refl,
      with_loop (record (new_announcer s.id new_catalog) { state = waiting }) Announcer.ready tt
          (new_announcer-IsTracked s.id new_catalog (unfold new_catalog in omega arith)
            (unfold new_catalog in refl)),
    );
    requests = ((refl, refl), tt);
    topics = (inr (inr refl), (inr (inl refl), (inl refl, tt)));
  },
  omega arith,
)

updater-IsTimed : (s : Settings) (o : Answers) (managed : Bool) → IsTimed (updater_of s o managed)
unfolding new_dynamic_config_updater
updater-IsTimed s o false = tt
updater-IsTimed s o true = (true, refl, refl)

clean_timer-is_nil : (docker : Bool) → (docker && is_nil (if docker then armed else unset)) ≡ false
clean_timer-is_nil true = refl
clean_timer-is_nil false = refl

pub started_relay-IsStoppable : (s : Settings) (o : Answers) → IsStoppable s (started_relay s o)
started_relay-IsStoppable s o =
    (clean_timer-is_nil s.docker_enabled, updater-IsTimed s o s.managed_dynamic_config)
