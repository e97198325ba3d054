-- ===== src/Updater/Session.antt =====
-- The updater's life: it connects, asks Cog for configurations at every refresh, and stops. `conn`
-- tells whether handleBusEvents has stored the connection, `disconnected` whether the updater has
-- closed it and its waiting goroutine has ended, and `refresh_timer` whether the timer was made and is
-- armed; `disk` and `requests` record what the updater did to its surroundings. The bus
-- options are those of Bus.Connection, and the interval is left to the scheduler.
use go_relay.Base.{
  ◌≡◌, refl, Bool, true, false, not, ◌&&◌, Option, none, some, List, [], ◌∷◌, ◌++◌, Text, lit,
  Table, Outcome, ok, err, panic, ◌>>=◌, if◌then◌else◌,
}
use go_relay.Messages.Directives.{DynamicConfigsResponseEnvelope, GetDynamicConfigs}
use go_relay.Updater.{Node, Disk, dyn_config_update}

pub record DynamicConfigUpdater : Type 0 where
  pub id : Text
  pub config_topic : Text
  pub conn : Bool
  pub disconnected : Bool
  pub dynamic_config_root : Text
  pub refresh_timer : Option Bool
  pub last_signature : Text
  pub disk : Disk
  pub requests : List GetDynamicConfigs

unfoldable pub new_dynamic_config_updater : Text → Text → Disk → DynamicConfigUpdater
new_dynamic_config_updater relay_id root d = record {
  id = relay_id;
  config_topic = lit "bot/relays/" ++ (relay_id ++ lit "/dynconfigs");
  conn = false;
  disconnected = false;
  refresh_timer = none;
  dynamic_config_root = root;
  last_signature = [];
  disk = d;
  requests = [];
}

-- A call on a nil timer panics.
abbrev pub set_timer : Bool → Option Bool → Outcome (Option Bool)
set_timer armed none = panic
set_timer armed (some b) = ok (some armed)

unfoldable pub handle_bus_events :
    Outcome (Unit {0}) → DynamicConfigUpdater → Outcome DynamicConfigUpdater
handle_bus_events (ok _) u = ok (record u { conn = true })
handle_bus_events (err e) u = panic
handle_bus_events panic u = panic

abbrev pub request_of : DynamicConfigUpdater → GetDynamicConfigs
request_of u = record { relay_id = u.id; signature = u.last_signature; reply_to = u.config_topic }

-- `published` is the outcome of the publish.
unfoldable pub refresh_configs : Bool → DynamicConfigUpdater → Outcome DynamicConfigUpdater
refresh_configs published u =
    if u.conn
    then (if published
        then ok (record u { requests = request_of u ∷ u.requests })
        else (do t ← set_timer true u.refresh_timer; ok (record u { refresh_timer = t })))
    else panic

-- Run behind a successful Connect; `connected` tells whether the bus event has arrived by then, on
-- its own goroutine.
unfoldable pub run : Bool → Bool → DynamicConfigUpdater → Outcome DynamicConfigUpdater
unfolding refresh_configs
run connected published u = do
  u' ← refresh_configs published (record u { conn = connected })
  ok (record u' { refresh_timer = some true })

-- The timer's callback, if it is armed.
abbrev pub fire_from : Option Bool → Bool → DynamicConfigUpdater → Outcome DynamicConfigUpdater
fire_from (some true) published u =
    refresh_configs published (record u { refresh_timer = some false })
fire_from _ published u = ok u

unfoldable pub fire : Bool → DynamicConfigUpdater → Outcome DynamicConfigUpdater
unfolding refresh_configs
fire published u = fire_from u.refresh_timer published u

-- Halt, received by the goroutine that waits for it.
unfoldable pub wait : DynamicConfigUpdater → Outcome DynamicConfigUpdater
wait u = do
  t ← set_timer false u.refresh_timer
  ok (record u { refresh_timer = t; disconnected = true })

-- Nobody receives a second Halt, whose sender blocks.
unfoldable pub halt : DynamicConfigUpdater → Outcome DynamicConfigUpdater
unfolding wait
halt u = if u.disconnected then ok u else wait u

abbrev pub is_panic {ℓ} : {A : Type ℓ} → Outcome A → Bool
is_panic (ok a) = false
is_panic (err e) = false
is_panic panic = true

-- A new updater panics when it is run, unless the bus event has arrived by the time that Connect
-- returns and the first request can be published.
pub run_panics :
    (relay_id root : Text) (d : Disk) (connected published : Bool)
    → is_panic (run connected published (new_dynamic_config_updater relay_id root d))
      ≡ not (connected && published)
unfolding run new_dynamic_config_updater
run_panics relay_id root d true true = refl
run_panics relay_id root d true false = refl
run_panics relay_id root d false published = refl

-- What happens to an updater that was run: the timer fires, a configuration arrives, the connection
-- is made again, with this outcome of the subscription, or the updater is told to halt.
pub data Event (C : Type 0) : Type 0 where
  fires : Bool → Event C
  receives : DynamicConfigsResponseEnvelope C → Event C
  reconnects : Outcome (Unit {0}) → Event C
  halts : Event C

module _ {C : Type 0} (join_path : List Text → Text) (marshal : C → Option Text)
    (glob : Table Node → List Text) where
  -- What a received configuration does to the updater: the deferred reset comes last.
  unfoldable pub on_update :
      DynamicConfigsResponseEnvelope C → DynamicConfigUpdater → Outcome DynamicConfigUpdater
  on_update envelope u = do
    let (signature, d) =
        dyn_config_update join_path marshal glob u.dynamic_config_root envelope
          (u.last_signature, u.disk)
    t ← set_timer true u.refresh_timer
    ok (record u { refresh_timer = t; last_signature = signature; disk = d })

  unfoldable pub on_event : Event C → DynamicConfigUpdater → Outcome DynamicConfigUpdater
  unfolding fire on_update handle_bus_events halt
  on_event (fires published) u = fire published u
  on_event (receives envelope) u = on_update envelope u
  on_event (reconnects subscribed) u = handle_bus_events subscribed u
  on_event halts u = halt u

  unfoldable pub on_events : List (Event C) → DynamicConfigUpdater → Outcome DynamicConfigUpdater
  unfolding on_event
  on_events [] u = ok u
  on_events (e ∷ es) u = do u' ← on_event e u; on_events es u'
