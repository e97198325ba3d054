-- ===== src/Updater/Running.antt =====
-- An updater that was run, over everything that happens to it: what it keeps, and when it panics.
use go_relay.Base.{
  ◌≡◌, refl, sym, subst, Bool, true, false, ◌||◌, Option, none, some, List, [], ◌∷◌, Text, Table,
  All, Outcome, ok, err, panic, ◌>>=◌, Returns, Returns-bind, if◌then◌else◌,
}
use go_relay.Updater.{Node, Disk}
use go_relay.Updater.Session.{
  DynamicConfigUpdater, set_timer, handle_bus_events, refresh_configs, fire_from, fire, wait, halt,
  is_panic, Event, fires, receives, reconnects, halts, on_update, on_event, on_events,
}

-- A subscription that fails.
abbrev pub fails : {C : Type 0} → Event C → Bool
fails (fires published) = false
fails (receives envelope) = false
fails (reconnects (ok u)) = false
fails (reconnects (err e)) = true
fails (reconnects panic) = true
fails halts = false

abbrev pub any_fails : {C : Type 0} → List (Event C) → Bool
any_fails [] = false
any_fails (e ∷ es) = fails e || any_fails es

-- Whether the updater is halted after an event and after all of them.
abbrev pub halted_by : {C : Type 0} → Event C → Bool → Bool
halted_by (fires published) halted = halted
halted_by (receives envelope) halted = halted
halted_by (reconnects subscribed) halted = halted
halted_by halts halted = true

abbrev pub halted_after : {C : Type 0} → List (Event C) → Bool → Bool
halted_after [] halted = halted
halted_after (e ∷ es) halted = halted_after es (halted_by e halted)

-- A panic, or else a result that satisfies `P`.
abbrev pub Ends : Bool → (DynamicConfigUpdater → Type 0) → Outcome DynamicConfigUpdater → Type 0
Ends true P m = is_panic m ≡ true
Ends false P m = Returns P m

-- The updater has its identity, a connection to call and a timer, it has disconnected if it was
-- halted and not otherwise, and every request that it made asks for the configurations of this relay,
-- on its own topic.
pub record IsEquipped (relay_id topic : Text) (halted : Bool) (u : DynamicConfigUpdater)
    : Type 0 where
  pub has_disconnected : u.disconnected ≡ halted
  pub connected : u.conn ≡ true
  pub own_id : u.id ≡ relay_id
  pub own_topic : u.config_topic ≡ topic
  pub timer : (armed : Bool) × (u.refresh_timer ≡ some armed)
  pub own_requests : All (λ r. (r.relay_id ≡ relay_id) × (r.reply_to ≡ topic)) u.requests

set_timer-Returns :
    (to : Bool) (t : Option Bool)
    → (armed : Bool) × (t ≡ some armed)
    → Returns (λ t'. (armed : Bool) × (t' ≡ some armed)) (set_timer to t)
set_timer-Returns to t (armed, e) =
    subst (λ t. Returns (λ t'. (armed : Bool) × (t' ≡ some armed)) (set_timer to t)) (sym e)
      (to, refl)

module _ (relay_id topic : Text) (halted : Bool) where
  IsMine : DynamicConfigUpdater → Type 0
  IsMine = IsEquipped relay_id topic halted

  behind_conn :
      {c : Bool} (m : Outcome DynamicConfigUpdater)
      → c ≡ true
      → Returns IsMine m
      → Returns IsMine (if c then m else panic)
  behind_conn m e h = subst (λ c. Returns IsMine (if c then m else panic)) (sym e) h

  -- The timer may be set and the signature and the disk changed at will.
  timed :
      (to : Bool) (signature : Text) (d : Disk) (u : DynamicConfigUpdater)
      → IsMine u
      → Returns IsMine (do
        t ← set_timer to u.refresh_timer
        ok (record u { refresh_timer = t; last_signature = signature; disk = d }))
  unfolding IsMine
  timed to signature d u h =
      Returns-bind _ IsMine (set_timer to u.refresh_timer) _
        (set_timer-Returns to u.refresh_timer h.timer)
        (λ t p. record {
          has_disconnected = h.has_disconnected;
          connected = h.connected;
          own_id = h.own_id;
          own_topic = h.own_topic;
          timer = p;
          own_requests = h.own_requests;
        })

  refresh_configs-Returns :
      (published : Bool) (u : DynamicConfigUpdater)
      → IsMine u
      → Returns IsMine (refresh_configs published u)
  unfolding refresh_configs IsMine
  refresh_configs-Returns true u h = behind_conn _ h.connected (record {
    has_disconnected = h.has_disconnected;
    connected = h.connected;
    own_id = h.own_id;
    own_topic = h.own_topic;
    timer = h.timer;
    own_requests = ((h.own_id, h.own_topic), h.own_requests);
  })
  refresh_configs-Returns false u h =
      behind_conn _ h.connected (timed true u.last_signature u.disk u h)

  fire_from-Returns :
      (t : Option Bool) (published : Bool) (u : DynamicConfigUpdater)
      → IsMine u
      → Returns IsMine (fire_from t published u)
  unfolding IsMine
  fire_from-Returns none published u h = h
  fire_from-Returns (some false) published u h = h
  fire_from-Returns (some true) published u h =
      refresh_configs-Returns published (record u { refresh_timer = some false })
        (record {
          has_disconnected = h.has_disconnected;
          connected = h.connected;
          own_id = h.own_id;
          own_topic = h.own_topic;
          timer = (false, refl);
          own_requests = h.own_requests;
        })

module _ {C : Type 0} (join_path : List Text → Text) (marshal : C → Option Text)
    (glob : Table Node → List Text) where
  module _ (relay_id topic : Text) where
    Ends-bind :
        (a b : Bool) (P Q : DynamicConfigUpdater → Type 0) (m : Outcome DynamicConfigUpdater)
        (f : DynamicConfigUpdater → Outcome DynamicConfigUpdater)
        → Ends a P m
        → ((u : DynamicConfigUpdater) → P u → Ends b Q (f u))
        → Ends (a || b) Q (m >>= f)
    Ends-bind true b P Q (ok u) f h k = cc h
    Ends-bind true b P Q (err e) f h k = cc h
    Ends-bind true b P Q panic f h k = refl
    Ends-bind false b P Q (ok u) f h k = k u h
    Ends-bind false b P Q (err e) f h k = absurd h
    Ends-bind false b P Q panic f h k = absurd h

    reconnected :
        (halted : Bool) (u : DynamicConfigUpdater)
        → IsMine relay_id topic halted u
        → IsMine relay_id topic halted (record u { conn = true })
    unfolding IsMine
    reconnected halted u h = record {
      has_disconnected = h.has_disconnected;
      connected = refl;
      own_id = h.own_id;
      own_topic = h.own_topic;
      timer = h.timer;
      own_requests = h.own_requests;
    }

    halt-Returns :
        (halted : Bool) (u : DynamicConfigUpdater)
        → IsMine relay_id topic halted u
        → Returns (IsMine relay_id topic true) (halt u)
    unfolding halt wait IsMine
    halt-Returns halted u h = by_halted u.disconnected refl
      where
        by_halted :
            (b : Bool)
            → u.disconnected ≡ b
            → Returns (IsMine relay_id topic true) (if b then ok u else wait u)
        by_halted true e = record {
          has_disconnected = e;
          connected = h.connected;
          own_id = h.own_id;
          own_topic = h.own_topic;
          timer = h.timer;
          own_requests = h.own_requests;
        }
        by_halted false e =
            Returns-bind _ (IsMine relay_id topic true) (set_timer false u.refresh_timer) _
              (set_timer-Returns false u.refresh_timer h.timer)
              (λ t p. record {
                has_disconnected = refl;
                connected = h.connected;
                own_id = h.own_id;
                own_topic = h.own_topic;
                timer = p;
                own_requests = h.own_requests;
              })

    on_event-Ends :
        (e : Event C) (halted : Bool) (u : DynamicConfigUpdater)
        → IsMine relay_id topic halted u
        → Ends
            (fails e)
            (IsMine relay_id topic (halted_by e halted))
            (on_event join_path marshal glob e u)
    unfolding on_event fire on_update handle_bus_events
    on_event-Ends (fires published) halted u h =
        fire_from-Returns relay_id topic halted u.refresh_timer published u h
    on_event-Ends (receives envelope) halted u h = timed relay_id topic halted true _ _ u h
    on_event-Ends (reconnects (ok subscribed)) halted u h = reconnected halted u h
    on_event-Ends (reconnects (err e)) halted u h = refl
    on_event-Ends (reconnects panic) halted u h = refl
    on_event-Ends halts halted u h = halt-Returns halted u h

    -- Whatever happens to an updater that was run, in any order: it panics if a subscription to a
    -- connection that was made again fails, and otherwise it neither fails nor panics, still has its
    -- connection and its timer, has disconnected exactly if it was halted, and every request that it
    -- has made is of this relay and asks for its own topic.
    pub on_events-IsEquipped :
        (es : List (Event C)) (halted : Bool) (u : DynamicConfigUpdater)
        → IsEquipped relay_id topic halted u
        → Ends
            (any_fails es)
            (IsEquipped relay_id topic (halted_after es halted))
            (on_events join_path marshal glob es u)
    unfolding on_events IsMine
    on_events-IsEquipped [] halted u h = h
    on_events-IsEquipped (e ∷ es) halted u h =
        Ends-bind (fails e) (any_fails es) (IsMine relay_id topic (halted_by e halted))
          (IsMine relay_id topic (halted_after (e ∷ es) halted))
          (on_event join_path marshal glob e u) (on_events join_path marshal glob es)
          (on_event-Ends e halted u h) (on_events-IsEquipped es (halted_by e halted))
