-- ===== src/Relay/Interrupted.antt =====
-- A stop in any state that a relay reaches.
use go_relay.Base.{
  ◌≡◌, refl, sym, ap, ◌∙◌, subst, Bool, true, false, ◌&&◌, Option, some, [], ◌∷◌, ◌++◌, Text,
  Outcome, ok, err, panic, ◌>>=◌, Holds, Holds-bind, Holds-bind_eq, Holds-mono, Holds-ok, Returns,
  Returns-mono, ltb, if◌then◌else◌,
}
use go_relay.Announcer.{
  Announcer, stop_command, has_room, enqueue, armed, halt, send_announcement_request,
}
use go_relay.Announcer.Tracking.{IsTracked}
use go_relay.Catalog.{Catalog, len, reconnected}
use go_relay.Messages.Directives.{ListBundlesResponseEnvelope}
use go_relay.Relay.{update_catalog}
use go_relay.Relay.Events.{
  World, Step, Reach, connects, connects_waits, connects_on, lists, lists_waits, lists_on,
  refreshes, orphan_refreshes, cleans, invokes, announces, here, next,
}
use go_relay.Relay.Lifecycle.{stop, halt_announcer, is_open}
use go_relay.Relay.Reached.{IsSound, Reach-IsSound}
use go_relay.Relay.Serving.{IsServing, set_subscriptions_lem, required-Holds}
use go_relay.Relay.Session.{
  Settings, Relay, Answers, catalog_of, set_catalog, required, set_subscriptions, request_bundles,
  announce_connected, load_or_announce, handle_bus_events, handle_directive, after_update,
  request_announcement, handle_command, scheduled_bundle_refresh, orphan_bundle_refresh,
  scheduled_docker_cleanup, announcer_topic, commands_topic, directives_topic,
}
use go_relay.Relay.Stopping.{is_armed, is_nil, is_refreshing, IsTimed, stop_lem}

-- The timers that Stop stops, but for the bundle timer, are those of `r`.
abbrev Same : Relay → Relay → Type 0
Same r r' = (r'.clean_timer ≡ r.clean_timer) × (r'.updater ≡ r.updater)

-- Stop finds the timers that it stops unchecked.
abbrev pub IsStoppable : Settings → Relay → Type 0
IsStoppable s r = ((s.docker_enabled && is_nil r.clean_timer) ≡ false) × IsTimed r.updater

Same-IsStoppable : (s : Settings) (r r' : Relay) → Same r r' → IsStoppable s r → IsStoppable s r'
Same-IsStoppable s r r' (c, u) (h, t) =
    (ap (λ x. s.docker_enabled && is_nil x) c ∙ h, subst IsTimed (sym u) t)

module _ (s : Settings) where
  announce_connected-Same :
      (o : Answers) (r : Relay) (a : Announcer)
      → r.announcer ≡ some a
      → Holds (Same r) (announce_connected s o r.announcer (record r { conn = true }))
  announce_connected-Same o r a q =
      subst (λ x. Holds (Same r) (announce_connected s o x (record r { conn = true }))) (sym q)
        (by_answer (o.subscribed (announcer_topic s)))
    where
      by_answer :
          (m : Outcome (Unit {0}))
          → Holds (Same r) (
              required m >>= λ u. ok (record r {
                conn = true;
                announcer = some (send_announcement_request a);
                subscriptions = announcer_topic s ∷ r.subscriptions;
              }))
      by_answer (ok u) = (refl, refl)
      by_answer (err e) = tt
      by_answer panic = tt

  set_subscriptions-Same :
      (o : Answers) (r : Relay) → Holds (Same r) (required (set_subscriptions s o r))
  set_subscriptions-Same o r = required-Holds s (Same r) (set_subscriptions s o r) (
      Holds-mono
        (λ r'.
          r' ≡ record r { subscriptions = commands_topic s ∷ directives_topic s ∷ r.subscriptions })
        (Same r) (set_subscriptions s o r)
        (λ r' e. (ap (λ (x : Relay). x.clean_timer) e, ap (λ (x : Relay). x.updater) e))
        (set_subscriptions_lem s o r))

  load_or_announce-Same :
      (published : Bool) (c : Catalog) (r : Relay) → Same r (load_or_announce s published c r)
  unfolding request_bundles
  load_or_announce-Same published c r = by_size (ltb 0 (len c)) published
    where
      by_size :
          (b p : Bool) → Same r (if b then set_catalog (reconnected c) r else request_bundles s p r)
      by_size true p = (refl, refl)
      by_size false true = (refl, refl)
      by_size false false = (refl, refl)

  handle_bus_events-Same :
      (o : Answers) (r : Relay) (a : Announcer)
      → r.announcer ≡ some a
      → Holds (Same r) (handle_bus_events s o r)
  unfolding handle_bus_events
  handle_bus_events-Same o r a q =
      Holds-bind (Same r) (Same r) (announce_connected s o r.announcer (record r { conn = true })) _
        (announce_connected-Same o r a q)
        (λ r1 h1.
          Holds-bind (Same r1) (Same r) (required (set_subscriptions s o r1)) _
            (set_subscriptions-Same o r1)
            (λ r2 h2.
              let h3 = load_or_announce-Same o.published (catalog_of r2.announcer r2.catalog) r2 in
              (h3.0 ∙ h2.0 ∙ h1.0, h3.1 ∙ h2.1 ∙ h1.1)))

  handle_directive-Same :
      (images : Text → Text → Bool) (envelope : ListBundlesResponseEnvelope) (r : Relay)
      → Holds (Same r) (handle_directive s images (ok envelope) r)
  unfolding handle_directive
  handle_directive-Same images envelope r =
      Holds-bind_eq (Same r)
        (update_catalog s.docker_enabled s.native_enabled images envelope
          (catalog_of r.announcer r.catalog))
        _ (λ u e. updated u.0 u.1)
    where
      updated : (c : Catalog) (asks : Bool) → Holds (Same r) (after_update s (c, asks) r)
      updated c false = (refl, refl)
      updated c true = by_announcer (request_announcement s (set_catalog c r).announcer)
        where
          by_announcer :
              (m : Outcome (Option Announcer))
              → Holds
                  (Same r)
                  (m >>= λ a. ok (record (set_catalog c r) { announcer = a; bundle_timer = armed }))
          by_announcer (ok a) = (refl, refl)
          by_announcer (err e) = tt
          by_announcer panic = tt

  scheduled_bundle_refresh-Same :
      (published : Bool) (r : Relay) → Same r (scheduled_bundle_refresh s published r)
  unfolding scheduled_bundle_refresh request_bundles
  scheduled_bundle_refresh-Same true r = (refl, refl)
  scheduled_bundle_refresh-Same false r = (refl, refl)

  orphan_bundle_refresh-Same :
      (published : Bool) (r : Relay) → Same r (orphan_bundle_refresh s published r)
  unfolding orphan_bundle_refresh request_bundles
  orphan_bundle_refresh-Same true r = (refl, refl)
  orphan_bundle_refresh-Same false r = (refl, refl)

  armed_clean_timer : (docker : Bool) → (docker && is_nil armed) ≡ false
  armed_clean_timer true = refl
  armed_clean_timer false = refl

  Step-IsStoppable :
      {w u : World}
      → Step s w u
      → IsServing s w.relay
      → IsStoppable s w.relay
      → IsStoppable s u.relay
  Step-IsStoppable {w} (connects o r roomy e) v h =
      Same-IsStoppable s w.relay r
        (Holds-ok (Same w.relay) _ (handle_bus_events-Same o w.relay v.announcer.0 v.announcer.1) e)
        h
  Step-IsStoppable {w} (connects_waits o r full e) v h =
      Same-IsStoppable s w.relay r
        (Holds-ok (Same w.relay) _ (announce_connected-Same o w.relay v.announcer.0 v.announcer.1)
          e)
        h
  Step-IsStoppable {w} (connects_on o r n k e) v h =
      let (c, u) = Holds-ok (Same w.relay) _ (set_subscriptions-Same o w.relay) e in
      let (c', u') = load_or_announce-Same o.published (catalog_of r.announcer r.catalog) r in
      Same-IsStoppable s w.relay
        (load_or_announce s o.published (catalog_of r.announcer r.catalog) r) (c' ∙ c, u' ∙ u) h
  Step-IsStoppable {w} (lists_waits images envelope r e blocked) v h =
      let (c, u) = Holds-ok (Same w.relay) _ (handle_directive-Same images envelope w.relay) e in
      Same-IsStoppable s w.relay (record r { bundle_timer = w.relay.bundle_timer }) (c, u) h
  Step-IsStoppable (lists_on n k) v h = h
  Step-IsStoppable {w} (lists images envelope r e sent) v h =
      Same-IsStoppable s w.relay r
        (Holds-ok (Same w.relay) _ (handle_directive-Same images envelope w.relay) e) h
  Step-IsStoppable {w} (refreshes published e) v h =
      Same-IsStoppable s w.relay (scheduled_bundle_refresh s published w.relay)
        (scheduled_bundle_refresh-Same published w.relay) h
  Step-IsStoppable {w} (orphan_refreshes published n e) v h =
      Same-IsStoppable s w.relay (orphan_bundle_refresh s published w.relay)
        (orphan_bundle_refresh-Same published w.relay) h
  Step-IsStoppable cleans v h =
      unfold scheduled_docker_cleanup in (armed_clean_timer s.docker_enabled, h.1)
  Step-IsStoppable (invokes topic message) v h = unfold handle_command in h
  Step-IsStoppable (announces e a b q own k) v h = h

  Reach-IsStoppable :
      (w u : World) → Reach s w u → IsSound s w → IsStoppable s w.relay → IsStoppable s u.relay
  Reach-IsStoppable w u here v h = h
  Reach-IsStoppable w u (next {v = m} r st) v h =
      Step-IsStoppable st (Reach-IsSound s w m r v).0 (Reach-IsStoppable w m r v h)

-- The announcer, which is tracked, has room for a command and has been sent its stop.
abbrev pub IsTold : Option Announcer → Option Announcer → Type 0
IsTold o o' =
    (a : Announcer) × (o ≡ some a)
    × (o' ≡ some (record a { control = a.control ++ stop_command ∷ [] }))
    × IsTracked a

halt-IsTold :
    (o : Option Announcer) (a : Announcer)
    → o ≡ some a
    → is_open o ≡ true
    → halt_announcer o ≡ some (record a { control = a.control ++ stop_command ∷ [] })
unfolding halt enqueue
halt-IsTold o a e roomy = rw e (rw (room a e) refl)
  where
    room : (a : Announcer) → o ≡ some a → has_room a ≡ true
    room a e = sym (ap is_open e) ∙ roomy

-- In every state that a relay reaches from one that has the properties of Relay.Reached.Reach-IsSound,
-- with the clean-up timer made where Docker is on and the updater's where there is one, and with room
-- in the announcer's channel, a stop succeeds: afterwards neither the bundle timer nor the updater's is
-- armed, and the announcer, which is tracked, finds the stop behind the commands that wait. The timers
-- that were overwritten are left.
pub Reach-stop :
    (s : Settings) (w u : World)
    → Reach s w u
    → IsSound s w
    → IsStoppable s w.relay
    → is_open u.relay.announcer ≡ true
    → Returns
        (λ r'.
          (is_armed r'.bundle_timer ≡ false)
          × (is_refreshing r'.updater ≡ false)
          × IsTold u.relay.announcer r'.announcer)
        (stop s u.relay)
Reach-stop s w u reached v h roomy =
    let (c, t) = Reach-IsStoppable s w u reached v h in
    let (a, e, tracked) = (Reach-IsSound s w u reached v).0.announcer in
    Returns-mono _ _ (stop s u.relay)
      (λ r' k. (k.0, k.1, (a, e, k.2 ∙ halt-IsTold u.relay.announcer a e roomy, tracked)))
      (stop_lem s u.relay c t roomy)
