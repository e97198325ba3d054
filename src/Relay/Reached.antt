-- ===== src/Relay/Reached.antt =====
-- The states that a relay reaches: what it promises in each, and where its refreshes are.
use go_relay.Base.{
  ℕ, suc, ◌+◌, ◌≡◌, refl, sym, ap, ◌∙◌, subst, Bool, true, false, not, ◌&&◌, none, some, ok,
  Holds-ok, length, All, arith,
}
use go_relay.Announcer.{Announcer, idle}
use go_relay.Announcer.Runs.{on_event-IsTracked}
use go_relay.Announcer.Steps.{on_event}
use go_relay.Announcer.Tracking.{IsTracked}
use go_relay.Relay.Session.{
  Settings, Relay, required, set_subscriptions, announce_connected, handle_bus_events,
  handle_directive, handle_command, request_bundles, scheduled_bundle_refresh,
  orphan_bundle_refresh, scheduled_docker_cleanup,
}
use go_relay.Relay.Stopping.{is_armed}
use go_relay.Relay.Events.{
  World, Step, Reach, connects, connects_waits, connects_on, lists, lists_waits, lists_on,
  refreshes, orphan_refreshes, cleans, invokes, announces, here, next, bit,
}
use go_relay.Relay.Listing.{handle_directive-IsListed}
use go_relay.Relay.Serving.{
  IsServing, IsOwnRequest, IsOwnTopic, announced_lem, subscribed_lem, loaded_lem,
  handle_bus_events-Connected, request_bundles-IsServing,
}

-- Every chain of refreshes, begun by a request on a connection, is somewhere: its timer is armed, its
-- request was not answered, or the handler of the answer waits.
abbrev pub IsBalanced : World → Type 0
IsBalanced w =
    length w.relay.requests + bit (is_armed w.relay.bundle_timer) + w.orphans + w.listing
    ≡ w.replies + w.loads

abbrev pub IsSound : Settings → World → Type 0
IsSound s w = IsServing s w.relay × IsBalanced w

length-request :
    (s : Settings) (published : Bool) (r : Relay)
    → length (request_bundles s published r).requests ≡ length r.requests + bit published
unfolding request_bundles
length-request s true r = omega arith
length-request s false r = omega arith

like :
    (s : Settings) (r r' : Relay)
    → r'.announcer ≡ r.announcer
    → r'.requests ≡ r.requests
    → r'.subscriptions ≡ r.subscriptions
    → IsServing s r
    → IsServing s r'
like s r r' a q t v = record {
  announcer = (v.announcer.0, a ∙ v.announcer.1, v.announcer.2);
  requests = subst (All (IsOwnRequest s)) (sym q) v.requests;
  topics = subst (All (IsOwnTopic s)) (sym t) v.topics;
}

tracked :
    (s : Settings) (r : Relay)
    → IsServing s r
    → (a : Announcer) → r.announcer ≡ some a
    → IsTracked a
tracked s r v a q =
    let (b, e, t) = v.announcer in subst IsTracked (some_injective b a (sym e ∙ q)) t
  where
    some_injective : (b a : Announcer) → some b ≡ some a → b ≡ a
    some_injective b a e = ap (λ o. elim o [ none ↦ b | some x ↦ x ]) e

refresh-IsServing :
    (s : Settings) (published : Bool) (r : Relay)
    → IsServing s r
    → IsServing s (scheduled_bundle_refresh s published r)
unfolding scheduled_bundle_refresh request_bundles
refresh-IsServing s true r v =
    request_bundles-IsServing s true (record r { bundle_timer = idle })
      (like s r _ refl refl refl v)
refresh-IsServing s false r v = like s r _ refl refl refl v

refresh-IsBalanced :
    (s : Settings) (w : World) (published : Bool)
    → is_armed w.relay.bundle_timer ≡ true
    → IsBalanced w
    → IsBalanced (record w { relay = scheduled_bundle_refresh s published w.relay })
unfolding scheduled_bundle_refresh request_bundles
refresh-IsBalanced s w true e b = omega (arith, b, ap bit e)
refresh-IsBalanced s w false e b = omega (arith, b, ap bit e)

orphan-IsServing :
    (s : Settings) (published : Bool) (r : Relay)
    → IsServing s r
    → IsServing s (orphan_bundle_refresh s published r)
unfolding orphan_bundle_refresh request_bundles
orphan-IsServing s true r v = request_bundles-IsServing s true r v
orphan-IsServing s false r v = like s r _ refl refl refl v

orphan-IsBalanced :
    (s : Settings) (w : World) (published : Bool) (n : ℕ)
    → w.orphans ≡ suc n
    → IsBalanced w
    → IsBalanced (record w {
      relay = orphan_bundle_refresh s published w.relay;
      orphans = n + bit (not published && is_armed w.relay.bundle_timer);
    })
unfolding orphan_bundle_refresh request_bundles
orphan-IsBalanced s w true n e b = omega (arith, b, e)
orphan-IsBalanced s w false n e b = omega (arith, b, e)

Step-IsSound : (s : Settings) {w u : World} → Step s w u → IsSound s w → IsSound s u
Step-IsSound s {w} (connects o r roomy e) (v, b) =
    let h =
      Holds-ok _ (handle_bus_events s o w.relay) (handle_bus_events-Connected s o w.relay v) e in
    (h.0, omega (arith, b, h.1.0, ap (λ t. bit (is_armed t)) h.1.1))
Step-IsSound s {w} (connects_waits o r full e) (v, b) =
    let h =
      Holds-ok _ (announce_connected s o w.relay.announcer (record w.relay { conn = true }))
        (announced_lem s o w.relay v) e in
    (h.serving, omega (arith, b, h.requests, ap (λ t. bit (is_armed t)) h.timer))
Step-IsSound s {w} (connects_on o r n k e) (v, b) =
    let h =
      Holds-ok _ (required (set_subscriptions s o w.relay)) (subscribed_lem s o w.relay v) e in
    let (v', (q, t)) = loaded_lem s o.published r h.serving in
    (
      v',
      omega (
        arith,
        b,
        h.requests,
        q,
        ap (λ t. bit (is_armed t)) h.timer,
        ap (λ t. bit (is_armed t)) t,
      ),
    )
Step-IsSound s {w} (lists_waits images envelope r e blocked) (v, b) =
    let h =
      Holds-ok _ (handle_directive s images (ok envelope) w.relay)
        (handle_directive-IsListed s images envelope w.relay v) e in
    (like s r _ refl refl refl h.serving, omega (arith, b, h.requests))
Step-IsSound s {w} (lists_on n k) (v, b) = (like s w.relay _ refl refl refl v, omega (arith, b, k))
Step-IsSound s {w} (lists images envelope r e sent) (v, b) =
    let h =
      Holds-ok _ (handle_directive s images (ok envelope) w.relay)
        (handle_directive-IsListed s images envelope w.relay v) e in
    (h.serving, omega (arith, b, h.requests, ap (λ t. bit (is_armed t)) h.timer))
Step-IsSound s {w} (refreshes published e) (v, b) =
    (refresh-IsServing s published w.relay v, refresh-IsBalanced s w published e b)
Step-IsSound s {w} (orphan_refreshes published n e) (v, b) =
    (orphan-IsServing s published w.relay v, orphan-IsBalanced s w published n e b)
Step-IsSound s {w} cleans (v, b) =
    unfold scheduled_docker_cleanup in (like s w.relay _ refl refl refl v, b)
Step-IsSound s {w} (invokes topic message) (v, b) =
    unfold handle_command in (like s w.relay _ refl refl refl v, b)
Step-IsSound s {w} (announces e a a' q own h) (v, b) = (
  record {
    announcer = (
      a',
      refl,
      Holds-ok IsTracked (on_event a e) (on_event-IsTracked a e (tracked s w.relay v a q)) h,
    );
    requests = v.requests;
    topics = v.topics;
  },
  b,
)

-- In every state that a relay reaches from one that has these properties, the announcer is tracked,
-- the relay has asked for bundles and listened only in its own name, and the requests for bundles, the
-- armed timers (with those that were overwritten) and the handlers that wait to arm one balance the
-- lists that were received and the requests of connections. A request that is not answered leaves no
-- timer behind.
pub Reach-IsSound : (s : Settings) (w u : World) → Reach s w u → IsSound s w → IsSound s u
Reach-IsSound s w u here v = v
Reach-IsSound s w u (next {v = m} r st) v = Step-IsSound s st (Reach-IsSound s w m r v)
