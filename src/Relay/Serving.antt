-- ===== src/Relay/Serving.antt =====
-- What holds in every state that a relay reaches after its first connection.
use go_relay.Base.{
  ◌+◌, ◌^◌, ◌<◌, ◌≡◌, ◌⊎◌, inl, inr, refl, sym, ap, ◌∙◌, subst, Bool, true, false, not, ◌&&◌, some,
  ◌∷◌, Text, Outcome, ok, err, panic, ◌>>=◌, Holds, Holds-bind, Holds-mono, length, All, ltb, arith,
  if◌then◌else◌,
}
use go_relay.Announcer.{Announcer, send_announcement_request}
use go_relay.Announcer.Runs.{on_event-IsTracked}
use go_relay.Announcer.Steps
use go_relay.Announcer.Steps.{on_event}
use go_relay.Announcer.Tracking.{IsTracked, with_catalog}
use go_relay.Catalog.{Catalog, len, reconnected}
use go_relay.Messages.Directives.{ListBundlesMessage}
use go_relay.Relay.Session.{
  Settings, Relay, Answers, directives_topic, commands_topic, announcer_topic, catalog_of,
  set_catalog, required, set_subscriptions, request_bundles, announce_connected, load_or_announce,
  handle_bus_events,
}
use go_relay.Relay.Events.{bit, is_empty}

abbrev pub IsOwnRequest : Settings → ListBundlesMessage → Type 0
IsOwnRequest s m = (m.relay_id ≡ s.id) × (m.reply_to ≡ directives_topic s)

abbrev pub IsOwnTopic : Settings → Text → Type 0
IsOwnTopic s topic =
    (topic ≡ announcer_topic s) ⊎ (topic ≡ directives_topic s) ⊎ (topic ≡ commands_topic s)

-- The announcer runs and keeps its promises, and the relay has asked and listened in its own name.
pub record IsServing (s : Settings) (r : Relay) : Type 0 where
  pub announcer : (a : Announcer) × (r.announcer ≡ some a) × IsTracked a
  pub requests : All (IsOwnRequest s) r.requests
  pub topics : All (IsOwnTopic s) r.subscriptions

module _ (s : Settings) where
  abbrev pub AsksAgain : Relay → Bool → Relay → Type 0
  AsksAgain r asks r' =
      (length r'.requests ≡ length r.requests + bit asks) × (r'.bundle_timer ≡ r.bundle_timer)

  pub set_subscriptions_lem :
      (o : Answers) (r : Relay)
      → Holds
          (λ r'.
            r'
            ≡ record r { subscriptions = commands_topic s ∷ directives_topic s ∷ r.subscriptions })
          (set_subscriptions s o r)
  unfolding set_subscriptions
  set_subscriptions_lem o r =
      by_answers (o.subscribed (directives_topic s)) (o.subscribed (commands_topic s))
    where
      by_answers :
          (m n : Outcome (Unit {0}))
          → Holds
              (λ r'. r' ≡ record r {
                subscriptions = commands_topic s ∷ directives_topic s ∷ r.subscriptions;
              })
              (m
                >>= (λ u. ok (record r { subscriptions = directives_topic s ∷ r.subscriptions }))
                >>= (λ r1. n >>= λ u.
                    ok (record r1 { subscriptions = commands_topic s ∷ r1.subscriptions })))
      by_answers (ok u) (ok v) = refl
      by_answers (ok u) (err e) = tt
      by_answers (ok u) panic = tt
      by_answers (err e) n = tt
      by_answers panic n = tt

  pub required-Holds : (P : Relay → Type 0) (m : Outcome Relay) → Holds P m → Holds P (required m)
  required-Holds P (ok r) h = h
  required-Holds P (err e) h = tt
  required-Holds P panic h = tt

  pub request_bundles-IsServing :
      (published : Bool) (r : Relay) → IsServing s r → IsServing s (request_bundles s published r)
  unfolding request_bundles
  request_bundles-IsServing true r v = record {
    announcer = v.announcer;
    requests = ((refl, refl), v.requests);
    topics = v.topics;
  }
  request_bundles-IsServing false r v = v

  pub set_catalog-IsServing :
      (c : Catalog) (r : Relay)
      → c.epoch < 2 ^ 64
      → c.last_acked ≡ (catalog_of r.announcer r.catalog).last_acked
      → IsServing s r
      → IsServing s (set_catalog c r)
  set_catalog-IsServing c r h e v = by_announcer v.announcer
    where
      by_announcer :
          (a : Announcer) × (r.announcer ≡ some a) × IsTracked a → IsServing s (set_catalog c r)
      by_announcer (a, q, t) = record {
        announcer = (
          record a { catalog = c },
          rw q,
          with_catalog a c h (e ∙ ap (λ o. (catalog_of o r.catalog).last_acked) q) t,
        );
        requests = v.requests;
        topics = v.topics;
      }

  -- The relay serves, and has as many requests and the same timer and catalog as before.
  pub record IsLike (r r' : Relay) : Type 0 where
    pub serving : IsServing s r'
    pub requests : length r'.requests ≡ length r.requests
    pub timer : r'.bundle_timer ≡ r.bundle_timer
    pub catalog : catalog_of r'.announcer r'.catalog ≡ catalog_of r.announcer r.catalog

  send-catalog : (a : Announcer) → (send_announcement_request a).catalog ≡ a.catalog
  unfolding send_announcement_request
  send-catalog a = ground arith

  pub announced_lem :
      (o : Answers) (r : Relay)
      → IsServing s r
      → Holds (IsLike r) (announce_connected s o r.announcer (record r { conn = true }))
  announced_lem o r v = by_announcer v.announcer
    where
      by_announcer :
          (a : Announcer) × (r.announcer ≡ some a) × IsTracked a
          → Holds (IsLike r) (announce_connected s o r.announcer (record r { conn = true }))
      by_announcer (a, q, t) =
          subst (λ x. Holds (IsLike r) (announce_connected s o x (record r { conn = true })))
            (sym q) (by_answer (o.subscribed (announcer_topic s)))
        where
          by_answer :
              (m : Outcome (Unit {0}))
              → Holds (IsLike r) (
                  required m >>= λ u. ok (record r {
                    conn = true;
                    announcer = some (send_announcement_request a);
                    subscriptions = announcer_topic s ∷ r.subscriptions;
                  }))
          by_answer (ok u) = record {
            serving = record {
              announcer = (
                send_announcement_request a,
                refl,
                (unfold on_event in on_event-IsTracked a Steps.announces t),
              );
              requests = v.requests;
              topics = (inl refl, v.topics);
            };
            requests = refl;
            timer = refl;
            catalog = send-catalog a ∙ sym (ap (λ o. catalog_of o r.catalog) q);
          }
          by_answer (err e) = tt
          by_answer panic = tt

  pub subscribed_lem :
      (o : Answers) (r : Relay)
      → IsServing s r
      → Holds (IsLike r) (required (set_subscriptions s o r))
  subscribed_lem o r v = required-Holds (IsLike r) (set_subscriptions s o r) (
      Holds-mono
        (λ r'.
          r' ≡ record r { subscriptions = commands_topic s ∷ directives_topic s ∷ r.subscriptions })
        (IsLike r) (set_subscriptions s o r)
        (λ r' e. subst (IsLike r) (sym e) (record {
          serving = record {
            announcer = v.announcer;
            requests = v.requests;
            topics = (inr (inr refl), (inr (inl refl), v.topics));
          };
          requests = refl;
          timer = refl;
          catalog = refl;
        }))
        (set_subscriptions_lem o r))

  abbrev pub Connected : Bool → Relay → Relay → Type 0
  Connected asks r r' = IsServing s r' × AsksAgain r asks r'

  pub loaded_lem :
      (published : Bool) (r : Relay)
      → IsServing s r
      → Connected
          (is_empty r && published)
          r
          (load_or_announce s published (catalog_of r.announcer r.catalog) r)
  unfolding request_bundles
  loaded_lem published r v = by_size (ltb 0 (len (catalog_of r.announcer r.catalog)))
    where
      c : Catalog
      c = catalog_of r.announcer r.catalog

      by_size :
          (b : Bool)
          → Connected
              (not b && published)
              r
              (if b then set_catalog (reconnected c) r else request_bundles s published r)
      by_size true = (
        set_catalog-IsServing (reconnected c) r (unfold reconnected in omega arith)
            (unfold reconnected in refl) v,
        (omega arith, refl),
      )
      by_size false = (request_bundles-IsServing published r v, by_publish published)
        where
          by_publish :
              (b : Bool)
              → AsksAgain r b (
                  if b
                  then record r {
                    requests =
                        record { relay_id = s.id; reply_to = directives_topic s } ∷ r.requests;
                  }
                  else r)
          by_publish true = (omega arith, refl)
          by_publish false = (omega arith, refl)

  pub handle_bus_events-Connected :
      (o : Answers) (r : Relay)
      → IsServing s r
      → Holds (Connected (is_empty r && o.published) r) (handle_bus_events s o r)
  unfolding handle_bus_events
  handle_bus_events-Connected o r v =
      Holds-bind (IsLike r) (Connected asks r)
        (announce_connected s o r.announcer (record r { conn = true })) _ (announced_lem o r v)
        (λ r1 a.
          Holds-bind (IsLike r1) (Connected asks r) (required (set_subscriptions s o r1)) _
            (subscribed_lem o r1 a.serving)
            (λ r2 b.
              let same : is_empty r2 ≡ is_empty r =
                ap (λ c. not (ltb 0 (len c))) (b.catalog ∙ a.catalog) in
              let (v', (n, t)) = loaded_lem o.published r2 b.serving in
              (
                v',
                (
                  n
                      ∙ ap (λ b. length r2.requests + bit (b && o.published)) same
                      ∙ ap (λ k. k + bit asks) (b.requests ∙ a.requests),
                  t ∙ b.timer ∙ a.timer,
                ),
              )))
    where
      asks : Bool
      asks = is_empty r && o.published
