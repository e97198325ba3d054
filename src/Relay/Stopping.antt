-- ===== src/Relay/Stopping.antt =====
-- What a stop stops, and what a reconnection leads to.
use go_relay.Base.{
  ◌≡◌, refl, Bool, true, false, not, ◌&&◌, Option, none, some, Returns, Returns-bind, arith,
}
use go_relay.Announcer.{Timer, unset, armed, idle, stop_timer}
use go_relay.Relay.Session.{Settings, Relay}
use go_relay.Relay.Lifecycle.{
  stop, stop_unless_nil, stop_clean_timer, halt_announcer, halt_updater, halt_behind, is_open,
}
use go_relay.Updater.Session as Updater
use go_relay.Updater.Session.{DynamicConfigUpdater, wait}

abbrev pub is_armed : Timer → Bool
is_armed unset = false
is_armed armed = true
is_armed idle = false

abbrev pub is_nil : Timer → Bool
is_nil unset = true
is_nil armed = false
is_nil idle = false

abbrev pub is_set_for : Option Bool → Bool
is_set_for none = false
is_set_for (some b) = b

abbrev pub is_refreshing : Option DynamicConfigUpdater → Bool
is_refreshing none = false
is_refreshing (some u) = is_set_for u.refresh_timer

-- The updater, if there is one, has made its timer and was not halted.
abbrev pub IsTimed : Option DynamicConfigUpdater → Type 0
IsTimed none = Unit
IsTimed (some u) = (b : Bool) × (u.refresh_timer ≡ some b) × (u.disconnected ≡ false)

clean_lem :
    (docker : Bool) (b c : Timer)
    → (docker && is_nil c) ≡ false
    → Returns
        (λ t. is_armed t ≡ (is_armed c && not (docker && not (is_nil b))))
        (stop_clean_timer docker b c)
unfolding stop_timer
clean_lem false b c h = ground arith
clean_lem true unset c h = ground arith
clean_lem true armed unset h = absurd (ground (arith, h))
clean_lem true armed armed h = refl
clean_lem true armed idle h = refl
clean_lem true idle unset h = absurd (ground (arith, h))
clean_lem true idle armed h = refl
clean_lem true idle idle h = refl

updater_lem :
    (o : Option DynamicConfigUpdater)
    → IsTimed o
    → Returns (λ o'. is_refreshing o' ≡ false) (halt_updater o)
unfolding wait Updater.halt
updater_lem none h = refl
updater_lem (some u) (b, e, on) = rw on (rw e refl)

bundle_lem : (t : Timer) → is_armed (stop_unless_nil t) ≡ false
bundle_lem unset = refl
bundle_lem armed = refl
bundle_lem idle = refl

-- Once the timers are made (the clean-up timer where Docker is on, the updater's where there is
-- one), and where the announcer's channel has room, a stop succeeds: the bundle timer and the
-- updater's are not armed afterwards and the announcer has been sent its stop. The clean-up timer is as it was, unless Docker is on and a bundle timer was
-- made.
pub stop_lem :
    (s : Settings) (r : Relay)
    → (s.docker_enabled && is_nil r.clean_timer) ≡ false
    → IsTimed r.updater
    → is_open r.announcer ≡ true
    → Returns
        (λ r'.
          (is_armed r'.bundle_timer ≡ false)
          × (is_refreshing r'.updater ≡ false)
          × (r'.announcer ≡ halt_announcer r.announcer)
          × (is_armed r'.clean_timer
              ≡ (is_armed r.clean_timer && not (s.docker_enabled && not (is_nil r.bundle_timer)))))
        (stop s r)
unfolding stop
stop_lem s r c u roomy =
    Returns-bind _ _ (stop_clean_timer s.docker_enabled r.bundle_timer r.clean_timer) _
      (clean_lem s.docker_enabled r.bundle_timer r.clean_timer c)
      (λ t e.
        Returns-bind _ _ (halt_behind (is_open r.announcer) r.updater) _
          (rw roomy (updater_lem r.updater u)) (λ o f. (bundle_lem r.bundle_timer, f, refl, e)))
