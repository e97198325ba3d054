-- ===== src/Announcer/Sends.antt =====
-- The sends of the loop and of the timers keep the invariant.
use go_relay.Base.{
  ℕ, zero, suc, ◌≡◌, inl, inr, refl, subst, Bool, true, false, Bool-cases, Option-cases, some, List,
  [], ◌∷◌, All, ok, Holds, Holds-bind_eq, arith,
}
use go_relay.Catalog.{current_epoch}
use go_relay.Messages.Directives.{Announcement, new_bundle_announcement_extended}
use go_relay.Announcer.{
  Announcer, Loop, Timer, Command, prepare, attempt, loop_step, receive_from, handle_command,
  stop_timer, reset_timer, fire, fire_orphan, pick_resend, resend, sent_now, is_receipt_waiting,
  checked, State,
}
use go_relay.Announcer.Tracking.{IsIssued, LoopIssued, IsTracked, with_loop, with_resends}

prepare-IsIssued : (a : Announcer) → IsTracked a → IsIssued (prepare a)
unfolding prepare new_bundle_announcement_extended current_epoch
prepare-IsIssued a v = (a.catalog.epoch, v.fits, refl)

sent_now-IsTracked :
    (a : Announcer) (ann : Announcement) → IsIssued ann → IsTracked a → IsTracked (sent_now a ann)
unfolding sent_now
sent_now-IsTracked a ann i v = record {
  fits = v.fits;
  issued = (i, v.issued);
  loop_issued = v.loop_issued;
  resends_issued = v.resends_issued;
  awaited = inr (inl refl);
  acked = elim v.acked [ inl e ↦ inl e | inr p ↦ inr (inr p) ];
}

attempt-IsTracked :
    (skip : Bool) (a : Announcer) (ann : Announcement) (published : Bool)
    → IsIssued ann
    → IsTracked a
    → Holds IsTracked (attempt skip a ann published)
unfolding attempt sent_now
attempt-IsTracked true a ann true i v =
    with_loop (sent_now a ann) Loop.arming tt (sent_now-IsTracked a ann i v)
attempt-IsTracked true a ann false i v = with_loop a (Loop.sending ann) i v
attempt-IsTracked false a ann true i v =
    Holds-bind_eq IsTracked (reset_timer a.announce_timer) _ λ t _. sent_now-IsTracked a ann i v
attempt-IsTracked false a ann false i v = with_resends a (ann ∷ a.resends) (i, v.resends_issued) v

handle_command-IsTracked :
    (cmd : Command) (a : Announcer) (published : Bool)
    → IsTracked a
    → Holds IsTracked (handle_command cmd a published)
unfolding handle_command
handle_command-IsTracked Command.stop_command a published v = with_loop a Loop.stopping tt v
handle_command-IsTracked Command.announce_command a published v =
    elim (Bool-cases (is_receipt_waiting a.state)) [
      | inl e ↦ rw e v
      | inr e ↦ rw e (attempt-IsTracked true a (prepare a) published (prepare-IsIssued a v) v)
    ]

receive_from-IsTracked :
    (cmds : List Command) (a : Announcer) (published : Bool)
    → IsTracked a
    → Holds IsTracked (receive_from cmds a published)
unfolding receive_from
receive_from-IsTracked [] a published v = v
receive_from-IsTracked (cmd ∷ rest) a published v =
    handle_command-IsTracked cmd (record a { control = rest }) published v

pub loop_step-IsTracked :
    (a : Announcer) (published : Bool) (l : Loop)
    → a.loop ≡ l
    → IsTracked a
    → Holds IsTracked (loop_step l a published)
unfolding loop_step
loop_step-IsTracked a published Loop.ready e v = receive_from-IsTracked a.control a published v
loop_step-IsTracked a published (Loop.sending ann) e v =
    attempt-IsTracked true a ann published (subst LoopIssued e v.loop_issued) v
loop_step-IsTracked a published Loop.arming e v = with_loop a Loop.ready tt v
loop_step-IsTracked a published Loop.stopping e v =
    Holds-bind_eq IsTracked (stop_timer a.announce_timer) _ λ t _. with_loop a Loop.checking tt v
loop_step-IsTracked a published Loop.checking e v =
    with_loop a (checked a.state) (issued_checked a.state) v
  where
    issued_checked : (s : State) → LoopIssued (checked s)
    issued_checked State.stopped = tt
    issued_checked State.waiting = tt
    issued_checked State.receipt_waiting = tt
loop_step-IsTracked a published Loop.unstarted e v = v
loop_step-IsTracked a published Loop.exited e v = v

pub fire-IsTracked :
    (a : Announcer) (published : Bool) → IsTracked a → Holds IsTracked (fire a published)
unfolding fire
fire-IsTracked a published v =
    elim a.announce_timer
      as (λ t. Holds IsTracked (elim t [
        | Timer.armed ↦
            attempt false (record a { announce_timer = Timer.idle }) (prepare a) published
        | _ ↦ ok a
      ])) [
        | Timer.armed ↦ attempt-IsTracked false _ (prepare a) published (prepare-IsIssued a v) v
        | _ ↦ v
      ]

pub fire_orphan-IsTracked :
    (a : Announcer) (published : Bool) → IsTracked a → Holds IsTracked (fire_orphan a published)
unfolding fire_orphan
fire_orphan-IsTracked a published v =
    elim a.orphans
      as (λ k. Holds IsTracked (elim k [
        | zero ↦ ok a
        | suc n ↦ attempt false (record a { orphans = n }) (prepare a) published
      ])) [
        | zero ↦ v
        | suc n ↦ attempt-IsTracked false _ (prepare a) published (prepare-IsIssued a v) v
      ]

pick_resend-IsIssued :
    (anns : List Announcement) (i : ℕ) {found : Announcement} {rest : List Announcement}
    → All IsIssued anns
    → pick_resend anns i ≡ some (found, rest)
    → IsIssued found × All IsIssued rest
unfolding pick_resend
pick_resend-IsIssued [] i h e = absurd (ground arith)
pick_resend-IsIssued (ann ∷ anns) zero {found} {rest} h e = (
  subst IsIssued {x = ann} {y = found} (ground arith) h.0,
  subst (All IsIssued) {x = anns} {y = rest} (ground arith) h.1,
)
pick_resend-IsIssued (ann ∷ anns) (suc i) {found} {rest} h e =
    elim (Option-cases (pick_resend anns i)) [
      | inl p ↦ absurd (ground (arith, p))
      | inr ((x, xs), p) ↦
          let (ix, ixs) = pick_resend-IsIssued anns i {found = x} {rest = xs} h.1 p in
          (
            subst IsIssued {x = x} {y = found} (ground (arith, p)) ix,
            subst (All IsIssued) {x = ann ∷ xs} {y = rest} (ground (arith, p)) (h.0, ixs),
          )
    ]

pub resend-IsTracked :
    (a : Announcer) (i : ℕ) (published : Bool)
    → IsTracked a
    → Holds IsTracked (resend a i published)
unfolding resend
resend-IsTracked a i published v = elim (Option-cases (pick_resend a.resends i)) [
  | inl p ↦ rw (p, resend) v
  | inr ((ann, rest), p) ↦
      let (issued, others) = pick_resend-IsIssued a.resends i v.resends_issued p in
      rw (p, resend)
        (attempt-IsTracked false (record a { resends = rest }) ann published issued
          (with_resends a rest others v))
]
