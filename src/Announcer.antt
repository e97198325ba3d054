-- ===== src/Announcer.antt =====
-- relay/announcer.go. Three goroutines share the announcer: its loop, the callbacks of its timers
-- and the receipt handler. Each stretch of code under `stateLock` is one step; a send lets the lock
-- go only between two publish attempts, so an attempt is one step and the rest of the send waits in
-- `loop` or `resends`. What a publish comes back with is the step's argument. A send reads the
-- catalog's epoch and bundles in one step. `sent` records what was published, newest first.
pub mod Steps
pub mod Tracking
pub mod Sends
pub mod Receipts
pub mod Runs
pub mod Pending
pub mod Cycle
mod Tests
use go_relay.Base.{
  ℕ, zero, suc, ◌+◌, ◌-◌, ◌≡◌, Bool, true, false, not, Option, none, some, List, [], ◌∷◌, ◌++◌,
  ◌&&◌, Text, lit, text_eq, length, Outcome, ok, err, panic, ◌>>=◌, ltb, ◌==◌, show_nat, parse_uint,
  if◌then◌else◌,
}
use go_relay.Config.Bundle.{Bundle, is_available}
use go_relay.Catalog.{Catalog, bundle_names, find, current_epoch, epoch_acked}
use go_relay.Messages.Directives.{
  Announcement, AnnouncementReceipt, new_bundle_announcement_extended,
}

pub data Command : Type 0 where
  announce_command stop_command : Command

pub data State : Type 0 where
  stopped waiting receipt_waiting : State

-- `announceTimer`: nil, armed, or stopped (also: fired).
pub data Timer : Type 0 where
  unset armed idle : Timer

-- Where the loop's goroutine stands: before a receive, between two publish attempts, before it
-- creates the timer; or, once it has set the state to stopped, before it stops the timer, before it
-- looks at the state again, or out of the loop. Only a stop sets this state, so the loop's condition
-- is tested behind a stop alone.
pub data Loop : Type 0 where
  unstarted ready arming stopping checking exited : Loop
  sending : Announcement → Loop

-- `orphans` counts the callbacks that stopping `announceTimer` does not cancel: those of armed timers
-- that it does not point to any more, and those of timers that have expired, which wait for the lock.
-- `senders` holds the commands whose senders block, as two commands wait in the channel.
pub record Announcer : Type 0 where
  pub id : Text
  pub receipt_topic : Text
  pub catalog : Catalog
  pub state : State
  pub control : List Command
  pub senders : List Command
  pub receipt_for : Text
  pub announce_timer : Timer
  pub announcement_pending : Bool
  pub loop : Loop
  pub resends : List Announcement
  pub orphans : ℕ
  pub sent : List Announcement

unfoldable pub new_announcer : Text → Catalog → Announcer
new_announcer relay_id catalog = record {
  id = relay_id;
  receipt_topic = lit "bot/relays/" ++ (relay_id ++ lit "/announcer");
  catalog = catalog;
  state = stopped;
  control = [];
  senders = [];
  receipt_for = [];
  announce_timer = unset;
  announcement_pending = false;
  loop = unstarted;
  resends = [];
  orphans = 0;
  sent = [];
}

-- `subscribed` is what the subscription to the receipt topic comes back with.
unfoldable pub run : Outcome (Unit {0}) → Announcer → Outcome Announcer
run subscribed a = do _ ← subscribed; ok (record a { state = waiting; loop = ready })

-- A send on `control` blocks while two commands wait, or other senders do.
abbrev pub none_blocked : List Command → Bool
none_blocked [] = true
none_blocked (cmd ∷ cmds) = false

abbrev pub has_room : Announcer → Bool
has_room a = none_blocked a.senders && ltb (length a.control) 2

unfoldable pub enqueue : Command → Announcer → Announcer
enqueue cmd a =
    if has_room a
    then record a { control = a.control ++ cmd ∷ [] }
    else record a { senders = a.senders ++ cmd ∷ [] }

-- The sender that has waited longest goes on once there is room.
unfoldable pub admit_from : List Command → Announcer → Announcer
admit_from [] a = a
admit_from (cmd ∷ rest) a =
    if ltb (length a.control) 2
    then record a { control = a.control ++ cmd ∷ []; senders = rest }
    else a

unfoldable pub send_announcement_request : Announcer → Announcer
unfolding enqueue
send_announcement_request a = enqueue announce_command a

unfoldable pub halt : Announcer → Announcer
unfolding enqueue
halt a = enqueue stop_command a

unfoldable pub available_bundles : Catalog → List Text → List Bundle
available_bundles c [] = []
available_bundles c (name ∷ names) =
    let rest = available_bundles c names in
    elim (find c name) [ none ↦ rest | some b ↦ if is_available b then b ∷ rest else rest ]

unfoldable pub get_bundles : Catalog → List Bundle
unfolding available_bundles
get_bundles c = available_bundles c (bundle_names c)

-- The announcement that a send prepares before its first attempt.
unfoldable pub prepare : Announcer → Announcement
prepare a =
    new_bundle_announcement_extended a.id (get_bundles a.catalog) a.receipt_topic
      (show_nat (current_epoch a.catalog))

-- timer.Stop and timer.Reset panic on nil.
unfoldable pub stop_timer : Timer → Outcome Timer
stop_timer unset = panic
stop_timer armed = ok idle
stop_timer idle = ok idle

unfoldable pub reset_timer : Timer → Outcome Timer
reset_timer unset = panic
reset_timer armed = ok armed
reset_timer idle = ok armed

-- The send has succeeded: what follows the publish loop.
unfoldable pub sent_now : Announcer → Announcement → Announcer
sent_now a ann = record a { receipt_for = ann.id; state = receipt_waiting; sent = ann ∷ a.sent }

-- One attempt of the publish loop of `sendAnnouncement(skipTimer)`, and what follows a success.
unfoldable pub attempt : Bool → Announcer → Announcement → Bool → Outcome Announcer
unfolding sent_now
attempt true a ann true = ok (record (sent_now a ann) { loop = arming })
attempt true a ann false = ok (record a { loop = sending ann })
attempt false a ann true = do
  t ← reset_timer a.announce_timer
  ok (record (sent_now a ann) { announce_timer = t })
attempt false a ann false = ok (record a { resends = ann ∷ a.resends })

abbrev pub is_receipt_waiting : State → Bool
is_receipt_waiting receipt_waiting = true
is_receipt_waiting waiting = false
is_receipt_waiting stopped = false

-- One command of the loop; `published` is the outcome of the first attempt, if one is made.
unfoldable pub handle_command : Command → Announcer → Bool → Outcome Announcer
handle_command stop_command a published = ok (record a { state = stopped; loop = stopping })
handle_command announce_command a published =
    if is_receipt_waiting a.state
    then ok (record a { announcement_pending = true })
    else attempt true a (prepare a) published

unfoldable pub receive_from : List Command → Announcer → Bool → Outcome Announcer
receive_from [] a published = ok a
receive_from (cmd ∷ rest) a published = handle_command cmd (record a { control = rest }) published

abbrev pub checked : State → Loop
checked stopped = exited
checked waiting = ready
checked receipt_waiting = ready

-- The loop's next step, from where it stands.
unfoldable pub loop_step : Loop → Announcer → Bool → Outcome Announcer
unfolding handle_command receive_from
loop_step ready a published = receive_from a.control a published
loop_step (sending ann) a published = attempt true a ann published
loop_step arming a published = ok (record a {
  loop = ready;
  orphans = elim a.announce_timer [ armed ↦ suc a.orphans | _ ↦ a.orphans ];
  announce_timer = armed;
})
loop_step stopping a published = do
  t ← stop_timer a.announce_timer
  ok (record a { announce_timer = t; loop = checking })
loop_step checking a published = ok (record a { loop = checked a.state })
loop_step unstarted a published = ok a
loop_step exited a published = ok a

-- The current timer expires, but its callback does not get the lock yet.
unfoldable pub expire_from : Timer → Announcer → Announcer
expire_from armed a = record a { announce_timer = idle; orphans = suc a.orphans }
expire_from unset a = a
expire_from idle a = a

-- The callback of the current timer, which gets the lock at once, and of an orphan.
unfoldable pub fire : Announcer → Bool → Outcome Announcer
fire a published = elim a.announce_timer [
  | armed ↦ attempt false (record a { announce_timer = idle }) (prepare a) published
  | _ ↦ ok a
]

unfoldable pub fire_orphan : Announcer → Bool → Outcome Announcer
fire_orphan a published = elim a.orphans [
  | zero ↦ ok a
  | suc n ↦ attempt false (record a { orphans = n }) (prepare a) published
]

unfoldable pub pick_resend : List Announcement → ℕ → Option (Announcement × List Announcement)
pick_resend [] i = none
pick_resend (ann ∷ anns) zero = some (ann, anns)
pick_resend (ann ∷ anns) (suc i) = elim (pick_resend anns i) [
  | none ↦ none
  | some (found, rest) ↦ some (found, ann ∷ rest)
]

-- The next attempt of the i-th resend that waits between two attempts.
unfoldable pub resend : Announcer → ℕ → Bool → Outcome Announcer
unfolding pick_resend
resend a i published = elim (pick_resend a.resends i) [
  | none ↦ ok a
  | some (ann, rest) ↦ attempt false (record a { resends = rest }) ann published
]

-- `none` is a payload that is no JSON receipt.
unfoldable pub cog_receipt : Announcer → Option AnnouncementReceipt → Outcome Announcer
cog_receipt a none = ok a
cog_receipt a (some receipt) =
    if not (text_eq receipt.id a.receipt_for)
    then ok a
    else (let acked = epoch_acked a.catalog (parse_uint a.receipt_for) in
        let a' = record a { catalog = acked; receipt_for = [] } in
        if a.announcement_pending then ok a' else (do
          t ← stop_timer a.announce_timer
          ok (record a' { state = waiting; announce_timer = t })))
