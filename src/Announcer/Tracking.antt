-- ===== src/Announcer/Tracking.antt =====
-- What the announcer's invariant says, and the parts of the state that it depends on.
use go_relay.Base.{ℕ, ◌^◌, ◌<◌, ◌≡◌, ◌⊎◌, List, [], ◌∷◌, Text, All, show_nat}
use go_relay.Catalog.{Catalog}
use go_relay.Messages.Directives.{Announcement}
use go_relay.Announcer.{Announcer, Loop}

-- An announcement under that id has been published.
abbrev pub Published : Text → List Announcement → Type 0
Published id [] = ⊥
Published id (ann ∷ anns) = (ann.id ≡ id) ⊎ Published id anns

-- The id of an announcement is a printed 64-bit epoch.
abbrev pub IsIssued : Announcement → Type 0
IsIssued ann = (e : ℕ) × (e < 2 ^ 64) × (ann.id ≡ show_nat e)

abbrev pub LoopIssued : Loop → Type 0
LoopIssued (Loop.sending ann) = IsIssued ann
LoopIssued _ = Unit

pub record Tracks (catalog : Catalog) (receipt_for : Text) (loop : Loop)
    (waiting sent : List Announcement) : Type 0 where
  pub fits : catalog.epoch < 2 ^ 64
  pub issued : All IsIssued sent
  pub loop_issued : LoopIssued loop
  pub resends_issued : All IsIssued waiting
  pub awaited : (receipt_for ≡ []) ⊎ Published receipt_for sent
  pub acked : (catalog.last_acked ≡ 0) ⊎ Published (show_nat catalog.last_acked) sent

-- Every id in flight is a printed epoch; a receipt is awaited only for what was published; and the
-- catalog's acked epoch is 0 or was published.
abbrev pub IsTracked : Announcer → Type 0
IsTracked a = Tracks a.catalog a.receipt_for a.loop a.resends a.sent

pub with_catalog :
    (a : Announcer) (c : Catalog)
    → c.epoch < 2 ^ 64
    → c.last_acked ≡ a.catalog.last_acked
    → IsTracked a
    → IsTracked (record a { catalog = c })
with_catalog a c h e v = record {
  fits = h;
  issued = v.issued;
  loop_issued = v.loop_issued;
  resends_issued = v.resends_issued;
  awaited = v.awaited;
  acked = rw e v.acked;
}

pub with_loop :
    (a : Announcer) (l : Loop) → LoopIssued l → IsTracked a → IsTracked (record a { loop = l })
with_loop a l i v = record {
  fits = v.fits;
  issued = v.issued;
  loop_issued = i;
  resends_issued = v.resends_issued;
  awaited = v.awaited;
  acked = v.acked;
}

pub with_resends :
    (a : Announcer) (anns : List Announcement)
    → All IsIssued anns
    → IsTracked a
    → IsTracked (record a { resends = anns })
with_resends a anns i v = record {
  fits = v.fits;
  issued = v.issued;
  loop_issued = v.loop_issued;
  resends_issued = i;
  awaited = v.awaited;
  acked = v.acked;
}
