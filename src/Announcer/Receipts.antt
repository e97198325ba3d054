-- ===== src/Announcer/Receipts.antt =====
-- A receipt keeps the invariant: what it acks has been published.
use go_relay.Base.{
  ℕ, ◌^◌, ◌<◌, ◌≡◌, ◌⊎◌, inl, inr, refl, sym, ◌∙◌, Bool-cases, Option, none, some, List, [], ◌∷◌,
  Text, text_eq, All, Holds, Holds-bind_eq, arith, ltb, show_nat, parse_uint, parse_uint-show_nat,
}
use go_relay.Catalog.{epoch_acked}
use go_relay.Messages.Directives.{Announcement, AnnouncementReceipt}
use go_relay.Announcer.{Announcer, stop_timer, cog_receipt}
use go_relay.Announcer.Tracking.{IsIssued, Published, IsTracked}

-- What was published under an id is a printed epoch, so the id reads back as that epoch.
Published-epoch :
    (id : Text) (anns : List Announcement)
    → All IsIssued anns
    → Published id anns
    → (e : ℕ) × (e < 2 ^ 64) × (id ≡ show_nat e)
Published-epoch id [] h p = absurd p
Published-epoch id (ann ∷ anns) h (inl e) =
    let (n, small, printed) = h.0 in (n, small, sym e ∙ printed)
Published-epoch id (ann ∷ anns) h (inr p) = Published-epoch id anns h.1 p

-- The acked epoch after a receipt for what is awaited.
acked-IsTracked :
    (a : Announcer)
    → IsTracked a
    → let c = epoch_acked a.catalog (parse_uint a.receipt_for) in
      (c.last_acked ≡ 0) ⊎ Published (show_nat c.last_acked) a.sent
unfolding epoch_acked
acked-IsTracked a v = elim (Bool-cases (ltb a.catalog.epoch (parse_uint a.receipt_for))) [
  | inl e ↦ rw e v.acked
  | inr e ↦ rw e (elim v.awaited [
    | inl none_awaited ↦ inl (rw none_awaited (unfold parse_uint in refl))
    | inr p ↦
        let (n, small, printed) = Published-epoch a.receipt_for a.sent v.issued p in
        let read : parse_uint a.receipt_for ≡ n = rw printed (parse_uint-show_nat n small) in
        inr (rw read (rw printed at p))
  ])
]

receipt_taken-IsTracked :
    (a : Announcer)
    → IsTracked a
    → IsTracked
        (record a { catalog = epoch_acked a.catalog (parse_uint a.receipt_for); receipt_for = [] })
receipt_taken-IsTracked a v = record {
  fits = unfold epoch_acked in ground (arith, v.fits);
  issued = v.issued;
  loop_issued = v.loop_issued;
  resends_issued = v.resends_issued;
  awaited = inl refl;
  acked = acked-IsTracked a v;
}

pub cog_receipt-IsTracked :
    (a : Announcer) (receipt : Option AnnouncementReceipt)
    → IsTracked a
    → Holds IsTracked (cog_receipt a receipt)
unfolding cog_receipt
cog_receipt-IsTracked a none v = v
cog_receipt-IsTracked a (some r) v = elim (Bool-cases (text_eq r.id a.receipt_for)) [
  | inr e ↦ rw e v
  | inl e ↦ rw e (elim (Bool-cases a.announcement_pending) [
    | inl p ↦ rw p (receipt_taken-IsTracked a v)
    | inr p ↦
        rw p (
          Holds-bind_eq IsTracked (stop_timer a.announce_timer) _
            λ t _. receipt_taken-IsTracked a v)
  ])
]
