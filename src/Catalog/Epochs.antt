-- ===== src/Catalog/Epochs.antt =====
-- The catalog's invariant under every sequence of calls, and what the epochs tell.
use go_relay.Base.{
  ℕ, ◌+◌, ◌^◌, ◌<◌, ◌≤◌, ◌≡◌, inl, inr, Option-cases, Bool, true, Option, none, some, List, [], ◌∷◌,
  Text, text_eq, text_eq_iff, IsTable, lookup, lookup-insert, lookup-erase, insert-IsTable,
  erase-IsTable, length, arith, ltb, ◌==◌, not, ◌||◌, if◌then◌else◌,
}
use go_relay.Config.Bundle.{Bundle, set_available}
use go_relay.Catalog.{
  Catalog, new_catalog, replace, remove, mark_available, epoch_acked, reconnected, is_changed,
  current_epoch, find, find_by_name, has_key,
}
use go_relay.Catalog.Diff.{latest, find_by_name-name}
use go_relay.Catalog.Replace.{resolve, find-replace}
use go_relay.Catalog.Changes.{replace-IsTable}

-- Every bundle is stored under its own name, and acks do not run ahead of the epoch.
pub record IsCatalog (c : Catalog) : Type 0 where
  pub table : IsTable c.bundles
  pub named : (k : Text) (b : Bundle) → lookup k c.bundles ≡ some b → b.name ≡ k
  pub acked : c.last_acked ≤ c.epoch
  pub fits : c.epoch < 2 ^ 64

pub data Call : Type 0 where
  replaces : List Bundle → Call
  removes : Text → Call
  marks : Text → Bool → Call
  acks : ℕ → Call
  reconnects : Call

unfoldable pub step : Catalog → Call → Catalog
step c (replaces snapshot) = (replace c snapshot).0
step c (removes name) = remove c name
step c (marks name flag) = mark_available c name flag
step c (acks epoch) = epoch_acked c epoch
step c reconnects = reconnected c

unfoldable pub run : Catalog → List Call → Catalog
unfolding step
run c [] = c
run c (call ∷ calls) = run (step c call) calls

latest-name :
    (k : Text) (bs : List Bundle) (d : Option Bundle)
    → ((b : Bundle) → d ≡ some b → b.name ≡ k)
    → (b : Bundle) → latest k bs d ≡ some b
    → b.name ≡ k
latest-name k [] d h b e = h b e
latest-name k (x ∷ bs) d h b e =
    latest-name k bs _ (λ a p. ground (arith, h a, text_eq_iff x.name k)) b e

resolve-name :
    (k : Text) (bs : List Bundle) (o : Option Bundle)
    → ((b : Bundle) → o ≡ some b → b.name ≡ k)
    → (b : Bundle) → resolve bs k o ≡ some b
    → b.name ≡ k
unfolding resolve
resolve-name k bs none h b e = latest-name k bs none h b e
resolve-name k bs (some s) h b e = elim (Option-cases (find_by_name k bs)) [
  | inl p ↦ ground (arith, p)
  | inr (a, p) ↦ ground (arith, p, h s, find_by_name-name k bs p)
]

-- One call moves the epoch by at most one.
epoch-step : (c : Catalog) (call : Call) → c.epoch + 1 < 2 ^ 64 → (step c call).epoch ≤ c.epoch + 1
unfolding step replace remove mark_available epoch_acked reconnected
epoch-step c (replaces snapshot) h = ground arith
epoch-step c call h = ground arith

abbrev pub flagged : Bool → Option Bundle → Option Bundle
flagged flag none = none
flagged flag (some b) = some (set_available flag b)

module _ (c : Catalog) (n : Text) where
  -- Removing a name removes that name only.
  pub find-remove : (k : Text) → find (remove c n) k ≡ (if text_eq n k then none else find c k)
  unfolding find remove
  find-remove k = ground (arith, lookup-erase n k c.bundles, text_eq_iff n k)

  remove-IsTable : IsTable c.bundles → IsTable (remove c n).bundles
  unfolding remove
  remove-IsTable t = ground (arith, erase-IsTable n c.bundles t)

  -- Marking writes the flag of one bundle and nothing else.
  pub find-mark_available :
      (flag : Bool) (k : Text)
      → find (mark_available c n flag) k
        ≡ (if text_eq n k then flagged flag (find c k) else find c k)
  unfolding find mark_available
  find-mark_available flag k = elim (Option-cases (lookup n c.bundles)) [
    | inl e ↦ ground (arith, e, text_eq_iff n k)
    | inr (b, e) ↦
        ground (arith, e, lookup-insert n k (set_available flag b) c.bundles, text_eq_iff n k)
  ]

  mark-IsTable : (flag : Bool) → IsTable c.bundles → IsTable (mark_available c n flag).bundles
  unfolding mark_available
  mark-IsTable flag t = elim (Option-cases (lookup n c.bundles)) [
    | inl e ↦ rw (e, mark_available) t
    | inr (b, e) ↦ rw (e, mark_available) (insert-IsTable n _ c.bundles t)
  ]

flagged-name :
    (k : Text) (flag : Bool) (o : Option Bundle)
    → ((b : Bundle) → o ≡ some b → b.name ≡ k)
    → (b : Bundle) → flagged flag o ≡ some b
    → b.name ≡ k
unfolding set_available
flagged-name k flag none h b e = ground arith
flagged-name k flag (some a) h b e = ground (arith, h a)

step-IsCatalog :
    (c : Catalog) (call : Call) → c.epoch + 1 < 2 ^ 64 → IsCatalog c → IsCatalog (step c call)
unfolding step find
step-IsCatalog c (replaces snapshot) h v = record {
  table = replace-IsTable c snapshot v.table;
  named = λ k b e.
      resolve-name k snapshot (find c k) (v.named k) b
        (rw (find-replace c snapshot v.table k) at e);
  acked = unfold replace in ground (arith, v);
  fits = unfold replace in ground (arith, v);
}
step-IsCatalog c (removes name) h v = record {
  table = remove-IsTable c name v.table;
  named = λ k b e. ground (arith, find-remove c name k, v.named k b);
  acked = unfold remove in ground (arith, v);
  fits = unfold remove in ground (arith, v);
}
step-IsCatalog c (marks name flag) h v = record {
  table = mark-IsTable c name flag v.table;
  named = λ k b e. ground (
    arith,
    find-mark_available c name flag k,
    flagged-name k flag (find c k) (v.named k) b,
    v.named k b,
  );
  acked = unfold mark_available in ground (arith, v);
  fits = unfold mark_available in ground (arith, v);
}
step-IsCatalog c (acks epoch) h v =
    unfold epoch_acked in
    record {
      table = ground (arith, v);
      named = λ k b e. ground (arith, v.named k b);
      acked = ground (arith, v);
      fits = ground (arith, v);
    }
step-IsCatalog c reconnects h v =
    unfold reconnected in
    record { table = v.table; named = v.named; acked = ground (arith, v); fits = ground (arith, v) }

-- From a well-formed catalog every sequence of calls leads to a well-formed one, as long as the
-- 64-bit epoch does not wrap within it: each name once, each bundle under its own name, and no ack
-- beyond the epoch.
pub run-IsCatalog :
    (c : Catalog) (calls : List Call)
    → c.epoch + length calls < 2 ^ 64
    → IsCatalog c
    → IsCatalog (run c calls)
unfolding run
run-IsCatalog c [] h v = v
run-IsCatalog c (call ∷ calls) h v =
    run-IsCatalog (step c call) calls (omega (arith, epoch-step c call (omega arith)))
      (step-IsCatalog c call (omega arith) v)

pub new_catalog-IsCatalog : IsCatalog new_catalog
unfolding new_catalog lookup
new_catalog-IsCatalog = record {
  table = tt;
  named = λ k b e. cc;
  acked = omega arith;
  fits = omega arith;
}

-- In a well-formed catalog an ack never changes the bundles or the epoch. One from the future is ignored; after any other
-- there is something to announce exactly if it does not ack the current epoch.
pub epoch_acked_lem :
    (c : Catalog) (acked : ℕ)
    → IsCatalog c
    → ((epoch_acked c acked).bundles ≡ c.bundles)
      × (current_epoch (epoch_acked c acked) ≡ current_epoch c)
      × (is_changed (epoch_acked c acked)
          ≡ (if ltb c.epoch acked then is_changed c else not (acked == c.epoch)))
unfolding epoch_acked is_changed current_epoch
epoch_acked_lem c acked v = (ground arith, ground arith, ground (arith, v))

-- In a well-formed catalog below the wrap of the epoch, there is something to announce after a reconnection, and after a
-- `Replace` or a `Remove` exactly if it changed the catalog or there was something before.
pub changed_after :
    (c : Catalog) (snapshot : List Bundle) (name : Text)
    → IsCatalog c
    → c.epoch + 1 < 2 ^ 64
    → (is_changed (reconnected c) ≡ true)
      × (is_changed (replace c snapshot).0 ≡ ((replace c snapshot).1 || is_changed c))
      × (is_changed (remove c name) ≡ (has_key name c.bundles || is_changed c))
unfolding is_changed reconnected replace remove
changed_after c snapshot name v h = (ground (arith, v), ground (arith, v), ground (arith, v))
