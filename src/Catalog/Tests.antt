-- ===== src/Catalog/Tests.antt =====
-- The catalog at work, on the bundles of catalog_test.go.
use go_relay.Base.{
  ◌≡◌, ◌↔◌, refl, true, false, not, ◌||◌, none, some, List, [], ◌∷◌, Text, lit, text_eq,
  text_eq_iff, lookup, insert, ltb, ◌==◌, IsTable, arith, if◌then◌else◌,
}
use go_relay.Config.Bundle.{Bundle}
use go_relay.Catalog.{
  Catalog, new_catalog, replace, remove, find, is_changed, epoch_acked, current_epoch, reconnected,
  find_by_name, has_key, diff, diff_stored, diff_new, remove_all, add_all,
}
use go_relay.Catalog.Replace.{resolve, find-replace}
use go_relay.Catalog.Changes.{Agrees, Distinct, replace_clean_iff, replace_settles}
use go_relay.Catalog.Epochs.{
  IsCatalog, Call, replaces, acks, reconnects, run, run-IsCatalog, new_catalog-IsCatalog,
  epoch_acked_lem, changed_after,
}
use go_relay.Catalog.Order.{replace_order}

abbrev bundle_at : Text → Text → Bundle
bundle_at name version = record {
  bundle_version = 4;
  name = name;
  version = version;
  permissions = [];
  docker = none;
  commands = [];
  templates = [];
  available = false;
}

abbrev foo12 : Bundle
foo12 = bundle_at (lit "foo") (lit "1.2.0")

abbrev foo121 : Bundle
foo121 = bundle_at (lit "foo") (lit "1.2.1")

abbrev bar10 : Bundle
bar10 = bundle_at (lit "bar") (lit "1.0.0")

abbrev stocked : Catalog
stocked = record {
  last_acked = 0;
  epoch = 1;
  bundles = (lit "foo", foo12) ∷ (lit "bar", bar10) ∷ [];
}

stocked-IsTable : IsTable stocked.bundles
unfolding lookup text_eq
stocked-IsTable = (refl, (refl, tt))

-- TestCatalogBatchAdds: the last of two bundles with one name is stored.
batch_adds : find (replace new_catalog (foo12 ∷ foo121 ∷ [])).0 (lit "foo") ≡ some foo121
unfolding find replace new_catalog lookup insert text_eq diff diff_stored diff_new remove_all
    add_all
batch_adds = refl

find-replace_example :
    find (replace stocked (foo121 ∷ [])).0 (lit "foo")
    ≡ resolve (foo121 ∷ []) (lit "foo") (find stocked (lit "foo"))
find-replace_example = find-replace stocked (foo121 ∷ []) stocked-IsTable (lit "foo")

replace_clean_iff_example :
    ((replace stocked (foo121 ∷ [])).1 ≡ false) ↔ Agrees stocked (foo121 ∷ [])
replace_clean_iff_example = replace_clean_iff stocked (foo121 ∷ []) stocked-IsTable

Distinct-snapshot : Distinct (foo121 ∷ bar10 ∷ [])
unfolding find_by_name text_eq
Distinct-snapshot = (refl, (refl, tt))

settled :
    ((replace (replace stocked (foo121 ∷ bar10 ∷ [])).0 (foo121 ∷ bar10 ∷ [])).1 ≡ false)
    × ((replace (replace stocked (foo121 ∷ bar10 ∷ [])).0 (foo121 ∷ bar10 ∷ [])).0
        ≡ (replace stocked (foo121 ∷ bar10 ∷ [])).0)
settled = replace_settles stocked (foo121 ∷ bar10 ∷ []) stocked-IsTable Distinct-snapshot

abbrev calls : List Call
calls = replaces (foo12 ∷ bar10 ∷ []) ∷ acks 1 ∷ reconnects ∷ []

run-IsCatalog_example : IsCatalog (run new_catalog calls)
unfolding new_catalog
run-IsCatalog_example = run-IsCatalog new_catalog calls (omega arith) new_catalog-IsCatalog

acked_twice :
    ((epoch_acked new_catalog 3).bundles ≡ new_catalog.bundles)
    × (current_epoch (epoch_acked new_catalog 3) ≡ current_epoch new_catalog)
    × (is_changed (epoch_acked new_catalog 3) ≡ (
        if ltb new_catalog.epoch 3 then is_changed new_catalog else not (3 == new_catalog.epoch)))
acked_twice = epoch_acked_lem new_catalog 3 new_catalog-IsCatalog

changed_after_example :
    (is_changed (reconnected new_catalog) ≡ true)
    × (is_changed (replace new_catalog (foo12 ∷ [])).0
        ≡ ((replace new_catalog (foo12 ∷ [])).1 || is_changed new_catalog))
    × (is_changed (remove new_catalog (lit "foo"))
        ≡ (has_key (lit "foo") new_catalog.bundles || is_changed new_catalog))
unfolding new_catalog
changed_after_example =
    changed_after new_catalog (foo12 ∷ []) (lit "foo") new_catalog-IsCatalog (omega arith)

abbrev restocked : Catalog
restocked = record stocked { bundles = (lit "bar", bar10) ∷ (lit "foo", foo12) ∷ [] }

restocked-IsTable : IsTable restocked.bundles
unfolding lookup text_eq
restocked-IsTable = (refl, (refl, tt))

same_stock : (k : Text) → find stocked k ≡ find restocked k
unfolding find lookup
same_stock k = ground (arith, text_eq_iff (lit "foo") k, text_eq_iff (lit "bar") k)

replace_order_example :
    ((k : Text)
      → find (replace stocked (foo121 ∷ [])).0 k ≡ find (replace restocked (foo121 ∷ [])).0 k)
    × ((replace stocked (foo121 ∷ [])).1 ≡ (replace restocked (foo121 ∷ [])).1)
replace_order_example =
    replace_order stocked restocked (foo121 ∷ []) stocked-IsTable restocked-IsTable same_stock
