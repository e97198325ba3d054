-- ===== src/Catalog/Replace.antt =====
-- `Replace` against its specification: what each name maps to afterwards, when the flag is raised,
-- and that the catalog stays well formed.
use go_relay.Base.{
  ◌≡◌, ap, ◌∙◌, Option, none, some, List, Text, text_eq, IsTable, lookup, arith, if◌then◌else◌,
}
use go_relay.Config.Bundle.{Bundle}
use go_relay.Catalog.{Catalog, new_diff_result, find_by_name, has_key, diff, replace, find}
use go_relay.Catalog.Diff.{
  contains, latest, pick, stale, lookup-remove_all, lookup-add_all, diff_stored-removed,
  diff_stored-added, diff_new-removed, diff_new-added,
}

-- What a name maps to after a snapshot: the stored bundle if the version is the same, else the
-- snapshot's; of several new bundles with one name, the last.
unfoldable pub resolve : List Bundle → Text → Option Bundle → Option Bundle
resolve snapshot k none = latest k snapshot none
resolve snapshot k (some s) = elim (find_by_name k snapshot) [
  | none ↦ none
  | some b ↦ if text_eq b.version s.version then some s else some b
]

module _ (c : Catalog) (snapshot : List Bundle) (t : IsTable c.bundles) where
  pub diff-removed :
      (k : Text)
      → contains k (diff c snapshot).removed ≡ stale (lookup k c.bundles) (find_by_name k snapshot)
  unfolding diff
  diff-removed k =
      ap (contains k) (diff_new-removed k c.bundles snapshot _)
      ∙ diff_stored-removed k snapshot c.bundles new_diff_result t

  pub diff-added :
      (k : Text) (d : Option Bundle)
      → latest k (diff c snapshot).added d ≡ (
          if has_key k c.bundles
          then pick (lookup k c.bundles) (find_by_name k snapshot) d
          else latest k snapshot d)
  unfolding diff
  diff-added k d =
      diff_new-added k c.bundles snapshot _ d
      ∙ ground (arith, diff_stored-added k snapshot c.bundles new_diff_result d t)

  -- After `Replace` on a catalog that holds each name once, every name maps to what `resolve` says:
  -- to the last bundle of that name in the snapshot if it was not in the catalog, to the snapshot's
  -- if the version differs, to the bundle that was there otherwise, and to nothing if the snapshot
  -- lacks it.
  pub find-replace : (k : Text) → find (replace c snapshot).0 k ≡ resolve snapshot k (find c k)
  unfolding find replace resolve
  find-replace k =
      lookup-add_all k (diff c snapshot).added _ _
      ∙ ap (latest k (diff c snapshot).added) (lookup-remove_all k (diff c snapshot).removed _ _)
      ∙ diff-added k _
      ∙ ground (arith, diff-removed k)
