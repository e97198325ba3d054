-- ===== src/Catalog.antt =====
-- relay/bundle/catalog.go. A method that changes the catalog returns the new one beside its result.
-- The read-write lock makes each locked method one step, which is what a function models; bundles
-- are held by pointer, and only `mark_available` writes through such a pointer.
pub mod Diff
pub mod Replace
pub mod Changes
pub mod Epochs
pub mod Order
mod Tests
use go_relay.Base.{
  ℕ, ◌+◌, ◌%◌, ◌^◌, ◌≡◌, Bool, true, false, not, ◌&&◌, Option, none, some, List, [], ◌∷◌, ◌++◌,
  Text, text_eq, Table, lookup, insert, erase, keys, length, ltb, ◌==◌, if◌then◌else◌,
}
use go_relay.Config.Bundle.{Bundle, set_available}

pub record Catalog : Type 0 where
  pub last_acked : ℕ
  pub epoch : ℕ
  pub bundles : Table Bundle

unfoldable pub new_catalog : Catalog
new_catalog = record { last_acked = 0; epoch = 0; bundles = [] }

pub record DiffResult : Type 0 where
  pub added : List Bundle
  pub removed : List Text

unfoldable pub new_diff_result : DiffResult
new_diff_result = record { added = []; removed = [] }

unfoldable pub find_by_name : Text → List Bundle → Option Bundle
find_by_name name [] = none
find_by_name name (b ∷ bs) = if text_eq b.name name then some b else find_by_name name bs

-- One round of the first loop of `diff`: the entry is gone, or has another version.
unfoldable pub diff_entry : List Bundle → Text → Bundle → DiffResult → DiffResult
diff_entry snapshot name stored r = elim (find_by_name name snapshot) [
  | none ↦ record r { removed = r.removed ++ name ∷ [] }
  | some b ↦
      if text_eq b.version stored.version
      then r
      else record { added = r.added ++ b ∷ []; removed = r.removed ++ name ∷ [] }
]

unfoldable pub diff_stored : List Bundle → Table Bundle → DiffResult → DiffResult
diff_stored snapshot [] r = r
diff_stored snapshot ((name, stored) ∷ m) r =
    diff_stored snapshot m (diff_entry snapshot name stored r)

abbrev pub has_key : Text → Table Bundle → Bool
has_key k m = elim (lookup k m) [ none ↦ false | some _ ↦ true ]

-- The second loop of `diff`.
unfoldable pub diff_new : Table Bundle → List Bundle → DiffResult → DiffResult
diff_new m [] r = r
diff_new m (b ∷ bs) r =
    diff_new m bs (if has_key b.name m then r else record r { added = r.added ++ b ∷ [] })

unfoldable pub diff : Catalog → List Bundle → DiffResult
unfolding new_diff_result
diff c snapshot = diff_new c.bundles snapshot (diff_stored snapshot c.bundles new_diff_result)

-- The loops of `Replace`, over the map and the flag `dirty`.
unfoldable pub remove_all : List Text → Table Bundle → Bool → Table Bundle × Bool
remove_all [] m dirty = (m, dirty)
remove_all (name ∷ names) m dirty =
    let m' = erase name m in
    remove_all names m' (if not dirty && not (length m == length m') then true else dirty)

unfoldable pub add_all : List Bundle → Table Bundle → Bool → Table Bundle × Bool
add_all [] m dirty = (m, dirty)
add_all (b ∷ bs) m dirty = add_all bs (insert b.name b m) (if not dirty then true else dirty)

-- `epoch` is a uint64.
abbrev pub next_epoch : ℕ → ℕ
next_epoch e = (e + 1) % 2 ^ 64

unfoldable pub replace : Catalog → List Bundle → Catalog × Bool
replace c snapshot =
    let result = diff c snapshot in
    let (m1, dirty1) = remove_all result.removed c.bundles false in
    let (m2, dirty2) = add_all result.added m1 dirty1 in
    (record c { bundles = m2; epoch = if dirty2 then next_epoch c.epoch else c.epoch }, dirty2)

unfoldable pub len : Catalog → ℕ
len c = length c.bundles

unfoldable pub bundle_names : Catalog → List Text
bundle_names c = keys c.bundles

unfoldable pub find : Catalog → Text → Option Bundle
find c name = lookup name c.bundles

unfoldable pub count : Catalog → ℕ
count c = length c.bundles

unfoldable pub remove : Catalog → Text → Catalog
remove c name = elim (lookup name c.bundles) [
  | none ↦ c
  | some _ ↦ record c { bundles = erase name c.bundles; epoch = next_epoch c.epoch }
]

unfoldable pub is_changed : Catalog → Bool
is_changed c = ltb c.last_acked c.epoch

unfoldable pub current_epoch : Catalog → ℕ
current_epoch c = c.epoch

unfoldable pub epoch_acked : Catalog → ℕ → Catalog
epoch_acked c acked = if ltb c.epoch acked then c else record c { last_acked = acked }

-- A write of the availability flag through the pointer stored under `name`.
unfoldable pub mark_available : Catalog → Text → Bool → Catalog
mark_available c name flag = elim (lookup name c.bundles) [
  | none ↦ c
  | some b ↦ record c { bundles = insert name (set_available flag b) c.bundles }
]

unfoldable pub mark_ready : Catalog → Text → Catalog
unfolding mark_available
mark_ready c name = mark_available c name true

unfoldable pub reconnected : Catalog → Catalog
reconnected c = record c { epoch = next_epoch c.epoch }
