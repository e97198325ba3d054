-- ===== src/Catalog/Diff.antt =====
-- What the loops of `diff` and `Replace` compute, key by key.
use go_relay.Base.{
  ◌≡◌, refl, ap, ◌∙◌, inl, inr, Option-cases, Bool, true, false, not, ◌||◌, Option, none, some,
  List, [], ◌∷◌, ◌++◌, Text, text_eq, text_eq_iff, Table, IsTable, lookup, insert, erase,
  lookup-insert, lookup-erase, arith, if◌then◌else◌,
}
use go_relay.Config.Bundle.{Bundle}
use go_relay.Catalog.{
  DiffResult, find_by_name, diff_entry, diff_stored, has_key, diff_new, remove_all, add_all,
}

abbrev pub contains : Text → List Text → Bool
contains k [] = false
contains k (n ∷ ns) = text_eq n k || contains k ns

-- The last bundle of that name, or `d`.
abbrev pub latest : Text → List Bundle → Option Bundle → Option Bundle
latest k [] d = d
latest k (b ∷ bs) d = latest k bs (if text_eq b.name k then some b else d)

contains-append :
    (k n : Text) (ns : List Text) → contains k (ns ++ n ∷ []) ≡ (contains k ns || text_eq n k)
contains-append k n [] = ground arith
contains-append k n (x ∷ ns) = ground (arith, contains-append k n ns)

latest-append :
    (k : Text) (b : Bundle) (bs : List Bundle) (d : Option Bundle)
    → latest k (bs ++ b ∷ []) d ≡ (if text_eq b.name k then some b else latest k bs d)
latest-append k b [] d = refl
latest-append k b (x ∷ bs) d = latest-append k b bs (if text_eq x.name k then some x else d)

pub find_by_name-name :
    (k : Text) (bs : List Bundle) {b : Bundle} → find_by_name k bs ≡ some b → b.name ≡ k
unfolding find_by_name
find_by_name-name k [] h = ground arith
find_by_name-name k (x ∷ bs) {b} h =
    ground (arith, find_by_name-name k bs {b = b}, text_eq_iff x.name k)

pub lookup-remove_all :
    (k : Text) (ns : List Text) (m : Table Bundle) (dirty : Bool)
    → lookup k (remove_all ns m dirty).0 ≡ (if contains k ns then none else lookup k m)
unfolding remove_all
lookup-remove_all k [] m dirty = refl
lookup-remove_all k (n ∷ ns) m dirty =
    lookup-remove_all k ns (erase n m) _ ∙ simp lookup-erase (ground arith)

pub lookup-add_all :
    (k : Text) (bs : List Bundle) (m : Table Bundle) (dirty : Bool)
    → lookup k (add_all bs m dirty).0 ≡ latest k bs (lookup k m)
unfolding add_all
lookup-add_all k [] m dirty = refl
lookup-add_all k (b ∷ bs) m dirty =
    lookup-add_all k bs (insert b.name b m) _ ∙ ap (latest k bs) (lookup-insert b.name k b m)

-- Is the entry stored under `k` removed, given what the snapshot holds under that name?
abbrev pub stale : Option Bundle → Option Bundle → Bool
stale none found = false
stale (some s) none = true
stale (some s) (some b) = not (text_eq b.version s.version)

-- What the first loop of `diff` adds under `k`, over `d`.
abbrev pub pick : Option Bundle → Option Bundle → Option Bundle → Option Bundle
pick none found d = d
pick (some s) none d = d
pick (some s) (some b) d = if text_eq b.version s.version then d else some b

diff_entry-removed :
    (k : Text) (bs : List Bundle) (n : Text) (s : Bundle) (r : DiffResult)
    → contains k (diff_entry bs n s r).removed ≡ (
        if text_eq n k
        then contains k r.removed || stale (some s) (find_by_name k bs)
        else contains k r.removed)
unfolding diff_entry
diff_entry-removed k bs n s r = ground (arith, contains-append k n r.removed, text_eq_iff n k)

diff_entry-added :
    (k : Text) (bs : List Bundle) (n : Text) (s : Bundle) (r : DiffResult) (d : Option Bundle)
    → latest k (diff_entry bs n s r).added d ≡ (
        if text_eq n k
        then pick (some s) (find_by_name k bs) (latest k r.added d)
        else latest k r.added d)
unfolding diff_entry
diff_entry-added k bs n s r d = elim (Option-cases (find_by_name n bs)) [
  | inl e ↦ ground (arith, e, text_eq_iff n k)
  | inr (b, e) ↦
      ground (arith, e, text_eq_iff n k, find_by_name-name n bs e, latest-append k b r.added d)
]

module _ (k : Text) (bs : List Bundle) where
  pub diff_stored-removed :
      (m : Table Bundle) (r : DiffResult)
      → IsTable m
      → contains k (diff_stored bs m r).removed
        ≡ (contains k r.removed || stale (lookup k m) (find_by_name k bs))
  unfolding diff_stored lookup
  diff_stored-removed [] r t = ground arith
  diff_stored-removed ((n, s) ∷ m) r t =
      diff_stored-removed m (diff_entry bs n s r) t.1
      ∙ ground (arith, diff_entry-removed k bs n s r, text_eq_iff n k)

  pub diff_stored-added :
      (m : Table Bundle) (r : DiffResult) (d : Option Bundle)
      → IsTable m
      → latest k (diff_stored bs m r).added d
        ≡ pick (lookup k m) (find_by_name k bs) (latest k r.added d)
  unfolding diff_stored lookup
  diff_stored-added [] r d t = refl
  diff_stored-added ((n, s) ∷ m) r d t =
      diff_stored-added m (diff_entry bs n s r) d t.1
      ∙ ground (arith, diff_entry-added k bs n s r d, text_eq_iff n k)

module _ (k : Text) (m : Table Bundle) where
  pub diff_new-removed : (bs : List Bundle) (r : DiffResult) → (diff_new m bs r).removed ≡ r.removed
  unfolding diff_new
  diff_new-removed [] r = refl
  diff_new-removed (b ∷ bs) r = diff_new-removed bs _ ∙ ground arith

  pub diff_new-added :
      (bs : List Bundle) (r : DiffResult) (d : Option Bundle)
      → latest k (diff_new m bs r).added d
        ≡ (if has_key k m then latest k r.added d else latest k bs (latest k r.added d))
  unfolding diff_new
  diff_new-added [] r d = ground arith
  diff_new-added (b ∷ bs) r d =
      diff_new-added bs _ d ∙ ground (arith, latest-append k b r.added d, text_eq_iff b.name k)
