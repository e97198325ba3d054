-- ===== src/Catalog/Changes.antt =====
-- When `Replace` raises its flag, and what a quiet `Replace` leaves alone.
use go_relay.Base.{
  ◌≡◌, ◌↔◌, refl, sym, ap, ◌∙◌, inl, inr, Option-cases, Bool-cases, Bool, true, false, Option, none,
  some, List, [], ◌∷◌, Text, text_eq, text_eq_iff, text_eq_refl, Table, IsTable, lookup, insert,
  erase, insert-IsTable, erase-IsTable, arith, length-erase_present,
}
use go_relay.Config.Bundle.{Bundle}
use go_relay.Catalog.{Catalog, find_by_name, diff, remove_all, add_all, replace, find}
use go_relay.Catalog.Diff.{contains, latest, pick, stale}
use go_relay.Catalog.Replace.{diff-removed, diff-added, find-replace, resolve}

-- The flag `dirty` is never lowered.
add_all-true : (bs : List Bundle) (m : Table Bundle) → (add_all bs m true).1 ≡ true
unfolding add_all
add_all-true [] m = refl
add_all-true (b ∷ bs) m = add_all-true bs (insert b.name b m)

add_all_clean :
    (bs : List Bundle) (m : Table Bundle) (d : Bool)
    → (add_all bs m d).1 ≡ false
    → (bs ≡ []) × (d ≡ false)
unfolding add_all
add_all_clean [] m d h = (refl, h)
add_all_clean (b ∷ bs) m true h = cc (add_all-true bs (insert b.name b m))
add_all_clean (b ∷ bs) m false h = cc (add_all-true bs (insert b.name b m))

remove_all-true : (ns : List Text) (m : Table Bundle) → (remove_all ns m true).1 ≡ true
unfolding remove_all
remove_all-true [] m = refl
remove_all-true (n ∷ ns) m = remove_all-true ns (erase n m)

remove_all_present :
    (n : Text) (ns : List Text) (m : Table Bundle) {b : Bundle}
    → IsTable m
    → lookup n m ≡ some b
    → (remove_all (n ∷ ns) m false).1 ≡ true
unfolding remove_all
remove_all_present n ns m {b} t h =
    ap (λ d. (remove_all ns (erase n m) d).1) (ground (arith, length-erase_present n m {v = b} t h))
    ∙ remove_all-true ns (erase n m)

-- Where some bundle has the name, `latest` finds one, whatever the default.
latest-some :
    (k : Text) (bs : List Bundle) (a : Bundle) → (b : Bundle) × (latest k bs (some a) ≡ some b)
latest-some k [] a = (a, refl)
latest-some k (x ∷ bs) a = elim (Bool-cases (text_eq x.name k)) [
  | inl e ↦ rw e (latest-some k bs x)
  | inr e ↦ rw e (latest-some k bs a)
]

latest-none : (k : Text) (bs : List Bundle) → latest k bs none ≡ none → find_by_name k bs ≡ none
unfolding find_by_name
latest-none k [] h = refl
latest-none k (x ∷ bs) h = elim (Bool-cases (text_eq x.name k)) [
  | inl e ↦ cc (sym (latest-some k bs x).1, rw e at h)
  | inr e ↦ rw e (latest-none k bs (rw e at h))
]

latest_absent :
    (k : Text) (bs : List Bundle) (d : Option Bundle) → find_by_name k bs ≡ none → latest k bs d ≡ d
unfolding find_by_name
latest_absent k [] d h = refl
latest_absent k (x ∷ bs) d h = elim (Bool-cases (text_eq x.name k)) [
  | inl e ↦ cc (rw e at h)
  | inr e ↦ rw e (latest_absent k bs d (rw e at h))
]

all_absent : (ns : List Text) → ((k : Text) → contains k ns ≡ false) → ns ≡ []
all_absent [] h = refl
all_absent (n ∷ ns) h = ground (arith, h n, text_eq_refl n)

none-latest : (bs : List Bundle) → ((k : Text) → latest k bs none ≡ none) → bs ≡ []
none-latest [] h = refl
none-latest (b ∷ bs) h =
    cc (sym (latest-some b.name bs b).1, rw (text_eq_refl b.name) at (h b.name))

abbrev pub version_of : Option Bundle → Option Text
version_of none = none
version_of (some b) = some b.version

-- The catalog and a snapshot have the same names at the same versions.
abbrev pub Agrees : Catalog → List Bundle → Type 0
Agrees c snapshot = (k : Text) → version_of (find c k) ≡ version_of (find_by_name k snapshot)

stale_same : (o found : Option Bundle) → version_of o ≡ version_of found → stale o found ≡ false
stale_same none found h = refl
stale_same (some s) none h = ground arith
stale_same (some s) (some b) h = ground (arith, text_eq_iff b.version s.version)

pick_same : (o found d : Option Bundle) → version_of o ≡ version_of found → pick o found d ≡ d
pick_same none found d h = refl
pick_same (some s) none d h = refl
pick_same (some s) (some b) d h = ground (arith, text_eq_iff b.version s.version)

same_stale :
    (s : Bundle) (found : Option Bundle)
    → stale (some s) found ≡ false
    → version_of (some s) ≡ version_of found
same_stale s none h = ground arith
same_stale s (some b) h = ground (arith, text_eq_iff b.version s.version)

stale_present : (o found : Option Bundle) → stale o found ≡ true → (b : Bundle) × (o ≡ some b)
stale_present none found h = absurd (ground arith)
stale_present (some s) found h = (s, refl)

clean_removed :
    (ns : List Text) (m : Table Bundle)
    → IsTable m
    → ((k : Text) → contains k ns ≡ true → (b : Bundle) × (lookup k m ≡ some b))
    → (remove_all ns m false).1 ≡ false
    → ns ≡ []
clean_removed [] m t present h = refl
clean_removed (n ∷ ns) m t present h =
    let (b, e) = present n (ground (arith, text_eq_refl n)) in cc (remove_all_present n ns m t e)

module _ (c : Catalog) (snapshot : List Bundle) (t : IsTable c.bundles) where
  clean_diff :
      (replace c snapshot).1 ≡ false
      → ((diff c snapshot).added ≡ []) × ((diff c snapshot).removed ≡ [])
  unfolding replace
  clean_diff h =
      let (none_added, unraised) = add_all_clean _ _ _ h in
      (
        none_added,
        clean_removed _ c.bundles t
            (λ k e.
              stale_present _ (find_by_name k snapshot) (sym (diff-removed c snapshot t k) ∙ e))
            unraised,
      )

  Agrees-diff :
      Agrees c snapshot → ((diff c snapshot).added ≡ []) × ((diff c snapshot).removed ≡ [])
  unfolding find
  Agrees-diff h = (
    none-latest _ λ k.
        diff-added c snapshot t k none
        ∙ ground (
          arith,
          h k,
          pick_same (lookup k c.bundles) (find_by_name k snapshot) none (h k),
          latest_absent k snapshot none,
        ),
    all_absent _ λ k. diff-removed c snapshot t k ∙ stale_same _ _ (h k),
  )

  clean_Agrees : (replace c snapshot).1 ≡ false → Agrees c snapshot
  unfolding find
  clean_Agrees h k = elim (Option-cases (lookup k c.bundles)) [
    | inl e ↦
        let found =
          latest-none k snapshot
            (ground (arith, (clean_diff h).0, diff-added c snapshot t k none)) in
        rw (e, found)
    | inr (s, e) ↦ rw e (
        same_stale s (find_by_name k snapshot)
          (ground (arith, (clean_diff h).1, diff-removed c snapshot t k)))
  ]

  -- `Replace` on a catalog that holds each name once reports no change exactly when the catalog already has the snapshot's names, each at
  -- the version of the snapshot's first bundle of that name.
  pub replace_clean_iff : ((replace c snapshot).1 ≡ false) ↔ Agrees c snapshot
  unfolding replace add_all remove_all
  replace_clean_iff = (clean_Agrees, λ h. rw (Agrees-diff h).0 (rw (Agrees-diff h).1))

-- No two bundles of the list share a name.
abbrev pub Distinct : List Bundle → Type 0
Distinct [] = Unit
Distinct (b ∷ bs) = (find_by_name b.name bs ≡ none) × Distinct bs

latest-Distinct : (k : Text) (bs : List Bundle) → Distinct bs → latest k bs none ≡ find_by_name k bs
unfolding find_by_name
latest-Distinct k [] d = refl
latest-Distinct k (b ∷ bs) d = elim (Bool-cases (text_eq b.name k)) [
  | inl e ↦ rw e (latest_absent k bs (some b) (rw (← (text_eq_iff b.name k).0 e) d.0))
  | inr e ↦ rw e (latest-Distinct k bs d.1)
]

remove_all-IsTable :
    (ns : List Text) (m : Table Bundle) (d : Bool) → IsTable m → IsTable (remove_all ns m d).0
unfolding remove_all
remove_all-IsTable [] m d t = t
remove_all-IsTable (n ∷ ns) m d t = remove_all-IsTable ns (erase n m) _ (erase-IsTable n m t)

add_all-IsTable :
    (bs : List Bundle) (m : Table Bundle) (d : Bool) → IsTable m → IsTable (add_all bs m d).0
unfolding add_all
add_all-IsTable [] m d t = t
add_all-IsTable (b ∷ bs) m d t =
    add_all-IsTable bs (insert b.name b m) _ (insert-IsTable b.name b m t)

module _ (c : Catalog) (snapshot : List Bundle) (t : IsTable c.bundles) where
  pub replace-IsTable : IsTable (replace c snapshot).0.bundles
  unfolding replace
  replace-IsTable =
      add_all-IsTable (diff c snapshot).added _ _
        (remove_all-IsTable (diff c snapshot).removed c.bundles false t)

  -- A `Replace` that reports no change makes none.
  pub replace_quiet : (replace c snapshot).1 ≡ false → (replace c snapshot).0 ≡ c
  unfolding replace add_all remove_all
  replace_quiet h =
      let (no_adds, no_removals) = clean_diff c snapshot t h in rw no_adds (rw no_removals)

  Agrees-replace : Distinct snapshot → Agrees (replace c snapshot).0 snapshot
  unfolding resolve
  Agrees-replace d k = rw (find-replace c snapshot t k) (agrees (find c k))
    where
      agrees :
          (o : Option Bundle)
          → version_of (resolve snapshot k o) ≡ version_of (find_by_name k snapshot)
      agrees none = ap version_of (latest-Distinct k snapshot d)
      agrees (some s) = elim (Option-cases (find_by_name k snapshot)) [
        | inl e ↦ ground (arith, e)
        | inr (b, e) ↦ ground (arith, e, text_eq_iff b.version s.version)
      ]

-- Where the catalog's and the snapshot's names are distinct, a second `Replace` by the same snapshot reports no
-- change and leaves the catalog, its epoch included, as the first one left it.
pub replace_settles :
    (c : Catalog) (snapshot : List Bundle)
    → IsTable c.bundles
    → Distinct snapshot
    → ((replace (replace c snapshot).0 snapshot).1 ≡ false)
      × ((replace (replace c snapshot).0 snapshot).0 ≡ (replace c snapshot).0)
replace_settles c snapshot t d =
    let t' = replace-IsTable c snapshot t in
    let quiet =
      (replace_clean_iff (replace c snapshot).0 snapshot t').1 (Agrees-replace c snapshot t d) in
    (quiet, replace_quiet (replace c snapshot).0 snapshot t' quiet)
