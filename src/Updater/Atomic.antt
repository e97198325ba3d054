-- ===== src/Updater/Atomic.antt =====
-- Whichever call fails, the managed configuration is the old one or the new one as a whole.
use go_relay.Base.{
  ◌≡◌, refl, ap, ◌∙◌, Bool, true, false, Option, none, some, List, Text, text_eq, text_eq_refl,
  Table, lookup, insert, erase, lookup-insert, arith, if◌then◌else◌, if_yes,
}
use go_relay.Messages.Directives.{DynamicConfig}
use go_relay.Updater.{
  Node, dir, file, link, Disk, next_fault, mkdir_all, symlink_at, symlink, rename_at, rename,
  Action, then_do, verify_managed_config_path, write_bundles, update_dir_of, new_link,
  prepare_configs, update_configs,
}
use go_relay.Updater.Away.{
  at, mkdir_all_keeps, symlink_keeps, then_keeps, verify_keeps, BundlesApart, bundles_keep,
}

symlink_made :
    (t p : Text) (d : Disk) → (symlink t p d).0 ≡ true → at p (symlink t p d) ≡ some (link t)
unfolding symlink
symlink_made t p d h = by_fault (next_fault d.faults) (lookup p d.nodes) refl h
  where
    by_fault :
        (b : Bool) (o : Option Node)
        → lookup p d.nodes ≡ o
        → (if b then (false, d.nodes) else symlink_at t p o d.nodes).0 ≡ true
        → lookup p (if b then (false, d.nodes) else symlink_at t p o d.nodes).1 ≡ some (link t)
    by_fault true o e g = cc g
    by_fault false none e g = lookup-insert p p (link t) d.nodes ∙ if_yes _ _ (text_eq_refl p)
    by_fault false (some n) e g = cc g

moved_to :
    (from to : Text) (n m : Node) (t : Table Node)
    → some m ≡ some n
    → lookup to (insert to m (erase from t)) ≡ some n
moved_to from to n m t e = lookup-insert to to m (erase from t) ∙ if_yes _ _ (text_eq_refl to) ∙ e

rename_moves :
    (from to : Text) (n : Node) (d : Disk)
    → lookup from d.nodes ≡ some n
    → at to (rename from to d) ≡ (if (rename from to d).0 then some n else lookup to d.nodes)
unfolding rename
rename_moves from to n d h =
    by_fault (next_fault d.faults) (lookup from d.nodes) (lookup to d.nodes) h refl
  where
    by_fault :
        (b : Bool) (o t : Option Node)
        → o ≡ some n
        → lookup to d.nodes ≡ t
        → lookup to (if b then (false, d.nodes) else rename_at from to o t d.nodes).1 ≡ (
            if (if b then (false, d.nodes) else rename_at from to o t d.nodes).0
            then some n
            else lookup to d.nodes)
    by_fault true o t e g = refl
    by_fault false none t e g = cc
    by_fault false (some m) none e g = moved_to from to n m d.nodes e
    by_fault false (some m) (some dir) e g = refl
    by_fault false (some m) (some (file c)) e g = moved_to from to n m d.nodes e
    by_fault false (some m) (some (link l)) e g = moved_to from to n m d.nodes e

prepared_link :
    (x : Bool × Disk) (t p : Text)
    → (then_do x (symlink t p)).0 ≡ true
    → at p (then_do x (symlink t p)) ≡ some (link t)
prepared_link (true, d) t p h = symlink_made t p d h
prepared_link (false, d) t p h = cc h

switch_link :
    (x : Bool × Disk) (from to : Text) (n : Node) {v : Option Node}
    → at to x ≡ v
    → (x.0 ≡ true → at from x ≡ some n)
    → at to (then_do x (rename from to)) ≡ (if (then_do x (rename from to)).0 then some n else v)
switch_link (true, d) from to n h k =
    rename_moves from to n d (k refl) ∙ ap (λ o. if (rename from to d).0 then some n else o) h
switch_link (false, d) from to n h k = h

pub blocked_link :
    (x : Bool × Disk) (t p : Text) {n : Node}
    → at p x ≡ some n
    → ((then_do x (symlink t p)).0 ≡ false) × (at p (then_do x (symlink t p)) ≡ some n)
unfolding symlink
blocked_link (true, d) t p {n} h = by_fault (next_fault d.faults) (lookup p d.nodes) refl
  where
    by_fault :
        (b : Bool) (o : Option Node)
        → lookup p d.nodes ≡ o
        → ((if b then (false, d.nodes) else symlink_at t p o d.nodes).0 ≡ false)
          × (lookup p (if b then (false, d.nodes) else symlink_at t p o d.nodes).1 ≡ some n)
    by_fault true o e = (refl, h)
    by_fault false none e = ground (arith, e, h)
    by_fault false (some m) e = (refl, h)
blocked_link (false, d) t p h = (refl, h)

pub blocked_next :
    (x : Bool × Disk) (next : Action) (p : Text) {o : Option Node}
    → (x.0 ≡ false) × (at p x ≡ o)
    → ((then_do x next).0 ≡ false) × (at p (then_do x next) ≡ o)
blocked_next (true, d) next p (h, k) = cc h
blocked_next (false, d) next p h = h

module _ {C : Type 0} (join_path : List Text → Text) (marshal : C → Option Text) where
  -- No path that an update writes before the final rename is `r`.
  abbrev pub IsApart : Text → Text → Text → Table (List (DynamicConfig C)) → Type 0
  IsApart r root signature configs =
      (text_eq (update_dir_of join_path marshal root signature) r ≡ false)
      × BundlesApart r join_path marshal (update_dir_of join_path marshal root signature) configs

  written : Text → Text → Table (List (DynamicConfig C)) → Action
  written root signature configs d =
      then_do
        (then_do (verify_managed_config_path root d)
          (mkdir_all (update_dir_of join_path marshal root signature)))
        (write_bundles join_path marshal (update_dir_of join_path marshal root signature) configs)

  written_keeps :
      (r root signature : Text) (configs : Table (List (DynamicConfig C))) (d : Disk)
      → IsApart r root signature configs
      → at r (written root signature configs d) ≡ lookup r d.nodes
  unfolding written
  written_keeps r root signature configs d (h, hs) =
      then_keeps r _ _ (then_keeps r _ _ (verify_keeps r root d) (mkdir_all_keeps r _ h))
        (bundles_keep r join_path marshal _ configs hs)

  -- Whatever call fails, and wherever: the managed path links to the new directory if the update
  -- reports success, and otherwise stands as it stood before, as long as the paths that the update
  -- writes are others.
  pub update_configs_atomic :
      (root signature : Text) (configs : Table (List (DynamicConfig C))) (d : Disk)
      → IsApart root root signature configs
      → text_eq (new_link join_path marshal root) root ≡ false
      → lookup root (update_configs join_path marshal root signature configs d).1.nodes ≡ (
          if (update_configs join_path marshal root signature configs d).0
          then some (link (update_dir_of join_path marshal root signature))
          else lookup root d.nodes)
  unfolding update_configs prepare_configs written
  update_configs_atomic root signature configs d h hn =
      let update_dir = update_dir_of join_path marshal root signature in
      let x = written root signature configs d in
      switch_link (then_do x (symlink update_dir (new_link join_path marshal root)))
        (new_link join_path marshal root) root (link update_dir)
        (then_keeps root x _ (written_keeps root root signature configs d h)
          (symlink_keeps root _ hn update_dir))
        (prepared_link x update_dir (new_link join_path marshal root))

  -- Once something stands at the temporary link's path, as after a failed rename, every update fails
  -- and leaves it there, as long as the update writes nothing else to that path.
  pub update_configs_blocked :
      (root signature : Text) (configs : Table (List (DynamicConfig C))) (d : Disk) (n : Node)
      → IsApart (new_link join_path marshal root) root signature configs
      → lookup (new_link join_path marshal root) d.nodes ≡ some n
      → ((update_configs join_path marshal root signature configs d).0 ≡ false)
        × (lookup
              (new_link join_path marshal root)
              (update_configs join_path marshal root signature configs d).1.nodes
            ≡ some n)
  unfolding update_configs prepare_configs written
  update_configs_blocked root signature configs d n h e =
      blocked_next _ (rename (new_link join_path marshal root) root)
        (new_link join_path marshal root)
        (blocked_link (written root signature configs d)
          (update_dir_of join_path marshal root signature) (new_link join_path marshal root)
          (written_keeps (new_link join_path marshal root) root signature configs d h ∙ e))
