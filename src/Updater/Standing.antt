-- ===== src/Updater/Standing.antt =====
-- What stands at a path still stands after an update, and the update makes its own directory.
use go_relay.Base.{
  ◌≡◌, refl, sym, ◌∙◌, subst, Bool, true, false, Option, none, some, List, [], ◌∷◌, Text, text_eq,
  text_eq_iff, text_eq_refl, Table, lookup, insert, erase, lookup-insert, lookup-erase,
  if◌then◌else◌, if_no, if_yes,
}
use go_relay.Messages.Directives.{DynamicConfig}
use go_relay.Updater.{
  Node, dir, file, link, Disk, guarded, next_fault, mkdir_at, mkdir_all, write_at, write_file,
  symlink_at, symlink, rename_at, rename, Action, then_do, verify_managed_config_path, write_layer,
  write_layers, write_bundles, update_dir_of, new_link, prepare_configs, update_configs,
}
use go_relay.Updater.Away.{at}
use go_relay.Updater.Atomic.{blocked_link, blocked_next}

-- Something stands at the path.
abbrev pub IsStanding : Text → Table Node → Type 0
IsStanding r m = (n : Node) × (lookup r m ≡ some n)

module _ (r : Text) where
  insert_stands :
      (p : Text) (n : Node) (m : Table Node) → IsStanding r m → IsStanding r (insert p n m)
  insert_stands p n m (k, h) = by_same (text_eq p r) (lookup-insert p r n m)
    where
      by_same :
          (b : Bool)
          → lookup r (insert p n m) ≡ (if b then some n else lookup r m)
          → IsStanding r (insert p n m)
      by_same true e = (n, e)
      by_same false e = (k, e ∙ h)

  guarded_stands :
      (broken : Table Node) (called : Bool × Table Node) (d : Disk)
      → IsStanding r broken
      → IsStanding r called.1
      → IsStanding r (guarded broken called d).1.nodes
  guarded_stands broken called d hb hc = by_fault (next_fault d.faults)
    where
      by_fault : (b : Bool) → IsStanding r (if b then (false, broken) else called).1
      by_fault true = hb
      by_fault false = hc

  mkdir_all_stands :
      (p : Text) (d : Disk) → IsStanding r d.nodes → IsStanding r (mkdir_all p d).1.nodes
  unfolding mkdir_all
  mkdir_all_stands p d h = guarded_stands _ _ d h (at_node (lookup p d.nodes))
    where
      at_node : (o : Option Node) → IsStanding r (mkdir_at p o d.nodes).1
      at_node none = insert_stands p dir d.nodes h
      at_node (some dir) = h
      at_node (some (file content)) = h
      at_node (some (link target)) = h

  write_file_stands :
      (p content : Text) (d : Disk)
      → IsStanding r d.nodes
      → IsStanding r (write_file p content d).1.nodes
  unfolding write_file
  write_file_stands p content d h =
      guarded_stands _ _ d (insert_stands p (file []) d.nodes h) (at_node (lookup p d.nodes))
    where
      at_node : (o : Option Node) → IsStanding r (write_at p content o d.nodes).1
      at_node none = insert_stands p (file content) d.nodes h
      at_node (some dir) = h
      at_node (some (file old)) = insert_stands p (file content) d.nodes h
      at_node (some (link target)) = h

  symlink_stands :
      (t p : Text) (d : Disk) → IsStanding r d.nodes → IsStanding r (symlink t p d).1.nodes
  unfolding symlink
  symlink_stands t p d h = guarded_stands _ _ d h (at_node (lookup p d.nodes))
    where
      at_node : (o : Option Node) → IsStanding r (symlink_at t p o d.nodes).1
      at_node none = insert_stands p (link t) d.nodes h
      at_node (some n) = h

  rename_stands :
      (from to : Text) (d : Disk)
      → text_eq from r ≡ false
      → IsStanding r d.nodes
      → IsStanding r (rename from to d).1.nodes
  unfolding rename
  rename_stands from to d away h =
      guarded_stands _ _ d h (at_nodes (lookup from d.nodes) (lookup to d.nodes))
    where
      moved : (n : Node) → IsStanding r (insert to n (erase from d.nodes))
      moved n =
          insert_stands to n (erase from d.nodes)
            (h.0, lookup-erase from r d.nodes ∙ if_no _ _ away ∙ h.1)

      at_nodes : (o t : Option Node) → IsStanding r (rename_at from to o t d.nodes).1
      at_nodes none t = h
      at_nodes (some n) none = moved n
      at_nodes (some n) (some dir) = h
      at_nodes (some n) (some (file c)) = moved n
      at_nodes (some n) (some (link l)) = moved n

  then_stands :
      (x : Bool × Disk) (next : Action)
      → IsStanding r x.1.nodes
      → ((d : Disk) → IsStanding r d.nodes → IsStanding r (next d).1.nodes)
      → IsStanding r (then_do x next).1.nodes
  then_stands (true, d) next h k = k d h
  then_stands (false, d) next h k = h

  -- The link takes no place where something stands, so the rename moves nothing else away.
  switch_stands :
      (x : Bool × Disk) (t from to : Text)
      → IsStanding r x.1.nodes
      → IsStanding r (then_do (then_do x (symlink t from)) (rename from to)).1.nodes
  switch_stands x t from to h = by_same (text_eq from r) refl
    where
      after : Bool × Disk → Bool × Disk
      after x = then_do (then_do x (symlink t from)) (rename from to)

      by_same :
          (b : Bool)
          → text_eq from r ≡ b
          → IsStanding r (then_do (then_do x (symlink t from)) (rename from to)).1.nodes
      by_same true e =
          let same : (from ≡ r) = (text_eq_iff from r).0 e in
          let there = subst (λ p. lookup p x.1.nodes ≡ some h.0) (sym same) h.1 in
          let blocked = blocked_link x t from there in
          let kept = blocked_next (then_do x (symlink t from)) (rename from to) from blocked in
          (h.0, subst (λ p. at p (after x) ≡ some h.0) same kept.1)
      by_same false e =
          then_stands (then_do x (symlink t from)) (rename from to)
            (then_stands x (symlink t from) h (symlink_stands t from))
            (λ d. rename_stands from to d e)

  module _ {C : Type 0} (join_path : List Text → Text) (marshal : C → Option Text) where
    layer_stands :
        (path : Text) (contents : Option Text) (d : Disk)
        → IsStanding r d.nodes
        → IsStanding r (write_layer join_path marshal path contents d).1.nodes
    layer_stands path none d h = h
    layer_stands path (some contents) d h = write_file_stands path contents d h

    layers_stand :
        (update_dir bundle : Text) (layers : List (DynamicConfig C)) (d : Disk)
        → IsStanding r d.nodes
        → IsStanding r (write_layers join_path marshal update_dir bundle layers d).1.nodes
    unfolding write_layers
    layers_stand update_dir bundle [] d h = h
    layers_stand update_dir bundle (c ∷ cs) d h =
        then_stands _ (write_layers join_path marshal update_dir bundle cs)
          (layer_stands _ (marshal c.config) d h) (layers_stand update_dir bundle cs)

    bundles_stand :
        (update_dir : Text) (configs : Table (List (DynamicConfig C))) (d : Disk)
        → IsStanding r d.nodes
        → IsStanding r (write_bundles join_path marshal update_dir configs d).1.nodes
    unfolding write_bundles
    bundles_stand update_dir [] d h = h
    bundles_stand update_dir ((bundle, layers) ∷ configs) d h =
        then_stands _ (write_bundles join_path marshal update_dir configs)
          (then_stands _ (write_layers join_path marshal update_dir bundle layers)
            (mkdir_all_stands _ d h) (layers_stand update_dir bundle layers))
          (bundles_stand update_dir configs)

    pub update_configs_stands :
        (root signature : Text) (configs : Table (List (DynamicConfig C))) (d : Disk)
        → IsStanding r d.nodes
        → IsStanding r (update_configs join_path marshal root signature configs d).1.nodes
    unfolding update_configs prepare_configs verify_managed_config_path
    update_configs_stands root signature configs d h =
        let update_dir = update_dir_of join_path marshal root signature in
        switch_stands
          (then_do (then_do (verify_managed_config_path root d) (mkdir_all update_dir))
            (write_bundles join_path marshal update_dir configs))
          update_dir (new_link join_path marshal root) root
          (then_stands _ (write_bundles join_path marshal update_dir configs)
            (then_stands (verify_managed_config_path root d) (mkdir_all update_dir) h
              (mkdir_all_stands update_dir))
            (bundles_stand update_dir configs))

module _ (r : Text) where
  -- If the call has succeeded, something stands at the path.
  IsMade : Bool × Disk → Type 0
  IsMade x = x.0 ≡ true → IsStanding r x.1.nodes

  mkdir_all-IsMade : (d : Disk) → IsMade (mkdir_all r d)
  unfolding mkdir_all IsMade
  mkdir_all-IsMade d h = by_fault (next_fault d.faults) (lookup r d.nodes) refl h
    where
      by_fault :
          (b : Bool) (o : Option Node)
          → lookup r d.nodes ≡ o
          → (if b then (false, d.nodes) else mkdir_at r o d.nodes).0 ≡ true
          → IsStanding r (if b then (false, d.nodes) else mkdir_at r o d.nodes).1
      by_fault true o e g = cc g
      by_fault false none e g = (dir, lookup-insert r r dir d.nodes ∙ if_yes _ _ (text_eq_refl r))
      by_fault false (some dir) e g = (dir, e)
      by_fault false (some (file content)) e g = cc g
      by_fault false (some (link target)) e g = (link target, e)

  then-IsMade :
      (x : Bool × Disk) (next : Action)
      → IsMade x
      → ((d : Disk) → IsStanding r d.nodes → IsStanding r (next d).1.nodes)
      → IsMade (then_do x next)
  unfolding IsMade
  then-IsMade (true, d) next h k g = k d (h refl)
  then-IsMade (false, d) next h k g = cc g

  switch-IsMade :
      (x : Bool × Disk) (t from to : Text)
      → IsMade x
      → IsMade (then_do (then_do x (symlink t from)) (rename from to))
  unfolding IsMade
  switch-IsMade (true, d) t from to h g = switch_stands r (true, d) t from to (h refl)
  switch-IsMade (false, d) t from to h g = cc g

-- After a successful update something stands at the update's directory.
pub update_configs_made :
    {C : Type 0} (join_path : List Text → Text) (marshal : C → Option Text) (root signature : Text)
    (configs : Table (List (DynamicConfig C))) (d : Disk)
    → (update_configs join_path marshal root signature configs d).0 ≡ true
    → IsStanding
        (update_dir_of join_path marshal root signature)
        (update_configs join_path marshal root signature configs d).1.nodes
unfolding update_configs prepare_configs IsMade
update_configs_made join_path marshal root signature configs d =
    let update_dir = update_dir_of join_path marshal root signature in
    switch-IsMade update_dir
      (then_do (then_do (verify_managed_config_path root d) (mkdir_all update_dir))
        (write_bundles join_path marshal update_dir configs))
      update_dir (new_link join_path marshal root) root
      (then-IsMade update_dir _ (write_bundles join_path marshal update_dir configs)
        (mkdir_made update_dir (verify_managed_config_path root d))
        (bundles_stand update_dir join_path marshal update_dir configs))
  where
    mkdir_made : (r : Text) (x : Bool × Disk) → IsMade r (then_do x (mkdir_all r))
    mkdir_made r (true, d) g = mkdir_all-IsMade r d g
    mkdir_made r (false, d) g = cc g
