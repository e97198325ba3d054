-- ===== src/Updater/Away.antt =====
-- The calls of an update leave a path alone that is none of theirs.
use go_relay.Base.{
  ◌≡◌, refl, ◌∙◌, Bool, true, false, Option, none, some, List, [], ◌∷◌, Text, text_eq, Table,
  lookup, insert, lookup-insert, if◌then◌else◌, if_no,
}
use go_relay.Messages.Directives.{DynamicConfig}
use go_relay.Updater.{
  Node, dir, file, link, Disk, guarded, next_fault, mkdir_at, mkdir_all, write_at, write_file,
  symlink_at, symlink, Action, then_do, verify_managed_config_path, config_path, write_layer,
  write_layers, write_bundles,
}

abbrev pub at : Text → Bool × Disk → Option Node
at r x = lookup r x.1.nodes

module _ (r : Text) where
  insert_away :
      (p : Text) (n : Node) (m : Table Node)
      → text_eq p r ≡ false
      → lookup r (insert p n m) ≡ lookup r m
  insert_away p n m h = lookup-insert p r n m ∙ if_no _ _ h

  guarded_keeps :
      (broken : Table Node) (called : Bool × Table Node) (d : Disk)
      → lookup r broken ≡ lookup r d.nodes
      → lookup r called.1 ≡ lookup r d.nodes
      → at r (guarded broken called d) ≡ lookup r d.nodes
  guarded_keeps broken called d hb hc = by_fault (next_fault d.faults)
    where
      by_fault : (b : Bool) → lookup r (if b then (false, broken) else called).1 ≡ lookup r d.nodes
      by_fault true = hb
      by_fault false = hc

  module _ (p : Text) (away : text_eq p r ≡ false) where
    mkdir_at_keeps : (o : Option Node) (m : Table Node) → lookup r (mkdir_at p o m).1 ≡ lookup r m
    mkdir_at_keeps none m = insert_away p dir m away
    mkdir_at_keeps (some dir) m = refl
    mkdir_at_keeps (some (file content)) m = refl
    mkdir_at_keeps (some (link target)) m = refl

    pub mkdir_all_keeps : (d : Disk) → at r (mkdir_all p d) ≡ lookup r d.nodes
    unfolding mkdir_all
    mkdir_all_keeps d = guarded_keeps _ _ d refl (mkdir_at_keeps (lookup p d.nodes) d.nodes)

    write_at_keeps :
        (content : Text) (o : Option Node) (m : Table Node)
        → lookup r (write_at p content o m).1 ≡ lookup r m
    write_at_keeps content none m = insert_away p (file content) m away
    write_at_keeps content (some dir) m = refl
    write_at_keeps content (some (file old)) m = insert_away p (file content) m away
    write_at_keeps content (some (link target)) m = refl

    write_file_keeps :
        (content : Text) (d : Disk) → at r (write_file p content d) ≡ lookup r d.nodes
    unfolding write_file
    write_file_keeps content d =
        guarded_keeps _ _ d (insert_away p (file []) d.nodes away)
          (write_at_keeps content (lookup p d.nodes) d.nodes)

    symlink_at_keeps :
        (t : Text) (o : Option Node) (m : Table Node) → lookup r (symlink_at t p o m).1 ≡ lookup r m
    symlink_at_keeps t none m = insert_away p (link t) m away
    symlink_at_keeps t (some n) m = refl

    pub symlink_keeps : (t : Text) (d : Disk) → at r (symlink t p d) ≡ lookup r d.nodes
    unfolding symlink
    symlink_keeps t d = guarded_keeps _ _ d refl (symlink_at_keeps t (lookup p d.nodes) d.nodes)

  pub then_keeps :
      (x : Bool × Disk) (next : Action) {v : Option Node}
      → at r x ≡ v
      → ((d : Disk) → at r (next d) ≡ lookup r d.nodes)
      → at r (then_do x next) ≡ v
  then_keeps (true, d) next h k = k d ∙ h
  then_keeps (false, d) next h k = h

  pub verify_keeps :
      (root : Text) (d : Disk) → at r (verify_managed_config_path root d) ≡ lookup r d.nodes
  unfolding verify_managed_config_path
  verify_keeps root d = refl

  module _ {C : Type 0} (join_path : List Text → Text) (marshal : C → Option Text) where
    -- No file of the layers, no directory of the bundles stands at `r`.
    abbrev pub LayersApart : Text → Text → List (DynamicConfig C) → Type 0
    LayersApart update_dir bundle [] = Unit
    LayersApart update_dir bundle (c ∷ cs) =
        (text_eq (config_path join_path marshal update_dir bundle c) r ≡ false)
        × LayersApart update_dir bundle cs

    abbrev pub BundlesApart : Text → Table (List (DynamicConfig C)) → Type 0
    BundlesApart update_dir [] = Unit
    BundlesApart update_dir ((bundle, layers) ∷ configs) =
        (text_eq (join_path (update_dir ∷ bundle ∷ [])) r ≡ false)
        × LayersApart update_dir bundle layers
        × BundlesApart update_dir configs

    layer_keeps :
        (path : Text) (contents : Option Text) (d : Disk)
        → text_eq path r ≡ false
        → at r (write_layer join_path marshal path contents d) ≡ lookup r d.nodes
    layer_keeps path none d h = refl
    layer_keeps path (some contents) d h = write_file_keeps path h contents d

    layers_keep :
        (update_dir bundle : Text) (layers : List (DynamicConfig C))
        → LayersApart update_dir bundle layers
        → (d : Disk)
        → at r (write_layers join_path marshal update_dir bundle layers d) ≡ lookup r d.nodes
    unfolding write_layers
    layers_keep update_dir bundle [] h d = refl
    layers_keep update_dir bundle (c ∷ cs) (h, hs) d =
        then_keeps _ (write_layers join_path marshal update_dir bundle cs)
          (layer_keeps (config_path join_path marshal update_dir bundle c) (marshal c.config) d h)
          (layers_keep update_dir bundle cs hs)

    pub bundles_keep :
        (update_dir : Text) (configs : Table (List (DynamicConfig C)))
        → BundlesApart update_dir configs
        → (d : Disk)
        → at r (write_bundles join_path marshal update_dir configs d) ≡ lookup r d.nodes
    unfolding write_bundles
    bundles_keep update_dir [] h d = refl
    bundles_keep update_dir ((bundle, layers) ∷ configs) (h, hl, hs) d =
        then_keeps _ (write_bundles join_path marshal update_dir configs)
          (then_keeps _ (write_layers join_path marshal update_dir bundle layers)
            (mkdir_all_keeps (join_path (update_dir ∷ bundle ∷ [])) h d)
            (layers_keep update_dir bundle layers hl))
          (bundles_keep update_dir configs hs)
