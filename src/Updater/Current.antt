-- ===== src/Updater/Current.antt =====
-- The signature that the updater remembers is that of the configuration in place.
use go_relay.Base.{
  ◌≡◌, ◌⊎◌, refl, ap, ◌∙◌, inl, inr, Bool, true, false, not, ◌&&◌, ◌||◌, Option, some, List, [],
  ◌∷◌, ◌++◌, Text, lit, text_eq, text_eq_iff, text_eq_refl, has_prefix, has_suffix, Table, lookup,
  All, arith, if◌then◌else◌,
}
use go_relay.Messages.Directives.{DynamicConfigsResponseEnvelope}
use go_relay.Updater.{
  Node, link, Disk, remove_all, update_dir_of, new_link, update_configs, clean_entries,
  clean_old_configs, dyn_config_update,
}
use go_relay.Updater.Atomic.{IsApart, update_configs_atomic}
use go_relay.Updater.Standing.{IsStanding, update_configs_stands, update_configs_made}

-- The path is the entry or stands below it.
abbrev below : Text → Text → Bool
below entry path = text_eq path entry || has_prefix path (entry ++ lit "/")

remove_all_keeps :
    (r entry : Text) (m : Table Node)
    → below entry r ≡ false
    → lookup r (remove_all entry m) ≡ lookup r m
unfolding lookup remove_all
remove_all_keeps r entry [] h = refl
remove_all_keeps r entry ((p, n) ∷ m) h =
    let same : (p ≡ r → below entry p ≡ false) = λ e. ap (below entry) e ∙ h in
    grind (arith, same, text_eq_iff p r, remove_all_keeps r entry m h)

-- Nothing but the path itself among the entries has the path below it.
abbrev pub IsSibling : Text → Text → Type 0
IsSibling r entry = text_eq entry r || not (below entry r) ≡ true

or_right : (a : Bool) {b : Bool} → b ≡ true → a || b ≡ true
or_right true h = refl
or_right false h = h

-- Where an entry that is the path itself is not removed, the path stays as it is.
clean_entries_keep :
    {C : Type 0} (join_path : List Text → Text) (marshal : C → Option Text)
    (root signature r : Text) (entries : List Text) (m : Table Node)
    → All (IsSibling r) entries
    → text_eq r root || has_suffix r signature ≡ true
    → lookup r (clean_entries join_path marshal root signature entries m) ≡ lookup r m
unfolding clean_entries
clean_entries_keep join_path marshal root signature r [] m h s = refl
clean_entries_keep join_path marshal root signature r (e ∷ es) m h s =
    clean_entries_keep join_path marshal root signature r es _ h.1 s
    ∙ one (text_eq e root || has_suffix e signature) refl
  where
    listed :
        (same : Bool)
        → text_eq e r ≡ same
        → same || not (below e r) ≡ true
        → text_eq e root || has_suffix e signature ≡ false
        → below e r ≡ false
    listed true q g k =
        let same : (e ≡ r) = (text_eq_iff e r).0 q in
        let kept : (text_eq e root || has_suffix e signature ≡ true) =
          ap (λ p. text_eq p root || has_suffix p signature) same ∙ s in
        absurd (ground (arith, kept, k))
    listed false q g k = ground (arith, g)

    one :
        (b : Bool)
        → text_eq e root || has_suffix e signature ≡ b
        → lookup r (if b then m else remove_all e m) ≡ lookup r m
    one true k = refl
    one false k = remove_all_keeps r e m (listed (text_eq e r) refl h.0 k)

module _ {C : Type 0} (join_path : List Text → Text) (marshal : C → Option Text)
    (glob : Table Node → List Text) (root : Text) where
  -- The updater's state: the last signature and the disk.
  abbrev pub IsCurrent : Text × Disk → Type 0
  IsCurrent s =
      (s.0 ≡ [])
      ⊎ ((lookup root s.1.nodes ≡ some (link (update_dir_of join_path marshal root s.0)))
          × IsStanding (update_dir_of join_path marshal root s.0) s.1.nodes)

  -- The update writes to other paths than the managed one, its directory ends in the signature, and
  -- nothing that Glob lists holds this directory but itself.
  abbrev pub IsUsual : DynamicConfigsResponseEnvelope C → Type 0
  IsUsual envelope =
      IsApart join_path marshal root root envelope.signature envelope.configs
      × (has_suffix (update_dir_of join_path marshal root envelope.signature) envelope.signature
          ≡ true)
      × ((m : Table Node)
          → All (IsSibling (update_dir_of join_path marshal root envelope.signature)) (glob m))

  unfoldable pub updates : List (DynamicConfigsResponseEnvelope C) → Text × Disk → Text × Disk
  updates [] s = s
  updates (e ∷ es) s = updates es (dyn_config_update join_path marshal glob root e s)

  module _ (siblings : (m : Table Node) → All (IsSibling root) (glob m))
      (link_apart : text_eq (new_link join_path marshal root) root ≡ false) where
    update-IsCurrent :
        (envelope : DynamicConfigsResponseEnvelope C) (s : Text × Disk)
        → IsUsual envelope
        → IsCurrent s
        → IsCurrent (dyn_config_update join_path marshal glob root envelope s)
    unfolding dyn_config_update clean_old_configs
    update-IsCurrent envelope (last, d) (h, named, listed) v =
        by_outcome (not (text_eq envelope.signature last) && envelope.changed)
          (update_configs join_path marshal root envelope.signature envelope.configs d)
          (update_configs_atomic join_path marshal root envelope.signature envelope.configs d h
            link_apart)
          (update_configs_made join_path marshal root envelope.signature envelope.configs d)
          (update_configs_stands (dir_of last) join_path marshal root envelope.signature
            envelope.configs d)
      where
        dir_of : Text → Text
        dir_of signature = update_dir_of join_path marshal root signature

        by_outcome :
            (wanted : Bool) (x : Bool × Disk)
            → lookup root x.1.nodes
              ≡ (if x.0 then some (link (dir_of envelope.signature)) else lookup root d.nodes)
            → (x.0 ≡ true → IsStanding (dir_of envelope.signature) x.1.nodes)
            → (IsStanding (dir_of last) d.nodes → IsStanding (dir_of last) x.1.nodes)
            → IsCurrent (
                if wanted
                then (if x.0
                    then (
                      envelope.signature,
                      clean_old_configs join_path marshal glob root envelope.signature x.1,
                    )
                    else (last, x.1))
                else (last, d))
        by_outcome false x e made kept = v
        by_outcome true (true, d') e made kept =
            let (n, there) = made refl in
            inr (
              clean_entries_keep join_path marshal root envelope.signature root (glob d'.nodes)
                    d'.nodes (siblings d'.nodes)
                    (ap (λ b. b || has_suffix root envelope.signature) (text_eq_refl root))
                  ∙ e,
              (
                n,
                clean_entries_keep join_path marshal root envelope.signature
                      (dir_of envelope.signature) (glob d'.nodes) d'.nodes (listed d'.nodes)
                      (or_right (text_eq (dir_of envelope.signature) root) named)
                    ∙ there,
              ),
            )
        by_outcome true (false, d') e made kept = elim v [
          | inl p ↦ inl p
          | inr p ↦ inr (e ∙ p.0, kept p.1)
        ]

    -- Over every sequence of updates and whatever fails in them: the signature that the updater asks
    -- Cog to compare with is empty, or the managed path links to that signature's directory, and the
    -- link does not dangle: the clean-up of older configurations has left something standing there. The
    -- updates write to other paths than the managed one, their directories end in the signature, and
    -- Glob lists no directory that holds the managed path or, but for itself, an update's directory.
    pub updates-IsCurrent :
        (es : List (DynamicConfigsResponseEnvelope C)) (s : Text × Disk)
        → All IsUsual es
        → IsCurrent s
        → IsCurrent (updates es s)
    unfolding updates
    updates-IsCurrent [] s h v = v
    updates-IsCurrent (e ∷ es) s h v =
        updates-IsCurrent es (dyn_config_update join_path marshal glob root e s) h.1
          (update-IsCurrent e s h.0 v)
