-- ===== src/Relay/Images.antt =====
-- relay/relay.go: the images that refreshBundles asks the Docker engine for, with the daemon's state.
use go_relay.Base.{
  ◌≡◌, Bool, true, false, List, [], ◌∷◌, Text, text_eq, Outcome, ok, err, panic, some,
}
use go_relay.Engines.Docker.{
  Docker, State, Act, ◌>>=◌, return, caught, caught_from, next, full_name, is_available,
}
use go_relay.Engines.Docker.Daemon.{DockerLaws}
use go_relay.Engines.Docker.Available.{is_available_lem}
use go_relay.Engines.Docker.Found.{Ensures, IsFound}
use go_relay.Engines.Docker.Shared.{is_available_keeps}

-- An error is dropped, and the Boolean beside it is false.
abbrev pub flag_of : Outcome Bool → Bool
flag_of (ok available) = available
flag_of (err e) = false
flag_of panic = false

module _ {C D : Type 0} (docker : Docker C D) where
  -- The flags of the bundles with these images and tags, asked for in this order.
  unfoldable pub refresh_images : List (Text × Text) → Act C D (List Bool)
  refresh_images [] = return []
  refresh_images ((image, tag) ∷ images) = do
    available ← caught (is_available docker image tag)
    flags ← refresh_images images
    return (flag_of available ∷ flags)

  -- The images that come later have other names, and none of them replaces an image with this ID.
  abbrev pub Undisturbed : C → Text → Text → List (Text × Text) → State C D → Type 0
  Undisturbed c name id [] s = Unit
  Undisturbed c name id ((image, tag) ∷ images) s =
      (text_eq (full_name image tag) name ≡ false)
      × ((old : Text)
          → docker.inspect c (full_name image tag) s.1 ≡ ok old
          → text_eq old id ≡ false)
      × Undisturbed c name id images (is_available docker image tag s).1

  -- This holds of each image once it is there.
  abbrev pub AllUndisturbed : List (Text × Text) → State C D → Type 0
  AllUndisturbed [] s = Unit
  AllUndisturbed ((image, tag) ∷ images) s =
      let s' = (is_available docker image tag s).1 in
      ((c : C) (id : Text)
        → s'.0.client ≡ some c
        → docker.inspect c (full_name image tag) s'.1 ≡ ok id
        → Undisturbed c (full_name image tag) id images s')
      × AllUndisturbed images s'

  -- Each image is asked for by a tag.
  abbrev pub AllTags : (Text → Type 0) → List (Text × Text) → Type 0
  AllTags IsTag [] = Unit
  AllTags IsTag ((image, tag) ∷ images) = IsTag (full_name image tag) × AllTags IsTag images

  -- Each image that is flagged is found by the client.
  abbrev pub AllFound : List (Text × Text) → List Bool → State C D → Type 0
  AllFound ((image, tag) ∷ images) (true ∷ flags) s =
      ((id : Text) × IsFound docker (full_name image tag) id s) × AllFound images flags s
  AllFound ((image, tag) ∷ images) (false ∷ flags) s = AllFound images flags s
  AllFound ((image, tag) ∷ images) [] s = Unit
  AllFound [] flags s = Unit

  -- The client finds the image, with this ID.
  abbrev IsAt : C → Text → Text → State C D → Type 0
  IsAt c name id (e, d) = (e.client ≡ some c) × (docker.inspect c name d ≡ ok id)

  module _ (IsTag IsId : Text → Type 0) (laws : DockerLaws docker IsTag IsId) where
    refresh_images_keeps :
        (c : C) (name id : Text) (images : List (Text × Text)) (s : State C D)
        → IsTag name
        → AllTags IsTag images
        → IsAt c name id s
        → Undisturbed c name id images s
        → IsAt c name id (refresh_images images s).1
    unfolding refresh_images
    refresh_images_keeps c name id [] s t ts h u = h
    refresh_images_keeps c name id ((image, tag) ∷ images) s t (ti, ts) h (other, apart, u) =
        by_answer (is_available docker image tag s) kept
          (refresh_images_keeps c name id images _ t ts kept u)
      where
        kept : IsAt c name id (is_available docker image tag s).1
        kept = is_available_keeps docker IsTag IsId laws c image tag name id ti t other s h apart

        by_flags :
            (flag : Bool) (r : Outcome (List Bool) × State C D)
            → IsAt c name id r.1
            → IsAt c name id (next r (λ flags. return (flag ∷ flags))).1
        by_flags flag (ok flags, s2) h2 = h2
        by_flags flag (err e, s2) h2 = h2
        by_flags flag (panic, s2) h2 = h2

        by_answer :
            (r : Outcome Bool × State C D)
            → IsAt c name id r.1
            → IsAt c name id (refresh_images images r.1).1
            → IsAt c name id
                (next (caught_from r) (λ available s1.
                  next (refresh_images images s1) (λ flags. return (flag_of available ∷ flags)))).1
        by_answer (ok b, s1) h1 h2 = by_flags b (refresh_images images s1) h2
        by_answer (err e, s1) h1 h2 = by_flags false (refresh_images images s1) h2
        by_answer (panic, s1) h1 h2 = h1

    -- Where a login changes no image, a pull none under another tag and the removal of an ID none with
    -- another ID: when the images of the bundles have been asked for, each by its tag, the client finds
    -- each one that is flagged available under its tag, if no image that is asked for later has its tag
    -- or replaces an image with its ID.
    pub refresh_images-AllFound :
        (images : List (Text × Text)) (s : State C D)
        → AllTags IsTag images
        → AllUndisturbed images s
        → Ensures (AllFound images) (refresh_images images s)
    unfolding refresh_images
    refresh_images-AllFound [] s ts u = tt
    refresh_images-AllFound ((image, tag) ∷ images) s (ti, ts) (mine, u) =
        by_answer (is_available docker image tag s)
          (is_available_lem docker IsTag IsId laws image tag s ti) mine
          (refresh_images-AllFound images _ ts u)
      where
        name : Text
        name = full_name image tag

        unflagged :
            (r : Outcome (List Bool) × State C D)
            → Ensures (AllFound images) r
            → Ensures (AllFound ((image, tag) ∷ images)) (next r (λ flags. return (false ∷ flags)))
        unflagged (ok flags, s2) h = h
        unflagged (err e, s2) h = tt
        unflagged (panic, s2) h = tt

        flagged :
            (c : C) (id : Text) (r : Outcome (List Bool) × State C D)
            → IsAt c name id r.1
            → Ensures (AllFound images) r
            → Ensures (AllFound ((image, tag) ∷ images)) (next r (λ flags. return (true ∷ flags)))
        flagged c id (ok flags, s2) k h = ((id, (c, k.0, k.1)), h)
        flagged c id (err e, s2) k h = tt
        flagged c id (panic, s2) k h = tt

        by_answer :
            (r : Outcome Bool × State C D)
            → Ensures
                (λ available s1. (available ≡ true) × ((id : Text) × IsFound docker name id s1))
                r
            → ((c : C) (id : Text)
                → r.1.0.client ≡ some c
                → docker.inspect c name r.1.1 ≡ ok id
                → Undisturbed c name id images r.1)
            → Ensures (AllFound images) (refresh_images images r.1)
            → Ensures (AllFound ((image, tag) ∷ images)) (
                next (caught_from r) (λ available s1.
                  next (refresh_images images s1) (λ flags. return (flag_of available ∷ flags))))
        by_answer (ok true, s1) (t, (id, (c, k, q))) m h =
            flagged c id (refresh_images images s1)
              (refresh_images_keeps c name id images s1 ti ts (k, q) (m c id k q)) h
        by_answer (ok false, s1) f m h = unflagged (refresh_images images s1) h
        by_answer (err e, s1) f m h = unflagged (refresh_images images s1) h
        by_answer (panic, s1) f m h = tt
