-- ===== src/Engines/Docker/Available.antt =====
-- An image that is found available is there.
use go_relay.Base.{
  ◌≡◌, ◌⊎◌, inl, inr, refl, arith, Bool, true, false, not, ◌&&◌, Option, some, [], Text, lit,
  text_eq, Outcome, ok, err, panic, if◌then◌else◌,
}
use go_relay.Engines.Docker.{
  Docker, State, next, caught, caught_from, request, client_of, return, of_outcome,
  ensure_connected, inspect, id_for_name, id_of, needs_update, is_stale, attempt_auth, pull_image,
  remove_old_image, log_removal, retrieve, is_available, full_name, driver, short_image_id,
}
use go_relay.Engines.Docker.Daemon.{DockerLaws}
use go_relay.Engines.Docker.Found.{
  Ensures, Ensures-next, Ensures-any, IsFound, inspect_lem, id_for_name_lem, logged_once,
  removed_lem,
}

module _ {C D : Type 0} (docker : Docker C D) where
  -- An image that needs no update is there.
  abbrev UnlessStale : Text → Bool → State C D → Type 0
  UnlessStale name true s = Unit
  UnlessStale name false s = (id : Text) × IsFound docker name id s

  abbrev IfOk : (Text → State C D → Type 0) → Outcome Text → State C D → Type 0
  IfOk P (ok id) s = P id s
  IfOk P (err e) s = Unit
  IfOk P panic s = Unit

  Ensures-caught :
      (P : Text → State C D → Type 0) (r : Outcome Text × State C D)
      → Ensures P r
      → Ensures (IfOk P) (caught_from r)
  Ensures-caught P (ok id, s) h = h
  Ensures-caught P (err e, s) h = tt
  Ensures-caught P (panic, s) h = tt

  unless_stale :
      (name id : Text) (needs : Bool) (s : State C D)
      → IsFound docker name id s
      → UnlessStale name needs s
  unless_stale name id true s h = tt
  unless_stale name id false s h = (id, h)

  is_stale_lem :
      (name image : Text) (dev_mode : Bool) (found : Outcome Text) (s : State C D)
      → IfOk (IsFound docker name) found s
      → Ensures (UnlessStale name) (is_stale docker dev_mode image (id_of docker found) s)
  unfolding text_eq
  is_stale_lem name image dev_mode (err e) s h = tt
  is_stale_lem name image dev_mode panic s h = tt
  is_stale_lem name image dev_mode (ok id) s h = by_test (text_eq id []) (short_image_id id)
    where
      by_test :
          (b : Bool) (m : Outcome Text)
          → Ensures (UnlessStale name) (
              (if b then return true else (λ s'.
                  next (m, s') (λ short. return (not (text_eq image driver) && dev_mode))))
                s)
      by_test true m = tt
      by_test false (ok t) = unless_stale name id (not (text_eq image driver) && dev_mode) s h
      by_test false (err e) = tt
      by_test false panic = tt

  needs_update_lem :
      (name meta : Text) (s : State C D)
      → Ensures (UnlessStale (full_name name meta)) (needs_update docker name meta s)
  unfolding needs_update
  needs_update_lem name meta (e, d) = by_tag (text_eq meta (lit "latest"))
    where
      by_tag :
          (b : Bool)
          → Ensures (UnlessStale (full_name name meta)) (
              (if b then return true else (λ s'.
                  next
                    (caught (inspect docker (full_name name meta)) s')
                    (λ image. is_stale docker s'.0.dev_mode name (id_of docker image))))
                (e, d))
      by_tag true = tt
      by_tag false =
          Ensures-next (IfOk (IsFound docker (full_name name meta))) _
            (caught (inspect docker (full_name name meta)) (e, d)) _
            (Ensures-caught (IsFound docker (full_name name meta))
              (inspect docker (full_name name meta) (e, d))
              (inspect_lem docker (full_name name meta) (e, d)))
            (λ image s'. is_stale_lem (full_name name meta) name e.dev_mode image s')

  module _ (IsTag IsId : Text → Type 0) (laws : DockerLaws docker IsTag IsId) where
    -- Nothing, or the ID of an image.
    abbrev IsRemovable : Text → Type 0
    IsRemovable old_id = (text_eq old_id [] ≡ true) ⊎ IsId old_id

    id_of-IsRemovable :
        (name : Text) (before : Outcome Text) (s : State C D)
        → IfOk (IsFound docker name) before s
        → IsRemovable (id_of docker before)
    unfolding text_eq
    id_of-IsRemovable name (ok old) (e, d) (c, h, q) = inr (laws.inspect_gives c name old d q)
    id_of-IsRemovable name (err x) s h = inl refl
    id_of-IsRemovable name panic s h = inl refl

    remove_old_image_lem :
        (name old_id new_id : Text) (s : State C D)
        → IsTag name
        → IsRemovable old_id
        → IsFound docker name new_id s
        → Ensures (λ u. IsFound docker name new_id) (remove_old_image docker old_id new_id s)
    unfolding remove_old_image
    remove_old_image_lem name old_id new_id (e, d) tag removable (c, h, q) =
        by_tests (text_eq old_id []) (text_eq old_id new_id) refl refl
      where
        by_client :
            (o : Option C)
            → o ≡ some c
            → IsId old_id
            → text_eq old_id new_id ≡ false
            → Ensures
                (λ u. IsFound docker name new_id)
                (next
                  (client_of o, (e, d))
                  (λ c' s'.
                    next
                      (caught_from (request (docker.remove_image c' old_id) s'))
                      (λ removed. log_removal docker removed old_id new_id)))
        by_client o k old other = rw k (
            removed_lem docker (IsFound docker name new_id) old_id new_id e
              (docker.remove_image c old_id d)
              (c, h, laws.remove_keeps c old_id name new_id d old tag q other))

        an_id : (a : Bool) → text_eq old_id [] ≡ a → a ≡ false → IsRemovable old_id → IsId old_id
        an_id a z f (inl empty) = absurd (ground (arith, z, f, empty))
        an_id a z f (inr old) = old

        by_tests :
            (a b : Bool)
            → text_eq old_id [] ≡ a
            → text_eq old_id new_id ≡ b
            → Ensures
                (λ u. IsFound docker name new_id)
                ((if not a && not b
                    then (λ s.
                        next (next (ok s.0, s) (λ e'. of_outcome (client_of e'.client))) (λ c' s'.
                          next
                            (caught_from (request (docker.remove_image c' old_id) s'))
                            (λ removed. log_removal docker removed old_id new_id)))
                    else (if not a
                        then (λ s. next (short_image_id old_id, s) (λ old. return tt))
                        else return tt))
                  (e, d))
        by_tests true b z k = (c, h, q)
        by_tests false true z k =
            logged_once docker (IsFound docker name new_id) (short_image_id old_id) (e, d) (c, h, q)
        by_tests false false z k = by_client e.client h (an_id false z refl removable) k

    retrieve_lem :
        (name meta : Text) (s : State C D)
        → IsTag (full_name name meta)
        → Ensures
            (λ available s'.
              (available ≡ true) × ((id : Text) × IsFound docker (full_name name meta) id s'))
            (retrieve docker name meta s)
    retrieve_lem name meta s tag =
        Ensures-next _ _ (caught (id_for_name docker name meta) s) _
          (Ensures-caught (IsFound docker (full_name name meta)) (id_for_name docker name meta s)
            (id_for_name_lem docker name meta s))
          (λ before s1 seen. Ensures-any _ (pull_image docker (full_name name meta) s1) _ (λ u s2.
            Ensures-next _ _ (id_for_name docker name meta s2) _
              (id_for_name_lem docker name meta s2)
              (λ new_id s3 found.
                Ensures-next _ _ (remove_old_image docker (id_of docker before) new_id s3) _
                  (remove_old_image_lem (full_name name meta) (id_of docker before) new_id s3 tag
                    (id_of-IsRemovable (full_name name meta) before s1 seen) found)
                  (λ v s4 kept. (refl, (new_id, kept))))))

    -- Where removing an image by its ID leaves the tags of other images: if IsAvailable reports that
    -- an image is available, without an error, then the client finds it under its tag when it returns,
    -- whether it was there, was pulled, or has replaced an older one. Without an error it reports
    -- nothing else.
    pub is_available_lem :
        (name meta : Text) (s : State C D)
        → IsTag (full_name name meta)
        → Ensures
            (λ available s'.
              (available ≡ true) × ((id : Text) × IsFound docker (full_name name meta) id s'))
            (is_available docker name meta s)
    unfolding is_available
    is_available_lem name meta s tag = Ensures-any _ (ensure_connected docker s) _ (λ u s1.
        Ensures-next _ _ (needs_update docker name meta s1) _ (needs_update_lem name meta s1)
          by_need)
      where
        by_need :
            (needs : Bool) (s : State C D)
            → UnlessStale (full_name name meta) needs s
            → Ensures
                (λ available s'.
                  (available ≡ true) × ((id : Text) × IsFound docker (full_name name meta) id s'))
                ((if not needs then return true else (λ s'.
                    next
                      ((if not (text_eq name driver) then attempt_auth docker else return tt) s')
                      (λ u. retrieve docker name meta)))
                  s)
        by_need false s h = (refl, h)
        by_need true s h =
            Ensures-any _ ((if not (text_eq name driver) then attempt_auth docker else return tt) s)
              _ (λ u s'. retrieve_lem name meta s' tag)
