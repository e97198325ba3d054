-- ===== src/Engines/Docker/Shared.antt =====
-- What making one image available does to the other images of the daemon.
use go_relay.Base.{
  ◌≡◌, inl, inr, refl, sym, ◌∙◌, subst, Bool, true, false, not, ◌&&◌, Option, none, some, [], Text,
  text_eq, Outcome, ok, err, panic, arith, if◌then◌else◌,
}
use go_relay.Engines.Docker.{
  Docker, AuthConfig, State, next, caught, caught_from, request, request_from, client_of, return,
  of_outcome, ensure_connected, id_for_name, id_of, needs_update, attempt_auth, log_in,
  make_auth_config, pull_image, remove_old_image, log_removal, retrieve, is_available, full_name,
  driver, short_image_id,
}
use go_relay.Engines.Docker.Daemon.{DockerLaws}
use go_relay.Engines.Docker.Sparing.{
  Gives, Gives-next, Gives-state, Gives-same, IsThere, IsApart, IsSpared, IsHarmless, connected_lem,
  needs_update_keeps, id_for_name_at, before_lem,
}

module _ {C D : Type 0} (docker : Docker C D) (IsTag IsId : Text → Type 0)
    (laws : DockerLaws docker IsTag IsId) (c : C) (name meta other id : Text)
    (tag : IsTag (full_name name meta)) (other_tag : IsTag other)
    (others : text_eq (full_name name meta) other ≡ false) where
  -- The other image is there under its name, with its ID.
  abbrev pub Kept : State C D → Type 0
  Kept = IsThere docker c name meta other id

  -- It is not the image that the first name stands for.
  abbrev pub Apart : State C D → Type 0
  Apart = IsApart docker c name meta other id

  abbrev Both : State C D → Type 0
  Both = IsSpared docker c name meta other id

  abbrev Harmless : Text → Type 0
  Harmless = IsHarmless docker c name meta other id

  attempt_auth_keeps : (s : State C D) → Both s → Gives (λ u. Both) Kept (attempt_auth docker s)
  unfolding attempt_auth
  attempt_auth_keeps (e, d) (k, a) = by_auth (text_eq e.auth []) (make_auth_config e.config)
    where
      after_login :
          (auth_config : AuthConfig) (r : Outcome (Unit {0}) × D)
          → Both (e, r.1)
          → Gives
              (λ u. Both)
              Kept
              (next
                (request_from e r)
                (λ u s'. (ok tt, (record s'.0 { auth = docker.encode_auth auth_config }, s'.1))))
      after_login auth_config (ok u, d') h = h
      after_login auth_config (err x, d') h = h.0
      after_login auth_config (panic, d') h = h.0

      by_client :
          (auth_config : AuthConfig) (o : Option C)
          → o ≡ some c
          → Gives
              (λ u. Both)
              Kept
              (next
                (client_of o, (e, d))
                (λ c' s'. next (request (docker.login c' auth_config) s') (λ u s''.
                  (ok tt, (record s''.0 { auth = docker.encode_auth auth_config }, s''.1)))))
      by_client auth_config o h = rw h (
          after_login auth_config (docker.login c auth_config d) (
            (k.0, laws.login_keeps c auth_config other d ∙ k.1),
            (λ old h. a old (sym (laws.login_keeps c auth_config (full_name name meta) d) ∙ h)),
          ))

      by_auth :
          (b : Bool) (o : Option AuthConfig)
          → Gives (λ u. Both) Kept ((if b then log_in docker o else return tt) (e, d))
      by_auth false o = (k, a)
      by_auth true none = (k, a)
      by_auth true (some auth_config) = by_client auth_config e.client k.0

  pull_image_keeps :
      (s : State C D) → Kept s → Gives (λ u. Kept) Kept (pull_image docker (full_name name meta) s)
  unfolding pull_image
  pull_image_keeps (e, d) k =
      subst
        (λ r.
          Gives (λ u. Kept) Kept
            (next r (λ u s'.
              next (client_of s'.0.client, s')
                (λ c'. request (docker.pull c' (full_name name meta) s'.0.auth)))))
        (sym (connected_lem docker c name meta other id (e, d) k)) (by_client e.client k.0)
    where
      after_pull :
          (r : Outcome (Unit {0}) × D) → Kept (e, r.1) → Gives (λ u. Kept) Kept (request_from e r)
      after_pull (m, d') h = Gives-same Kept Kept m (e, d') h h

      by_client :
          (o : Option C)
          → o ≡ some c
          → Gives
              (λ u. Kept)
              Kept
              (next
                (client_of o, (e, d))
                (λ c'. request (docker.pull c' (full_name name meta) e.auth)))
      by_client o h = rw h (
          after_pull (docker.pull c (full_name name meta) e.auth d) (
            k.0,
            laws.pull_keeps c (full_name name meta) e.auth other d tag other_tag others ∙ k.1,
          ))

  remove_old_image_keeps :
      (old_id new_id : Text) (s : State C D)
      → Harmless old_id
      → Kept s
      → Gives (λ u. Kept) Kept (remove_old_image docker old_id new_id s)
  unfolding remove_old_image
  remove_old_image_keeps old_id new_id (e, d) harmless k =
      by_tests (text_eq old_id []) (text_eq old_id new_id) refl
    where
      logged :
          (m : Outcome Text) (s : State C D)
          → Kept s
          → Gives (λ u. Kept) Kept (next (m, s) (λ old s'. (ok tt, s')))
      logged (ok t) s h = h
      logged (err x) s h = h
      logged panic s h = h

      logged_both :
          (m n : Outcome Text) (s : State C D)
          → Kept s
          → Gives (λ u. Kept) Kept (next (m, s) (λ old s'. next (n, s') (λ new s''. (ok tt, s''))))
      logged_both (ok t) n s h = logged n s h
      logged_both (err x) n s h = h
      logged_both panic n s h = h

      after_remove :
          (r : Outcome (Unit {0}) × D)
          → Kept (e, r.1)
          → Gives
              (λ u. Kept)
              Kept
              (next
                (caught_from (request_from e r))
                (λ removed. log_removal docker removed old_id new_id))
      after_remove (ok u, d') h =
          logged_both (short_image_id old_id) (short_image_id new_id) (e, d') h
      after_remove (err x, d') h = logged (short_image_id old_id) (e, d') h
      after_remove (panic, d') h = h

      by_client :
          (o : Option C)
          → o ≡ some c
          → IsId old_id
          → text_eq old_id id ≡ false
          → Gives
              (λ u. Kept)
              Kept
              (next
                (client_of o, (e, d))
                (λ c' s'.
                  next
                    (caught_from (request (docker.remove_image c' old_id) s'))
                    (λ removed. log_removal docker removed old_id new_id)))
      by_client o h old apart = rw h (
          after_remove (docker.remove_image c old_id d)
            (k.0, laws.remove_keeps c old_id other id d old other_tag k.1 apart))

      other_than :
          (b : Bool)
          → text_eq old_id [] ≡ b
          → b ≡ false
          → Harmless old_id
          → IsId old_id × (text_eq old_id id ≡ false)
      other_than b q f (inl e) = absurd (ground (arith, q, f, e))
      other_than b q f (inr (apart, (d', h))) =
          (laws.inspect_gives c (full_name name meta) old_id d' h, apart)

      by_tests :
          (a b : Bool)
          → text_eq old_id [] ≡ a
          → Gives
              (λ u. Kept)
              Kept
              ((if not a && not b
                  then (λ s.
                      next (next (ok s.0, s) (λ e'. of_outcome (client_of e'.client))) (λ c' s'.
                        next
                          (caught_from (request (docker.remove_image c' old_id) s'))
                          (λ removed. log_removal docker removed old_id new_id)))
                  else (if not a
                      then (λ s. next (short_image_id old_id, s) (λ old. return tt))
                      else return tt))
                (e, d))
      by_tests true b q = k
      by_tests false true q = logged (short_image_id old_id) (e, d) k
      by_tests false false q =
          let (old, apart) = other_than false q refl harmless in by_client e.client k.0 old apart

  retrieve_keeps : (s : State C D) → Both s → Gives (λ b. Kept) Kept (retrieve docker name meta s)
  retrieve_keeps s h =
      Gives-next _ _ Kept (caught (id_for_name docker name meta) s) _
        (before_lem docker c name meta other id s h)
        (λ before s1 (k1, harmless).
          Gives-next _ _ Kept (pull_image docker (full_name name meta) s1) _
            (pull_image_keeps s1 k1)
            (λ u s2 k2.
              Gives-next (λ new. Kept) _ Kept (id_for_name docker name meta s2) _
                (subst (λ r. Gives (λ new. Kept) Kept r)
                  (sym (id_for_name_at docker c name meta other id s2 k2))
                  (Gives-same Kept Kept (docker.inspect c (full_name name meta) s2.1) s2 k2 k2))
                (λ new s3 k3.
                  Gives-next _ _ Kept (remove_old_image docker (id_of docker before) new s3) _
                    (remove_old_image_keeps (id_of docker before) new s3 harmless k3)
                    (λ v s4 k4. k4))))

  -- Where a login changes no image, a pull none under another tag and the removal of an ID none with
  -- another ID: whatever comes of making an image available, errors included, an image that the client
  -- finds under another tag stays there with its ID, if this is not the ID of the image that is
  -- replaced.
  pub is_available_keeps :
      (s : State C D) → Kept s → Apart s → Kept (is_available docker name meta s).1
  unfolding is_available
  is_available_keeps s k a = Gives-state Kept (is_available docker name meta s) (
      Gives-next (λ u. Both) (λ b. Kept) Kept (ensure_connected docker s) _
        (subst (λ r. Gives (λ u. Both) Kept r) (sym (connected_lem docker c name meta other id s k))
          (k, a))
        (λ u s1 h1.
          Gives-next (λ needs. Both) (λ b. Kept) Kept (needs_update docker name meta s1) _
            (needs_update_keeps docker c name meta other id s1 h1) by_need))
    where
      by_need :
          (needs : Bool) (s : State C D)
          → Both s
          → Gives
              (λ b. Kept)
              Kept
              ((if not needs then return true else (λ s'.
                  next
                    ((if not (text_eq name driver) then attempt_auth docker else return tt) s')
                    (λ u. retrieve docker name meta)))
                s)
      by_need false s h = h.0
      by_need true s h = by_driver (text_eq name driver)
        where
          by_driver :
              (b : Bool)
              → Gives
                  (λ b. Kept)
                  Kept
                  (next
                    ((if not b then attempt_auth docker else return tt) s)
                    (λ u. retrieve docker name meta))
          by_driver true = retrieve_keeps s h
          by_driver false =
              Gives-next (λ u. Both) (λ b. Kept) Kept (attempt_auth docker s) _
                (attempt_auth_keeps s h) (λ u. retrieve_keeps)
