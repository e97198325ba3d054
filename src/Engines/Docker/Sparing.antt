-- ===== src/Engines/Docker/Sparing.antt =====
-- Actions on one image beside another one, but for the login, the pull and the removal.
use go_relay.Base.{
  ◌≡◌, ◌⊎◌, inl, inr, refl, sym, ap, ◌∙◌, subst, Bool, true, false, not, ◌&&◌, some, [], Text, lit,
  text_eq, Outcome, ok, err, panic, if◌then◌else◌,
}
use go_relay.Engines.Docker.{
  Docker, State, Act, next, caught, caught_from, ask, client_of, return, ensure_connected, inspect,
  id_for_name, id_of, needs_update, is_stale, full_name, driver, short_image_id,
}

-- A result satisfies `Q` with the state it leaves; an error or a panic leaves a state with `P`.
abbrev pub Gives :
    {C D A : Type 0}
    → (A → State C D → Type 0)
    → (State C D → Type 0)
    → Outcome A × State C D
    → Type 0
Gives Q P (ok a, s) = Q a s
Gives Q P (err e, s) = P s
Gives Q P (panic, s) = P s

module _ {C D : Type 0} where
  pub Gives-next :
      {A B : Type 0} (Q : A → State C D → Type 0) (Q' : B → State C D → Type 0)
      (P : State C D → Type 0) (r : Outcome A × State C D) (f : A → Act C D B)
      → Gives Q P r
      → ((a : A) (s : State C D) → Q a s → Gives Q' P (f a s))
      → Gives Q' P (next r f)
  Gives-next Q Q' P (ok a, s) f h k = k a s h
  Gives-next Q Q' P (err e, s) f h k = h
  Gives-next Q Q' P (panic, s) f h k = h

  pub Gives-state :
      {A : Type 0} (P : State C D → Type 0) (r : Outcome A × State C D) → Gives (λ a. P) P r → P r.1
  Gives-state P (ok a, s) h = h
  Gives-state P (err e, s) h = h
  Gives-state P (panic, s) h = h

  pub Gives-same :
      {A : Type 0} (Q P : State C D → Type 0) (m : Outcome A) (s : State C D)
      → Q s
      → P s
      → Gives (λ a. Q) P (m, s)
  Gives-same Q P (ok a) s q p = q
  Gives-same Q P (err e) s q p = p
  Gives-same Q P panic s q p = p

module _ {C D : Type 0} (docker : Docker C D) (c : C) (name meta other id : Text) where
  -- The other image is there, with its ID.
  abbrev pub IsThere : State C D → Type 0
  IsThere (e, d) = (e.client ≡ some c) × (docker.inspect c other d ≡ ok id)

  -- It is not the image that the name stands for.
  abbrev pub IsApart : State C D → Type 0
  IsApart (e, d) =
      (old : Text) → docker.inspect c (full_name name meta) d ≡ ok old → text_eq old id ≡ false

  abbrev pub IsSpared : State C D → Type 0
  IsSpared s = IsThere s × IsApart s

  -- Removing this ID leaves the other image. It is the ID of one.
  abbrev pub IsHarmless : Text → Type 0
  IsHarmless old_id =
      (text_eq old_id [] ≡ true)
      ⊎ ((text_eq old_id id ≡ false)
          × ((d : D) × (docker.inspect c (full_name name meta) d ≡ ok old_id)))

  pub connected_lem : (s : State C D) → IsThere s → ensure_connected docker s ≡ (ok tt, s)
  unfolding ensure_connected
  connected_lem (e, d) (h, q) = rw h refl

  pub inspect_at :
      (n : Text) (s : State C D) → IsThere s → inspect docker n s ≡ (docker.inspect c n s.1, s)
  inspect_at n (e, d) (h, q) =
      ap (λ o. next (client_of o, (e, d)) (λ c'. ask (docker.inspect c' n))) h

  pub needs_update_keeps :
      (s : State C D)
      → IsSpared s
      → Gives (λ needs. IsSpared) IsThere (needs_update docker name meta s)
  unfolding needs_update
  needs_update_keeps (e, d) (k, a) = by_tag (text_eq meta (lit "latest"))
    where
      stale :
          (image : Text)
          → Gives (λ needs. IsSpared) IsThere (is_stale docker e.dev_mode name image (e, d))
      stale image = by_test (text_eq image []) (short_image_id image)
        where
          by_test :
              (b : Bool) (m : Outcome Text)
              → Gives
                  (λ needs. IsSpared)
                  IsThere
                  ((if b then return true else (λ s'.
                      next (m, s') (λ short. return (not (text_eq name driver) && e.dev_mode))))
                    (e, d))
          by_test true m = (k, a)
          by_test false (ok t) = (k, a)
          by_test false (err x) = k
          by_test false panic = k

      by_found :
          (m : Outcome Text)
          → Gives
              (λ needs. IsSpared)
              IsThere
              (next
                (caught_from (m, (e, d)))
                (λ image. is_stale docker e.dev_mode name (id_of docker image)))
      by_found (ok i) = stale i
      by_found (err x) = stale []
      by_found panic = k

      by_tag :
          (b : Bool)
          → Gives
              (λ needs. IsSpared)
              IsThere
              ((if b then return true else (λ s'.
                  next
                    (caught (inspect docker (full_name name meta)) s')
                    (λ image. is_stale docker s'.0.dev_mode name (id_of docker image))))
                (e, d))
      by_tag true = (k, a)
      by_tag false =
          subst
            (λ r.
              Gives (λ needs. IsSpared) IsThere
                (next (caught_from r)
                  (λ image. is_stale docker e.dev_mode name (id_of docker image))))
            (sym (inspect_at (full_name name meta) (e, d) k))
            (by_found (docker.inspect c (full_name name meta) d))

  pub id_for_name_at :
      (s : State C D)
      → IsThere s
      → id_for_name docker name meta s ≡ (docker.inspect c (full_name name meta) s.1, s)
  unfolding id_for_name
  id_for_name_at s k =
      ap (λ r. next r (λ u. inspect docker (full_name name meta))) (connected_lem s k)
      ∙ inspect_at (full_name name meta) s k

  pub before_lem :
      (s : State C D)
      → IsSpared s
      → Gives
          (λ before s'. IsThere s' × IsHarmless (id_of docker before))
          IsThere
          (caught (id_for_name docker name meta) s)
  unfolding text_eq
  before_lem (e, d) (k, a) =
      subst
        (λ r.
          Gives (λ before s'. IsThere s' × IsHarmless (id_of docker before)) IsThere
            (caught_from r))
        (sym (id_for_name_at (e, d) k)) (by_answer (docker.inspect c (full_name name meta) d) refl)
    where
      by_answer :
          (m : Outcome Text)
          → docker.inspect c (full_name name meta) d ≡ m
          → Gives
              (λ before s'. IsThere s' × IsHarmless (id_of docker before))
              IsThere
              (caught_from (m, (e, d)))
      by_answer (ok old) h = (k, inr (a old h, (d, h)))
      by_answer (err x) h = (k, inl refl)
      by_answer panic h = k
