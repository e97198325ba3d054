-- ===== src/Engines/Docker/Found.antt =====
-- What an action ensures, and what inspecting and removing images does.
use go_relay.Base.{◌≡◌, refl, Option, none, some, Text, Outcome, ok, err, panic}
use go_relay.Engines.Docker.{
  Docker, DockerEngine, State, Act, next, caught_from, ask, request_from, client_of, return,
  ensure_connected, inspect, id_for_name, log_removal, full_name, short_image_id,
}

-- Whatever an action returns satisfies `P`, with the state that it leaves.
abbrev pub Ensures : {C D A : Type 0} → (A → State C D → Type 0) → Outcome A × State C D → Type 0
Ensures P (ok a, s) = P a s
Ensures P (err e, s) = Unit
Ensures P (panic, s) = Unit

module _ {C D : Type 0} where
  pub Ensures-next :
      {A B : Type 0} (P : A → State C D → Type 0) (Q : B → State C D → Type 0)
      (r : Outcome A × State C D) (f : A → Act C D B)
      → Ensures P r
      → ((a : A) (s : State C D) → P a s → Ensures Q (f a s))
      → Ensures Q (next r f)
  Ensures-next P Q (ok a, s) f h k = k a s h
  Ensures-next P Q (err e, s) f h k = tt
  Ensures-next P Q (panic, s) f h k = tt

  pub Ensures-any :
      {A B : Type 0} (Q : B → State C D → Type 0) (r : Outcome A × State C D) (f : A → Act C D B)
      → ((a : A) (s : State C D) → Ensures Q (f a s))
      → Ensures Q (next r f)
  Ensures-any Q (ok a, s) f k = k a s
  Ensures-any Q (err e, s) f k = tt
  Ensures-any Q (panic, s) f k = tt

  pub Ensures-mono :
      {A : Type 0} (P Q : A → State C D → Type 0) (r : Outcome A × State C D)
      → ((a : A) (s : State C D) → P a s → Q a s)
      → Ensures P r
      → Ensures Q r
  Ensures-mono P Q (ok a, s) f h = f a s h
  Ensures-mono P Q (err e, s) f h = tt
  Ensures-mono P Q (panic, s) f h = tt

module _ {C D : Type 0} (docker : Docker C D) where
  -- The client finds the image under this name, with this ID.
  abbrev pub IsFound : Text → Text → State C D → Type 0
  IsFound name id (e, d) = (c : C) × (e.client ≡ some c) × (docker.inspect c name d ≡ ok id)

  pub inspect_lem : (name : Text) (s : State C D) → Ensures (IsFound name) (inspect docker name s)
  inspect_lem name (e, d) = by_client e.client refl
    where
      by_answer :
          (c : C)
          → e.client ≡ some c
          → (m : Outcome Text) → docker.inspect c name d ≡ m
          → Ensures {A = Text} (IsFound name) (m, (e, d))
      by_answer c h (ok id) q = (c, h, q)
      by_answer c h (err x) q = tt
      by_answer c h panic q = tt

      by_client :
          (o : Option C)
          → e.client ≡ o
          → Ensures (IsFound name) (next (client_of o, (e, d)) (λ c. ask (docker.inspect c name)))
      by_client none h = tt
      by_client (some c) h = by_answer c h (docker.inspect c name d) refl

  pub id_for_name_lem :
      (name meta : Text) (s : State C D)
      → Ensures (IsFound (full_name name meta)) (id_for_name docker name meta s)
  unfolding id_for_name
  id_for_name_lem name meta s =
      Ensures-any (IsFound (full_name name meta)) (ensure_connected docker s) _
        (λ u s'. inspect_lem (full_name name meta) s')

  -- Shortening IDs for the log leaves the state as it is.
  pub logged_once :
      (P : State C D → Type 0) (m : Outcome Text) (s : State C D)
      → P s
      → Ensures (λ u. P) (next (m, s) (λ old. return tt))
  logged_once P (ok t) s h = h
  logged_once P (err e) s h = tt
  logged_once P panic s h = tt

  logged_twice :
      (P : State C D → Type 0) (m n : Outcome Text) (s : State C D)
      → P s
      → Ensures (λ u. P) (next (m, s) (λ old s'. next (n, s') (λ new. return tt)))
  logged_twice P (ok t) n s h = logged_once P n s h
  logged_twice P (err e) n s h = tt
  logged_twice P panic n s h = tt

  pub removed_lem :
      (P : State C D → Type 0) (old_id new_id : Text) (e : DockerEngine C)
      (r : Outcome (Unit {0}) × D)
      → P (e, r.1)
      → Ensures
          (λ u. P)
          (next
            (caught_from (request_from e r))
            (λ removed. log_removal docker removed old_id new_id))
  removed_lem P old_id new_id e (ok u, d) h =
      logged_twice P (short_image_id old_id) (short_image_id new_id) (e, d) h
  removed_lem P old_id new_id e (err x, d) h = logged_once P (short_image_id old_id) (e, d) h
  removed_lem P old_id new_id e (panic, d) h = tt
