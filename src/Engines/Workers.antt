-- ===== src/Engines/Workers.antt =====
-- The engines under their workers: which environments are in a worker's hands, which wait in the
-- Docker engine's cache, and which were shut down, whatever the order of the calls.
use go_relay.Base.{
  ℕ, zero, suc, ◌+◌, ◌≡◌, Bool, true, false, Option, none, some, List, [], ◌∷◌, ◌++◌, Text, Outcome,
  ok, err, panic, ltb, ◌==◌, if◌then◌else◌,
}
use go_relay.Config.Bundle.{Bundle}
use go_relay.Engines.EnvCache.{CacheEntry, Cache}
use go_relay.Engines.{
  new_environment, release_environment, clean, native_new_environment, native_release,
}

-- `held` pairs an environment of the Docker engine that a worker runs in with the key it was asked
-- for, `native` has those of the native engine, and `next` is the driver's state: it makes the
-- environments 0, 1, 2 and so on.
pub record World : Type 0 where
  pub cache : Cache
  pub held : List (Text × ℕ)
  pub native : List ℕ
  pub shut : List ℕ
  pub next : ℕ

-- A worker asks for an environment, which the driver may fail to make; a worker gives back the i-th
-- environment in hand; the Docker engine cleans up; a worker asks the native engine for a bundle's
-- environment, and gives its i-th one back.
pub data Event : Type 0 where
  acquires : ℕ → Text → Bool → Event
  releases : ℕ → ℕ → Event
  cleans : ℕ → Bool → Event
  native_acquires : Bundle → Bool → Event
  native_releases : ℕ → Event

abbrev pub make : Bool → ℕ → Outcome ℕ × ℕ
make true n = (ok n, suc n)
make false n = (err [], n)

abbrev pub hold : Text → Outcome ℕ → List (Text × ℕ) → List (Text × ℕ)
hold key (ok env) held = (key, env) ∷ held
hold key (err e) held = held
hold key panic held = held

abbrev pub take_at {ℓ} : {A : Type ℓ} → List A → ℕ → Option (A × List A)
take_at [] i = none
take_at (x ∷ xs) zero = some (x, xs)
take_at (x ∷ xs) (suc i) = elim (take_at xs i) [ none ↦ none | some (y, ys) ↦ some (y, x ∷ ys) ]

abbrev pub give_back : Option ((Text × ℕ) × List (Text × ℕ)) → ℕ → World → World
give_back none now w = w
give_back (some ((key, env), held)) now w =
    let (gone, cache) = release_environment now key env w.cache in
    record w { cache = cache; held = held; shut = gone ++ w.shut }

abbrev pub hold_native : Outcome ℕ → List ℕ → List ℕ
hold_native (ok env) held = env ∷ held
hold_native (err e) held = held
hold_native panic held = held

abbrev pub give_back_native : Option (ℕ × List ℕ) → World → World
give_back_native none w = w
give_back_native (some (env, native)) w = record w {
  native = native;
  shut = native_release env ++ w.shut;
}

unfoldable pub on_event : Event → World → World
on_event (acquires now key works) w =
    let (made, (cache, next)) = new_environment (make works) now key w.cache w.next in
    record w { cache = cache; next = next; held = hold key made w.held }
on_event (releases now i) w = give_back (take_at w.held i) now w
on_event (cleans now connected) w =
    let (count, (gone, cache)) = clean connected (λ env. true) none (λ name. true) now w.cache in
    record w { cache = cache; shut = gone ++ w.shut }
on_event (native_acquires bundle works) w =
    let (made, next) = native_new_environment (λ name. make works) bundle w.next in
    record w { next = next; native = hold_native made w.native }
on_event (native_releases i) w = give_back_native (take_at w.native i) w

unfoldable pub on_events : List Event → World → World
on_events [] w = w
on_events (e ∷ es) w = on_events es (on_event e w)

-- How often an environment occurs.
abbrev pub one : Bool → ℕ
one true = 1
one false = 0

abbrev pub in_list : ℕ → List ℕ → ℕ
in_list id [] = 0
in_list id (x ∷ xs) = one (x == id) + in_list id xs

abbrev pub in_hand : ℕ → List (Text × ℕ) → ℕ
in_hand id [] = 0
in_hand id ((k, x) ∷ xs) = one (x == id) + in_hand id xs

abbrev pub waits : ℕ → CacheEntry → ℕ
waits id e = if e.in_use then 0 else one (e.env == id)

abbrev pub in_cache : ℕ → Cache → ℕ
in_cache id [] = 0
in_cache id ((k, e) ∷ ec) = waits id e + in_cache id ec

-- Every environment that was made is in exactly one place, and no other one is in any.
abbrev pub IsAccounted : World → Type 0
IsAccounted w =
    (id : ℕ)
    → in_hand id w.held + in_list id w.native + in_cache id w.cache + in_list id w.shut
      ≡ one (ltb id w.next)
