-- ===== src/Engines/Leases.antt =====
-- Where every environment of either engine is.
use go_relay.Base.{
  ℕ, zero, suc, ◌+◌, ◌≤◌, ◌≡◌, refl, inl, inr, Bool, true, false, Option-cases, Option, none, some,
  List, [], ◌∷◌, ◌++◌, Text, lookup, insert, ltb, ◌==◌, arith, if◌then◌else◌,
}
use go_relay.Config.Bundle.{Bundle}
use go_relay.Engines.EnvCache.{CacheEntry, Cache, get, put, get_old, get_from, put_from}
use go_relay.Engines.{
  answer, new_environment, release_environment, clean, native_new_environment, native_release,
}
use go_relay.Engines.Workers.{
  World, Event, make, hold, take_at, give_back, give_back_native, on_event, on_events, one, in_list,
  in_hand, waits, in_cache, IsAccounted, acquires, releases, cleans, native_acquires,
  native_releases,
}

module _ (id : ℕ) where
  in_list-append : (xs ys : List ℕ) → in_list id (xs ++ ys) ≡ in_list id xs + in_list id ys
  in_list-append [] ys = omega arith
  in_list-append (x ∷ xs) ys = omega (arith, in_list-append xs ys)

  insert_new :
      (k : Text) (e : CacheEntry) (ec : Cache)
      → lookup k ec ≡ none
      → in_cache id (insert k e ec) ≡ waits id e + in_cache id ec
  unfolding lookup insert
  insert_new k e [] h = refl
  insert_new k e ((j, c) ∷ ec) h = ground (arith, insert_new k e ec, h)

  insert_over :
      (k : Text) (e c : CacheEntry) (ec : Cache)
      → lookup k ec ≡ some c
      → waits id c + in_cache id (insert k e ec) ≡ waits id e + in_cache id ec
  unfolding lookup insert
  insert_over k e c [] h = ground arith
  insert_over k e c ((j, d) ∷ ec) h = ground (arith, insert_over k e c ec, h)

  waits_le :
      (k : Text) (ec : Cache) {e : CacheEntry} → lookup k ec ≡ some e → waits id e ≤ in_cache id ec
  unfolding lookup
  waits_le k [] h = ground arith
  waits_le k ((j, d) ∷ ec) {e} h = ground (arith, waits_le k ec {e = e}, h)

  get_old_lem :
      (now : ℕ) (ec : Cache)
      → in_list id (get_old now ec).0 + in_cache id (get_old now ec).1 ≡ in_cache id ec
  unfolding get_old
  get_old_lem now [] = refl
  get_old_lem now ((k, e) ∷ ec) = ground (arith, get_old_lem now ec)

  abbrev in_option : Option ℕ → ℕ
  in_option none = 0
  in_option (some x) = one (x == id)

  get_from_count :
      (o : Option CacheEntry) (now : ℕ) (key : Text) (ec : Cache)
      → lookup key ec ≡ o
      → in_option (get_from o now key ec).0 + in_cache id (get_from o now key ec).1 ≡ in_cache id ec
  get_from_count none now key ec h = omega arith
  get_from_count (some e) now key ec h =
      ground (arith, insert_over key (record e { in_use = true; last_used = now }) e ec h)

  put_from_count :
      (o : Option CacheEntry) (now : ℕ) (key : Text) (env : ℕ) (ec : Cache)
      → lookup key ec ≡ o
      → (env ≡ id → in_cache id ec ≡ 0)
      → in_list id (if (put_from o now key env ec).0 then [] else env ∷ [])
          + in_cache id (put_from o now key env ec).1
        ≡ one (env == id) + in_cache id ec
  put_from_count none now key env ec h free =
      ground (arith, insert_new key (record { env = env; in_use = false; last_used = now }) ec h)
  put_from_count (some e) now key env ec h free =
      ground (arith, free, waits_le key ec h, insert_over key (record e { in_use = false }) e ec h)

  take_at_lem :
      (held : List (Text × ℕ)) (i : ℕ) {key : Text} {env : ℕ} {rest : List (Text × ℕ)}
      → take_at held i ≡ some ((key, env), rest)
      → in_hand id held ≡ one (env == id) + in_hand id rest
  take_at_lem [] i h = ground arith
  take_at_lem ((k, x) ∷ xs) zero h = ground (arith, h)
  take_at_lem ((k, x) ∷ xs) (suc i) h = elim (Option-cases (take_at xs i)) [
    | inl e ↦ ground (arith, e, h)
    | inr (((j, y), ys), e) ↦ ground (arith, e, h, take_at_lem xs i e)
  ]

module _ (w : World) (h : IsAccounted w) where
  answer_count :
      (id : ℕ) (key : Text) (works : Bool) (cached : Option ℕ) (cache : Cache)
      → in_option id cached + in_cache id cache ≡ in_cache id w.cache
      → in_hand id (hold key (answer (make works) cached cache w.next).0 w.held)
          + in_list id w.native
          + in_cache id (answer (make works) cached cache w.next).1.0
          + in_list id w.shut
        ≡ one (ltb id (answer (make works) cached cache w.next).1.1)
  answer_count id key works (some env) cache e = omega (arith, h id, e)
  answer_count id key true none cache e = ground (arith, h id, e)
  answer_count id key false none cache e = omega (arith, h id, e)

  acquires_lem :
      (now : ℕ) (key : Text) (works : Bool) → IsAccounted (on_event (acquires now key works) w)
  unfolding on_event new_environment get
  acquires_lem now key works id =
      answer_count id key works (get now key w.cache).0 (get now key w.cache).1
        (get_from_count id (lookup key w.cache) now key w.cache refl)

  give_back_count :
      (now i : ℕ) (o : Option ((Text × ℕ) × List (Text × ℕ)))
      → take_at w.held i ≡ o
      → IsAccounted (give_back o now w)
  unfolding release_environment put
  give_back_count now i none e id = h id
  give_back_count now i (some ((key, env), rest)) e id =
      let ec = w.cache in
      let taken = take_at_lem id w.held i e in
      let free : (env ≡ id → in_cache id ec ≡ 0) = λ p. ground (arith, p, taken, h id) in
      let placed = put_from_count id (lookup key ec) now key env ec refl free in
      omega (
        arith,
        h id,
        taken,
        placed,
        in_list-append id (if (put now key env ec).0 then [] else env ∷ []) w.shut,
      )

  releases_lem : (now i : ℕ) → IsAccounted (on_event (releases now i) w)
  unfolding on_event
  releases_lem now i = give_back_count now i (take_at w.held i) refl

  cleans_lem : (now : ℕ) (connected : Bool) → IsAccounted (on_event (cleans now connected) w)
  unfolding on_event clean
  cleans_lem now true id =
      omega
        (arith, h id, get_old_lem id now w.cache, in_list-append id (get_old now w.cache).0 w.shut)
  cleans_lem now false id = h id

  native_acquires_lem :
      (bundle : Bundle) (works : Bool) → IsAccounted (on_event (native_acquires bundle works) w)
  unfolding on_event native_new_environment
  native_acquires_lem bundle true id = ground (arith, h id)
  native_acquires_lem bundle false id = h id

  take_native_lem :
      (id : ℕ) (held : List ℕ) (i : ℕ) {env : ℕ} {rest : List ℕ}
      → take_at held i ≡ some (env, rest)
      → in_list id held ≡ one (env == id) + in_list id rest
  take_native_lem id [] i e = ground arith
  take_native_lem id (x ∷ xs) zero e = ground (arith, e)
  take_native_lem id (x ∷ xs) (suc i) e = elim (Option-cases (take_at xs i)) [
    | inl t ↦ ground (arith, t, e)
    | inr ((y, ys), t) ↦ ground (arith, t, e, take_native_lem id xs i t)
  ]

  give_back_native_lem :
      (i : ℕ) (o : Option (ℕ × List ℕ))
      → take_at w.native i ≡ o
      → IsAccounted (give_back_native o w)
  unfolding native_release
  give_back_native_lem i none e id = h id
  give_back_native_lem i (some (env, rest)) e id =
      omega (arith, h id, take_native_lem id w.native i e)

  event_lem : (e : Event) → IsAccounted (on_event e w)
  event_lem (acquires now key works) = acquires_lem now key works
  event_lem (releases now i) = releases_lem now i
  event_lem (cleans now connected) = cleans_lem now connected
  event_lem (native_acquires bundle works) = native_acquires_lem bundle works
  event_lem (native_releases i) =
      unfold on_event in give_back_native_lem i (take_at w.native i) refl

-- From a world in which each environment that the driver made is in exactly one place (with one
-- worker, for the Docker engine idle in its cache, or shut down, and there once), every sequence of
-- requests to either engine, returns and clean-ups leads to such a world.
pub on_events-IsAccounted :
    (es : List Event) (w : World) → IsAccounted w → IsAccounted (on_events es w)
unfolding on_events
on_events-IsAccounted [] w h = h
on_events-IsAccounted (e ∷ es) w h = on_events-IsAccounted es (on_event e w) (event_lem w h e)
