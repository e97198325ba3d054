-- ===== src/Engines/Tests.antt =====
-- The environments of two pipelines.
use go_relay.Base.{◌≡◌, refl, true, false, none, some, [], ◌∷◌, lit, text_eq, lookup, arith}
use go_relay.Config.Bundle.{Bundle}
use go_relay.Engines.EnvCache.{Cache, get, put, get_old, get-put, lookup-get_old}
use go_relay.Engines.Leases.{on_events-IsAccounted}
use go_relay.Engines.Workers.{
  World, IsAccounted, acquires, releases, cleans, native_acquires, native_releases, on_events,
}

abbrev full : Cache
full =
    (lit "p1/b:1.0.0", record { env = 0; in_use = true; last_used = 0 })
    ∷ (lit "p2/b:1.0.0", record { env = 1; in_use = false; last_used = 5 })
    ∷ []

get-put_example :
    ((get 9 (lit "p1/b:1.0.0") (put 7 (lit "p1/b:1.0.0") 0 full).1).0 ≡ some 0)
    × ((get 9 (lit "p1/b:1.0.0") (get 9 (lit "p1/b:1.0.0") (put 7 (lit "p1/b:1.0.0") 0 full).1).1).0
        ≡ none)
unfolding lookup text_eq
get-put_example = get-put 7 9 (lit "p1/b:1.0.0") 0 full (unfold put in refl)

swept : lookup (lit "p2/b:1.0.0") (get_old 10000000006 full).1 ≡ none
unfolding lookup text_eq
swept = lookup-get_old 10000000006 (lit "p2/b:1.0.0") full (refl, (refl, tt))

abbrev bundle : Bundle
bundle = record {
  bundle_version = 4;
  name = lit "foo";
  version = lit "1.0.0";
  permissions = [];
  docker = none;
  commands = [];
  templates = [];
  available = true;
}

abbrev empty_world : World
empty_world = record { cache = []; held = []; native = []; shut = []; next = 0 }

on_events-IsAccounted_example : IsAccounted (
    on_events
      (acquires 1 (lit "p1") true
        ∷ acquires 2 (lit "p1") true
        ∷ releases 3 0
        ∷ releases 4 0
        ∷ native_acquires bundle true
        ∷ cleans 10000000009 true
        ∷ native_releases 0
        ∷ [])
      empty_world)
on_events-IsAccounted_example =
    on_events-IsAccounted
      (acquires 1 (lit "p1") true
        ∷ acquires 2 (lit "p1") true
        ∷ releases 3 0
        ∷ releases 4 0
        ∷ native_acquires bundle true
        ∷ cleans 10000000009 true
        ∷ native_releases 0
        ∷ [])
      empty_world λ id. ground arith
