-- ===== src/Engines/EnvCache.antt =====
-- relay/engines/env_cache.go: one idle or leased environment for each key. Times are nanoseconds,
-- and the lock makes each operation one step.
use go_relay.Base.{
  ℕ, ◌-◌, ◌^◌, ◌≡◌, refl, ap, ◌∙◌, inl, inr, Bool, true, false, not, ◌&&◌, Bool-cases, Option, none,
  some, List, [], ◌∷◌, Text, text_eq_refl, text_eq_iff, Table, IsTable, lookup, insert,
  lookup-insert, ltb, ◌==◌, arith, if◌then◌else◌,
}

pub record CacheEntry : Type 0 where
  pub env : ℕ
  pub in_use : Bool
  pub last_used : ℕ

abbrev pub Cache : Type 0
Cache = Table CacheEntry

-- Ten seconds.
abbrev pub old_age : ℕ
old_age = 10 ^ 10

-- The second part of each result is the cache afterwards. The first argument is the key's entry.
abbrev pub get_from : Option CacheEntry → ℕ → Text → Cache → Option ℕ × Cache
get_from none now key ec = (none, ec)
get_from (some e) now key ec =
    if not e.in_use
    then (some e.env, insert key (record e { in_use = true; last_used = now }) ec)
    else (none, ec)

unfoldable pub get : ℕ → Text → Cache → Option ℕ × Cache
get now key ec = get_from (lookup key ec) now key ec

abbrev pub put_from : Option CacheEntry → ℕ → Text → ℕ → Cache → Bool × Cache
put_from none now key env ec =
    (true, insert key (record { env = env; in_use = false; last_used = now }) ec)
put_from (some e) now key env ec =
    if e.env == env then (true, insert key (record e { in_use = false }) ec) else (false, ec)

unfoldable pub put : ℕ → Text → ℕ → Cache → Bool × Cache
put now key env ec = put_from (lookup key ec) now key env ec

abbrev pub is_old : ℕ → CacheEntry → Bool
is_old now e = not e.in_use && ltb old_age (now - e.last_used)

unfoldable pub get_old : ℕ → Cache → List ℕ × Cache
get_old now [] = ([], [])
get_old now ((k, e) ∷ ec) =
    let (old, rest) = get_old now ec in
    if is_old now e then (e.env ∷ old, rest) else (old, (k, e) ∷ rest)

lookup-insert_same : (k : Text) (e : CacheEntry) (ec : Cache) → lookup k (insert k e ec) ≡ some e
lookup-insert_same k e ec = ground (arith, lookup-insert k k e ec, text_eq_refl k)

-- What a get of the key gives out.
abbrev pub idle : Option CacheEntry → Option ℕ
idle none = none
idle (some e) = if e.in_use then none else some e.env

-- What the key holds after a get of it.
abbrev pub leased : ℕ → Option CacheEntry → Option CacheEntry
leased now none = none
leased now (some e) =
    if e.in_use then some e else some (record e { in_use = true; last_used = now })

get_from_lem :
    (o : Option CacheEntry) (now : ℕ) (key : Text) (ec : Cache)
    → lookup key ec ≡ o
    → ((get_from o now key ec).0 ≡ idle o) × (lookup key (get_from o now key ec).1 ≡ leased now o)
get_from_lem none now key ec h = (refl, h)
get_from_lem (some e) now key ec h = elim (Bool-cases e.in_use) [
  | inl b ↦ ground (arith, b, h)
  | inr b ↦ rw b (refl, lookup-insert_same key _ ec)
]

get_lem :
    (now : ℕ) (key : Text) (ec : Cache)
    → ((get now key ec).0 ≡ idle (lookup key ec))
      × (lookup key (get now key ec).1 ≡ leased now (lookup key ec))
unfolding get
get_lem now key ec = get_from_lem (lookup key ec) now key ec refl

put_from_lem :
    (o : Option CacheEntry) (now : ℕ) (key : Text) (env : ℕ) (ec : Cache)
    → (put_from o now key env ec).0 ≡ true
    → idle (lookup key (put_from o now key env ec).1) ≡ some env
put_from_lem none now key env ec h = ap idle (lookup-insert_same key _ ec)
put_from_lem (some e) now key env ec h = elim (Bool-cases (e.env == env)) [
  | inl b ↦ rw b (ap idle (lookup-insert_same key _ ec) ∙ ap some (ground (arith, b)))
  | inr b ↦ ground (arith, b, h)
]

put_lem :
    (now : ℕ) (key : Text) (env : ℕ) (ec : Cache)
    → (put now key env ec).0 ≡ true
    → idle (lookup key (put now key env ec).1) ≡ some env
unfolding put
put_lem now key env ec h = put_from_lem (lookup key ec) now key env ec h

idle-leased : (now : ℕ) (o : Option CacheEntry) → idle (leased now o) ≡ none
idle-leased now none = refl
idle-leased now (some e) = ground arith

-- What was put under a key, where put reports success, is what the next get of the key returns, and
-- a second get right after it gives nothing out.
pub get-put :
    (now later : ℕ) (key : Text) (env : ℕ) (ec : Cache)
    → (put now key env ec).0 ≡ true
    → ((get later key (put now key env ec).1).0 ≡ some env)
      × ((get later key (get later key (put now key env ec).1).1).0 ≡ none)
get-put now later key env ec h =
    let ec' = (put now key env ec).1 in
    let (value, state) = get_lem later key ec' in
    let (value', _) = get_lem later key (get later key ec').1 in
    (value ∙ put_lem now key env ec h, value' ∙ ap idle state ∙ idle-leased later (lookup key ec'))

-- In a cache that has each key once, the sweep takes out the idle environments that were last given out more than ten seconds ago, and
-- no other key's entry changes.
pub lookup-get_old :
    (now : ℕ) (key : Text) (ec : Cache)
    → IsTable ec
    → lookup key (get_old now ec).1
      ≡ elim (lookup key ec) [ none ↦ none | some e ↦ if is_old now e then none else some e ]
unfolding lookup get_old
lookup-get_old now key [] h = refl
lookup-get_old now key ((k, e) ∷ ec) h =
    ground (arith, text_eq_iff k key, lookup-get_old now key ec h.1, h.0)
