-- ===== src/Engines/Docker/Tests.antt =====
-- A daemon that is a table of images, on which a tag is pulled anew.
use go_relay.Base.{
  ◌≡◌, refl, ap, true, false, Option, none, some, [], ◌∷◌, Text, lit, text_eq, Table, lookup,
  insert, split, Outcome, ok, err, panic, subst, lookup-insert, arith, if◌then◌else◌,
}
use go_relay.Config.Infos.{Config, DockerInfo, empty_config}
use go_relay.Engines.Docker.{Docker, DockerEngine, is_available, full_name, new_docker_engine}
use go_relay.Engines.Docker.Daemon.{DockerLaws}
use go_relay.Engines.Docker.Environments.{init}
use go_relay.Engines.Docker.Found.{Ensures, IsFound}
use go_relay.Base.{List}
use go_relay.Relay.Images.{refresh_images, AllFound, AllUndisturbed, refresh_images-AllFound}
use go_relay.Engines.Docker.Shared.{Kept, is_available_keeps}
use go_relay.Engines.Docker.Available.{is_available_lem}

abbrev Images : Type 0
Images = Table Text

abbrev found_of : Option Text → Outcome Text
found_of none = err (lit "No such image")
found_of (some id) = ok id

abbrev without : Text → Images → Images
without id [] = []
without id ((k, v) ∷ m) = if text_eq id v then without id m else (k, v) ∷ without id m

abbrev new_id : Text
new_id = lit "sha256:0123456789ab"

abbrev old_id : Text
old_id = lit "sha256:ba9876543210"

abbrev docker : Docker (Unit {0}) Images
docker = record {
  new_env_client = λ d. ok tt;
  new_client = λ path version d. ok tt;
  default_version = lit "1.25";
  api_version = [];
  ping = λ c d. ok (lit "1.25");
  client_version = λ c. lit "1.25";
  update_client_version = λ v c. c;
  version_less_than = λ v w. false;
  inspect = λ c name d. found_of (lookup name d);
  pull = λ c name auth d. (ok tt, insert name new_id d);
  remove_image = λ c id d. (ok tt, without id d);
  login = λ c a d. (ok tt, d);
  remove_container = λ c id d. (ok tt, d);
  create_container = λ c config d. (ok tt, d);
  create_environment = λ options d. (ok 0, d);
  encode_auth = λ a. a.username;
}

found_kept :
    (id : Text) (k name : Text) (d : Images)
    → lookup name d ≡ some id
    → text_eq k id ≡ false
    → lookup name (without k d) ≡ some id
unfolding lookup
found_kept id k name [] h n = h
found_kept id k name ((x, v) ∷ d) h n =
    let rest : (lookup name d ≡ some id → lookup name (without k d) ≡ some id) =
      λ e. found_kept id k name d e n in
    let same : (v ≡ id → text_eq k v ≡ text_eq k id) = λ e. ap (λ w. text_eq k w) e in
    ground (arith, h, n, rest, same)

inspect_kept :
    (c : Unit {0}) (k name id : Text) (d : Images)
    → found_of (lookup name d) ≡ ok id
    → text_eq k id ≡ false
    → found_of (lookup name (without k d)) ≡ ok id
inspect_kept c k name id d h n =
    ap found_of (found_kept id k name d (found_some (lookup name d) h) n)
  where
    found_some : (o : Option Text) → found_of o ≡ ok id → o ≡ some id
    found_some none e = absurd (ground (arith, e))
    found_some (some v) e = ground (arith, e)

abbrev config : DockerInfo
config = record {
  use_env = false;
  socket_path = lit "unix:///s";
  container_memory = 16;
  clean_interval = lit "5m";
  command_driver_version = lit "1";
  registry_host = lit "hub";
  registry_user = lit "me";
  registry_email = lit "me@x";
  registry_password = lit "pw";
}

abbrev engine : DockerEngine (Unit {0})
engine = record {
  client = none;
  config = config;
  dev_mode = false;
  container_memory = 16;
  auth = [];
}

abbrev images : Images
images = (lit "img:latest", old_id) ∷ []

pulled : is_available docker (lit "img") (lit "latest") (engine, images) ≡ (
  ok true,
  (record engine { client = some tt; auth = lit "me" }, (lit "img:latest", new_id) ∷ []),
)
unfolding is_available text_eq lookup insert split
pulled = refl

abbrev AnyText : Text → Type 0
AnyText t = Unit

pull_kept :
    (c : Unit {0}) (pulled auth name : Text) (d : Images)
    → text_eq pulled name ≡ false
    → found_of (lookup name (insert pulled new_id d)) ≡ found_of (lookup name d)
pull_kept c pulled auth name d n = rw (lookup-insert pulled name new_id d, n) refl

laws : DockerLaws docker AnyText AnyText
laws = record {
  inspect_gives = λ c name id d h. tt;
  login_keeps = λ c a n d. refl;
  pull_keeps = λ c pulled auth n d t t' h. pull_kept c pulled auth n d h;
  remove_keeps = λ c old name id d i t h h'. inspect_kept c old name id d h h';
}

is_available_lem_example :
    Ensures
      (λ available s'.
        (available ≡ true)
        × ((id : Text) × IsFound docker (full_name (lit "img") (lit "latest")) id s'))
      (is_available docker (lit "img") (lit "latest") (engine, images))
is_available_lem_example =
    is_available_lem docker AnyText AnyText laws (lit "img") (lit "latest") (engine, images) tt

abbrev connected_engine : DockerEngine (Unit {0})
connected_engine = record engine { client = some tt }

abbrev third_id : Text
third_id = lit "sha256:aaaaaaaaaaaa"

-- Two images under three names.
abbrev shared : Images
shared = (lit "img:latest", old_id) ∷ (lit "img:1", old_id) ∷ (lit "other:1", third_id) ∷ []

-- The removal of the replaced image takes the name img:1 away, which stood for the same image.
lost :
    (is_available docker (lit "img") (lit "latest") (connected_engine, shared)).1.1
    ≡ (lit "img:latest", new_id) ∷ (lit "other:1", third_id) ∷ []
unfolding is_available text_eq lookup insert split
lost = refl

other_name : text_eq (full_name (lit "img") (lit "latest")) (lit "other:1") ≡ false
unfolding text_eq
other_name = refl

found_other : found_of (lookup (lit "other:1") shared) ≡ ok third_id
unfolding lookup text_eq
found_other = refl

apart_other :
    (id : Text)
    → found_of (lookup (full_name (lit "img") (lit "latest")) shared) ≡ ok id
    → text_eq id third_id ≡ false
unfolding lookup text_eq
apart_other id e = subst (λ t. text_eq t third_id ≡ false) (ok_injective e) refl
  where
    ok_injective : {t u : Text} → ok t ≡ ok u → t ≡ u
    ok_injective {t} e = ap (λ m. elim m [ ok x ↦ x | err y ↦ t | panic ↦ t ]) e

is_available_keeps_example :
    Kept docker AnyText AnyText laws tt
      (lit "img")
      (lit "latest")
      (lit "other:1")
      third_id
      tt
      tt
      other_name
      (is_available docker (lit "img") (lit "latest") (connected_engine, shared)).1
is_available_keeps_example =
    is_available_keeps docker AnyText AnyText laws tt (lit "img") (lit "latest") (lit "other:1")
      third_id tt tt other_name (connected_engine, shared) (refl, found_other) apart_other

abbrev relay_config : Config
relay_config = record empty_config { docker = some config }

abbrev created : Outcome (DockerEngine (Unit {0})) → Option (Outcome (Unit {0}) × Images)
created (ok e) = let (result, (e', d)) = init docker (e, images) in some (result, d)
created _ = none

driver_created :
    created (new_docker_engine relay_config)
    ≡ some (ok tt, (lit "img:latest", old_id) ∷ (lit "operable/circuit-driver:1", new_id) ∷ [])
unfolding new_docker_engine init text_eq lookup insert split
driver_created = refl

abbrev wanted : List (Text × Text)
wanted = (lit "img", lit "latest") ∷ (lit "foo", lit "1") ∷ []

both_flagged : (refresh_images docker wanted (connected_engine, images)).0 ≡ ok (true ∷ true ∷ [])
unfolding refresh_images is_available text_eq lookup insert split
both_flagged = refl

not_found {ℓ} : {P : Type ℓ} (old : Text) → err (lit "No such image") ≡ ok old → P
not_found old e = absurd (ground (arith, e))

wanted-AllUndisturbed : AllUndisturbed docker wanted (connected_engine, images)
unfolding is_available text_eq lookup insert split
wanted-AllUndisturbed = (λ c id h q. (refl, (λ old. not_found old), tt), ((λ c id h q. tt), tt))

refresh_images-AllFound_example :
    Ensures (AllFound docker wanted) (refresh_images docker wanted (connected_engine, images))
refresh_images-AllFound_example =
    refresh_images-AllFound docker AnyText AnyText laws wanted (connected_engine, images)
      (tt, (tt, tt)) wanted-AllUndisturbed
