-- ===== src/Config/Loading/Parsed.antt =====
-- What Parse returns.
use go_relay.Base.{
  ℕ, ◌≡◌, refl, sym, ap, ◌∙◌, Bool, true, false, Option, none, some, [], ◌∷◌, Text, text_eq,
  Outcome, ok, err, panic, ◌>>=◌, ◌==◌, Holds, Holds-bind, Bool-cases, inl, inr, if◌then◌else◌,
  arith,
}
use go_relay.Config.Infos.{Config, empty_docker, or_empty, DockerInfo}
use go_relay.Config.Loading.{
  populate, parse, read_config, of_version, finished, with_driver_tag, validated,
  relay_config_version, error_wrong_config_version,
}
use go_relay.Config.Loading.Resolved.{populate_lem}

abbrev pub first_error : Option Text → Option Text → Option Text
first_error none e = e
first_error (some x) e = some x

version_lem : (c : Config) → Holds (λ c. c.version ≡ relay_config_version) (of_version c)
version_lem c = by_test (c.version == relay_config_version) refl
  where
    by_test :
        (b : Bool)
        → (c.version == relay_config_version) ≡ b
        → Holds
            (λ c. c.version ≡ relay_config_version)
            (if b then ok c else err error_wrong_config_version)
    by_test true e = ground (arith, e)
    by_test false e = tt

tagged_lem :
    (tag : Text) (d : DockerInfo)
    → text_eq tag [] ≡ false
    → text_eq (with_driver_tag tag d).command_driver_version [] ≡ false
tagged_lem tag d h = elim (Bool-cases (text_eq d.command_driver_version [])) [
  | inl e ↦ rw e h
  | inr e ↦ rw e e
]

-- The configuration and the error that Parse returns.
pub record IsFinished (validate : Config → Option Text) (validate_docker : DockerInfo → Option Text)
    (r : Config × Option Text) : Type 0 where
  pub version : r.0.version ≡ relay_config_version
  pub docker :
      (d : DockerInfo) × (r.0.docker ≡ some d)
      × (text_eq d.command_driver_version [] ≡ false)
      × (r.1 ≡ first_error (validate r.0) (validate_docker d))

module _ (decode : Text → Outcome Config) (getenv : Text → Text) (parse_int : Text → Option ℕ)
    (validate : Config → Option Text) (validate_docker : DockerInfo → Option Text) where
  read_config_lem :
      (raw : Text) → Holds (λ c. c.version ≡ relay_config_version) (read_config decode raw)
  read_config_lem [] = refl
  read_config_lem (b ∷ raw) = by_answer (decode (b ∷ raw))
    where
      by_answer :
          (m : Outcome Config)
          → Holds (λ c. c.version ≡ relay_config_version) (m >>= λ c. of_version c)
      by_answer (ok c) = version_lem c
      by_answer (err e) = tt
      by_answer panic = tt

  finished_lem :
      (tag : Text) (c : Config)
      → text_eq tag [] ≡ false
      → c.version ≡ relay_config_version
      → IsFinished validate validate_docker
          (validated validate_docker (validate (finished tag c)) (finished tag c))
  finished_lem tag c t v = by_error (validate (finished tag c)) refl
    where
      d : DockerInfo
      d = with_driver_tag tag (or_empty empty_docker c.docker)

      by_error :
          (e : Option Text)
          → validate (finished tag c) ≡ e
          → IsFinished validate validate_docker (validated validate_docker e (finished tag c))
      by_error none e = record {
        version = v;
        docker = (d, refl, tagged_lem tag _ t, sym (ap (λ o. first_error o (validate_docker d)) e));
      }
      by_error (some x) e = record {
        version = v;
        docker = (d, refl, tagged_lem tag _ t, sym (ap (λ o. first_error o (validate_docker d)) e));
      }

  -- In a build with a driver tag, whatever the file holds: a configuration that Parse returns has the
  -- supported version and a Docker part that names a version of the command driver, and the error
  -- beside it is the first that validating the configuration and then this part gives, if one does.
  pub parse-IsFinished :
      (tag raw : Text)
      → text_eq tag [] ≡ false
      → Holds
          (IsFinished validate validate_docker)
          (parse decode getenv parse_int validate validate_docker tag raw)
  unfolding parse
  parse-IsFinished tag raw t =
      Holds-bind (λ c. c.version ≡ relay_config_version) (IsFinished validate validate_docker)
        (read_config decode raw) _ (read_config_lem raw)
        (λ c v.
          Holds-bind _ (IsFinished validate validate_docker) (populate getenv parse_int c) _
            (populate_lem getenv parse_int c) (λ p q. finished_lem tag p t (q.own.unchanged ∙ v)))
