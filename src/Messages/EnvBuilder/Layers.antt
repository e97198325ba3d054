-- ===== src/Messages/EnvBuilder/Layers.antt =====
-- Which variables a layer may set, and which requests panic.
use go_relay.Base.{
  ◌≡◌, refl, ◌∙◌, Bool, true, false, Option, none, [], ◌∷◌, ◌++◌, Text, lit, text_eq, Table, lookup,
  Outcome, ok, err, panic, ◌>>=◌, if◌then◌else◌,
}
use go_relay.Config.Bundle.{BundleCommand}
use go_relay.Config.Settings.{is_reserved}
use go_relay.Messages.Value.{Value, null}
use go_relay.Messages.Execution.{ExecutionRequest}
use go_relay.Messages.EnvBuilder.{Env, put_option, put_options, option_env, compile_environment}

-- A layer that sets no reserved variable.
abbrev pub IsOpen : Env → Type 0
IsOpen layer = (k : Text) → is_reserved k ≡ true → lookup k layer ≡ none

abbrev pub is_panic {ℓ} : {A : Type ℓ} → Outcome A → Bool
is_panic (ok a) = false
is_panic (err e) = false
is_panic panic = true

abbrev pub has_null : Table Value → Bool
has_null [] = false
has_null ((k, null) ∷ options) = true
has_null ((k, v) ∷ options) = has_null options

is_panic-bind {ℓ κ} :
    {A : Type ℓ} {B : Type κ} (m : Outcome A) (f : A → B)
    → is_panic (m >>= λ a. ok (f a)) ≡ is_panic m
is_panic-bind (ok a) f = refl
is_panic-bind (err e) f = refl
is_panic-bind panic f = refl

put_options_panics :
    (options : Table Value) (names : Text) → is_panic (put_options options names) ≡ has_null options
unfolding put_options put_option
put_options_panics [] names = refl
put_options_panics ((k, null) ∷ options) names = refl
put_options_panics ((k, v) ∷ options) names =
    is_panic-bind (put_options options (if text_eq names [] then k else names ++ lit "," ++ k)) _
    ∙ put_options_panics options (if text_eq names [] then k else names ++ lit "," ++ k)

-- A request panics exactly if one of its options is a null.
pub compile_environment_panics :
    (er : ExecutionRequest) (command : BundleCommand) (extra : Option Env) (dynamic : Env)
    (use_dynamic : Bool)
    → is_panic (compile_environment er command extra dynamic use_dynamic) ≡ has_null er.options
unfolding compile_environment
compile_environment_panics er command extra dynamic use_dynamic =
    is_panic-bind (option_env er.options) _ ∙ by_options er.options
  where
    by_options : (options : Table Value) → is_panic (option_env options) ≡ has_null options
    by_options [] = refl
    by_options ((k, v) ∷ options) =
        is_panic-bind (put_options ((k, v) ∷ options) []) _
        ∙ put_options_panics ((k, v) ∷ options) []
