-- ===== src/Messages/EnvBuilder/Visible.antt =====
-- What the command sees of the request: a variable has the value that was put last.
use go_relay.Base.{
  ◌≡◌, refl, ap, ◌∙◌, Bool, true, false, Option, none, some, [], ◌∷◌, ◌++◌, Text, lit, text_eq,
  has_prefix, lookup, Outcome, ok, err, panic, ◌>>=◌, Holds, arith, if◌then◌else◌, ltb, length,
}
use go_relay.Config.Bundle.{BundleCommand}
use go_relay.Config.Settings.{is_reserved}
use go_relay.Messages.Execution.{ExecutionRequest}
use go_relay.Messages.EnvBuilder.{
  Env, option_env, argument_env, request_env, own_env, compile_environment,
}
use go_relay.Messages.EnvBuilder.Layers.{IsOpen}

abbrev or_else : Option Text → Option Text → Option Text
or_else none o = o
or_else (some v) o = some v

-- The value that a variable has after these puts.
abbrev pub effective : Text → Env → Option Text
effective k [] = none
effective k ((j, v) ∷ env) = or_else (effective k env) (if text_eq j k then some v else none)

effective_over :
    (k : Text) (xs ys : Env) → effective k ys ≡ none → effective k (xs ++ ys) ≡ effective k xs
effective_over k [] ys h = h
effective_over k ((j, v) ∷ xs) ys h =
    ap (λ o. or_else o (if text_eq j k then some v else none)) (effective_over k xs ys h)

effective_last :
    (k v : Text) (xs ys : Env) → effective k ys ≡ some v → effective k (xs ++ ys) ≡ some v
effective_last k v [] ys h = h
effective_last k v ((j, w) ∷ xs) ys h =
    ap (λ o. or_else o (if text_eq j k then some w else none)) (effective_last k v xs ys h)

effective_absent : (k : Text) (layer : Env) → lookup k layer ≡ none → effective k layer ≡ none
unfolding lookup
effective_absent k [] h = refl
effective_absent k ((j, v) ∷ layer) h = by_key (text_eq j k) h (effective_absent k layer)
  where
    by_key :
        (b : Bool)
        → (if b then some v else lookup k layer) ≡ none
        → (lookup k layer ≡ none → effective k layer ≡ none)
        → or_else (effective k layer) (if b then some v else none) ≡ none
    by_key true g rest = absurd (ground (arith, g))
    by_key false g rest = ap (λ o. or_else o none) (rest g)

-- The variables that tell the command about its request.
abbrev pub own_variables : ExecutionRequest → Env
own_variables er =
    (lit "COG_BUNDLE", er.bundle_name)
    ∷ (lit "COG_COMMAND", er.command_name)
    ∷ (lit "COG_ROOM", er.room.name)
    ∷ (lit "COG_CHAT_HANDLE", er.requestor.handle)
    ∷ (lit "COG_USERNAME", er.user.username)
    ∷ (lit "COG_EMAIL", er.user.email)
    ∷ (lit "COG_PIPELINE_ID", er.pipeline_id)
    ∷ (lit "COG_SERVICE_TOKEN", er.service_token)
    ∷ (lit "COG_SERVICES_ROOT", er.services_root)
    ∷ (lit "COG_INVOCATION_ID", er.invocation_id)
    ∷ []

-- Each of the variables has its value in the environment.
abbrev pub AllVisible : Env → Env → Type 0
AllVisible env [] = Unit
AllVisible env ((k, v) ∷ vars) = (effective k env ≡ some v) × AllVisible env vars

abbrev AllReserved : Env → Type 0
AllReserved [] = Unit
AllReserved ((k, v) ∷ vars) = (is_reserved k ≡ true) × AllReserved vars

own_variables-AllReserved : (er : ExecutionRequest) → AllReserved (own_variables er)
unfolding is_reserved has_prefix
own_variables-AllReserved er =
    (refl, (refl, (refl, (refl, (refl, (refl, (refl, (refl, (refl, (refl, tt))))))))))

request_env-AllVisible : (er : ExecutionRequest) → AllVisible (request_env er) (own_variables er)
unfolding request_env text_eq
request_env-AllVisible er = by_step (text_eq er.invocation_step [])
  where
    by_step :
        (b : Bool)
        → AllVisible
            (own_variables er
              ++ (if b then [] else (lit "COG_INVOCATION_STEP", er.invocation_step) ∷ []))
            (own_variables er)
    by_step true =
        (refl, (refl, (refl, (refl, (refl, (refl, (refl, (refl, (refl, (refl, tt))))))))))
    by_step false =
        (refl, (refl, (refl, (refl, (refl, (refl, (refl, (refl, (refl, (refl, tt))))))))))

-- Layers without reserved variables leave the reserved ones as they are.
through :
    (own vars_of dynamic extra vars : Env)
    → IsOpen vars_of
    → IsOpen dynamic
    → IsOpen extra
    → AllReserved vars
    → AllVisible own vars
    → AllVisible (own ++ vars_of ++ dynamic ++ extra) vars
through own vars_of dynamic extra [] hv hd he r h = tt
through own vars_of dynamic extra ((k, v) ∷ vars) hv hd he (r, rs) (h, hs) = (
  effective_over k (own ++ vars_of ++ dynamic) extra (effective_absent k extra (he k r))
      ∙ effective_over k (own ++ vars_of) dynamic (effective_absent k dynamic (hd k r))
      ∙ effective_over k own vars_of (effective_absent k vars_of (hv k r))
      ∙ h,
  through own vars_of dynamic extra vars hv hd he rs hs,
)

behind : (xs ys vars : Env) → AllVisible ys vars → AllVisible (xs ++ ys) vars
behind xs ys [] h = tt
behind xs ys ((k, v) ∷ vars) (h, hs) = (effective_last k v xs ys h, behind xs ys vars hs)

nothing-IsOpen : IsOpen []
unfolding lookup
nothing-IsOpen k r = refl

-- Where the command's variables, the dynamic configuration and the relay's extra variables set none
-- with the prefixes COG_ and RELAY_: in every environment that is compiled, the command sees the
-- request's bundle, command, room, chat handle, user, email, pipeline, token, services root and
-- invocation under the names for them, whatever the arguments and the options are.
pub compile_environment-AllVisible :
    (er : ExecutionRequest) (command : BundleCommand) (extra dynamic : Env) (use_dynamic : Bool)
    → IsOpen command.env_vars
    → IsOpen dynamic
    → IsOpen extra
    → Holds
        (λ (r : Env × Bool). AllVisible r.0 (own_variables er))
        (compile_environment er command (some extra) dynamic use_dynamic)
unfolding compile_environment
compile_environment-AllVisible er command extra dynamic use_dynamic hv hd he =
    by_options (option_env er.options) use_dynamic
  where
    seen :
        (options layer : Env)
        → IsOpen layer
        → AllVisible (own_env er options ++ command.env_vars ++ layer ++ extra) (own_variables er)
    seen options layer hl =
        through (own_env er options) command.env_vars layer extra (own_variables er) hv hl he
          (own_variables-AllReserved er)
          (behind (argument_env er.args ++ options) (request_env er) (own_variables er)
            (request_env-AllVisible er))

    by_options :
        (m : Outcome Env) (used : Bool)
        → Holds
            (λ (r : Env × Bool). AllVisible r.0 (own_variables er))
            (m >>= λ options.
              let layer = if used then dynamic else [] in
              let found = if used then ltb 0 (length dynamic) else false in
              ok (own_env er options ++ command.env_vars ++ layer ++ extra, found))
    by_options (ok options) true = seen options dynamic hd
    by_options (ok options) false = seen options [] nothing-IsOpen
    by_options (err e) used = tt
    by_options panic used = tt
