-- ===== src/Config/Bundle/Parsed.antt =====
-- What a parsed bundle configuration promises: every command, option and template that it holds
-- carries the key under which it is stored as its name.
use go_relay.Base.{
  ◌≡◌, refl, Option, none, some, [], ◌∷◌, Text, Table, Outcome, ok, Holds, Holds-bind,
  Holds-bind_eq, Holds-ok, ap, ◌∙◌,
}
use go_relay.Config.Bundle.{
  Bundle, BundleCommand, BundleCommandOption, BundleTemplate, DockerImage, name_options,
  name_commands, name_templates, validate_bundle_config, parse_bundle_config,
}

-- The stored options are all there, under their own names.
abbrev pub OptionsNamed : Table (Option BundleCommandOption) → Type 0
OptionsNamed [] = Unit
OptionsNamed ((k, none) ∷ m) = ⊥
OptionsNamed ((k, some o) ∷ m) = (o.name ≡ k) × OptionsNamed m

abbrev pub CommandsNamed : Table (Option BundleCommand) → Type 0
CommandsNamed [] = Unit
CommandsNamed ((k, none) ∷ m) = ⊥
CommandsNamed ((k, some c) ∷ m) = (c.name ≡ k) × OptionsNamed c.options × CommandsNamed m

abbrev pub TemplatesNamed : Table (Option BundleTemplate) → Type 0
TemplatesNamed [] = Unit
TemplatesNamed ((k, none) ∷ m) = ⊥
TemplatesNamed ((k, some t) ∷ m) = (t.name ≡ k) × TemplatesNamed m

name_options-OptionsNamed :
    (m : Table (Option BundleCommandOption)) → Holds OptionsNamed (name_options m)
unfolding name_options
name_options-OptionsNamed [] = tt
name_options-OptionsNamed ((k, none) ∷ m) = tt
name_options-OptionsNamed ((k, some o) ∷ m) =
    Holds-bind OptionsNamed OptionsNamed (name_options m) _ (name_options-OptionsNamed m)
      λ rest named. (refl, named)

name_commands-CommandsNamed :
    (m : Table (Option BundleCommand)) → Holds CommandsNamed (name_commands m)
unfolding name_commands
name_commands-CommandsNamed [] = tt
name_commands-CommandsNamed ((k, none) ∷ m) = tt
name_commands-CommandsNamed ((k, some c) ∷ m) =
    Holds-bind OptionsNamed CommandsNamed (name_options c.options) _
      (name_options-OptionsNamed c.options)
      λ options inner.
        Holds-bind CommandsNamed CommandsNamed (name_commands m) _ (name_commands-CommandsNamed m)
          λ rest named. (refl, inner, named)

name_templates-TemplatesNamed :
    (m : Table (Option BundleTemplate)) → Holds TemplatesNamed (name_templates m)
unfolding name_templates
name_templates-TemplatesNamed [] = tt
name_templates-TemplatesNamed ((k, none) ∷ m) = tt
name_templates-TemplatesNamed ((k, some t) ∷ m) =
    Holds-bind TemplatesNamed TemplatesNamed (name_templates m) _ (name_templates-TemplatesNamed m)
      λ rest named. (refl, named)

-- The tables without the names inside them.
abbrev unnamed_option : Option BundleCommandOption → Option BundleCommandOption
unnamed_option none = none
unnamed_option (some o) = some (record o { name = [] })

abbrev unnamed_template : Option BundleTemplate → Option BundleTemplate
unnamed_template none = none
unnamed_template (some t) = some (record t { name = [] })

abbrev unnamed {ℓ} : {A : Type ℓ} → (A → A) → Table A → Table A
unnamed f [] = []
unnamed f ((k, a) ∷ m) = (k, f a) ∷ unnamed f m

abbrev unnamed_command : Option BundleCommand → Option BundleCommand
unnamed_command none = none
unnamed_command (some c) = some (record c { name = []; options = unnamed unnamed_option c.options })

abbrev pub unnamed_options : Table (Option BundleCommandOption) → Table (Option BundleCommandOption)
unnamed_options = unnamed unnamed_option

abbrev pub unnamed_commands : Table (Option BundleCommand) → Table (Option BundleCommand)
unnamed_commands = unnamed unnamed_command

abbrev pub unnamed_templates : Table (Option BundleTemplate) → Table (Option BundleTemplate)
unnamed_templates = unnamed unnamed_template

unnamed_options-name_options :
    (m : Table (Option BundleCommandOption))
    → Holds (λ r. unnamed_options r ≡ unnamed_options m) (name_options m)
unfolding name_options
unnamed_options-name_options [] = refl
unnamed_options-name_options ((k, none) ∷ m) = tt
unnamed_options-name_options ((k, some o) ∷ m) =
    Holds-bind (λ r. unnamed_options r ≡ unnamed_options m) _ (name_options m) _
      (unnamed_options-name_options m) λ rest same. ap (◌∷◌ (k, some (record o { name = [] }))) same

unnamed_commands-name_commands :
    (m : Table (Option BundleCommand))
    → Holds (λ r. unnamed_commands r ≡ unnamed_commands m) (name_commands m)
unfolding name_commands
unnamed_commands-name_commands [] = refl
unnamed_commands-name_commands ((k, none) ∷ m) = tt
unnamed_commands-name_commands ((k, some c) ∷ m) =
    Holds-bind (λ r. unnamed_options r ≡ unnamed_options c.options) _ (name_options c.options) _
      (unnamed_options-name_options c.options)
      λ options inner.
        Holds-bind (λ r. unnamed_commands r ≡ unnamed_commands m) _ (name_commands m) _
          (unnamed_commands-name_commands m)
          λ rest same.
            ap (◌∷◌ (k, some (record c { name = []; options = unnamed_options options }))) same
            ∙ ap (λ os. (k, some (record c { name = []; options = os })) ∷ unnamed_commands m) inner

unnamed_templates-name_templates :
    (m : Table (Option BundleTemplate))
    → Holds (λ r. unnamed_templates r ≡ unnamed_templates m) (name_templates m)
unfolding name_templates
unnamed_templates-name_templates [] = refl
unnamed_templates-name_templates ((k, none) ∷ m) = tt
unnamed_templates-name_templates ((k, some t) ∷ m) =
    Holds-bind (λ r. unnamed_templates r ≡ unnamed_templates m) _ (name_templates m) _
      (unnamed_templates-name_templates m)
      λ rest same. ap (◌∷◌ (k, some (record t { name = [] }))) same

module _ (unmarshal : Text → Outcome Bundle) (valid_bundle : Bundle → Outcome (Unit {0}))
    (valid_docker : DockerImage → Outcome (Unit {0})) where
  -- What the parser returns, told against the decoder's bundle `raw`.
  pub record IsParsed (input : Text) (b : Bundle) : Type 0 where
    pub raw : Bundle
    pub decoded : unmarshal input ≡ ok raw
    pub valid : validate_bundle_config valid_bundle valid_docker raw ≡ ok tt
    pub rest_kept : b ≡ record raw { commands = b.commands; templates = b.templates }
    pub commands_kept : unnamed_commands b.commands ≡ unnamed_commands raw.commands
    pub templates_kept : unnamed_templates b.templates ≡ unnamed_templates raw.templates
    pub commands_named : CommandsNamed b.commands
    pub templates_named : TemplatesNamed b.templates

  parse_bundle_config-Holds :
      (input : Text)
      → Holds (IsParsed input) (parse_bundle_config unmarshal valid_bundle valid_docker input)
  unfolding parse_bundle_config
  parse_bundle_config-Holds input =
      Holds-bind_eq (IsParsed input) (unmarshal input) _ λ raw decoded.
        Holds-bind_eq (IsParsed input) (validate_bundle_config valid_bundle valid_docker raw) _
          λ u valid. Holds-bind_eq (IsParsed input) (name_commands raw.commands) _ λ commands named.
            Holds-bind_eq (IsParsed input) (name_templates raw.templates) _ λ templates titled.
              record {
                raw = raw;
                decoded = decoded;
                valid = valid;
                rest_kept = refl;
                commands_kept = Holds-ok _ _ (unnamed_commands-name_commands raw.commands) named;
                templates_kept =
                    Holds-ok _ _ (unnamed_templates-name_templates raw.templates) titled;
                commands_named = Holds-ok _ _ (name_commands-CommandsNamed raw.commands) named;
                templates_named = Holds-ok _ _ (name_templates-TemplatesNamed raw.templates) titled;
              }

  -- What `ParseBundleConfig` returns comes from the decoder's bundle, which passed validation: all
  -- of it is as decoded but for the names of commands, options and templates, and each of these
  -- carries the key under which it is stored.
  pub parse_bundle_config-IsParsed :
      (input : Text) (b : Bundle)
      → parse_bundle_config unmarshal valid_bundle valid_docker input ≡ ok b
      → IsParsed input b
  parse_bundle_config-IsParsed input b h = Holds-ok _ _ (parse_bundle_config-Holds input) h
