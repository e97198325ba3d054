-- ===== src/Config/Settings/Resolved.antt =====
-- Which engines and variables the settings come to.
use go_relay.Base.{
  ◌≡◌, refl, sym, ap, ◌∙◌, inl, inr, Bool, true, false, ◌&&◌, ◌||◌, Bool-cases, Option, none, some,
  List, [], ◌∷◌, ◌++◌, Text, text_eq, text_eq_iff, split, split_n, trim, Table, lookup, insert,
  lookup-insert, ok, Holds, Holds-bind, Holds-mono, arith, if◌then◌else◌, if_yes, if_no,
}
use go_relay.Config.Settings.{
  contains, engine_enabled, is_valid_engine_name, add_engines, parse_engines, is_reserved,
  add_parts, add_extra, parse_extra_env,
}

-- One of the pieces is the name, but for blanks around it.
abbrev pub mentions : Text → List Text → Bool
mentions name [] = false
mentions name (p ∷ ps) = text_eq (trim p b' ') name || mentions name ps

contains-append :
    (name : Text) (xs : List Text) (x : Text)
    → contains name (xs ++ x ∷ []) ≡ contains name xs || text_eq x name
contains-append name [] x = ground arith
contains-append name (y ∷ xs) x = ground (arith, contains-append name xs x)

add_engines_lem :
    (name : Text) (ps parsed : List Text)
    → contains name (add_engines ps parsed)
      ≡ contains name parsed || (is_valid_engine_name name && mentions name ps)
unfolding add_engines
add_engines_lem name [] parsed = ground arith
add_engines_lem name (p ∷ ps) parsed =
    let engine = trim p b' ' in
    let same = text_eq_iff engine name in
    let valid : (engine ≡ name → is_valid_engine_name engine ≡ is_valid_engine_name name) =
      λ e. ap is_valid_engine_name e in
    let held : (engine ≡ name → contains engine parsed ≡ contains name parsed) =
      λ e. ap (λ x. contains x parsed) e in
    grind (
      arith,
      same,
      valid,
      held,
      contains-append name parsed engine,
      add_engines_lem name ps parsed,
      add_engines_lem name ps (parsed ++ engine ∷ []),
    )

-- An engine is enabled exactly if it is one of the two that exist and the comma-separated setting
-- names it, with or without blanks around it.
pub engine_enabled-parse_engines :
    (enabled name : Text)
    → engine_enabled (parse_engines enabled) name
      ≡ is_valid_engine_name name && mentions name (split enabled b',')
unfolding engine_enabled parse_engines
engine_enabled-parse_engines enabled name = add_engines_lem name (split enabled b',') []

-- The last value that the entries `name=value` give the name, else `o`.
abbrev of_parts : Text → List Text → Option Text → Option Text
of_parts k (key ∷ value ∷ []) o = if text_eq key k then some value else o
of_parts k parts o = o

abbrev pub last_value : Text → List Text → Option Text → Option Text
last_value k [] o = o
last_value k (v ∷ vs) o = last_value k vs (of_parts k (split_n 2 b'=' v) o)

-- What a table of extra variables must hold for the entries `extra` beside those it had.
abbrev IsFilled : List Text → (Text → Option Text) → Table Text → Type 0
IsFilled extra before env =
    (k : Text) → lookup k env ≡ (if is_reserved k then before k else last_value k extra (before k))

abbrev IsAdded : List Text → Table Text → Table Text → Type 0
IsAdded parts env env' =
    (k : Text)
    → lookup k env' ≡ (if is_reserved k then lookup k env else of_parts k parts (lookup k env))

add_part_lem :
    (key value : Text) (env : Table Text) (b : Bool)
    → is_reserved key ≡ b
    → Holds (IsAdded (key ∷ value ∷ []) env) (if b then ok env else ok (insert key value env))
add_part_lem key value env true h = λ k.
    let same : (key ≡ k → is_reserved k ≡ true) = λ e. ap is_reserved (sym e) ∙ h in
    grind (arith, same, text_eq_iff key k)
add_part_lem key value env false h = λ k.
    let same : (key ≡ k → is_reserved k ≡ false) = λ e. ap is_reserved (sym e) ∙ h in
    grind (arith, same, text_eq_iff key k, lookup-insert key k value env)

add_parts_lem :
    (parts : List Text) (env : Table Text) → Holds (IsAdded parts env) (add_parts parts env)
add_parts_lem [] env = tt
add_parts_lem (key ∷ []) env = tt
add_parts_lem (key ∷ value ∷ []) env = add_part_lem key value env (is_reserved key) refl
add_parts_lem (key ∷ value ∷ x ∷ xs) env = tt

layered :
    (vs : List Text) (o' o : Option Text) (parts : List Text) (k : Text)
    → o' ≡ (if is_reserved k then o else of_parts k parts o)
    → (if is_reserved k then o' else last_value k vs o')
      ≡ (if is_reserved k then o else last_value k vs (of_parts k parts o))
layered vs o' o parts k h = elim (Bool-cases (is_reserved k)) [
  | inl b ↦ if_yes _ _ b ∙ h ∙ if_yes _ _ b ∙ sym (if_yes _ _ b)
  | inr b ↦ if_no _ _ b ∙ ap (last_value k vs) (h ∙ if_no _ _ b) ∙ sym (if_no _ _ b)
]

add_extra_lem :
    (extra : List Text) (env : Table Text)
    → Holds (IsFilled extra λ k. lookup k env) (add_extra extra env)
unfolding add_extra
add_extra_lem [] env = λ k. ground arith
add_extra_lem (v ∷ vs) env =
    Holds-bind _ _ (add_parts (split_n 2 b'=' v) env) (add_extra vs)
      (add_parts_lem (split_n 2 b'=' v) env)
      λ env' h.
        Holds-mono (IsFilled vs λ k. lookup k env') (IsFilled (v ∷ vs) λ k. lookup k env)
          (add_extra vs env')
          (λ env'' f k. f k ∙ layered vs (lookup k env') (lookup k env) (split_n 2 b'=' v) k (h k))
          (add_extra_lem vs env')

-- Unless parsing panics, every variable that is not reserved has the last value given for it, and no
-- reserved one is set.
pub parse_extra_env_lem :
    (extra : List Text) → Holds (IsFilled extra λ k. none) (parse_extra_env extra)
unfolding parse_extra_env lookup
parse_extra_env_lem extra = add_extra_lem extra []
