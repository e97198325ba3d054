-- ===== src/Messages/EnvBuilder/Arguments.antt =====
-- How a command reads its arguments back from its environment.
use go_relay.Base.{
  ℕ, suc, ◌+◌, ◌-◌, ◌<◌, ◌≤◌, ◌^◌, ◌≡◌, refl, sym, ap, ◌∙◌, inl, inr, true, Bool-cases, Option,
  none, some, List, [], ◌∷◌, ◌++◌, Text, lit, text_eq, text_eq_iff, text_eq_refl, show_nat,
  parse_uint, parse_uint-show_nat, length, get_elem?, lookup, arith, if_yes, if_no,
}
use go_relay.Messages.Value.{Value, show}
use go_relay.Messages.EnvBuilder.{Env, numbered, argument_env}

text_eq-append : (p s t : Text) → text_eq (p ++ s) (p ++ t) ≡ text_eq s t
unfolding text_eq
text_eq-append [] s t = refl
text_eq-append (a ∷ p) s t = ground (arith, text_eq-append p s t)

show_nat-inj :
    (a b : ℕ) → a < 2 ^ 64 → b < 2 ^ 64 → text_eq (show_nat a) (show_nat b) ≡ true → a ≡ b
show_nat-inj a b ha hb e =
    sym (parse_uint-show_nat a ha)
    ∙ ap parse_uint ((text_eq_iff (show_nat a) (show_nat b)).0 e)
    ∙ parse_uint-show_nat b hb

abbrev shown : Option Value → Option Text
shown none = none
shown (some v) = some (show v)

lookup-numbered :
    (name : Text) (i j : ℕ) (vs : List Value)
    → i ≤ j
    → j < 2 ^ 64
    → i + length vs ≤ 2 ^ 64
    → lookup (name ++ show_nat j) (numbered name i vs) ≡ shown (get_elem? vs (j - i))
unfolding lookup numbered
lookup-numbered name i j [] h hj hl = refl
lookup-numbered name i j (v ∷ vs) h hj hl = elim (Bool-cases (text_eq (show_nat i) (show_nat j))) [
  | inl b ↦
      let same : i ≡ j = show_nat-inj i j (omega arith) hj b in
      let zero_at : 0 ≡ j - i = omega (arith, same) in
      if_yes _ _ (text_eq-append name (show_nat i) (show_nat j) ∙ b)
      ∙ ap (λ n. shown (get_elem? (v ∷ vs) n)) zero_at
  | inr b ↦
      let differ : (i ≡ j → text_eq (show_nat i) (show_nat j) ≡ true) =
        λ e. ap (λ n. text_eq (show_nat i) (show_nat n)) (sym e) ∙ text_eq_refl (show_nat i) in
      let strict : suc i ≤ j = ground (arith, differ, b) in
      let rest_at : suc (j - suc i) ≡ j - i = omega (arith, strict) in
      if_no _ _ (text_eq-append name (show_nat i) (show_nat j) ∙ b)
      ∙ lookup-numbered name (suc i) j vs strict hj (omega arith)
      ∙ ap (λ n. shown (get_elem? (v ∷ vs) n)) rest_at
]

abbrev or_else : Option Text → Option Text → Option Text
or_else none o = o
or_else (some v) o = some v

lookup-append : (k : Text) (xs ys : Env) → lookup k (xs ++ ys) ≡ or_else (lookup k xs) (lookup k ys)
unfolding lookup
lookup-append k [] ys = refl
lookup-append k ((j, v) ∷ xs) ys = ground (arith, lookup-append k xs ys)

count_unnumbered :
    (i : ℕ) (vs : List Value) → lookup (lit "COG_ARGC") (numbered (lit "COG_ARGV_") i vs) ≡ none
unfolding lookup numbered text_eq
count_unnumbered i [] = refl
count_unnumbered i (v ∷ vs) = count_unnumbered (suc i) vs

or_else-none : (o : Option Text) → or_else o none ≡ o
or_else-none none = refl
or_else-none (some v) = refl

-- For fewer than 2^64 arguments: the variable COG_ARGV_i holds the i-th argument, printed, and is not set where there is no i-th
-- argument; COG_ARGC holds their count.
pub lookup-argument_env :
    (args : List Value) (i : ℕ)
    → i < 2 ^ 64
    → length args < 2 ^ 64
    → (lookup (lit "COG_ARGV_" ++ show_nat i) (argument_env args) ≡ shown (get_elem? args i))
      × (lookup (lit "COG_ARGC") (argument_env args) ≡ some (show_nat (length args)))
unfolding argument_env lookup text_eq
lookup-argument_env args i hi hl =
    let count : Env = (lit "COG_ARGC", show_nat (length args)) ∷ [] in
    let whole : i - 0 ≡ i = omega arith in
    let arguments = numbered (lit "COG_ARGV_") 0 args in
    (
      lookup-append (lit "COG_ARGV_" ++ show_nat i) arguments count
          ∙ or_else-none _
          ∙ lookup-numbered (lit "COG_ARGV_") 0 i args (omega arith) hi (omega arith)
          ∙ ap (λ n. shown (get_elem? args n)) whole,
      lookup-append (lit "COG_ARGC") arguments count
          ∙ ap (λ o. or_else o (some (show_nat (length args)))) (count_unnumbered 0 args),
    )
