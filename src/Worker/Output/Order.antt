-- ===== src/Worker/Output/Order.antt =====
-- At most one expression matches a line, so the order in which Go iterates over the map of matchers
-- does not matter.
use go_relay.Base.{
  ◌≡◌, refl, sym, ap, ◌∙◌, ◌⊎◌, inl, inr, Bool, true, false, Option-cases, Option, none, some, List,
  [], ◌∷◌, Text, arith, ◌==◌, if◌then◌else◌,
}
use go_relay.Messages.Value.{Value}
use go_relay.Messages.Execution.{ExecutionRequest}
use go_relay.Worker.Output.{
  Matcher, debug_re, info_re, warn_re, err_re, error_re, action_re, template_re, json_re,
  ExecResult, strip_prefix, prefix_of, find_submatch, first_match, Scan, scan_line, scan_lines,
  retain, callback, output_lines, start_scan, finish, parse,
}

-- Two constants that differ at some place within both.
clash : Text → Text → Bool
clash [] q = false
clash (a ∷ p) [] = false
clash (a ∷ p) (b ∷ q) = if a == b then clash p q else true

strip_clash :
    (s p q : Text) {r r' : Text}
    → clash p q ≡ true
    → strip_prefix s p ≡ some r
    → strip_prefix s q ≡ some r'
    → ⊥
unfolding clash strip_prefix
strip_clash s [] q c e e' = ground arith
strip_clash s (a ∷ p) [] c e e' = ground arith
strip_clash [] (a ∷ p) (b ∷ q) c e e' = ground arith
strip_clash (x ∷ s) (a ∷ p) (b ∷ q) {r} {r'} c e e' =
    ground (arith, strip_clash s p q {r = r} {r' = r'})

same_or_clash : (m m' : Matcher) → (m ≡ m') ⊎ (clash (prefix_of m) (prefix_of m') ≡ true)
unfolding clash
same_or_clash debug_re debug_re = inl refl
same_or_clash debug_re _ = inr refl
same_or_clash info_re info_re = inl refl
same_or_clash info_re _ = inr refl
same_or_clash warn_re warn_re = inl refl
same_or_clash warn_re _ = inr refl
same_or_clash err_re err_re = inl refl
same_or_clash err_re _ = inr refl
same_or_clash error_re error_re = inl refl
same_or_clash error_re _ = inr refl
same_or_clash action_re action_re = inl refl
same_or_clash action_re _ = inr refl
same_or_clash template_re template_re = inl refl
same_or_clash template_re _ = inr refl
same_or_clash json_re json_re = inl refl
same_or_clash json_re _ = inr refl

match_prefix :
    (m : Matcher) (line : Text) {subs : List Text}
    → find_submatch m line ≡ some subs
    → (rest : Text) × (strip_prefix line (prefix_of m) ≡ some rest)
unfolding find_submatch
match_prefix m line {subs} e = elim (Option-cases (strip_prefix line (prefix_of m))) [
  | inl p ↦ absurd (ground (arith, p))
  | inr (rest, p) ↦ (rest, p)
]

pub match_unique :
    (m m' : Matcher) (line : Text) {subs subs' : List Text}
    → find_submatch m line ≡ some subs
    → find_submatch m' line ≡ some subs'
    → m ≡ m'
match_unique m m' line e e' = elim (same_or_clash m m') [
  | inl p ↦ p
  | inr c ↦ absurd (
      strip_clash line (prefix_of m) (prefix_of m') c (match_prefix m line e).1
        (match_prefix m' line e').1)
]

abbrev pub Has : Matcher → List Matcher → Type 0
Has m [] = ⊥
Has m (x ∷ ms) = (x ≡ m) ⊎ Has m ms

-- The list holds every key of the map of matchers.
abbrev pub IsComplete : List Matcher → Type 0
IsComplete ms = (m : Matcher) → Has m ms

pub first_match_sound :
    (ms : List Matcher) (line : Text) {m : Matcher} {subs : List Text}
    → first_match ms line ≡ some (m, subs)
    → find_submatch m line ≡ some subs
unfolding first_match
first_match_sound [] line e = absurd (ground arith)
first_match_sound (x ∷ ms) line {m} {subs} e = elim (Option-cases (find_submatch x line)) [
  | inl p ↦ first_match_sound ms line (ground (arith, p))
  | inr (s, p) ↦ ground (arith, p)
]

pub first_match-some :
    (ms : List Matcher) (line : Text) (m : Matcher) {subs : List Text}
    → Has m ms
    → find_submatch m line ≡ some subs
    → first_match ms line ≡ some (m, subs)
unfolding first_match
first_match-some [] line m h e = absurd h
first_match-some (x ∷ ms) line m {subs} h e = elim (Option-cases (find_submatch x line)) [
  | inl p ↦ elim h [
    | inl q ↦ cc
    | inr q ↦ ground (arith, p, first_match-some ms line m {subs = subs} q e)
  ]
  | inr (s, p) ↦ let q : x ≡ m = match_unique x m line p e in ground (arith, p, q)
]

first_match-none :
    (ms : List Matcher) (line : Text) (m : Matcher)
    → Has m ms
    → first_match ms line ≡ none
    → find_submatch m line ≡ none
unfolding first_match
first_match-none ms line m h e = elim (Option-cases (find_submatch m line)) [
  | inl p ↦ p
  | inr (subs, p) ↦ cc (first_match-some ms line m h p)
]

pub first_match-all_none :
    (ms : List Matcher) (line : Text)
    → ((m : Matcher) → find_submatch m line ≡ none)
    → first_match ms line ≡ none
unfolding first_match
first_match-all_none [] line h = refl
first_match-all_none (m ∷ ms) line h = ground (arith, h m, first_match-all_none ms line h)

module _ (ms ms' : List Matcher) (all : IsComplete ms) (all' : IsComplete ms') where
  first_match_order : (line : Text) → first_match ms line ≡ first_match ms' line
  first_match_order line = elim (Option-cases (first_match ms line)) [
    | inl p ↦ p ∙ sym (first_match-all_none ms' line λ m. first_match-none ms line m (all m) p)
    | inr ((m, subs), p) ↦
        p ∙ sym (first_match-some ms' line m (all' m) (first_match_sound ms line p))
  ]

  scan_line_order :
      (req : ExecutionRequest) (line : Text) (s : Scan)
      → scan_line ms req line s ≡ scan_line ms' req line s
  unfolding scan_line
  scan_line_order req line s =
      ap
        (λ found.
          if s.resp.is_json
          then retain line s
          else elim found [ some (m, subs) ↦ callback m subs req s | none ↦ retain line s ])
        (first_match_order line)

  scan_lines_order :
      (req : ExecutionRequest) (lines : List Text) (s : Scan)
      → scan_lines ms req lines s ≡ scan_lines ms' req lines s
  unfolding scan_lines
  scan_lines_order req [] s = refl
  scan_lines_order req (line ∷ lines) s =
      ap (scan_lines ms req lines) (scan_line_order req line s)
      ∙ scan_lines_order req lines (scan_line ms' req line s)

  -- The response and the log do not depend on the order of the matchers: two lists that hold them
  -- all parse the same.
  pub parse_order :
      (decode : Text → Option Value) (result : ExecResult) (req : ExecutionRequest)
      (err : Option Text)
      → parse decode ms result req err ≡ parse decode ms' result req err
  unfolding parse
  parse_order decode result req (some e) = refl
  parse_order decode result req none =
      ap (λ (s : Scan). (finish decode result s, s.logged))
        (scan_lines_order req (output_lines result.stdout) start_scan)
