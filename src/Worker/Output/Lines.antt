-- ===== src/Worker/Output/Lines.antt =====
-- What the loop over the output's lines keeps, told without the loop: up to the first line JSON the
-- directives are taken out, and from there on every line stays.
use go_relay.Base.{
  ◌≡◌, refl, sym, ap, ◌∙◌, inl, inr, true, false, Bool-cases, Option, none, some, List, [], ◌∷◌,
  ◌++◌, Text, lit, text_eq, trim, if◌then◌else◌, if_yes, if_no, append-nil, append_assoc,
}
use go_relay.Messages.Execution.{ExecutionRequest, ExecutionResponse}
use go_relay.Worker.Output.{
  Matcher, debug_re, info_re, warn_re, err_re, error_re, action_re, template_re, json_re, nth,
  first_match, Scan, scan_line, scan_lines, retain, callback,
}
use go_relay.Worker.Output.Order.{IsComplete}

-- What a line is to the parser.
pub data Kind : Type 0 where
  plain json abort ignored : Kind
  template : Text → Kind

abbrev kind_of : Option (Matcher × List Text) → Kind
kind_of none = plain
kind_of (some (json_re, subs)) = json
kind_of (some (action_re, subs)) =
    if text_eq (trim (nth subs 0) b' ') (lit "abort") then abort else ignored
kind_of (some (template_re, subs)) = template (trim (nth subs 0) b' ')
kind_of (some (m, subs)) = ignored

-- What a line does to the response, and whether it is kept.
abbrev pub respond : Kind → ExecutionResponse → ExecutionResponse
respond plain r = r
respond ignored r = r
respond json r = record r { is_json = true }
respond abort r = record r { aborted = true }
respond (template t) r = record r { template = t }

abbrev pub keep : Kind → Text → List Text → List Text
keep plain line kept = kept ++ line ∷ []
keep _ line kept = kept

callback-kind :
    (m : Matcher) (subs : List Text) (req : ExecutionRequest) (line : Text) (s : Scan)
    → ((callback m subs req s).resp ≡ respond (kind_of (some (m, subs))) s.resp)
      × ((callback m subs req s).retained ≡ keep (kind_of (some (m, subs))) line s.retained)
unfolding callback
callback-kind debug_re subs req line s = (refl, refl)
callback-kind action_re subs req line s =
    elim (Bool-cases (text_eq (trim (nth subs 0) b' ') (lit "abort"))) [
      | inl e ↦ rw e (refl, refl)
      | inr e ↦ rw e (refl, refl)
    ]
callback-kind _ subs req line s = (refl, refl)

-- The matchers in the order in which the source lists them.
abbrev pub all_matchers : List Matcher
all_matchers =
    debug_re ∷ info_re ∷ warn_re ∷ err_re ∷ error_re ∷ action_re ∷ template_re ∷ json_re ∷ []

pub all_matchers-IsComplete : IsComplete all_matchers
all_matchers-IsComplete debug_re = inl refl
all_matchers-IsComplete info_re = inr (inl refl)
all_matchers-IsComplete warn_re = inr (inr (inl refl))
all_matchers-IsComplete err_re = inr (inr (inr (inl refl)))
all_matchers-IsComplete error_re = inr (inr (inr (inr (inl refl))))
all_matchers-IsComplete action_re = inr (inr (inr (inr (inr (inl refl)))))
all_matchers-IsComplete template_re = inr (inr (inr (inr (inr (inr (inl refl))))))
all_matchers-IsComplete json_re = inr (inr (inr (inr (inr (inr (inr (inl refl)))))))

unfoldable pub classify : Text → Kind
classify line = kind_of (first_match all_matchers line)

-- The retained lines: the plain ones before the first line JSON, and all behind it.
abbrev text_by : Kind → Text → List Text → List Text → List Text
text_by plain line lines rest = line ∷ rest
text_by json line lines rest = lines
text_by _ line lines rest = rest

unfoldable pub text_of : List Text → List Text
text_of [] = []
text_of (l ∷ ls) = text_by (classify l) l ls (text_of ls)

-- The response, given the directives before the first line JSON.
abbrev pub respond_by :
    Kind → (ExecutionResponse → ExecutionResponse) → ExecutionResponse → ExecutionResponse
respond_by json rest r = respond json r
respond_by k rest r = rest (respond k r)

unfoldable pub respond_all : List Text → ExecutionResponse → ExecutionResponse
respond_all [] r = r
respond_all (l ∷ ls) r = respond_by (classify l) (respond_all ls) r

scan_json :
    (ms : List Matcher) (req : ExecutionRequest) (lines : List Text) (s : Scan)
    → s.resp.is_json ≡ true
    → ((scan_lines ms req lines s).resp ≡ s.resp)
      × ((scan_lines ms req lines s).retained ≡ s.retained ++ lines)
unfolding scan_lines scan_line
scan_json ms req [] s h = (refl, sym (append-nil s.retained))
scan_json ms req (l ∷ lines) s h =
    let step : scan_line ms req l s ≡ retain l s = if_yes _ _ h in
    let (r, k) = scan_json ms req lines (retain l s) h in
    (
      ap (λ (t : Scan). (scan_lines ms req lines t).resp) step ∙ r,
      ap (λ (t : Scan). (scan_lines ms req lines t).retained) step
          ∙ k
          ∙ append_assoc s.retained (l ∷ []) lines,
    )

-- What the body of the loop does while no line JSON has been seen.
abbrev on_found : Option (Matcher × List Text) → ExecutionRequest → Text → Scan → Scan
on_found found req line s = elim found [
  | some (m, subs) ↦ callback m subs req s
  | none ↦ retain line s
]

on_found-kind :
    (found : Option (Matcher × List Text)) (req : ExecutionRequest) (line : Text) (s : Scan)
    → ((on_found found req line s).resp ≡ respond (kind_of found) s.resp)
      × ((on_found found req line s).retained ≡ keep (kind_of found) line s.retained)
on_found-kind none req line s = (refl, refl)
on_found-kind (some (m, subs)) req line s = callback-kind m subs req line s

module _ (req : ExecutionRequest) where
  scan_line-kind :
      (line : Text) (s : Scan)
      → s.resp.is_json ≡ false
      → ((scan_line all_matchers req line s).resp ≡ respond (classify line) s.resp)
        × ((scan_line all_matchers req line s).retained ≡ keep (classify line) line s.retained)
  unfolding scan_line classify
  scan_line-kind line s h =
      let (r, k) = on_found-kind (first_match all_matchers line) req line s in
      (ap (λ (t : Scan). t.resp) (if_no _ _ h) ∙ r, ap (λ (t : Scan). t.retained) (if_no _ _ h) ∙ k)

  -- What the loop makes of the remaining lines, when it starts without the line JSON seen.
  abbrev IsTold : List Text → Scan → Type 0
  IsTold lines s =
      ((scan_lines all_matchers req lines s).resp ≡ respond_all lines s.resp)
      × ((scan_lines all_matchers req lines s).retained ≡ s.retained ++ text_of lines)

  after_line :
      (k : Kind) (l : Text) (lines : List Text) (s t : Scan)
      → s.resp.is_json ≡ false
      → t.resp ≡ respond k s.resp
      → t.retained ≡ keep k l s.retained
      → (t.resp.is_json ≡ false → IsTold lines t)
      → ((scan_lines all_matchers req lines t).resp ≡ respond_by k (respond_all lines) s.resp)
        × ((scan_lines all_matchers req lines t).retained
            ≡ s.retained ++ text_by k l lines (text_of lines))
  after_line plain l lines s t h r k rest =
      let (r', k') = rest (ap (λ (x : ExecutionResponse). x.is_json) r ∙ h) in
      (
        r' ∙ ap (respond_all lines) r,
        k' ∙ ap (λ x. x ++ text_of lines) k ∙ append_assoc s.retained (l ∷ []) (text_of lines),
      )
  after_line json l lines s t h r k rest =
      let (r', k') =
        scan_json all_matchers req lines t (ap (λ (x : ExecutionResponse). x.is_json) r) in
      (r' ∙ r, k' ∙ ap (λ x. x ++ lines) k)
  after_line abort l lines s t h r k rest =
      let (r', k') = rest (ap (λ (x : ExecutionResponse). x.is_json) r ∙ h) in
      (r' ∙ ap (respond_all lines) r, k' ∙ ap (λ x. x ++ text_of lines) k)
  after_line ignored l lines s t h r k rest =
      let (r', k') = rest (ap (λ (x : ExecutionResponse). x.is_json) r ∙ h) in
      (r' ∙ ap (respond_all lines) r, k' ∙ ap (λ x. x ++ text_of lines) k)
  after_line (template u) l lines s t h r k rest =
      let (r', k') = rest (ap (λ (x : ExecutionResponse). x.is_json) r ∙ h) in
      (r' ∙ ap (respond_all lines) r, k' ∙ ap (λ x. x ++ text_of lines) k)

  -- The loop over the lines, from a state in which no line JSON was seen, told line by line: what is retained is `text_of`,
  -- and the response is what the directives before the first line JSON make of it.
  pub scan_lines_lem : (lines : List Text) (s : Scan) → s.resp.is_json ≡ false → IsTold lines s
  unfolding scan_lines respond_all text_of
  scan_lines_lem [] s h = (refl, sym (append-nil s.retained))
  scan_lines_lem (l ∷ lines) s h =
      let (r, k) = scan_line-kind l s h in
      after_line (classify l) l lines s (scan_line all_matchers req l s) h r k
        (scan_lines_lem lines (scan_line all_matchers req l s))
