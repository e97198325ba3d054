-- ===== src/Worker/Output/Status.antt =====
-- The reply to a finished command: its status and its body from the command's exit and its output.
use go_relay.Base.{
  ◌≡◌, refl, ap, ap₂, ◌∙◌, Bool, true, false, Option, none, some, List, [], ◌∷◌, Text, lit, text_eq,
  join,
}
use go_relay.Messages.Value.{Value}
use go_relay.Messages.Execution.{ExecutionRequest, ExecutionResponse, Body, no_body, json_body}
use go_relay.Worker.Output.{
  Matcher, LogEntry, Scan, ExecResult, output_lines, start_scan, scan_lines, text_body, finish,
  parse,
}
use go_relay.Worker.Output.Order.{IsComplete, parse_order}
use go_relay.Worker.Output.Lines.{
  plain, json, abort, ignored, template, respond, all_matchers, all_matchers-IsComplete, classify,
  text_of, respond_by, respond_all, scan_lines_lem,
}

-- Directives touch neither the status nor the body.
respond_all-status :
    (lines : List Text) (r : ExecutionResponse) → (respond_all lines r).status ≡ r.status
unfolding respond_all
respond_all-status [] r = refl
respond_all-status (l ∷ lines) r =
    elim (classify l) as (λ k. (respond_by k (respond_all lines) r).status ≡ r.status) [
      | json ↦ refl
      | plain ↦ respond_all-status lines r
      | ignored ↦ respond_all-status lines r
      | abort ↦ respond_all-status lines (respond abort r)
      | template t ↦ respond_all-status lines (respond (template t) r)
    ]

respond_all-body : (lines : List Text) (r : ExecutionResponse) → (respond_all lines r).body ≡ r.body
unfolding respond_all
respond_all-body [] r = refl
respond_all-body (l ∷ lines) r =
    elim (classify l) as (λ k. (respond_by k (respond_all lines) r).body ≡ r.body) [
      | json ↦ refl
      | plain ↦ respond_all-body lines r
      | ignored ↦ respond_all-body lines r
      | abort ↦ respond_all-body lines (respond abort r)
      | template t ↦ respond_all-body lines (respond (template t) r)
    ]

-- The status that a command which ran is answered with.
abbrev pub verdict : Bool → Bool → Bool → Option Value → Text
verdict false is_json aborted value = lit "error"
verdict true true aborted none = lit "error"
verdict true true true (some v) = lit "abort"
verdict true true false (some v) = lit "ok"
verdict true false true value = lit "abort"
verdict true false false value = lit "ok"

abbrev pub content : Bool → Bool → Option Value → List Text → Body
content false is_json value kept = no_body
content true true none kept = no_body
content true true (some v) kept = json_body v
content true false value kept = text_body kept

-- What the parser makes of an output's lines: the directives' response and the retained lines.
abbrev pub directives : ExecResult → ExecutionResponse
directives result = respond_all (output_lines result.stdout) start_scan.resp

abbrev pub kept_text : ExecResult → List Text
kept_text result = text_of (output_lines result.stdout)

module _ (decode : Text → Option Value) where
  abbrev scan_at : Text → Text → Text → Text → Bool → Bool → List Text → List LogEntry → Scan
  scan_at room bundle message tmpl is_json aborted kept logged = record {
    resp = record {
      room = room;
      bundle = bundle;
      status = lit "ok";
      status_message = message;
      template = tmpl;
      body = no_body;
      is_json = is_json;
      aborted = aborted;
    };
    retained = kept;
    logged = logged;
  }

  finish_at :
      (stdout stderr room bundle message tmpl : Text) (success is_json aborted : Bool)
      (kept : List Text) (logged : List LogEntry) (value : Option Value)
      → decode (join b'\n' kept) ≡ value
      → ((finish decode
            (record { stdout = stdout; stderr = stderr; success = success })
            (scan_at room bundle message tmpl is_json aborted kept logged)).status
          ≡ verdict success is_json aborted value)
        × ((finish decode
              (record { stdout = stdout; stderr = stderr; success = success })
              (scan_at room bundle message tmpl is_json aborted kept logged)).body
            ≡ content success is_json value kept)
  unfolding finish text_eq
  finish_at stdout stderr room bundle message tmpl false is_json aborted kept logged value e =
      (refl, refl)
  finish_at stdout stderr room bundle message tmpl true false true kept logged value e =
      (refl, refl)
  finish_at stdout stderr room bundle message tmpl true false false kept logged value e =
      (refl, refl)
  finish_at stdout stderr room bundle message tmpl true true aborted kept logged none e =
      rw e (refl, refl)
  finish_at stdout stderr room bundle message tmpl true true true kept logged (some v) e =
      rw e (refl, refl)
  finish_at stdout stderr room bundle message tmpl true true false kept logged (some v) e =
      rw e (refl, refl)

  finish_lem :
      (result : ExecResult) (s : Scan)
      → s.resp.status ≡ lit "ok"
      → s.resp.body ≡ no_body
      → ((finish decode result s).status
          ≡ verdict result.success s.resp.is_json s.resp.aborted (decode (join b'\n' s.retained)))
        × ((finish decode result s).body
            ≡ content result.success s.resp.is_json (decode (join b'\n' s.retained)) s.retained)
  finish_lem result s h b =
      let t = s.resp in
      let (f, g) =
        finish_at result.stdout result.stderr t.room t.bundle t.status_message t.template
          result.success t.is_json t.aborted s.retained s.logged (decode (join b'\n' s.retained))
          refl in
      (
        ap₂
              (λ x y.
                (finish decode result
                  (record s { resp = record t { status = x; body = y } })).status)
              h b
            ∙ f,
        ap₂
              (λ x y.
                (finish decode result (record s { resp = record t { status = x; body = y } })).body)
              h b
            ∙ g,
      )

  module _ (ms : List Matcher) (complete : IsComplete ms) where
    -- The reply to a command that ran, with the matchers in any order: the status is error unless
    -- the command succeeded and, where it announced JSON, the rest of its output decodes; otherwise
    -- it is abort where a line before any line JSON asked for that, and ok elsewhere. The body is
    -- the decoded JSON or the retained lines, and there is none with an error.
    pub parse-verdict :
        (result : ExecResult) (req : ExecutionRequest)
        → ((parse decode ms result req none).0.status
            ≡ verdict result.success
                (directives result).is_json
                (directives result).aborted
                (decode (join b'\n' (kept_text result))))
          × ((parse decode ms result req none).0.body
              ≡ content result.success
                  (directives result).is_json
                  (decode (join b'\n' (kept_text result)))
                  (kept_text result))
    unfolding parse start_scan
    parse-verdict result req =
        let s = scan_lines all_matchers req (output_lines result.stdout) start_scan in
        let (r, k) = scan_lines_lem req (output_lines result.stdout) start_scan refl in
        let swap =
          parse_order ms all_matchers complete all_matchers-IsComplete decode result req none in
        let (f, g) =
          finish_lem result s
            (ap (λ (x : ExecutionResponse). x.status) r
              ∙ respond_all-status (output_lines result.stdout) start_scan.resp)
            (ap (λ (x : ExecutionResponse). x.body) r
              ∙ respond_all-body (output_lines result.stdout) start_scan.resp) in
        (
          ap (λ (x : ExecutionResponse × List LogEntry). x.0.status) swap
              ∙ f
              ∙ ap₂
                  (λ (x : ExecutionResponse) (y : List Text).
                    verdict result.success x.is_json x.aborted (decode (join b'\n' y)))
                  r k,
          ap (λ (x : ExecutionResponse × List LogEntry). x.0.body) swap
              ∙ g
              ∙ ap₂
                  (λ (x : ExecutionResponse) (y : List Text).
                    content result.success x.is_json (decode (join b'\n' y)) y)
                  r k,
        )
