-- ===== src/Worker/Output.antt =====
-- relay/worker/output_parser_v1.go. The eight regular expressions are anchored constants followed by
-- `(.*)`, or the whole line JSON, so a match is a prefix test; lines hold no newline. The map of
-- matchers is a list in the order of its iteration, which Go leaves open. The JSON decoder is a
-- parameter. What is logged is returned beside the response.
pub mod Order
pub mod Lines
pub mod Status
mod Tests
use go_relay.Base.{
  ℕ, zero, suc, ◌≡◌, Bool, true, false, not, ◌&&◌, Option, none, some, List, [], ◌∷◌, ◌++◌, Text,
  lit, text_eq, trim, trim_suffix, split, join, length, ltb, ◌==◌, if◌then◌else◌,
}
use go_relay.Messages.Value.{Value}
use go_relay.Messages.Execution.{
  ExecutionRequest, ExecutionResponse, empty_response, Body, no_body, body_lines, json_body,
}

pub data Matcher : Type 0 where
  debug_re info_re warn_re err_re error_re action_re template_re json_re : Matcher

-- The rest of the text behind a prefix.
unfoldable pub strip_prefix : Text → Text → Option Text
strip_prefix s [] = some s
strip_prefix [] (b ∷ p) = none
strip_prefix (a ∷ s) (b ∷ p) = if a == b then strip_prefix s p else none

-- The constant that a regular expression begins with.
abbrev pub prefix_of : Matcher → Text
prefix_of debug_re = lit "COGCMD_DEBUG:"
prefix_of info_re = lit "COGCMD_INFO:"
prefix_of warn_re = lit "COGCMD_WARN:"
prefix_of err_re = lit "COGCMD_ERR:"
prefix_of error_re = lit "COGCMD_ERROR:"
prefix_of action_re = lit "COGCMD_ACTION:"
prefix_of template_re = lit "COG_TEMPLATE:"
prefix_of json_re = lit "JSON"

-- The submatches, given what follows the constant.
unfoldable pub submatches : Matcher → Text → Option (List Text)
submatches debug_re rest = some (lit "DEBUG:" ∷ rest ∷ [])
submatches info_re rest = some (lit "INFO:" ∷ rest ∷ [])
submatches warn_re rest = some (lit "WARN:" ∷ rest ∷ [])
submatches err_re rest = some (lit "ERR:" ∷ rest ∷ [])
submatches error_re rest = some (lit "ERROR:" ∷ rest ∷ [])
submatches action_re rest = some (rest ∷ [])
submatches template_re rest = some (rest ∷ [])
submatches json_re [] = some (lit "JSON" ∷ [])
submatches json_re (c ∷ rest) = none

-- re.FindStringSubmatch(line)[1:], `none` where the expression does not match.
unfoldable pub find_submatch : Matcher → Text → Option (List Text)
unfolding strip_prefix submatches
find_submatch m line = elim (strip_prefix line (prefix_of m)) [
  | none ↦ none
  | some rest ↦ submatches m rest
]

pub data Level : Type 0 where
  debug info warn error : Level

pub record LogEntry : Type 0 where
  pub level : Level
  pub pipeline : Text
  pub command : Text
  pub message : Text

abbrev pub level_of : Text → Level
level_of tag =
    if text_eq tag (lit "DEBUG:")
    then debug
    else if text_eq tag (lit "WARN:")
    then warn
    else if text_eq tag (lit "ERR:")
    then error
    else if text_eq tag (lit "ERROR:")
    then error
    else info

-- line[i] of the submatches; every caller passes as many as it reads.
abbrev pub nth : List Text → ℕ → Text
nth [] i = []
nth (x ∷ xs) zero = x
nth (x ∷ xs) (suc i) = nth xs i

unfoldable pub write_to_log : List Text → ExecutionRequest → List LogEntry
write_to_log line req =
    let message = trim (nth line 1) b' ' in
    if text_eq message []
    then []
    else record {
      level = level_of (nth line 0);
      pipeline = req.pipeline_id;
      command = req.command;
      message = message;
    }
      ∷ []

unfoldable pub extract_template : List Text → ExecutionResponse → ExecutionResponse
extract_template line resp = record resp { template = trim (nth line 0) b' ' }

unfoldable pub flag_json : ExecutionResponse → ExecutionResponse
flag_json resp = record resp { is_json = true }

unfoldable pub parse_action : List Text → ExecutionResponse → ExecutionResponse
parse_action line resp =
    if text_eq (trim (nth line 0) b' ') (lit "abort") then record resp { aborted = true } else resp

-- What the loop over the lines keeps: the response, the retained lines and the log.
pub record Scan : Type 0 where
  pub resp : ExecutionResponse
  pub retained : List Text
  pub logged : List LogEntry

-- The callback that the map holds for an expression.
unfoldable pub callback : Matcher → List Text → ExecutionRequest → Scan → Scan
unfolding write_to_log extract_template flag_json parse_action
callback action_re line req s = record s { resp = parse_action line s.resp }
callback template_re line req s = record s { resp = extract_template line s.resp }
callback json_re line req s = record s { resp = flag_json s.resp }
callback debug_re line req s = record s { logged = s.logged ++ write_to_log line req }
callback info_re line req s = record s { logged = s.logged ++ write_to_log line req }
callback warn_re line req s = record s { logged = s.logged ++ write_to_log line req }
callback err_re line req s = record s { logged = s.logged ++ write_to_log line req }
callback error_re line req s = record s { logged = s.logged ++ write_to_log line req }

-- The inner loop: the first expression, in the map's order, that matches.
unfoldable pub first_match : List Matcher → Text → Option (Matcher × List Text)
first_match [] line = none
first_match (m ∷ ms) line = elim (find_submatch m line) [
  | some subs ↦ some (m, subs)
  | none ↦ first_match ms line
]

abbrev pub retain : Text → Scan → Scan
retain line s = record s { retained = s.retained ++ line ∷ [] }

unfoldable pub scan_line : List Matcher → ExecutionRequest → Text → Scan → Scan
scan_line ms req line s = if s.resp.is_json then retain line s else elim (first_match ms line) [
  | some (m, subs) ↦ callback m subs req s
  | none ↦ retain line s
]

unfoldable pub scan_lines : List Matcher → ExecutionRequest → List Text → Scan → Scan
scan_lines ms req [] s = s
scan_lines ms req (line ∷ lines) s = scan_lines ms req lines (scan_line ms req line s)

-- What the driver reports of a finished command.
pub record ExecResult : Type 0 where
  pub stdout : Text
  pub stderr : Text
  pub success : Bool

-- The lines of the output; no lines for no output.
unfoldable pub output_lines : Text → List Text
output_lines [] = []
output_lines (c ∷ s) = split (trim_suffix (c ∷ s) b'\n') b'\n'

unfoldable pub start_scan : Scan
start_scan = record {
  resp = record empty_response { status = lit "ok" };
  retained = [];
  logged = [];
}

abbrev pub text_body : List Text → Body
text_body [] = no_body
text_body (l ∷ ls) = body_lines (l ∷ ls)

module _ (decode : Text → Option Value) where
  -- From the `if !result.GetSuccess()` on.
  unfoldable pub finish : ExecResult → Scan → ExecutionResponse
  finish result s =
      if not result.success
      then record s.resp { status = lit "error"; status_message = result.stderr }
      else (let resp =
            if s.resp.is_json
            then elim (decode (join b'\n' s.retained)) [
              | none ↦ record s.resp {
                status = lit "error";
                status_message = lit "Command returned invalid JSON.";
              }
              | some v ↦ record s.resp { body = json_body v }
            ]
            else record s.resp { body = text_body s.retained } in
          if text_eq resp.status (lit "ok") && resp.aborted
          then record resp { status = lit "abort" }
          else resp)

  -- `err` is the error that running the command came back with.
  unfoldable pub parse :
      List Matcher → ExecResult → ExecutionRequest → Option Text → ExecutionResponse × List LogEntry
  unfolding start_scan
  parse ms result req (some e) =
      (record empty_response { status = lit "error"; status_message = e }, [])
  parse ms result req none =
      let s = scan_lines ms req (output_lines result.stdout) start_scan in
      (finish result s, s.logged)
