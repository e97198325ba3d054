-- ===== src/Worker/Output/Tests.antt =====
-- The output parser at work, on outputs of relay/worker/output_parser_v1_test.go.
use go_relay.Base.{
  ◌≡◌, refl, inl, inr, true, Option, none, some, List, [], ◌∷◌, ◌++◌, Text, lit, text_eq, split,
  join, trim_suffix, trim,
}
use go_relay.Messages.Value.{Value, null, str}
use go_relay.Messages.Execution.{ExecutionRequest, body_lines, json_body}
use go_relay.Worker.Output.{
  Matcher, debug_re, info_re, warn_re, err_re, error_re, action_re, template_re, json_re, debug,
  ExecResult, output_lines, start_scan, scan_lines, scan_line, first_match, find_submatch, callback,
  finish, parse,
}
use go_relay.Worker.Output.Order.{IsComplete, parse_order}
use go_relay.Worker.Output.Lines.{
  classify, all_matchers, all_matchers-IsComplete, text_of, respond_all, scan_lines_lem,
}
use go_relay.Worker.Output.Status.{parse-verdict}

abbrev request : ExecutionRequest
request = record {
  options = [];
  args = [];
  cog_env = null;
  invocation_id = [];
  invocation_step = [];
  command = lit "foo:bar";
  reply_to = lit "/bot/pipelines/123456/reply";
  requestor = record { id = null; handle = lit "jondoe"; provider = lit "slack" };
  user = record {
    id = lit "123123123";
    email = lit "jondoe@anonymous.org";
    first_name = lit "Jon";
    last_name = lit "Doe";
    username = lit "jondoe";
  };
  room = record { name = [] };
  service_token = [];
  services_root = [];
  bundle_name = lit "foo";
  command_name = lit "bar";
  pipeline_id = lit "123456";
}

abbrev log_output : Text
log_output = lit "COGCMD_DEBUG: Testing 123" ++ b'\n' ∷ lit "abc" ++ b'\n' ∷ lit "123" ++ b'\n' ∷ []

abbrev log_result : ExecResult
log_result = record { stdout = log_output; stderr = []; success = true }

abbrev whole : Text → Option Value
whole s = some (str s)

parse_log_output :
    (parse whole all_matchers log_result request none).0.body
    ≡ body_lines (lit "abc" ∷ lit "123" ∷ [])
unfolding parse finish text_eq scan_lines output_lines split trim_suffix scan_line first_match
    find_submatch callback trim
parse_log_output = refl

parse_log_entry :
    (parse whole all_matchers log_result request none).1
    ≡ record {
      level = debug;
      pipeline = lit "123456";
      command = lit "foo:bar";
      message = lit "Testing 123";
    }
      ∷ []
unfolding parse finish text_eq scan_lines output_lines split trim_suffix scan_line first_match
    find_submatch callback trim
parse_log_entry = refl

abbrev json_result : ExecResult
json_result = record {
  stdout = lit "COGCMD_ACTION: abort" ++ b'\n' ∷ lit "JSON" ++ b'\n' ∷ lit "COG_TEMPLATE: x";
  stderr = [];
  success = true;
}

abbrev reversed : List Matcher
reversed = json_re ∷ template_re ∷ action_re ∷ error_re ∷ err_re ∷ warn_re ∷ info_re ∷ debug_re ∷ []

reversed-IsComplete : IsComplete reversed
reversed-IsComplete json_re = inl refl
reversed-IsComplete template_re = inr (inl refl)
reversed-IsComplete action_re = inr (inr (inl refl))
reversed-IsComplete error_re = inr (inr (inr (inl refl)))
reversed-IsComplete err_re = inr (inr (inr (inr (inl refl))))
reversed-IsComplete warn_re = inr (inr (inr (inr (inr (inl refl)))))
reversed-IsComplete info_re = inr (inr (inr (inr (inr (inr (inl refl))))))
reversed-IsComplete debug_re = inr (inr (inr (inr (inr (inr (inr (inl refl)))))))

reversed_matchers :
    parse whole all_matchers json_result request none
    ≡ parse whole reversed json_result request none
reversed_matchers =
    parse_order all_matchers reversed all_matchers-IsComplete reversed-IsComplete whole json_result
      request none

scan_lines_lem_example :
    ((scan_lines all_matchers request (output_lines log_output) start_scan).resp
      ≡ respond_all (output_lines log_output) start_scan.resp)
    × ((scan_lines all_matchers request (output_lines log_output) start_scan).retained
        ≡ start_scan.retained ++ text_of (output_lines log_output))
scan_lines_lem_example =
    scan_lines_lem request (output_lines log_output) start_scan (unfold start_scan in refl)

parse-verdict_example :
    ((parse whole reversed json_result request none).0.status ≡ lit "abort")
    × ((parse whole reversed json_result request none).0.body
        ≡ json_body (str (lit "COG_TEMPLATE: x")))
unfolding join text_of respond_all start_scan output_lines split classify first_match find_submatch
    trim_suffix text_eq trim
parse-verdict_example = parse-verdict whole reversed reversed-IsComplete json_result request
