-- ===== src/Messages/Execution/Tests.antt =====
-- Names of requests.
use go_relay.Base.{◌≡◌, refl, [], Text, lit, ok, panic}
use go_relay.Messages.Value.{null}
use go_relay.Messages.Execution.{ExecutionRequest, parse}
use go_relay.Messages.Execution.Names.{parse_names, parse_no_colon}

abbrev request : Text → ExecutionRequest
request command = record {
  options = [];
  args = [];
  cog_env = null;
  invocation_id = [];
  invocation_step = [];
  command = command;
  reply_to = lit "/bot/pipelines/123456/reply";
  requestor = record { id = null; handle = []; provider = [] };
  user = record { id = []; email = []; first_name = []; last_name = []; username = [] };
  room = record { name = [] };
  service_token = [];
  services_root = [];
  bundle_name = [];
  command_name = [];
  pipeline_id = [];
}

parse_names_example :
    parse (request (lit "foo:bar"))
    ≡ ok (record (request (lit "foo:bar")) {
      bundle_name = lit "foo";
      command_name = lit "bar";
      pipeline_id = lit "123456";
    })
parse_names_example =
    parse_names (request (lit "foo:bar")) (lit "foo") (lit "bar") [] (lit "bot") (lit "pipelines")
      (lit "123456") (lit "reply") (refl, (refl, (refl, tt))) tt (refl, (refl, (refl, tt)))
      (refl, (refl, (refl, (refl, (refl, (refl, (refl, (refl, (refl, tt)))))))))
      (refl, (refl, (refl, (refl, (refl, (refl, tt)))))) refl refl

parse_no_colon_foo : parse (request (lit "foo")) ≡ panic
parse_no_colon_foo = parse_no_colon (request (lit "foo")) (refl, (refl, (refl, tt)))
