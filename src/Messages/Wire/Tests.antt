-- ===== src/Messages/Wire/Tests.antt =====
-- An announcement of one bundle without a version, and a reply.
use go_relay.Base.{◌≡◌, refl, true, false, [], ◌∷◌, lit, text_eq, Text}
use go_relay.Messages.Directives.{
  ListBundlesEnvelope, GetDynamicConfigsEnvelope, AnnouncementEnvelope,
}
use go_relay.Messages.Execution.{ExecutionResponse, body_lines}
use go_relay.Messages.Value.{boolean, str, arr, obj, nil, cons, end, field}
use go_relay.Messages.Wire.{
  list_bundles_json, get_dynamic_configs_json, bundle_ref_items, announcement_json,
  execution_response_json,
}
use go_relay.Messages.Wire.Schema.{
  Conforms, list_bundles_shape, get_dynamic_configs_shape, announcement_shape,
  execution_response_shape, published-Conforms,
}

abbrev bundles : ListBundlesEnvelope
bundles = record {
  list_bundles = record { relay_id = lit "r1"; reply_to = lit "bot/relays/r1/directives" };
}

abbrev configs : GetDynamicConfigsEnvelope
configs = record {
  get_dynamic_configs = record { relay_id = lit "r1"; signature = lit "ab"; reply_to = lit "t" };
}

abbrev announcement : AnnouncementEnvelope
announcement = record {
  announcement = record {
    id = lit "7";
    relay_id = lit "r1";
    online = true;
    bundles = record { name = lit "foo"; version = [] } ∷ [];
    snapshot = true;
    reply_to = [];
  };
}

abbrev response : ExecutionResponse
response = record {
  room = lit "ops";
  bundle = lit "foo";
  status = lit "ok";
  status_message = [];
  template = [];
  body = body_lines (lit "hi" ∷ []);
  is_json = false;
  aborted = true;
}

abbrev utf8 : Text → Text
utf8 t = t

announced :
    announcement_json utf8 announcement
    ≡ obj (
        field
          (lit "announce")
          (obj (
            field (lit "announcement_id") (str (lit "7")) (
              field (lit "relay") (str (lit "r1")) (
                field (lit "online") (boolean true) (
                  field
                    (lit "bundles")
                    (arr (cons (obj (field (lit "name") (str (lit "foo")) end)) nil))
                    (field (lit "snapshot") (boolean true) end))))))
          end)
unfolding announcement_json bundle_ref_items text_eq
announced = refl

published-Conforms_example :
    Conforms list_bundles_shape (list_bundles_json utf8 bundles)
    × Conforms get_dynamic_configs_shape (get_dynamic_configs_json utf8 configs)
    × Conforms announcement_shape (announcement_json utf8 announcement)
    × Conforms (execution_response_shape response.body) (execution_response_json utf8 response)
published-Conforms_example = published-Conforms utf8 bundles configs announcement response
