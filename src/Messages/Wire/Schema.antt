-- ===== src/Messages/Wire/Schema.antt =====
-- The shape of the messages of the protocol, and that what the relay publishes has it.
use go_relay.Base.{Bool, true, false, List, [], ◌∷◌, Text, lit, text_eq, if◌then◌else◌}
use go_relay.Messages.Directives.{
  ListBundlesEnvelope, BundleRef, GetDynamicConfigsEnvelope, Announcement, AnnouncementEnvelope,
}
use go_relay.Messages.Execution.{Body, no_body, body_lines, json_body, ExecutionResponse}
use go_relay.Messages.Value.{
  Value, Items, Fields, null, boolean, str, arr, obj, nil, cons, end, field,
}
use go_relay.Messages.Wire.{
  is_nil, line_items, body_json, optional, put, list_bundles_json, get_dynamic_configs_json,
  bundle_ref_members, bundle_ref_items, announcement_json, execution_response_json,
}

-- A rule is a key with the shape of its value; a message holds the keys in the order of the rules,
-- each once and no others.
mutual
  pub data Shape : Type 0 where
    text flag nothing anything : Shape
    many : Shape → Shape
    message : Rules → Shape

  pub data Rules : Type 0 where
    done : Rules
    required_key optional_key : Text → Shape → Rules → Rules

mutual
  pub data Conforms : Shape → Value → Type 0 where
    is_text : (t : Text) → Conforms text (str t)
    is_flag : (b : Bool) → Conforms flag (boolean b)
    is_nothing : Conforms nothing null
    is_anything : (v : Value) → Conforms anything v
    is_many : {s : Shape} {xs : Items} → AllConform s xs → Conforms (many s) (arr xs)
    is_message : {rs : Rules} {fs : Fields} → Follows rs fs → Conforms (message rs) (obj fs)

  pub data AllConform : Shape → Items → Type 0 where
    no_items : {s : Shape} → AllConform s nil
    item :
        {s : Shape} {v : Value} {xs : Items}
        → Conforms s v
        → AllConform s xs
        → AllConform s (cons v xs)

  pub data Follows : Rules → Fields → Type 0 where
    all_done : Follows done end
    has_required :
        {key : Text} {s : Shape} {rs : Rules} {v : Value} {fs : Fields}
        → Conforms s v
        → Follows rs fs
        → Follows (required_key key s rs) (field key v fs)
    has_optional :
        {key : Text} {s : Shape} {rs : Rules} {v : Value} {fs : Fields}
        → Conforms s v
        → Follows rs fs
        → Follows (optional_key key s rs) (field key v fs)
    lacks_optional :
        {key : Text} {s : Shape} {rs : Rules} {fs : Fields}
        → Follows rs fs
        → Follows (optional_key key s rs) fs

abbrev pub list_bundles_shape : Shape
list_bundles_shape = message (
    required_key (lit "list_bundles")
      (message (required_key (lit "relay_id") text (required_key (lit "reply_to") text done))) done)

abbrev pub get_dynamic_configs_shape : Shape
get_dynamic_configs_shape = message (
    required_key (lit "get_dynamic_configs")
      (message (
        required_key (lit "relay_id") text
          (required_key (lit "config_hash") text (required_key (lit "reply_to") text done))))
      done)

abbrev pub bundle_ref_shape : Shape
bundle_ref_shape = message (optional_key (lit "name") text (optional_key (lit "version") text done))

abbrev pub announcement_shape : Shape
announcement_shape = message (
    required_key (lit "announce")
      (message (
        optional_key (lit "announcement_id") text (
          required_key (lit "relay") text (
            required_key (lit "online") flag (
              optional_key (lit "bundles") (many bundle_ref_shape)
                (required_key (lit "snapshot") flag (optional_key (lit "reply_to") text done)))))))
      done)

-- A body is null, a list of a map with the lines, or the command's own JSON.
abbrev pub body_shape : Body → Shape
body_shape no_body = nothing
body_shape (body_lines ls) = many (message (required_key (lit "body") (many text) done))
body_shape (json_body v) = anything

abbrev pub execution_response_shape : Body → Shape
execution_response_shape body = message (
    required_key (lit "room") text (
      required_key (lit "bundle") text (
        required_key (lit "status") text (
          required_key (lit "status_message") text (
            optional_key (lit "template") text
              (required_key (lit "body") (body_shape body) done))))))

put-Follows {ℓ} :
    {A : Type ℓ} (content : List A) {key : Text} {s : Shape} {rs : Rules} (v : Value) {fs : Fields}
    → Conforms s v
    → Follows rs fs
    → Follows (optional_key key s rs) (put (optional key content v) fs)
put-Follows content {key} {s} {rs} v {fs} c h = by_test (is_nil content)
  where
    by_test : (b : Bool) → Follows (optional_key key s rs) (if b then fs else field key v fs)
    by_test true = lacks_optional h
    by_test false = has_optional c h

module _ (utf8 : Text → Text) where
  line_items-AllConform : (ls : List Text) → AllConform text (line_items utf8 ls)
  line_items-AllConform [] = no_items
  line_items-AllConform (l ∷ ls) = item (is_text (utf8 l)) (line_items-AllConform ls)

  body_json-Conforms : (b : Body) → Conforms (body_shape b) (body_json utf8 b)
  body_json-Conforms no_body = is_nothing
  body_json-Conforms (body_lines ls) =
      is_many
        (item (is_message (has_required (is_many (line_items-AllConform ls)) all_done)) no_items)
  body_json-Conforms (json_body v) = is_anything v

  bundle_ref_items-AllConform :
      (rs : List BundleRef) → AllConform bundle_ref_shape (bundle_ref_items utf8 rs)
  unfolding bundle_ref_items bundle_ref_members text_eq
  bundle_ref_items-AllConform [] = no_items
  bundle_ref_items-AllConform (r ∷ rs) =
      item
        (is_message
          (put-Follows r.name _ (is_text _) (put-Follows r.version _ (is_text _) all_done)))
        (bundle_ref_items-AllConform rs)

  -- Whatever the relay publishes has the shape of its kind of message: each message holds its required keys,
  -- of its optional keys some, each key once and in this order, with values of the right kind, and no
  -- other keys. So the flags of a reply never leave the relay.
  pub published-Conforms :
      (bundles : ListBundlesEnvelope) (configs : GetDynamicConfigsEnvelope)
      (announcement : AnnouncementEnvelope) (response : ExecutionResponse)
      → Conforms list_bundles_shape (list_bundles_json utf8 bundles)
        × Conforms get_dynamic_configs_shape (get_dynamic_configs_json utf8 configs)
        × Conforms announcement_shape (announcement_json utf8 announcement)
        × Conforms (execution_response_shape response.body) (execution_response_json utf8 response)
  unfolding list_bundles_json get_dynamic_configs_json announcement_json execution_response_json
      text_eq
  published-Conforms bundles configs announcement response = (
    is_message (
        has_required (is_message (has_required (is_text _) (has_required (is_text _) all_done)))
          all_done),
    is_message (
        has_required
          (is_message (
            has_required (is_text _)
              (has_required (is_text _) (has_required (is_text _) all_done))))
          all_done),
    is_message (
        has_required
          (is_message (
            put-Follows a.id _ (is_text _) (
              has_required (is_text _) (
                has_required (is_flag _) (
                  put-Follows a.bundles _ (is_many (bundle_ref_items-AllConform a.bundles))
                    (has_required (is_flag _) (put-Follows a.reply_to _ (is_text _) all_done)))))))
          all_done),
    is_message (
        has_required (is_text _) (
          has_required (is_text _) (
            has_required (is_text _) (
              has_required (is_text _) (
                put-Follows response.template _ (is_text _)
                  (has_required (body_json-Conforms response.body) all_done)))))),
  )
    where
      a : Announcement
      a = announcement.announcement
