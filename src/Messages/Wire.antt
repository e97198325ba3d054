-- ===== src/Messages/Wire.antt =====
-- The JSON of what the relay publishes: the tags of the structs in relay/messages/directives.go and
-- execution.go, by the rules of encoding/json. Values stand for the text that the encoder prints.
pub mod Reading
pub mod Schema
mod Tests
use go_relay.Base.{
  ℕ, ◌+◌, Bool, true, false, not, ◌&&◌, ◌==◌, List, [], ◌∷◌, Text, lit, text_eq, if◌then◌else◌,
}
use go_relay.Messages.Directives.{
  ListBundlesMessage, ListBundlesEnvelope, BundleRef, GetDynamicConfigs, GetDynamicConfigsEnvelope,
  Announcement, AnnouncementEnvelope,
}
use go_relay.Messages.Execution.{Body, no_body, body_lines, json_body, ExecutionResponse}
use go_relay.Messages.Value.{
  Value, Items, Fields, null, boolean, number, str, arr, obj, nil, cons, end, field,
}

-- A field of a struct: the key and the option of its tag, its value, and whether Go counts it as
-- empty.
pub record Member : Type 0 where
  pub key : Text
  pub omit_empty : Bool
  pub is_empty : Bool
  pub value : Value

abbrev pub is_nil {ℓ} : {A : Type ℓ} → List A → Bool
is_nil [] = true
is_nil (x ∷ xs) = false

abbrev pub member : Text → Value → Member
member key value = record { key = key; omit_empty = false; is_empty = false; value = value }

abbrev pub optional {ℓ} : {A : Type ℓ} → Text → List A → Value → Member
optional key content value = record {
  key = key;
  omit_empty = true;
  is_empty = is_nil content;
  value = value;
}

abbrev pub put : Member → Fields → Fields
put m fs = if m.omit_empty && m.is_empty then fs else field m.key m.value fs

abbrev pub occurrences : Text → List Member → ℕ
occurrences key [] = 0
occurrences key (m ∷ ms) = let n = occurrences key ms in if text_eq key m.key then 1 + n else n

-- Fields whose tags give them the same key are all left out.
abbrev pub marshal_members : List Member → List Member → Fields
marshal_members all [] = end
marshal_members all (m ∷ ms) =
    let fs = marshal_members all ms in if occurrences m.key all == 1 then put m fs else fs

abbrev pub marshal_struct : List Member → Value
marshal_struct ms = obj (marshal_members ms ms)

-- `utf8` is what the encoder does to a text: it replaces bytes that are no UTF-8.
module _ (utf8 : Text → Text) where
  unfoldable pub list_bundles_members : ListBundlesMessage → List Member
  list_bundles_members m =
      member (lit "relay_id") (str (utf8 m.relay_id))
      ∷ member (lit "reply_to") (str (utf8 m.reply_to))
      ∷ []

  unfoldable pub list_bundles_json : ListBundlesEnvelope → Value
  unfolding list_bundles_members
  list_bundles_json e =
      marshal_struct
        (member (lit "list_bundles") (marshal_struct (list_bundles_members e.list_bundles)) ∷ [])

  unfoldable pub get_dynamic_configs_members : GetDynamicConfigs → List Member
  get_dynamic_configs_members m =
      member (lit "relay_id") (str (utf8 m.relay_id))
      ∷ member (lit "config_hash") (str (utf8 m.signature))
      ∷ member (lit "reply_to") (str (utf8 m.reply_to))
      ∷ []

  unfoldable pub get_dynamic_configs_json : GetDynamicConfigsEnvelope → Value
  unfolding get_dynamic_configs_members
  get_dynamic_configs_json e = marshal_struct (
      member (lit "get_dynamic_configs")
        (marshal_struct (get_dynamic_configs_members e.get_dynamic_configs))
      ∷ [])

  unfoldable pub bundle_ref_members : BundleRef → List Member
  bundle_ref_members r =
      optional (lit "name") r.name (str (utf8 r.name))
      ∷ optional (lit "version") r.version (str (utf8 r.version))
      ∷ []

  unfoldable pub bundle_ref_items : List BundleRef → Items
  unfolding bundle_ref_members
  bundle_ref_items [] = nil
  bundle_ref_items (r ∷ rs) = cons (marshal_struct (bundle_ref_members r)) (bundle_ref_items rs)

  unfoldable pub announcement_members : Announcement → List Member
  announcement_members a =
      optional (lit "announcement_id") a.id (str (utf8 a.id))
      ∷ member (lit "relay") (str (utf8 a.relay_id))
      ∷ member (lit "online") (boolean a.online)
      ∷ optional (lit "bundles") a.bundles (arr (bundle_ref_items a.bundles))
      ∷ member (lit "snapshot") (boolean a.snapshot)
      ∷ optional (lit "reply_to") a.reply_to (str (utf8 a.reply_to))
      ∷ []

  unfoldable pub announcement_json : AnnouncementEnvelope → Value
  unfolding announcement_members
  announcement_json e =
      marshal_struct
        (member (lit "announce") (marshal_struct (announcement_members e.announcement)) ∷ [])

  abbrev pub line_items : List Text → Items
  line_items [] = nil
  line_items (l ∷ ls) = cons (str (utf8 l)) (line_items ls)

  -- The lines stand in a list of one map.
  abbrev pub body_json : Body → Value
  body_json no_body = null
  body_json (body_lines ls) = arr (cons (obj (field (lit "body") (arr (line_items ls)) end)) nil)
  body_json (json_body v) = v

  unfoldable pub execution_response_members : ExecutionResponse → List Member
  execution_response_members r =
      member (lit "room") (str (utf8 r.room))
      ∷ member (lit "bundle") (str (utf8 r.bundle))
      ∷ member (lit "status") (str (utf8 r.status))
      ∷ member (lit "status_message") (str (utf8 r.status_message))
      ∷ optional (lit "template") r.template (str (utf8 r.template))
      ∷ member (lit "body") (body_json r.body)
      ∷ member (lit "omit") (boolean r.is_json)
      ∷ member (lit "omit") (boolean r.aborted)
      ∷ []

  unfoldable pub execution_response_json : ExecutionResponse → Value
  unfolding execution_response_members
  execution_response_json r = marshal_struct (execution_response_members r)
