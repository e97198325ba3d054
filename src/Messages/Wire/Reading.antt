-- ===== src/Messages/Wire/Reading.antt =====
-- Reading what the relay has published by the keys of the protocol.
use go_relay.Base.{◌≡◌, Bool, false, List, [], ◌∷◌, Text, lit, text_eq, if◌then◌else◌}
use go_relay.Messages.Directives.{
  ListBundlesEnvelope, BundleRef, GetDynamicConfigsEnvelope, Announcement, AnnouncementEnvelope,
}
use go_relay.Messages.Execution.{Body, no_body, body_lines, json_body}
use go_relay.Messages.Value.{
  Value, Items, Fields, null, boolean, str, arr, obj, nil, cons, end, field,
}

abbrev get_from : Text → Fields → Value
get_from key end = null
get_from key (field k v fs) = if text_eq key k then v else get_from key fs

-- The value of a key, which is null where the key is missing.
abbrev pub get : Text → Value → Value
get key (obj fs) = get_from key fs
get key _ = null

abbrev pub text_of : Value → Text
text_of (str t) = t
text_of _ = []

abbrev pub flag_of : Value → Bool
flag_of (boolean b) = b
flag_of _ = false

abbrev pub refs_of_items : Items → List BundleRef
refs_of_items nil = []
refs_of_items (cons v xs) =
    record { name = text_of (get (lit "name") v); version = text_of (get (lit "version") v) }
    ∷ refs_of_items xs

abbrev pub refs_of : Value → List BundleRef
refs_of (arr xs) = refs_of_items xs
refs_of _ = []

abbrev pub read_list_bundles : Value → ListBundlesEnvelope
read_list_bundles v =
    let m = get (lit "list_bundles") v in
    record {
      list_bundles = record {
        relay_id = text_of (get (lit "relay_id") m);
        reply_to = text_of (get (lit "reply_to") m);
      };
    }

abbrev pub read_get_dynamic_configs : Value → GetDynamicConfigsEnvelope
read_get_dynamic_configs v =
    let m = get (lit "get_dynamic_configs") v in
    record {
      get_dynamic_configs = record {
        relay_id = text_of (get (lit "relay_id") m);
        signature = text_of (get (lit "config_hash") m);
        reply_to = text_of (get (lit "reply_to") m);
      };
    }

abbrev pub read_announcement : Value → AnnouncementEnvelope
read_announcement v =
    let m = get (lit "announce") v in
    record {
      announcement = record {
        id = text_of (get (lit "announcement_id") m);
        relay_id = text_of (get (lit "relay") m);
        online = flag_of (get (lit "online") m);
        bundles = refs_of (get (lit "bundles") m);
        snapshot = flag_of (get (lit "snapshot") m);
        reply_to = text_of (get (lit "reply_to") m);
      };
    }

abbrev pub lines_of_items : Items → List Text
lines_of_items nil = []
lines_of_items (cons v xs) = text_of v ∷ lines_of_items xs

abbrev pub lines_of : Value → List Text
lines_of (arr xs) = lines_of_items xs
lines_of _ = []

-- The map with a text's lines, in a list of its own.
abbrev pub first_of : Value → Value
first_of (arr (cons v xs)) = v
first_of _ = null

-- The reply's texts; the tags leave the two flags out.
pub record Reply : Type 0 where
  pub room : Text
  pub bundle : Text
  pub status : Text
  pub status_message : Text
  pub template : Text

abbrev pub read_reply : Value → Reply
read_reply v = record {
  room = text_of (get (lit "room") v);
  bundle = text_of (get (lit "bundle") v);
  status = text_of (get (lit "status") v);
  status_message = text_of (get (lit "status_message") v);
  template = text_of (get (lit "template") v);
}

module _ (utf8 : Text → Text) where
  abbrev pub clean_texts : List Text → List Text
  clean_texts [] = []
  clean_texts (t ∷ ts) = utf8 t ∷ clean_texts ts

  -- The body of the reply by its kind: null, the lines, or the decoded value as it is.
  abbrev pub ReadsBody : Body → Value → Type 0
  ReadsBody no_body v = v ≡ null
  ReadsBody (body_lines ls) v = lines_of (get (lit "body") (first_of v)) ≡ clean_texts ls
  ReadsBody (json_body w) v = v ≡ w

  abbrev pub clean_refs : List BundleRef → List BundleRef
  clean_refs [] = []
  clean_refs (r ∷ rs) = record { name = utf8 r.name; version = utf8 r.version } ∷ clean_refs rs

  abbrev pub clean_announcement : Announcement → Announcement
  clean_announcement a = record {
    id = utf8 a.id;
    relay_id = utf8 a.relay_id;
    online = a.online;
    bundles = clean_refs a.bundles;
    snapshot = a.snapshot;
    reply_to = utf8 a.reply_to;
  }
