-- ===== src/Messages/Directives.antt =====
-- relay/messages/directives.go and helpers.go. The JSON of what the relay sends is in Messages.Wire.
use go_relay.Base.{Bool, true, false, List, [], ◌∷◌, Text, lit, Table, Outcome, err, ◌>>=◌}
use go_relay.Config.Bundle.{Bundle}

pub record ListBundlesMessage : Type 0 where
  pub relay_id : Text
  pub reply_to : Text

pub record ListBundlesEnvelope : Type 0 where
  pub list_bundles : ListBundlesMessage

pub record BundleSpec : Type 0 where
  pub config_file : Bundle

pub record ListBundlesResponseEnvelope : Type 0 where
  pub bundles : List BundleSpec

pub record BundleRef : Type 0 where
  pub name : Text
  pub version : Text

pub record GetDynamicConfigs : Type 0 where
  pub relay_id : Text
  pub signature : Text
  pub reply_to : Text

pub record GetDynamicConfigsEnvelope : Type 0 where
  pub get_dynamic_configs : GetDynamicConfigs

-- One layer of a bundle's dynamic configuration; its contents are of any type.
pub record DynamicConfig (C : Type 0) : Type 0 where
  pub layer : Text
  pub name : Text
  pub config : C

pub record DynamicConfigsResponseEnvelope (C : Type 0) : Type 0 where
  pub signature : Text
  pub changed : Bool
  pub configs : Table (List (DynamicConfig C))

pub record Announcement : Type 0 where
  pub id : Text
  pub relay_id : Text
  pub online : Bool
  pub bundles : List BundleRef
  pub snapshot : Bool
  pub reply_to : Text

pub record AnnouncementEnvelope : Type 0 where
  pub announcement : Announcement

pub record AnnouncementReceipt : Type 0 where
  pub id : Text
  pub status : Text

unfoldable pub new_offline_announcement : Text → Text → Announcement
new_offline_announcement relay_id reply_to = record {
  id = lit "0";
  relay_id = relay_id;
  online = false;
  bundles = [];
  snapshot = true;
  reply_to = reply_to;
}

unfoldable pub bundle_refs : List Bundle → List BundleRef
bundle_refs [] = []
bundle_refs (b ∷ bs) = record { name = b.name; version = b.version } ∷ bundle_refs bs

unfoldable pub new_bundle_announcement_extended : Text → List Bundle → Text → Text → Announcement
unfolding bundle_refs
new_bundle_announcement_extended relay_id bundles reply_to id = record {
  id = id;
  relay_id = relay_id;
  online = true;
  bundles = bundle_refs bundles;
  snapshot = true;
  reply_to = reply_to;
}

-- `has_bundles` is the untyped decoding of the payload and the test for its key "bundles";
-- `decode` is the typed decoding.
module _ (has_bundles : Text → Outcome Bool)
    (decode : Text → Outcome ListBundlesResponseEnvelope) where
  unfoldable pub parse_untyped_directive : Text → Outcome ListBundlesResponseEnvelope
  parse_untyped_directive payload = do
    present ← has_bundles payload
    elim present [ true ↦ decode payload | false ↦ err (lit "Unknown message type") ]
