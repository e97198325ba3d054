-- ===== src/Updater/Tests.antt =====
-- One update of one bundle on a disk with an older configuration.
use go_relay.Base.{
  if◌then◌else◌, not, ◌&&◌, ok, ◌≡◌, refl, inl, true, false, Option, some, List, [], ◌∷◌, Text, lit,
  text_eq, Table, lookup, insert, erase, join, has_prefix, has_suffix, to_lower,
}
use go_relay.Messages.Directives.{DynamicConfig, DynamicConfigsResponseEnvelope}
use go_relay.Updater.{
  Node, link, Disk, mkdir_all, write_file, symlink, rename, update_configs, config_file_name,
}
use go_relay.Updater.Atomic.{update_configs_atomic, update_configs_blocked}
use go_relay.Updater.Session.{
  DynamicConfigUpdater, new_dynamic_config_updater, run, is_panic, run_panics, Event, fires,
  receives, reconnects, halts, on_events,
}
use go_relay.Updater.Running.{Ends, any_fails, halted_after, IsEquipped, on_events-IsEquipped}
use go_relay.Updater.Current.{IsCurrent, updates, updates-IsCurrent}

-- Paths that start in the managed one's parent are cleaned.
abbrev join_path : List Text → Text
join_path (a ∷ b ∷ ps) =
    if text_eq b (lit "..") then join b'/' (lit "/c" ∷ ps) else join b'/' (a ∷ b ∷ ps)
join_path ps = join b'/' ps

abbrev marshal : Text → Option Text
marshal t = some t

abbrev root : Text
root = lit "/c/m"

abbrev base_layer : DynamicConfig Text
base_layer = record { layer = lit "Base"; name = []; config = lit "A: 1" }

abbrev configs : Table (List (DynamicConfig Text))
configs = (lit "foo", base_layer ∷ []) ∷ []

abbrev disk : Disk
disk = record { nodes = (root, link (lit "/c/s1")) ∷ []; faults = [] }

abbrev full_disk : Disk
full_disk = record disk { faults = false ∷ false ∷ false ∷ true ∷ [] }

update_configs_atomic_example :
    lookup root (update_configs join_path marshal root (lit "s2") configs disk).1.nodes
    ≡ some (link (lit "/c/s2"))
unfolding update_configs config_file_name mkdir_all write_file symlink rename join text_eq lookup
    insert erase to_lower
update_configs_atomic_example =
    update_configs_atomic join_path marshal root (lit "s2") configs disk
      (refl, (refl, (refl, tt), tt)) refl

failed_write :
    lookup root (update_configs join_path marshal root (lit "s2") configs full_disk).1.nodes
    ≡ some (link (lit "/c/s1"))
unfolding update_configs config_file_name mkdir_all write_file symlink rename join text_eq lookup
    insert erase to_lower
failed_write = refl

abbrev stale_disk : Disk
stale_disk = record { nodes = (lit "/c/new", link (lit "/c/s1")) ∷ []; faults = [] }

stale_link :
    ((update_configs join_path marshal root (lit "s2") configs stale_disk).0 ≡ false)
    × (lookup
          (lit "/c/new")
          (update_configs join_path marshal root (lit "s2") configs stale_disk).1.nodes
        ≡ some (link (lit "/c/s1")))
unfolding config_file_name join text_eq lookup to_lower
stale_link =
    update_configs_blocked join_path marshal root (lit "s2") configs stale_disk (link (lit "/c/s1"))
      (refl, (refl, (refl, tt), tt)) refl

abbrev envelope : DynamicConfigsResponseEnvelope Text
envelope = record { signature = lit "s2"; changed = true; configs = configs }

abbrev glob : Table Node → List Text
glob m = root ∷ lit "/c/s1" ∷ lit "/c/s2" ∷ []

updates-IsCurrent_example :
    IsCurrent join_path marshal glob root
      (updates join_path marshal glob root (envelope ∷ []) ([], disk))
unfolding config_file_name join text_eq to_lower has_prefix has_suffix
updates-IsCurrent_example =
    updates-IsCurrent join_path marshal glob root (λ m. (refl, (refl, (refl, tt)))) refl
      (envelope ∷ []) ([], disk)
      (((refl, (refl, (refl, tt), tt)), refl, (λ m. (refl, (refl, (refl, tt))))), tt) (inl refl)

early_run :
    is_panic (run true false (new_dynamic_config_updater (lit "r1") root disk))
    ≡ not (true && false)
early_run = run_panics (lit "r1") root disk true false

abbrev running : DynamicConfigUpdater
running = record (new_dynamic_config_updater (lit "r1") root disk) {
  conn = true;
  refresh_timer = some true;
}

abbrev events : List (Event Text)
events = fires true ∷ receives envelope ∷ reconnects (ok tt) ∷ fires false ∷ halts ∷ []

on_events-IsEquipped_example :
    Ends
      (any_fails events)
      (IsEquipped (lit "r1") (lit "bot/relays/r1/dynconfigs") (halted_after events false))
      (on_events join_path marshal glob events running)
unfolding new_dynamic_config_updater
on_events-IsEquipped_example =
    on_events-IsEquipped join_path marshal glob (lit "r1") (lit "bot/relays/r1/dynconfigs") events
      false running
      (record {
        has_disconnected = refl;
        connected = refl;
        own_id = refl;
        own_topic = refl;
        timer = (true, refl);
        own_requests = tt;
      })
