-- ===== src/Updater/Files.antt =====
-- The calls of package os that relay/dynamic_config.go makes, on a file system that is a map from
-- cleaned paths to what stands there. Directories on the way to a path are not tracked. Any call may
-- fail: `faults` tells for the calls to come which ones do, and a failed write leaves an empty file.
use go_relay.Base.{
  Bool, true, false, ◌||◌, Option, none, some, List, [], ◌∷◌, ◌++◌, Text, lit, text_eq, has_prefix,
  Table, lookup, insert, erase, if◌then◌else◌,
}

pub data Node : Type 0 where
  dir : Node
  file : Text → Node
  link : Text → Node

pub record Disk : Type 0 where
  pub nodes : Table Node
  pub faults : List Bool

-- Whether the next call fails, and the calls behind it.
abbrev pub next_fault : List Bool → Bool
next_fault [] = false
next_fault (b ∷ bs) = b

abbrev pub later_faults : List Bool → List Bool
later_faults [] = []
later_faults (b ∷ bs) = bs

-- A call: whether it returned no error, and the file system afterwards.
abbrev pub guarded : Table Node → Bool × Table Node → Disk → Bool × Disk
guarded broken called d =
    let (done, nodes) = if next_fault d.faults then (false, broken) else called in
    (done, record { nodes = nodes; faults = later_faults d.faults })

-- os.Lstat: `none` for an error other than a missing file.
abbrev pub lstat : Text → Disk → Option (Option Node) × Disk
lstat path d = (
  if next_fault d.faults then none else some (lookup path d.nodes),
  record { nodes = d.nodes; faults = later_faults d.faults },
)

abbrev pub is_dir : Option Node → Bool
is_dir (some dir) = true
is_dir _ = false

-- os.MkdirAll, which follows a link.
abbrev pub mkdir_at : Text → Option Node → Table Node → Bool × Table Node
mkdir_at path none m = (true, insert path dir m)
mkdir_at path (some dir) m = (true, m)
mkdir_at path (some (file content)) m = (false, m)
mkdir_at path (some (link target)) m = (is_dir (lookup target m), m)

unfoldable pub mkdir_all : Text → Disk → Bool × Disk
mkdir_all path d = guarded d.nodes (mkdir_at path (lookup path d.nodes) d.nodes) d

-- ioutil.WriteFile, to a path where no link stands.
abbrev pub write_at : Text → Text → Option Node → Table Node → Bool × Table Node
write_at path content none m = (true, insert path (file content) m)
write_at path content (some dir) m = (false, m)
write_at path content (some (file old)) m = (true, insert path (file content) m)
write_at path content (some (link target)) m = (false, m)

unfoldable pub write_file : Text → Text → Disk → Bool × Disk
write_file path content d =
    guarded (insert path (file []) d.nodes) (write_at path content (lookup path d.nodes) d.nodes) d

-- os.Symlink
abbrev pub symlink_at : Text → Text → Option Node → Table Node → Bool × Table Node
symlink_at target path none m = (true, insert path (link target) m)
symlink_at target path (some n) m = (false, m)

unfoldable pub symlink : Text → Text → Disk → Bool × Disk
symlink target path d = guarded d.nodes (symlink_at target path (lookup path d.nodes) d.nodes) d

-- os.Rename of a link.
abbrev pub rename_at : Text → Text → Option Node → Option Node → Table Node → Bool × Table Node
rename_at from to none old m = (false, m)
rename_at from to (some n) (some dir) m = (false, m)
rename_at from to (some n) old m = (true, insert to n (erase from m))

unfoldable pub rename : Text → Text → Disk → Bool × Disk
rename from to d =
    guarded d.nodes (rename_at from to (lookup from d.nodes) (lookup to d.nodes) d.nodes) d

-- os.RemoveAll: the path and everything below it.
unfoldable pub remove_all : Text → Table Node → Table Node
remove_all path [] = []
remove_all path ((p, n) ∷ m) =
    let rest = remove_all path m in
    if text_eq p path || has_prefix p (path ++ lit "/") then rest else (p, n) ∷ rest
