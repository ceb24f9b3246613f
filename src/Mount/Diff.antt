-- ===== src/Mount/Diff.antt =====
-- pkg/mount/libmount/mount_table_diff.go. GetOldFs and its like return copies of a field.
-- The entries are pointers in the source, which GenerateDiff writes through in one place: here the
-- first entry that getMountEntry finds is replaced in the list.
use node_disk_manager.Base.{
  ℕ, String, Bool, true, false, not, ◌&&◌, ◌||◌, Option, none, some, List, [], ◌∷◌, ◌++◌, ◌==◌, eqb,
  if◌then◌else◌,
}
use node_disk_manager.Mount.Table.{Filesystem, MountTab, source_filter, target_filter, find}

pub data MountAction : Type 0 where
  mount umount move remount : MountAction

-- MountTabDiffEntry
pub record DiffEntry : Type 0 where
  pub old_fs : Option Filesystem
  pub new_fs : Option Filesystem
  pub action : MountAction

abbrev pub MountTabDiff : Type 0
MountTabDiff = List DiffEntry

abbrev pub diff_entry : Option Filesystem → Option Filesystem → MountAction → DiffEntry
diff_entry old_fs new_fs action = record { old_fs = old_fs; new_fs = new_fs; action = action }

abbrev pub add_diff_entry :
    MountTabDiff → Option Filesystem → Option Filesystem → MountAction → MountTabDiff
add_diff_entry md old_fs new_fs action = md ++ diff_entry old_fs new_fs action ∷ []

abbrev pub is_mount : MountAction → Bool
is_mount mount = true
is_mount _ = false

-- the test of getMountEntry
unfoldable pub is_mount_of : String → ℕ → DiffEntry → Bool
is_mount_of source id entry =
    is_mount entry.action
    && elim entry.new_fs [ none ↦ false | some fs ↦ eqb fs.id id && fs.source == source ]

-- getMountEntry, and the two writes through the pointer that it returns; none where it is nil
unfoldable pub move_entry : Filesystem → MountTabDiff → Option MountTabDiff
unfolding is_mount_of
move_entry old_fs [] = none
move_entry old_fs (entry ∷ md) =
    if is_mount_of old_fs.source old_fs.id entry
    then some (record entry { old_fs = some old_fs; action = move } ∷ md)
    else elim (move_entry old_fs md) [ none ↦ none | some md' ↦ some (entry ∷ md') ]

-- Find(SourceFilter(fs.GetSource()), TargetFilter(fs.GetTarget()))
unfoldable pub counterpart : Filesystem → List Filesystem → Option Filesystem
unfolding find
counterpart fs entries = find (source_filter fs.source ∷ target_filter fs.target ∷ []) entries

abbrev pub options_differ : Filesystem → Filesystem → Bool
options_differ old_fs new_fs =
    not (old_fs.vfs_opts == new_fs.vfs_opts) || not (old_fs.fs_opts == new_fs.fs_opts)

-- the body of the loop over the new entries
unfoldable pub add_new : MountTabDiff → Filesystem → Option Filesystem → MountTabDiff
add_new md new_fs none = add_diff_entry md none (some new_fs) mount
add_new md new_fs (some old_fs) =
    if options_differ old_fs new_fs
    then add_diff_entry md (some old_fs) (some new_fs) remount
    else md

unfoldable pub new_loop : List Filesystem → MountTabDiff → List Filesystem → MountTabDiff
unfolding add_new
new_loop old_entries md [] = md
new_loop old_entries md (new_fs ∷ rest) =
    new_loop old_entries (add_new md new_fs (counterpart new_fs old_entries)) rest

-- the body of the loop over the old entries
unfoldable pub add_moved : MountTabDiff → Filesystem → Option MountTabDiff → MountTabDiff
add_moved md old_fs none = add_diff_entry md (some old_fs) none umount
add_moved md old_fs (some md') = md'

unfoldable pub add_old : MountTabDiff → Filesystem → Option Filesystem → MountTabDiff
unfolding add_moved
add_old md old_fs none = add_moved md old_fs (move_entry old_fs md)
add_old md old_fs (some new_fs) = md

unfoldable pub old_loop : List Filesystem → MountTabDiff → List Filesystem → MountTabDiff
unfolding add_old
old_loop new_entries md [] = md
old_loop new_entries md (old_fs ∷ rest) =
    old_loop new_entries (add_old md old_fs (counterpart old_fs new_entries)) rest

unfoldable pub all_mounted : MountTabDiff → List Filesystem → MountTabDiff
all_mounted md [] = md
all_mounted md (entry ∷ rest) = all_mounted (add_diff_entry md none (some entry) mount) rest

unfoldable pub all_umounted : MountTabDiff → List Filesystem → MountTabDiff
all_umounted md [] = md
all_umounted md (entry ∷ rest) = all_umounted (add_diff_entry md (some entry) none umount) rest

-- GenerateDiff on the entries of the two tables
unfoldable pub diff_entries : List Filesystem → List Filesystem → MountTabDiff
diff_entries [] [] = []
diff_entries [] (n ∷ ns) = all_mounted [] (n ∷ ns)
diff_entries (o ∷ os) [] = all_umounted [] (o ∷ os)
diff_entries (o ∷ os) (n ∷ ns) = old_loop (n ∷ ns) (new_loop (o ∷ os) [] (n ∷ ns)) (o ∷ os)

abbrev pub entries_of : Option MountTab → List Filesystem
entries_of none = []
entries_of (some tab) = tab.entries

unfoldable pub generate_diff : Option MountTab → Option MountTab → MountTabDiff
unfolding diff_entries all_mounted all_umounted
generate_diff old_tab new_tab = diff_entries (entries_of old_tab) (entries_of new_tab)
