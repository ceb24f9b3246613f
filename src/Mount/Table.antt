-- ===== src/Mount/Table.antt =====
-- pkg/mount/libmount/filesystem.go and mount_table.go, but for the parsing of files.
-- The pointer from a filesystem to its table is kept as whether there is one.
use node_disk_manager.Base.{
  ℕ, String, Bool, true, false, not, ◌&&◌, ◌||◌, Option, none, some, List, [], ◌∷◌, ◌++◌, length,
  find_first, ◌==◌, eqb, if◌then◌else◌,
}

pub record Filesystem : Type 0 where
  pub has_tab : Bool
  pub id : ℕ
  pub source : String
  pub tag_name : String
  pub tag_value : String
  pub target : String
  pub fs_type : String
  pub vfs_opts : String
  pub fs_opts : String

abbrev pub FsFilter : Type 0
FsFilter = Filesystem → Bool

-- SourceFilter, TargetFilter, IDFilter, on a filesystem that is not nil
abbrev pub source_filter : String → FsFilter
source_filter source f = f.source == source

abbrev pub target_filter : String → FsFilter
target_filter target f = f.target == target

abbrev pub id_filter : ℕ → FsFilter
id_filter id f = eqb f.id id

pub record MountTab : Type 0 where
  pub entries : List Filesystem
  pub allow_filters : List FsFilter
  pub deny_filters : List FsFilter

abbrev pub empty_tab : MountTab
empty_tab = record { entries = []; allow_filters = []; deny_filters = [] }

pub data TableError : Type 0 where
  invalid_argument filesystem_busy denied_by_filters : TableError

-- acc = acc || filter(fs), over the filters
any_filter : Bool → List FsFilter → Filesystem → Bool
any_filter acc [] fs = acc
any_filter acc (filter ∷ filters) fs = any_filter (acc || filter fs) filters fs

unfoldable pub apply_filters : MountTab → Filesystem → Bool
unfolding any_filter
apply_filters mt fs =
    let is_denied = any_filter false mt.deny_filters fs in
    let is_allowed = any_filter (eqb (length mt.allow_filters) 0) mt.allow_filters fs in
    not is_denied && is_allowed

-- AddFilesystem: nil, a filesystem of some table, and one that the filters reject are refused.
unfoldable pub add_filesystem : MountTab → Option Filesystem → MountTab × Option TableError
add_filesystem mt none = (mt, some invalid_argument)
add_filesystem mt (some fs) =
    if fs.has_tab
    then (mt, some filesystem_busy)
    else if not (apply_filters mt fs)
    then (mt, some denied_by_filters)
    else (record mt { entries = mt.entries ++ (record fs { has_tab = true }) ∷ [] }, none)

-- res = res && filter(entry), over the filters
unfoldable pub all_filters : Bool → List FsFilter → Filesystem → Bool
all_filters res [] entry = res
all_filters res (filter ∷ filters) entry = all_filters (res && filter entry) filters entry

-- Find: nil without filters, or else the first entry that passes all of them
unfoldable pub find : List FsFilter → List Filesystem → Option Filesystem
unfolding all_filters
find [] entries = none
find (filter ∷ filters) entries = find_first (all_filters true (filter ∷ filters)) entries
