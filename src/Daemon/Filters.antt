-- ===== src/Daemon/Filters.antt =====
-- cmd/ndm_daemonset/controller/filter.go and cmd/ndm_daemonset/filter: which devices the daemon goes
-- on with. A filter is modelled as it is after its Start, which fills the lists; a filter that is not
-- enabled is never asked. Go's tables of letters (strings.ToLower and strings.EqualFold), its regular
-- expressions and the devices of the excluded mount points (GetDiskPath) are parameters.
pub mod Validity
mod Tests
use node_disk_manager.Base.{
  ℕ, String, Bool, true, false, not, ◌&&◌, ◌||◌, ◌==◌, eqb, Option, none, some, List, [], ◌∷◌, ◌++◌,
  ◌^^◌, keep, contains, contains_text, split, find_first, if◌then◌else◌,
}
use node_disk_manager.Features.Gates.{check_truthy}
use node_disk_manager.Daemon.{LocalDevice, DevLink, partition_type, device_mapper_device_types}

-- FilterInterface, with the state of the filter
pub record Filter : Type 0 where
  pub state : Bool
  pub includes : LocalDevice → Bool
  pub excludes : LocalDevice → Bool

pub record FilterConfig : Type 0 where
  pub key : String
  pub state : String
  pub included : String
  pub excluded : String

-- ListFilter
unfoldable pub list_filter : List Filter → List Filter
list_filter filters = keep (λ filter. filter.state) filters

-- the loop of ApplyFilter over the active filters
unfoldable pub all_pass : List Filter → LocalDevice → Bool
all_pass [] bd = true
all_pass (filter ∷ filters) bd =
    let rest = all_pass filters bd in
    if not (filter.includes bd && filter.excludes bd) then false else rest

-- ApplyFilter
unfoldable pub apply_filter : List Filter → LocalDevice → Bool
apply_filter filters bd = all_pass (list_filter filters) bd

-- the validations of the device validity filter
abbrev pub is_dm_device : LocalDevice → Bool
is_dm_device bd = contains device_mapper_device_types bd.device_attributes.device_type

unfoldable pub is_valid_dev_path : LocalDevice → Bool
is_valid_dev_path bd = not (bd.dev_path == "")

unfoldable pub is_valid_capacity : LocalDevice → Bool
is_valid_capacity bd = not (eqb bd.storage 0)

unfoldable pub is_valid_partition : LocalDevice → Bool
is_valid_partition bd = not (
    bd.device_attributes.device_type == partition_type
    && bd.partition_info.partition_entry_uuid == "")

unfoldable pub is_valid_dm_device : LocalDevice → Bool
is_valid_dm_device bd = not (is_dm_device bd && bd.dm_info.dm_uuid == "")

-- the device validity filter, which cannot be configured
unfoldable pub is_valid_device : LocalDevice → Bool
is_valid_device bd =
    is_valid_dev_path bd && is_valid_capacity bd && is_valid_dm_device bd && is_valid_partition bd

abbrev pub device_validity_filter : Filter
device_validity_filter = record { state = true; includes = λ _. true; excludes = is_valid_device }

-- strings.Split(s, ","), where an empty text gives no parts
abbrev pub parts_of : String → List String
parts_of s = if s == "" then [] else split b',' s

-- the first configuration with a key
abbrev pub config_of : String → List FilterConfig → Option FilterConfig
config_of key configs = find_first (λ config. config.key == key) configs

-- What the filters take from Go's library and from the operating system.
pub record Library : Type 0 where
  pub to_lower : String → String
  pub equal_fold : String → String → Bool
  pub is_match_regex : String → String → Bool
  pub disk_path_of : String → Option String

module _ (lib : Library) where
  -- ContainsIgnoredCase
  unfoldable pub contains_ignored_case : List String → String → Bool
  contains_ignored_case [] k = false
  contains_ignored_case (e ∷ s) k =
      let rest = contains_ignored_case s k in if lib.equal_fold e k then true else rest

  -- MatchIgnoredCase
  unfoldable pub match_ignored_case : List String → String → Bool
  match_ignored_case [] s = false
  match_ignored_case (k ∷ keys) s =
      let rest = match_ignored_case keys s in
      if contains_text (lib.to_lower s) (lib.to_lower k) then true else rest

  -- the vendor filter: Include, Exclude, and Start with the registration
  unfoldable pub vendor_included : List String → LocalDevice → Bool
  vendor_included [] bd = true
  vendor_included (vendor ∷ vendors) bd =
      contains_ignored_case (vendor ∷ vendors) bd.device_attributes.vendor

  unfoldable pub vendor_not_excluded : List String → LocalDevice → Bool
  vendor_not_excluded [] bd = true
  vendor_not_excluded (vendor ∷ vendors) bd =
      not (contains_ignored_case (vendor ∷ vendors) bd.device_attributes.vendor)

  abbrev vendor_filter_with : Bool → String → String → Filter
  vendor_filter_with state included excluded = record {
    state = state;
    includes = vendor_included (parts_of included);
    excludes = vendor_not_excluded ("OpenEBS" ∷ parts_of excluded);
  }

  unfoldable pub vendor_filter : List FilterConfig → Filter
  vendor_filter configs = elim (config_of "vendor-filter" configs) [
    | none ↦ vendor_filter_with true "" ""
    | some config ↦ vendor_filter_with (check_truthy config.state) config.included config.excluded
  ]

  -- the loops over the links in the path filter
  unfoldable pub has_part : List String → List String → Bool
  has_part paths [] = false
  has_part paths (symlink ∷ links) =
      let rest = has_part paths links in if contains paths symlink then true else rest

  unfoldable pub has_symlink : List String → List DevLink → Bool
  unfolding has_part
  has_symlink paths [] = false
  has_symlink paths (link ∷ links) =
      let rest = has_symlink paths links in
      if link.kind == "symlink" && has_part paths link.links then true else rest

  -- a path of the device matches: the mapper's, its own, or a link
  unfoldable pub matches_path : List String → LocalDevice → Bool
  matches_path paths bd =
      (is_dm_device bd && match_ignored_case paths bd.dm_info.dev_mapper_path)
      || match_ignored_case paths bd.dev_path
      || has_symlink paths bd.dev_links

  unfoldable pub path_included : List String → LocalDevice → Bool
  path_included [] bd = true
  path_included (path ∷ paths) bd = matches_path (path ∷ paths) bd

  unfoldable pub path_not_excluded : List String → LocalDevice → Bool
  path_not_excluded [] bd = true
  path_not_excluded (path ∷ paths) bd = not (matches_path (path ∷ paths) bd)

  abbrev path_filter_with : Bool → String → String → Filter
  path_filter_with state included excluded = record {
    state = state;
    includes = path_included (parts_of included);
    excludes = path_not_excluded (parts_of excluded);
  }

  unfoldable pub path_filter : List FilterConfig → Filter
  path_filter configs = elim (config_of "path-filter" configs) [
    | none ↦ path_filter_with true "" "loop"
    | some config ↦ path_filter_with (check_truthy config.state) config.included config.excluded
  ]

  -- the filter of the operating system's disks: Start collects the devices of the mount points
  unfoldable pub excluded_dev_paths : List String → List String
  excluded_dev_paths [] = []
  excluded_dev_paths (mount_point ∷ mount_points) =
      let rest = excluded_dev_paths mount_points in
      elim (lib.disk_path_of mount_point) [ none ↦ rest | some path ↦ path ∷ rest ]

  unfoldable pub partition_regex : String → String
  partition_regex path = if lib.is_match_regex ".+[0-9]+$" path then "(p[0-9]+)?$" else "[0-9]*$"

  unfoldable pub os_not_excluded : List String → LocalDevice → Bool
  os_not_excluded [] bd = true
  os_not_excluded (path ∷ paths) bd =
      let rest = os_not_excluded paths bd in
      if lib.is_match_regex ("^" ^^ path ^^ partition_regex path) bd.dev_path then false else rest

  abbrev os_filter_with : Bool → List String → Filter
  os_filter_with state mount_points = record {
    state = state;
    includes = λ _. true;
    excludes = os_not_excluded (excluded_dev_paths mount_points);
  }

  unfoldable pub os_disk_exclude_filter : List FilterConfig → Filter
  os_disk_exclude_filter configs = elim (config_of "os-disk-exclude-filter" configs) [
    | none ↦ os_filter_with true ("/" ∷ "/etc/hosts" ∷ [])
    | some config ↦ os_filter_with (check_truthy config.state) (split b',' config.excluded)
  ]

  -- RegisteredFilters, in their order
  unfoldable pub registered_filters : List FilterConfig → List Filter
  registered_filters configs =
      os_disk_exclude_filter configs
      ∷ vendor_filter configs
      ∷ path_filter configs
      ∷ device_validity_filter
      ∷ []
