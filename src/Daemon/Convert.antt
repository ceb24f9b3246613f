-- ===== src/Daemon/Convert.antt =====
-- cmd/ndm_daemonset/controller/disk_to_device_convertor.go and blockdevice.go: the resource that the
-- daemon makes for one of its devices. DeviceInfo is passed over: it only carries the fields from
-- the one to the other.
pub mod Status
use node_disk_manager.Base.{
  trim_space, cut_last, join, eqb, String, Bool, true, false, not, ◌&&◌, ◌||◌, ◌==◌, Option, none,
  some, List, ◌∷◌, [], ◌++◌, ◌^^◌, StringMap, insert, lookup, merge, get_or, split, if◌then◌else◌,
}
use node_disk_manager.Api.{BlockDevice, ObjectMeta, DeviceSpec, DeviceDevLink, unclaimed, active}
use node_disk_manager.Claim.{host_name_label}
use node_disk_manager.Daemon.{Node, LocalDevice, DevLink, MetaConfig}
use Prim.Native.Char.{code}

-- The loop over DevLinks; of several entries of a kind the last counts.
unfoldable pub last_links : String → List String → List DevLink → List String
last_links kind found [] = found
last_links kind found (link ∷ links) =
    last_links kind (if link.kind == kind then link.links else found) links

abbrev pub link_entry : String → List String → List DeviceDevLink
link_entry kind [] = []
link_entry kind (link ∷ links) = record { kind = kind; links = link ∷ links } ∷ []

-- getDeviceLinks
unfoldable pub device_links : LocalDevice → List DeviceDevLink
device_links bd =
    link_entry "by-id" (last_links "by-id" [] bd.dev_links)
    ++ link_entry "by-path" (last_links "by-path" [] bd.dev_links)

-- currently only the first mount point will be taken
abbrev pub first_or_empty : List String → String
first_or_empty [] = ""
first_or_empty (s ∷ _) = s

-- getDeviceSpec, with getDeviceDetails, getDeviceCapacity and getFileSystemInfo
unfoldable pub device_spec : LocalDevice → DeviceSpec
unfolding device_links
device_spec bd =
    let a = bd.device_attributes in
    record {
      aggregate_device = "";
      capacity = record {
        storage = bd.storage;
        physical_sector_size = a.physical_block_size;
        logical_sector_size = a.logical_block_size;
      };
      claim_ref = none;
      details = record {
        device_type = a.device_type;
        drive_type = a.drive_type;
        logical_block_size = a.logical_block_size;
        physical_block_size = a.physical_block_size;
        hardware_sector_size = a.hardware_sector_size;
        model = a.model;
        compliance = a.compliance;
        serial = a.serial;
        vendor = a.vendor;
        firmware_revision = a.firmware_revision;
      };
      dev_links = device_links bd;
      file_system = record {
        fs_type = bd.fs_info.file_system;
        mountpoint = first_or_empty bd.fs_info.mount_point;
      };
      node_attributes = record { node_name = get_or (lookup "nodename" bd.node_attributes) "" };
      parent_device = "";
      partitioned = "No";
      path = bd.dev_path;
    }

-- the loop over the node attributes: the host name has a label of its own
unfoldable pub node_labels : StringMap String → StringMap String
node_labels [] = []
node_labels ((k, v) ∷ attributes) =
    let rest = node_labels attributes in
    if k == "hostname" then insert host_name_label v rest else insert k v rest

-- getObjectMeta
unfoldable pub object_meta : LocalDevice → ObjectMeta
unfolding node_labels
object_meta bd = record {
  name = bd.uuid;
  namespace = "";
  uid = "";
  resource_version = 0;
  deletion_timestamp = none;
  labels = merge bd.labels (
      insert "ndm.io/managed" "true"
        (insert "ndm.io/blockdevice-type" "blockdevice" (node_labels bd.node_attributes)));
  annotations = [];
  finalizers = [];
}

-- RelaxedJSONPathExpression. A path without braces loses a leading dot, if something follows it.
unfoldable pub has_brace : String → Bool
has_brace String.[] = false
has_brace (String.◌∷◌ c s) =
    let rest = has_brace s in if eqb (code c) b'{' || eqb (code c) b'}' then true else rest

unfoldable pub drop_dot : String → String
drop_dot String.[] = ""
drop_dot (String.◌∷◌ c s) = if eqb (code c) b'.' && not (s == "") then s else String.◌∷◌ c s

unfoldable pub field_spec : String → Option String
unfolding has_brace drop_dot
field_spec s = if s == "" || has_brace s then none else some ("{." ^^ drop_dot s ^^ "}")

unfoldable pub relaxed_json_path : String → Option String
unfolding field_spec
relaxed_json_path String.[] = some ""
relaxed_json_path (String.◌∷◌ c s) =
    if eqb (code c) b'{'
    then elim (cut_last b'}' s) [ none ↦ none | some inner ↦ field_spec inner ]
    else field_spec (String.◌∷◌ c s)

abbrev pub last_part : List String → String
last_part [] = ""
last_part (part ∷ []) = part
last_part (part ∷ next ∷ parts) = last_part (next ∷ parts)

abbrev pub concat_values : List (List String) → List String
concat_values [] = []
concat_values (values ∷ rest) = values ++ concat_values rest

unfoldable pub label_value : List (List String) → String
label_value values =
    let joined = join "," (concat_values values) in get_or (cut_last b',' joined) joined

abbrev pub with_label : String → String → BlockDevice → BlockDevice
with_label key value bd = record bd {
  meta = record bd.meta { labels = insert key value bd.meta.labels };
}

-- the path of one label; `none` is an error
unfoldable pub add_found_label :
    Node → String → BlockDevice → List (List String) → Option BlockDevice
unfolding label_value
add_found_label node path bd [] = some bd
add_found_label node path bd ([] ∷ rest) = some bd
add_found_label node path bd ((first ∷ others) ∷ rest) =
    let value = label_value ((first ∷ others) ∷ rest) in
    let key = last_part (split b'.' path) in
    if not (node.is_valid_label_value value)
    then none
    else if not (key == "") && not (value == "")
    then some (with_label ("ndm.io/" ^^ key) value bd)
    else some bd

unfoldable pub add_label : Node → String → BlockDevice → Option BlockDevice
unfolding add_found_label
add_label node path bd = elim (relaxed_json_path (trim_space path)) [
  | none ↦ none
  | some fields ↦ elim (node.find_results fields bd) [
    | none ↦ none
    | some values ↦ add_found_label node path bd values
  ]
]

unfoldable pub add_labels : Node → List String → BlockDevice → Option BlockDevice
unfolding add_label
add_labels node [] bd = some bd
add_labels node (path ∷ paths) bd = elim (add_label node path bd) [
  | none ↦ none
  | some labelled ↦ add_labels node paths labelled
]

-- the fields of the last configuration with the key for device labels
unfoldable pub label_paths : List String → List MetaConfig → List String
label_paths found [] = found
label_paths found (config ∷ configs) =
    label_paths (if config.key == "device-labels" then split b',' config.type else found) configs

-- addBdLabels
unfoldable pub add_bd_labels : Node → BlockDevice → Option BlockDevice
unfolding add_labels label_paths
add_bd_labels node bd = elim node.meta_configs [
  | none ↦ some bd
  | some configs ↦ add_labels node (label_paths [] configs) bd
]

-- NewDeviceInfoFromBlockDevice and ToDevice
unfoldable pub to_device : Node → LocalDevice → Option BlockDevice
unfolding add_bd_labels object_meta device_spec
to_device node bd = add_bd_labels node (record {
  type_meta = record { kind = "BlockDevice"; api_version = "openebs.io/v1alpha1" };
  meta = object_meta bd;
  spec = device_spec bd;
  status = record { claim_state = unclaimed; state = active };
})
