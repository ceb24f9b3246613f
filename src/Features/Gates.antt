-- ===== src/Features/Gates.antt =====
-- pkg/features/features.go and util.go, with CheckTruthy of pkg/util/util.go.
-- A feature is a string, as in the source. ValidateDependencies recurs along the dependencies, on
-- fuel here; `none` means that the fuel ran out. `range fg` has no fixed order, so the loop of
-- SetFeatureFlag takes the order of the keys as an argument.
use Prim.Native.Char.{code}
use node_disk_manager.Base.{
  ◌≡◌, ℕ, zero, suc, ◌-◌, ◌≡◌, refl, String, Bool, true, false, not, ◌&&◌, ◌||◌, Option, none, some,
  List, [], ◌∷◌, contains, lookup, insert, get_or, StringMap, ◌==◌, leb, eqb, if◌then◌else◌,
}

abbrev pub gpt_based_uuid : String
gpt_based_uuid = "GPTBasedUUID"

abbrev pub partition_table_uuid : String
partition_table_uuid = "PartitionTableUUID"

abbrev pub supported_features : List String
supported_features =
    gpt_based_uuid ∷ "APIService" ∷ "UseOSDisk" ∷ "ChangeDetection" ∷ partition_table_uuid ∷ []

-- featureDependencies
unfoldable pub dependencies : String → List String
dependencies f = if f == partition_table_uuid then gpt_based_uuid ∷ [] else []

abbrev pub FeatureFlag : Type 0
FeatureFlag = StringMap Bool

-- defaultFeatureGates, and the copy of it that NewFeatureGate makes
abbrev pub new_feature_gate : FeatureFlag
new_feature_gate =
    (gpt_based_uuid, true)
    ∷ ("APIService", false)
    ∷ ("UseOSDisk", false)
    ∷ ("ChangeDetection", false)
    ∷ (partition_table_uuid, false)
    ∷ []

unfoldable pub is_enabled : String → FeatureFlag → Bool
is_enabled f fg = get_or (lookup f fg) false

-- The upper case of a character as far as it decides a comparison with ASCII capitals: beside
-- a to z, two characters have an ASCII capital (the dotless i and the long s).
upper_code : ℕ → ℕ
upper_code c =
    if leb b'a' c && leb c b'z'
    then c - 32
    else if eqb c 0x131
    then b'I'
    else if eqb c 0x17f
    then b'S'
    else c

-- strings.ToUpper(s) == t, for a text t of ASCII capitals and digits
unfoldable pub upper_is : String → String → Bool
unfolding upper_code
upper_is String.[] String.[] = true
upper_is String.[] (String.◌∷◌ d t) = false
upper_is (String.◌∷◌ c s) String.[] = false
upper_is (String.◌∷◌ c s) (String.◌∷◌ d t) = eqb (upper_code (code c)) (code d) && upper_is s t

-- CheckTruthy
unfoldable pub check_truthy : String → Bool
unfolding upper_is
check_truthy s = upper_is s "1" || upper_is s "YES" || upper_is s "TRUE" || upper_is s "OK"

-- strings.Split(s, "=")
push_head : String → List String → List String
push_head c [] = c ∷ []
push_head c (p ∷ ps) = Prim.Native.String.◌++◌ c p ∷ ps

split_equals : String → List String
unfolding push_head
split_equals String.[] = "" ∷ []
split_equals (String.◌∷◌ c s) =
    let rest = split_equals s in
    if eqb (code c) b'=' then "" ∷ rest else push_head (String.◌∷◌ c String.[]) rest

pub data FlagError : Type 0 where
  incorrect_format unknown_feature : String → FlagError

pub data Parsed : Type 0 where
  flag : String → Bool → Parsed
  bad : FlagError → Parsed

-- the checks of one element of the slice, in their order
known : String → Bool → Parsed
known f enabled = if contains supported_features f then flag f enabled else bad (unknown_feature f)

parse_parts : String → List String → Parsed
unfolding known
parse_parts feature [] = known "" true
parse_parts feature (f ∷ []) = known f true
parse_parts feature (f ∷ v ∷ []) = known f (check_truthy v)
parse_parts feature (f ∷ v ∷ w ∷ more) = bad (incorrect_format feature)

unfoldable pub parse_feature : String → Parsed
unfolding parse_parts split_equals
parse_feature feature = parse_parts feature (split_equals feature)

-- the first loop of SetFeatureFlag: the flags set before an error stay set
unfoldable pub set_flags : List String → FeatureFlag → FeatureFlag × Option FlagError
set_flags [] fg = (fg, none)
set_flags (feature ∷ features) fg = elim (parse_feature feature) [
  | flag f enabled ↦ set_flags features (insert f enabled fg)
  | bad e ↦ (fg, some e)
]

-- what ValidateDependencies changes
pub record Memo : Type 0 where
  pub flags : FeatureFlag
  pub memoized : FeatureFlag

-- the loop over the dependencies, with the recursive call as an argument
unfoldable pub check_dependencies :
    (String → Memo → Option (Bool × Memo)) → String → List String → Memo → Option Memo
check_dependencies validate feature [] m = some m
check_dependencies validate feature (d ∷ ds) m = elim (validate d m) [
  | none ↦ none
  | some (true, m') ↦ check_dependencies validate feature ds m'
  | some (false, m') ↦ some (record m' { flags = insert feature false m'.flags })
]

unfoldable pub memoize : String → Option Memo → Option (Bool × Memo)
memoize feature none = none
memoize feature (some m) =
    let enabled = is_enabled feature m.flags in
    some (enabled, record m { memoized = insert feature enabled m.memoized })

unfoldable pub validate_dependencies : ℕ → String → Memo → Option (Bool × Memo)
unfolding check_dependencies memoize dependencies
validate_dependencies zero feature m = none
validate_dependencies (suc fuel) feature m = elim (lookup feature m.memoized) [
  | some value ↦ some (value, m)
  | none ↦
      (if not (is_enabled feature m.flags)
        then some (false, m)
        else memoize feature
            (check_dependencies (validate_dependencies fuel) feature (dependencies feature) m))
]

-- the second loop of SetFeatureFlag
unfoldable pub validate_all : ℕ → List String → Memo → Option Memo
validate_all fuel [] m = some m
validate_all fuel (f ∷ keys) m = elim (validate_dependencies fuel f m) [
  | none ↦ none
  | some (_, m') ↦ validate_all fuel keys m'
]

-- SetFeatureFlag: the flags afterwards and the error, or none where the fuel ran out
unfoldable pub finish_set :
    ℕ → List String → FeatureFlag × Option FlagError → Option (FeatureFlag × Option FlagError)
finish_set fuel keys (fg, some e) = some (fg, some e)
finish_set fuel keys (fg, none) =
    elim (validate_all fuel keys (record { flags = fg; memoized = [] })) [
      | none ↦ none
      | some m ↦ some (m.flags, none)
    ]

unfoldable pub set_feature_flag :
    ℕ → List String → List String → FeatureFlag → Option (FeatureFlag × Option FlagError)
unfolding finish_set
set_feature_flag fuel keys features fg = finish_set fuel keys (set_flags features fg)

-- A dependency that is off turns the feature off, in the map's order and in the other one.
set_example :
    set_feature_flag 2
      (partition_table_uuid ∷ gpt_based_uuid ∷ [])
      ("PartitionTableUUID" ∷ "GPTBasedUUID=no" ∷ "APIService=tRue" ∷ [])
      new_feature_gate
    ≡ some (
      (gpt_based_uuid, false)
          ∷ ("APIService", true)
          ∷ ("UseOSDisk", false)
          ∷ ("ChangeDetection", false)
          ∷ (partition_table_uuid, false)
          ∷ [],
      none,
    )
unfolding set_feature_flag set_flags parse_feature contains check_truthy insert validate_all
    validate_dependencies is_enabled lookup
set_example = refl
