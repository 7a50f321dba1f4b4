-- ===== src/Opts/Device.antt =====
-- apis/opts/devicemappings.go: devices and their modes.
pub mod Mode
use pouch.Prelude.{
  ℕ, Bool, true, false, Option, none, some, List, [], ◌∷◌, Text, str, split, is_empty, ◌==◌,
  if◌then◌else◌,
}

pub record DeviceMapping : Type 0 where
  pub path_on_host : Text
  pub path_in_container : Text
  pub cgroup_permissions : Text

-- the map `legalDeviceMode` as a function
abbrev pub legal_device_mode : ℕ → Bool
legal_device_mode c = if c == 114 then true else if c == 119 then true else c == 109

abbrev pub forbid : ℕ → (ℕ → Bool) → ℕ → Bool
forbid c legal d = if d == c then false else legal d

-- the loop of `ValidateDeviceMode`
unfoldable pub check_mode : (ℕ → Bool) → Text → Bool
check_mode legal [] = true
check_mode legal (c ∷ mode) = if legal c then check_mode (forbid c legal) mode else false

-- `ValidateDeviceMode`
unfoldable pub validate_device_mode : Text → Bool
unfolding check_mode
validate_device_mode mode = if is_empty mode then false else check_mode legal_device_mode mode

abbrev mapping : Text → Text → Text → DeviceMapping
mapping src dst permissions = record {
  path_on_host = src;
  path_in_container = if is_empty dst then src else dst;
  cgroup_permissions = permissions;
}

-- the switch of `parseDevice`
abbrev pub device_of : List Text → Option DeviceMapping
device_of [] = none
device_of (src ∷ []) = some (mapping src [] (str "rwm"))
device_of (src ∷ dst ∷ []) = some (mapping src dst (str "rwm"))
device_of (src ∷ dst ∷ permissions ∷ []) = some (mapping src dst permissions)
device_of (_ ∷ _ ∷ _ ∷ _ ∷ _) = none

-- `parseDevice`
unfoldable pub parse_device : Text → Option DeviceMapping
unfolding split
parse_device device = device_of (split 58 device)

abbrev prepend : DeviceMapping → Option (List DeviceMapping) → Option (List DeviceMapping)
prepend d none = none
prepend d (some ds) = some (d ∷ ds)

-- `ParseDeviceMappings`
unfoldable pub parse_device_mappings : List Text → Option (List DeviceMapping)
parse_device_mappings [] = some []
parse_device_mappings (device ∷ devices) =
    let rest = parse_device_mappings devices in
    elim (parse_device device) [
      | none ↦ none
      | some d ↦ if validate_device_mode d.cgroup_permissions then prepend d rest else none
    ]
