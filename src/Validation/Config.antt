-- ===== src/Validation/Config.antt =====
-- daemon/mgr/container_validation.go: the mode, quotas and logs of a container, and all of its
-- validation.
use pouch.Prelude.{
  Bool, true, false, not, ◌&&◌, ◌||◌, Option, none, some, List, [], ◌∷◌, ◌++◌, Text, str, text_eq,
  Dict, lookup, split, is_empty, has_prefix, length, ltb, leb, if◌then◌else◌,
}
use mathlib.Core.List.{reverse}
use pouch.Prelude.Int.{ℤ, pos, negsuc, ltb_ℤ}
use pouch.Prelude.Task.{Task, Outcome, done, raised, pure, get, put, require, expect, ◌>>=◌, ◌>>◌}
use pouch.Quota.Enforce.{quota_id_is_set}
use pouch.Validation.Core.{
  CgroupInfo, Resources, Warning, seccomp_warn, app_armor_warn, Err, Checked,
}
use pouch.Validation.Resource.{validate_resource}
use pouch.Validation.Nvidia.{NvidiaConfig, validate_nvidia_config}

abbrev each_is_absolute : List Text → Bool
each_is_absolute [] = true
each_is_absolute (p ∷ ps) = has_prefix (str "/") p && each_is_absolute ps

-- the paths of a key, which are not read if it is one path
unfoldable pub quota_key_is_valid : Text → Bool
unfolding split has_prefix
quota_key_is_valid key =
    not (is_empty key) && (leb (length (split 38 key)) 1 || each_is_absolute (split 38 key))

unfoldable pub quota_keys_are_valid : Dict Text → Bool
unfolding quota_key_is_valid
quota_keys_are_valid [] = true
quota_keys_are_valid ((key, _) ∷ quotas) = quota_key_is_valid key && quota_keys_are_valid quotas

-- `validateDiskQuota` of a config that is not nil: whether there is no error
unfoldable pub validate_disk_quota : Option (Dict Text) → Text → Bool
unfolding quota_keys_are_valid quota_id_is_set
validate_disk_quota none quota_id = not (quota_id_is_set quota_id)
validate_disk_quota (some quotas) quota_id =
    not (ltb 1 (length quotas) && quota_id_is_set quota_id) && quota_keys_are_valid quotas

pub record RichConfig : Type 0 where
  pub rich : Bool
  pub rich_mode : Text
  pub privileged : Bool

abbrev is_rich_mode : Text → Bool
is_rich_mode mode =
    text_eq mode (str "dumb-init") || text_eq mode (str "sbin-init") || text_eq mode (str "systemd")

-- `validateRichMode`: none for an error, and else the config with the mode that is the default
unfoldable pub validate_rich_mode : RichConfig → Option RichConfig
unfolding text_eq
validate_rich_mode c =
    if not c.rich && not (is_empty c.rich_mode)
    then none
    else if not (is_empty c.rich_mode) && not (is_rich_mode c.rich_mode)
    then none
    else if text_eq c.rich_mode (str "systemd") && not c.privileged
    then none
    else if c.rich && is_empty c.rich_mode
    then some (record c { rich_mode = str "dumb-init" })
    else some c

-- `LogConfig`
pub record LogConfig : Type 0 where
  pub log_driver : Text
  pub log_opts : Dict Text

abbrev or_empty : Option Text → Text
or_empty none = []
or_empty (some t) = t

abbrev is_common : Text → Bool
is_common k =
    text_eq k (str "mode") || text_eq k (str "max-buffer-size") || text_eq k (str "root-dir")

abbrev is_json_opt : Text → Bool
is_json_opt k =
    text_eq k (str "max-file")
    || text_eq k (str "max-size")
    || text_eq k (str "compress")
    || text_eq k (str "labels")
    || text_eq k (str "env")
    || text_eq k (str "env-regex")
    || text_eq k (str "tag")

unfoldable pub json_opts_are_valid : Dict Text → Bool
unfolding text_eq
json_opts_are_valid [] = true
json_opts_are_valid ((k, _) ∷ opts) = (is_common k || is_json_opt k) && json_opts_are_valid opts

-- the options on the mode and the buffer; `ram` tells whether units.RAMInBytes reads a size
unfoldable pub buffer_is_valid : (Text → Bool) → Text → Option Text → Bool
unfolding text_eq
buffer_is_valid ram mode size =
    (is_empty mode || text_eq mode (str "blocking") || text_eq mode (str "non-blocking"))
    && elim size [ none ↦ true | some s ↦ text_eq mode (str "non-blocking") && ram s ]

-- `validateLogConfig`; `syslog` tells whether the options of a syslog driver are valid
unfoldable pub validate_log_config : (Text → Bool) → Bool → Option LogConfig → Bool
unfolding buffer_is_valid json_opts_are_valid text_eq
validate_log_config ram syslog none = true
validate_log_config ram syslog (some l) =
    buffer_is_valid ram (or_empty (lookup (str "mode") l.log_opts))
      (lookup (str "max-buffer-size") l.log_opts)
    && (if text_eq l.log_driver (str "none") || text_eq l.log_driver (str "json-file")
        then json_opts_are_valid l.log_opts
        else text_eq l.log_driver (str "syslog") && syslog)

-- the parts of a container that `validateConfig` reads and corrects
pub record Settings : Type 0 where
  pub rich : RichConfig
  pub resources : Resources
  pub nvidia : Option NvidiaConfig
  pub oom_score_adj : ℤ
  pub shm_size : Option ℤ
  pub log_config : Option LogConfig
  pub seccomp_profile : Text
  pub app_armor_profile : Text

-- what the validation asks the host
pub record Support : Type 0 where
  pub cgroups : Option CgroupInfo
  pub seccomp : Bool
  pub app_armor : Bool
  pub device_exists : Text → Bool
  pub ram_in_bytes : Text → Bool
  pub syslog_is_valid : Bool

pub data Refusal : Type 0 where
  invalid_rich_mode invalid_resources invalid_nvidia invalid_oom_score invalid_shm_size
        invalid_log :
      Refusal

abbrev pub Validation : Type 0 → Type 0
Validation A = Task Settings Refusal A

abbrev pub resources_checked :
    Settings → Outcome Err (Unit {0}) × Checked → Outcome Refusal (List Warning) × Settings
resources_checked c (done _, k) = (done k.warnings, record c { resources = k.resources })
resources_checked c (raised _, k) = (raised invalid_resources, record c { resources = k.resources })

-- the call of `validateResource`
unfoldable pub check_resources : Support → Bool → Validation (List Warning)
unfolding validate_resource
check_resources host update c =
    resources_checked c
      (validate_resource host.cgroups update (record { resources = c.resources; warnings = [] }))

abbrev pub oom_in_range : ℤ → Bool
oom_in_range z = not (ltb_ℤ z (negsuc 999) || ltb_ℤ (pos 1000) z)

abbrev pub shm_is_valid : Option ℤ → Bool
shm_is_valid none = true
shm_is_valid (some z) = not (ltb_ℤ z (pos 0))

-- the profiles that a host does not support are discarded
unfoldable pub discard_seccomp : Bool → Settings → List Warning × Settings
unfolding text_eq
discard_seccomp true c = ([], c)
discard_seccomp false c = (
  if not (is_empty c.seccomp_profile) || not (text_eq c.seccomp_profile (str "unconfined"))
      then seccomp_warn ∷ []
      else [],
  record c { seccomp_profile = str "unconfined" },
)

unfoldable pub discard_app_armor : Bool → Settings → List Warning × Settings
discard_app_armor true c = ([], c)
discard_app_armor false c = (
  if is_empty c.app_armor_profile then [] else app_armor_warn ∷ [],
  record c { app_armor_profile = [] },
)

-- `validateConfig`; the warnings in the order in which they are given
unfoldable pub validate_config : Support → Bool → Validation (List Warning)
unfolding validate_rich_mode check_resources validate_nvidia_config validate_log_config
    discard_seccomp discard_app_armor
validate_config host update = do
  c0 ← get
  rich ← expect (validate_rich_mode c0.rich) invalid_rich_mode
  put (record c0 { rich = rich })
  warnings ← check_resources host update
  c1 ← get
  put (record c1 { nvidia = (validate_nvidia_config host.device_exists c1.nvidia).1 })
  require (validate_nvidia_config host.device_exists c1.nvidia).0 invalid_nvidia
  require (oom_in_range c1.oom_score_adj) invalid_oom_score
  require (shm_is_valid c1.shm_size) invalid_shm_size
  require (validate_log_config host.ram_in_bytes host.syslog_is_valid c1.log_config) invalid_log
  c2 ← get
  put (discard_seccomp host.seccomp c2).1
  c3 ← get
  put (discard_app_armor host.app_armor c3).1
  pure (
      reverse warnings
      ++ (discard_seccomp host.seccomp c2).0
      ++ (discard_app_armor host.app_armor c3).0)
