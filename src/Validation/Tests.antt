-- ===== src/Validation/Tests.antt =====
-- Tests of the validation of containers.
use pouch.Prelude.{◌≡◌, refl, true, false, none, some, [], ◌∷◌, str, lookup, ◌⊎◌}
use pouch.Prelude.Int.{ℤ, pos, negsuc, ◌≤ℤ◌}
use pouch.Prelude.Task.{done, raised, ◌>>=◌}
use pouch.Validation.Core.{
  MemoryInfo, CpuInfo, Resources, seccomp_warn, swap_size_warn, limit_below_reservation,
  swap_without_limit, pids_limit_warn,
}
use pouch.Validation.Resource.{validate_resource}
use pouch.Validation.Nvidia.{validate_nvidia_driver, validate_nvidia_device}
use pouch.Validation.Config.{
  Support, Settings, validate_config, validate_rich_mode, validate_disk_quota, validate_log_config,
}
use pouch.Validation.Limits.{Limited, Supported}
use pouch.Validation.Settings.{validate_config-IsValid}

abbrev all_memory : MemoryInfo
all_memory = record {
  memory_limit = true;
  memory_reservation = true;
  memory_swap = true;
  memory_swappiness = true;
  oom_kill_disable = true;
}

abbrev all_cpu : CpuInfo
all_cpu = record {
  cpuset_cpus = true;
  cpuset_mems = true;
  cpu_shares = true;
  cpu_period = true;
  cpu_quota = true;
}

abbrev small : ℤ → ℤ → Resources
small limit swap = record {
  memory = limit;
  memory_reservation = pos 4194304;
  memory_swap = swap;
  memory_swappiness = some (negsuc 0);
  oom_kill_disable = none;
  cpuset_cpus = [];
  cpuset_mems = [];
  cpu_shares = pos 512;
  cpu_quota = pos 2000;
  cpu_period = pos 100000;
  blkio_weight = 0;
  blkio_weight_device = [];
  blkio_device_read_bps = [];
  blkio_device_write_bps = [];
  blkio_device_read_iops = [];
  blkio_device_write_iops = [];
  pids_limit = pos 64;
  kernel_memory = pos 0;
  ulimits = [];
}

abbrev settings : Settings
settings = record {
  rich = record { rich = true; rich_mode = []; privileged = false };
  resources = small (pos 8388608) (pos 8388608);
  nvidia = none;
  oom_score_adj = negsuc 99;
  shm_size = some (pos 1024);
  log_config =
      some (record { log_driver = str "json-file"; log_opts = (str "max-size", str "10m") ∷ [] });
  seccomp_profile = [];
  app_armor_profile = [];
}

abbrev settings_after : Settings
settings_after = record settings {
  rich = record { rich = true; rich_mode = str "dumb-init"; privileged = false };
  resources = record (small (pos 8388608) (pos 8388608)) { pids_limit = pos 0 };
  seccomp_profile = str "unconfined";
}

abbrev host : Support
host = record {
  cgroups =
      some
        (record { memory = some all_memory; cpu = some all_cpu; blkio = none; pids = some false });
  seccomp = false;
  app_armor = true;
  device_exists = λ _. false;
  ram_in_bytes = λ _. true;
  syslog_is_valid = true;
}

-- the warning on seccomp is given although no profile is asked for
settings_are_accepted :
    validate_config host false settings
    ≡ (done (swap_size_warn ∷ pids_limit_warn ∷ seccomp_warn ∷ []), settings_after)
unfolding validate_config ◌>>=◌ lookup
settings_are_accepted = refl

validate_config-IsValid_example :
    Limited false all_memory all_cpu settings_after.resources
    × Supported all_memory all_cpu settings_after.resources
    × ((negsuc 999 ≤ℤ settings_after.oom_score_adj) × (settings_after.oom_score_adj ≤ℤ pos 1000))
    × ((z : ℤ) → settings_after.shm_size ≡ some z → pos 0 ≤ℤ z)
    × ((host.seccomp ≡ true) ⊎ (settings_after.seccomp_profile ≡ str "unconfined"))
validate_config-IsValid_example =
    validate_config-IsValid host false all_memory all_cpu none (some false) settings settings_after
      (swap_size_warn ∷ pids_limit_warn ∷ seccomp_warn ∷ []) refl settings_are_accepted

too_small_memory_is_refused :
    (validate_resource host.cgroups false
      (record { resources = small (pos 4194303) (pos 0); warnings = [] })).0
    ≡ raised limit_below_reservation
unfolding validate_resource ◌>>=◌
too_small_memory_is_refused = refl

swap_alone_is_accepted_in_an_update :
    (validate_resource host.cgroups true
      (record { resources = small (pos 0) (pos 5000000); warnings = [] })).0
    ≡ done tt
unfolding validate_resource ◌>>=◌
swap_alone_is_accepted_in_an_update = refl

swap_alone_is_refused :
    (validate_resource host.cgroups false
      (record { resources = small (pos 0) (pos 5000000); warnings = [] })).0
    ≡ raised swap_without_limit
unfolding validate_resource ◌>>=◌
swap_alone_is_refused = refl

systemd_wants_privileges :
    validate_rich_mode (record { rich = true; rich_mode = str "systemd"; privileged = false })
    ≡ none
unfolding validate_rich_mode
systemd_wants_privileges = refl

one_path_need_not_be_absolute : validate_disk_quota (some ((str "data", str "10g") ∷ [])) [] ≡ true
unfolding validate_disk_quota
one_path_need_not_be_absolute = refl

two_paths_are_absolute : validate_disk_quota (some ((str "/a&data", str "10g") ∷ [])) [] ≡ false
unfolding validate_disk_quota
two_paths_are_absolute = refl

drivers : validate_nvidia_driver (str "compute, utility") ≡ true
unfolding validate_nvidia_driver
drivers = refl

missing_device : validate_nvidia_device (λ _. false) (str "GPU-fef8089b,0") ≡ false
unfolding validate_nvidia_device
missing_device = refl

buffer_wants_mode :
    validate_log_config
      (λ _. true)
      true
      (some (record {
        log_driver = str "json-file";
        log_opts = (str "max-buffer-size", str "1m") ∷ [];
      }))
    ≡ false
unfolding validate_log_config lookup
buffer_wants_mode = refl
