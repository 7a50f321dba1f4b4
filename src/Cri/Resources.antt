-- ===== src/Cri/Resources.antt =====
-- cri/v1alpha2/cri_utils.go: the resources of the kubelet as resources of a container and back.
pub mod RoundTrip
use pouch.Prelude.{ℕ, ◌%◌, Option, none, List, [], ◌∷◌, Text, Dict}
use pouch.Prelude.Int.{ℤ, pos}
use pouch.Validation.Core.{Device, Ulimit, Resources}

abbrev pub uint16 : ℕ → ℕ
uint16 n = n % 0x1_0000

-- `LinuxContainerResources`; its devices and ulimits have the fields that those of the manager have
pub record LinuxContainerResources : Type 0 where
  pub cpu_period : ℤ
  pub cpu_quota : ℤ
  pub cpu_shares : ℤ
  pub memory_limit_in_bytes : ℤ
  pub cpuset_cpus : Text
  pub cpuset_mems : Text
  pub blkio_weight : ℕ
  pub blkio_weight_device : List Device
  pub blkio_device_read_bps : List Device
  pub blkio_device_write_bps : List Device
  pub blkio_device_read_iops : List Device
  pub blkio_device_write_iops : List Device
  pub kernel_memory : ℤ
  pub memory_reservation : ℤ
  pub memory_swappiness : Option ℤ
  pub ulimits : List Ulimit
  pub disk_quota : Dict Text

unfoldable pub parse_weight_device_from_cri : List Device → List Device
parse_weight_device_from_cri [] = []
parse_weight_device_from_cri (v ∷ vs) =
    record { path = v.path; value = uint16 v.value } ∷ parse_weight_device_from_cri vs

unfoldable pub parse_weight_device_from_pouch : List Device → List Device
parse_weight_device_from_pouch [] = []
parse_weight_device_from_pouch (v ∷ vs) =
    record { path = v.path; value = v.value } ∷ parse_weight_device_from_pouch vs

unfoldable pub parse_throttle_device_from_cri : List Device → List Device
parse_throttle_device_from_cri [] = []
parse_throttle_device_from_cri (v ∷ vs) =
    record { path = v.path; value = v.value } ∷ parse_throttle_device_from_cri vs

unfoldable pub parse_throttle_device_from_pouch : List Device → List Device
parse_throttle_device_from_pouch [] = []
parse_throttle_device_from_pouch (v ∷ vs) =
    record { path = v.path; value = v.value } ∷ parse_throttle_device_from_pouch vs

unfoldable pub parse_ulimit_from_cri : List Ulimit → List Ulimit
parse_ulimit_from_cri [] = []
parse_ulimit_from_cri (v ∷ vs) =
    record { name = v.name; hard = v.hard; soft = v.soft } ∷ parse_ulimit_from_cri vs

unfoldable pub parse_ulimit_from_pouch : List Ulimit → List Ulimit
parse_ulimit_from_pouch [] = []
parse_ulimit_from_pouch (v ∷ vs) =
    record { name = v.name; hard = v.hard; soft = v.soft } ∷ parse_ulimit_from_pouch vs

-- `parseResourcesFromCRI`; the fields that it does not name have their zero
unfoldable pub parse_resources_from_cri : LinuxContainerResources → Resources
unfolding parse_weight_device_from_cri parse_throttle_device_from_cri parse_ulimit_from_cri
parse_resources_from_cri r = record {
  memory = r.memory_limit_in_bytes;
  memory_reservation = r.memory_reservation;
  memory_swap = pos 0;
  memory_swappiness = r.memory_swappiness;
  oom_kill_disable = none;
  cpuset_cpus = r.cpuset_cpus;
  cpuset_mems = r.cpuset_mems;
  cpu_shares = r.cpu_shares;
  cpu_quota = r.cpu_quota;
  cpu_period = r.cpu_period;
  blkio_weight = uint16 r.blkio_weight;
  blkio_weight_device = parse_weight_device_from_cri r.blkio_weight_device;
  blkio_device_read_bps = parse_throttle_device_from_cri r.blkio_device_read_bps;
  blkio_device_write_bps = parse_throttle_device_from_cri r.blkio_device_write_bps;
  blkio_device_read_iops = parse_throttle_device_from_cri r.blkio_device_read_iops;
  blkio_device_write_iops = parse_throttle_device_from_cri r.blkio_device_write_iops;
  pids_limit = pos 0;
  kernel_memory = r.kernel_memory;
  ulimits = parse_ulimit_from_cri r.ulimits;
}

unfoldable pub parse_resources_from_pouch : Resources → Dict Text → LinuxContainerResources
unfolding parse_weight_device_from_pouch parse_throttle_device_from_pouch parse_ulimit_from_pouch
parse_resources_from_pouch r disk_quota = record {
  cpu_period = r.cpu_period;
  cpu_quota = r.cpu_quota;
  cpu_shares = r.cpu_shares;
  memory_limit_in_bytes = r.memory;
  cpuset_cpus = r.cpuset_cpus;
  cpuset_mems = r.cpuset_mems;
  blkio_weight = r.blkio_weight;
  blkio_weight_device = parse_weight_device_from_pouch r.blkio_weight_device;
  blkio_device_read_bps = parse_throttle_device_from_pouch r.blkio_device_read_bps;
  blkio_device_write_bps = parse_throttle_device_from_pouch r.blkio_device_write_bps;
  blkio_device_read_iops = parse_throttle_device_from_pouch r.blkio_device_read_iops;
  blkio_device_write_iops = parse_throttle_device_from_pouch r.blkio_device_write_iops;
  kernel_memory = r.kernel_memory;
  memory_reservation = r.memory_reservation;
  memory_swappiness = r.memory_swappiness;
  ulimits = parse_ulimit_from_pouch r.ulimits;
  disk_quota = disk_quota;
}
