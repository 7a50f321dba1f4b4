-- ===== src/Validation/Core.antt =====
-- daemon/mgr/container_validation.go: the resources of a container, what the control groups of the host
-- support, and the two kinds of step of `validateResource`.
use pouch.Prelude.{
  ℕ, Bool, true, false, not, Option, none, some, List, [], ◌∷◌, Text, if◌then◌else◌,
}
use pouch.Prelude.Int.{ℤ, pos, ltb_ℤ, eq_ℤ}
use pouch.Prelude.Task.{Task, done, require}

-- `CgroupInfo`: what the host supports; none for a control group that it does not have
pub record MemoryInfo : Type 0 where
  pub memory_limit : Bool
  pub memory_reservation : Bool
  pub memory_swap : Bool
  pub memory_swappiness : Bool
  pub oom_kill_disable : Bool

pub record CpuInfo : Type 0 where
  pub cpuset_cpus : Bool
  pub cpuset_mems : Bool
  pub cpu_shares : Bool
  pub cpu_period : Bool
  pub cpu_quota : Bool

pub record BlkioInfo : Type 0 where
  pub weight : Bool
  pub weight_device : Bool
  pub read_bps : Bool
  pub write_bps : Bool
  pub read_iops : Bool
  pub write_iops : Bool

pub record CgroupInfo : Type 0 where
  pub memory : Option MemoryInfo
  pub cpu : Option CpuInfo
  pub blkio : Option BlkioInfo
  pub pids : Option Bool

-- `WeightDevice` and `ThrottleDevice`
pub record Device : Type 0 where
  pub path : Text
  pub value : ℕ

-- `Ulimit`
pub record Ulimit : Type 0 where
  pub name : Text
  pub hard : ℤ
  pub soft : ℤ

-- `Resources`, the fields that are validated or that the CRI service sets
pub record Resources : Type 0 where
  pub memory : ℤ
  pub memory_reservation : ℤ
  pub memory_swap : ℤ
  pub memory_swappiness : Option ℤ
  pub oom_kill_disable : Option Bool
  pub cpuset_cpus : Text
  pub cpuset_mems : Text
  pub cpu_shares : ℤ
  pub cpu_quota : ℤ
  pub cpu_period : ℤ
  pub blkio_weight : ℕ
  pub blkio_weight_device : List Device
  pub blkio_device_read_bps : List Device
  pub blkio_device_write_bps : List Device
  pub blkio_device_read_iops : List Device
  pub blkio_device_write_iops : List Device
  pub pids_limit : ℤ
  pub kernel_memory : ℤ
  pub ulimits : List Ulimit

pub data Warning : Type 0 where
  memory_warn memory_reservation_warn memory_swap_warn swap_size_warn : Warning
  memory_swappiness_warn oom_kill_warn : Warning
  cpuset_cpus_warn cpuset_mems_warn cpu_shares_warn cpu_quota_warn cpu_period_warn : Warning
  blkio_weight_warn blkio_weight_device_warn read_bps_warn write_bps_warn : Warning
  read_iops_warn write_iops_warn pids_limit_warn seccomp_warn app_armor_warn : Warning

pub data Err : Type 0 where
  reservation_too_small limit_below_reservation swap_below_limit swap_without_limit : Err
  limit_too_small swappiness_out_of_range cpu_quota_too_small cpu_period_out_of_range : Err

-- the resources with the warnings so far, the last one first
pub record Checked : Type 0 where
  pub resources : Resources
  pub warnings : List Warning

abbrev pub Check : Type 0
Check = Task Checked Err (Unit {0})

abbrev pub is_pos : ℤ → Bool
is_pos z = ltb_ℤ (pos 0) z

abbrev pub is_nonzero : ℤ → Bool
is_nonzero z = not (eq_ℤ z (pos 0))

abbrev pub is_set : {A : Type 0} → Option A → Bool
is_set none = false
is_set (some _) = true

abbrev pub is_nonempty : {A : Type 0} → List A → Bool
is_nonempty [] = false
is_nonempty (_ ∷ _) = true

abbrev pub min_memory : ℤ
min_memory = pos 4194304

abbrev pub warned : Bool → Warning → List Warning → List Warning
warned b w ws = if b then w ∷ ws else ws

-- a control that is asked for and not supported is reset, with a warning
unfoldable pub adjust : (Resources → Resources) → (Resources → Bool) → Warning → Check
adjust f unsupported w s = (
  done tt,
  record s { resources = f s.resources; warnings = warned (unsupported s.resources) w s.warnings },
)

-- an error unless the resources pass a test
unfoldable pub ensure : (Resources → Bool) → Err → Check
unfolding require
ensure test e s = require (test s.resources) e s

abbrev pub reset : ℤ → Bool → ℤ
reset z b = if b then pos 0 else z
