-- ===== src/Validation/Resource.antt =====
-- daemon/mgr/container_validation.go: the parts of `validateResource` on CPUs, block devices and processes,
-- and all of it.
use pouch.Prelude.{
  Bool, not, ◌&&◌, ◌||◌, Option, none, some, List, [], is_empty, ltb, if◌then◌else◌,
}
use pouch.Prelude.Int.{pos, ltb_ℤ}
use pouch.Prelude.Task.{pure, ◌>>◌}
use pouch.Validation.Core.{
  CpuInfo, BlkioInfo, CgroupInfo, Device, Resources, Check, is_pos, is_nonzero, is_nonempty, adjust,
  ensure, reset, blkio_weight_device_warn, blkio_weight_warn, cpu_period_warn, cpu_quota_warn,
  cpu_shares_warn, cpuset_cpus_warn, cpuset_mems_warn, pids_limit_warn, read_bps_warn,
  read_iops_warn, write_bps_warn, write_iops_warn, cpu_quota_too_small, cpu_period_out_of_range,
}
use pouch.Validation.Memory.{validate_memory}

module _ (info : CpuInfo) where
  abbrev pub cpus_unsupported : Resources → Bool
  cpus_unsupported r = not (is_empty r.cpuset_cpus) && not info.cpuset_cpus

  abbrev pub reset_cpus : Resources → Resources
  reset_cpus r = record r { cpuset_cpus = if cpus_unsupported r then [] else r.cpuset_cpus }

  abbrev pub mems_unsupported : Resources → Bool
  mems_unsupported r = not (is_empty r.cpuset_mems) && not info.cpuset_mems

  abbrev pub reset_mems : Resources → Resources
  reset_mems r = record r { cpuset_mems = if mems_unsupported r then [] else r.cpuset_mems }

  abbrev pub shares_unsupported : Resources → Bool
  shares_unsupported r = is_pos r.cpu_shares && not info.cpu_shares

  abbrev pub reset_shares : Resources → Resources
  reset_shares r = record r { cpu_shares = reset r.cpu_shares (shares_unsupported r) }

  abbrev pub quota_unsupported : Resources → Bool
  quota_unsupported r = is_pos r.cpu_quota && not info.cpu_quota

  abbrev pub reset_quota : Resources → Resources
  reset_quota r = record r { cpu_quota = reset r.cpu_quota (quota_unsupported r) }

  abbrev pub period_unsupported : Resources → Bool
  period_unsupported r = is_pos r.cpu_period && not info.cpu_period

  abbrev pub reset_period : Resources → Resources
  reset_period r = record r { cpu_period = reset r.cpu_period (period_unsupported r) }

abbrev pub quota_test : Resources → Bool
quota_test r = not (is_pos r.cpu_quota && ltb_ℤ r.cpu_quota (pos 1000))

abbrev pub period_test : Resources → Bool
period_test r =
    not (
      is_nonzero r.cpu_period
      && (ltb_ℤ r.cpu_period (pos 1000) || ltb_ℤ (pos 1000000) r.cpu_period))

-- the part of `validateResource` on CPUs
unfoldable pub validate_cpu : CpuInfo → Check
unfolding adjust ensure
validate_cpu info = do
  adjust (reset_cpus info) (cpus_unsupported info) cpuset_cpus_warn
  adjust (reset_mems info) (mems_unsupported info) cpuset_mems_warn
  adjust (reset_shares info) (shares_unsupported info) cpu_shares_warn
  adjust (reset_quota info) (quota_unsupported info) cpu_quota_warn
  ensure quota_test cpu_quota_too_small
  adjust (reset_period info) (period_unsupported info) cpu_period_warn
  ensure period_test cpu_period_out_of_range

abbrev emptied : List Device → Bool → List Device
emptied ds b = if b then [] else ds

abbrev lacks : Bool → List Device → Bool
lacks supported ds = is_nonempty ds && not supported

-- the part of `validateResource` on block devices
unfoldable pub validate_blkio : BlkioInfo → Check
unfolding adjust
validate_blkio info = do
  adjust
      (λ r. record r {
        blkio_weight = if ltb 0 r.blkio_weight && not info.weight then 0 else r.blkio_weight;
      })
      (λ r. ltb 0 r.blkio_weight && not info.weight) blkio_weight_warn
  adjust
      (λ r. record r {
        blkio_weight_device =
            emptied r.blkio_weight_device (lacks info.weight_device r.blkio_weight_device);
      })
      (λ r. lacks info.weight_device r.blkio_weight_device) blkio_weight_device_warn
  adjust
      (λ r. record r {
        blkio_device_read_bps =
            emptied r.blkio_device_read_bps (lacks info.read_bps r.blkio_device_read_bps);
      })
      (λ r. lacks info.read_bps r.blkio_device_read_bps) read_bps_warn
  adjust
      (λ r. record r {
        blkio_device_write_bps =
            emptied r.blkio_device_write_bps (lacks info.write_bps r.blkio_device_write_bps);
      })
      (λ r. lacks info.write_bps r.blkio_device_write_bps) write_bps_warn
  adjust
      (λ r. record r {
        blkio_device_read_iops =
            emptied r.blkio_device_read_iops (lacks info.read_iops r.blkio_device_read_iops);
      })
      (λ r. lacks info.read_iops r.blkio_device_read_iops) read_iops_warn
  adjust
      (λ r. record r {
        blkio_device_write_iops =
            emptied r.blkio_device_write_iops (lacks info.write_iops r.blkio_device_write_iops);
      })
      (λ r. lacks info.write_iops r.blkio_device_write_iops) write_iops_warn

-- the part of `validateResource` on the number of processes
unfoldable pub validate_pids : Bool → Check
unfolding adjust
validate_pids supported =
    adjust
      (λ r. record r { pids_limit = reset r.pids_limit (is_nonzero r.pids_limit && not supported) })
      (λ r. is_nonzero r.pids_limit && not supported) pids_limit_warn

abbrev pub if_there : {A : Type 0} → Option A → (A → Check) → Check
if_there none check = pure tt
if_there (some info) check = check info

-- `validateResource`; a host without control groups is not asked
unfoldable pub validate_resource : Option CgroupInfo → Bool → Check
unfolding validate_memory validate_cpu validate_blkio validate_pids
validate_resource none update = pure tt
validate_resource (some info) update = do
  if_there info.memory (validate_memory update)
  if_there info.cpu validate_cpu
  if_there info.blkio validate_blkio
  if_there info.pids validate_pids
