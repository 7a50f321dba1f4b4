-- ===== src/Cri/Resources/RoundTrip.antt =====
-- The resources of the kubelet after a way through those of a container.
use pouch.Prelude.{◌<◌, ◌%◌, ◌∙◌, ◌≡◌, refl, ap, List, [], ◌∷◌, Dict, Text, All, arith}
use pouch.Validation.Core.{Device, Ulimit}
use pouch.Cri.Resources.{
  LinuxContainerResources, parse_weight_device_from_cri, parse_weight_device_from_pouch,
  parse_throttle_device_from_cri, parse_throttle_device_from_pouch, parse_ulimit_from_cri,
  parse_ulimit_from_pouch, parse_resources_from_cri, parse_resources_from_pouch,
}

throttle_devices :
    (ds : List Device) → parse_throttle_device_from_pouch (parse_throttle_device_from_cri ds) ≡ ds
unfolding parse_throttle_device_from_pouch parse_throttle_device_from_cri
throttle_devices [] = refl
throttle_devices (d ∷ ds) = ap (λ es. d ∷ es) (throttle_devices ds)

ulimits : (us : List Ulimit) → parse_ulimit_from_pouch (parse_ulimit_from_cri us) ≡ us
unfolding parse_ulimit_from_pouch parse_ulimit_from_cri
ulimits [] = refl
ulimits (u ∷ us) = ap (λ vs. u ∷ vs) (ulimits us)

-- the weights of the devices are uint16s
abbrev pub WeightsFit : List Device → Type 0
WeightsFit ds = All (λ d. d.value < 0x1_0000) ds

weight_devices :
    (ds : List Device)
    → WeightsFit ds
    → parse_weight_device_from_pouch (parse_weight_device_from_cri ds) ≡ ds
unfolding parse_weight_device_from_pouch parse_weight_device_from_cri
weight_devices [] h = refl
weight_devices (d ∷ ds) (h, hs) =
    let same : d.value % 0x1_0000 ≡ d.value = omega arith in
    ap
      (λ n.
        record { path = d.path; value = n }
        ∷ parse_weight_device_from_pouch (parse_weight_device_from_cri ds))
      same
    ∙ ap (λ es. d ∷ es) (weight_devices ds hs)

-- Resources of the kubelet whose weights are uint16s come back from the resources of a container as they
-- were, but for the disk quota, which is the one that is given.
pub parse_resources_from_pouch-from_cri :
    (r : LinuxContainerResources) (disk_quota : Dict Text)
    → r.blkio_weight < 0x1_0000
    → WeightsFit r.blkio_weight_device
    → parse_resources_from_pouch (parse_resources_from_cri r) disk_quota
      ≡ record r { disk_quota = disk_quota }
unfolding parse_resources_from_pouch parse_resources_from_cri
parse_resources_from_pouch-from_cri r disk_quota h hs =
    let same : r.blkio_weight % 0x1_0000 ≡ r.blkio_weight = omega arith in
    rw
      (
        same,
        weight_devices r.blkio_weight_device hs,
        throttle_devices r.blkio_device_read_bps,
        throttle_devices r.blkio_device_write_bps,
        throttle_devices r.blkio_device_read_iops,
        throttle_devices r.blkio_device_write_iops,
        ulimits r.ulimits,
      )
      refl
