-- ===== src/Validation/Accepted.antt =====
-- All of `validateResource` of container_validation.go: what it accepts.
use pouch.Prelude.{ℕ, List, ◌≡◌, subst, Bool, true, false, Option, none, some}
use pouch.Prelude.Task.{done, bind-done, ◌>>◌, require, Keeps, Keeps-bind, Keeps-pure}
use pouch.Validation.Bounds.{MemoryIsValid, IsValid, validate_memory-IsValid, validate_cpu-IsValid}
use pouch.Validation.Core.{
  MemoryInfo, CpuInfo, Resources, Warning, Err, Checked, adjust, ensure, BlkioInfo, Device,
}
use pouch.Validation.Resource.{
  validate_cpu, validate_blkio, validate_pids, validate_resource, if_there,
}

-- a predicate on the resources of a check
record Holds (P : Resources → Type 0) (s : Checked) : Type 0 where
  holds : P s.resources

adjust-Keeps :
    (P : Resources → Type 0) (f : Resources → Resources) (c : Resources → Bool) (w : Warning)
    → ((r : Resources) → P r → P (f r))
    → Keeps (Holds P) (adjust f c w)
unfolding adjust
adjust-Keeps P f c w k = record { at = λ s h. record { holds = k s.resources h.holds } }

ensure-Keeps :
    (P : Resources → Type 0) (test : Resources → Bool) (e : Err) → Keeps (Holds P) (ensure test e)
unfolding ensure require
ensure-Keeps P test e = record { at = λ s h. go (test s.resources) s h }
  where
    go : (b : Bool) (s : Checked) → Holds P s → Holds P (require b e s).1
    go true s h = h
    go false s h = h

-- `IsValid` reads no field that the other parts of the validation change
validate_cpu-Keeps :
    (update : Bool) (mi : MemoryInfo) (ci : CpuInfo)
    → Keeps (Holds (MemoryIsValid update mi)) (validate_cpu ci)
unfolding validate_cpu
validate_cpu-Keeps update mi ci = Keeps-bind _ _ (adjust-Keeps _ _ _ _ (λ r h. h)) (λ _.
    Keeps-bind _ _ (adjust-Keeps _ _ _ _ (λ r h. h)) (λ _.
      Keeps-bind _ _ (adjust-Keeps _ _ _ _ (λ r h. h)) (λ _.
        Keeps-bind _ _ (adjust-Keeps _ _ _ _ (λ r h. h)) (λ _.
          Keeps-bind _ _ (ensure-Keeps _ _ _)
            (λ _. Keeps-bind _ _ (adjust-Keeps _ _ _ _ (λ r h. h)) (λ _. ensure-Keeps _ _ _))))))

validate_pids-Keeps :
    (update : Bool) (mi : MemoryInfo) (ci : CpuInfo) (b : Bool)
    → Keeps (Holds (IsValid update mi ci)) (validate_pids b)
unfolding validate_pids
validate_pids-Keeps update mi ci b = adjust-Keeps _ _ _ _ (λ r h. h)

module _ (P : Resources → Type 0) where
  validate_blkio-Keeps :
      ((w : ℕ) (r : Resources) → P r → P (record r { blkio_weight = w }))
      → ((ds : List Device) (r : Resources) → P r → P (record r { blkio_weight_device = ds }))
      → ((ds : List Device) (r : Resources) → P r → P (record r { blkio_device_read_bps = ds }))
      → ((ds : List Device) (r : Resources) → P r → P (record r { blkio_device_write_bps = ds }))
      → ((ds : List Device) (r : Resources) → P r → P (record r { blkio_device_read_iops = ds }))
      → ((ds : List Device) (r : Resources) → P r → P (record r { blkio_device_write_iops = ds }))
      → (info : BlkioInfo) → Keeps (Holds P) (validate_blkio info)
  unfolding validate_blkio
  validate_blkio-Keeps a b c d e f info =
      Keeps-bind _ _ (adjust-Keeps _ _ _ _ (λ r h. a _ r h)) (λ _.
        Keeps-bind _ _ (adjust-Keeps _ _ _ _ (λ r h. b _ r h)) (λ _.
          Keeps-bind _ _ (adjust-Keeps _ _ _ _ (λ r h. c _ r h)) (λ _.
            Keeps-bind _ _ (adjust-Keeps _ _ _ _ (λ r h. d _ r h)) (λ _.
              Keeps-bind _ _ (adjust-Keeps _ _ _ _ (λ r h. e _ r h))
                (λ _. adjust-Keeps _ _ _ _ (λ r h. f _ r h))))))

-- The resources that `validateResource` accepts, on a host that has the memory and CPU control groups,
-- whatever others it has: none of the limits of memory and CPU that are numbers or flags is set where
-- the host does not support it; the memory limit and the reservation are 0 or at least 4 MB; of a
-- memory limit with a reservation or a swap limit, each if positive, the reservation is not larger and
-- the swap limit not smaller; a positive swap limit is not without a memory limit, but in an update;
-- the swappiness, if given, is from -1 to 100; a positive CPU quota is at least 1000, and a CPU period is
-- 0 or from 1000 to 1000000.
pub validate_resource-IsValid :
    (update : Bool) (mi : MemoryInfo) (ci : CpuInfo) (bi : Option BlkioInfo) (pids : Option Bool)
    (s t : Checked) (u : Unit {0})
    → validate_resource
        (some (record { memory = some mi; cpu = some ci; blkio = bi; pids = pids }))
        update
        s
      ≡ (done u, t)
    → IsValid update mi ci t.resources
unfolding validate_resource
validate_resource-IsValid update mi ci bi pids s t u h =
    let (v1, s1, (a1, h1)) = bind-done _ _ s u t h in
    let (v2, s2, (a2, h2)) = bind-done _ _ s1 u t h1 in
    let mem =
      (validate_cpu-Keeps update mi ci).at s1
        (record { holds = validate_memory-IsValid update mi s s1 v1 a1 }) in
    let both : IsValid update mi ci s2.resources = (
      subst (λ q. MemoryIsValid update mi q.1.resources) a2 mem.holds,
      validate_cpu-IsValid ci s1 s2 v2 a2,
    ) in
    let end = (rest bi pids).at s2 (record { holds = both }) in
    subst (λ q. IsValid update mi ci q.1.resources) h2 end.holds
  where
    blkio-Keeps :
        (o : Option BlkioInfo) → Keeps (Holds (IsValid update mi ci)) (if_there o validate_blkio)
    blkio-Keeps none = Keeps-pure tt
    blkio-Keeps (some info) =
        validate_blkio-Keeps (IsValid update mi ci) (λ w r h. h) (λ w r h. h) (λ w r h. h)
          (λ w r h. h) (λ w r h. h) (λ w r h. h) info

    pids-Keeps : (o : Option Bool) → Keeps (Holds (IsValid update mi ci)) (if_there o validate_pids)
    pids-Keeps none = Keeps-pure tt
    pids-Keeps (some b) = validate_pids-Keeps update mi ci b

    rest :
        (bi : Option BlkioInfo) (pids : Option Bool)
        → Keeps
            (Holds (IsValid update mi ci))
            (if_there bi validate_blkio >> if_there pids validate_pids)
    rest bi pids = Keeps-bind _ _ (blkio-Keeps bi) (λ _. pids-Keeps pids)
