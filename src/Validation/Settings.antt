-- ===== src/Validation/Settings.antt =====
-- `validateConfig` of container_validation.go: what it accepts.
use pouch.Prelude.{
  ◌≡◌, refl, ap, subst, sym, Bool, inl, inr, ◌⊎◌, str, true, false, Option, some, List, [], arith,
}
use pouch.Prelude.Task.{
  Outcome, done, raised, bind-done, pure, get-then, put-then, require-then, expect-then,
}
use pouch.Validation.Core.{MemoryInfo, CpuInfo, BlkioInfo, Resources, Warning, Err, Checked}
use pouch.Validation.Resource.{validate_resource}
use pouch.Prelude.Int.{ℤ, pos, negsuc, ◌≤ℤ◌}
use pouch.Validation.Bounds.{IsValid}
use pouch.Validation.Limits.{
  Limited, Supported, valid-Limited, valid-Supported, oom-range, shm-range,
}
use pouch.Validation.Accepted.{validate_resource-IsValid}
use pouch.Validation.Nvidia.{validate_nvidia_config}
use pouch.Validation.Config.{
  Support, Settings, Refusal, resources_checked, check_resources, oom_in_range, shm_is_valid,
  discard_seccomp, discard_app_armor, validate_config,
}

-- the settings of an accepted check have the resources that `validateResource` accepted
check_resources-accepted :
    (host : Support) (update : Bool) (c t : Settings) (ws : List Warning)
    → check_resources host update c ≡ (done ws, t)
    → (k : Checked) × ((validate_resource host.cgroups update
            (record { resources = c.resources; warnings = [] })
          ≡ (done tt, k))
        × (t.resources ≡ k.resources))
unfolding check_resources
check_resources-accepted host update c t ws h = go _ refl h
  where
    go :
        (r : Outcome Err (Unit {0}) × Checked)
        → validate_resource host.cgroups update (record { resources = c.resources; warnings = [] })
          ≡ r
        → resources_checked c r ≡ (done ws, t)
        → (k : Checked) × ((validate_resource host.cgroups update
                (record { resources = c.resources; warnings = [] })
              ≡ (done tt, k))
            × (t.resources ≡ k.resources))
    go (done _, k) e h = (k, (e, ap (λ q. q.1.resources) (sym h)))
    go (raised _, k) e h = absurd (ground (arith, h))

discarded :
    (a b : Bool) (c : Settings)
    → (a ≡ true)
      ⊎ ((discard_app_armor b (discard_seccomp a c).1).1.seccomp_profile ≡ str "unconfined")
unfolding discard_seccomp discard_app_armor
discarded true b c = inl refl
discarded false true c = inr refl
discarded false false c = inr refl

module _ (P : Resources → Type 0) where
  discarded-resources :
      (a b : Bool) (c : Settings)
      → P c.resources × (oom_in_range c.oom_score_adj ≡ true) × (shm_is_valid c.shm_size ≡ true)
      → P (discard_app_armor b (discard_seccomp a c).1).1.resources
        × (oom_in_range (discard_app_armor b (discard_seccomp a c).1).1.oom_score_adj ≡ true)
        × (shm_is_valid (discard_app_armor b (discard_seccomp a c).1).1.shm_size ≡ true)
  unfolding discard_seccomp discard_app_armor
  discarded-resources true true c h = h
  discarded-resources true false c h = h
  discarded-resources false true c h = h
  discarded-resources false false c h = h

abbrev SettingsAreValid : Bool → (Resources → Type 0) → Settings → Type 0
SettingsAreValid seccomp P t =
    P t.resources
    × (oom_in_range t.oom_score_adj ≡ true)
    × (shm_is_valid t.shm_size ≡ true)
    × ((seccomp ≡ true) ⊎ (t.seccomp_profile ≡ str "unconfined"))

-- the steps on the profiles keep what was checked before
profiles-accepted :
    (P : Resources → Type 0) (a b : Bool) (c t : Settings) (ws ws' : List Warning)
    → pure {S = Settings} {E = Refusal} ws (discard_app_armor b (discard_seccomp a c).1).1
      ≡ (done ws', t)
    → P c.resources × (oom_in_range c.oom_score_adj ≡ true) × (shm_is_valid c.shm_size ≡ true)
    → SettingsAreValid a P t
unfolding pure
profiles-accepted P a b c t ws ws' h k =
    let (r, o, m) = discarded-resources P a b c k in
    subst (SettingsAreValid a P) (ap (λ q. q.1) h) (r, o, m, discarded a b c)

-- the tests that accepted settings pass
validate_config-accepted :
    (host : Support) (update : Bool) (mi : MemoryInfo) (ci : CpuInfo) (bi : Option BlkioInfo)
    (pids : Option Bool) (s t : Settings) (ws : List Warning)
    → host.cgroups ≡ some (record { memory = some mi; cpu = some ci; blkio = bi; pids = pids })
    → validate_config host update s ≡ (done ws, t)
    → IsValid update mi ci t.resources
      × (oom_in_range t.oom_score_adj ≡ true)
      × (shm_is_valid t.shm_size ≡ true)
      × ((host.seccomp ≡ true) ⊎ (t.seccomp_profile ≡ str "unconfined"))
unfolding validate_config
validate_config-accepted host update mi ci bi pids s t ws g h =
    let h1 = get-then _ s t ws h in
    let (rich, (_, h2)) = expect-then _ _ _ s t ws h1 in
    let h3 = put-then _ _ s t ws h2 in
    let (w, s4, (a4, h4)) = bind-done _ _ (record s { rich = rich }) ws t h3 in
    let h5 = get-then _ s4 t ws h4 in
    let n = (validate_nvidia_config host.device_exists s4.nvidia).1 in
    let h6 = put-then _ _ s4 t ws h5 in
    let (_, h7) = require-then _ _ _ (record s4 { nvidia = n }) t ws h6 in
    let (oom, h8) = require-then _ _ _ (record s4 { nvidia = n }) t ws h7 in
    let (shm, h9) = require-then _ _ _ (record s4 { nvidia = n }) t ws h8 in
    let (_, h10) = require-then _ _ _ (record s4 { nvidia = n }) t ws h9 in
    let h11 = get-then _ (record s4 { nvidia = n }) t ws h10 in
    let h12 = put-then _ _ (record s4 { nvidia = n }) t ws h11 in
    let s11 = (discard_seccomp host.seccomp (record s4 { nvidia = n })).1 in
    let h13 = get-then _ s11 t ws h12 in
    let h14 = put-then _ _ s11 t ws h13 in
    let (k, (e, same)) = check_resources-accepted host update (record s { rich = rich }) s4 w a4 in
    let valid = validate_resource-IsValid update mi ci bi pids _ k tt (
      subst
        (λ o.
          validate_resource o update (record { resources = s.resources; warnings = [] })
          ≡ (done tt, k))
        g e) in
    profiles-accepted (IsValid update mi ci) host.seccomp host.app_armor (record s4 { nvidia = n })
      t _ ws h14 (subst (IsValid update mi ci) (sym same) valid, oom, shm)

-- The settings of a container after `validateConfig` has accepted them, on a host that has the memory
-- and CPU control groups, whatever others it has: none of the limits of memory and CPU that are numbers
-- or flags is set where the host does not support it; the memory reservation and the memory limit are
-- each 0 or at least 4 MB; of a memory limit with a reservation or a swap limit, each if positive, the
-- reservation is not larger and the swap limit not smaller; a positive swap limit does not stand with a
-- memory limit of 0, but in an update; the swappiness, if given, is from -1 to 100; a positive CPU quota
-- is at least 1000, and a CPU period is 0 or from 1000 to 1000000. The OOM score is from -1000 to 1000,
-- the size of /dev/shm is not negative, and the seccomp profile is "unconfined" where the host has no
-- seccomp.
pub validate_config-IsValid :
    (host : Support) (update : Bool) (mi : MemoryInfo) (ci : CpuInfo) (bi : Option BlkioInfo)
    (pids : Option Bool) (s t : Settings) (ws : List Warning)
    → host.cgroups ≡ some (record { memory = some mi; cpu = some ci; blkio = bi; pids = pids })
    → validate_config host update s ≡ (done ws, t)
    → Limited update mi ci t.resources
      × Supported mi ci t.resources
      × ((negsuc 999 ≤ℤ t.oom_score_adj) × (t.oom_score_adj ≤ℤ pos 1000))
      × ((z : ℤ) → t.shm_size ≡ some z → pos 0 ≤ℤ z)
      × ((host.seccomp ≡ true) ⊎ (t.seccomp_profile ≡ str "unconfined"))
validate_config-IsValid host update mi ci bi pids s t ws g h =
    let (valid, oom, shm, seccomp) =
      validate_config-accepted host update mi ci bi pids s t ws g h in
    (
      valid-Limited update mi ci t.resources valid,
      valid-Supported update mi ci t.resources valid,
      oom-range t.oom_score_adj oom,
      λ z. shm-range t.shm_size z shm,
      seccomp,
    )
