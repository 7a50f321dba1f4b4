-- ===== src/Storage/Quotas.antt =====
-- daemon/mgr/container_storage.go: which mount points of a container get which disk quota.
use pouch.Prelude.{
  ℕ, zero, suc, Bool, true, false, not, ◌&&◌, ◌||◌, Option, none, some, List, [], ◌∷◌, ◌++◌, Text,
  str, text_eq, is_empty, split, contains_char, Dict, ◌%◌, if◌then◌else◌,
}
use pouch.Prelude.Int.{ℤ, pos, negsuc, two_32}
use pouch.Prelude.Decimal.{format_uint}
use pouch.Prelude.Task.{Task, done, pure, raise, require, expect, ◌>>=◌, ◌>>◌}
use pouch.Opts.Policy.{atoi}
use pouch.Quota.Enforce.{quota_id_is_set}
use pouch.Storage.Services.{Mount}
use pouch.Storage.Places.{is_in, no_bind}

-- `quota.QMap`
pub record QMap : Type 0 where
  pub source : Text
  pub destination : Text
  pub expression : Text
  pub size : Text
  pub quota_id : ℕ

abbrev pub map_of : Mount → Text → Text → QMap
map_of m expression size = record {
  source = m.source;
  destination = m.destination;
  expression = expression;
  size = size;
  quota_id = 0;
}

-- the loop over the quotas, which Go runs in any order. `find` is FindString of the regular expression,
-- or none where MustCompile panics on it; then the outcome is none.
unfoldable pub choose :
    (Text → Text → Option Text) → Dict Text → Mount → Option QMap → Option (Option QMap)
unfolding text_eq split contains_char is_in
choose find [] m qm = some qm
choose find ((exp, size) ∷ quotas) m qm =
    if contains_char 38 exp
    then (if is_in m.destination (split 38 exp)
        then some (some (map_of m exp size))
        else choose find quotas m qm)
    else elim (find exp m.destination) [
      | none ↦ none
      | some found ↦
          if text_eq found m.destination
          then (if text_eq exp (str ".*")
              then choose find quotas m (some (map_of m [] size))
              else some (some (map_of m [] size)))
          else choose find quotas m qm
    ]

unfoldable pub check_dup_quota_map : List QMap → QMap → Option QMap
unfolding text_eq
check_dup_quota_map [] qm = none
check_dup_quota_map (prev ∷ qms) qm =
    if not (is_empty qm.expression) && text_eq qm.expression prev.expression
    then some prev
    else check_dup_quota_map qms qm

abbrev pub with_id : QMap → ℕ → QMap
with_id qm id = record qm { quota_id = id }

-- what the container manager asks of the host and of the volumes
pub record QuotaHost (W : Type 0) : Type 0 where
  pub next_quota_id : W → Option ℕ × W
  -- the size of a volume, or none for an error
  pub volume_size : Text → W → Option Text × W
  pub is_dir : Text → W → Bool × W
  pub mount : W → Bool × W
  pub unmount : W → W
  pub set_rootfs_disk_quota : Text → Text → ℕ → Bool → W → W
  pub set_disk_quota : Text → Text → ℕ → W → W

-- the container; `merged_dir` is none without a snapshotter, and empty if its data has no such entry
pub record QuotaConfig : Type 0 where
  pub disk_quota : Dict Text
  pub is_running_or_paused : Bool
  pub merged_dir : Option Text
  pub mount_fs : Text
  pub mounts : List Mount

-- `panicked` stands for the panic on an expression that does not compile
pub data QuotaErr : Type 0 where
  bad_quota_id no_quota_id no_merged_dir cannot_mount panicked : QuotaErr

-- the `QuotaID` of the configuration, and the world
pub record QuotaState (W : Type 0) : Type 0 where
  pub quota_id : Text
  pub world : W

abbrev pub QuotaTask : Type 0 → Type 0 → Type 0
QuotaTask W A = Task (QuotaState W) QuotaErr A

module _ {W : Type 0} (host : QuotaHost W) where
  unfoldable pub ask : {A : Type 0} → (W → A × W) → QuotaTask W A
  ask f s = (done (f s.world).0, record s { world = (f s.world).1 })

  unfoldable pub set_quota_id : ℕ → QuotaTask W (Unit {0})
  unfolding format_uint
  set_quota_id id s = (done tt, record s { quota_id = format_uint id })

  unfoldable pub new_quota_id : QuotaTask W ℕ
  unfolding ask
  new_quota_id = do id ← ask host.next_quota_id; expect id no_quota_id

  unfoldable pub own_quota_id : ℤ → QuotaTask W ℕ
  unfolding new_quota_id set_quota_id
  own_quota_id (pos n) = pure (n % two_32)
  own_quota_id (negsuc _) = do id ← new_quota_id; set_quota_id id; pure id

  -- the quota ID for all mount points, or 0
  unfoldable pub global_quota_id : Text → QuotaTask W ℕ
  unfolding quota_id_is_set atoi own_quota_id
  global_quota_id quota_id =
      if quota_id_is_set quota_id
      then expect (atoi quota_id) bad_quota_id >>= own_quota_id
      else pure 0

  abbrev has_size : Option Text → Bool
  has_size none = true
  has_size (some size) = not (is_empty size)

  -- whether a volume is left out: one that cannot be found or has a size
  unfoldable pub is_left_out : Text → QuotaTask W Bool
  unfolding ask
  is_left_out name =
      if is_empty name
      then pure false
      else ask (host.volume_size name) >>= (λ size. pure (has_size size))

  abbrev kept : Mount → Bool → List Mount → List Mount
  kept m b ms = if b then m ∷ ms else ms

  unfoldable pub has_quota : Mount → QuotaTask W Bool
  unfolding is_left_out ask
  has_quota m =
      if not (is_empty m.bind.replace) || is_empty m.source || is_empty m.destination
      then pure false
      else (do out ← is_left_out m.name; if out then pure false else ask (host.is_dir m.source))

  unfoldable pub quota_mounts : List Mount → QuotaTask W (List Mount)
  unfolding has_quota
  quota_mounts [] = pure []
  quota_mounts (m ∷ ms) = do b ← has_quota m; rest ← quota_mounts ms; pure (kept m b rest)

  abbrev merged : Text → QuotaTask W Text
  merged dir = if is_empty dir then raise no_merged_dir else pure dir

  unfoldable pub forget_mount : QuotaTask W (Unit {0})
  forget_mount s = (done tt, record s { world = host.unmount s.world })

  -- a root file system that is mounted for the call
  unfoldable pub mounted_rootfs : Bool → Text → QuotaTask W Text
  unfolding ask forget_mount
  mounted_rootfs true mount_fs = pure mount_fs
  mounted_rootfs false mount_fs = do
    ok ← ask host.mount
    require ok cannot_mount
    forget_mount
    pure mount_fs

  abbrev rootfs_of : QuotaConfig → Bool → Option Text → QuotaTask W Text
  rootfs_of c mounted none = mounted_rootfs mounted c.mount_fs
  rootfs_of c mounted (some dir) =
      if c.is_running_or_paused then merged dir else mounted_rootfs mounted c.mount_fs

  unfoldable pub get_rootfs : QuotaConfig → Bool → QuotaTask W Text
  unfolding mounted_rootfs
  get_rootfs c mounted = rootfs_of c mounted c.merged_dir

  abbrev root_mount : Text → Mount
  root_mount rootfs = record {
    source = rootfs;
    destination = str "/";
    driver = [];
    name = [];
    named = false;
    bind = no_bind;
  }

  unfoldable pub get_disk_quota_mount_points : QuotaConfig → Bool → QuotaTask W (List Mount)
  unfolding quota_mounts get_rootfs
  get_disk_quota_mount_points c mounted = do
    mounts ← quota_mounts c.mounts
    rootfs ← get_rootfs c mounted
    pure (mounts ++ root_mount rootfs ∷ [])

  -- the ID of a quota map: that of another with its expression, else the global one, else a new one
  unfoldable pub quota_id_for : ℕ → Option QMap → QuotaTask W ℕ
  unfolding new_quota_id
  quota_id_for global (some prev) = pure prev.quota_id
  quota_id_for zero none = new_quota_id
  quota_id_for (suc n) none = pure (suc n)

  -- the loop over the mount points, with the quota maps so far
  module _ (global : ℕ) (choice : Mount → Option (Option QMap)) where
    abbrev pub added : List QMap → Option QMap → QuotaTask W (List QMap)
    added qms none = pure qms
    added qms (some qm) =
        quota_id_for global (check_dup_quota_map qms qm)
        >>= (λ id. pure (qms ++ with_id qm id ∷ []))

    unfoldable pub quota_maps : List Mount → List QMap → QuotaTask W (List QMap)
    unfolding quota_id_for check_dup_quota_map
    quota_maps [] qms = pure qms
    quota_maps (m ∷ ms) qms = do
      qm ← expect (choice m) panicked
      more ← added qms qm
      quota_maps ms more

  unfoldable pub prepare_quota_map :
      (Text → Text → Option Text) → QuotaConfig → Text → Bool → QuotaTask W (List QMap)
  unfolding global_quota_id get_disk_quota_mount_points quota_maps choose
  prepare_quota_map find c quota_id mounted = do
    global ← global_quota_id quota_id
    mounts ← get_disk_quota_mount_points c mounted
    quota_maps global (λ m. choose find c.disk_quota m none) mounts []

  -- `setDiskQuota`; errors are only logged
  unfoldable pub set_disk_quotas : Bool → List QMap → W → W
  unfolding text_eq
  set_disk_quotas update [] w = w
  set_disk_quotas update (q ∷ qms) w = set_disk_quotas update qms (
      if text_eq q.destination (str "/")
      then host.set_rootfs_disk_quota q.source q.size q.quota_id update w
      else host.set_disk_quota q.source q.size q.quota_id w)
