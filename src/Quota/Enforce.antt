-- ===== src/Quota/Enforce.antt =====
-- `EnforceQuota` and `SetDiskQuota` of the drivers of storage/quota, and the functions of quota.go that
-- containers and volumes call: `SetDiskQuota`, `GetQuotaID`, `SetRootfsDiskQuota`.
pub mod Rootfs
use pouch.Prelude.{
  ℕ, ◌*◌, ◌%◌, Bool, false, not, ◌&&◌, ◌||◌, Option, none, some, List, [], ◌∷◌, ◌++◌, Text, str,
  text_eq, is_empty, contains_text, ltb, leb, ◌==◌, if◌then◌else◌,
}
use pouch.Prelude.Int.{two_64}
use pouch.Prelude.Task.{
  Outcome, done, raised, pure, raise, get, require, expect, attempt, ◌>>=◌, ◌>>◌,
}
use pouch.Prelude.Decimal.{format_uint}
use pouch.Quota.Mounts.{
  Kind, grpquota, prjquota, get_overlay_mount_info, get_vfs_version_and_quota_file,
}
use pouch.Quota.Apply.{
  Host, MountInfo, Err, failed, Action, run, run_or_fail, write_file, remove_file,
  check_regular_file, dev_of, find_mountpoint, set_quota, get_quota_id_in_file_attr, set_attr,
  next_quota_id, set_quota_id, check_dev_limit,
}

-- the header of a quota file, by its VFS version
abbrev header : Text → List ℕ
header version =
    0x27
    ∷ 0x19
    ∷ 0xc0
    ∷ 0xd9
    ∷ (if text_eq version (str "vfsv1") then 0x01 else 0x00)
    ∷ 0x00
    ∷ 0x00
    ∷ 0x00
    ∷ 0x80
    ∷ 0x3a
    ∷ 0x09
    ∷ 0x00
    ∷ 0x80
    ∷ 0x3a
    ∷ 0x09
    ∷ 0x00
    ∷ 0x00
    ∷ 0x00
    ∷ 0x00
    ∷ 0x00
    ∷ 0x06
    ∷ 0x00
    ∷ 0x00
    ∷ 0x00
    ∷ 0x00
    ∷ 0x00
    ∷ 0x00
    ∷ 0x00
    ∷ 0x05
    ∷ 0x00
    ∷ 0x00
    ∷ 0x00
    ∷ []

module _ {W : Type 0} (host : Host W) where
  abbrev pub undo_after : Action W (Unit {0}) → Outcome Err (Unit {0}) → Action W (Unit {0})
  undo_after undo (done _) = pure tt
  undo_after undo (raised e) = undo >> raise e

  -- what is done if `a` fails, with the error of `a` after it
  unfoldable pub on_error : Action W (Unit {0}) → Action W (Unit {0}) → Action W (Unit {0})
  on_error a undo = attempt a >>= undo_after undo

  abbrev remount : Kind → Text → List Text
  remount kind point =
      str "mount"
      ∷ str "-o"
      ∷ elim kind [ prjquota ↦ str "remount,prjquota" | grpquota ↦ str "remount,grpquota" ]
      ∷ point
      ∷ []

  -- the mount point of the device of a path, mounted again with the quota if that is off
  unfoldable pub quota_mount : Kind → Text → Action W MountInfo
  quota_mount kind path = do
    s ← get
    dev ← expect (host.stat_dev path s.world) failed
    found ← find_mountpoint host kind dev
    require (not (is_empty found.mount_point)) failed
    (if found.enable_quota then pure tt else run_or_fail host (remount kind found.mount_point))
    pure (record { mount_point = found.mount_point; fs_type = found.fs_type; device_id = dev })

  -- the part of grpquota.go's `EnforceQuota` that writes a quota file, if there is none
  unfoldable pub write_quota_file : Text → Text → Text → Action W (Unit {0})
  write_quota_file point version file = do
    s ← get
    (if host.exists file s.world then pure tt else (do
      remove_file host (point ++ str "/aquota.user")
      write_file host file (header version)
      on_error
          (run_or_fail host
            (str "setquota" ∷ str "-g" ∷ str "-t" ∷ str "43200" ∷ str "43200" ∷ point ∷ []))
          (remove_file host file)
      on_error (set_quota host grpquota 0 0 point) (remove_file host file)))

  -- `EnforceQuota` of both drivers
  unfoldable pub enforce_quota : Kind → Text → Action W MountInfo
  enforce_quota prjquota path = do
    info ← quota_mount prjquota path
    r ← run host (str "quotaon" ∷ str "-P" ∷ info.mount_point ∷ [])
    require (not r.failed || contains_text (str " File exists") r.stderr) failed
    pure info
  enforce_quota grpquota path = do
    info ← quota_mount grpquota path
    s ← get
    names ←
        expect
          (get_vfs_version_and_quota_file (dev_of host s.world) (host.mounts s.world)
            info.device_id)
          failed
    write_quota_file info.mount_point names.0 (info.mount_point ++ 47 ∷ names.1)
    r ← run host (str "quotaon" ∷ str "-pg" ∷ info.mount_point ∷ [])
    require (not r.failed || (r.exit == 1)) failed
    (if contains_text (str " is on") r.stdout
        then pure tt
        else run_or_fail host (str "quotaon" ∷ info.mount_point ∷ []))
    pure info

  -- `SetDiskQuota` of both drivers; the limit in bytes is a uint64
  unfoldable pub driver_set_disk_quota : Kind → Text → Text → ℕ → Action W (Unit {0})
  driver_set_disk_quota kind path size qid = do
    info ← enforce_quota kind path
    require (not (is_empty info.mount_point)) failed
    limit ← expect (host.to_kilobytes size) failed
    check_dev_limit host info (limit * 1024 % two_64)
    id ← set_quota_id host kind path qid
    require (ltb 0 id) failed
    set_quota host kind id limit info.mount_point

  -- `SetDiskQuota` of quota.go: a file that is no regular file and no directory is left as it is
  unfoldable pub set_disk_quota : Kind → Text → Text → ℕ → Action W (Unit {0})
  set_disk_quota kind path size qid = do
    s ← get
    _ ← expect (host.lstat path s.world) failed
    regular ← check_regular_file host path
    if regular then driver_set_disk_quota kind path size qid else pure tt

  -- `GetQuotaID`
  unfoldable pub get_quota_id : Kind → Text → Action W ℕ
  get_quota_id kind path = do
    id ← get_quota_id_in_file_attr host kind path
    if ltb 0 id then pure id else next_quota_id host kind

  -- one step of the walk of grpquota.go's `SetFileAttrRecursive`, whose errors are logged
  unfoldable pub set_attr_below : ℕ → List (Text × Bool) → Action W (Unit {0})
  set_attr_below id [] = pure tt
  set_attr_below id ((path, visited) ∷ rest) = do
    (if visited
        then (do
          old ← get_quota_id_in_file_attr host grpquota path
          regular ← (if old == id then pure false else check_regular_file host path)
          (if regular
              then (run host (set_attr host grpquota path id) >>= λ _. pure tt)
              else pure tt))
        else pure tt)
    set_attr_below id rest

  -- `SetFileAttrRecursive` of both drivers
  unfoldable pub set_file_attr_recursive : Kind → Text → ℕ → Action W (Unit {0})
  set_file_attr_recursive prjquota path id = do
    regular ← check_regular_file host path
    require regular failed
    run_or_fail host (str "chattr" ∷ str "-R" ∷ str "-p" ∷ format_uint id ∷ str "+P" ∷ path ∷ [])
  set_file_attr_recursive grpquota path id = do s ← get; set_attr_below id (host.walk path s.world)

  -- `SetQuotaIDInFileAttr` of both drivers; prjquota.go refuses what is no regular file, and grpquota.go
  -- refuses only what lstat does
  unfoldable pub set_quota_id_in_file_attr : Kind → Text → ℕ → Action W (Unit {0})
  set_quota_id_in_file_attr prjquota path id = do
    regular ← check_regular_file host path
    require regular failed
    run_or_fail host (set_attr host prjquota path id)
  set_quota_id_in_file_attr grpquota path id = do
    s ← get
    _ ← expect (host.lstat path s.world) failed
    regular ← check_regular_file host path
    if regular then run_or_fail host (set_attr host grpquota path id) else pure tt

  abbrev or_get : Kind → Text → ℕ → Action W ℕ
  or_get kind path id = if id == 0 then get_quota_id kind path else pure id

  -- the loop of `SetRootfsDiskQuota` over the directories of the overlay; an update sets the attributes
  -- in a goroutine of its own, here at once, and drops its error
  unfoldable pub set_dirs : Kind → Text → Bool → List Text → ℕ → Action W ℕ
  set_dirs kind size update [] id = pure id
  set_dirs kind size update (path ∷ paths) qid = do
    id ← or_get kind path qid
    set_disk_quota kind path size id
    (if update
        then (attempt (set_file_attr_recursive kind path id) >>= λ _. pure tt)
        else set_file_attr_recursive kind path id)
    set_dirs kind size update paths id

  -- `SetRootfsDiskQuota`
  unfoldable pub set_rootfs_disk_quota : Kind → Text → Text → ℕ → Bool → Action W ℕ
  set_rootfs_disk_quota kind basefs size qid update = do
    s ← get
    overlay ← expect (get_overlay_mount_info (host.mounts s.world) basefs) failed
    set_dirs kind size update (overlay.upper ∷ overlay.work ∷ []) qid

-- `NewQuotaDriver`, given the major version of the kernel, if that can be read
unfoldable pub new_quota_driver : Text → Option ℕ → Kind
unfolding text_eq
new_quota_driver name kernel =
    if text_eq name (str "grpquota")
    then grpquota
    else if text_eq name (str "prjquota")
    then prjquota
    else elim kernel [ none ↦ grpquota | some v ↦ if leb 4 v then prjquota else grpquota ]

-- `IsSetQuotaID`
unfoldable pub quota_id_is_set : Text → Bool
unfolding text_eq
quota_id_is_set id = not (is_empty id) && not (text_eq id (str "0"))
