-- ===== src/Quota/Tests.antt =====
-- Runs of storage/quota, and the theorems at concrete inputs.
use pouch.Prelude.{
  ℕ, ◌<◌, ◌≡◌, refl, ◌⊎◌, inl, inr, true, false, none, some, List, [], ◌∷◌, ◌++◌, Text, str,
  text_eq, has_prefix, ◌==◌, arith, if◌then◌else◌,
}
use pouch.Prelude.Int.{two_32}
use pouch.Prelude.Task.{done, ◌>>=◌}
use pouch.Quota.{
  quota_min_id, Driver, new_driver, has_id, load_quota_ids, next_id, get_next_quota_id,
}
use pouch.Quota.Calls.{
  searched, IsCounter, counted, get_next_quota_id-fresh, get_next_quota_id-counts,
}
use pouch.Quota.Ids.{after}
use pouch.Quota.Mounts.{prjquota, check_mountpoint, OverlayMount, get_overlay_mount_info}
use pouch.Quota.Apply.{
  MountInfo, RunResult, FileMode, Host, Site, find_mountpoint, dev_of, run, check_dev_limit,
  set_quota_id, check_regular_file, run_or_fail, set_quota,
}
use pouch.Quota.Enforce.{enforce_quota, quota_mount, driver_set_disk_quota}
use pouch.Quota.Enforce.Rootfs.{recorded, setquota, driver_set_disk_quota-last}

abbrev repquota_output : Text
repquota_output =
    str "Project used"
    ++ 10 ∷ str "#0 -- 220"
    ++ 10 ∷ str "#123 -- 4"
    ++ 10 ∷ str "#16777220 +- 8"
    ++ 10 ∷ []

loaded_ids : load_quota_ids repquota_output ≡ (16777220 ∷ [], 16777220)
unfolding load_quota_ids
loaded_ids = refl

first_id : (get_next_quota_id (some repquota_output) new_driver).0 ≡ next_id 16777221
unfolding get_next_quota_id new_driver
first_id = refl

-- after the last uint32 the ID is 0
last_id_wraps :
    (get_next_quota_id none (record { quota_ids = []; last_id = 4294967295 })).0 ≡ next_id 0
unfolding get_next_quota_id
last_id_wraps = refl

abbrev sparse : Driver
sparse = record { quota_ids = 16777217 ∷ 16777218 ∷ []; last_id = 16777216 }

get_next_quota_id-fresh_example :
    (n : ℕ) × (((get_next_quota_id (some []) sparse).0 ≡ next_id n)
      × (has_id n (searched [] sparse).quota_ids ≡ false)
      × ((n ≡ 0) ⊎ ((quota_min_id < n) × (n < two_32))))
unfolding has_id
get_next_quota_id-fresh_example = get_next_quota_id-fresh [] sparse (omega arith) (inr refl)

get_next_quota_id-counts_example :
    (get_next_quota_id (some repquota_output) new_driver ≡ (
      next_id (after (searched repquota_output new_driver).last_id),
      counted (searched repquota_output new_driver),
    ))
    × IsCounter (get_next_quota_id (some repquota_output) new_driver).1
unfolding new_driver
get_next_quota_id-counts_example = get_next_quota_id-counts repquota_output new_driver (inl refl)

abbrev proc_mounts : Text
proc_mounts =
    str "/dev/sda3 / ext4 rw,data=ordered 0 0"
    ++ 10 ∷ str "/dev/sdb1 /home/pouch ext4 rw,prjquota 0 0"
    ++ 10 ∷ str "overlay /base overlay rw,lowerdir=/l,upperdir=/u,workdir=/w 0 0"

abbrev device_of : Text → ℕ
device_of path =
    if has_prefix (str "/home") path then 2 else if has_prefix (str "/") path then 1 else 0

mount_found :
    check_mountpoint prjquota device_of (some proc_mounts) 2
    ≡ record { mount_point = str "/home/pouch"; enable_quota = true; fs_type = str "ext4" }
unfolding check_mountpoint
mount_found = refl

abbrev dirs : OverlayMount
dirs = record { lower = str "/l"; upper = str "/u"; work = str "/w" }

overlay_found : get_overlay_mount_info (some proc_mounts) (str "/base") ≡ some dirs
unfolding get_overlay_mount_info text_eq
overlay_found = refl

-- an upper directory below one that is named lowerdir is taken for the lower one
lowerdir_taken :
    get_overlay_mount_info
      (some (str "overlay /base overlay rw,lowerdir=/l,upperdir=/lowerdir/u,workdir=/w 0 0"))
      (str "/base")
    ≡ none
unfolding get_overlay_mount_info text_eq
lowerdir_taken = refl

abbrev quiet : RunResult
quiet = record { exit = 0; stdout = []; stderr = []; failed = false }

abbrev plain : FileMode
plain = record { symlink = false; named_pipe = false; socket = false; device = false }

-- a host whose programs succeed and print nothing, of which every path is on one device
abbrev calm_host : Host ℕ
calm_host = record {
  run = λ args w. (quiet, w);
  mounts = λ w. some proc_mounts;
  stat_dev = λ path w. some (device_of path);
  lstat = λ path w. some plain;
  statfs = λ path w. some (1024, 1048576);
  exists = λ path w. true;
  write_file = λ path bytes w. (true, w);
  remove = λ path w. w;
  walk = λ path w. [];
  to_kilobytes = λ size. some 1024;
}

abbrev counting : Driver
counting = record { quota_ids = 16777218 ∷ 16777217 ∷ []; last_id = 16777218 }

abbrev calm : Site ℕ
calm = record { world = 0; driver = counting }

counting-IsCounter : IsCounter counting
counting-IsCounter =
    inr (((omega arith, omega arith), ((omega arith, omega arith), tt)), omega arith, omega arith)

abbrev recorded_calm : Site (List (List Text) × ℕ)
recorded_calm = record { world = ([], 0); driver = counting }

driver_set_disk_quota-last_example :
    (id : ℕ) × (limit : ℕ) × (info : MountInfo) × (s1 : Site (List (List Text) × ℕ)) × (log : List
      (List Text))
    × ((enforce_quota (recorded calm_host) prjquota (str "/home/pouch") recorded_calm
          ≡ (done info, s1))
        × ((id == 0) ≡ false)
        × (some 1024 ≡ some limit)
        × ((driver_set_disk_quota
              (recorded calm_host)
              prjquota
              (str "/home/pouch")
              (str "1m")
              7
              recorded_calm).1.world.0
            ≡ setquota prjquota id limit info.mount_point ∷ log))
unfolding driver_set_disk_quota ◌>>=◌ enforce_quota quota_mount find_mountpoint check_mountpoint
    dev_of run check_dev_limit set_quota_id check_regular_file run_or_fail set_quota
driver_set_disk_quota-last_example =
    driver_set_disk_quota-last calm_host prjquota (str "/home/pouch") (str "1m") 7 recorded_calm
      (driver_set_disk_quota (recorded calm_host) prjquota (str "/home/pouch") (str "1m") 7
        recorded_calm).1
      tt refl
