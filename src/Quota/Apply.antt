-- ===== src/Quota/Apply.antt =====
-- How the drivers of storage/quota set a quota: `EnforceQuota`, `setQuotaID`, `setQuota`, `SetDiskQuota`
-- and the attributes of files, and what quota.go does with the driver that is in use. The programs and
-- the file system of the host are what the record `Host` holds. Errors are not told apart.
pub mod Attributes
use pouch.Prelude.{
  ℕ, ◌-◌, ◌*◌, ◌%◌, Bool, true, false, not, ◌||◌, Option, none, some, List, [], ◌∷◌, Text, str,
  text_eq, split, is_empty, ltb, ◌==◌, if◌then◌else◌,
}
use pouch.Prelude.Int.{ℤ, pos, negsuc, uint32, two_63, two_64}
use pouch.Prelude.Task.{Task, done, raised, pure, get, require, expect, ◌>>=◌, ◌>>◌}
use pouch.Prelude.Decimal.{format_uint}
use pouch.Prelude.Paths.{dir}
use pouch.Opts.Policy.{atoi, digits}
use pouch.Quota.{Driver, Answer, next_id, load_failed, no_answer, get_next_quota_id}
use pouch.Quota.Mounts.{Kind, grpquota, prjquota, Found, check_mountpoint}

-- what `exec.Run` gives
pub record RunResult : Type 0 where
  pub exit : ℕ
  pub stdout : Text
  pub stderr : Text
  pub failed : Bool

-- the bits of a file's mode that `CheckRegularFile` tests
pub record FileMode : Type 0 where
  pub symlink : Bool
  pub named_pipe : Bool
  pub socket : Bool
  pub device : Bool

-- The host: its programs change it. `stat_dev` is the device of a path, none where stat fails (or takes
-- more than five seconds), `statfs` the number and the size of the blocks of a file system, `exists`
-- whether os.Stat finds a path, `write_file` and `remove` change it, `walk` gives the paths that
-- filepath.Walk visits below a path with whether each is visited without an error, and `to_kilobytes`
-- reads a size.
pub record Host (W : Type 0) : Type 0 where
  pub run : List Text → W → RunResult × W
  pub mounts : W → Option Text
  pub stat_dev : Text → W → Option ℕ
  pub lstat : Text → W → Option FileMode
  pub statfs : Text → W → Option (ℕ × ℕ)
  pub exists : Text → W → Bool
  pub write_file : Text → List ℕ → W → Bool × W
  pub remove : Text → W → W
  pub walk : Text → W → List (Text × Bool)
  pub to_kilobytes : Text → Option ℕ

-- the host with the driver in use
pub record Site (W : Type 0) : Type 0 where
  pub world : W
  pub driver : Driver

pub record MountInfo : Type 0 where
  pub mount_point : Text
  pub fs_type : Text
  pub device_id : ℕ

pub data Err : Type 0 where
  failed : Err

abbrev pub Action : Type 0 → Type 0 → Type 0
Action W A = Task (Site W) Err A

abbrev clamped : Option ℕ → ℤ → ℤ
clamped none limit = pos 0
clamped (some _) limit = limit

-- the integer that `strconv.Atoi` gives beside an error: 0, or the nearest int64 to a larger number
abbrev nearest : Text → ℤ
nearest [] = pos 0
nearest (c ∷ cs) =
    if c == 45
    then (if is_empty cs then pos 0 else clamped (digits 0 cs) (negsuc (two_63 - 1)))
    else if c == 43
    then (if is_empty cs then pos 0 else clamped (digits 0 cs) (pos (two_63 - 1)))
    else clamped (digits 0 (c ∷ cs)) (pos (two_63 - 1))

abbrev value_or : Option ℤ → ℤ → ℤ
value_or none z = z
value_or (some z) _ = z

-- the integer of a call of `strconv.Atoi` whose error is dropped
unfoldable pub atoi_value : Text → ℤ
unfolding atoi digits
atoi_value s = value_or (atoi s) (nearest s)

abbrev pub parts_id : Text → List Text → Option Text
parts_id path (id ∷ _ ∷ name ∷ _) = if text_eq name path then some id else none
parts_id path _ = none

-- the loop of prjquota.go's `GetQuotaIDInFileAttr` over the lines of `lsattr`
unfoldable pub listed_id : Text → List Text → ℕ
unfolding split text_eq atoi_value uint32
listed_id path [] = 0
listed_id path (l ∷ ls) =
    let rest = listed_id path ls in
    elim (parts_id path (split 32 l)) [ none ↦ rest | some id ↦ uint32 (atoi_value id) ]

abbrev is_regular : Option FileMode → Bool
is_regular none = false
is_regular (some m) = not (m.symlink || m.named_pipe || m.socket || m.device)

abbrev or_zero : Option ℕ → ℕ
or_zero none = 0
or_zero (some n) = n

module _ {W : Type 0} (host : Host W) where
  -- `exec.Run`
  unfoldable pub run : List Text → Action W RunResult
  run args s = (done (host.run args s.world).0, record s { world = (host.run args s.world).1 })

  -- a command whose failure is an error
  unfoldable pub run_or_fail : List Text → Action W (Unit {0})
  run_or_fail args = do r ← run args; require (not r.failed) failed

  -- `ioutil.WriteFile`
  unfoldable pub write_file : Text → List ℕ → Action W (Unit {0})
  write_file path bytes s = (
    if (host.write_file path bytes s.world).0 then done tt else raised failed,
    record s { world = (host.write_file path bytes s.world).1 },
  )

  -- `os.Remove`
  unfoldable pub remove_file : Text → Action W (Unit {0})
  remove_file path s = (done tt, record s { world = host.remove path s.world })

  -- `CheckRegularFile`, an error taken for false
  unfoldable pub check_regular_file : Text → Action W Bool
  check_regular_file path = do s ← get; pure (is_regular (host.lstat path s.world))

  unfoldable pub dev_of : W → Text → ℕ
  dev_of w path = or_zero (host.stat_dev path w)

  unfoldable pub find_mountpoint : Kind → ℕ → Action W Found
  find_mountpoint kind dev = do
    s ← get
    pure (check_mountpoint kind (dev_of s.world) (host.mounts s.world) dev)

  -- `setQuota` of both drivers
  unfoldable pub set_quota : Kind → ℕ → ℕ → Text → Action W (Unit {0})
  set_quota kind id limit point = run_or_fail (
      str "setquota"
      ∷ elim kind [ prjquota ↦ str "-P" | grpquota ↦ str "-g" ]
      ∷ format_uint id
      ∷ str "0"
      ∷ format_uint limit
      ∷ str "0"
      ∷ str "0"
      ∷ point
      ∷ [])

  -- `GetQuotaIDInFileAttr` of both drivers
  unfoldable pub get_quota_id_in_file_attr : Kind → Text → Action W ℕ
  get_quota_id_in_file_attr prjquota path = do
    r ← run (str "lsattr" ∷ str "-p" ∷ dir path ∷ [])
    pure (if r.failed then 0 else listed_id path (split 10 r.stdout))
  get_quota_id_in_file_attr grpquota path = do
    r ← run (
        str "getfattr"
        ∷ str "-n"
        ∷ str "system.subtree"
        ∷ str "--only-values"
        ∷ str "--absolute-names"
        ∷ path
        ∷ [])
    pure (if r.failed then 0 else uint32 (atoi_value r.stdout))

  -- the command that writes an ID into the attributes of a path
  abbrev pub set_attr : Kind → Text → ℕ → List Text
  set_attr prjquota path id = str "chattr" ∷ str "-p" ∷ format_uint id ∷ str "+P" ∷ path ∷ []
  set_attr grpquota path id =
      str "setfattr" ∷ str "-n" ∷ str "system.subtree" ∷ str "-v" ∷ format_uint id ∷ path ∷ []

  -- the option of `repquota`, and whether the host answers it
  unfoldable pub repquota : Kind → Action W (Option Text)
  repquota kind = do
    r ← run (str "repquota" ∷ elim kind [ prjquota ↦ str "-Pan" | grpquota ↦ str "-gan" ] ∷ [])
    pure (if r.failed then none else some r.stdout)

  abbrev pub answer : Answer × Driver → Action W ℕ
  answer (next_id id, d) s = (done id, record s { driver = d })
  answer (load_failed, d) s = (raised failed, record s { driver = d })
  answer (no_answer, d) s = (raised failed, record s { driver = d })

  -- `GetNextQuotaID`, which runs `repquota` if the last ID is 0
  unfoldable pub next_quota_id : Kind → Action W ℕ
  next_quota_id kind = do
    s ← get
    output ← (if s.driver.last_id == 0 then repquota kind else pure none)
    answer (get_next_quota_id output s.driver)

  -- the ID in the attributes, or else the next one; the flag says that it is in the attributes
  unfoldable pub attr_or_next : Kind → Text → Action W (ℕ × Bool)
  attr_or_next kind path = do
    id ← get_quota_id_in_file_attr kind path
    if ltb 0 id then pure (id, true) else (next_quota_id kind >>= λ n. pure (n, false))

  -- `setQuotaID` of both drivers
  unfoldable pub set_quota_id : Kind → Text → ℕ → Action W ℕ
  set_quota_id kind path qid = do
    regular ← check_regular_file path
    require regular failed
    found ← (if qid == 0 then attr_or_next kind path else pure (qid, false))
    if found.1 then pure found.0 else (run_or_fail (set_attr kind path found.0) >> pure found.0)

  -- `checkDevLimit`: the blocks times their size, in uint64, are at least the size
  unfoldable pub check_dev_limit : MountInfo → ℕ → Action W (Unit {0})
  check_dev_limit info size = do
    s ← get
    require (dev_of s.world info.mount_point == info.device_id) failed
    fs ← expect (host.statfs info.mount_point s.world) failed
    require (not (ltb ((fs.0 * fs.1) % two_64) size)) failed
