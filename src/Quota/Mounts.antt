-- ===== src/Quota/Mounts.antt =====
-- What storage/quota reads in /proc/mounts: the mount point of a device (`CheckMountpoint` of both
-- drivers), the directories of an overlay (`getOverlayMountInfo`) and the quota file of a device
-- (`getVFSVersionAndQuotaFile`).
pub mod Shortest
pub mod Overlay
use pouch.Prelude.{
  ℕ, Bool, false, ◌&&◌, ◌||◌, not, Option, none, some, List, [], ◌∷◌, Text, str, text_eq, split,
  split2, is_empty, contains_text, ltb, ◌==◌, length, if◌then◌else◌,
}

-- the fields of a line that are read, of the six that it has
pub record MountLine : Type 0 where
  pub point : Text
  pub fs_type : Text
  pub params : Text

abbrev pub mount_line : List Text → Option MountLine
mount_line (_ ∷ point ∷ fs_type ∷ params ∷ _ ∷ _ ∷ []) =
    some (record { point = point; fs_type = fs_type; params = params })
mount_line _ = none

-- the lines of the file that have six fields
unfoldable pub mount_lines : List Text → List MountLine
unfolding split
mount_lines [] = []
mount_lines (l ∷ ls) = elim (mount_line (split 32 l)) [
  | none ↦ mount_lines ls
  | some m ↦ m ∷ mount_lines ls
]

pub data Kind : Type 0 where
  grpquota prjquota : Kind

-- whether the parameters of a mount turn the quota of the driver on
unfoldable pub has_param : Text → List Text → Bool
unfolding text_eq
has_param name [] = false
has_param name (p ∷ ps) = text_eq p name || has_param name ps

unfoldable pub enables : Kind → Text → Bool
unfolding has_param split contains_text
enables prjquota params = has_param (str "prjquota") (split 44 params)
enables grpquota params =
    contains_text (str "grpquota") params || contains_text (str "grpjquota") params

-- the mount point found so far, whether the quota is on, and the file system
pub record Found : Type 0 where
  pub mount_point : Text
  pub enable_quota : Bool
  pub fs_type : Text

unfoldable pub nothing_found : Found
nothing_found = record { mount_point = []; enable_quota = false; fs_type = [] }

abbrev pub keeps_point : Found → MountLine → Bool
keeps_point f l = not (is_empty f.mount_point) && ltb (length f.mount_point) (length l.point)

unfoldable pub check_line : Kind → (Text → ℕ) → ℕ → MountLine → Found → Found
unfolding enables
check_line kind dev_of dev l f =
    if dev_of l.point == dev
    then (if keeps_point f l then f else record {
      mount_point = l.point;
      enable_quota = f.enable_quota || enables kind l.params;
      fs_type = l.fs_type;
    })
    else f

unfoldable pub check_lines : Kind → (Text → ℕ) → ℕ → List MountLine → Found → Found
unfolding check_line
check_lines kind dev_of dev [] f = f
check_lines kind dev_of dev (l ∷ ls) f =
    check_lines kind dev_of dev ls (check_line kind dev_of dev l f)

-- `CheckMountpoint` on the text of /proc/mounts, none if it cannot be read. `dev_of` gives the device
-- of a path, 0 for a path that stat refuses.
unfoldable pub check_mountpoint : Kind → (Text → ℕ) → Option Text → ℕ → Found
unfolding nothing_found check_lines mount_lines
check_mountpoint kind dev_of none dev = nothing_found
check_mountpoint kind dev_of (some mounts) dev =
    check_lines kind dev_of dev (mount_lines (split 10 mounts)) nothing_found

-- `OverlayMount`; `Merged` is never set
pub record OverlayMount : Type 0 where
  pub lower : Text
  pub upper : Text
  pub work : Text

abbrev pub value_of : List Text → Text → Text
value_of (_ ∷ value ∷ []) old = value
value_of _ old = old

-- the switch on one parameter
unfoldable pub read_param : Text → OverlayMount → OverlayMount
unfolding contains_text split
read_param p o =
    if contains_text (str "lowerdir") p
    then record o { lower = value_of (split 61 p) o.lower }
    else if contains_text (str "upperdir") p
    then record o { upper = value_of (split 61 p) o.upper }
    else if contains_text (str "workdir") p
    then record o { work = value_of (split 61 p) o.work }
    else o

unfoldable pub read_params : List Text → OverlayMount → OverlayMount
unfolding read_param
read_params [] o = o
read_params (p ∷ ps) o = read_params ps (read_param p o)

unfoldable pub read_overlays : Text → List MountLine → OverlayMount → OverlayMount
unfolding read_params
read_overlays basefs [] o = o
read_overlays basefs (l ∷ ls) o = read_overlays basefs ls (
    if text_eq l.point basefs && text_eq l.fs_type (str "overlay")
    then read_params (split 44 l.params) o
    else o)

abbrev pub no_dirs : OverlayMount
no_dirs = record { lower = []; upper = []; work = [] }

abbrev pub complete : OverlayMount → Option OverlayMount
complete o = if is_empty o.lower || is_empty o.upper || is_empty o.work then none else some o

-- `getOverlayMountInfo`
unfoldable pub get_overlay_mount_info : Option Text → Text → Option OverlayMount
unfolding read_overlays mount_lines
get_overlay_mount_info none basefs = none
get_overlay_mount_info (some mounts) basefs =
    complete (read_overlays basefs (mount_lines (split 10 mounts)) no_dirs)

-- the VFS version and the quota file that the parameters of a mount name
unfoldable pub read_quota_params : List Text → Text × Text → Text × Text
unfolding split2
read_quota_params [] s = s
read_quota_params (p ∷ ps) (version, file) = read_quota_params ps (elim (split2 61 p) [
  | key ∷ value ∷ [] ↦
      if text_eq key (str "jqfmt")
      then (value, file)
      else if text_eq key (str "grpjquota")
      then (version, value)
      else (version, file)
  | _ ↦ (version, file)
])

unfoldable pub quota_file_of : (Text → ℕ) → ℕ → List MountLine → Text × Text
unfolding read_quota_params
quota_file_of dev_of dev [] = (str "vfsv0", str "aquota.group")
quota_file_of dev_of dev (l ∷ ls) =
    let rest = quota_file_of dev_of dev ls in
    if dev_of l.point == dev
    then read_quota_params (split 44 l.params) (str "vfsv0", str "aquota.group")
    else rest

-- `getVFSVersionAndQuotaFile`
unfoldable pub get_vfs_version_and_quota_file : (Text → ℕ) → Option Text → ℕ → Option (Text × Text)
unfolding quota_file_of mount_lines
get_vfs_version_and_quota_file dev_of none dev = none
get_vfs_version_and_quota_file dev_of (some mounts) dev =
    some (quota_file_of dev_of dev (mount_lines (split 10 mounts)))
