-- ===== src/Volume/Local.antt =====
-- storage/volume/modules/local/local.go: the driver of directories on the host.
use pouch.Prelude.{
  ℕ, Bool, true, false, not, ◌||◌, Option, none, some, List, [], ◌∷◌, ◌++◌, Text, str, text_eq,
  Dict, lookup, is_empty, if◌then◌else◌,
}
use pouch.Prelude.Paths.{clean}
use pouch.Prelude.Decimal.{format_uint}
use pouch.Volume.{Volume, VolumeContext, new_volume_from_context, option, volume_size, Driver}

-- The host: what os.Stat finds (whether a directory), os.MkdirAll, os.RemoveAll (both by whether they
-- succeed), the disk quota of a path, and `bytefmt.ToBytes`. `data_path` is the driver's own, empty
-- until the daemon sets it.
pub record Directories (W : Type 0) : Type 0 where
  pub stat : Text → W → Option Bool
  pub mkdir_all : Text → W → Bool × W
  pub remove_all : Text → W → Bool × W
  pub set_disk_quota : Text → Text → W → Bool × W
  pub to_bytes : Text → Option ℕ
  pub data_path : Text

abbrev default_data_path : Text
default_data_path = str "/var/lib/pouch/volume"

abbrev value_or : Text → Option Text → Text
value_or other none = other
value_or other (some t) = t

abbrev first_size : List Text → Dict Text → Text
first_size [] options = []
first_size (k ∷ ks) options = elim (lookup k options) [ some s ↦ s | none ↦ first_size ks options ]

abbrev keep_if : {W : Type 0} → Volume → Bool × W → Option Volume × W
keep_if v (true, w) = (some v, w)
keep_if v (false, w) = (none, w)

module _ {W : Type 0} (dirs : Directories W) where
  unfoldable pub default_path : Text → Text
  unfolding clean
  default_path name =
      clean ((if is_empty dirs.data_path then default_data_path else dirs.data_path) ++ 47 ∷ name)

  -- the directory, made if it is not there; a path that is something else is refused
  unfoldable pub make_directory : Text → W → Bool × W
  make_directory path w = elim (dirs.stat path w) [
    | none ↦ dirs.mkdir_all path w
    | some is_dir ↦ (is_dir, w)
  ]

  -- the size in bytes as text, none for a size that cannot be read
  unfoldable pub size_in_bytes : Text → Option Text
  unfolding format_uint
  size_in_bytes s =
      if is_empty s
      then some []
      else elim (dirs.to_bytes s) [ none ↦ none | some n ↦ some (format_uint n) ]

  -- `Create`
  unfoldable pub local_create : VolumeContext → W → Option Volume × W
  unfolding default_path make_directory size_in_bytes new_volume_from_context
  local_create id w =
      let path = value_or (default_path id.name) (lookup (str "mount") id.options) in
      elim (size_in_bytes
        (first_size (str "size" ∷ str "opt.size" ∷ str "Size" ∷ str "opt.Size" ∷ []) id.options)) [
          | none ↦ (none, w)
          | some size ↦ keep_if (new_volume_from_context path size id) (make_directory path w)
        ]

  -- `Remove`
  unfoldable pub local_remove : Volume → W → Bool × W
  local_remove v w = dirs.remove_all v.mount_point w

  -- `Path`
  unfoldable pub local_path : Volume → W → Option Text
  unfolding default_path option
  local_path v w =
      if not (is_empty v.mount_point)
      then some v.mount_point
      else if is_empty (option (str "mount") v)
      then some (default_path v.name)
      else some (option (str "mount") v)

  abbrev quota_after : Volume → Bool × W → Option Volume × W
  quota_after v (false, w) = (none, w)
  quota_after v (true, w) =
      if is_empty (volume_size v) || text_eq (volume_size v) (str "0")
      then (some v, w)
      else keep_if v (dirs.set_disk_quota v.mount_point (volume_size v) w)

  -- `Attach`
  unfoldable pub local_attach : Volume → W → Option Volume × W
  unfolding make_directory volume_size text_eq
  local_attach v w = quota_after v (make_directory v.mount_point w)

  -- `Detach`
  unfoldable pub local_detach : Volume → W → Option Volume × W
  local_detach v w = (some v, w)

  -- `Local`, with its name, its mode (`LocalStore | UseLocalMetaStore`) and its option
  unfoldable pub local_driver : Driver W
  unfolding local_create local_remove local_path local_attach local_detach
  local_driver = record {
    name = str "local";
    store_mode = 9;
    options = some ((str "mount", str "local directory") ∷ []);
    create = local_create;
    remove = local_remove;
    path = local_path;
    getter = none;
    lister = none;
    attach_detach = some (local_attach, local_detach);
  }
