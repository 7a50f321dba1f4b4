-- ===== src/Storage/Binds.antt =====
-- daemon/mgr/container_storage.go: the mount points of volumes and binds.
use pouch.Prelude.{
  Bool, true, false, Option, none, some, List, [], ◌∷◌, Text, str, text_eq, is_empty, has_prefix,
  if◌then◌else◌,
}
use pouch.Prelude.Task.{Task, pure, raise, get, require, expect, ◌>>=◌, ◌>>◌}
use pouch.Opts.Bind.{check_bind, MountPoint, parse_bind_mode}
use pouch.Storage.Services.{
  VolumeService, Err, bad_bind, bad_mode, cannot_create, cannot_attach, no_path, no_volume, Work,
  Gen, Config, call,
}
use pouch.Storage.Places.{is_in, no_bind, Body, path_join, place, in_turn, remember}

abbrev pub unnamed : MountPoint → Text → Body
unnamed mp source = record { source = source; driver = []; name = []; named = false; bind = mp }

abbrev pub host_bind : Text → Bool → MountPoint → Body
host_bind source named mp = record {
  source = source;
  driver = [];
  name = [];
  named = named;
  bind = record mp { copy_data = false };
}

module _ {W : Type 0} (vs : VolumeService W) (c : Config) where
  unfoldable pub created_driver : Text → Option Text → Task (Work W) Err Text
  unfolding call
  created_driver name (some driver) = pure driver
  created_driver name none = do
    ok ← call (vs.create name c.volume_driver)
    require ok cannot_create
    pure (str "local")

  -- `attachVolume`: the path and the driver
  unfoldable pub attach_volume : Text → Task (Work W) Err (Text × Text)
  unfolding call created_driver
  attach_volume name = do
    found ← call (vs.get name)
    driver ← created_driver name found
    ok ← call (vs.attach name c.id)
    require ok cannot_attach
    found_path ← call (vs.path name)
    mount_path ← expect found_path no_path
    pure (mount_path, driver)

  unfoldable pub attach_new : Text → Bool → Task (Work W) Err (Unit {0})
  unfolding attach_volume remember
  attach_new name true = pure tt
  attach_new name false = do _ ← attach_volume name; remember name

  -- the switch on the replace mode
  unfoldable pub replaced : Text → Bool → Text → Text → Text → MountPoint → Task (Work W) Err Body
  unfolding call text_eq path_join
  replaced name named path driver d mp =
      if is_empty mp.replace
      then pure (record { source = path; driver = driver; name = name; named = named; bind = mp })
      else if text_eq mp.replace (str "dr")
      then pure (unnamed mp (path_join path d))
      else if text_eq mp.replace (str "rr")
      then call vs.generate >>= (λ random. pure (unnamed mp (path_join path random)))
      else pure (unnamed mp path)

  -- the bind of a volume
  unfoldable pub bind_volume : Text → Bool → Text → MountPoint → Task (Work W) Err Body
  unfolding call attach_new is_in replaced
  bind_volume name named d mp = do
    w ← get
    attach_new name (is_in name w.volume_set)
    found ← call (vs.get name)
    driver ← expect found no_volume
    found_path ← call (vs.path name)
    path ← expect found_path no_path
    replaced name named path driver d mp

  unfoldable pub source_or_random : Text → Task (Work W) Err Text
  unfolding call
  source_or_random source = if is_empty source then call vs.generate else pure source

  -- what follows the test for a duplicate in the loop over the binds
  unfoldable pub bind_body : Text → Bool → Text → Text → Task (Work W) Err Body
  unfolding source_or_random parse_bind_mode bind_volume has_prefix
  bind_body source named d mode = do
    from ← source_or_random source
    mp ← expect (parse_bind_mode no_bind mode) bad_mode
    if has_prefix (str "/") from
        then pure (host_bind from named mp)
        else bind_volume from named d mp

  abbrev pub bind_parts : List Text → Task (Gen W) Err (Unit {0})
  bind_parts [] = raise bad_bind
  bind_parts (d ∷ []) = place d (bind_body [] false d [])
  bind_parts (source ∷ d ∷ []) = place d (bind_body source true d [])
  bind_parts (source ∷ d ∷ mode ∷ []) = place d (bind_body source true d mode)
  bind_parts (_ ∷ _ ∷ _ ∷ _ ∷ _) = raise bad_bind

  unfoldable pub from_bind : Text → Task (Gen W) Err (Unit {0})
  unfolding check_bind place bind_body
  from_bind b = do parts ← expect (check_bind b) bad_bind; bind_parts parts

  unfoldable pub get_mount_point_from_binds : Task (Gen W) Err (Unit {0})
  unfolding in_turn from_bind
  get_mount_point_from_binds = in_turn from_bind c.binds
