-- ===== src/Storage/Mounts.antt =====
-- daemon/mgr/container_storage.go: the mount points that `generateMountPoints` collects.
use pouch.Prelude.{
  Bool, true, false, not, ◌&&◌, ◌||◌, Option, List, [], ◌∷◌, Text, str, is_empty, contains_text,
  if◌then◌else◌,
}
use pouch.Prelude.Paths.{clean}
use pouch.Prelude.Task.{Task, Outcome, done, raised, pure, get, expect, ◌>>=◌, ◌>>◌}
use pouch.Opts.Bind.{parse_volumes_from, MountPoint, parse_bind_mode}
use pouch.Storage.Services.{
  Mount, VolumeService, Err, bad_mode, bad_volumes_from, no_container, no_image, Work, Gen, Config,
  call, on_work,
}
use pouch.Storage.Places.{is_duplicate, is_in, no_bind, Body, place, in_turn, remember}
use pouch.Storage.Binds.{attach_volume, get_mount_point_from_binds}

abbrev pub is_new_volume : Text → List Text → Bool
is_new_volume name set = not (is_empty name) && not (is_in name set)

-- a mode that has no word on writing or on copying leaves what the other mount point has
abbrev pub inherited : Text → Mount → MountPoint → MountPoint
inherited mode old mp = record mp {
  rw =
      if contains_text (str "ro") mode || contains_text (str "rw") mode then mp.rw else old.bind.rw;
  copy_data =
      if contains_text (str "nocopy") mode
      then mp.copy_data
      else not (contains_text (str "nocopy") old.bind.mode);
}

abbrev pub cleaned : List Mount → List Mount
cleaned [] = []
cleaned (m ∷ ms) =
    record m { source = clean m.source; destination = clean m.destination } ∷ cleaned ms

module _ {W : Type 0} (vs : VolumeService W) (c : Config) where
  -- a volume with a name that was made up
  unfoldable pub volume_body : Text → Task (Work W) Err Body
  unfolding attach_volume parse_bind_mode remember
  volume_body name = do
    attached ← attach_volume vs c name
    mp ← expect (parse_bind_mode no_bind []) bad_mode
    remember name
    pure
        (record { source = attached.0; driver = attached.1; name = name; named = false; bind = mp })

  abbrev pub unless_known : Text → Text → Bool → Task (Gen W) Err (Unit {0})
  unless_known name d true = pure tt
  unless_known name d false = place d (volume_body name)

  -- one turn of the loop over the volumes of the image: the name is made up before the test for a
  -- duplicate
  unfoldable pub from_image_volume : Text → Task (Gen W) Err (Unit {0})
  unfolding on_work call place volume_body is_in
  from_image_volume d = do
    name ← on_work (call vs.generate)
    s ← get
    unless_known name d (is_in name s.work.volume_set)

  -- one turn of the loop over the volumes of the configuration
  unfoldable pub from_volume : Text → Task (Gen W) Err (Unit {0})
  unfolding is_duplicate from_image_volume
  from_volume d = do s ← get; if is_duplicate s.mounts d then pure tt else from_image_volume d

  unfoldable pub get_mount_point_from_volumes : Task (Gen W) Err (Unit {0})
  unfolding in_turn from_volume
  get_mount_point_from_volumes = in_turn from_volume c.volumes

  -- `image` is the list of the volumes of the image, or none if it is not found
  unfoldable pub get_mount_point_from_image : Option (List Text) → Task (Gen W) Err (Unit {0})
  unfolding in_turn from_image_volume
  get_mount_point_from_image image = do
    volumes ← expect image no_image
    in_turn from_image_volume volumes

  -- the name, the source and the driver of a mount point that is taken over
  unfoldable pub taken_volume : Mount → Bool → Task (Work W) Err (Text × Text × Text)
  unfolding attach_volume remember
  taken_volume old false = pure ([], old.source, old.driver)
  taken_volume old true = do
    attached ← attach_volume vs c old.name
    remember old.name
    pure (old.name, attached.0, attached.1)

  unfoldable pub taken_body : Text → Mount → Task (Work W) Err Body
  unfolding is_in taken_volume parse_bind_mode contains_text
  taken_body mode old = do
    w ← get
    (name, source, driver) ← taken_volume old (is_new_volume old.name w.volume_set)
    mp ← expect (parse_bind_mode (record old.bind { rw = false; copy_data = false }) mode) bad_mode
    pure (record {
      source = source;
      driver = driver;
      name = name;
      named = old.named;
      bind = inherited mode old mp;
    })

  -- `container` gives the mount points of a container, or none if it is not found
  unfoldable pub from_container : (Text → Option (List Mount)) → Text → Task (Gen W) Err (Unit {0})
  unfolding parse_volumes_from in_turn place taken_body
  from_container container v = do
    (id, mode) ← expect (parse_volumes_from v) bad_volumes_from
    mounts ← expect (container id) no_container
    in_turn (λ m. place m.destination (taken_body mode m)) mounts

  unfoldable pub get_mount_point_from_containers :
      (Text → Option (List Mount)) → Task (Gen W) Err (Unit {0})
  unfolding in_turn from_container
  get_mount_point_from_containers container = in_turn (from_container container) c.volumes_from

  -- the loop of `detachVolumes`; errors are only logged
  unfoldable pub detach_each : List Mount → W → W
  detach_each [] w = w
  detach_each (m ∷ ms) w =
      detach_each ms (if is_empty m.name then w else (vs.detach m.name c.id w).1)

  -- the deferred call, or the paths cleaned
  abbrev pub settled : Outcome Err (Unit {0}) × Gen W → Outcome Err (Unit {0}) × Gen W
  settled (done u, s) = (done u, record s { mounts = cleaned s.mounts })
  settled (raised e, s) =
      (raised e, record s { work = record s.work { world = detach_each s.mounts s.work.world } })

  unfoldable pub collect :
      (Text → Option (List Mount)) → Option (List Text) → Task (Gen W) Err (Unit {0})
  unfolding get_mount_point_from_containers get_mount_point_from_binds get_mount_point_from_image
      get_mount_point_from_volumes
  collect container image = do
    get_mount_point_from_containers container
    get_mount_point_from_binds vs c
    get_mount_point_from_image image
    get_mount_point_from_volumes

  unfoldable pub generate_mount_points :
      (Text → Option (List Mount)) → Option (List Text) → Task (Gen W) Err (Unit {0})
  unfolding collect clean detach_each
  generate_mount_points container image s =
      settled (collect container image (record s { work = record s.work { volume_set = [] } }))
