-- ===== src/Storage/Services.antt =====
-- daemon/mgr/container_storage.go: the mount points, and what the container manager asks of others.
use pouch.Prelude.{Bool, Option, List, Text}
use pouch.Prelude.Task.{Task, Outcome, done}
use pouch.Opts.Bind.{MountPoint}

-- `types.MountPoint`; `bind` has the fields that the mode of a bind sets
pub record Mount : Type 0 where
  pub source : Text
  pub destination : Text
  pub driver : Text
  pub name : Text
  pub named : Bool
  pub bind : MountPoint

-- the volume manager, on the world that holds the volumes: the driver of a volume, or none for an error,
-- the path, or none, and whether a call succeeded
pub record VolumeService (W : Type 0) : Type 0 where
  pub get : Text → W → Option Text × W
  pub create : Text → Text → W → Bool × W
  pub attach : Text → Text → W → Bool × W
  pub detach : Text → Text → W → Bool × W
  pub remove : Text → W → Bool × W
  pub path : Text → W → Option Text × W
  -- `randomid.Generate`
  pub generate : W → Text × W

pub data Err : Type 0 where
  bad_bind bad_mode bad_volumes_from no_container no_image : Err
  cannot_create cannot_attach no_path no_volume : Err

-- the volumes that are attached already, and the world
pub record Work (W : Type 0) : Type 0 where
  pub volume_set : List Text
  pub world : W

-- the container's mount points and the rest
pub record Gen (W : Type 0) : Type 0 where
  pub mounts : List Mount
  pub work : Work W

-- the container: its ID and what its configuration says of mounts, each list in the order in which it is
-- read
pub record Config : Type 0 where
  pub id : Text
  pub volume_driver : Text
  pub volumes_from : List Text
  pub binds : List Text
  pub volumes : List Text

module _ {W : Type 0} where
  unfoldable pub call : {A : Type 0} → (W → A × W) → Task (Work W) Err A
  call f w = (done (f w.world).0, record w { world = (f w.world).1 })

  abbrev pub on_outcome : {A : Type 0} → Gen W → Outcome Err A × Work W → Outcome Err A × Gen W
  on_outcome s (o, w) = (o, record s { work = w })

  -- a task that leaves the mount points alone
  unfoldable pub on_work : {A : Type 0} → Task (Work W) Err A → Task (Gen W) Err A
  on_work a s = on_outcome s (a s.work)
