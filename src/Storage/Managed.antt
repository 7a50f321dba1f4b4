-- ===== src/Storage/Managed.antt =====
-- container_storage.go on top of the volume manager of daemon/mgr/volume.go.
pub mod Kept
mod Tests
use pouch.Prelude.{Bool, true, false, Option, none, some, [], ◌∷◌, Text, str}
use pouch.Prelude.Task.{Outcome, done, raised}
use pouch.Volume.{Volume, Host, Service, Err}
use pouch.Volume.Manager.{create, get_by_name, attach, detach, remove, path}
use pouch.Storage.Services.{VolumeService}

abbrev pub is_done : {A : Type 0} → Outcome Err A → Bool
is_done (done _) = true
is_done (raised _) = false

-- `v.Driver()`
abbrev pub driver_of : Outcome Err Volume → Option Text
driver_of (done v) = some v.backend
driver_of (raised _) = none

abbrev pub path_of : Outcome Err Text → Option Text
path_of (done p) = some p
path_of (raised _) = none

module _ {W : Type 0} (host : Host W) (random : W → Text × W) where
  -- the volume manager as attachVolume, getMountPointFromBinds and detachVolumes call it
  unfoldable pub volume_service : VolumeService (Service W)
  unfolding create get_by_name attach detach remove path
  volume_service = record {
    get = λ name s. let r = get_by_name host name s in (driver_of r.0, r.1);
    create = λ name driver s.
        let r = create host name driver ((str "backend", str "local") ∷ []) [] s in
        (is_done r.0, r.1);
    attach = λ name id s. let r = attach host name ((str "ref", id) ∷ []) s in (is_done r.0, r.1);
    detach = λ name id s. let r = detach host name ((str "ref", id) ∷ []) s in (is_done r.0, r.1);
    remove = λ name s. let r = remove host name s in (is_done r.0, r.1);
    path = λ name s. let r = path host name s in (path_of r.0, r.1);
    generate = λ s. let r = random s.world in (r.0, record s { world = r.1 });
  }
