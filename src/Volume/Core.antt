-- ===== src/Volume/Core.antt =====
-- storage/volume/core.go: the volumes of the store and those that the drivers know. The key mutex that
-- each call takes on the name of its volume is what makes it one step.
use pouch.Prelude.{
  Bool, Option, none, some, List, [], ◌∷◌, Text, str, Dict, lookup, insert, erase, is_empty,
  has_prefix, if◌then◌else◌,
}
use pouch.Prelude.Task.{
  Outcome, done, raised, pure, raise, get, put, require, expect, attempt, ◌>>=◌, ◌>>◌,
}
use pouch.Volume.{
  Volume, VolumeContext, option, Driver, Host, Err, not_found, in_use, driver_not_found, failed,
  existed, Action, get_driver, get_all_drivers,
}

-- v.Spec.Extra[key] = value for each of the options
unfoldable pub merge_extra : Dict Text → Dict Text → Dict Text
merge_extra [] extra = extra
merge_extra ((k, v) ∷ options) extra = merge_extra options (insert k v extra)

abbrev pub with_extra : Dict Text → Volume → Volume
with_extra options v = record v { extra = merge_extra options v.extra }

module _ {W : Type 0} (host : Host W) where
  -- `store.Put`
  unfoldable pub put_volume : Volume → Action W (Unit {0})
  put_volume v = do
    s ← get
    require (host.writes v.name s.world) failed
    put (record s { store = insert v.name v s.store })

  -- `store.Remove`
  unfoldable pub remove_meta : Text → Action W (Unit {0})
  remove_meta name = do
    s ← get
    require (host.removes name s.world) failed
    put (record s { store = erase name s.store })

  -- a call of a driver that gives a volume or an error
  unfoldable pub call_volume : (W → Option Volume × W) → Action W Volume
  call_volume f = do s ← get; put (record s { world = (f s.world).1 }); expect (f s.world).0 failed

  -- a call of a driver that gives an error or not
  unfoldable pub call_unit : (W → Bool × W) → Action W (Unit {0})
  call_unit f = do s ← get; put (record s { world = (f s.world).1 }); require (f s.world).0 failed

  -- a volume of the store, as its driver knows it if the driver is a Getter
  unfoldable pub as_driver_knows :
      Text → Volume → Option (Text → W → Option Volume) → Action W Volume
  as_driver_knows name v none = pure v
  as_driver_knows name v (some f) = do s ← get; expect (f name s.world) not_found

  unfoldable pub current : Text → Volume → Action W Volume
  unfolding as_driver_knows
  current name v = get_driver host v.backend >>= λ d. as_driver_knows name v d.getter

  abbrev pub asked : Option (Text → W → Option Volume) → Text → W → Option Volume
  asked none name w = none
  asked (some f) name w = f name w

  -- what a driver knows is stored and given back, and else the search goes on
  unfoldable pub probed : Action W Volume → Option Volume → Action W Volume
  probed others none = others
  probed others (some v) = do put_volume v; pure v

  -- the loop of `getVolume` over the drivers
  unfoldable pub probe : Text → List (Driver W) → Action W Volume
  unfolding probed
  probe name [] = raise not_found
  probe name (d ∷ ds) = do s ← get; probed (probe name ds) (asked d.getter name s.world)

  unfoldable pub current_or_probed : Text → Option Volume → Action W Volume
  unfolding current probe
  current_or_probed name (some v) = current name v
  current_or_probed name none = get_all_drivers host >>= probe name

  -- `getVolume`, and `GetVolume`, which locks the name
  unfoldable pub get_volume : Text → Action W Volume
  unfolding current_or_probed
  get_volume name = do
    s ← get
    require (host.reads name s.world) failed
    current_or_probed name (lookup name s.store)

  -- `getVolumeDriver`
  unfoldable pub get_volume_driver : Text → Action W (Volume × Driver W)
  get_volume_driver name = do v ← get_volume name; d ← get_driver host v.backend; pure (v, d)

  -- the rest of `CreateVolume` after the search for the name
  unfoldable pub create_missing : VolumeContext → Outcome Err Volume → Action W Volume
  create_missing id (done v) = raise (existed v)
  create_missing id (raised not_found) = do
    d ← get_driver host id.driver
    v ← call_volume (d.create id)
    put_volume v
    pure v
  create_missing id (raised in_use) = raise in_use
  create_missing id (raised driver_not_found) = raise driver_not_found
  create_missing id (raised failed) = raise failed
  create_missing id (raised (existed v)) = raise (existed v)

  -- `CreateVolume`
  unfoldable pub create_volume : VolumeContext → Action W Volume
  create_volume id = attempt (get_volume id.name) >>= create_missing id

  -- `RemoveVolume`
  unfoldable pub remove_volume : Text → Action W (Unit {0})
  remove_volume name = do
    found ← get_volume_driver name
    call_unit (found.1.remove found.0)
    remove_meta name

  -- `VolumePath`
  unfoldable pub volume_path : Text → Action W Text
  volume_path name = do
    found ← get_volume_driver name
    s ← get
    p ← expect (found.1.path found.0 s.world) failed
    require (has_prefix (str "/") p) failed
    pure p

  abbrev pub Calls : Type 0
  Calls = (Volume → W → Option Volume × W) × (Volume → W → Option Volume × W)

  unfoldable pub attached : Volume → Option Calls → Action W Volume
  attached v none = pure v
  attached v (some calls) = call_volume (calls.0 v)

  -- the driver detaches a volume that has no reference left
  unfoldable pub detached : Volume → Option Calls → Action W Volume
  unfolding option
  detached v none = pure v
  detached v (some calls) =
      if is_empty (option (str "ref") v) then call_volume (calls.1 v) else pure v

  -- `AttachVolume`
  unfoldable pub attach_volume : Text → Dict Text → Action W Volume
  unfolding merge_extra attached
  attach_volume name options = do
    found ← get_volume_driver name
    v ← attached (with_extra options found.0) found.1.attach_detach
    put_volume v
    pure v

  -- `DetachVolume`
  unfoldable pub detach_volume : Text → Dict Text → Action W Volume
  unfolding merge_extra detached
  detach_volume name options = do
    found ← get_volume_driver name
    v ← detached (with_extra options found.0) found.1.attach_detach
    put_volume v
    pure v
