-- ===== src/Volume/Listing.antt =====
-- storage/volume/core.go: the list of the volumes and its filters.
use pouch.Prelude.{
  Bool, true, ◌&&◌, Option, none, some, List, [], ◌∷◌, ◌++◌, Text, str, Dict, lookup, insert, erase,
  if◌then◌else◌,
}
use pouch.Prelude.Task.{Outcome, done, raised, pure, raise, get, require, attempt, ◌>>=◌, ◌>>◌}
use pouch.Filters.{Args, is_nil, contains, match_kv_list, exact_match, validate}
use pouch.Volume.{
  Volume, is_local, Driver, Host, Err, failed, Action, get_driver, get_all_drivers, values,
}
use pouch.Volume.Core.{put_volume}

-- the volumes of one driver by their names, over those of the drivers before it
unfoldable pub add_real : List Volume → Dict Volume → Dict Volume
add_real [] real = real
add_real (v ∷ vs) real = add_real vs (insert v.name v real)

abbrev listed : Option (List Volume) → List Volume
listed none = []
listed (some vs) = vs

-- the volumes that the drivers list; a driver that is no Lister or fails is passed over
unfoldable pub real_volumes : {W : Type 0} → List (Driver W) → W → Dict Volume → Dict Volume
unfolding add_real
real_volumes [] w real = real
real_volumes (d ∷ ds) w real =
    real_volumes ds w (elim d.lister [ none ↦ real | some f ↦ add_real (listed (f w)) real ])

abbrev at_mount_point : Volume → Volume → Volume
at_mount_point v real = record v { mount_point = real.mount_point }

-- the tests of the filters on one volume
unfoldable pub passes : Args → Volume → Bool
unfolding contains match_kv_list exact_match
passes filter v =
    (if contains (str "label") filter then match_kv_list (str "label") v.labels filter else true)
    && (if contains (str "name") filter then exact_match (str "name") v.name filter else true)
    && (if contains (str "driver") filter
        then exact_match (str "driver") v.backend filter
        else true)

unfoldable pub filter_volumes : Args → List Volume → List Volume
unfolding passes
filter_volumes filter [] = []
filter_volumes filter (v ∷ vs) =
    let rest = filter_volumes filter vs in if passes filter v then v ∷ rest else rest

abbrev pub filtered : Args → List Volume → List Volume
filtered filter vs = if is_nil filter then vs else filter_volumes filter vs

abbrev pub accepted_volume_filter_tags : Dict Bool
accepted_volume_filter_tags = (str "driver", true) ∷ (str "name", true) ∷ (str "label", true) ∷ []

abbrev names : List Volume → List Text
names [] = []
names (v ∷ vs) = v.name ∷ names vs

module _ {W : Type 0} (host : Host W) where
  -- the volume of the store that is listed, if any, and the real volumes that are then left
  unfoldable pub stored_volume :
      Text → Volume → Driver W → Dict Volume → Option Volume × Dict Volume
  unfolding is_local
  stored_volume name v d real =
      if is_local d.store_mode then (some v, real) else elim (lookup name real) [
        | none ↦ (none, real)
        | some rv ↦ (some (at_mount_point v rv), erase name real)
      ]

  abbrev pub onto : Option Volume → List Volume → List Volume
  onto none vs = vs
  onto (some v) vs = v ∷ vs

  abbrev pub step_of :
      Text → Volume → Dict Volume → Outcome Err (Driver W) → Option Volume × Dict Volume
  step_of name v real (done d) = stored_volume name v d real
  step_of name v real (raised _) = (none, real)

  -- the loop over the store; a volume without a driver is passed over
  unfoldable pub stored_volumes : Dict Volume → Dict Volume → Action W (List Volume × Dict Volume)
  stored_volumes [] real = pure ([], real)
  stored_volumes ((name, v) ∷ metas) real = do
    found ← attempt (get_driver host v.backend)
    rest ← stored_volumes metas (step_of name v real found).1
    pure (onto (step_of name v real found).0 rest.0, rest.1)

  -- the loop over the real volumes that are left: each is stored, an error of the store dropped
  unfoldable pub store_new : List Volume → Action W (Unit {0})
  store_new [] = pure tt
  store_new (v ∷ vs) = do _ ← attempt (put_volume host v); store_new vs

  -- `ListVolumes`
  unfoldable pub list_volumes : Args → Action W (List Volume)
  unfolding real_volumes filter_volumes
  list_volumes filter = do
    s ← get
    require (host.lists s.world) failed
    ds ← get_all_drivers host
    found ← stored_volumes s.store (real_volumes ds s.world [])
    store_new (values found.1)
    pure (filtered filter (found.0 ++ values found.1))

  -- `ListVolumeName`
  unfoldable pub list_volume_name : Args → Action W (List Text)
  list_volume_name filter = do vs ← list_volumes filter; pure (names vs)

  abbrev pub list_or_refuse : Args → Option Text → Action W (List Volume)
  list_or_refuse filter (some _) = raise failed
  list_or_refuse filter none = list_volumes filter

  -- `VolumeManager.List`: the filters that it takes are those of volumes
  unfoldable pub list : Args → Action W (List Volume)
  unfolding validate
  list filter = list_or_refuse filter (validate accepted_volume_filter_tags filter)
