-- ===== src/Volume.antt =====
-- storage/volume: volumes (types/volume.go), the drivers that hold them (driver/driver.go,
-- driver/driver_interface.go) and the table of the drivers. Core is storage/volume/core.go, Manager
-- daemon/mgr/volume.go.
pub mod Core
pub mod Listing
pub mod Manager
pub mod Ready
pub mod References
pub mod Creation
pub mod Local
mod Tests
use pouch.Prelude.{
  ℕ, ◌/◌, ◌%◌, Bool, true, false, not, ◌&&◌, ◌||◌, Option, none, some, List, [], ◌∷◌, Text, str,
  Dict, lookup, insert, erase, is_empty, contains_char, leb, ◌==◌, if◌then◌else◌,
}
use pouch.Prelude.Task.{Task, pure, raise, get, put, require, expect, ◌>>◌, ◌>>=◌}

-- `Volume`: `extra` is Spec.Extra and `backend` Spec.Backend
pub record Volume : Type 0 where
  pub name : Text
  pub backend : Text
  pub size : Text
  pub extra : Dict Text
  pub labels : Dict Text
  pub mount_point : Text

-- `VolumeContext`
pub record VolumeContext : Type 0 where
  pub name : Text
  pub driver : Text
  pub options : Dict Text
  pub labels : Dict Text

-- `NewVolumeFromContext`, without the random UID and the times
unfoldable pub new_volume_from_context : Text → Text → VolumeContext → Volume
new_volume_from_context mount_path size id = record {
  name = id.name;
  backend = id.driver;
  size = size;
  extra = id.options;
  labels = id.labels;
  mount_point = mount_path;
}

abbrev pub or_empty : Option Text → Text
or_empty none = []
or_empty (some t) = t

-- `Option`: the empty text for a key that is missing
unfoldable pub option : Text → Volume → Text
option name v = or_empty (lookup name v.extra)

abbrev first_of : List Text → Dict Text → Text
first_of [] extra = []
first_of (k ∷ ks) extra = elim (lookup k extra) [ some s ↦ s | none ↦ first_of ks extra ]

-- `Size`
unfoldable pub volume_size : Volume → Text
volume_size v =
    if is_empty v.size
    then first_of (str "size" ∷ str "Size" ∷ str "opt.size" ∷ str "opt.Size" ∷ []) v.extra
    else v.size

-- the bits of `VolumeStoreMode`
unfoldable pub is_local : ℕ → Bool
is_local m = m % 2 == 1

unfoldable pub is_remote : ℕ → Bool
is_remote m = (m / 2) % 2 == 1

unfoldable pub central_create_delete : ℕ → Bool
central_create_delete m = (m / 4) % 2 == 1

unfoldable pub use_local_meta : ℕ → Bool
use_local_meta m = (m / 8) % 2 == 1

-- `Valid`
unfoldable pub mode_is_valid : ℕ → Bool
unfolding is_local is_remote central_create_delete use_local_meta
mode_is_valid m =
    if is_local m && is_remote m
    then false
    else if is_local m
    then not (central_create_delete m)
    else if is_remote m
    then not (use_local_meta m)
    else false

-- `Driver` with the optional interfaces Opt, Getter, Lister and AttachDetach, on a world that its calls
-- change. An attached or detached volume may come back changed, none stands for an error.
pub record Driver (W : Type 0) : Type 0 where
  pub name : Text
  pub store_mode : ℕ
  pub options : Option (Dict Text)
  pub create : VolumeContext → W → Option Volume × W
  pub remove : Volume → W → Bool × W
  pub path : Volume → W → Option Text
  pub getter : Option (Text → W → Option Volume)
  pub lister : Option (W → Option (List Volume))
  pub attach_detach : Option ((Volume → W → Option Volume × W) × (Volume → W → Option Volume × W))

-- What is around the service: the plugin of a name and all plugins, as remote drivers (none where they
-- cannot be listed), and whether the store answers a read, a write, a removal and a listing.
pub record Host (W : Type 0) : Type 0 where
  pub plugin : Text → W → Option (Driver W)
  pub plugins : W → Option (List (Text × Driver W))
  pub reads : Text → W → Bool
  pub writes : Text → W → Bool
  pub removes : Text → W → Bool
  pub lists : W → Bool

-- the volumes by their names, as the store holds them, the table of the drivers, and the events logged
pub record Service (W : Type 0) : Type 0 where
  pub world : W
  pub store : Dict Volume
  pub drivers : Dict (Driver W)
  pub events : List (Text × Text)

-- `existed` comes with the volume that is there; the text of `driver_not_found` says "not found"
pub data Err : Type 0 where
  not_found in_use driver_not_found failed : Err
  existed : Volume → Err

abbrev pub Action : Type 0 → Type 0 → Type 0
Action W A = Task (Service W) Err A

-- the regular expressions of the names: a first character of some kind, and no line feed after it
abbrev is_lower_or_digit : ℕ → Bool
is_lower_or_digit c = (leb 97 c && leb c 122) || (leb 48 c && leb c 57)

unfoldable pub is_driver_name : Text → Bool
is_driver_name [] = false
is_driver_name (c ∷ rest) =
    (is_lower_or_digit c || (leb 65 c && leb c 90)) && not (contains_char 10 rest)

abbrev is_option_name : Text → Bool
is_option_name [] = false
is_option_name (c ∷ rest) =
    (is_lower_or_digit c || (c == 45) || (c == 95)) && not (contains_char 10 rest)

abbrev are_options : Dict Text → Bool
are_options [] = true
are_options ((name, desc) ∷ rest) = is_option_name name && not (is_empty desc) && are_options rest

abbrev options_are_valid : Option (Dict Text) → Bool
options_are_valid none = true
options_are_valid (some d) = are_options d

abbrev pub is_free : {V : Type 0} → Option V → Bool
is_free none = true
is_free (some _) = false

module _ {W : Type 0} where
  unfoldable pub add_driver : Text → Driver W → Action W (Unit {0})
  add_driver name d = do s ← get; put (record s { drivers = insert name d s.drivers })

  -- `Register`
  unfoldable pub register : Driver W → Action W (Unit {0})
  register d = do
    s ← get
    require (is_driver_name d.name) failed
    require (mode_is_valid d.store_mode) failed
    require (options_are_valid d.options) failed
    require (is_free (lookup d.name s.drivers)) failed
    add_driver d.name d

  -- `Unregister`
  unfoldable pub unregister : Text → Action W Bool
  unregister name = do
    s ← get
    if is_free (lookup name s.drivers)
        then pure false
        else (put (record s { drivers = erase name s.drivers }) >> pure true)

  -- `Alias`
  unfoldable pub set_alias : Text → Text → Action W (Unit {0})
  set_alias name alias = do
    s ← get
    require (is_driver_name alias) failed
    d ← expect (lookup name s.drivers) failed
    require (is_free (lookup alias s.drivers)) failed
    add_driver alias d

  -- the loop of `NewCore` over the settings of aliases
  unfoldable pub set_aliases : List (List Text) → Action W (Unit {0})
  set_aliases [] = pure tt
  set_aliases ((name ∷ alias ∷ []) ∷ rest) = do set_alias name alias; set_aliases rest
  set_aliases (_ ∷ rest) = raise failed

abbrev pub values : {V : Type 0} → Dict V → List V
values [] = []
values ((_, v) ∷ d) = v ∷ values d

module _ {W : Type 0} (host : Host W) where
  -- the driver of the table, or else the plugin of the name, which goes into the table
  unfoldable pub known_or_plugin : Text → Option (Driver W) → Action W (Driver W)
  known_or_plugin name (some d) = pure d
  known_or_plugin name none = do
    s ← get
    d ← expect (host.plugin name s.world) driver_not_found
    add_driver name d
    pure d

  -- `driverTable.Get`
  unfoldable pub get_driver : Text → Action W (Driver W)
  unfolding known_or_plugin
  get_driver name = do s ← get; known_or_plugin name (lookup name s.drivers)

  -- the loop of `driverTable.GetAll` over the plugins
  unfoldable pub add_plugins : List (Text × Driver W) → Dict (Driver W) → Dict (Driver W)
  add_plugins [] table = table
  add_plugins ((name, d) ∷ rest) table =
      add_plugins rest (if is_free (lookup name table) then insert name d table else table)

  -- `driverTable.GetAll`; the drivers in the order in which they were added
  unfoldable pub get_all_drivers : Action W (List (Driver W))
  unfolding add_plugins
  get_all_drivers = do
    s ← get
    ps ← expect (host.plugins s.world) failed
    put (record s { drivers = add_plugins ps s.drivers })
    pure (values (add_plugins ps s.drivers))
