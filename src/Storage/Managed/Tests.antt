-- ===== src/Storage/Managed/Tests.antt =====
-- A bind in replace mode of a volume that a driver holds in memory.
use pouch.Prelude.{◌≡◌, refl, true, none, some, [], ◌∷◌, Text, str, text_eq, lookup, has_prefix}
use pouch.Prelude.Task.{done, raised}
use pouch.Opts.Bind.{check_bind, MountPoint, parse_bind_mode, read_words, word_of}
use pouch.Volume.{Volume, Driver, Host, Service, in_use}
use pouch.Volume.Manager.{remove}
use pouch.Volume.Ready.{Answers, IsPlain, Ready}
use pouch.Storage.Services.{Config, Gen, Work}
use pouch.Storage.Places.{is_in}
use pouch.Storage.Binds.{from_bind}
use pouch.Storage.Mounts.{detach_each}
use pouch.Storage.Managed.{volume_service}
use pouch.Storage.Managed.Kept.{HasPaths, from_bind-remove}

abbrev kept_data : Volume
kept_data = record {
  name = str "data";
  backend = str "memory";
  size = [];
  extra = [];
  labels = [];
  mount_point = str "/m";
}

-- its world says nothing
abbrev memory : Driver (Unit {0})
memory = record {
  name = str "memory";
  store_mode = 9;
  options = none;
  create = λ id w. (some kept_data, w);
  remove = λ v w. (true, w);
  path = λ v w. some (str "/m");
  getter = none;
  lister = none;
  attach_detach = some (λ v w. (some v, w), λ v w. (some v, w));
}

abbrev host : Host (Unit {0})
host = record {
  plugin = λ name w. none;
  plugins = λ w. some [];
  reads = λ name w. true;
  writes = λ name w. true;
  removes = λ name w. true;
  lists = λ w. true;
}

abbrev random : Unit {0} → Text × Unit {0}
random w = (str "r", w)

abbrev work : Work (Service (Unit {0}))
work = record {
  volume_set = [];
  world = record {
    world = tt;
    store = (str "data", kept_data) ∷ [];
    drivers = (str "memory", memory) ∷ [];
    events = [];
  };
}

abbrev c1 : Config
c1 = record {
  id = str "c1";
  volume_driver = [];
  volumes_from = [];
  binds = str "data:/b:dr" ∷ [];
  volumes = [];
}

abbrev dr_mode : MountPoint
dr_mode = record {
  rw = true;
  copy_data = true;
  replace = str "dr";
  propagation = [];
  mode = str "dr";
}

answers : Answers host
answers = record { reads = λ n w. refl; writes = λ n w. refl }

plain : IsPlain memory
plain = record { no_getter = refl; attach = λ v w. w; detach = λ v w. w; calls = refl }

paths : HasPaths memory
unfolding has_prefix
paths = record { path = λ v w. str "/m"; gives = λ v w. refl; absolute = λ v w. refl }

ready : Ready (str "data") kept_data memory work.world
unfolding lookup text_eq
ready = record { stored = refl; own_name = refl; driver = refl }

from_bind-remove_example :
    let vs = volume_service host random in
    (t : Gen (Service (Unit {0}))) × ((from_bind vs c1
          (str "data:/b:dr")
          (record { mounts = []; work = work })
        ≡ (done tt, t))
      × (remove host (str "data") (detach_each vs c1 t.mounts t.work.world)
          ≡ (raised in_use, t.work.world)))
unfolding check_bind parse_bind_mode read_words word_of has_prefix is_in
from_bind-remove_example =
    from_bind-remove host random c1 answers memory plain paths (str "data:/b:dr") (str "data")
      (str "/b") (str "dr") dr_mode kept_data work refl refl refl refl refl refl refl ready
