-- ===== src/Volume/Tests.antt =====
-- Runs of the volume manager on a small host, and the theorems at concrete inputs.
use pouch.Prelude.{
  ℕ, ◌≡◌, refl, true, false, none, some, [], ◌∷◌, Text, str, text_eq, lookup, contains_text,
  contains_char, has_prefix,
}
use pouch.Prelude.Task.{done}
use pouch.Volume.{Volume, option, mode_is_valid, Driver, Host, Service}
use pouch.Volume.Manager.{attach, detach}
use pouch.Volume.Ready.{Answers, IsPlain, Ready}
use pouch.Volume.References.{ref_of, attach-detach}
use pouch.Volume.References.Lost.{interleaved, attach-attached, interleaved-ref}

-- a driver that makes volumes in memory; its world is a number
abbrev memory : Driver ℕ
memory = record {
  name = str "memory";
  store_mode = 9;
  options = none;
  create = λ id w. (
    some (record {
      name = id.name;
      backend = id.driver;
      size = [];
      extra = id.options;
      labels = id.labels;
      mount_point = str "/m";
    }),
    w,
  );
  remove = λ v w. (true, w);
  path = λ v w. some v.mount_point;
  getter = none;
  lister = none;
  attach_detach = some (λ v w. (some v, w), λ v w. (some v, w));
}

abbrev host : Host ℕ
host = record {
  plugin = λ name w. none;
  plugins = λ w. some [];
  reads = λ name w. true;
  writes = λ name w. true;
  removes = λ name w. true;
  lists = λ w. true;
}

abbrev volume : Text → Volume
volume ref = record {
  name = str "v";
  backend = str "memory";
  size = [];
  extra = (str "ref", ref) ∷ [];
  labels = [];
  mount_point = str "/m";
}

abbrev service : Text → Service ℕ
service ref = record {
  world = 0;
  store = (str "v", volume ref) ∷ [];
  drivers = (str "memory", memory) ∷ [];
  events = [];
}

answers : Answers host
answers = record { reads = λ n w. refl; writes = λ n w. refl }

plain : IsPlain memory
plain = record { no_getter = refl; attach = λ v w. w; detach = λ v w. w; calls = refl }

ready : (ref : Text) → Ready (str "v") (volume ref) memory (service ref)
unfolding lookup text_eq
ready ref = record { stored = refl; own_name = refl; driver = refl }

-- the mode of plugins, `RemoteStore | UseLocalMetaStore`, is not valid, and that of the local driver is
remote_mode : mode_is_valid 10 ≡ false
unfolding mode_is_valid
remote_mode = refl

local_mode : mode_is_valid 9 ≡ true
unfolding mode_is_valid
local_mode = refl

attach-detach_example :
    (u : Volume) × ((lookup
          (str "v")
          (detach host
            (str "v")
            (ref_of (str "b"))
            (attach host (str "v") (ref_of (str "b")) (service (str "a"))).1).1.store
        ≡ some u)
      × (option (str "ref") u ≡ option (str "ref") (volume (str "a"))))
unfolding contains_char contains_text has_prefix option lookup text_eq
attach-detach_example =
    attach-detach host answers memory plain (str "v") (str "b") (volume (str "a"))
      (service (str "a")) refl refl refl (ready (str "a"))

attach-attached_example :
    (u : Volume) × (((attach host (str "v") (ref_of (str "a")) (service (str "a,b"))).0 ≡ done u)
      × (lookup (str "v") (attach host (str "v") (ref_of (str "a")) (service (str "a,b"))).1.store
          ≡ some u)
      × (option (str "ref") u ≡ str "a"))
unfolding contains_text has_prefix option lookup text_eq
attach-attached_example =
    attach-attached host answers memory plain (str "v") (str "a") (volume (str "a,b"))
      (service (str "a,b")) refl refl (ready (str "a,b"))

interleaved-ref_example :
    (u : Volume) × (w : Volume) × (((interleaved host (str "v") (str "a") (str "b") (service [])).0
        ≡ done u)
      × (lookup (str "v") (interleaved host (str "v") (str "a") (str "b") (service [])).1.store
          ≡ some u)
      × (lookup (str "v") (attach host (str "v") (ref_of (str "b")) (service [])).1.store ≡ some w)
      × (option (str "ref") u ≡ option (str "ref") w))
interleaved-ref_example =
    interleaved-ref host answers memory plain (str "v") (str "a") (str "b") (volume []) (service [])
      refl refl (ready [])
