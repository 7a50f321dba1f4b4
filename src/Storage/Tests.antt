-- ===== src/Storage/Tests.antt =====
-- Tests of the storage of a container.
use pouch.Prelude.{
  ℕ, suc, ◌≡◌, refl, Bool, true, false, Option, none, some, List, [], ◌∷◌, ◌++◌, Text, str, text_eq,
  split, contains_char, if◌then◌else◌,
}
use pouch.Prelude.Task.{done, raised, ◌>>=◌}
use pouch.Opts.Bind.{read_words, word_of}
use pouch.Storage.Services.{Mount, VolumeService, Gen, Config, no_path}
use pouch.Storage.Places.{is_in}
use pouch.Storage.Binds.{from_bind}
use pouch.Storage.Mounts.{generate_mount_points}
use pouch.Storage.Distinct.{Different, generate_mount_points-Different}
use pouch.Storage.Quotas.{QMap, QuotaHost, QuotaConfig, choose, prepare_quota_map}
use pouch.Storage.Choice.{is_chosen, is_passed, chosen_map, choose-is_chosen}
use pouch.Storage.Shared.{Shared, prepare_quota_map-Shared}

unfoldable without : Text → List Text → List Text
unfolding text_eq
without n [] = []
without n (v ∷ vs) = let rest = without n vs in if text_eq v n then rest else v ∷ rest

-- a volume manager whose world is the list of the volumes that are attached; the volume x has no path
abbrev volumes : VolumeService (List Text)
volumes = record {
  get = λ name w. (some (str "local"), w);
  create = λ name driver w. (true, w);
  attach = λ name id w. (true, name ∷ w);
  detach = λ name id w. (true, without name w);
  remove = λ name w. (true, w);
  path = λ name w. (if text_eq name (str "x") then none else some (str "/v/" ++ name), w);
  generate = λ w. (str "r", w);
}

abbrev with_binds : List Text → Config
with_binds binds = record {
  id = str "c1";
  volume_driver = [];
  volumes_from = [];
  binds = binds;
  volumes = str "/c" ∷ [];
}

abbrev fresh : Gen (List Text)
fresh = record { mounts = []; work = record { volume_set = []; world = [] } }

abbrev plain : Text → Text → Text → Bool → Mount
plain source d name named = record {
  source = source;
  destination = d;
  driver = if text_eq name [] then [] else str "local";
  name = name;
  named = named;
  bind = record {
    rw = true;
    copy_data = if text_eq name [] then false else true;
    replace = [];
    propagation = [];
    mode = [];
  };
}

abbrev collected : Gen (List Text)
collected = record {
  mounts =
      plain (str "/srv") (str "/a") [] true
      ∷ plain (str "/v/data") (str "/b") (str "data") true
      ∷ plain (str "/v/r") (str "/c") (str "r") false
      ∷ [];
  work = record { volume_set = str "r" ∷ str "data" ∷ []; world = str "r" ∷ str "data" ∷ [] };
}

-- the second bind is at the path of the first, and is left out
mounts_are_collected :
    generate_mount_points volumes
      (with_binds (str "/srv:/a" ∷ str "/tmp:/a/./" ∷ str "data:/b" ∷ []))
      (λ _. none)
      (some [])
      fresh
    ≡ (done tt, collected)
unfolding generate_mount_points ◌>>=◌ read_words word_of
mounts_are_collected = refl

generate_mount_points-Different_example : Different collected.mounts
generate_mount_points-Different_example =
    generate_mount_points-Different volumes
      (with_binds (str "/srv:/a" ∷ str "/tmp:/a/./" ∷ str "data:/b" ∷ [])) (λ _. none) (some [])
      fresh collected tt tt mounts_are_collected

abbrev after_replace : Gen (List Text)
after_replace = record {
  mounts =
      record {
        source = str "/v/data/b";
        destination = str "/b";
        driver = [];
        name = [];
        named = false;
        bind = record {
          rw = true;
          copy_data = true;
          replace = str "dr";
          propagation = [];
          mode = str "dr";
        };
      }
      ∷ [];
  work = record { volume_set = str "data" ∷ []; world = str "data" ∷ [] };
}

bind_in_replace_mode :
    from_bind volumes (with_binds []) (str "data:/b:dr") fresh ≡ (done tt, after_replace)
unfolding from_bind ◌>>=◌ read_words word_of
bind_in_replace_mode = refl

-- a volume without a path stays attached: its mount point is not in the list that is detached
volume_without_path_stays :
    generate_mount_points volumes
      (with_binds (str "data:/a" ∷ str "x:/b" ∷ []))
      (λ _. none)
      (some [])
      fresh
    ≡ (
      raised no_path,
      record {
        mounts = plain (str "/v/data") (str "/a") (str "data") true ∷ [];
        work = record { volume_set = str "data" ∷ []; world = str "x" ∷ [] };
      },
    )
unfolding generate_mount_points ◌>>=◌ read_words word_of without
volume_without_path_stays = refl

-- a regular expression that is the text itself or finds all of it
abbrev find : Text → Text → Option Text
find exp d = some (if text_eq exp (str ".*") then d else exp)

lists_b : is_chosen find (str "/b") (str "/a&/b") ≡ true
unfolding split contains_char is_in text_eq
lists_b = refl

all_is_passed : is_passed find (str "/b") (str ".*") ≡ true
unfolding split contains_char is_in text_eq
all_is_passed = refl

choose-is_chosen_example :
    choose find
      ((str ".*", str "1g") ∷ (str "/a&/b", str "2g") ∷ (str "/c", str "3g") ∷ [])
      (plain [] (str "/b") [] false)
      none
    ≡ some (some (chosen_map (plain [] (str "/b") [] false) (str "/a&/b") (str "2g")))
choose-is_chosen_example =
    choose-is_chosen find (plain [] (str "/b") [] false) (str "/a&/b") (str "2g")
      ((str ".*", str "1g") ∷ []) ((str "/c", str "3g") ∷ []) none lists_b (all_is_passed, tt)

-- a host that gives the quota IDs in order
abbrev host : QuotaHost ℕ
host = record {
  next_quota_id = λ n. (some (suc n), suc n);
  volume_size = λ name n. (some [], n);
  is_dir = λ path n. (true, n);
  mount = λ n. (true, n);
  unmount = λ n. n;
  set_rootfs_disk_quota = λ path size id update n. n;
  set_disk_quota = λ path size id n. n;
}

abbrev quotas : QuotaConfig
quotas = record {
  disk_quota = (str "/&/a", str "2g") ∷ (str ".*", str "1g") ∷ [];
  is_running_or_paused = true;
  merged_dir = some (str "/merged");
  mount_fs = [];
  mounts =
      plain (str "/v/a") (str "/a") (str "a") true
      ∷ plain (str "/v/b") (str "/b") (str "b") true
      ∷ [];
}

abbrev quota_map : Text → Text → Text → Text → ℕ → QMap
quota_map source d exp size id = record {
  source = source;
  destination = d;
  expression = exp;
  size = size;
  quota_id = id;
}

abbrev prepared : List QMap
prepared =
    quota_map (str "/v/a") (str "/a") (str "/&/a") (str "2g") 11
    ∷ quota_map (str "/v/b") (str "/b") [] (str "1g") 12
    ∷ quota_map (str "/merged") (str "/") (str "/&/a") (str "2g") 11
    ∷ []

quotas_are_prepared :
    prepare_quota_map host find quotas [] true (record { quota_id = []; world = 10 })
    ≡ (done prepared, record { quota_id = []; world = 12 })
unfolding prepare_quota_map ◌>>=◌
quotas_are_prepared = refl

prepare_quota_map-Shared_example : Shared prepared
prepare_quota_map-Shared_example =
    prepare_quota_map-Shared host find quotas [] true (record { quota_id = []; world = 10 })
      (record { quota_id = []; world = 12 }) prepared quotas_are_prepared
