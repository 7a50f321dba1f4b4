-- ===== src/Opts/Tests.antt =====
-- Runs of the parsers of options, and the theorems at concrete inputs.
use pouch.Prelude.{
  ◌≡◌, ◌≤◌, refl, true, false, List, none, some, [], ◌∷◌, Text, str, text_eq, lookup, insert, erase,
  split, split2, trim_space, contains_char,
}
use pouch.Opts.Env.{
  parse_env, parse_envs, add_envs, merge_envs, merge_env_slice, valid_map_envs_to_slice, merged,
  panics,
}
use pouch.Opts.Env.Merge.{last_said, merge_envs-lookup}
use pouch.Opts.Device.{check_mode, validate_device_mode}
use pouch.Opts.Device.Mode.{validate_device_mode_lem}
use pouch.Opts.Bind.{
  MountPoint, word_of, read_words, parse_bind_mode, check_bind, parse_volumes_from,
}
use pouch.Opts.Bind.Mode.{all_of, count_of, mode_words, is_zero, parse_bind_mode-flags}
use pouch.Opts.Policy.{add_quotas, parse_disk_quota, parse_quota_id}

abbrev news : List Text
news = str "A=2" ∷ str "B" ∷ str "A=3" ∷ []

merge_runs :
    merge_env_slice news (str "A=1" ∷ str "B=1" ∷ str "C=1" ∷ [])
    ≡ merged (str "A=3" ∷ str "C=1" ∷ [])
unfolding merge_env_slice parse_envs parse_env trim_space split2 add_envs merge_envs
    valid_map_envs_to_slice insert erase text_eq
merge_runs = refl

-- an old setting without a value is out of range
merge_panics : merge_env_slice (str "A=2" ∷ []) (str "B" ∷ []) ≡ panics
unfolding merge_env_slice parse_envs parse_env trim_space split2 add_envs
merge_panics = refl

merge_envs-lookup_example :
    lookup (str "A") (merge_envs news ((str "A", str "1") ∷ [])) ≡ some (str "3")
unfolding last_said split2 text_eq
merge_envs-lookup_example = merge_envs-lookup news (str "A") ((str "A", str "1") ∷ [])

twice_refused : validate_device_mode (str "rwr") ≡ false
unfolding validate_device_mode check_mode
twice_refused = refl

validate_device_mode_lem_example : validate_device_mode (str "mr") ≡ true
unfolding contains_char
validate_device_mode_lem_example = validate_device_mode_lem (str "mr")

abbrev fresh_mount : MountPoint
fresh_mount = record { rw = false; copy_data = false; replace = []; propagation = []; mode = [] }

abbrev read_only : MountPoint
read_only = record {
  rw = false;
  copy_data = true;
  replace = [];
  propagation = str "rshared";
  mode = str "ro,rshared";
}

-- both labels are taken: the number of labels is not tested
two_labels :
    parse_bind_mode fresh_mount (str "z,Z")
    ≡ some (record fresh_mount { rw = true; copy_data = true; mode = str "z,Z" })
unfolding parse_bind_mode split word_of read_words text_eq
two_labels = refl

parse_bind_mode-flags_example :
    let ts = split 44 (str "ro,rshared") in
    (all_of mode_words ts ≡ true)
    × (count_of (str "ro" ∷ str "rw" ∷ []) ts ≤ 1)
    × (count_of (str "nocopy" ∷ []) ts ≤ 1)
    × (read_only.rw ≡ is_zero (count_of (str "ro" ∷ []) ts))
    × (read_only.copy_data ≡ is_zero (count_of (str "nocopy" ∷ []) ts))
unfolding parse_bind_mode split word_of read_words text_eq
parse_bind_mode-flags_example = parse_bind_mode-flags fresh_mount read_only (str "ro,rshared") refl

quotas_run :
    (parse_disk_quota (str "10g" ∷ str "/a=5g" ∷ [])
      ≡ some ((str ".*", str "10g") ∷ (str "/a", str "5g") ∷ []))
    × (parse_quota_id [] (str "10g" ∷ []) ≡ some (str "-1"))
unfolding parse_disk_quota add_quotas parse_quota_id split insert text_eq
quotas_run = (refl, refl)

binds_run :
    (check_bind (str "/a:b") ≡ none)
    × (check_bind (str "a:/b") ≡ some (str "a" ∷ str "/b" ∷ []))
    × (parse_volumes_from (str "c:ro") ≡ some (str "c", str "ro"))
unfolding check_bind parse_volumes_from split text_eq
binds_run = (refl, refl, refl)
