-- ===== src/Container/Tests.antt =====
-- Runs of the container operations, and the theorems at concrete inputs.
use pouch.Prelude.{
  ◌≡◌, ◌≢◌, refl, ◌&&◌, not, true, false, Text, str, text_eq, has_prefix, none, some, [], ◌∷◌,
  lookup, erase, arith, if◌then◌else◌,
}
use pouch.Prelude.Int.{pos}
use pouch.Container.State.{State, running, is_running_or_paused}
use pouch.Container.State.Flags.{IsCoherent}
use pouch.Container.Manager.{
  Container, Manager, ok, not_found, container, container_id, container_from_cache,
  keys_with_prefix,
}
use pouch.Container.Manager.Action.{◌>>=◌}
use pouch.Container.Manager.Keeps.{States}
use pouch.Container.Lifecycle.{
  Env, killed, mark_stopped_and_release, mark_exited_and_release, detach_volumes, release_resources,
  attach_volumes, attach_volume, detach_each, detach_volume, remove_endpoints, reset_ios,
  unset_merged_dir,
}
use pouch.Container.Lifecycle.Soundness.{IsSound}
use pouch.Container.Operations
use pouch.Container.Operations.Soundness.{pauses, exits, after_all, calls_keep-IsSound}
use pouch.Container.Operations.Guards.{pause-unpause}
use pouch.Container.Operations.Rollback.{is_attached, failed_start_detaches}
use pouch.Container.Operations.Renaming.{rename_moves}
use pouch.Container.Operations.Removing.{remove_forgets}
use pouch.Container.Operations.Reused.{with_name, late_mark_after_removal}

abbrev up : State
up = record {
  status = running;
  dead_flag = false;
  exited_flag = false;
  paused_flag = false;
  restarting_flag = false;
  running_flag = true;
  oom_killed = false;
  pid = pos 42;
  exit_code = pos 0;
  error = [];
  started_at = str "10:00";
  finished_at = [];
}

abbrev web : Container
web = record {
  name = str "web";
  state = up;
  detach_keys = [];
  restart_count = 0;
  merged_dir = str "/m";
  base_fs = str "/m";
  mounts = [];
}

abbrev id : Text
id = str "4f"

abbrev host : Manager
host = record {
  heap = λ _. web;
  cache = (id, some id) ∷ [];
  name_to_id = (str "web", id) ∷ [];
  store = (id, web) ∷ [];
  ios = [];
  attached = [];
  volumes = [];
  events = [];
}

abbrev calm : Env
calm = record {
  now = str "11:00";
  writes = true;
  removes = true;
  destroy = ok none;
  kill_answer = killed;
  pauses = true;
  unpauses = true;
  attaches = λ _. true;
  detaches = λ _. true;
  volume_removals = λ _. true;
  network = true;
  prepared = true;
  creates = true;
  pid = some 7;
  endpoints = [];
}

by_prefix : container (str "4") host ≡ ok id
unfolding container container_id container_from_cache keys_with_prefix has_prefix lookup text_eq
by_prefix = refl

by_name : container (str "web") host ≡ ok id
unfolding container container_id container_from_cache lookup text_eq
by_name = refl

IsCoherent-up : IsCoherent up
IsCoherent-up = record {
  dead_iff = refl;
  exited_iff = refl;
  paused_iff = refl;
  restarting_iff = refl;
  running_iff = refl;
}

all_up : States IsSound host
all_up = record { of_each = λ q. ground arith }

calls_keep-IsSound_example :
    States IsSound (after_all (pauses calm id ∷ exits calm true id none ∷ []) host)
calls_keep-IsSound_example =
    calls_keep-IsSound (pauses calm id ∷ exits calm true id none ∷ []) host all_up

pause-unpause_example :
    let once = Operations.pause calm id host in
    let twice = Operations.unpause calm id once.1 in
    (once.0 ≡ ok tt)
    × (twice.0 ≡ ok tt)
    × ((q : Text) → twice.1.heap q ≡ web)
    × (lookup id twice.1.store ≡ some web)
unfolding lookup text_eq
pause-unpause_example = pause-unpause calm id host refl IsCoherent-up refl refl refl refl

remove_forgets_example :
    let m' = (Operations.remove calm true false id host).1 in
    ((q : Text) → lookup q m'.cache ≡ (if text_eq id q then none else lookup q host.cache))
    × ((q : Text)
        → lookup q m'.name_to_id
          ≡ (if text_eq (str "web") q then none else lookup q host.name_to_id))
    × ((q : Text) → lookup q m'.store ≡ (if text_eq id q then none else lookup q host.store))
    × ((m'.heap id).state.dead_flag ≡ true)
unfolding Operations.remove Operations.remove_known Operations.forget Operations.drop_meta
    release_resources remove_endpoints reset_ios detach_volumes ◌>>=◌ container container_from_cache
    is_running_or_paused unset_merged_dir lookup text_eq erase
remove_forgets_example = remove_forgets calm true false id id host refl refl refl refl

late_mark_after_removal_example :
    let m' = (Operations.remove calm true false id host).1 in
    let reused = with_name (str "web") (str "c2") m' in
    (lookup id m'.store ≡ none)
    × (lookup id (mark_stopped_and_release calm id none m').1.store ≡ none)
    × (lookup id (mark_exited_and_release calm id none m').1.store ≡ none)
    × (lookup id (mark_stopped_and_release calm id none reused).1.store ≢ none)
    × (lookup id (mark_exited_and_release calm id none reused).1.store ≢ none)
unfolding Operations.remove Operations.remove_known Operations.forget Operations.drop_meta
    release_resources remove_endpoints reset_ios detach_volumes ◌>>=◌ container container_from_cache
    container_id keys_with_prefix is_running_or_paused unset_merged_dir lookup text_eq erase
late_mark_after_removal_example =
    late_mark_after_removal calm true false id id (str "c2") host none not_found refl refl refl refl
      refl refl

abbrev offline : Env
offline = record calm { network = false }

abbrev with_mount : Manager
with_mount = record host {
  heap = λ _. record web { mounts = record { name = str "data"; named = true } ∷ [] };
}

-- the volume that a failed start has attached is detached
mount_released : (Operations.start_guarded offline id with_mount).1.attached ≡ []
unfolding Operations.start_guarded Operations.roll_back attach_volumes attach_volume ◌>>=◌
    detach_each detach_volume release_resources reset_ios lookup remove_endpoints text_eq
mount_released = refl

start_fails : (Operations.start_guarded offline id with_mount).0 ≢ ok tt
unfolding Operations.start_guarded Operations.roll_back attach_volumes attach_volume ◌>>=◌
start_fails = λ e. cc

failed_start_detaches_example :
    (is_attached id (str "data") (Operations.start_guarded offline id with_mount).1.attached
      && not (is_attached id (str "data") with_mount.attached))
    ≡ false
failed_start_detaches_example =
    failed_start_detaches offline id id (str "data") with_mount (λ _. refl) start_fails

rename_moves_example :
    let m' = (Operations.rename (λ _. true) calm (str "web") (str "api") host).1 in
    ((q : Text)
      → lookup q m'.name_to_id ≡ (
          if text_eq (str "api") q
          then some id
          else if text_eq (str "web") q
          then none
          else lookup q host.name_to_id))
    × ((m'.heap id).name ≡ str "api")
    × (lookup id m'.store ≡ some (m'.heap id))
unfolding Operations.rename Operations.move_name ◌>>=◌ container container_id container_from_cache
    lookup text_eq
rename_moves_example = rename_moves (λ _. true) calm (str "web") (str "api") id host refl refl
