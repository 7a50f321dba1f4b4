-- ===== src/Container/Operations.antt =====
-- container.go: start, stop, kill, restart, pause, unpause, rename, remove and the exit hook. The lock
-- of a container makes each of them one step; `restart` takes it twice.
pub mod Guards
pub mod Soundness
pub mod Removing
pub mod Reused
pub mod Renaming
pub mod Rollback
use pouch.Prelude.{
  ◌+◌, Bool, true, false, not, ◌&&◌, Option, none, some, List, [], Text, lookup, insert, erase,
  if◌then◌else◌, is_empty,
}
use pouch.Container.State.{is_running, is_running_or_paused, set_status_paused, set_status_unpaused}
use pouch.Container.Manager.{
  Manager, not_found, already_existed, not_modified, failed, Result, ok, err, container,
  start_event, stop_event, kill_event, restart_event, pause_event, unpause_event, rename_event,
  destroy_event,
}
use pouch.Container.Manager.Action.{
  Action, pure, ◌>>◌, raise, call, lift, get, set_container, set_state, write, log_event,
  ignore_error, then_run, ◌>>=◌,
}
use pouch.Container.Lifecycle.{
  Env, Message, Killed, killed, gone, refused, attach_volumes, detach_each, detach_volumes,
  create_containerd_container, mark_stopped_and_release, mark_exited_and_release, release_resources,
  unset_merged_dir,
}

-- the deferred rollback of `start`: release what was taken, detach what was attached
unfoldable pub roll_back :
    Env → Text → List Text → Result (Unit {0}) × Manager → Result (Unit {0}) × Manager
roll_back env p names (ok u, m) = (ok u, m)
roll_back env p names (err e, m) =
    (err e, ((ignore_error (release_resources env p) >> detach_each env p names) m).1)

-- The part of `start` behind its guards.
unfoldable pub start_guarded : Env → Text → Action (Unit {0})
start_guarded env p m =
    let (r, names, m') = attach_volumes env p (m.heap p).mounts [] m in
    roll_back env p names
      (then_run (r, m') (λ _. do call env.network failed; create_containerd_container env p))

unfoldable pub start_locked : Env → Text → Text → Action (Unit {0})
start_locked env detach_keys p = do
  set_container p (λ c. record c { detach_keys = detach_keys })
  c ← get p
  if c.state.paused_flag
      then raise failed
      else if c.state.running_flag
      then raise not_modified
      else if c.state.dead_flag
      then raise failed
      else start_guarded env p

unfoldable pub start : Env → Text → Text → Action (Unit {0})
start env detach_keys id = do
  if is_empty id then raise failed else pure tt
  p ← lift (container id)
  start_locked env detach_keys p
  log_event p start_event

unfoldable pub destroyed : Result (Option Message) → Action (Option Message)
destroyed (ok msg) = pure msg
destroyed (err e) = raise e

unfoldable pub stop_locked : Env → Text → Action (Unit {0})
stop_locked env p = do
  c ← get p
  if not (is_running_or_paused c.state)
      then pure tt
      else (do msg ← destroyed env.destroy; mark_stopped_and_release env p msg)

unfoldable pub stop : Env → Text → Action (Unit {0})
stop env name = do p ← lift (container name); stop_locked env p; log_event p stop_event

-- a container or process that is gone counts as killed
unfoldable pub kill_result : Killed → Action (Unit {0})
kill_result killed = pure tt
kill_result gone = pure tt
kill_result refused = raise failed

unfoldable pub kill_locked : Env → Text → Action (Unit {0})
kill_locked env p = do
  c ← get p
  if c.state.paused_flag
      then raise failed
      else if not c.state.running_flag
      then raise failed
      else kill_result env.kill_answer

unfoldable pub kill : Env → Text → Action (Unit {0})
kill env name = do p ← lift (container name); kill_locked env p; log_event p kill_event

abbrev reword : Result (Unit {0}) → Result (Unit {0})
reword (ok u) = ok u
reword (err _) = err failed

-- an error of the stop is reported as another error
unfoldable pub reworded : Action (Unit {0}) → Action (Unit {0})
reworded a m = (reword (a m).0, (a m).1)

unfoldable pub restart : Env → Text → Action (Unit {0})
restart env name = do
  p ← lift (container name)
  c ← get p
  if is_running_or_paused c.state then reworded (stop_locked env p) else pure tt
  start_locked env [] p
  set_container p (λ c. record c { restart_count = c.restart_count + 1 })
  log_event p restart_event
  write env.writes p

unfoldable pub pause : Env → Text → Action (Unit {0})
pause env name = do
  p ← lift (container name)
  c ← get p
  if not (is_running c.state) then raise failed else pure tt
  call env.pauses failed
  set_state p set_status_paused
  write env.writes p
  log_event p pause_event

unfoldable pub unpause : Env → Text → Action (Unit {0})
unpause env name = do
  p ← lift (container name)
  c ← get p
  if not c.state.paused_flag then raise failed else pure tt
  call env.unpauses failed
  set_state p set_status_unpaused
  write env.writes p
  log_event p unpause_event

-- `NameToID.Remove(name)` and `NameToID.Put(newName, c.ID)`
unfoldable pub move_name : Text → Text → Text → Action (Unit {0})
move_name name new_name p m =
    (ok tt, record m { name_to_id = insert new_name p (erase name m.name_to_id) })

abbrev pub name_taken : Text → Manager → Bool
name_taken name m = elim (lookup name m.name_to_id) [ none ↦ false | some _ ↦ true ]

-- `valid` is `ValidNamePattern`.
unfoldable pub rename : (Text → Bool) → Env → Text → Text → Action (Unit {0})
rename valid env old_name new_name = do
  taken ← lift (λ m. ok (name_taken new_name m))
  if taken then raise already_existed else pure tt
  p ← lift (container old_name)
  c ← get p
  if c.state.dead_flag then raise failed else pure tt
  if valid new_name then pure tt else raise failed
  set_container p (λ c. record c { name = new_name })
  move_name c.name new_name p
  write env.writes p
  log_event p rename_event

-- an absent container is fine here
abbrev is_tolerated : Result (Option Message) → Bool
is_tolerated (ok _) = true
is_tolerated (err not_found) = true
is_tolerated (err _) = false

unfoldable pub forget : Env → Text → Action (Unit {0})
forget env p m = (
  ok tt,
  record m {
    name_to_id = erase (m.heap p).name m.name_to_id;
    cache = erase p m.cache;
    ios = erase p m.ios;
  },
)

-- `Store.Remove`, whose error is only logged
unfoldable pub drop_meta : Bool → Text → Action (Unit {0})
drop_meta removes p m = (ok tt, if removes then record m { store = erase p m.store } else m)

-- the end of `Remove`; unmounting and removing the snapshot, the root file system and the logs touch
-- none of the tables
unfoldable pub remove_known : Env → Bool → Text → Action (Unit {0})
remove_known env volumes p = do
  c ← get p
  detach_volumes env p volumes c.mounts
  forget env p
  set_state p (λ s. record s { dead_flag = true })
  drop_meta env.removes p
  log_event p destroy_event

-- `volumes` is the option to remove the volumes of the container that have no name of their own.
unfoldable pub remove : Env → Bool → Bool → Text → Action (Unit {0})
remove env force volumes name = do
  p ← lift (container name)
  c ← get p
  if is_running_or_paused c.state && not force
      then raise failed
      else if c.state.dead_flag
      then pure tt
      else do
        if is_running_or_paused c.state
            then (do
              call (is_tolerated env.destroy) failed
              set_container p unset_merged_dir
              ignore_error (release_resources env p))
            else pure tt
        remove_known env volumes p

-- `exitedAndRelease`: the hook that the runtime client calls when a container exits by itself. The
-- answer says whether the exit event is posted to the monitor. `cleanup` is the callback's outcome.
unfoldable pub exited_and_release : Env → Bool → Text → Option Message → Action Bool
exited_and_release env cleanup id msg = do
  p ← lift (container id)
  mark_exited_and_release env p msg
  call cleanup failed
  c ← get p
  lift (λ m. elim (container c.name m) [ ok _ ↦ ok true | err _ ↦ ok false ])

-- the handler of the exit event; `none_policy` is `policy == nil || policy.IsNone()`
unfoldable pub on_exit : Env → Bool → Text → Action (Unit {0})
on_exit env none_policy p = do
  c ← get p
  if not c.state.exited_flag
      then pure tt
      else if none_policy
      then pure tt
      else start env c.detach_keys p
