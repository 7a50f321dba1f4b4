-- ===== src/Container/Operations/Soundness.antt =====
-- The state of every container stays sound under every operation of the manager.
use pouch.Prelude.{Bool, true, false, Text, Option, List, [], ◌∷◌}
use pouch.Container.Manager.{Manager, Result, ok, err, failed}
use pouch.Container.Manager.Action.{Action, ◌>>◌, call, set_container, then_run}
use pouch.Container.Manager.Keeps.{States, Keeps, keeps_rules, Keeps-bind, Keeps-ignore_error}
use pouch.Container.Lifecycle.{
  Env, Message, Killed, killed, gone, refused, attach_volumes, create_containerd_container,
}
use pouch.Container.Lifecycle.Soundness.{
  IsSound, paused-IsSound, unpaused-IsSound, dead_flag-IsSound, release_resources-IsSound,
  unset-IsSound, mark_stopped-IsSound, mark_exited-IsSound, create-IsSound, detach_each-IsSound,
  detach_volumes-IsSound, attach_volumes-IsSound,
}
use pouch.Container.Operations.{
  roll_back, start_guarded, start_locked, start, destroyed, stop_locked, stop, kill_result,
  kill_locked, kill, reworded, restart, pause, unpause, move_name, rename, forget, drop_meta,
  remove_known, remove, exited_and_release, on_exit,
}

roll_back-IsSound :
    (env : Env) (p : Text) (names : List Text) (r : Result (Unit {0}) × Manager)
    → States IsSound r.1
    → States IsSound (roll_back env p names r).1
unfolding roll_back
roll_back-IsSound env p names (ok u, m) s = s
roll_back-IsSound env p names (err e, m) s =
    (Keeps-bind _ _ (Keeps-ignore_error _ (release_resources-IsSound env p))
        (λ _. detach_each-IsSound env p names)).at
      m s

network_then_create-IsSound :
    (env : Env) (p : Text)
    → Keeps IsSound (call env.network failed >> create_containerd_container env p)
network_then_create-IsSound env p = search (keeps_rules, create-IsSound)

start_guarded-IsSound : (env : Env) (p : Text) → Keeps IsSound (start_guarded env p)
unfolding start_guarded
start_guarded-IsSound env p = record {
  at = λ m s.
      let r = attach_volumes env p (m.heap p).mounts [] m in
      roll_back-IsSound env p r.1 _
        (go r.0 r.2 (attach_volumes-IsSound env p (m.heap p).mounts [] m s));
}
  where
    go :
        (r : Result (Unit {0})) (m : Manager)
        → States IsSound m
        → States IsSound
            (then_run (r, m) (λ _. call env.network failed >> create_containerd_container env p)).1
    go (ok u) m s = (network_then_create-IsSound env p).at m s
    go (err e) m s = s

set_keys-IsSound :
    (p keys : Text) → Keeps IsSound (set_container p (λ c. record c { detach_keys = keys }))
set_keys-IsSound p keys = search keeps_rules

start_locked-IsSound : (env : Env) (keys p : Text) → Keeps IsSound (start_locked env keys p)
unfolding start_locked
start_locked-IsSound env keys p =
    search (keeps_rules, set_keys-IsSound, start_guarded-IsSound) depth 12

start-IsSound : (env : Env) (keys id : Text) → Keeps IsSound (start env keys id)
unfolding start
start-IsSound env keys id = search (keeps_rules, start_locked-IsSound)

destroyed-IsSound : (r : Result (Option Message)) → Keeps IsSound (destroyed r)
unfolding destroyed
destroyed-IsSound (ok msg) = search keeps_rules
destroyed-IsSound (err e) = search keeps_rules

stop_locked-IsSound : (env : Env) (p : Text) → Keeps IsSound (stop_locked env p)
unfolding stop_locked
stop_locked-IsSound env p = search (keeps_rules, destroyed-IsSound, mark_stopped-IsSound)

stop-IsSound : (env : Env) (name : Text) → Keeps IsSound (stop env name)
unfolding stop
stop-IsSound env name = search (keeps_rules, stop_locked-IsSound)

answer-IsSound : (k : Killed) → Keeps IsSound (kill_result k)
unfolding kill_result
answer-IsSound killed = search keeps_rules
answer-IsSound gone = search keeps_rules
answer-IsSound refused = search keeps_rules

kill_locked-IsSound : (env : Env) (p : Text) → Keeps IsSound (kill_locked env p)
unfolding kill_locked
kill_locked-IsSound env p = search (keeps_rules, answer-IsSound) depth 12

kill-IsSound : (env : Env) (name : Text) → Keeps IsSound (kill env name)
unfolding kill
kill-IsSound env name = search (keeps_rules, kill_locked-IsSound)

reworded-IsSound : (a : Action (Unit {0})) → Keeps IsSound a → Keeps IsSound (reworded a)
unfolding reworded
reworded-IsSound a h = record { at = h.at }

restart-IsSound : (env : Env) (name : Text) → Keeps IsSound (restart env name)
unfolding restart
restart-IsSound env name =
    search (keeps_rules, reworded-IsSound, stop_locked-IsSound, start_locked-IsSound) depth 12

pause-IsSound : (env : Env) (name : Text) → Keeps IsSound (pause env name)
unfolding pause
pause-IsSound env name = search (keeps_rules, paused-IsSound) depth 12

unpause-IsSound : (env : Env) (name : Text) → Keeps IsSound (unpause env name)
unfolding unpause
unpause-IsSound env name = search (keeps_rules, unpaused-IsSound) depth 12

move_name-IsSound : (name new_name p : Text) → Keeps IsSound (move_name name new_name p)
unfolding move_name
move_name-IsSound name new_name p = record { at = λ m s. record { of_each = s.of_each } }

rename-IsSound :
    (valid : Text → Bool) (env : Env) (old new : Text) → Keeps IsSound (rename valid env old new)
unfolding rename
rename-IsSound valid env old new = search (keeps_rules, move_name-IsSound) depth 16

forget-IsSound : (env : Env) (p : Text) → Keeps IsSound (forget env p)
unfolding forget
forget-IsSound env p = record { at = λ m s. record { of_each = s.of_each } }

drop_meta-IsSound : (b : Bool) (p : Text) → Keeps IsSound (drop_meta b p)
unfolding drop_meta
drop_meta-IsSound true p = record { at = λ m s. record { of_each = s.of_each } }
drop_meta-IsSound false p = record { at = λ m s. s }

remove_known-IsSound :
    (env : Env) (volumes : Bool) (p : Text) → Keeps IsSound (remove_known env volumes p)
unfolding remove_known
remove_known-IsSound env volumes p =
    search
      (keeps_rules, detach_volumes-IsSound, forget-IsSound, dead_flag-IsSound, drop_meta-IsSound)
      depth 12

remove-IsSound :
    (env : Env) (force volumes : Bool) (name : Text) → Keeps IsSound (remove env force volumes name)
unfolding remove
remove-IsSound env force volumes name =
    search (keeps_rules, unset-IsSound, release_resources-IsSound, remove_known-IsSound) depth 14

exit-IsSound :
    (env : Env) (cleanup : Bool) (id : Text) (msg : Option Message)
    → Keeps IsSound (exited_and_release env cleanup id msg)
unfolding exited_and_release
exit-IsSound env cleanup id msg = search (keeps_rules, mark_exited-IsSound) depth 12

on_exit-IsSound :
    (env : Env) (none_policy : Bool) (p : Text) → Keeps IsSound (on_exit env none_policy p)
unfolding on_exit
on_exit-IsSound env none_policy p = search (keeps_rules, start-IsSound) depth 8

-- Every call that reaches the manager, with what the outside answers during it.
pub data Call : Type 0 where
  starts : Env → Text → Text → Call
  stops kills restarts pauses unpauses : Env → Text → Call
  renames : (Text → Bool) → Env → Text → Text → Call
  removes : Env → Bool → Bool → Text → Call
  exits : Env → Bool → Text → Option Message → Call
  handles_exit : Env → Bool → Text → Call

unfoldable pub after : Call → Manager → Manager
after (starts env keys id) m = (start env keys id m).1
after (stops env name) m = (stop env name m).1
after (kills env name) m = (kill env name m).1
after (restarts env name) m = (restart env name m).1
after (pauses env name) m = (pause env name m).1
after (unpauses env name) m = (unpause env name m).1
after (renames valid env old new) m = (rename valid env old new m).1
after (removes env force volumes name) m = (remove env force volumes name m).1
after (exits env cleanup id msg) m = (exited_and_release env cleanup id msg m).1
after (handles_exit env none_policy p) m = (on_exit env none_policy p m).1

unfoldable pub after_all : List Call → Manager → Manager
after_all [] m = m
after_all (c ∷ cs) m = after_all cs (after c m)

after-IsSound : (c : Call) (m : Manager) → States IsSound m → States IsSound (after c m)
unfolding after
after-IsSound (starts env keys id) m s = (start-IsSound env keys id).at m s
after-IsSound (stops env name) m s = (stop-IsSound env name).at m s
after-IsSound (kills env name) m s = (kill-IsSound env name).at m s
after-IsSound (restarts env name) m s = (restart-IsSound env name).at m s
after-IsSound (pauses env name) m s = (pause-IsSound env name).at m s
after-IsSound (unpauses env name) m s = (unpause-IsSound env name).at m s
after-IsSound (renames valid env old new) m s = (rename-IsSound valid env old new).at m s
after-IsSound (removes env force volumes name) m s = (remove-IsSound env force volumes name).at m s
after-IsSound (exits env cleanup id msg) m s = (exit-IsSound env cleanup id msg).at m s
after-IsSound (handles_exit env none_policy p) m s = (on_exit-IsSound env none_policy p).at m s

-- Whatever sequence of starts, stops, kills, restarts, pauses, unpauses, renames, removals, reports of an
-- exit and runs of the exit hook reaches the manager, and whatever fails during them: if the flags paused,
-- running, restarting and exited of every container follow its status before, and no container that has
-- stopped or exited has a PID, then so it is after them. In particular a paused container is not flagged
-- as running. The flag dead is not among them.
pub calls_keep-IsSound :
    (cs : List Call) (m : Manager) → States IsSound m → States IsSound (after_all cs m)
unfolding after_all
calls_keep-IsSound [] m s = s
calls_keep-IsSound (c ∷ cs) m s = calls_keep-IsSound cs (after c m) (after-IsSound c m s)
