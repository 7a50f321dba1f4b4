-- ===== src/Container/Lifecycle/Soundness.antt =====
-- The parts of the operations keep the state of every container sound.
use pouch.Prelude.{
  ◌≡◌, Bool, true, false, ◌⊎◌, Text, Option, none, some, List, [], ◌∷◌, if◌then◌else◌, is_empty, ℕ,
  arith,
}
use pouch.Prelude.Int.{ℤ, pos}
use pouch.Container.State.{
  State, running, stopped, paused, restarting, exited, is_status, set_status_running,
  set_status_stopped, set_status_exited, set_status_paused, set_status_unpaused,
}
use pouch.Container.Manager.{Manager, Mount, Result, ok, err, container}
use pouch.Container.Manager.Action.{Action, set_container}
use pouch.Container.Manager.Keeps.{
  States, Keeps, keeps_rules, Keeps-bind, Keeps-pure, Keeps-ignore_error, Keeps-if,
}
use pouch.Container.Lifecycle.{
  finally, if_known, Env, Message, Removal, removed, sandbox_not_found, removal_failed,
  remove_endpoints, reset_ios, release_resources, release_and_write, release_if_known,
  mark_stopped_and_release, mark_exited_and_release, attach_volume, attach_volumes, detach_volume,
  detach_each, release_mount, remove_volume, detach_volumes, mark_running,
  create_containerd_container, unset_merged_dir,
}

-- The flags paused, running, restarting and exited follow the status, and a container that has
-- stopped or exited has no PID. (`Remove` sets the flag dead and leaves the status alone.)
pub record IsSound (s : State) : Type 0 where
  pub exited_iff : s.exited_flag ≡ is_status s.status exited
  pub paused_iff : s.paused_flag ≡ is_status s.status paused
  pub restarting_iff : s.restarting_flag ≡ is_status s.status restarting
  pub running_iff : s.running_flag ≡ is_status s.status running
  pub no_pid : (s.status ≡ stopped) ⊎ (s.status ≡ exited) → s.pid ≡ pos 0

running-IsSound :
    (now : Text) (pid : ℤ) (s : State) → IsSound s → IsSound (set_status_running now pid s)
unfolding set_status_running
running-IsSound now pid s h = ground arith

stopped-IsSound :
    (now : Text) (code : ℤ) (e : Text) (s : State)
    → IsSound s
    → IsSound (set_status_stopped now code e s)
unfolding set_status_stopped
stopped-IsSound now code e s h = ground arith

exited-IsSound :
    (now : Text) (code : ℤ) (e : Text) (s : State)
    → IsSound s
    → IsSound (set_status_exited now code e s)
unfolding set_status_exited
exited-IsSound now code e s h = ground arith

pub paused-IsSound : (s : State) → IsSound s → IsSound (set_status_paused s)
unfolding set_status_paused
paused-IsSound s h = ground arith

pub unpaused-IsSound : (s : State) → IsSound s → IsSound (set_status_unpaused s)
unfolding set_status_unpaused
unpaused-IsSound s h = ground arith

pub dead_flag-IsSound : (s : State) → IsSound s → IsSound (record s { dead_flag = true })
dead_flag-IsSound s h = ground arith

reset_ios-IsSound : (p : Text) → Keeps IsSound (reset_ios p)
unfolding reset_ios
reset_ios-IsSound p = record { at = λ m h. record { of_each = λ q. ground (arith, h.of_each q) } }

remove_endpoints-IsSound : (rs : List Removal) → Keeps IsSound (remove_endpoints rs)
unfolding remove_endpoints
remove_endpoints-IsSound [] = search keeps_rules
remove_endpoints-IsSound (removed ∷ rs) = remove_endpoints-IsSound rs
remove_endpoints-IsSound (sandbox_not_found ∷ rs) = remove_endpoints-IsSound rs
remove_endpoints-IsSound (removal_failed ∷ rs) = search keeps_rules

pub release_resources-IsSound : (env : Env) (p : Text) → Keeps IsSound (release_resources env p)
unfolding release_resources
release_resources-IsSound env p = search (keeps_rules, reset_ios-IsSound, remove_endpoints-IsSound)

pub unset-IsSound : (p : Text) → Keeps IsSound (set_container p unset_merged_dir)
unfolding unset_merged_dir
unset-IsSound p = search keeps_rules

finally-IsSound :
    (a b : Action (Unit {0})) → Keeps IsSound a → Keeps IsSound b → Keeps IsSound (finally a b)
unfolding finally
finally-IsSound a b h k = record { at = λ m s. k.at (a m).1 (h.at m s) }

release_and_write-IsSound : (env : Env) (p : Text) → Keeps IsSound (release_and_write env p)
unfolding release_and_write
release_and_write-IsSound env p =
    search (keeps_rules, finally-IsSound, unset-IsSound, release_resources-IsSound)

release_if_known-IsSound : (env : Env) (p : Text) → Keeps IsSound (release_if_known env p)
unfolding release_if_known
release_if_known-IsSound env p = record { at = λ m s. go (container (m.heap p).name m) m s }
  where
    go :
        (r : Result Text) (m : Manager)
        → States IsSound m
        → States IsSound (if_known r (release_and_write env p) m).1
    go (ok q) m s = (release_and_write-IsSound env p).at m s
    go (err e) m s = (Keeps-pure tt).at m s

pub mark_stopped-IsSound :
    (env : Env) (p : Text) (msg : Option Message)
    → Keeps IsSound (mark_stopped_and_release env p msg)
unfolding mark_stopped_and_release
mark_stopped-IsSound env p msg = search (keeps_rules, stopped-IsSound, release_if_known-IsSound)

pub mark_exited-IsSound :
    (env : Env) (p : Text) (msg : Option Message)
    → Keeps IsSound (mark_exited_and_release env p msg)
unfolding mark_exited_and_release
mark_exited-IsSound env p msg = search (keeps_rules, exited-IsSound, release_if_known-IsSound)

mark_running-IsSound :
    (env : Env) (p : Text) (pid : Option ℕ) → Keeps IsSound (mark_running env p pid)
unfolding mark_running
mark_running-IsSound env p none = search keeps_rules
mark_running-IsSound env p (some n) = search (keeps_rules, running-IsSound)

pub create-IsSound : (env : Env) (p : Text) → Keeps IsSound (create_containerd_container env p)
unfolding create_containerd_container
create-IsSound env p = search (keeps_rules, mark_running-IsSound, mark_stopped-IsSound)

attach_volume-IsSound : (env : Env) (p name : Text) → Keeps IsSound (attach_volume env p name)
unfolding attach_volume
attach_volume-IsSound env p name = record {
  at = λ m h. record { of_each = λ q. ground (arith, h.of_each q) };
}

detach_volume-IsSound : (env : Env) (p name : Text) → Keeps IsSound (detach_volume env p name)
unfolding detach_volume
detach_volume-IsSound env p name = record {
  at = λ m h. record { of_each = λ q. ground (arith, h.of_each q) };
}

remove_volume-IsSound : (env : Env) (name : Text) → Keeps IsSound (remove_volume env name)
unfolding remove_volume
remove_volume-IsSound env name = record {
  at = λ m h. record { of_each = λ q. ground (arith, h.of_each q) };
}

pub detach_each-IsSound :
    (env : Env) (p : Text) (names : List Text) → Keeps IsSound (detach_each env p names)
unfolding detach_each
detach_each-IsSound env p [] = search keeps_rules
detach_each-IsSound env p (name ∷ names) =
    Keeps-bind _ _ (Keeps-ignore_error _ (detach_volume-IsSound env p name))
      λ _. detach_each-IsSound env p names

release_mount-IsSound :
    (env : Env) (p : Text) (remove : Bool) (mount : Mount)
    → Keeps IsSound (release_mount env p remove mount)
unfolding release_mount
release_mount-IsSound env p remove mount =
    search (keeps_rules, detach_volume-IsSound, remove_volume-IsSound)

pub detach_volumes-IsSound :
    (env : Env) (p : Text) (remove : Bool) (mounts : List Mount)
    → Keeps IsSound (detach_volumes env p remove mounts)
unfolding detach_volumes
detach_volumes-IsSound env p remove [] = search keeps_rules
detach_volumes-IsSound env p remove (mount ∷ mounts) =
    let rest = detach_volumes-IsSound env p remove mounts in
    Keeps-if (is_empty mount.name) _ _ rest
      (Keeps-bind _ _ (release_mount-IsSound env p remove mount) (λ _. rest))

pub attach_volumes-IsSound :
    (env : Env) (p : Text) (mounts : List Mount) (done : List Text) (m : Manager)
    → States IsSound m
    → States IsSound (attach_volumes env p mounts done m).2
unfolding attach_volumes
attach_volumes-IsSound env p [] done m s = s
attach_volumes-IsSound env p (mp ∷ mounts) done m s =
    go (is_empty mp.name) (attach_volume env p mp.name m).0
      (attach_volumes-IsSound env p mounts done m s)
      (attach_volumes-IsSound env p mounts (mp.name ∷ done) (attach_volume env p mp.name m).1
        ((attach_volume-IsSound env p mp.name).at m s))
  where
    go :
        (b : Bool) (r : Result (Unit {0}))
        → States IsSound (attach_volumes env p mounts done m).2
        → States IsSound
            (attach_volumes env p mounts (mp.name ∷ done) (attach_volume env p mp.name m).1).2
        → States IsSound
            (if b then attach_volumes env p mounts done m else elim r [
              | ok _ ↦
                  attach_volumes env p mounts (mp.name ∷ done) (attach_volume env p mp.name m).1
              | err e ↦ (err e, done, m)
            ]).2
    go true r x y = x
    go false (ok u) x y = y
    go false (err e) x y = s
