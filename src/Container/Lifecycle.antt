-- ===== src/Container/Lifecycle.antt =====
-- container.go: the parts that the operations on a container's life are made of. What the runtime,
-- the volume and network managers and the disk answer during a call is the argument `env`.
pub mod Soundness
pub mod Frame
pub mod Attached
use pouch.Prelude.{
  ℕ, Bool, false, not, ◌&&◌, Option, none, some, List, [], ◌∷◌, Text, text_eq, lookup, insert,
  if◌then◌else◌, is_empty,
}
use pouch.Prelude.Int.{ℤ, pos}
use pouch.Container.State.{set_status_running, set_status_stopped, set_status_exited}
use pouch.Container.Manager.{Container, Manager, Mount, failed, Result, ok, err, container}
use pouch.Container.Manager.Action.{
  Action, pure, ◌>>◌, raise, call, set_container, set_state, write, ignore_error, ◌>>=◌,
}

-- `ctrd.Message`: the exit code and the raw error
pub record Message : Type 0 where
  pub code : ℕ
  pub raw_error : Option Text

-- the answer of `EndpointRemove` for one endpoint
pub data Removal : Type 0 where
  removed sandbox_not_found removal_failed : Removal

-- the answer of `KillContainer`; `gone` for an error with "not found" or "no such process"
pub data Killed : Type 0 where
  killed gone refused : Killed

pub record Env : Type 0 where
  pub now : Text
  pub writes : Bool
  pub removes : Bool
  pub destroy : Result (Option Message)
  pub kill_answer : Killed
  pub pauses : Bool
  pub unpauses : Bool
  pub attaches : Text → Bool
  pub detaches : Text → Bool
  pub volume_removals : Text → Bool
  pub network : Bool
  pub prepared : Bool
  pub creates : Bool
  pub pid : Option ℕ
  pub endpoints : List Removal

abbrev pub exit_code : Option Message → ℤ
exit_code none = pos 0
exit_code (some msg) = pos msg.code

abbrev pub error_text : Option Message → Text
error_text none = []
error_text (some msg) = elim msg.raw_error [ none ↦ [] | some e ↦ e ]

-- a deferred action that runs whatever the outcome
unfoldable pub finally : Action (Unit {0}) → Action (Unit {0}) → Action (Unit {0})
finally a b m = ((a m).0, (b (a m).1).1)

-- a deferred action that runs after an error
abbrev after_error : Action (Unit {0}) → Result (Unit {0}) × Manager → Result (Unit {0}) × Manager
after_error b (ok u, m) = (ok u, m)
after_error b (err e, m) = (err e, (b m).1)

unfoldable pub remove_endpoints : List Removal → Action (Unit {0})
remove_endpoints [] = pure tt
remove_endpoints (removed ∷ rest) = remove_endpoints rest
remove_endpoints (sandbox_not_found ∷ rest) = remove_endpoints rest
remove_endpoints (removal_failed ∷ rest) = raise failed

-- `resetContainerIOs`: the streams of the cached IO are reset
unfoldable pub reset_ios : Text → Action (Unit {0})
reset_ios p m = elim (lookup p m.ios) [
  | none ↦ (ok tt, m)
  | some _ ↦ (ok tt, record m { ios = insert p false m.ios })
]

unfoldable pub release_resources : Env → Text → Action (Unit {0})
release_resources env p = reset_ios p >> remove_endpoints env.endpoints

unfoldable pub unset_merged_dir : Container → Container
unset_merged_dir c = record c { merged_dir = [] }

-- what both marks do after the state is set, if the container is still known
unfoldable pub release_and_write : Env → Text → Action (Unit {0})
release_and_write env p =
    finally (set_container p unset_merged_dir >> release_resources env p)
      (ignore_error (write env.writes p))

abbrev pub if_known : Result Text → Action (Unit {0}) → Action (Unit {0})
if_known (ok _) a = a
if_known (err _) a = pure tt

unfoldable pub release_if_known : Env → Text → Action (Unit {0})
release_if_known env p m = if_known (container (m.heap p).name m) (release_and_write env p) m

unfoldable pub mark_stopped_and_release : Env → Text → Option Message → Action (Unit {0})
mark_stopped_and_release env p msg = do
  set_state p (set_status_stopped env.now (exit_code msg) (error_text msg))
  release_if_known env p

unfoldable pub mark_exited_and_release : Env → Text → Option Message → Action (Unit {0})
mark_exited_and_release env p msg = do
  set_state p (set_status_exited env.now (exit_code msg) (error_text msg))
  release_if_known env p

unfoldable pub attach_volume : Env → Text → Text → Action (Unit {0})
attach_volume env p name m =
    if env.attaches name
    then (ok tt, record m { attached = (p, name) ∷ m.attached })
    else (err failed, m)

abbrev pub without : Text → Text → List (Text × Text) → List (Text × Text)
without p name [] = []
without p name ((q, v) ∷ rest) =
    let kept = without p name rest in if text_eq p q && text_eq name v then kept else (q, v) ∷ kept

abbrev others : Text → List Text → List Text
others name [] = []
others name (v ∷ rest) = let kept = others name rest in if text_eq name v then kept else v ∷ kept

unfoldable pub detach_volume : Env → Text → Text → Action (Unit {0})
detach_volume env p name m =
    if env.detaches name
    then (ok tt, record m { attached = without p name m.attached })
    else (err failed, m)

-- `VolumeMgr.Remove`
unfoldable pub remove_volume : Env → Text → Action (Unit {0})
remove_volume env name m =
    if env.volume_removals name
    then (ok tt, record m { volumes = others name m.volumes })
    else (err failed, m)

-- attaches the named volumes in order; the names attached so far are returned with an error too
unfoldable pub attach_volumes :
    Env → Text → List Mount → List Text → Manager → Result (Unit {0}) × List Text × Manager
attach_volumes env p [] done m = (ok tt, done, m)
attach_volumes env p (mp ∷ mounts) done m =
    let skip = attach_volumes env p mounts done m in
    let next = attach_volumes env p mounts (mp.name ∷ done) (attach_volume env p mp.name m).1 in
    if is_empty mp.name
    then skip
    else elim (attach_volume env p mp.name m).0 [ ok _ ↦ next | err e ↦ (err e, done, m) ]

-- the loop of the rollback of `start`
unfoldable pub detach_each : Env → Text → List Text → Action (Unit {0})
detach_each env p [] = pure tt
detach_each env p (name ∷ names) =
    ignore_error (detach_volume env p name) >> detach_each env p names

-- one turn of the loop of `detachVolumes`
unfoldable pub release_mount : Env → Text → Bool → Mount → Action (Unit {0})
release_mount env p remove mount = do
  ignore_error (detach_volume env p mount.name)
  if remove && not mount.named then ignore_error (remove_volume env mount.name) else pure tt

unfoldable pub detach_volumes : Env → Text → Bool → List Mount → Action (Unit {0})
detach_volumes env p remove [] = pure tt
detach_volumes env p remove (mount ∷ mounts) =
    let rest = detach_volumes env p remove mounts in
    if is_empty mount.name then rest else release_mount env p remove mount >> rest

-- the PID of the new task, if the runtime finds it
unfoldable pub mark_running : Env → Text → Option ℕ → Action (Unit {0})
mark_running env p none = raise failed
mark_running env p (some n) = do
  set_state p (set_status_running env.now (pos n))
  set_container p (λ c. record c { merged_dir = c.base_fs })
  write env.writes p

-- The end of `createContainerdContainer`. `prepared` stands for the rootfs, the plugin hook, the spec,
-- the log driver, the runtime options and the checkpoint directory.
unfoldable pub create_containerd_container : Env → Text → Action (Unit {0})
create_containerd_container env p = do
  call env.prepared failed
  if env.creates
      then mark_running env p env.pid
      else (do ignore_error (mark_stopped_and_release env p none); raise failed)
