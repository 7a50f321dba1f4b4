-- ===== src/Container/Operations/Removing.antt =====
-- A removed container: the tables forget it, and nothing that was waiting for its lock writes it back.
use pouch.Prelude.{
  ◌≡◌, ◌≢◌, refl, ap, ◌∙◌, Bool, true, false, not, ◌&&◌, is_empty, inl, inr, Text, text_eq,
  text_eq_refl, Bool-cases, Option, none, List, [], ◌∷◌, if◌then◌else◌, lookup, erase, lookup-erase,
  arith,
}
use pouch.Container.State.{State, is_running_or_paused, set_status_stopped, set_status_exited}
use pouch.Container.Manager.{Container, Manager, Mount, Err, ok, err, container}
use pouch.Container.Manager.Action.{◌>>=◌, ◌>>◌, set_state, set_heap}
use pouch.Container.Lifecycle.{
  Env, Message, exit_code, error_text, mark_stopped_and_release, mark_exited_and_release,
  release_if_known, detach_volume, detach_volumes, remove_volume, release_mount, release_resources,
  unset_merged_dir,
}
use pouch.Container.Lifecycle.Frame.{
  SameTables, container-heap, release-unknown, release_resources-SameTables,
}
use pouch.Container.Operations.{remove, remove_known, forget, drop_meta, start_locked}

detach_volume-same :
    (env : Env) (p name : Text) (m : Manager) → SameTables (detach_volume env p name m).1 m
unfolding detach_volume
detach_volume-same env p name m = ground arith

remove_volume-same :
    (env : Env) (name : Text) (m : Manager) → SameTables (remove_volume env name m).1 m
unfolding remove_volume
remove_volume-same env name m = ground arith

SameTables-trans : {a b c : Manager} → SameTables a b → SameTables b c → SameTables a c
SameTables-trans h k = record {
  heap = h.heap ∙ k.heap;
  cache = h.cache ∙ k.cache;
  names = h.names ∙ k.names;
  store = h.store ∙ k.store;
}

release_mount-same :
    (env : Env) (p : Text) (remove : Bool) (mount : Mount) (m : Manager)
    → SameTables (release_mount env p remove mount m).1 m
      × ((release_mount env p remove mount m).0 ≡ ok tt)
unfolding release_mount ◌>>=◌
release_mount-same env p remove mount m =
    let d = detach_volume-same env p mount.name m in
    elim (Bool-cases (remove && not mount.named)) [
      | inl b ↦ rw b (
        SameTables-trans (remove_volume-same env mount.name (detach_volume env p mount.name m).1) d,
        refl,
      )
      | inr b ↦ rw b (d, refl)
    ]

detach_volumes-same :
    (env : Env) (p : Text) (remove : Bool) (mounts : List Mount) (m : Manager)
    → SameTables (detach_volumes env p remove mounts m).1 m
      × ((detach_volumes env p remove mounts m).0 ≡ ok tt)
unfolding detach_volumes ◌>>=◌
detach_volumes-same env p remove [] m = ground arith
detach_volumes-same env p remove (mount ∷ mounts) m =
    let r = release_mount-same env p remove mount m in
    let d = detach_volumes-same env p remove mounts (release_mount env p remove mount m).1 in
    elim (Bool-cases (is_empty mount.name)) [
      | inl b ↦ rw b (detach_volumes-same env p remove mounts m)
      | inr b ↦ rw (b, r.1) (SameTables-trans d.0 r.0, d.1)
    ]

-- what `remove_known` does to the tables
removed_lem :
    (env : Env) (volumes : Bool) (p : Text) (m : Manager)
    → let m' = (remove_known env volumes p m).1 in
      ((remove_known env volumes p m).0 ≡ ok tt)
      × (m'.cache ≡ erase p m.cache)
      × (m'.name_to_id ≡ erase (m.heap p).name m.name_to_id)
      × (m'.store ≡ (if env.removes then erase p m.store else m.store))
      × ((m'.heap p).state.dead_flag ≡ true)
      × ((m'.heap p).name ≡ (m.heap p).name)
unfolding remove_known forget drop_meta ◌>>=◌
removed_lem env volumes p m =
    let d = detach_volumes-same env p volumes (m.heap p).mounts m in
    ground (
      arith,
      d.0.heap,
      d.0.cache,
      d.0.names,
      d.0.store,
      d.1,
      text_eq_refl p,
      ap (λ (h : Text → Container). h p) d.0.heap,
    )

-- how far `remove` of a container comes: either it is refused, or it was dead, or it is removed
remove-cases :
    (env : Env) (force volumes : Bool) (name p : Text) (m : Manager)
    → container name m ≡ ok p
    → (m.heap p).state.dead_flag ≡ false
    → (remove env force volumes name m).0 ≡ ok tt
    → (m1 : Manager) × (remove env force volumes name m ≡ remove_known env volumes p m1)
      × SameTables (record m1 { heap = m.heap }) m
      × ((m1.heap p).name ≡ (m.heap p).name)
unfolding remove unset_merged_dir ◌>>=◌
remove-cases env force volumes name p m f alive h =
    elim (Bool-cases (is_running_or_paused (m.heap p).state)) [
      | inl busy ↦
          let m0 = record m { heap = set_heap m.heap p (record (m.heap p) { merged_dir = [] }) } in
          let m1 = (release_resources env p m0).1 in
          let same = release_resources-SameTables env p m0 in
          (
            m1,
            ground arith,
            record { heap = refl; cache = same.cache; names = same.names; store = same.store },
            ground (arith, ap (λ (h : Text → Container). h p) same.heap, text_eq_refl p),
          )
      | inr idle ↦
          (m, ground arith, record { heap = refl; cache = refl; names = refl; store = refl }, refl)
    ]

-- After a removal that returns no error of a container that was not dead, its ID is no longer in the
-- cache, its name no longer stands for it, it is marked dead, and, if the disk answers, it is gone from
-- disk; every other ID, name and container on disk is as before.
pub remove_forgets :
    (env : Env) (force volumes : Bool) (name p : Text) (m : Manager)
    → container name m ≡ ok p
    → (m.heap p).state.dead_flag ≡ false
    → env.removes ≡ true
    → (remove env force volumes name m).0 ≡ ok tt
    → let m' = (remove env force volumes name m).1 in
      ((q : Text) → lookup q m'.cache ≡ (if text_eq p q then none else lookup q m.cache))
      × ((q : Text)
          → lookup q m'.name_to_id
            ≡ (if text_eq (m.heap p).name q then none else lookup q m.name_to_id))
      × ((q : Text) → lookup q m'.store ≡ (if text_eq p q then none else lookup q m.store))
      × ((m'.heap p).state.dead_flag ≡ true)
remove_forgets env force volumes name p m f alive w h =
    let (m1, e, same, n) = remove-cases env force volumes name p m f alive h in
    let r = removed_lem env volumes p m1 in
    rw e (
      λ q. ground (arith, r.1, same.cache, lookup-erase p q m.cache),
      λ q. ground (arith, r.2, same.names, n, lookup-erase (m.heap p).name q m.name_to_id),
      λ q. ground (arith, r.3, same.store, lookup-erase p q m.store),
      r.4,
    )

late_mark :
    (env : Env) (p : Text) (m : Manager) (f : State → State) (e : Err)
    → container (m.heap p).name m ≡ err e
    → ((set_state p f >> release_if_known env p) m).1.store ≡ m.store
unfolding ◌>>=◌
late_mark env p m f e u =
    let m1 = record m {
      heap = set_heap m.heap p (record (m.heap p) { state = f (m.heap p).state });
    } in
    let unknown : container (m1.heap p).name m1 ≡ err e =
      ground (arith, u, container-heap (m.heap p).name m m1.heap, text_eq_refl p) in
    rw (release-unknown env p m1 e unknown)

-- Marking a container as stopped or as exited only after its removal, when the tables no longer know it
-- by its name, changes nothing on disk: the removed container is not written back.
pub late_mark_writes_nothing :
    (env : Env) (p : Text) (m : Manager) (msg : Option Message) (e : Err)
    → container (m.heap p).name m ≡ err e
    → ((mark_stopped_and_release env p msg m).1.store ≡ m.store)
      × ((mark_exited_and_release env p msg m).1.store ≡ m.store)
unfolding mark_stopped_and_release mark_exited_and_release
late_mark_writes_nothing env p m msg e u = (
  late_mark env p m (set_status_stopped env.now (exit_code msg) (error_text msg)) e u,
  late_mark env p m (set_status_exited env.now (exit_code msg) (error_text msg)) e u,
)

-- A container that is marked dead is not started through a pointer that was taken before its removal:
-- the start fails, and neither its state nor the disk changes.
pub dead_stays_down :
    (env : Env) (keys p : Text) (m : Manager)
    → (m.heap p).state.dead_flag ≡ true
    → let r = start_locked env keys p m in
      (r.0 ≢ ok tt) × ((r.1.heap p).state ≡ (m.heap p).state) × (r.1.store ≡ m.store)
unfolding start_locked ◌>>=◌
dead_stays_down env keys p m d =
    (ground (arith, text_eq_refl p), ground (arith, text_eq_refl p), ground (arith, text_eq_refl p))
