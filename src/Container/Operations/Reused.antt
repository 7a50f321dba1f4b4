-- ===== src/Container/Operations/Reused.antt =====
-- A stop or an exit that is reported only after the removal of its container, whose name another container
-- may have taken by then: `markStoppedAndRelease` and `markExitedAndRelease` of container.go.
use pouch.Prelude.{
  ◌≡◌, ◌≢◌, ◌∙◌, refl, ap, Bool, true, false, Text, text_eq_refl, Option, none, some, lookup,
  insert, lookup-insert, if◌then◌else◌, arith,
}
use pouch.Container.State.{State, set_status_stopped, set_status_exited}
use pouch.Container.Manager.{
  Manager, Result, Err, ok, err, container, container_from_cache, container_id,
}
use pouch.Container.Manager.Action.{◌>>=◌, ◌>>◌, set_state, set_heap}
use pouch.Container.Lifecycle.{
  Env, Message, exit_code, error_text, mark_stopped_and_release, mark_exited_and_release,
  release_if_known,
}
use pouch.Container.Lifecycle.Frame.{container-heap, release-known}
use pouch.Container.Operations.{remove}
use pouch.Container.Operations.Removing.{remove_forgets, late_mark_writes_nothing}

-- the tables after another container was entered under a name
abbrev pub with_name : Text → Text → Manager → Manager
with_name name q m = record m {
  cache = insert q (some q) m.cache;
  name_to_id = insert name q m.name_to_id;
}

with_name-id : (name q : Text) (m : Manager) → container_id name (with_name name q m) ≡ ok q
unfolding container_id
with_name-id name q m = ground (arith, lookup-insert name name q m.name_to_id, text_eq_refl name)

with_name-cached :
    (name q : Text) (m : Manager) → container_from_cache (with_name name q m).cache q ≡ ok q
unfolding container_from_cache
with_name-cached name q m = ground (arith, lookup-insert q q (some q) m.cache, text_eq_refl q)

with_name-known :
    (name q : Text) (m : Manager) → (x : Text) × (container name (with_name name q m) ≡ ok x)
unfolding container
with_name-known name q m = go (container_from_cache (with_name name q m).cache name) refl
  where
    go :
        (r : Result Text)
        → container_from_cache (with_name name q m).cache name ≡ r
        → (x : Text) × (container name (with_name name q m) ≡ ok x)
    go (ok x) e = (x, rw (container, e) refl)
    go (err _) e = (q, rw (container, e, with_name-id name q m, with_name-cached name q m) refl)

-- a late mark of a container whose name the tables know writes it to disk
late_mark_writes :
    (env : Env) (p x : Text) (m : Manager) (f : State → State)
    → container (m.heap p).name m ≡ ok x
    → env.writes ≡ true
    → lookup p ((set_state p f >> release_if_known env p) m).1.store ≢ none
unfolding ◌>>=◌
late_mark_writes env p x m f k w =
    let m1 = record m {
      heap = set_heap m.heap p (record (m.heap p) { state = f (m.heap p).state });
    } in
    let known : container (m1.heap p).name m1 ≡ ok x =
      ground (arith, k, container-heap (m.heap p).name m m1.heap, text_eq_refl p) in
    let (_, stored) = release-known env p x m1 known w in
    λ e. ground (
      arith,
      e,
      ap (lookup p) stored,
      lookup-insert p p ((release_if_known env p m1).1.heap p) m1.store,
      text_eq_refl p,
    )

-- After a successful removal of a container that was not dead, on a disk that answers, the container is
-- gone from disk. A stop or an exit of it that is reported only then does not write it back as long as the
-- tables find nothing under its name; once another container is entered under that name, each of them
-- writes the removed container to disk again.
pub late_mark_after_removal :
    (env : Env) (force volumes : Bool) (name p q : Text) (m : Manager) (msg : Option Message)
    (e : Err)
    → container name m ≡ ok p
    → (m.heap p).state.dead_flag ≡ false
    → env.removes ≡ true
    → env.writes ≡ true
    → (remove env force volumes name m).0 ≡ ok tt
    → let m' = (remove env force volumes name m).1 in
      container (m'.heap p).name m' ≡ err e
      → let m' = (remove env force volumes name m).1 in
        let reused = with_name (m'.heap p).name q m' in
        (lookup p m'.store ≡ none)
        × (lookup p (mark_stopped_and_release env p msg m').1.store ≡ none)
        × (lookup p (mark_exited_and_release env p msg m').1.store ≡ none)
        × (lookup p (mark_stopped_and_release env p msg reused).1.store ≢ none)
        × (lookup p (mark_exited_and_release env p msg reused).1.store ≢ none)
unfolding mark_stopped_and_release mark_exited_and_release
late_mark_after_removal env force volumes name p q m msg e f alive r w h unknown =
    let m' = (remove env force volumes name m).1 in
    let reused = with_name (m'.heap p).name q m' in
    let gone : lookup p m'.store ≡ none =
      (remove_forgets env force volumes name p m f alive r h).2 p
      ∙ ap (λ b. if b then none else lookup p m.store) (text_eq_refl p) in
    let (stopped, exited) = late_mark_writes_nothing env p m' msg e unknown in
    let (x, known) = with_name-known (m'.heap p).name q m' in
    (
      gone,
      ap (lookup p) stopped ∙ gone,
      ap (lookup p) exited ∙ gone,
      late_mark_writes env p x reused (set_status_stopped env.now (exit_code msg) (error_text msg))
          known w,
      late_mark_writes env p x reused (set_status_exited env.now (exit_code msg) (error_text msg))
          known w,
    )
