-- ===== src/Container/Operations/Guards.antt =====
-- When the operations act, what they refuse, and what they leave behind.
use pouch.Prelude.{
  ◌≡◌, refl, ap, sym, ◌∙◌, true, false, ◌&&◌, ◌||◌, not, ◌⊎◌, Text, text_eq_refl, text_eq_iff, inl,
  inr, Option, some, ◌∷◌, if◌then◌else◌, is_empty, Dict, lookup, insert, lookup-insert, arith,
}
use pouch.Container.State.{
  State, set_status_stopped, set_status_paused, set_status_unpaused, is_running,
  is_running_or_paused,
}
use pouch.Container.State.Flags.{IsCoherent}
use pouch.Container.Manager.{
  pause_event, unpause_event, Container, Manager, Err, Result, ok, err, failed, not_modified,
  container,
}
use pouch.Container.Manager.Action.{◌>>=◌, set_heap}
use pouch.Container.Lifecycle.{
  Env, Message, exit_code, error_text, mark_stopped_and_release, release_if_known,
}
use pouch.Container.Lifecycle.Frame.{container-heap, release-known}
use pouch.Container.Operations.{start, start_locked, stop, stop_locked, destroyed, pause, unpause}

-- Starting a container that is paused, running or dead is refused, as not modified exactly where it
-- is running and not paused, and changes nothing but its detach keys.
pub start_refused :
    (env : Env) (keys id p : Text) (m : Manager)
    → is_empty id ≡ false
    → container id m ≡ ok p
    → let s = (m.heap p).state in
      (s.paused_flag || s.running_flag || s.dead_flag) ≡ true
      → start env keys id m ≡ (
        err (if not s.paused_flag && s.running_flag then not_modified else failed),
        record m { heap = set_heap m.heap p (record (m.heap p) { detach_keys = keys }) },
      )
unfolding start start_locked ◌>>=◌
start_refused env keys id p m n f h = ground (arith, text_eq_refl p)

Result-cases : {A : Type 0} (r : Result A) → ((e : Err) × (r ≡ err e)) ⊎ ((a : A) × (r ≡ ok a))
Result-cases (ok a) = inr (a, refl)
Result-cases (err e) = inl (e, refl)

restored :
    (s : State)
    → IsCoherent s
    → s.running_flag ≡ true
    → set_status_unpaused (set_status_paused s) ≡ s
unfolding set_status_unpaused set_status_paused
restored s h r = ground arith

-- pausing a running container by its own ID, when everything answers
abbrev paused_at : Text → Manager → Manager
paused_at p m =
    let c = record (m.heap p) { state = set_status_paused (m.heap p).state } in
    record m {
      heap = set_heap m.heap p c;
      store = insert p c m.store;
      events = (p, pause_event) ∷ m.events;
    }

pause_done :
    (env : Env) (name p : Text) (m : Manager)
    → container name m ≡ ok p
    → (m.heap p).state.running_flag ≡ true
    → env.pauses ≡ true
    → env.writes ≡ true
    → pause env name m ≡ (ok tt, paused_at p m)
unfolding pause is_running ◌>>=◌
pause_done env name p m f r c w = ground (arith, text_eq_refl p)

abbrev unpaused_at : Text → Manager → Manager
unpaused_at p m =
    let c = record (m.heap p) { state = set_status_unpaused (m.heap p).state } in
    record m {
      heap = set_heap m.heap p c;
      store = insert p c m.store;
      events = (p, unpause_event) ∷ m.events;
    }

unpause_done :
    (env : Env) (name p : Text) (m : Manager)
    → container name m ≡ ok p
    → (m.heap p).state.paused_flag ≡ true
    → env.unpauses ≡ true
    → env.writes ≡ true
    → unpause env name m ≡ (ok tt, unpaused_at p m)
unfolding unpause ◌>>=◌
unpause_done env name p m f r c w = ground (arith, text_eq_refl p)

-- a cached container is found by its ID, whatever else changes
found_by_id : (p : Text) (m : Manager) → lookup p m.cache ≡ some (some p) → container p m ≡ ok p
unfolding container
found_by_id p m h = ground arith

set_status_paused_flag : (s : State) → (set_status_paused s).paused_flag ≡ true
unfolding set_status_paused
set_status_paused_flag s = refl

-- what a write puts on disk
on_disk :
    (p : Text) (store : Dict Container) (c : Container) (old : Dict Container)
    → store ≡ insert p c old
    → lookup p store ≡ some c
on_disk p store c old e = ground (arith, e, lookup-insert p p c old, text_eq_refl p)

-- Pausing and then unpausing a running container, by its ID and with a runtime and a disk that answer,
-- succeeds, gives every container in memory back as it was, and leaves the container on disk as it is
-- in memory.
pub pause-unpause :
    (env : Env) (p : Text) (m : Manager)
    → lookup p m.cache ≡ some (some p)
    → IsCoherent (m.heap p).state
    → (m.heap p).state.running_flag ≡ true
    → env.pauses ≡ true
    → env.unpauses ≡ true
    → env.writes ≡ true
    → let once = pause env p m in
      let twice = unpause env p once.1 in
      (once.0 ≡ ok tt)
      × (twice.0 ≡ ok tt)
      × ((q : Text) → twice.1.heap q ≡ m.heap q)
      × (lookup p twice.1.store ≡ some (m.heap p))
pause-unpause env p m known c r hp hu hw =
    let first = pause_done env p p m (found_by_id p m known) r hp hw in
    let m1 = paused_at p m in
    let here : m1.heap p ≡ record (m.heap p) { state = set_status_paused (m.heap p).state } =
      ground (arith, text_eq_refl p) in
    let second =
      unpause_done env p p m1 (found_by_id p m1 known)
        (ground (arith, here, set_status_paused_flag (m.heap p).state)) hu hw in
    let back = restored (m.heap p).state c r in
    let same : record (m1.heap p) { state = set_status_unpaused (m1.heap p).state } ≡ m.heap p =
      ground (arith, here, back) in
    rw (first, second)
      (
        refl,
        refl,
        λ q. ground (arith, here, back, text_eq_iff p q, text_eq_refl p),
        on_disk p (unpaused_at p m1).store (m.heap p) m1.store
            (ap (λ (c : Container). insert p c m1.store) same),
      )

-- A pause of a container that reports an error has changed nothing on disk; in memory it has changed
-- nothing either, or the runtime has paused the container, the disk has refused the write, and the
-- container is marked paused all the same.
pub failed_pause :
    (env : Env) (name p : Text) (m : Manager) (e : Err)
    → container name m ≡ ok p
    → (pause env name m).0 ≡ err e
    → ((pause env name m).1 ≡ m)
      ⊎ ((env.pauses ≡ true)
          × (env.writes ≡ false)
          × ((pause env name m).1 ≡ record m {
            heap =
                set_heap m.heap p
                  (record (m.heap p) { state = set_status_paused (m.heap p).state });
          }))
unfolding pause is_running ◌>>=◌
failed_pause env name p m e f h = ground (arith, f)

-- the manager once the container at `p` is marked as stopped
abbrev stopped_at : Env → Text → Option Message → Manager → Manager
stopped_at env p msg m = record m {
  heap = set_heap m.heap p (record (m.heap p) {
    state = set_status_stopped env.now (exit_code msg) (error_text msg) (m.heap p).state;
  });
}

stop_tables :
    (env : Env) (name p : Text) (m : Manager) (msg : Option Message)
    → container name m ≡ ok p
    → is_running_or_paused (m.heap p).state ≡ true
    → env.destroy ≡ ok msg
    → let m' = (release_if_known env p (stopped_at env p msg m)).1 in
      ((stop env name m).1.heap ≡ m'.heap) × ((stop env name m).1.store ≡ m'.store)
unfolding stop stop_locked destroyed mark_stopped_and_release ◌>>=◌
stop_tables env name p m msg f r d = (ground arith, ground arith)

-- After a stop of a running or paused container that the runtime has destroyed, the container has
-- stopped with the exit code and error of the message, whether or not its endpoints could be removed;
-- if the tables know it by its name and the disk answers, it is on disk as it is in memory.
pub stop_settles :
    (env : Env) (name p q : Text) (m : Manager) (msg : Option Message)
    → container name m ≡ ok p
    → is_running_or_paused (m.heap p).state ≡ true
    → env.destroy ≡ ok msg
    → container (m.heap p).name m ≡ ok q
    → env.writes ≡ true
    → let m' = (stop env name m).1 in
      ((m'.heap p).state
        ≡ set_status_stopped env.now (exit_code msg) (error_text msg) (m.heap p).state)
      × (lookup p m'.store ≡ some (m'.heap p))
stop_settles env name p q m msg f r d k w =
    let m1 = stopped_at env p msg m in
    let here : m1.heap p ≡ record (m.heap p) {
      state = set_status_stopped env.now (exit_code msg) (error_text msg) (m.heap p).state;
    } =
      ground (arith, text_eq_refl p) in
    let known : container (m1.heap p).name m1 ≡ ok q =
      ground (arith, here, container-heap (m.heap p).name m m1.heap, k) in
    let tables = stop_tables env name p m msg f r d in
    let left = release-known env p q m1 known w in
    let there = ap (λ (h : Text → Container). h p) tables.0 in
    (
      ground (arith, here, there, left.0),
      on_disk p (stop env name m).1.store ((stop env name m).1.heap p) m1.store
          (tables.1 ∙ left.1 ∙ ap (λ (c : Container). insert p c m1.store) (sym there)),
    )
