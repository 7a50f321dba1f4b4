-- ===== src/Container/Operations/Renaming.antt =====
-- A renamed container is found by its new name and not by its old one.
use pouch.Prelude.{
  ◌≡◌, Bool, Bool-cases, inl, inr, Text, text_eq, text_eq_refl, none, some, ◌∷◌, lookup, insert,
  erase, lookup-insert, lookup-erase, if◌then◌else◌, arith,
}
use pouch.Container.Manager.{Manager, rename_event, ok, container}
use pouch.Container.Manager.Action.{◌>>=◌, set_heap}
use pouch.Container.Lifecycle.{Env}
use pouch.Container.Operations.{rename, move_name, name_taken}

-- the tables after a rename
abbrev renamed : Text → Text → Manager → Manager
renamed p new m =
    let heap = set_heap m.heap p (record (m.heap p) { name = new }) in
    record m {
      heap = heap;
      name_to_id = insert new p (erase (m.heap p).name m.name_to_id);
      store = insert p (heap p) m.store;
      events = (p, rename_event) ∷ m.events;
    }

rename-renamed :
    (valid : Text → Bool) (env : Env) (old new p : Text) (m : Manager)
    → container old m ≡ ok p
    → (rename valid env old new m).0 ≡ ok tt
    → rename valid env old new m ≡ (ok tt, renamed p new m)
unfolding rename move_name ◌>>=◌
rename-renamed valid env old new p m f h = elim (Bool-cases (name_taken new m)) [
  | inl b ↦ absurd (ground (arith, b, h))
  | inr b ↦ elim (Bool-cases (m.heap p).state.dead_flag) [
    | inl d ↦ absurd (ground (arith, b, f, d, h))
    | inr d ↦ elim (Bool-cases (valid new)) [
      | inr v ↦ absurd (ground (arith, b, f, d, v, h))
      | inl v ↦ elim (Bool-cases env.writes) [
        | inr w ↦ absurd (ground (arith, b, f, d, v, w, h))
        | inl w ↦ ground (arith, b, f, d, v, w)
      ]
    ]
  ]
]

-- A rename that returns no error makes the new name stand for the container and takes the old name out;
-- every other name stands for what it did, and the container has the new name in memory and on disk.
pub rename_moves :
    (valid : Text → Bool) (env : Env) (old new p : Text) (m : Manager)
    → container old m ≡ ok p
    → (rename valid env old new m).0 ≡ ok tt
    → let m' = (rename valid env old new m).1 in
      ((q : Text)
        → lookup q m'.name_to_id ≡ (
            if text_eq new q
            then some p
            else if text_eq (m.heap p).name q
            then none
            else lookup q m.name_to_id))
      × ((m'.heap p).name ≡ new)
      × (lookup p m'.store ≡ some (m'.heap p))
rename_moves valid env old new p m f h =
    let heap = set_heap m.heap p (record (m.heap p) { name = new }) in
    let names = erase (m.heap p).name m.name_to_id in
    rw (rename-renamed valid env old new p m f h) (
      λ q. ground (arith, lookup-insert new q p names, lookup-erase (m.heap p).name q m.name_to_id),
      ground (arith, text_eq_refl p),
      ground (arith, lookup-insert p p (heap p) m.store, text_eq_refl p),
    )
