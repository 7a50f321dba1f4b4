-- ===== src/Container/Operations/Rollback.antt =====
-- A start that fails gives back the volumes that it attached.
use pouch.Prelude.{
  ◌≡◌, ◌≢◌, refl, ap, ◌∙◌, Bool, true, false, not, ◌&&◌, ◌||◌, Bool-cases, inl, inr, Text, text_eq,
  text_eq_refl, text_eq_iff, List, [], ◌∷◌, is_empty, arith,
}
use pouch.Container.Manager.{Manager, Mount, failed, Result, ok, err}
use pouch.Container.Manager.Action.{call, ◌>>=◌, ◌>>◌, then_run}
use pouch.Container.Lifecycle.{
  Env, attach_volume, attach_volumes, detach_volume, detach_each, without, release_resources,
  create_containerd_container,
}
use pouch.Container.Lifecycle.Attached.{release_resources-Leaves, network_then_create-Leaves}
use pouch.Container.Operations.{roll_back, start_guarded}

-- whether the container `p` has the volume `name`
abbrev pub is_attached : Text → Text → List (Text × Text) → Bool
is_attached p name [] = false
is_attached p name ((q, v) ∷ rest) = (text_eq q p && text_eq v name) || is_attached p name rest

abbrev elem : Text → List Text → Bool
elem name [] = false
elem name (v ∷ vs) = text_eq v name || elem name vs

is_attached-without :
    (p n q v : Text) (l : List (Text × Text))
    → is_attached q v (without p n l) ≡ (is_attached q v l && not (text_eq p q && text_eq n v))
is_attached-without p n q v [] = refl
is_attached-without p n q v ((r, w) ∷ l) = ground (
  arith,
  is_attached-without p n q v l,
  text_eq_iff p r,
  text_eq_iff n w,
  text_eq_iff p q,
  text_eq_iff n v,
  text_eq_iff r q,
  text_eq_iff w v,
)

detached :
    (env : Env) (p n : Text) (m : Manager)
    → env.detaches n ≡ true
    → (detach_volume env p n m).1.attached ≡ without p n m.attached
unfolding detach_volume
detached env p n m h = rw h refl

detach_each-attached :
    (env : Env) (p q v : Text) (names : List Text) (m : Manager)
    → ((name : Text) → env.detaches name ≡ true)
    → is_attached q v (detach_each env p names m).1.attached
      ≡ (is_attached q v m.attached && not (text_eq p q && elem v names))
unfolding detach_each ◌>>=◌
detach_each-attached env p q v [] m all = ground arith
detach_each-attached env p q v (n ∷ names) m all =
    let m1 = (detach_volume env p n m).1 in
    let e = detached env p n m (all n) in
    ground (
      arith,
      detach_each-attached env p q v names m1 all,
      e,
      is_attached-without p n q v m.attached,
    )

attached_one :
    (env : Env) (p name : Text) (m : Manager)
    → env.attaches name ≡ true
    → attach_volume env p name m ≡ (ok tt, record m { attached = (p, name) ∷ m.attached })
unfolding attach_volume
attached_one env p name m h = rw h refl

attached_none :
    (env : Env) (p name : Text) (m : Manager)
    → env.attaches name ≡ false
    → attach_volume env p name m ≡ (err failed, m)
unfolding attach_volume
attached_none env p name m h = rw h refl

attach_volumes-done :
    (env : Env) (p v : Text) (mounts : List Mount) (done : List Text) (m : Manager)
    → elem v done ≡ true
    → elem v (attach_volumes env p mounts done m).1 ≡ true
unfolding attach_volumes
attach_volumes-done env p v [] done m h = h
attach_volumes-done env p v (mp ∷ mounts) done m h =
    let skip = attach_volumes-done env p v mounts done m h in
    let m1 = (attach_volume env p mp.name m).1 in
    let next = attach_volumes-done env p v mounts (mp.name ∷ done) m1 (ground (arith, h)) in
    ground (arith, h, skip, next)

-- what is attached after the loop was attached before it, or is in its list of names
attach_volumes-attached :
    (env : Env) (p q v : Text) (mounts : List Mount) (done : List Text) (m : Manager)
    → let r = attach_volumes env p mounts done m in
      (is_attached q v r.2.attached
        && not (is_attached q v m.attached || (text_eq p q && elem v r.1)))
      ≡ false
unfolding attach_volumes
attach_volumes-attached env p q v [] done m = ground arith
attach_volumes-attached env p q v (mp ∷ mounts) done m =
    let m1 = (attach_volume env p mp.name m).1 in
    elim (Bool-cases (is_empty mp.name)) [
      | inl b ↦ ground (arith, b, attach_volumes-attached env p q v mounts done m)
      | inr b ↦ elim (Bool-cases (env.attaches mp.name)) [
        | inr a ↦ ground (arith, b, attached_none env p mp.name m a)
        | inl a ↦
            let e = attached_one env p mp.name m a in
            let next = attach_volumes-attached env p q v mounts (mp.name ∷ done) m1 in
            let kept =
              attach_volumes-done env p mp.name mounts (mp.name ∷ done) m1
                (ground (arith, text_eq_refl mp.name)) in
            ground (arith, b, e, next, kept, text_eq_iff mp.name v)
      ]
    ]

rolled_back :
    (env : Env) (p q v : Text) (names : List Text) (r : Result (Unit {0}) × Manager)
    → ((name : Text) → env.detaches name ≡ true)
    → (roll_back env p names r).0 ≢ ok tt
    → is_attached q v (roll_back env p names r).1.attached
      ≡ (is_attached q v r.1.attached && not (text_eq p q && elem v names))
unfolding roll_back ◌>>=◌
rolled_back env p q v names (ok u, m) all h = absurd (h refl)
rolled_back env p q v names (err e, m) all h =
    let m1 = (release_resources env p m).1 in
    detach_each-attached env p q v names m1 all
    ∙ ap (λ l. is_attached q v l && not (text_eq p q && elem v names))
        ((release_resources-Leaves env p).at m)

create_after :
    (env : Env) (p : Text) (r : Result (Unit {0})) (m : Manager)
    → (then_run
        (r, m)
        (λ _. call env.network failed >> create_containerd_container env p)).1.attached
      ≡ m.attached
create_after env p (ok u) m = (network_then_create-Leaves env p failed).at m
create_after env p (err e) m = refl

-- A start that fails behind its guards, for whatever reason, leaves no volume attached that was not
-- attached before, if the volumes can be detached.
pub failed_start_detaches :
    (env : Env) (p q v : Text) (m : Manager)
    → ((name : Text) → env.detaches name ≡ true)
    → (start_guarded env p m).0 ≢ ok tt
    → (is_attached q v (start_guarded env p m).1.attached && not (is_attached q v m.attached))
      ≡ false
unfolding start_guarded
failed_start_detaches env p q v m all h =
    let a = attach_volumes env p (m.heap p).mounts [] m in
    ground (
      arith,
      attach_volumes-attached env p q v (m.heap p).mounts [] m,
      create_after env p a.0 a.2,
      rolled_back env p q v a.1 _ all h,
    )
