-- ===== src/Container/Lifecycle/Frame.antt =====
-- What the release of resources and the rollback leave alone.
use pouch.Prelude.{◌≡◌, refl, ap, true, Text, text_eq_refl, List, [], ◌∷◌, insert, arith}
use pouch.Container.Manager.{Container, Manager, Err, ok, err, container}
use pouch.Container.Manager.Action.{◌>>=◌, set_heap}
use pouch.Container.Lifecycle.{
  Env, Removal, removed, sandbox_not_found, removal_failed, remove_endpoints, reset_ios,
  release_resources, release_and_write, release_if_known, finally, unset_merged_dir,
}

-- Two managers with the same containers in memory, on disk, and under the same names.
pub record SameTables (a b : Manager) : Type 0 where
  pub heap : a.heap ≡ b.heap
  pub cache : a.cache ≡ b.cache
  pub names : a.name_to_id ≡ b.name_to_id
  pub store : a.store ≡ b.store

remove_endpoints-same : (rs : List Removal) (m : Manager) → (remove_endpoints rs m).1 ≡ m
unfolding remove_endpoints ◌>>=◌
remove_endpoints-same [] m = refl
remove_endpoints-same (removed ∷ rs) m = remove_endpoints-same rs m
remove_endpoints-same (sandbox_not_found ∷ rs) m = remove_endpoints-same rs m
remove_endpoints-same (removal_failed ∷ rs) m = refl

reset_ios-SameTables :
    (p : Text) (m : Manager) → SameTables (reset_ios p m).1 m × ((reset_ios p m).0 ≡ ok tt)
unfolding reset_ios
reset_ios-SameTables p m = ground arith

pub release_resources-SameTables :
    (env : Env) (p : Text) (m : Manager) → SameTables (release_resources env p m).1 m
unfolding release_resources ◌>>=◌
release_resources-SameTables env p m =
    ground (arith, reset_ios-SameTables p m, remove_endpoints-same env.endpoints (reset_ios p m).1)

-- a container is found by the tables, whatever the heap holds
pub container-heap :
    (name : Text) (m : Manager) (h : Text → Container)
    → container name (record m { heap = h }) ≡ container name m
unfolding container
container-heap name m h = refl

abbrev with_heap : Manager → (Text → Container) → Manager
with_heap m h = record m { heap = h }

-- A container that the tables no longer know is not written to disk again.
pub release-unknown :
    (env : Env) (p : Text) (m : Manager) (e : Err)
    → container (m.heap p).name m ≡ err e
    → release_if_known env p m ≡ (ok tt, m)
unfolding release_if_known ◌>>=◌
release-unknown env p m e f = rw f

-- What `release_if_known` leaves of a container that the tables know: no merged directory, and the
-- container as it is in memory on disk too, if the disk answers.
pub release-known :
    (env : Env) (p q : Text) (m : Manager)
    → container (m.heap p).name m ≡ ok q
    → env.writes ≡ true
    → let m' = (release_if_known env p m).1 in
      (m'.heap p ≡ record (m.heap p) { merged_dir = [] })
      × (m'.store ≡ insert p (m'.heap p) m.store)
unfolding release_if_known release_and_write finally unset_merged_dir ◌>>=◌
release-known env p q m f w =
    let m1 = record m { heap = set_heap m.heap p (record (m.heap p) { merged_dir = [] }) } in
    let same = release_resources-SameTables env p m1 in
    let here = ap (λ (h : Text → Container). h p) same.heap in
    rw (f, w)
      (
        ground (arith, here, same.store, text_eq_refl p),
        ground (arith, here, same.store, text_eq_refl p),
      )
