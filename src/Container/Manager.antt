-- ===== src/Container/Manager.antt =====
-- The tables of `ContainerManager`, and how a name, an ID or the prefix of an ID finds a container
-- (container_utils.go). A pointer to a container is its ID: `heap` holds what the pointers point to.
pub mod Action
pub mod Keeps
use pouch.Prelude.{
  ℕ, Bool, Option, none, some, List, [], ◌∷◌, Text, Dict, lookup, has_prefix, if◌then◌else◌,
}
use pouch.Container.State.{State}

pub record Mount : Type 0 where
  pub name : Text
  pub named : Bool

pub record Container : Type 0 where
  pub name : Text
  pub state : State
  pub detach_keys : Text
  pub restart_count : ℕ
  pub merged_dir : Text
  pub base_fs : Text
  pub mounts : List Mount

-- the names of `LogContainerEvent`
pub data Event : Type 0 where
  start_event stop_event kill_event restart_event pause_event unpause_event : Event
  rename_event destroy_event : Event

-- `cache` holds nil for an ID whose container is being created. `store` is what meta.json holds on
-- disk, `attached` the volumes that the volume manager has attached, by container and volume, and `volumes` those it has.
pub record Manager : Type 0 where
  pub heap : Text → Container
  pub cache : Dict (Option Text)
  pub name_to_id : Dict Text
  pub store : Dict Container
  pub ios : Dict Bool
  pub attached : List (Text × Text)
  pub volumes : List Text
  pub events : List (Text × Event)

-- The errors that callers tell apart; `failed` is any other.
pub data Err : Type 0 where
  not_found too_many already_existed not_modified failed : Err

pub data Result {ℓ} (A : Type ℓ) : Type ℓ where
  ok : A → Result A
  err : Err → Result A

unfoldable pub keys_under : Text → Dict Container → List Text
unfolding has_prefix
keys_under prefix [] = []
keys_under prefix ((k, _) ∷ rest) =
    let others = keys_under prefix rest in if has_prefix prefix k then k ∷ others else others

-- `KeysWithPrefix` of the store: no key for the empty prefix
unfoldable pub keys_with_prefix : Text → Dict Container → List Text
unfolding keys_under
keys_with_prefix [] store = []
keys_with_prefix (x ∷ xs) store = keys_under (x ∷ xs) store

abbrev only_one : List Text → Result Text
only_one [] = err not_found
only_one (id ∷ []) = ok id
only_one (_ ∷ _ ∷ _) = err too_many

-- `containerID`. The store's backend is taken to answer its reads.
unfoldable pub container_id : Text → Manager → Result Text
unfolding keys_with_prefix
container_id name m = elim (lookup name m.name_to_id) [
  | some id ↦ ok id
  | none ↦ only_one (keys_with_prefix name m.store)
]

unfoldable pub container_from_cache : Dict (Option Text) → Text → Result Text
container_from_cache cache key = elim (lookup key cache) [
  | none ↦ err not_found
  | some none ↦ err not_found
  | some (some p) ↦ ok p
]

abbrev cached : Dict (Option Text) → Result Text → Result Text
cached cache (ok id) = container_from_cache cache id
cached cache (err e) = err e

unfoldable pub container : Text → Manager → Result Text
unfolding container_from_cache container_id
container name m = elim (container_from_cache m.cache name) [
  | ok p ↦ ok p
  | err _ ↦ cached m.cache (container_id name m)
]
