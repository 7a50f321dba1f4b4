-- ===== src/Opts/Env.antt =====
-- apis/opts/env.go, and mergeEnvSlice of daemon/mgr/container_utils.go.
pub mod Merge
use pouch.Prelude.{
  Option, none, some, List, [], ◌∷◌, ◌++◌, Text, Dict, insert, erase, split2, trim_space, is_empty,
  length, ◌==◌, if◌then◌else◌,
}

abbrev pub prepend : {A : Type 0} → A → Option (List A) → Option (List A)
prepend x none = none
prepend x (some xs) = some (x ∷ xs)

-- what `parseEnv` makes of the fields of `SplitN`; `none` is its error
abbrev pub env_of_fields : Text → List Text → Option Text
env_of_fields env [] = none
env_of_fields env (key ∷ []) = if is_empty key then none else some env
env_of_fields env (key ∷ value ∷ _) = if is_empty key then none else some (key ++ 61 ∷ value)

-- `parseEnv`
unfoldable pub parse_env : Text → Option Text
unfolding trim_space split2
parse_env s =
    let env = trim_space s in if is_empty env then none else env_of_fields env (split2 61 env)

-- `ParseEnvs`
unfoldable pub parse_envs : List Text → Option (List Text)
parse_envs [] = some []
parse_envs (env ∷ envs) = elim (parse_env env) [
  | none ↦ none
  | some result ↦ prepend result (parse_envs envs)
]

-- `arr[0]` and `arr[1]` of the fields; an index out of range panics
abbrev pub two_fields : List Text → Option (Text × Text)
two_fields [] = none
two_fields (key ∷ []) = none
two_fields (key ∷ value ∷ _) = some (key, value)

-- the loop of `ValidSliceEnvsToMap`; `none` where it panics
unfoldable pub add_envs : List Text → Dict Text → Option (Dict Text)
unfolding split2 insert
add_envs [] results = some results
add_envs (env ∷ envs) results = elim (two_fields (split2 61 env)) [
  | none ↦ none
  | some (key, value) ↦ add_envs envs (insert key value results)
]

-- `ValidMapEnvsToSlice`
unfoldable pub valid_map_envs_to_slice : Dict Text → List Text
valid_map_envs_to_slice [] = []
valid_map_envs_to_slice ((key, value) ∷ envs) = (key ++ 61 ∷ value) ∷ valid_map_envs_to_slice envs

-- one turn of the loop of `mergeEnvSlice`, by the fields of `SplitN`
abbrev pub merge_fields : Text → List Text → Dict Text → Dict Text
merge_fields env [] envs = envs
merge_fields env (key ∷ []) envs =
    if length env == length key then erase key envs else insert key [] envs
merge_fields env (key ∷ value ∷ _) envs = insert key value envs

unfoldable pub merge_envs : List Text → Dict Text → Dict Text
merge_envs [] envs = envs
merge_envs (env ∷ rest) envs = merge_envs rest (merge_fields env (split2 61 env) envs)

pub data Merged : Type 0 where
  merged : List Text → Merged
  invalid panics : Merged

abbrev merge_into : List Text → Option (Dict Text) → Merged
merge_into new none = panics
merge_into new (some envs) = merged (valid_map_envs_to_slice (merge_envs new envs))

abbrev merge_parsed : Option (List Text) → Option (List Text) → Merged
merge_parsed none old = invalid
merge_parsed (some new) none = invalid
merge_parsed (some new) (some old) = merge_into new (add_envs old [])

-- `mergeEnvSlice`
unfoldable pub merge_env_slice : List Text → List Text → Merged
merge_env_slice [] old = merged old
merge_env_slice (env ∷ new) old = merge_parsed (parse_envs (env ∷ new)) (parse_envs old)
