-- ===== src/Cri/Labels.antt =====
-- cri/v1alpha2/cri_utils.go and cri.go: the labels and annotations of the kubelet in the labels of a
-- container, and the environment as a list of texts.
pub mod Lookup
pub mod RoundTrip
pub mod Env
use pouch.Prelude.{
  Bool, ◌||◌, List, [], ◌∷◌, ◌++◌, Text, str, text_eq, has_prefix, is_empty, split2, Dict, insert,
  if◌then◌else◌,
}

abbrev pub annotation_prefix : Text
annotation_prefix = str "annotation."

abbrev pub type_key : Text
type_key = str "io.kubernetes.pouch.type"

abbrev pub sandbox_id_key : Text
sandbox_id_key = str "io.kubernetes.sandbox.id"

abbrev pub log_path_key : Text
log_path_key = str "io.kubernetes.container.logpath"

-- the loops over a map, which Go runs in any order: the last key of the list first
unfoldable pub copy_labels : Dict Text → Dict Text → Dict Text
unfolding insert
copy_labels [] m = m
copy_labels ((k, v) ∷ ls) m = insert k v (copy_labels ls m)

unfoldable pub copy_annotations : Dict Text → Dict Text → Dict Text
unfolding insert
copy_annotations [] m = m
copy_annotations ((k, v) ∷ ans) m = insert (annotation_prefix ++ k) v (copy_annotations ans m)

unfoldable pub make_labels : Dict Text → Dict Text → Dict Text
unfolding copy_labels copy_annotations
make_labels labels annotations = copy_annotations annotations (copy_labels labels [])

abbrev pub is_internal : Text → Bool
is_internal k = text_eq k type_key || text_eq k sandbox_id_key

-- `strings.TrimPrefix` of a text that has the prefix
unfoldable pub trim_prefix : Text → Text → Text
trim_prefix [] t = t
trim_prefix (_ ∷ p) [] = []
trim_prefix (_ ∷ p) (_ ∷ t) = trim_prefix p t

abbrev pub sorted_out : Text → Text → Dict Text × Dict Text → Dict Text × Dict Text
sorted_out k v (labels, annotations) =
    if is_internal k
    then (labels, annotations)
    else if has_prefix annotation_prefix k
    then (labels, insert (trim_prefix annotation_prefix k) v annotations)
    else (insert k v labels, annotations)

-- the labels and the annotations
unfoldable pub extract_labels : Dict Text → Dict Text × Dict Text
unfolding insert trim_prefix has_prefix text_eq
extract_labels [] = ([], [])
extract_labels ((k, v) ∷ input) = sorted_out k v (extract_labels input)

-- the labels that `CreateContainer` gives to the container
unfoldable pub container_labels : Dict Text → Dict Text → Text → Text → Dict Text
unfolding make_labels insert
container_labels labels annotations sandbox_id log_path =
    let m =
      insert sandbox_id_key sandbox_id
        (insert type_key (str "container") (make_labels labels annotations)) in
    if is_empty log_path then m else insert log_path_key log_path m

-- the labels that `makeSandboxPouchConfig` gives to the container of a sandbox
unfoldable pub sandbox_labels : Dict Text → Dict Text → Dict Text
unfolding make_labels insert
sandbox_labels labels annotations = insert type_key (str "sandbox") (make_labels labels annotations)

-- `generateEnvList` of keys and values
unfoldable pub generate_env_list : List (Text × Text) → List Text
generate_env_list [] = []
generate_env_list ((k, v) ∷ envs) = (k ++ 61 ∷ v) ∷ generate_env_list envs

abbrev pub key_value : List Text → Text × Text
key_value [] = ([], [])
key_value (k ∷ []) = (k, [])
key_value (k ∷ v ∷ _) = (k, v)

-- `parseEnvsFromPouch`; a text without = is a key, and SplitN of it is that text
unfoldable pub parse_envs_from_pouch : List Text → List (Text × Text)
unfolding split2
parse_envs_from_pouch [] = []
parse_envs_from_pouch (env ∷ envs) = key_value (split2 61 env) ∷ parse_envs_from_pouch envs
