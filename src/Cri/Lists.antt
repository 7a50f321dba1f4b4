-- ===== src/Cri/Lists.antt =====
-- cri/v1alpha2/cri_utils.go and cri.go: the lists of containers and sandboxes and their filters.
pub mod Listed
use pouch.Prelude.{
  Bool, true, false, ◌&&◌, ◌||◌, Option, none, some, List, [], ◌∷◌, Text, str, text_eq, is_empty,
  Dict, lookup, if◌then◌else◌,
}
use pouch.Prelude.Int.{ℤ, pos}
use pouch.Cri.Names.{PodSandboxMetadata}
use pouch.Cri.Labels.{type_key}
use pouch.Cri.Convert.{
  to_cri_sandbox, SandboxState, sandbox_ready, sandbox_notready, sandbox_notfound, CriState,
  container_created, container_running, container_exited, container_unknown, container_pause,
  Stored, PodSandbox, CriContainer, text_at, to_cri_container,
}

abbrev is_value : Text → Option Text → Bool
is_value v none = false
is_value v (some w) = text_eq v w

-- the loop over the label selector
unfoldable pub labels_match : Dict Text → Dict Text → Bool
unfolding lookup text_eq
labels_match [] labels = true
labels_match ((k, v) ∷ selector) labels =
    is_value v (lookup k labels) && labels_match selector labels

abbrev is_same_state : CriState → CriState → Bool
is_same_state container_created container_created = true
is_same_state container_running container_running = true
is_same_state container_exited container_exited = true
is_same_state container_unknown container_unknown = true
is_same_state container_pause container_pause = true
is_same_state _ _ = false

abbrev is_state : Option CriState → CriState → Bool
is_state none s = true
is_state (some t) s = is_same_state t s

abbrev is_same_sandbox_state : SandboxState → SandboxState → Bool
is_same_sandbox_state sandbox_ready sandbox_ready = true
is_same_sandbox_state sandbox_notready sandbox_notready = true
is_same_sandbox_state sandbox_notfound sandbox_notfound = true
is_same_sandbox_state _ _ = false

abbrev is_sandbox_state : Option SandboxState → SandboxState → Bool
is_sandbox_state none s = true
is_sandbox_state (some t) s = is_same_sandbox_state t s

-- `ContainerFilter`
pub record ContainerFilter : Type 0 where
  pub id : Text
  pub pod_sandbox_id : Text
  pub state : Option CriState
  pub label_selector : Dict Text

-- `PodSandboxFilter`
pub record PodSandboxFilter : Type 0 where
  pub id : Text
  pub state : Option SandboxState
  pub label_selector : Dict Text

abbrev is_or_any : Text → Text → Bool
is_or_any t u = is_empty t || text_eq t u

unfoldable pub container_matches : ContainerFilter → CriContainer → Bool
unfolding labels_match text_eq
container_matches f c =
    is_or_any f.id c.id
    && is_or_any f.pod_sandbox_id c.pod_sandbox_id
    && is_state f.state c.state
    && labels_match f.label_selector c.labels

unfoldable pub sandbox_matches : PodSandboxFilter → PodSandbox → Bool
unfolding labels_match text_eq
sandbox_matches f s =
    is_or_any f.id s.id
    && is_sandbox_state f.state s.state
    && labels_match f.label_selector s.labels

abbrev kept : {A : Type 0} → Bool → A → List A → List A
kept b a rest = if b then a ∷ rest else rest

unfoldable pub filter_cri_containers :
    Option ContainerFilter → List CriContainer → List CriContainer
unfolding container_matches
filter_cri_containers none cs = cs
filter_cri_containers (some f) [] = []
filter_cri_containers (some f) (c ∷ cs) =
    kept (container_matches f c) c (filter_cri_containers (some f) cs)

unfoldable pub filter_cri_sandboxes : Option PodSandboxFilter → List PodSandbox → List PodSandbox
unfolding sandbox_matches
filter_cri_sandboxes none cs = cs
filter_cri_sandboxes (some f) [] = []
filter_cri_sandboxes (some f) (c ∷ cs) =
    kept (sandbox_matches f c) c (filter_cri_sandboxes (some f) cs)

abbrev pub with_view : Option CriContainer → List CriContainer → List CriContainer
with_view none cs = cs
with_view (some c) cs = c ∷ cs

-- the containers that are no sandboxes, as the kubelet sees them; one without a view is left out
unfoldable pub cri_containers : (Text → Option ℤ) → List Stored → List CriContainer
unfolding to_cri_container text_eq lookup
cri_containers parse_time [] = []
cri_containers parse_time (c ∷ cs) =
    let rest = cri_containers parse_time cs in
    if text_eq (text_at type_key c.labels) (str "container")
    then with_view (to_cri_container parse_time c) rest
    else rest

-- `ListContainers`, of the containers that the manager lists
unfoldable pub list_containers :
    (Text → Option ℤ) → List Stored → Option ContainerFilter → List CriContainer
unfolding cri_containers filter_cri_containers
list_containers parse_time cs filter = filter_cri_containers filter (cri_containers parse_time cs)

-- `PodSandboxConfig`, the fields that are listed
pub record PodSandboxConfig : Type 0 where
  pub metadata : PodSandboxMetadata
  pub labels : Dict Text
  pub annotations : Dict Text

-- a sandbox of the store whose container is not found; one that was made in part has no config
abbrev lost_view : Text → Option PodSandboxConfig → Option PodSandbox
lost_view id none = none
lost_view id (some config) = some (record {
  id = id;
  metadata = config.metadata;
  state = sandbox_notfound;
  created_at = pos 1;
  labels = config.labels;
  annotations = config.annotations;
})

abbrev stored_view :
    (Text → Option ℤ) → Text → Option PodSandboxConfig → Option Stored → Option (Option PodSandbox)
stored_view parse_time id config none = some (lost_view id config)
stored_view parse_time id config (some c) = to_cri_sandbox parse_time c

abbrev with_sandbox :
    Option (Option PodSandbox) → Option (List PodSandbox) → Option (List PodSandbox)
with_sandbox none ss = none
with_sandbox (some none) ss = ss
with_sandbox (some (some s)) none = none
with_sandbox (some (some s)) (some ss) = some (s ∷ ss)

-- the loop over the store, which Go runs in any order; `get` is that of the container manager, and none is
-- a panic
unfoldable pub cri_sandboxes :
    (Text → Option ℤ)
    → (Text → Option Stored)
    → Dict (Option PodSandboxConfig)
    → Option (List PodSandbox)
unfolding to_cri_sandbox
cri_sandboxes parse_time get [] = some []
cri_sandboxes parse_time get ((id, config) ∷ store) =
    with_sandbox (stored_view parse_time id config (get id)) (cri_sandboxes parse_time get store)

-- `ListPodSandbox`, of a store that can be read
unfoldable pub list_pod_sandbox :
    (Text → Option ℤ)
    → (Text → Option Stored)
    → Dict (Option PodSandboxConfig)
    → Option PodSandboxFilter
    → Option (List PodSandbox)
unfolding cri_sandboxes filter_cri_sandboxes
list_pod_sandbox parse_time get store filter = elim (cri_sandboxes parse_time get store) [
  | none ↦ none
  | some ss ↦ some (filter_cri_sandboxes filter ss)
]
