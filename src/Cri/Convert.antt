-- ===== src/Cri/Convert.antt =====
-- cri/v1alpha2/cri_utils.go and cri.go: containers and sandboxes as the kubelet sees them.
use pouch.Prelude.{Option, none, some, [], Text, str, is_empty, Dict, lookup, if◌then◌else◌}
use pouch.Prelude.Int.{ℤ, pos, eq_ℤ}
use pouch.Container.State.{
  Status, created, running, stopped, paused, restarting, removing, exited, dead, State,
}
use pouch.Cri.Names.{
  PodSandboxMetadata, ContainerMetadata, parse_sandbox_name, parse_container_name,
}
use pouch.Cri.Labels.{sandbox_id_key, extract_labels}

-- `PodSandboxState`
pub data SandboxState : Type 0 where
  sandbox_ready sandbox_notready sandbox_notfound : SandboxState

-- `ContainerState` of the protocol
pub data CriState : Type 0 where
  container_created container_running container_exited container_unknown container_pause : CriState

-- what the conversions read of a container of the manager
pub record Stored : Type 0 where
  pub id : Text
  pub name : Text
  pub image : Text
  pub config_image : Text
  pub labels : Dict Text
  pub created_at : Text
  pub state : Option State

-- `PodSandbox`
pub record PodSandbox : Type 0 where
  pub id : Text
  pub metadata : PodSandboxMetadata
  pub state : SandboxState
  pub created_at : ℤ
  pub labels : Dict Text
  pub annotations : Dict Text

-- `Container` of the protocol
pub record CriContainer : Type 0 where
  pub id : Text
  pub pod_sandbox_id : Text
  pub metadata : ContainerMetadata
  pub image : Text
  pub image_ref : Text
  pub state : CriState
  pub created_at : ℤ
  pub labels : Dict Text
  pub annotations : Dict Text

unfoldable pub to_cri_sandbox_state : Status → SandboxState
to_cri_sandbox_state running = sandbox_ready
to_cri_sandbox_state _ = sandbox_notready

abbrev pub cri_state_of : Status → CriState
cri_state_of created = container_created
cri_state_of running = container_running
cri_state_of exited = container_exited
cri_state_of stopped = container_exited
cri_state_of paused = container_pause
cri_state_of restarting = container_unknown
cri_state_of removing = container_unknown
cri_state_of dead = container_unknown

abbrev exit_reason : State → Text
exit_reason s =
    if s.oom_killed
    then str "OOMKilled"
    else if eq_ℤ s.exit_code (pos 0)
    then str "Completed"
    else str "Error"

abbrev reason_of : CriState → State → Text
reason_of container_exited s = exit_reason s
reason_of _ s = []

-- the state and the reason
unfoldable pub to_cri_container_state : Option State → CriState × Text
to_cri_container_state none = (container_unknown, str "container state is nil")
to_cri_container_state (some s) = (cri_state_of s.status, reason_of (cri_state_of s.status) s)

-- m[k] of a map of texts
abbrev pub text_at : Text → Dict Text → Text
text_at k m = elim (lookup k m) [ none ↦ [] | some v ↦ v ]

abbrev time_of : (Text → Option ℤ) → Text → Option ℤ
time_of parse_time t = if is_empty t then some (pos 0) else parse_time t

-- `toCriTimestamp`; `parse_time` reads a time as the nanoseconds since 1970
unfoldable pub to_cri_timestamp : (Text → Option ℤ) → Text → Option ℤ
to_cri_timestamp parse_time t = time_of parse_time t

abbrev pub container_view : Stored → Option ContainerMetadata → Option ℤ → Option CriContainer
container_view c none time = none
container_view c (some m) none = none
container_view c (some m) (some time) = some (record {
  id = c.id;
  pod_sandbox_id = text_at sandbox_id_key c.labels;
  metadata = m;
  image = c.config_image;
  image_ref = c.image;
  state = (to_cri_container_state c.state).0;
  created_at = time;
  labels = (extract_labels c.labels).0;
  annotations = (extract_labels c.labels).1;
})

-- `toCriContainer`, none for an error
unfoldable pub to_cri_container : (Text → Option ℤ) → Stored → Option CriContainer
unfolding to_cri_container_state parse_container_name extract_labels to_cri_timestamp lookup
to_cri_container parse_time c =
    container_view c (parse_container_name c.name) (to_cri_timestamp parse_time c.created_at)

abbrev sandbox_view :
    Stored → Option State → Option PodSandboxMetadata → Option ℤ → Option (Option PodSandbox)
sandbox_view c none o time = none
sandbox_view c (some s) none time = some none
sandbox_view c (some s) (some m) none = some none
sandbox_view c (some s) (some m) (some time) = some (
    some (record {
      id = c.id;
      metadata = m;
      state = to_cri_sandbox_state s.status;
      created_at = time;
      labels = (extract_labels c.labels).0;
      annotations = (extract_labels c.labels).1;
    }))

-- `toCriSandbox`: the outer none is the panic on a state that is nil, the inner one an error
unfoldable pub to_cri_sandbox : (Text → Option ℤ) → Stored → Option (Option PodSandbox)
unfolding to_cri_sandbox_state parse_sandbox_name extract_labels to_cri_timestamp
to_cri_sandbox parse_time c =
    sandbox_view c c.state (parse_sandbox_name c.name) (to_cri_timestamp parse_time c.created_at)
