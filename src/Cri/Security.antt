-- ===== src/Cri/Security.antt =====
-- cri/v1alpha2/cri_utils.go: the security context of the kubelet in the configuration of a container.
pub mod Refused
use pouch.Prelude.{
  suc, Bool, not, ◌||◌, Option, none, some, List, [], ◌∷◌, ◌++◌, Text, str, text_eq, has_prefix,
  is_empty, if◌then◌else◌,
}
use pouch.Prelude.Int.{ℤ, pos, negsuc}
use pouch.Prelude.Decimal.{format_uint}
use pouch.Prelude.Task.{Task, done, require, expect, ◌>>=◌, ◌>>◌}
use pouch.Cri.Labels.{trim_prefix}

-- `NamespaceMode`
pub data NamespaceMode : Type 0 where
  pod container node : NamespaceMode

-- `NamespaceOption`
pub record NamespaceOption : Type 0 where
  pub network : NamespaceMode
  pub pid : NamespaceMode
  pub ipc : NamespaceMode

-- `SELinuxOption`
pub record SelinuxOption : Type 0 where
  pub user : Text
  pub role : Text
  pub type : Text
  pub level : Text

-- `Capability`
pub record Capability : Type 0 where
  pub add_capabilities : List Text
  pub drop_capabilities : List Text

-- `LinuxContainerSecurityContext`
pub record SecurityContext : Type 0 where
  pub capabilities : Option Capability
  pub privileged : Bool
  pub namespace_options : Option NamespaceOption
  pub selinux_options : Option SelinuxOption
  pub run_as_user : Option ℤ
  pub run_as_group : Option ℤ
  pub run_as_username : Text
  pub readonly_rootfs : Bool
  pub supplemental_groups : List ℤ
  pub apparmor_profile : Text
  pub seccomp_profile_path : Text
  pub no_new_privs : Bool
  pub masked_paths : List Text
  pub readonly_paths : List Text

-- `User` of the container's configuration, and the fields of its `HostConfig` that are set
pub record CreateConfig : Type 0 where
  pub user : Text
  pub pid_mode : Text
  pub ipc_mode : Text
  pub network_mode : Text
  pub group_add : List Text
  pub privileged : Bool
  pub readonly_rootfs : Bool
  pub cap_add : List Text
  pub cap_drop : List Text
  pub security_opt : List Text
  pub masked_paths : List Text
  pub readonly_paths : List Text

pub data Err : Type 0 where
  group_without_user seccomp_not_local apparmor_not_local : Err

abbrev pub Applying : Type 0
Applying = Task CreateConfig Err (Unit {0})

-- `strconv.FormatInt` with base 10
unfoldable pub format_int : ℤ → Text
unfolding format_uint
format_int (pos n) = format_uint n
format_int (negsuc n) = 45 ∷ format_uint (suc n)

abbrev pub local_prefix : Text
local_prefix = str "localhost/"

-- the options, or none for an error
unfoldable pub get_app_armor_security_opts : Text → Option (List Text)
unfolding text_eq has_prefix trim_prefix
get_app_armor_security_opts profile =
    if is_empty profile || text_eq profile (str "runtime/default")
    then some []
    else if text_eq profile (str "unconfined")
    then some ((str "apparmor=" ++ profile) ∷ [])
    else if not (has_prefix local_prefix profile)
    then none
    else some ((str "apparmor=" ++ trim_prefix local_prefix profile) ∷ [])

unfoldable pub get_seccomp_security_opts : Text → Option (List Text)
unfolding text_eq has_prefix trim_prefix
get_seccomp_security_opts profile =
    if is_empty profile || text_eq profile (str "unconfined")
    then some (str "seccomp=unconfined" ∷ [])
    else if text_eq profile (str "docker/default") || text_eq profile (str "runtime/default")
    then some []
    else if not (has_prefix local_prefix profile)
    then none
    else some ((str "seccomp=" ++ trim_prefix local_prefix profile) ∷ [])

-- the labels, which Go gives in any order
unfoldable pub get_selinux_security_opts : Option SelinuxOption → List Text
get_selinux_security_opts none = []
get_selinux_security_opts (some o) =
    if is_empty o.user || is_empty o.role || is_empty o.type || is_empty o.level
    then []
    else (str "label=user:" ++ o.user)
      ∷ (str "label=role:" ++ o.role)
      ∷ (str "label=type:" ++ o.type)
      ∷ (str "label=level:" ++ o.level)
      ∷ []

abbrev group_texts : List ℤ → List Text
group_texts [] = []
group_texts (g ∷ gs) = format_int g ∷ group_texts gs

abbrev with_capabilities : Option Capability → CreateConfig → CreateConfig
with_capabilities none c = c
with_capabilities (some k) c = record c {
  cap_add = k.add_capabilities;
  cap_drop = k.drop_capabilities;
}

abbrev add_options : List Text → CreateConfig → CreateConfig
add_options opts c = record c { security_opt = c.security_opt ++ opts }

abbrev with_flags : SecurityContext → CreateConfig → CreateConfig
with_flags sc c = with_capabilities sc.capabilities (record c {
  group_add = c.group_add ++ group_texts sc.supplemental_groups;
  privileged = sc.privileged;
  readonly_rootfs = sc.readonly_rootfs;
})

abbrev with_paths : SecurityContext → CreateConfig → CreateConfig
with_paths sc c =
    if c.privileged
    then c
    else record c { masked_paths = sc.masked_paths; readonly_paths = sc.readonly_paths }

unfoldable pub modify : (CreateConfig → CreateConfig) → Applying
modify f c = (done tt, f c)

-- `modifyHostConfig` of a context
unfoldable pub modify_host_config : SecurityContext → Applying
unfolding modify format_int get_app_armor_security_opts get_seccomp_security_opts
    get_selinux_security_opts
modify_host_config sc = do
  modify (with_flags sc)
  seccomp ← expect (get_seccomp_security_opts sc.seccomp_profile_path) seccomp_not_local
  modify (add_options seccomp)
  modify (add_options (get_selinux_security_opts sc.selinux_options))
  apparmor ← expect (get_app_armor_security_opts sc.apparmor_profile) apparmor_not_local
  modify (add_options apparmor)
  modify (add_options (if sc.no_new_privs then str "no-new-privileges" ∷ [] else []))
  modify (with_paths sc)

abbrev pub int_text : Option ℤ → Text
int_text none = []
int_text (some z) = format_int z

abbrev pub user_text : SecurityContext → Text
user_text sc = if is_empty sc.run_as_username then int_text sc.run_as_user else sc.run_as_username

abbrev pub group_text : SecurityContext → Text
group_text sc = int_text sc.run_as_group

abbrev with_user : Text → Text → CreateConfig → CreateConfig
with_user user group c =
    if is_empty user
    then c
    else if is_empty group
    then record c { user = user }
    else record c { user = user ++ 58 ∷ group }

-- `modifyContainerConfig` of a context
unfoldable pub modify_container_config : SecurityContext → Applying
unfolding modify format_int
modify_container_config sc = do
  require (not (is_empty (user_text sc)) || is_empty (group_text sc)) group_without_user
  modify (with_user (user_text sc) (group_text sc))

abbrev pub host_or_sandbox : NamespaceMode → Text → Text
host_or_sandbox node sandbox = str "host"
host_or_sandbox pod sandbox = sandbox
host_or_sandbox container sandbox = sandbox

abbrev pub pid_or_own : NamespaceMode → Text → Text → Text
pid_or_own node sandbox own = str "host"
pid_or_own pod sandbox own = sandbox
pid_or_own container sandbox own = own

unfoldable pub modify_container_namespace_options :
    Option NamespaceOption → Text → CreateConfig → CreateConfig
modify_container_namespace_options none id c = record c {
  pid_mode = str "container:" ++ id;
  ipc_mode = str "container:" ++ id;
  network_mode = str "container:" ++ id;
}
modify_container_namespace_options (some o) id c = record c {
  pid_mode = pid_or_own o.pid (str "container:" ++ id) c.pid_mode;
  ipc_mode = host_or_sandbox o.ipc (str "container:" ++ id);
  network_mode = host_or_sandbox o.network (str "container:" ++ id);
}

abbrev host_or_own : NamespaceMode → Text → Text
host_or_own node own = str "host"
host_or_own pod own = own
host_or_own container own = own

unfoldable pub modify_sandbox_namespace_options :
    Option NamespaceOption → CreateConfig → CreateConfig
modify_sandbox_namespace_options none c = c
modify_sandbox_namespace_options (some o) c = record c {
  pid_mode = host_or_own o.pid c.pid_mode;
  ipc_mode = host_or_own o.ipc c.ipc_mode;
}

-- `applyContainerSecurityContext`; no context is one without namespaces
unfoldable pub apply_container_security_context : Option SecurityContext → Text → Applying
unfolding modify_container_config modify_host_config modify_container_namespace_options
apply_container_security_context none id = modify (modify_container_namespace_options none id)
apply_container_security_context (some sc) id = do
  modify_container_config sc
  modify_host_config sc
  modify (modify_container_namespace_options sc.namespace_options id)
