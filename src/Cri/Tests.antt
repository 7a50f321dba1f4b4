-- ===== src/Cri/Tests.antt =====
-- Tests of the CRI service.
use pouch.Prelude.{
  ◌≡◌, refl, true, false, not, ◌&&◌, none, some, [], ◌∷◌, ◌++◌, Text, str, Dict, lookup, text_eq,
  is_empty, have_no, contains_char, if◌then◌else◌, arith,
}
use pouch.Prelude.Int.{pos, negsuc}
use pouch.Prelude.Task.{done, raised, ◌>>=◌}
use pouch.Opts.Bind.{MountPoint, check_bind, parse_bind_mode}
use pouch.Cri.Names.{
  PodSandboxMetadata, ContainerMetadata, make_sandbox_name, make_container_name,
  parse_container_name,
}
use pouch.Cri.Labels.{container_labels, extract_labels, log_path_key, annotation_prefix}
use pouch.Cri.Labels.Lookup.{is_no_label, or_else}
use pouch.Cri.Labels.RoundTrip.{extract_labels-container_labels}
use pouch.Cri.Resources.{
  LinuxContainerResources, parse_resources_from_cri, parse_resources_from_pouch,
}
use pouch.Cri.Security.{
  SecurityContext, CreateConfig, pod, container, node, apply_container_security_context,
  apparmor_not_local,
}
use pouch.Cri.Security.Refused.{
  verdict, has_user_or_no_group, is_accepted_seccomp, is_accepted_app_armor,
  apply_container_security_context-verdict,
}
use pouch.Cri.Config.{
  Mount, bidirectional, mount_binding, get_user_from_image_user, parse_dns_options, bad_pids_limit,
  apply_container_config_by_annotation,
}
use pouch.Cri.Config.Binds.{mode_of, with_mount, parts, mount_binding-parsed}
use pouch.Cri.Convert.{sandbox_notfound, Stored, to_cri_timestamp}
use pouch.Cri.Lists.{list_containers, list_pod_sandbox}
use pouch.Cri.Lists.Listed.{of_sandbox, created_view, list_containers-created}

abbrev sandbox : PodSandboxMetadata
sandbox = record { name = str "web"; namespace = str "default"; uid = str "7f"; attempt = 0 }

abbrev nginx : ContainerMetadata
nginx = record { name = str "nginx"; attempt = 12 }

name_of_sandbox : make_sandbox_name sandbox ≡ str "k8s_POD_web_default_7f_0"
unfolding make_sandbox_name
name_of_sandbox = refl

name_of_container : make_container_name sandbox nginx ≡ str "k8s_nginx_web_default_7f_12"
unfolding make_container_name
name_of_container = refl

-- two sandboxes have the same name if a field has an underscore
shared_name :
    make_sandbox_name (record sandbox { name = str "a_b"; namespace = str "c" })
    ≡ make_sandbox_name (record sandbox { name = str "a"; namespace = str "b_c" })
unfolding make_sandbox_name
shared_name = refl

foreign_name : parse_container_name (str "web_nginx_web_default_7f_12") ≡ none
unfolding parse_container_name
foreign_name = refl

large_attempt : parse_container_name (str "k8s_nginx_web_default_7f_4294967296") ≡ none
unfolding parse_container_name
large_attempt = refl

abbrev labels : Dict Text
labels = (str "app", str "web") ∷ (str "annotation.x", str "1") ∷ []

abbrev annotations : Dict Text
annotations = (str "y", str "2") ∷ []

-- the path of the log is not kept for the service itself
log_path_is_shown :
    lookup log_path_key
      (extract_labels (container_labels labels annotations (str "s1") (str "/log/0"))).0
    ≡ some (str "/log/0")
unfolding container_labels extract_labels lookup
log_path_is_shown = refl

extract_labels-container_labels_example :
    (lookup
        (str "x")
        (extract_labels (container_labels labels annotations (str "s1") (str "/log/0"))).0
      ≡ (if is_no_label (str "x")
          then none
          else if not (is_empty (str "/log/0")) && text_eq log_path_key (str "x")
          then some (str "/log/0")
          else lookup (str "x") labels))
    × (lookup
          (str "x")
          (extract_labels (container_labels labels annotations (str "s1") (str "/log/0"))).1
        ≡ or_else (lookup (str "x") annotations) (lookup (annotation_prefix ++ str "x") labels))
extract_labels-container_labels_example =
    extract_labels-container_labels (str "x") (str "s1") (str "/log/0") labels annotations

abbrev requested : LinuxContainerResources
requested = record {
  cpu_period = pos 100000;
  cpu_quota = negsuc 0;
  cpu_shares = pos 512;
  memory_limit_in_bytes = pos 8388608;
  cpuset_cpus = str "0-1";
  cpuset_mems = [];
  blkio_weight = 500;
  blkio_weight_device = record { path = str "/dev/sda"; value = 65535 } ∷ [];
  blkio_device_read_bps = record { path = str "/dev/sda"; value = 1048576 } ∷ [];
  blkio_device_write_bps = [];
  blkio_device_read_iops = [];
  blkio_device_write_iops = [];
  kernel_memory = pos 0;
  memory_reservation = pos 0;
  memory_swappiness = some (pos 10);
  ulimits = record { name = str "nofile"; hard = pos 2048; soft = pos 1024 } ∷ [];
  disk_quota = [];
}

resources_come_back :
    parse_resources_from_pouch (parse_resources_from_cri requested) ((str "/", str "10g") ∷ [])
    ≡ record requested { disk_quota = (str "/", str "10g") ∷ [] }
unfolding parse_resources_from_pouch parse_resources_from_cri
resources_come_back = refl

abbrev context : SecurityContext
context = record {
  capabilities = none;
  privileged = false;
  namespace_options = some (record { network = pod; pid = container; ipc = node });
  selinux_options = none;
  run_as_user = some (pos 1000);
  run_as_group = some (pos 50);
  run_as_username = [];
  readonly_rootfs = true;
  supplemental_groups = negsuc 0 ∷ pos 7 ∷ [];
  apparmor_profile = str "docker/default";
  seccomp_profile_path = str "docker/default";
  no_new_privs = true;
  masked_paths = str "/proc/kcore" ∷ [];
  readonly_paths = [];
}

abbrev empty_config : CreateConfig
empty_config = record {
  user = [];
  pid_mode = [];
  ipc_mode = [];
  network_mode = [];
  group_add = [];
  privileged = false;
  readonly_rootfs = false;
  cap_add = [];
  cap_drop = [];
  security_opt = [];
  masked_paths = [];
  readonly_paths = [];
}

apply_container_security_context-verdict_example :
    (apply_container_security_context (some context) (str "s1") empty_config).0
    ≡ verdict
        (has_user_or_no_group context)
        (is_accepted_seccomp context.seccomp_profile_path)
        (is_accepted_app_armor context.apparmor_profile)
apply_container_security_context-verdict_example =
    apply_container_security_context-verdict context (str "s1") empty_config

-- the profile that is a default for seccomp is refused for AppArmor
docker_default_is_no_app_armor_profile :
    (apply_container_security_context (some context) (str "s1") empty_config).0
    ≡ raised apparmor_not_local
unfolding apply_container_security_context ◌>>=◌
docker_default_is_no_app_armor_profile = refl

abbrev applied : CreateConfig
applied = record {
  user = str "1000:50";
  pid_mode = [];
  ipc_mode = str "host";
  network_mode = str "container:s1";
  group_add = str "-1" ∷ str "7" ∷ [];
  privileged = false;
  readonly_rootfs = true;
  cap_add = [];
  cap_drop = [];
  security_opt = str "apparmor=web" ∷ str "no-new-privileges" ∷ [];
  masked_paths = str "/proc/kcore" ∷ [];
  readonly_paths = [];
}

context_is_applied :
    apply_container_security_context
      (some (record context { apparmor_profile = str "localhost/web" }))
      (str "s1")
      empty_config
    ≡ (done tt, applied)
unfolding apply_container_security_context ◌>>=◌
context_is_applied = refl

abbrev data_mount : Mount
data_mount = record {
  container_path = str "/data";
  host_path = str "/srv";
  readonly = true;
  selinux_relabel = true;
  propagation = bidirectional;
}

abbrev mount_point : MountPoint
mount_point = record { rw = false; copy_data = false; replace = []; propagation = []; mode = [] }

binding_of_mount : mount_binding data_mount ≡ str "/srv:/data:ro,Z,rshared"
unfolding mount_binding
binding_of_mount = refl

data_mount_has_no_colon : have_no 58 (data_mount.host_path ∷ data_mount.container_path ∷ []) ≡ true
unfolding contains_char
data_mount_has_no_colon = refl

mount_binding-parsed_example :
    (check_bind (mount_binding data_mount) ≡ some (parts data_mount))
    × (parse_bind_mode mount_point (mode_of data_mount) ≡ some (with_mount data_mount mount_point))
mount_binding-parsed_example =
    mount_binding-parsed data_mount (str "data") mount_point data_mount_has_no_colon refl

user_of_image : get_user_from_image_user (str "1000:users") ≡ (some (pos 1000), [])
unfolding get_user_from_image_user
user_of_image = refl

dns :
    parse_dns_options (str "8.8.8.8" ∷ str "1.1.1.1" ∷ []) (str "a" ∷ str "b" ∷ []) []
    ≡ str "search a b\nnameserver 8.8.8.8\nnameserver 1.1.1.1\n"
unfolding parse_dns_options
dns = refl

-- an error leaves what was set before it
bad_annotation :
    apply_container_config_by_annotation
      ((str "io.alibaba.pouch.resources.pids-limit", str "x")
        ∷ (str "io.alibaba.pouch.resources.memory-swap", str "-1")
        ∷ [])
      (record { memory_swap = pos 0; pids_limit = pos 0 })
    ≡ (raised bad_pids_limit, record { memory_swap = negsuc 0; pids_limit = pos 0 })
unfolding apply_container_config_by_annotation ◌>>=◌ text_eq
bad_annotation = refl

abbrev stored : Stored
stored = record {
  id = str "c1";
  name = str "k8s_nginx_web_default_7f_12";
  image = str "sha256:0";
  config_image = str "nginx";
  labels = container_labels labels annotations (str "s1") (str "/log/0");
  created_at = [];
  state = none;
}

abbrev other : Stored
other = record stored { id = str "c2"; name = str "by-hand"; labels = [] }

name_of_stored : stored.name ≡ make_container_name sandbox nginx
unfolding make_container_name
name_of_stored = refl

names_have_no_underscore :
    have_no 95 (nginx.name ∷ sandbox.name ∷ sandbox.namespace ∷ sandbox.uid ∷ []) ≡ true
unfolding contains_char
names_have_no_underscore = refl

time_of_stored : to_cri_timestamp (λ _. none) stored.created_at ≡ some (pos 0)
unfolding to_cri_timestamp
time_of_stored = refl

list_containers-created_example :
    list_containers (λ _. none) (other ∷ stored ∷ []) (some (of_sandbox (str "s1")))
    ≡ list_containers (λ _. none) (other ∷ []) (some (of_sandbox (str "s1")))
      ++ created_view (λ _. none) stored (str "s1") nginx (pos 0)
        ∷ list_containers (λ _. none) [] (some (of_sandbox (str "s1")))
list_containers-created_example =
    list_containers-created (λ _. none) (other ∷ []) [] stored sandbox nginx labels annotations
      (str "s1") (str "/log/0") (pos 0) name_of_stored names_have_no_underscore (ground arith) refl
      time_of_stored

-- a sandbox without its container is listed from the store, and one that was made in part is not
sandbox_without_container :
    list_pod_sandbox
      (λ _. none)
      (λ _. none)
      ((str "s1", some (record { metadata = sandbox; labels = []; annotations = [] }))
        ∷ (str "s2", none)
        ∷ [])
      (some (record { id = str "s1"; state = some sandbox_notfound; label_selector = [] }))
    ≡ some (
        record {
          id = str "s1";
          metadata = sandbox;
          state = sandbox_notfound;
          created_at = pos 1;
          labels = [];
          annotations = [];
        }
        ∷ [])
unfolding list_pod_sandbox
sandbox_without_container = refl
