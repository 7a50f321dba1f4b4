-- ===== src/Cri/Config.antt =====
-- cri/v1alpha2/cri_utils.go: mounts, users, ports and annotations of the kubelet.
pub mod Binds
use pouch.Prelude.{
  Bool, Option, none, some, List, [], ◌∷◌, ◌++◌, Text, str, is_empty, split, join, contains_char,
  Dict, lookup, if◌then◌else◌,
}
use pouch.Prelude.Int.{ℤ, pos, ltb_ℤ}
use pouch.Prelude.Task.{Task, Outcome, done, raised, ◌>>=◌, ◌>>◌}
use pouch.Opts.Policy.{atoi}

-- `MountPropagation`
pub data Propagation : Type 0 where
  propagation_private host_to_container bidirectional : Propagation

-- `Mount`
pub record Mount : Type 0 where
  pub container_path : Text
  pub host_path : Text
  pub readonly : Bool
  pub selinux_relabel : Bool
  pub propagation : Propagation

abbrev propagation_words : Propagation → List Text
propagation_words propagation_private = []
propagation_words bidirectional = str "rshared" ∷ []
propagation_words host_to_container = str "rslave" ∷ []

-- the attributes of a mount
abbrev pub attrs : Mount → List Text
attrs m =
    (if m.readonly then str "ro" ∷ [] else [])
    ++ (if m.selinux_relabel then str "Z" ∷ [] else [])
    ++ propagation_words m.propagation

abbrev pub with_attrs : Text → List Text → Text
with_attrs bind [] = bind
with_attrs bind (a ∷ as') = bind ++ 58 ∷ join 44 (a ∷ as')

-- one turn of the loop of `generateMountBindings`
unfoldable pub mount_binding : Mount → Text
unfolding join
mount_binding m = with_attrs (m.host_path ++ 58 ∷ m.container_path) (attrs m)

unfoldable pub generate_mount_bindings : List Mount → List Text
unfolding mount_binding
generate_mount_bindings [] = []
generate_mount_bindings (m ∷ ms) = mount_binding m ∷ generate_mount_bindings ms

abbrev first_or_all : Text → List Text → Text
first_or_all id [] = id
first_or_all id (f ∷ _) = f

-- `parseUserFromImageUser`
unfoldable pub parse_user_from_image_user : Text → Text
unfolding contains_char split
parse_user_from_image_user id =
    if is_empty id then id else if contains_char 58 id then first_or_all id (split 58 id) else id

abbrev uid_or_name : Text → Option ℤ → Option ℤ × Text
uid_or_name user none = (none, user)
uid_or_name user (some uid) = (some uid, [])

-- `getUserFromImageUser`; `ParseInt` with base 10 reads what `Atoi` does
unfoldable pub get_user_from_image_user : Text → Option ℤ × Text
unfolding parse_user_from_image_user atoi
get_user_from_image_user image_user =
    let user = parse_user_from_image_user image_user in
    if is_empty user then (none, []) else uid_or_name user (atoi user)

-- `PortMapping`; `protocol` is the name in lower case
pub record PortMapping : Type 0 where
  pub protocol : Text
  pub container_port : ℤ
  pub host_port : ℤ
  pub host_ip : Text

unfoldable pub to_cni_port_mappings : List PortMapping → List PortMapping
to_cni_port_mappings [] = []
to_cni_port_mappings (p ∷ ps) =
    let rest = to_cni_port_mappings ps in if ltb_ℤ (pos 0) p.host_port then p ∷ rest else rest

-- `parseDNSOptions`
unfoldable pub parse_dns_options : List Text → List Text → List Text → Text
unfolding join
parse_dns_options servers searches options =
    dns_line (str "search ") (join 32 searches) searches
    ++ dns_line (str "nameserver ") (name_servers servers) servers
    ++ dns_line (str "options ") (join 32 options) options
  where
    dns_line : Text → Text → List Text → Text
    dns_line word values [] = []
    dns_line word values (_ ∷ _) = word ++ values ++ 10 ∷ []

    name_servers : List Text → Text
    name_servers [] = []
    name_servers (s ∷ []) = s
    name_servers (s ∷ t ∷ ss) = s ++ 10 ∷ str "nameserver " ++ name_servers (t ∷ ss)

-- the two limits that annotations set, of the configuration of a container that is created or updated
pub record Limits : Type 0 where
  pub memory_swap : ℤ
  pub pids_limit : ℤ

pub data BadAnnotation : Type 0 where
  bad_memory_swap bad_pids_limit : BadAnnotation

abbrev set_limit :
    (ℤ → Limits → Limits) → Option Text → BadAnnotation → Task Limits BadAnnotation (Unit {0})
set_limit f none e c = (done tt, c)
set_limit f (some t) e c = read_limit (atoi t)
  where
    read_limit : Option ℤ → Outcome BadAnnotation (Unit {0}) × Limits
    read_limit none = (raised e, c)
    read_limit (some z) = (done tt, f z c)

-- `applyContainerConfigByAnnotation`
unfoldable pub apply_container_config_by_annotation :
    Dict Text → Task Limits BadAnnotation (Unit {0})
unfolding lookup atoi
apply_container_config_by_annotation annotations = do
  set_limit (λ z c. record c { memory_swap = z })
      (lookup (str "io.alibaba.pouch.resources.memory-swap") annotations) bad_memory_swap
  set_limit (λ z c. record c { pids_limit = z })
      (lookup (str "io.alibaba.pouch.resources.pids-limit") annotations) bad_pids_limit
