-- ===== src/Cri/Config/Binds.antt =====
-- The binds that the CRI service makes of the mounts of the kubelet, as the options of a container read them.
use pouch.Prelude.{
  ◌≡◌, refl, ap, sym, ◌∙◌, Bool, true, false, not, some, List, [], ◌∷◌, ◌++◌, Text, str, split,
  split-join, split-field, subst, join, have_no, contains_char, is_empty, text_eq, if◌then◌else◌,
}
use pouch.Prelude.Fields.{split-both}
use pouch.Opts.Bind.{check_bind, checked, MountPoint, word_of, read_words, parse_bind_mode}
use pouch.Cri.Config.{
  Mount, Propagation, propagation_private, host_to_container, bidirectional, attrs, with_attrs,
  mount_binding,
}

abbrev pub mode_of : Mount → Text
mode_of m = join 44 (attrs m)

abbrev propagated : Propagation → Text → Text
propagated propagation_private own = own
propagated bidirectional own = str "rshared"
propagated host_to_container own = str "rslave"

-- the mount point that the mode of a mount makes of another
abbrev pub with_mount : Mount → MountPoint → MountPoint
with_mount m mp = record mp {
  rw = not m.readonly;
  copy_data = true;
  propagation = propagated m.propagation mp.propagation;
  mode = if is_empty (mode_of m) then mp.mode else mode_of m;
}

mode-parsed :
    (h c : Text) (ro label : Bool) (p : Propagation) (mp : MountPoint)
    → let m : Mount = record {
      container_path = c;
      host_path = h;
      readonly = ro;
      selinux_relabel = label;
      propagation = p;
    } in
      (parse_bind_mode mp (mode_of m) ≡ some (with_mount m mp))
      × (contains_char 58 (mode_of m) ≡ false)
unfolding parse_bind_mode join read_words word_of contains_char
mode-parsed h c false false propagation_private mp = (refl, refl)
mode-parsed h c false false host_to_container mp = (refl, refl)
mode-parsed h c false false bidirectional mp = (refl, refl)
mode-parsed h c false true propagation_private mp = (refl, refl)
mode-parsed h c false true host_to_container mp = (refl, refl)
mode-parsed h c false true bidirectional mp = (refl, refl)
mode-parsed h c true false propagation_private mp = (refl, refl)
mode-parsed h c true false host_to_container mp = (refl, refl)
mode-parsed h c true false bidirectional mp = (refl, refl)
mode-parsed h c true true propagation_private mp = (refl, refl)
mode-parsed h c true true host_to_container mp = (refl, refl)
mode-parsed h c true true bidirectional mp = (refl, refl)

abbrev pub mode_field : List Text → List Text
mode_field [] = []
mode_field (a ∷ ws) = join 44 (a ∷ ws) ∷ []

-- the parts that `CheckBind` gives
abbrev pub parts : Mount → List Text
parts m = m.host_path ∷ m.container_path ∷ mode_field (attrs m)

paths-split : (h c : Text) → have_no 58 (h ∷ c ∷ []) ≡ true → split 58 (h ++ 58 ∷ c) ≡ h ∷ c ∷ []
unfolding join
paths-split h c k = split-join 58 h (c ∷ []) k

binding-split :
    (h c : Text) (ws : List Text)
    → have_no 58 (h ∷ c ∷ []) ≡ true
    → contains_char 58 (join 44 ws) ≡ false
    → split 58 (with_attrs (h ++ 58 ∷ c) ws) ≡ h ∷ c ∷ mode_field ws
binding-split h c [] k n = paths-split h c k
binding-split h c (a ∷ ws) k n =
    split-both 58 (h ++ 58 ∷ c) (join 44 (a ∷ ws))
    ∙ ap (λ fs. fs ++ split 58 (join 44 (a ∷ ws))) (paths-split h c k)
    ∙ ap (λ fs. h ∷ c ∷ fs) (split-field 58 (join 44 (a ∷ ws)) n)

parts-checked :
    (h c : Text) (ws : List Text)
    → checked (h ∷ (47 ∷ c) ∷ mode_field ws) ≡ some (h ∷ (47 ∷ c) ∷ mode_field ws)
unfolding text_eq
parts-checked h c [] = refl
parts-checked h c (a ∷ ws) = refl

-- The bind that `generateMountBindings` makes of a mount whose paths have no colon and whose path in the
-- container is absolute: `CheckBind` accepts it and gives the two paths and, if there are attributes, the
-- mode; and `ParseBindMode` accepts the mode and makes a mount point of it that is read-only if and only if
-- the mount is, copies data, and has the propagation of the mount unless that is private.
pub mount_binding-parsed :
    (m : Mount) (c : Text) (mp : MountPoint)
    → have_no 58 (m.host_path ∷ m.container_path ∷ []) ≡ true
    → m.container_path ≡ 47 ∷ c
    → (check_bind (mount_binding m) ≡ some (parts m))
      × (parse_bind_mode mp (mode_of m) ≡ some (with_mount m mp))
unfolding check_bind mount_binding
mount_binding-parsed m c mp k e =
    let (parsed, no_colon) =
      mode-parsed m.host_path m.container_path m.readonly m.selinux_relabel m.propagation mp in
    (
      ap checked (binding-split m.host_path m.container_path (attrs m) k no_colon)
          ∙ subst
              (λ p.
                checked (m.host_path ∷ p ∷ mode_field (attrs m))
                ≡ some (m.host_path ∷ p ∷ mode_field (attrs m)))
              (sym e) (parts-checked m.host_path c (attrs m)),
      parsed,
    )
