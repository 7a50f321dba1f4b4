-- ===== src/Opts/Device/Mode.antt =====
-- Which modes and which devices are accepted.
use pouch.Prelude.{
  ℕ, ◌≡◌, subst, refl, Bool, true, not, ◌&&◌, Bool-cases, inl, inr, Option-cases, some, List, [],
  ◌∷◌, Text, split-join, join, have_no, is_empty, contains_char, if◌then◌else◌, All, arith,
}
use pouch.Opts.Device.{
  DeviceMapping, legal_device_mode, forbid, check_mode, validate_device_mode, parse_device,
  parse_device_mappings,
}

-- no character comes twice
abbrev pub no_repeat : Text → Bool
no_repeat [] = true
no_repeat (c ∷ cs) = not (contains_char c cs) && no_repeat cs

abbrev pub all_chars : (ℕ → Bool) → Text → Bool
all_chars f [] = true
all_chars f (c ∷ cs) = f c && all_chars f cs

-- a letter of "rwm"
abbrev pub is_rwm : ℕ → Bool
is_rwm c = contains_char c (114 ∷ 119 ∷ 109 ∷ [])

all_chars-forbid :
    (c : ℕ) (legal : ℕ → Bool) (s : Text)
    → all_chars (forbid c legal) s ≡ (not (contains_char c s) && all_chars legal s)
unfolding contains_char
all_chars-forbid c legal [] = refl
all_chars-forbid c legal (d ∷ s) = ground (arith, all_chars-forbid c legal s)

check_mode_lem :
    (legal : ℕ → Bool) (mode : Text)
    → check_mode legal mode ≡ (all_chars legal mode && no_repeat mode)
unfolding check_mode
check_mode_lem legal [] = refl
check_mode_lem legal (c ∷ mode) =
    ground (arith, check_mode_lem (forbid c legal) mode, all_chars-forbid c legal mode)

legal_is_rwm : (mode : Text) → all_chars legal_device_mode mode ≡ all_chars is_rwm mode
unfolding contains_char
legal_is_rwm [] = refl
legal_is_rwm (c ∷ mode) = ground (arith, legal_is_rwm mode)

-- A device mode is valid if and only if it is not empty, has no other letters than r, w and m, and has
-- none of them twice.
pub validate_device_mode_lem :
    (mode : Text)
    → validate_device_mode mode ≡ (not (is_empty mode) && (all_chars is_rwm mode && no_repeat mode))
unfolding validate_device_mode
validate_device_mode_lem mode =
    ground (arith, check_mode_lem legal_device_mode mode, legal_is_rwm mode)

-- Printing a device as source, destination and permissions and parsing it gives it back, if no part has
-- a colon and the destination is not empty; if the destination is empty, it is the source.
pub parse_device-join :
    (src dst permissions : Text)
    → have_no 58 (src ∷ dst ∷ permissions ∷ []) ≡ true
    → parse_device (join 58 (src ∷ dst ∷ permissions ∷ []))
      ≡ some (record {
        path_on_host = src;
        path_in_container = if is_empty dst then src else dst;
        cgroup_permissions = permissions;
      })
unfolding parse_device
parse_device-join src dst permissions h = rw (split-join 58 src (dst ∷ permissions ∷ []) h) refl

-- Every device that the list of devices gives has a valid mode.
pub parsed_modes_are_valid :
    (devices : List Text) (ds : List DeviceMapping)
    → parse_device_mappings devices ≡ some ds
    → All (λ (d : DeviceMapping). validate_device_mode d.cgroup_permissions ≡ true) ds
unfolding parse_device_mappings
parsed_modes_are_valid [] [] h = tt
parsed_modes_are_valid [] (d ∷ ds) h = ground (arith, h)
parsed_modes_are_valid (device ∷ devices) ds h = elim (Option-cases (parse_device device)) [
  | inl e ↦ absurd (ground (arith, e, h))
  | inr (d, e) ↦ elim (Bool-cases (validate_device_mode d.cgroup_permissions)) [
    | inr b ↦ absurd (ground (arith, e, b, h))
    | inl b ↦ elim (Option-cases (parse_device_mappings devices)) [
      | inl r ↦ absurd (ground (arith, e, b, r, h))
      | inr (es, r) ↦
          let all : d ∷ es ≡ ds = ground (arith, e, b, r, h) in
          subst (All (λ (d : DeviceMapping). validate_device_mode d.cgroup_permissions ≡ true)) all
            (b, parsed_modes_are_valid devices es r)
    ]
  ]
]
