-- ===== src/Cri/Names.antt =====
-- cri/v1alpha2/cri_utils.go: the names of the containers of sandboxes and containers.
use pouch.Prelude.{
  ℕ, ◌<◌, ◌+◌, ◌≡◌, refl, ap, sym, ◌∙◌, inl, Option, none, some, List, [], ◌∷◌, Text, str, text_eq,
  split, split-join, join, have_no, contains_char, ◌++◌, Bool, not, ◌&&◌, true, ltb, arith,
  if◌then◌else◌,
}
use pouch.Prelude.Int.{two_32}
use pouch.Prelude.Decimal.{format_uint}
use pouch.Opts.Policy.{digits}
use pouch.Opts.Policy.Printed.{no_char-format_uint, digits-decimal, first-digit}

-- `PodSandboxMetadata`
pub record PodSandboxMetadata : Type 0 where
  pub name : Text
  pub namespace : Text
  pub uid : Text
  pub attempt : ℕ

-- `ContainerMetadata`
pub record ContainerMetadata : Type 0 where
  pub name : Text
  pub attempt : ℕ

abbrev below_two_32 : Option ℕ → Option ℕ
below_two_32 none = none
below_two_32 (some n) = if ltb n two_32 then some n else none

-- `parseUint32`, with `strconv.ParseUint`
unfoldable pub parse_uint32 : Text → Option ℕ
unfolding digits
parse_uint32 [] = none
parse_uint32 (c ∷ cs) = below_two_32 (digits 0 (c ∷ cs))

-- the texts of the fields, joined by nameDelimiter
unfoldable pub make_sandbox_name : PodSandboxMetadata → Text
unfolding join format_uint
make_sandbox_name m =
    join 95 (str "k8s" ∷ str "POD" ∷ m.name ∷ m.namespace ∷ m.uid ∷ format_uint m.attempt ∷ [])

abbrev with_sandbox_attempt : Text → Text → Text → Option ℕ → Option PodSandboxMetadata
with_sandbox_attempt name namespace uid none = none
with_sandbox_attempt name namespace uid (some n) =
    some (record { name = name; namespace = namespace; uid = uid; attempt = n })

abbrev sandbox_of : List Text → Option PodSandboxMetadata
sandbox_of (prefix ∷ kind ∷ name ∷ namespace ∷ uid ∷ attempt ∷ []) =
    if text_eq prefix (str "k8s")
    then with_sandbox_attempt name namespace uid (parse_uint32 attempt)
    else none
sandbox_of _ = none

unfoldable pub parse_sandbox_name : Text → Option PodSandboxMetadata
unfolding split parse_uint32 text_eq
parse_sandbox_name name = sandbox_of (split 95 name)

unfoldable pub make_container_name : PodSandboxMetadata → ContainerMetadata → Text
unfolding join format_uint
make_container_name s c =
    join 95 (str "k8s" ∷ c.name ∷ s.name ∷ s.namespace ∷ s.uid ∷ format_uint c.attempt ∷ [])

abbrev with_attempt : Text → Option ℕ → Option ContainerMetadata
with_attempt name none = none
with_attempt name (some n) = some (record { name = name; attempt = n })

abbrev container_of : List Text → Option ContainerMetadata
container_of (prefix ∷ name ∷ sandbox ∷ namespace ∷ uid ∷ attempt ∷ []) =
    if text_eq prefix (str "k8s") then with_attempt name (parse_uint32 attempt) else none
container_of _ = none

unfoldable pub parse_container_name : Text → Option ContainerMetadata
unfolding split parse_uint32 text_eq
parse_container_name name = container_of (split 95 name)

parse_uint32-digits :
    (c n : ℕ) (cs : Text) → digits 0 (c ∷ cs) ≡ some n → n < two_32 → parse_uint32 (c ∷ cs) ≡ some n
unfolding parse_uint32
parse_uint32-digits c n cs e h = rw e (ground (arith, h))

-- `parseUint32` reads what is printed of a uint32
pub parse_uint32-format_uint : (n : ℕ) → n < two_32 → parse_uint32 (format_uint n) ≡ some n
unfolding format_uint digits
parse_uint32-format_uint n h =
    let (d, cs, (e, b)) = first-digit 19 n [] in
    let read : digits 0 (format_uint n) ≡ some n = digits-decimal 19 n [] (omega arith) in
    ap parse_uint32 e ∙ parse_uint32-digits (48 + d) n cs (ap (digits 0) (sym e) ∙ read) h

no_delimiter-printed :
    (fs : List Text) (n : ℕ) → have_no 95 fs ≡ true → have_no 95 (fs ++ format_uint n ∷ []) ≡ true
no_delimiter-printed [] n h = rw (no_char-format_uint 95 n (inl (omega arith))) refl
no_delimiter-printed (f ∷ fs) n h =
    no_delimiter-more (contains_char 95 f) (have_no 95 fs) _ h (no_delimiter-printed fs n)
  where
    no_delimiter-more :
        (a b c : Bool) → (not a && b) ≡ true → (b ≡ true → c ≡ true) → (not a && c) ≡ true
    no_delimiter-more a b c h k = ground (arith, h, k)

pub parse_sandbox_name-make :
    (m : PodSandboxMetadata)
    → have_no 95 (m.name ∷ m.namespace ∷ m.uid ∷ []) ≡ true
    → m.attempt < two_32
    → parse_sandbox_name (make_sandbox_name m) ≡ some m
unfolding parse_sandbox_name make_sandbox_name contains_char
parse_sandbox_name-make m h b =
    let fields =
      split-join 95 (str "k8s")
        (str "POD" ∷ m.name ∷ m.namespace ∷ m.uid ∷ format_uint m.attempt ∷ [])
        (no_delimiter-printed (str "k8s" ∷ str "POD" ∷ m.name ∷ m.namespace ∷ m.uid ∷ []) m.attempt
          h) in
    rw fields (rw (parse_uint32-format_uint m.attempt b) refl)

pub parse_container_name-make :
    (s : PodSandboxMetadata) (c : ContainerMetadata)
    → have_no 95 (c.name ∷ s.name ∷ s.namespace ∷ s.uid ∷ []) ≡ true
    → c.attempt < two_32
    → parse_container_name (make_container_name s c) ≡ some c
unfolding parse_container_name make_container_name contains_char
parse_container_name-make s c h b =
    let fields =
      split-join 95 (str "k8s") (c.name ∷ s.name ∷ s.namespace ∷ s.uid ∷ format_uint c.attempt ∷ [])
        (no_delimiter-printed (str "k8s" ∷ c.name ∷ s.name ∷ s.namespace ∷ s.uid ∷ []) c.attempt
          h) in
    rw fields (rw (parse_uint32-format_uint c.attempt b) refl)
