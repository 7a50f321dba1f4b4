-- ===== src/Opts/Bind.antt =====
-- apis/opts/mountpoint.go: the mode of a bind, the path of a bind, and the containers whose volumes are
-- taken over.
pub mod Mode
use pouch.Prelude.{
  ℕ, suc, Bool, true, false, ◌||◌, Option, none, some, List, [], ◌∷◌, map, Text, str, text_eq,
  split, is_empty, ltb, if◌then◌else◌,
}

-- `CheckBind`; no part of a path is read but its first character
abbrev is_absolute : Text → Bool
is_absolute [] = false
is_absolute (c ∷ _) = text_eq (c ∷ []) (str "/")

abbrev pub checked : List Text → Option (List Text)
checked [] = none
checked (a ∷ []) = if is_absolute a then some (a ∷ []) else none
checked (a ∷ b ∷ []) = if is_absolute b then some (a ∷ b ∷ []) else none
checked (a ∷ b ∷ c ∷ []) = if is_absolute b then some (a ∷ b ∷ c ∷ []) else none
checked (_ ∷ _ ∷ _ ∷ _ ∷ _) = none

unfoldable pub check_bind : Text → Option (List Text)
unfolding split text_eq
check_bind b = checked (split 58 b)

abbrev pub id_and_mode : List Text → Option (Text × Text)
id_and_mode [] = none
id_and_mode (id ∷ []) = if is_empty id then none else some (id, [])
id_and_mode (id ∷ mode ∷ _) = if is_empty id then none else some (id, mode)

-- `ParseVolumesFrom`: the container's ID and the mode
unfoldable pub parse_volumes_from : Text → Option (Text × Text)
unfolding split
parse_volumes_from volume = if is_empty volume then none else id_and_mode (split 58 volume)

-- the fields of `types.MountPoint` that the mode sets
pub record MountPoint : Type 0 where
  pub rw : Bool
  pub copy_data : Bool
  pub replace : Text
  pub propagation : Text
  pub mode : Text

-- the cases of the switch
pub data Word : Type 0 where
  default_word ro_word rw_word label_word nocopy_word unknown_word : Word
  replace_word propagation_word : Text → Word

abbrev is_any : Text → List Text → Bool
is_any m [] = false
is_any m (w ∷ ws) = text_eq m w || is_any m ws

unfoldable pub word_of : Text → Word
unfolding text_eq
word_of m =
    if is_empty m
    then default_word
    else if text_eq m (str "ro")
    then ro_word
    else if text_eq m (str "rw")
    then rw_word
    else if is_any m (str "dr" ∷ str "rr" ∷ [])
    then replace_word m
    else if is_any m (str "z" ∷ str "Z" ∷ [])
    then label_word
    else if text_eq m (str "nocopy")
    then nocopy_word
    else if is_any m (
        str "private"
        ∷ str "rprivate"
        ∷ str "slave"
        ∷ str "rslave"
        ∷ str "shared"
        ∷ str "rshared"
        ∷ [])
    then propagation_word m
    else unknown_word

pub record Counts : Type 0 where
  pub default_mode : ℕ
  pub rw_mode : ℕ
  pub label_mode : ℕ
  pub replace_mode : ℕ
  pub copy_mode : ℕ
  pub propagation_mode : ℕ

-- the loop of `ParseBindMode`
unfoldable pub read_words : List Word → MountPoint × Counts → Option (MountPoint × Counts)
read_words [] (mp, n) = some (mp, n)
read_words (default_word ∷ ws) (mp, n) =
    read_words ws (mp, record n { default_mode = suc n.default_mode })
read_words (ro_word ∷ ws) (mp, n) =
    read_words ws (record mp { rw = false }, record n { rw_mode = suc n.rw_mode })
read_words (rw_word ∷ ws) (mp, n) =
    read_words ws (record mp { rw = true }, record n { rw_mode = suc n.rw_mode })
read_words (replace_word m ∷ ws) (mp, n) =
    read_words ws (record mp { replace = m }, record n { replace_mode = suc n.replace_mode })
read_words (label_word ∷ ws) (mp, n) =
    read_words ws (mp, record n { label_mode = suc n.label_mode })
read_words (nocopy_word ∷ ws) (mp, n) =
    read_words ws (record mp { copy_data = false }, record n { copy_mode = suc n.copy_mode })
read_words (propagation_word m ∷ ws) (mp, n) =
    read_words ws
      (record mp { propagation = m }, record n { propagation_mode = suc n.propagation_mode })
read_words (unknown_word ∷ ws) (mp, n) = none

-- the test behind the loop
abbrev pub is_repeated : Counts → Bool
is_repeated n =
    ltb 1 n.default_mode
    || ltb 1 n.rw_mode
    || ltb 1 n.replace_mode
    || ltb 1 n.copy_mode
    || ltb 1 n.propagation_mode

abbrev pub finish : Text → Option (MountPoint × Counts) → Option MountPoint
finish mode none = none
finish mode (some (mp, n)) =
    if is_repeated n then none else some (if is_empty mode then mp else record mp { mode = mode })

abbrev pub no_counts : Counts
no_counts = record {
  default_mode = 0;
  rw_mode = 0;
  label_mode = 0;
  replace_mode = 0;
  copy_mode = 0;
  propagation_mode = 0;
}

-- `ParseBindMode`; `none` is its error
unfoldable pub parse_bind_mode : MountPoint → Text → Option MountPoint
unfolding split
parse_bind_mode mp mode = finish mode (
    read_words (map word_of (split 44 mode)) (record mp { rw = true; copy_data = true }, no_counts))
