-- ===== src/Quota/Mounts/Overlay.antt =====
-- How `getOverlayMountInfo` of storage/quota reads a line that the kernel writes for an overlay.
use pouch.Prelude.{
  ◌≡◌, refl, ap, ◌∙◌, true, false, [], ◌∷◌, ◌++◌, Text, str, text_eq, text_eq_refl, split,
  split-append, split-join, split-field, join, contains_char, contains_text, have_no, has_prefix,
  arith,
}
use pouch.Quota.Mounts.{MountLine, OverlayMount, value_of, read_param, read_params, read_overlays}

abbrev pub lower_param : Text → Text
lower_param l = str "lowerdir" ++ 61 ∷ l

abbrev pub upper_param : Text → Text
upper_param u = str "upperdir" ++ 61 ∷ u

abbrev pub work_param : Text → Text
work_param w = str "workdir" ++ 61 ∷ w

-- the line of an overlay that is mounted at `basefs`
abbrev pub overlay_line : Text → Text → Text → Text → MountLine
overlay_line basefs l u w = record {
  point = basefs;
  fs_type = str "overlay";
  params = join 44 (str "rw" ∷ lower_param l ∷ upper_param u ∷ work_param w ∷ []);
}

-- no parameter reads as one of a directory that the switch tests first
abbrev pub AreDistinct : Text → Text → Type 0
AreDistinct u w =
    (contains_text (str "lowerdir") (upper_param u) ≡ false)
    × (contains_text (str "lowerdir") (work_param w) ≡ false)
    × (contains_text (str "upperdir") (work_param w) ≡ false)

split-param :
    (name v : Text)
    → contains_char 61 name ≡ false
    → contains_char 61 v ≡ false
    → split 61 (name ++ 61 ∷ v) ≡ name ∷ v ∷ []
split-param name v n h = split-append 61 name v n ∙ ap (λ t. name ∷ t) (split-field 61 v h)

read_param-lower :
    (l : Text) (o : OverlayMount)
    → contains_char 61 l ≡ false
    → read_param (lower_param l) o ≡ record o { lower = l }
unfolding read_param contains_text has_prefix contains_char
read_param-lower l o h =
    ap (λ s. record o { lower = value_of s o.lower }) (split-param (str "lowerdir") l refl h)

read_param-upper :
    (u : Text) (o : OverlayMount)
    → contains_char 61 u ≡ false
    → contains_text (str "lowerdir") (upper_param u) ≡ false
    → read_param (upper_param u) o ≡ record o { upper = u }
unfolding read_param contains_char
read_param-upper u o h a =
    rw a (ap (λ s. record o { upper = value_of s o.upper }) (split-param (str "upperdir") u refl h))

read_param-work :
    (w : Text) (o : OverlayMount)
    → contains_char 61 w ≡ false
    → contains_text (str "lowerdir") (work_param w) ≡ false
    → contains_text (str "upperdir") (work_param w) ≡ false
    → read_param (work_param w) o ≡ record o { work = w }
unfolding read_param contains_char
read_param-work w o h a b =
    rw (a, b)
      (ap (λ s. record o { work = value_of s o.work }) (split-param (str "workdir") w refl h))

read_params-dirs :
    (l u w : Text) (o : OverlayMount)
    → have_no 61 (l ∷ u ∷ w ∷ []) ≡ true
    → AreDistinct u w
    → read_params (str "rw" ∷ lower_param l ∷ upper_param u ∷ work_param w ∷ []) o
      ≡ record { lower = l; upper = u; work = w }
unfolding read_params
read_params-dirs l u w o h (a, b, c) =
    ap (λ t. read_param (work_param w) (read_param (upper_param u) t))
      (read_param-lower l o (ground (arith, h)))
    ∙ ap (read_param (work_param w))
        (read_param-upper u (record o { lower = l }) (ground (arith, h)) a)
    ∙ read_param-work w (record o { lower = l; upper = u }) (ground (arith, h)) b c

-- Of directories whose names have no comma and no equals sign, and of which the upper one has no
-- "lowerdir" and the work one no "lowerdir" or "upperdir" in its parameter, `getOverlayMountInfo` finds
-- the three in the line that the kernel writes for the overlay, whatever lines were read before.
pub read_overlays-line :
    (basefs l u w : Text) (o : OverlayMount)
    → have_no 61 (l ∷ u ∷ w ∷ []) ≡ true
    → have_no 44 (lower_param l ∷ upper_param u ∷ work_param w ∷ []) ≡ true
    → AreDistinct u w
    → read_overlays basefs (overlay_line basefs l u w ∷ []) o
      ≡ record { lower = l; upper = u; work = w }
unfolding read_overlays text_eq contains_char
read_overlays-line basefs l u w o h k d =
    rw
      (
        text_eq_refl basefs,
        split-join 44 (str "rw") (lower_param l ∷ upper_param u ∷ work_param w ∷ []) k,
        read_params-dirs l u w o h d,
      )
      refl
