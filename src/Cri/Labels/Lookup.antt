-- ===== src/Cri/Labels/Lookup.antt =====
-- What labels and annotations are found in the maps that makeLabels and extractLabels of
-- cri/v1alpha2/cri_utils.go make.
use pouch.Prelude.{
  ◌≡◌, refl, ap, sym, ◌∙◌, Bool, Bool-cases, true, false, ◌||◌, inl, inr, Option, none, some, [],
  ◌∷◌, ◌++◌, Text, text_eq, eq_of_text_eq, has_prefix, Dict, lookup, lookup-insert, arith,
  if◌then◌else◌,
}
use pouch.Cri.Labels.{
  annotation_prefix, type_key, sandbox_id_key, sorted_out, copy_labels, copy_annotations,
  make_labels, is_internal, trim_prefix, extract_labels,
}

abbrev pub or_else : Option Text → Option Text → Option Text
or_else (some v) o = some v
or_else none o = o

has_prefix-append : (p t : Text) → has_prefix p (p ++ t) ≡ true
unfolding has_prefix
has_prefix-append [] t = refl
has_prefix-append (x ∷ p) t = ground (arith, has_prefix-append p t)

trim_prefix-append : (p t : Text) → trim_prefix p (p ++ t) ≡ t
unfolding trim_prefix
trim_prefix-append [] t = refl
trim_prefix-append (x ∷ p) t = trim_prefix-append p t

append-trim_prefix : (p t : Text) → has_prefix p t ≡ true → p ++ trim_prefix p t ≡ t
unfolding trim_prefix has_prefix
append-trim_prefix [] t h = refl
append-trim_prefix (x ∷ p) [] h = absurd (ground (arith, h))
append-trim_prefix (x ∷ p) (y ∷ t) h = ground (arith, h, append-trim_prefix p t)

text_eq-append : (p s t : Text) → text_eq (p ++ s) (p ++ t) ≡ text_eq s t
unfolding text_eq
text_eq-append [] s t = refl
text_eq-append (x ∷ p) s t = ground (arith, text_eq-append p s t)

first_of :
    (b : Bool) (v : Text) (o p q : Option Text)
    → q ≡ or_else o p
    → (if b then some v else q) ≡ or_else (if b then some v else o) p
first_of true v o p q h = refl
first_of false v o p q h = h

or_else-none : (o : Option Text) → or_else o none ≡ o
or_else-none none = refl
or_else-none (some v) = refl

lookup-copy_labels :
    (j : Text) (ls m : Dict Text) → lookup j (copy_labels ls m) ≡ or_else (lookup j ls) (lookup j m)
unfolding copy_labels lookup
lookup-copy_labels j [] m = refl
lookup-copy_labels j ((k, v) ∷ ls) m =
    lookup-insert k j v (copy_labels ls m)
    ∙ first_of (text_eq k j) v (lookup j ls) (lookup j m) _ (lookup-copy_labels j ls m)

lookup-copy_annotations :
    (j : Text) (ans m : Dict Text)
    → lookup (annotation_prefix ++ j) (copy_annotations ans m)
      ≡ or_else (lookup j ans) (lookup (annotation_prefix ++ j) m)
unfolding copy_annotations lookup
lookup-copy_annotations j [] m = refl
lookup-copy_annotations j ((k, v) ∷ ans) m =
    lookup-insert (annotation_prefix ++ k) (annotation_prefix ++ j) v (copy_annotations ans m)
    ∙ ap (λ b. if b then some v else lookup (annotation_prefix ++ j) (copy_annotations ans m))
        (text_eq-append annotation_prefix k j)
    ∙ first_of (text_eq k j) v (lookup j ans) (lookup (annotation_prefix ++ j) m) _
        (lookup-copy_annotations j ans m)

-- a text in front of which the prefix stands is not another one
not_annotation :
    (k j : Text)
    → has_prefix annotation_prefix k ≡ false
    → text_eq k (annotation_prefix ++ j) ≡ false
not_annotation k j h = elim (Bool-cases (text_eq k (annotation_prefix ++ j))) [
  | inr b ↦ b
  | inl b ↦
      let e = eq_of_text_eq k (annotation_prefix ++ j) b in
      absurd (
        ground
          (arith, h, ap (has_prefix annotation_prefix) e, has_prefix-append annotation_prefix j))
]

internal_has_no_prefix : (k : Text) → is_internal k ≡ true → has_prefix annotation_prefix k ≡ false
unfolding has_prefix
internal_has_no_prefix k h = elim (Bool-cases (text_eq k type_key)) [
  | inl b ↦ rw (eq_of_text_eq k type_key b) refl
  | inr b ↦ rw (eq_of_text_eq k sandbox_id_key (ground (arith, b, h))) refl
]

sorted_out-annotations :
    (j k v : Text) (r : Dict Text × Dict Text)
    → lookup j (sorted_out k v r).1
      ≡ (if text_eq k (annotation_prefix ++ j) then some v else lookup j r.1)
sorted_out-annotations j k v (ls, ans) = elim (Bool-cases (is_internal k)) [
  | inl b ↦ rw (b, not_annotation k j (internal_has_no_prefix k b)) refl
  | inr b ↦ elim (Bool-cases (has_prefix annotation_prefix k)) [
    | inr c ↦ rw (b, c, not_annotation k j c) refl
    | inl c ↦
        let same =
          ap (λ t. text_eq t (annotation_prefix ++ j))
            (sym (append-trim_prefix annotation_prefix k c))
          ∙ text_eq-append annotation_prefix (trim_prefix annotation_prefix k) j in
        rw (b, c, same) (lookup-insert (trim_prefix annotation_prefix k) j v ans)
  ]
]

-- what is read as an annotation
pub lookup-annotations :
    (j : Text) (m : Dict Text) → lookup j (extract_labels m).1 ≡ lookup (annotation_prefix ++ j) m
unfolding extract_labels lookup
lookup-annotations j [] = refl
lookup-annotations j ((k, v) ∷ m) =
    sorted_out-annotations j k v (extract_labels m)
    ∙ ap (λ o. if text_eq k (annotation_prefix ++ j) then some v else o) (lookup-annotations j m)

abbrev pub is_no_label : Text → Bool
is_no_label j = is_internal j || has_prefix annotation_prefix j

sorted_out-labels :
    (j k v : Text) (r : Dict Text × Dict Text)
    → lookup j (sorted_out k v r).0
      ≡ (if is_no_label k then lookup j r.0 else if text_eq k j then some v else lookup j r.0)
sorted_out-labels j k v (ls, ans) = elim (Bool-cases (is_internal k)) [
  | inl b ↦ rw b refl
  | inr b ↦ elim (Bool-cases (has_prefix annotation_prefix k)) [
    | inr c ↦ rw (b, c) (lookup-insert k j v ls)
    | inl c ↦ rw (b, c) refl
  ]
]

-- what is read as a label
pub lookup-labels :
    (j : Text) (m : Dict Text)
    → lookup j (extract_labels m).0 ≡ (if is_no_label j then none else lookup j m)
unfolding extract_labels lookup
lookup-labels j [] = elim (Bool-cases (is_no_label j)) [ inl b ↦ rw b refl | inr b ↦ rw b refl ]
lookup-labels j ((k, v) ∷ m) =
    sorted_out-labels j k v (extract_labels m)
    ∙ chosen (is_no_label k) (text_eq k j) (is_no_label j) v (lookup j (extract_labels m).0)
        (lookup j m) (λ e. ap is_no_label (eq_of_text_eq k j e)) (lookup-labels j m)
  where
    chosen :
        (s e t : Bool) (v : Text) (l o : Option Text)
        → (e ≡ true → s ≡ t)
        → l ≡ (if t then none else o)
        → (if s then l else if e then some v else l) ≡ (if t then none else if e then some v else o)
    chosen true true true v l o h i = i
    chosen true true false v l o h i = absurd (ground (arith, h refl))
    chosen true false true v l o h i = i
    chosen true false false v l o h i = i
    chosen false true true v l o h i = absurd (ground (arith, h refl))
    chosen false true false v l o h i = refl
    chosen false false t v l o h i = i

lookup-copy_annotations-other :
    (j : Text) (ans m : Dict Text)
    → has_prefix annotation_prefix j ≡ false
    → lookup j (copy_annotations ans m) ≡ lookup j m
unfolding copy_annotations
lookup-copy_annotations-other j [] m h = refl
lookup-copy_annotations-other j ((k, v) ∷ ans) m h =
    lookup-insert (annotation_prefix ++ k) j v (copy_annotations ans m)
    ∙ ap (λ b. if b then some v else lookup j (copy_annotations ans m)) differ
    ∙ lookup-copy_annotations-other j ans m h
  where
    differ : text_eq (annotation_prefix ++ k) j ≡ false
    differ = elim (Bool-cases (text_eq (annotation_prefix ++ k) j)) [
      | inr b ↦ b
      | inl b ↦
          let e = eq_of_text_eq (annotation_prefix ++ k) j b in
          absurd (
            ground (
              arith,
              h,
              ap (has_prefix annotation_prefix) e,
              has_prefix-append annotation_prefix k,
            ))
    ]

-- a label that is not internal and no annotation
pub make_labels-label :
    (j : Text) (labels annotations : Dict Text)
    → is_no_label j ≡ false
    → lookup j (make_labels labels annotations) ≡ lookup j labels
unfolding make_labels lookup
make_labels-label j labels annotations h =
    lookup-copy_annotations-other j annotations (copy_labels labels []) (ground (arith, h))
    ∙ lookup-copy_labels j labels []
    ∙ or_else-none (lookup j labels)

pub make_labels-annotation :
    (j : Text) (labels annotations : Dict Text)
    → lookup (annotation_prefix ++ j) (make_labels labels annotations)
      ≡ or_else (lookup j annotations) (lookup (annotation_prefix ++ j) labels)
unfolding make_labels lookup
make_labels-annotation j labels annotations =
    lookup-copy_annotations j annotations (copy_labels labels [])
    ∙ ap (or_else (lookup j annotations)) (
        lookup-copy_labels (annotation_prefix ++ j) labels []
        ∙ or_else-none (lookup (annotation_prefix ++ j) labels))
