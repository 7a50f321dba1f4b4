-- ===== src/Cri/Labels/RoundTrip.antt =====
-- What the labels that the CRI service makes are when it reads them again.
use pouch.Prelude.{
  ◌≡◌, refl, ap, ◌∙◌, Bool, Bool-cases, true, false, inl, inr, Option, none, some, [], ◌∷◌, ◌++◌,
  Text, str, text_eq, text_eq_iff, not, ◌&&◌, is_empty, Dict, lookup, insert, lookup-insert, arith,
  if◌then◌else◌,
}
use pouch.Cri.Labels.{
  annotation_prefix, type_key, sandbox_id_key, log_path_key, make_labels, is_internal,
  extract_labels, container_labels,
}
use pouch.Cri.Labels.Lookup.{
  or_else, lookup-annotations, is_no_label, lookup-labels, make_labels-label,
  make_labels-annotation,
}

differs : (k j : Text) → text_eq j k ≡ false → text_eq k j ≡ false
differs k j h = ground (arith, text_eq_iff k j, text_eq_iff j k, h)

-- what `CreateContainer` adds to the labels is internal, but for the path of the log
insert-internal :
    (j : Text) (m : Dict Text) (id : Text)
    → is_internal j ≡ false
    → lookup j (insert sandbox_id_key id (insert type_key (str "container") m)) ≡ lookup j m
insert-internal j m id h =
    let a = differs sandbox_id_key j (ground (arith, h)) in
    let b = differs type_key j (ground (arith, h)) in
    lookup-insert sandbox_id_key j id (insert type_key (str "container") m)
    ∙ rw a (lookup-insert type_key j (str "container") m ∙ rw b refl)

container_labels-other :
    (j : Text) (labels annotations : Dict Text) (id log : Text)
    → is_internal j ≡ false
    → lookup j (container_labels labels annotations id log) ≡ (
        if not (is_empty log) && text_eq log_path_key j
        then some log
        else lookup j (make_labels labels annotations))
unfolding container_labels
container_labels-other j labels annotations id [] h =
    insert-internal j (make_labels labels annotations) id h
container_labels-other j labels annotations id (x ∷ log) h =
    lookup-insert log_path_key j (x ∷ log) _
    ∙ ap (λ o. if text_eq log_path_key j then some (x ∷ log) else o)
        (insert-internal j (make_labels labels annotations) id h)

without : (b : Bool) (o p : Option Text) → (if not b && false then o else p) ≡ p
without true o p = refl
without false o p = refl

-- What `extractLabels` reads from the labels that `CreateContainer` gives to a container: as label j, the
-- label j of the request, and as annotation j, the annotation j of the request; but no label whose key
-- begins with "annotation.", which is an annotation under the rest of that key unless the request has
-- that annotation; no label with one of the two keys that the service keeps for itself; and, if the request
-- names a log, the path of the log as the label of the log path.
pub extract_labels-container_labels :
    (j sandbox_id log : Text) (labels annotations : Dict Text)
    → (lookup j (extract_labels (container_labels labels annotations sandbox_id log)).0 ≡ (
        if is_no_label j
        then none
        else if not (is_empty log) && text_eq log_path_key j
        then some log
        else lookup j labels))
      × (lookup j (extract_labels (container_labels labels annotations sandbox_id log)).1
          ≡ or_else (lookup j annotations) (lookup (annotation_prefix ++ j) labels))
unfolding text_eq
extract_labels-container_labels j id log labels annotations = (as_label, as_annotation)
  where
    as_label : lookup j (extract_labels (container_labels labels annotations id log)).0 ≡ (
        if is_no_label j
        then none
        else if not (is_empty log) && text_eq log_path_key j
        then some log
        else lookup j labels)
    as_label =
        lookup-labels j (container_labels labels annotations id log)
        ∙ elim (Bool-cases (is_no_label j)) [
          | inl b ↦ rw b refl
          | inr b ↦ rw b (
              container_labels-other j labels annotations id log (ground (arith, b))
              ∙ ap (λ o. if not (is_empty log) && text_eq log_path_key j then some log else o)
                  (make_labels-label j labels annotations b))
        ]

    as_annotation :
        lookup j (extract_labels (container_labels labels annotations id log)).1
        ≡ or_else (lookup j annotations) (lookup (annotation_prefix ++ j) labels)
    as_annotation =
        lookup-annotations j (container_labels labels annotations id log)
        ∙ container_labels-other (annotation_prefix ++ j) labels annotations id log refl
        ∙ without (is_empty log) _ _
        ∙ make_labels-annotation j labels annotations
