-- ===== src/Cri/Lists/Listed.antt =====
-- A container that the CRI service has created is in its lists.
use pouch.Prelude.{
  ◌<◌, ◌≡◌, refl, ap, ◌∙◌, Bool, true, false, ◌&&◌, ◌||◌, Option, none, some, List, [], ◌∷◌, Text,
  str, text_eq, text_eq_refl, is_empty, ◌++◌, have_no, Dict, lookup, insert, lookup-insert,
  if◌then◌else◌,
}
use pouch.Prelude.Int.{ℤ, two_32}
use pouch.Cri.Names.{
  PodSandboxMetadata, ContainerMetadata, make_container_name, parse_container_name,
  parse_container_name-make,
}
use pouch.Cri.Labels.{
  type_key, sandbox_id_key, log_path_key, make_labels, container_labels, extract_labels,
}
use pouch.Cri.Convert.{
  Stored, CriContainer, text_at, to_cri_timestamp, to_cri_container_state, to_cri_container,
}
use pouch.Cri.Lists.{
  ContainerFilter, container_matches, kept, filter_cri_containers, with_view, cri_containers,
  list_containers, labels_match,
}

-- the request for the containers of a sandbox
abbrev pub of_sandbox : Text → ContainerFilter
of_sandbox id = record { id = []; pod_sandbox_id = id; state = none; label_selector = [] }

of_sandbox-matches :
    (id : Text) (c : CriContainer)
    → c.pod_sandbox_id ≡ id
    → container_matches (of_sandbox id) c ≡ true
unfolding container_matches labels_match
of_sandbox-matches id c h = rw (h, text_eq_refl id) (always (is_empty id))
  where
    always : (b : Bool) → ((b || true) && true && true) ≡ true
    always true = refl
    always false = refl

kept-append :
    (b : Bool) (c : CriContainer) (r x : List CriContainer) → kept b c (r ++ x) ≡ kept b c r ++ x
kept-append true c r x = refl
kept-append false c r x = refl

filter-append :
    (f : ContainerFilter) (c : CriContainer) (before after : List CriContainer)
    → container_matches f c ≡ true
    → filter_cri_containers (some f) (before ++ c ∷ after)
      ≡ filter_cri_containers (some f) before ++ c ∷ filter_cri_containers (some f) after
unfolding filter_cri_containers
filter-append f c [] after h = rw h refl
filter-append f c (d ∷ before) after h =
    ap (kept (container_matches f d) d) (filter-append f c before after h)
    ∙ kept-append (container_matches f d) d (filter_cri_containers (some f) before) _

container_labels-type :
    (labels annotations : Dict Text) (id log : Text)
    → lookup type_key (container_labels labels annotations id log) ≡ some (str "container")
unfolding container_labels text_eq
container_labels-type labels annotations id [] =
    lookup-insert sandbox_id_key type_key id
      (insert type_key (str "container") (make_labels labels annotations))
    ∙ lookup-insert type_key type_key (str "container") (make_labels labels annotations)
container_labels-type labels annotations id (x ∷ log) =
    lookup-insert log_path_key type_key (x ∷ log) (
      insert sandbox_id_key id (insert type_key (str "container") (make_labels labels annotations)))
    ∙ lookup-insert sandbox_id_key type_key id
        (insert type_key (str "container") (make_labels labels annotations))
    ∙ lookup-insert type_key type_key (str "container") (make_labels labels annotations)

container_labels-sandbox :
    (labels annotations : Dict Text) (id log : Text)
    → lookup sandbox_id_key (container_labels labels annotations id log) ≡ some id
unfolding container_labels text_eq
container_labels-sandbox labels annotations id [] =
    lookup-insert sandbox_id_key sandbox_id_key id
      (insert type_key (str "container") (make_labels labels annotations))
container_labels-sandbox labels annotations id (x ∷ log) =
    lookup-insert log_path_key sandbox_id_key (x ∷ log) (
      insert sandbox_id_key id (insert type_key (str "container") (make_labels labels annotations)))
    ∙ lookup-insert sandbox_id_key sandbox_id_key id
        (insert type_key (str "container") (make_labels labels annotations))

view-append :
    (b : Bool) (o : Option CriContainer) (r x : List CriContainer)
    → (if b then with_view o (r ++ x) else r ++ x) ≡ (if b then with_view o r else r) ++ x
view-append true none r x = refl
view-append true (some c) r x = refl
view-append false o r x = refl

module _ (parse_time : Text → Option ℤ) where
  views-append :
      (c : Stored) (v : CriContainer) (before after : List Stored)
      → text_at type_key c.labels ≡ str "container"
      → to_cri_container parse_time c ≡ some v
      → cri_containers parse_time (before ++ c ∷ after)
        ≡ cri_containers parse_time before ++ v ∷ cri_containers parse_time after
  unfolding cri_containers
  views-append c v [] after t h =
      rw (t, h)
        (ap
          (λ b. if b then v ∷ cri_containers parse_time after else cri_containers parse_time after)
          (text_eq_refl (str "container")))
  views-append c v (d ∷ before) after t h =
      ap
        (λ r.
          if text_eq (text_at type_key d.labels) (str "container")
          then with_view (to_cri_container parse_time d) r
          else r)
        (views-append c v before after t h)
      ∙ view-append (text_eq (text_at type_key d.labels) (str "container"))
          (to_cri_container parse_time d) (cri_containers parse_time before) _

  -- the container that `CreateContainer` makes, as the kubelet sees it
  abbrev pub created_view : Stored → Text → ContainerMetadata → ℤ → CriContainer
  created_view c id m time = record {
    id = c.id;
    pod_sandbox_id = id;
    metadata = m;
    image = c.config_image;
    image_ref = c.image;
    state = (to_cri_container_state c.state).0;
    created_at = time;
    labels = (extract_labels c.labels).0;
    annotations = (extract_labels c.labels).1;
  }

  created-view :
      (c : Stored) (m : ContainerMetadata) (id : Text) (time : ℤ)
      → parse_container_name c.name ≡ some m
      → lookup sandbox_id_key c.labels ≡ some id
      → to_cri_timestamp parse_time c.created_at ≡ some time
      → to_cri_container parse_time c ≡ some (created_view c id m time)
  unfolding to_cri_container
  created-view c m id time n l t =
      rw (n, t)
        (ap (λ i. some (created_view c i m time)) (ap (λ o. elim o [ none ↦ [] | some v ↦ v ]) l))

  -- A container whose name and labels are those that `CreateContainer` makes for a sandbox is in the list of
  -- the containers of that sandbox, wherever it stands in the list of the manager: in its place,
  -- between what is listed of the others, with the metadata of the request, with what `extractLabels`
  -- reads from its labels, and with the ID of the sandbox. The names have no underscore, the attempt is a
  -- uint32, and the time of creation can be read.
  pub list_containers-created :
      (before after : List Stored) (c : Stored) (s : PodSandboxMetadata) (m : ContainerMetadata)
      (labels annotations : Dict Text) (id log : Text) (time : ℤ)
      → c.name ≡ make_container_name s m
      → have_no 95 (m.name ∷ s.name ∷ s.namespace ∷ s.uid ∷ []) ≡ true
      → m.attempt < two_32
      → c.labels ≡ container_labels labels annotations id log
      → to_cri_timestamp parse_time c.created_at ≡ some time
      → list_containers parse_time (before ++ c ∷ after) (some (of_sandbox id))
        ≡ list_containers parse_time before (some (of_sandbox id))
          ++ created_view c id m time ∷ list_containers parse_time after (some (of_sandbox id))
  unfolding list_containers
  list_containers-created before after c s m labels annotations id log time n h b l t =
      let view =
        created-view c m id time (ap parse_container_name n ∙ parse_container_name-make s m h b)
          (ap (lookup sandbox_id_key) l ∙ container_labels-sandbox labels annotations id log) t in
      let type : text_at type_key c.labels ≡ str "container" =
        ap (λ o. elim o [ none ↦ [] | some v ↦ v ])
          (ap (lookup type_key) l ∙ container_labels-type labels annotations id log) in
      ap (filter_cri_containers (some (of_sandbox id)))
        (views-append c (created_view c id m time) before after type view)
      ∙ filter-append (of_sandbox id) (created_view c id m time) (cri_containers parse_time before)
          (cri_containers parse_time after) (of_sandbox-matches id (created_view c id m time) refl)
