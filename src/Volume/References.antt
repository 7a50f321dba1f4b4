-- ===== src/Volume/References.antt =====
-- How `Attach` and `Detach` of daemon/mgr/volume.go keep the references of a volume.
pub mod Lists
pub mod Lost
use pouch.Prelude.{
  ◌≡◌, refl, ap, ◌∙◌, Bool-cases, inl, inr, true, false, some, [], ◌∷◌, Text, str, text_eq, Dict,
  lookup, insert, lookup-insert, is_empty, contains_text, contains_char, split, join,
}
use pouch.Prelude.Task.{continue, done, ◌>>=◌}
use pouch.Volume.{Volume, option, or_empty, Driver, Host, Service}
use pouch.Volume.Core.{with_extra, merge_extra, attach_volume}
use pouch.Volume.Manager.{
  string_slice_delete, attach_options, detach_options, log_volume_event, get_by_name, attach_begin,
  attach, log_and_detach, detach_found, detach,
}
use pouch.Volume.References.Lists.{
  attached_ref, attached_ref-contains, attached_ref-full, attached_ref-deleted,
}
use pouch.Volume.Ready.{
  Answers, IsPlain, Ready, get_volume-Ready, with_volume, attach_volume-Ready, detach_volume-Ready,
  with_volume-Ready, detach_world,
}

-- the volume with other references
abbrev pub with_ref : Text → Volume → Volume
with_ref ref v = record v { extra = insert (str "ref") ref v.extra }

-- the option that the container manager passes
abbrev pub ref_of : Text → Dict Text
ref_of cid = (str "ref", cid) ∷ []

pub option-with_ref : (ref : Text) (v : Volume) → option (str "ref") (with_ref ref v) ≡ ref
unfolding option text_eq
option-with_ref ref v = ap or_empty (lookup-insert (str "ref") (str "ref") ref v.extra)

pub with_extra-attach_options :
    (ref cid : Text) (v : Volume)
    → with_extra (attach_options ref cid (ref_of cid)) v ≡ with_ref (attached_ref ref cid) v
unfolding attach_options merge_extra insert text_eq
with_extra-attach_options ref cid v = elim (Bool-cases (is_empty ref)) [
  | inl b ↦ rw b refl
  | inr b ↦ elim (Bool-cases (contains_text cid ref)) [
    | inl c ↦ rw (b, c) refl
    | inr c ↦ rw (b, c) refl
  ]
]

abbrev pub logged : {W : Type 0} → Text → Text → Service W → Service W
logged name event s = record s { events = (name, event) ∷ s.events }

module _ {W : Type 0} (host : Host W) (a : Answers host) (d : Driver W) (p : IsPlain d) where
  pub get_by_name-Ready :
      (name : Text) (v : Volume) (s : Service W)
      → Ready name v d s
      → get_by_name host name s ≡ (done v, s)
  unfolding get_by_name ◌>>=◌
  get_by_name-Ready name v s r = rw (get_volume-Ready host a d p name v s r) refl

  pub attach_begin-Ready :
      (name cid : Text) (v : Volume) (s : Service W)
      → is_empty cid ≡ false
      → Ready name v d s
      → attach_begin host name (ref_of cid) s ≡ (
        done (attach_options (option (str "ref") v) cid (ref_of cid)),
        logged name (str "attach") s,
      )
  unfolding attach_begin log_volume_event ◌>>=◌ lookup text_eq
  attach_begin-Ready name cid v s n r = rw (get_by_name-Ready name v s r, n) refl

  pub attach-Ready :
      (name cid : Text) (v : Volume) (s : Service W)
      → is_empty cid ≡ false
      → Ready name v d s
      → let u = with_ref (attached_ref (option (str "ref") v) cid) v in
        attach host name (ref_of cid) s
        ≡ (done u, with_volume host a d p u (p.attach u s.world) (logged name (str "attach") s))
  unfolding attach ◌>>=◌
  attach-Ready name cid v s n r =
      ap (λ q. continue q (attach_volume host name)) (attach_begin-Ready name cid v s n r)
      ∙ attach_volume-Ready host a d p name v
          (attach_options (option (str "ref") v) cid (ref_of cid)) (logged name (str "attach") s)
          (record { stored = r.stored; own_name = r.own_name; driver = r.driver })
      ∙ ap
          (λ u.
            (done u, with_volume host a d p u (p.attach u s.world) (logged name (str "attach") s)))
          (with_extra-attach_options (option (str "ref") v) cid v)

  -- the volume that a container lets go of
  detach_found-Ready :
      (name cid : Text) (v : Volume) (s : Service W)
      → is_empty cid ≡ false
      → is_empty (option (str "ref") v) ≡ false
      → contains_text cid (option (str "ref") v) ≡ true
      → Ready name v d s
      → let u = with_ref (join 44 (string_slice_delete (split 44 (option (str "ref") v)) cid)) v in
        detach host name (ref_of cid) s ≡ (
          done u,
          with_volume host a d p u
              (detach_world host a d p u s.world)
              (logged name (str "detach") s),
        )
  unfolding detach detach_found log_and_detach log_volume_event ◌>>=◌ lookup text_eq detach_options
      merge_extra insert
  detach_found-Ready name cid v s n m c r =
      ap (λ q. continue q (detach_found host name (ref_of cid))) (get_by_name-Ready name v s r)
      ∙ rw (n, c, m)
          (detach_volume-Ready host a d p name v _ (logged name (str "detach") s)
            (record { stored = r.stored; own_name = r.own_name; driver = r.driver }))

  pub attached-Ready :
      (name : Text) (u v : Volume) (s : Service W)
      → u.name ≡ v.name
      → u.backend ≡ v.backend
      → Ready name v d s
      → Ready name u d
          (with_volume host a d p u (p.attach u s.world) (logged name (str "attach") s))
  attached-Ready name u v s n b r =
      with_volume-Ready host a d p name v u (p.attach u s.world) (logged name (str "attach") s)
        (record { stored = r.stored; own_name = r.own_name; driver = r.driver }) n b

  -- With a store that answers and a driver that is no Getter and attaches and detaches volumes as they
  -- are: a container whose ID has no comma and is not in the references of a volume of the store, and that
  -- is attached to it and detached again, leaves the references of the volume in the store as they were.
  pub attach-detach :
      (name cid : Text) (v : Volume) (s : Service W)
      → is_empty cid ≡ false
      → contains_char 44 cid ≡ false
      → contains_text cid (option (str "ref") v) ≡ false
      → Ready name v d s
      → (u : Volume) × ((lookup name
              (detach host name (ref_of cid) (attach host name (ref_of cid) s).1).1.store
            ≡ some u)
          × (option (str "ref") u ≡ option (str "ref") v))
  attach-detach name cid v s n m c r =
      let ref = option (str "ref") v in
      let u1 = with_ref (attached_ref ref cid) v in
      let s1 = with_volume host a d p u1 (p.attach u1 s.world) (logged name (str "attach") s) in
      let now : option (str "ref") u1 ≡ attached_ref ref cid =
        option-with_ref (attached_ref ref cid) v in
      let back : join 44 (string_slice_delete (split 44 (option (str "ref") u1)) cid) ≡ ref =
        ap (λ t. join 44 (string_slice_delete (split 44 t) cid)) now
        ∙ attached_ref-deleted ref cid m c in
      let u2 = with_ref (join 44 (string_slice_delete (split 44 (option (str "ref") u1)) cid)) u1 in
      let r1 = attached-Ready name u1 v s refl refl r in
      let e =
        detach_found-Ready name cid u1 s1 n (ap is_empty now ∙ attached_ref-full ref cid n)
          (ap (contains_text cid) now ∙ attached_ref-contains ref cid) r1 in
      let r2 =
        with_volume-Ready host a d p name u1 u2 (detach_world host a d p u2 s1.world)
          (logged name (str "detach") s1)
          (record { stored = r1.stored; own_name = r1.own_name; driver = r1.driver }) refl refl in
      (
        u2,
        (
          ap (λ t. lookup name (detach host name (ref_of cid) t.1).1.store)
                (attach-Ready name cid v s n r)
              ∙ ap (λ q. lookup name q.1.store) e
              ∙ r2.stored,
          option-with_ref _ u1 ∙ back,
        ),
      )
