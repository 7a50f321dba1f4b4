-- ===== src/Volume/References/Lost.antt =====
-- When `Attach`, `Detach` and `Remove` of daemon/mgr/volume.go refuse, and when references get lost.
use pouch.Prelude.{
  ◌≡◌, refl, ap, sym, ◌∙◌, true, false, Option, some, [], ◌∷◌, Text, str, text_eq, lookup, is_empty,
  contains_text,
}
use pouch.Prelude.Task.{continue, done, raised, ◌>>=◌, require, expect}
use pouch.Volume.{
  Volume, option, Driver, Host, Service, Action, in_use, not_found, get_driver, known_or_plugin,
  failed,
}
use pouch.Volume.Core.{get_volume, current_or_probed, as_driver_knows, attach_volume, with_extra}
use pouch.Volume.Manager.{
  attach_options, get_by_name, attach_begin, attach, detach_found, detach, remove,
}
use pouch.Volume.Ready.{
  Answers, IsPlain, Ready, with_volume, attach_volume-Ready, with_volume-Ready,
}
use pouch.Volume.References.{
  with_ref, ref_of, option-with_ref, with_extra-attach_options, logged, get_by_name-Ready,
  attach_begin-Ready, attach-Ready, attached-Ready,
}
use pouch.Volume.References.Lists.{attached_ref}

-- two calls of `Attach` that both find the volume before either writes it
unfoldable pub interleaved : {W : Type 0} → Host W → Text → Text → Text → Action W Volume
interleaved host name cid other = do
  first ← attach_begin host name (ref_of cid)
  second ← attach_begin host name (ref_of other)
  _ ← attach_volume host name first
  attach_volume host name second

module _ {W : Type 0} (host : Host W) (a : Answers host) (d : Driver W) (p : IsPlain d) where
  -- With a store that answers and a driver that is no Getter and attaches volumes as they are: a container
  -- that is attached to a volume of the store whose references contain its ID is from then on the only
  -- reference, in the volume that is returned and in the store: those of the other containers are lost.
  pub attach-attached :
      (name cid : Text) (v : Volume) (s : Service W)
      → is_empty cid ≡ false
      → contains_text cid (option (str "ref") v) ≡ true
      → Ready name v d s
      → (u : Volume) × (((attach host name (ref_of cid) s).0 ≡ done u)
          × (lookup name (attach host name (ref_of cid) s).1.store ≡ some u)
          × (option (str "ref") u ≡ cid))
  attach-attached name cid v s n c r =
      let ref = option (str "ref") v in
      let u = with_ref (attached_ref ref cid) v in
      let e = attach-Ready host a d p name cid v s n r in
      (
        u,
        (
          ap (λ q. q.0) e,
          ap (λ q. lookup name q.1.store) e
              ∙ (attached-Ready host a d p name u v s refl refl r).stored,
          option-with_ref (attached_ref ref cid) v ∙ alone ref c,
        ),
      )
    where
      alone : (ref : Text) → contains_text cid ref ≡ true → attached_ref ref cid ≡ cid
      alone [] c = refl
      alone (x ∷ ref) c = rw c refl

  -- With a store that answers and a driver that is no Getter and attaches volumes as they are: of two
  -- containers whose calls of `Attach` both find the volume of the store before either writes it, both
  -- calls succeed, and the first one is lost: the references, in the volume that is returned and in the
  -- store, are those that the second call alone stores.
  pub interleaved-ref :
      (name cid other : Text) (v : Volume) (s : Service W)
      → is_empty cid ≡ false
      → is_empty other ≡ false
      → Ready name v d s
      → (u : Volume) × (w : Volume) × (((interleaved host name cid other s).0 ≡ done u)
          × (lookup name (interleaved host name cid other s).1.store ≡ some u)
          × (lookup name (attach host name (ref_of other) s).1.store ≡ some w)
          × (option (str "ref") u ≡ option (str "ref") w))
  unfolding interleaved ◌>>=◌
  interleaved-ref name cid other v s n m r =
      let ref : Text = option (str "ref") v in
      let s1 : Service W = logged name (str "attach") s in
      let s2 : Service W = logged name (str "attach") s1 in
      let r1 = later s r in
      let r2 = later s1 r1 in
      let u1 : Volume = with_extra (attach_options ref cid (ref_of cid)) v in
      let w1 : W = p.attach u1 s.world in
      let s3 : Service W = with_volume host a d p u1 w1 s2 in
      let r3 = with_volume-Ready host a d p name v u1 w1 s2 r2 refl refl in
      let u2 : Volume = with_extra (attach_options ref other (ref_of other)) u1 in
      let s4 : Service W = with_volume host a d p u2 (p.attach u2 w1) s3 in
      let both : interleaved host name cid other s ≡ (done u2, s4) =
        rw
          (
            attach_begin-Ready host a d p name cid v s n r,
            attach_begin-Ready host a d p name other v s1 m r1,
            attach_volume-Ready host a d p name v (attach_options ref cid (ref_of cid)) s2 r2,
            attach_volume-Ready host a d p name u1 (attach_options ref other (ref_of other)) s3 r3,
          )
          refl in
      let r4 = with_volume-Ready host a d p name u1 u2 (p.attach u2 w1) s3 r3 refl refl in
      let w : Volume = with_ref (attached_ref ref other) v in
      (
        u2,
        w,
        (
          ap (λ q. q.0) both,
          ap (λ q. lookup name q.1.store) both ∙ r4.stored,
          ap (λ q. lookup name q.1.store) (attach-Ready host a d p name other v s m r)
              ∙ (attached-Ready host a d p name w v s refl refl r).stored,
          ap (option (str "ref")) (with_extra-attach_options ref other u1)
              ∙ option-with_ref (attached_ref ref other) u1
              ∙ sym (option-with_ref (attached_ref ref other) v),
        ),
      )
    where
      later : (s : Service W) → Ready name v d s → Ready name v d (logged name (str "attach") s)
      later s r = record { stored = r.stored; own_name = r.own_name; driver = r.driver }

  -- A volume with a reference is not removed, and the service stays as it is.
  pub remove-referenced :
      (name : Text) (v : Volume) (s : Service W)
      → is_empty (option (str "ref") v) ≡ false
      → Ready name v d s
      → remove host name s ≡ (raised in_use, s)
  unfolding remove ◌>>=◌
  remove-referenced name v s n r = rw (get_by_name-Ready host a d p name v s r, n) refl

get_volume-of_getter :
    {W : Type 0} (host : Host W) (d : Driver W) (f : Text → W → Option Volume) (name : Text)
    (stored v : Volume) (s : Service W)
    → host.reads name s.world ≡ true
    → lookup name s.store ≡ some stored
    → lookup stored.backend s.drivers ≡ some d
    → d.getter ≡ some f
    → f name s.world ≡ some v
    → get_volume host name s ≡ (done v, s)
unfolding get_volume get_driver ◌>>=◌
get_volume-of_getter host d f name stored v s a b c g h =
    ap (λ b. continue (require b failed s) (λ _. current_or_probed host name (lookup name s.store)))
      a
    ∙ ap (λ o. current_or_probed host name o s) b
    ∙ ap
        (λ o.
          continue (known_or_plugin host stored.backend o s)
            (λ e. as_driver_knows host name stored e.getter))
        c
    ∙ ap (λ o. as_driver_knows host name stored o s) g
    ∙ ap (λ o. expect o not_found s) h

-- Of a driver that is a Getter, such as a plugin, the volume that it gives decides: if that has no
-- reference to the container, `Detach` changes nothing and does not call the driver, whatever the
-- references in the store are.
pub detach-of_getter :
    {W : Type 0} (host : Host W) (d : Driver W) (f : Text → W → Option Volume) (name cid : Text)
    (stored v : Volume) (s : Service W)
    → host.reads name s.world ≡ true
    → lookup name s.store ≡ some stored
    → lookup stored.backend s.drivers ≡ some d
    → d.getter ≡ some f
    → f name s.world ≡ some v
    → is_empty cid ≡ false
    → contains_text cid (option (str "ref") v) ≡ false
    → detach host name (ref_of cid) s ≡ (done v, s)
unfolding detach get_by_name detach_found ◌>>=◌ lookup text_eq
detach-of_getter host d f name cid stored v s a b c g h n m =
    rw (get_volume-of_getter host d f name stored v s a b c g h, n, m) refl
