-- ===== src/Storage/Managed/Kept.antt =====
-- The volume of a bind in replace mode, under the volume manager of daemon/mgr/volume.go.
use pouch.Prelude.{
  ◌≡◌, refl, ap, ◌∙◌, Bool, Bool-cases, true, false, inl, inr, some, [], ◌∷◌, Text, str, text_eq,
  is_empty, has_prefix,
}
use pouch.Prelude.Task.{Outcome, continue, done, raised, ◌>>=◌, expect}
use pouch.Opts.Bind.{check_bind, MountPoint, parse_bind_mode}
use pouch.Volume.{Volume, option, Driver, Host, Service, in_use}
use pouch.Volume.Core.{volume_path}
use pouch.Volume.Manager.{path, remove}
use pouch.Volume.Ready.{Answers, IsPlain, Ready, get_volume_driver-Ready, with_volume}
use pouch.Volume.References.{
  with_ref, option-with_ref, logged, get_by_name-Ready, attach-Ready, attached-Ready,
}
use pouch.Volume.References.Lists.{attached_ref, attached_ref-full}
use pouch.Volume.References.Lost.{remove-referenced}
use pouch.Storage.Services.{Err, bad_bind, Gen, Work, Config, call}
use pouch.Storage.Places.{is_in, no_bind, mount_at, placed, place, remember}
use pouch.Storage.Binds.{
  created_driver, attach_volume, attach_new, replaced, bind_volume, source_or_random, bind_body,
  bind_parts, from_bind,
}
use pouch.Storage.Mounts.{detach_each}
use pouch.Storage.Replaced.{from_bind-detach}
use pouch.Storage.Managed.{volume_service}

-- a driver that gives each of its volumes an absolute path
pub record HasPaths {W : Type 0} (d : Driver W) : Type 0 where
  pub path : Volume → W → Text
  pub gives : (v : Volume) (w : W) → d.path v w ≡ some (path v w)
  pub absolute : (v : Volume) (w : W) → has_prefix (str "/") (path v w) ≡ true

module _ {W : Type 0} (host : Host W) (random : W → Text × W) (c : Config) (a : Answers host)
    (d : Driver W) (p : IsPlain d) (paths : HasPaths d) where
  path-Ready :
      (name : Text) (v : Volume) (s : Service W)
      → Ready name v d s
      → path host name s ≡ (done (paths.path v s.world), s)
  unfolding path volume_path ◌>>=◌
  path-Ready name v s r =
      rw
        (
          get_volume_driver-Ready host a d p name v s r,
          paths.gives v s.world,
          paths.absolute v s.world,
        )
        refl

  -- what `attachVolume` makes of the service
  abbrev attached : Text → Volume → Service W → Service W
  attached name v s =
      let u = with_ref (attached_ref (option (str "ref") v) c.id) v in
      with_volume host a d p u (p.attach u s.world) (logged name (str "attach") s)

  abbrev referenced : Volume → Volume
  referenced v = with_ref (attached_ref (option (str "ref") v) c.id) v

  attach_new-Ready :
      (name : Text) (v : Volume) (w : Work (Service W))
      → is_empty c.id ≡ false
      → Ready name v d w.world
      → attach_new (volume_service host random) c name false w
        ≡ (done tt, record { volume_set = name ∷ w.volume_set; world = attached name v w.world })
  unfolding attach_new attach_volume created_driver call remember volume_service ◌>>=◌
  attach_new-Ready name v w n r =
      rw
        (
          get_by_name-Ready host a d p name v w.world r,
          attach-Ready host a d p name c.id v w.world n r,
          path-Ready name (referenced v) (attached name v w.world)
              (attached-Ready host a d p name (referenced v) v w.world refl refl r),
        )
        refl

  later-Ready :
      (name : Text) (v : Volume) (s : Service W) (w : W)
      → Ready name v d s
      → Ready name v d (record s { world = w })
  later-Ready name v s w r = record { stored = r.stored; own_name = r.own_name; driver = r.driver }

  -- a task that succeeds in a state where `v` is the volume of the name
  abbrev Succeeds : {A : Type 0} → Text → Volume → Outcome Err A × Work (Service W) → Type 0
  Succeeds {A} name v q =
      (x : A) × (w : Work (Service W)) × ((q ≡ (done x, w)) × Ready name v d w.world)

  replaced-Ready :
      (name from driver e : Text) (named : Bool) (mp : MountPoint) (v : Volume)
      (w : Work (Service W))
      → is_empty mp.replace ≡ false
      → Ready name v d w.world
      → Succeeds name v (replaced (volume_service host random) c name named from driver e mp w)
  unfolding replaced call volume_service ◌>>=◌
  replaced-Ready name from driver e named mp v w h r =
      rw h (elim (Bool-cases (text_eq mp.replace (str "dr"))) [
        | inl b ↦ rw b (_, w, (refl, r))
        | inr b ↦ rw b (elim (Bool-cases (text_eq mp.replace (str "rr"))) [
          | inl k ↦ rw k (_, _, (refl, later-Ready name v w.world (random w.world.world).1 r))
          | inr k ↦ rw k (_, w, (refl, r))
        ])
      ])

  bind_volume-Ready :
      (name e : Text) (named : Bool) (mp : MountPoint) (v : Volume) (w : Work (Service W))
      → is_empty c.id ≡ false
      → is_in name w.volume_set ≡ false
      → is_empty mp.replace ≡ false
      → Ready name v d w.world
      → Succeeds name (referenced v) (bind_volume (volume_service host random) c name named e mp w)
  unfolding bind_volume call volume_service ◌>>=◌
  bind_volume-Ready name e named mp v w n i h r =
      let s = attached name v w.world in
      let u = referenced v in
      let t = attached-Ready host a d p name u v w.world refl refl r in
      rw
        (
          i,
          attach_new-Ready name v w n r,
          get_by_name-Ready host a d p name u s t,
          path-Ready name u s t,
        )
        (replaced-Ready name (paths.path u s.world) u.backend e named mp u
          (record { volume_set = name ∷ w.volume_set; world = s }) h t)

  bind_body-Ready :
      (name e mode : Text) (mp : MountPoint) (v : Volume) (w : Work (Service W))
      → is_empty c.id ≡ false
      → is_empty name ≡ false
      → has_prefix (str "/") name ≡ false
      → is_in name w.volume_set ≡ false
      → parse_bind_mode no_bind mode ≡ some mp
      → is_empty mp.replace ≡ false
      → Ready name v d w.world
      → Succeeds name (referenced v) (bind_body (volume_service host random) c name true e mode w)
  unfolding bind_body source_or_random ◌>>=◌
  bind_body-Ready name e mode mp v w n m f i k h r =
      rw (m, k, f) (bind_volume-Ready name e true mp v w n i h r)

  -- With a store that answers, and a plain driver that gives its volumes absolute paths: a bind in replace
  -- mode of a volume of the store that was not attached for this container before, read as the first of a
  -- container with an ID, succeeds, and from then on `Remove` refuses the volume as in use also after
  -- `detachVolumes`, which changes nothing.
  pub from_bind-remove :
      (b name e mode : Text) (mp : MountPoint) (v : Volume) (w : Work (Service W))
      → is_empty c.id ≡ false
      → is_empty name ≡ false
      → has_prefix (str "/") name ≡ false
      → is_in name w.volume_set ≡ false
      → check_bind b ≡ some (name ∷ e ∷ mode ∷ [])
      → parse_bind_mode no_bind mode ≡ some mp
      → is_empty mp.replace ≡ false
      → Ready name v d w.world
      → let vs = volume_service host random in
        (t : Gen (Service W)) × ((from_bind vs c b (record { mounts = []; work = w })
            ≡ (done tt, t))
          × (remove host name (detach_each vs c t.mounts t.work.world)
              ≡ (raised in_use, t.work.world)))
  unfolding from_bind place detach_each ◌>>=◌
  from_bind-remove b name e mode mp v w n m f i l k h r =
      let vs = volume_service host random in
      let s : Gen (Service W) = record { mounts = []; work = w } in
      let (x, w', (made, ready)) = bind_body-Ready name e mode mp v w n m f i k h r in
      let t : Gen (Service W) = record { mounts = mount_at e x ∷ []; work = w' } in
      let run : from_bind vs c b s ≡ (done tt, t) =
        ap (λ o. continue (expect o bad_bind s) (bind_parts vs c)) l ∙ ap (placed e s) made in
      let same = from_bind-detach vs c b name e mode mp s t tt w'.world l k h run in
      (
        t,
        (
          run,
          ap (remove host name) same
              ∙ remove-referenced host a d p name (referenced v) w'.world full ready,
        ),
      )
    where
      full : is_empty (option (str "ref") (referenced v)) ≡ false
      full =
          ap is_empty (option-with_ref (attached_ref (option (str "ref") v) c.id) v)
          ∙ attached_ref-full (option (str "ref") v) c.id n
