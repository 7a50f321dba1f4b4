-- ===== src/Storage/Replaced.antt =====
-- The volume of a bind in replace mode, which container_storage.go's `detachVolumes` does not detach.
use pouch.Prelude.{
  ◌≡◌, refl, ap, sym, ◌∙◌, Bool, Bool-cases, true, false, inl, inr, some, List, [], ◌∷◌, ◌++◌, Text,
  str, text_eq, is_empty, has_prefix, arith,
}
use pouch.Prelude.Task.{
  Task, Outcome, done, raised, pure, Yields, Yields-pure, Yields-if, Yields-bind, Yields-expect,
  expect-then,
}
use pouch.Opts.Bind.{check_bind, MountPoint, parse_bind_mode}
use pouch.Storage.Services.{Mount, VolumeService, Err, Work, Gen, Config, call}
use pouch.Storage.Places.{is_duplicate, no_bind, Body, mount_at, path_join, placed, place}
use pouch.Storage.Binds.{
  unnamed, host_bind, replaced, bind_volume, bind_body, bind_parts, from_bind,
}
use pouch.Storage.Mounts.{detach_each}

Nameless : Body → Type 0
Nameless b = b.name ≡ []

module _ {W : Type 0} (vs : VolumeService W) (c : Config) where
  replaced-Nameless :
      (name : Text) (named : Bool) (path driver d : Text) (mp : MountPoint)
      → is_empty mp.replace ≡ false
      → Yields Nameless (replaced vs c name named path driver d mp)
  unfolding replaced Nameless
  replaced-Nameless name named path driver d mp h = rw h (
      Yields-if (text_eq mp.replace (str "dr")) _ _
        (Yields-pure (unnamed mp (path_join path d)) refl)
        (Yields-if (text_eq mp.replace (str "rr")) _ _
          (Yields-bind (call vs.generate) (λ random. pure (unnamed mp (path_join path random)))
            (λ random. Yields-pure (unnamed mp (path_join path random)) refl))
          (Yields-pure (unnamed mp path) refl)))

  bind_volume-Nameless :
      (name : Text) (named : Bool) (d : Text) (mp : MountPoint)
      → is_empty mp.replace ≡ false
      → Yields Nameless (bind_volume vs c name named d mp)
  unfolding bind_volume
  bind_volume-Nameless name named d mp h = Yields-bind _ _ (λ w. Yields-bind _ _ (λ _.
      Yields-bind _ _ (λ found. Yields-bind _ _ (λ driver. Yields-bind _ _ (λ found_path.
        Yields-bind _ _ (λ path. replaced-Nameless name named path driver d mp h))))))

  bind_body-Nameless :
      (source : Text) (named : Bool) (d mode : Text) (mp : MountPoint)
      → parse_bind_mode no_bind mode ≡ some mp
      → is_empty mp.replace ≡ false
      → Yields Nameless (bind_body vs c source named d mode)
  unfolding bind_body Nameless
  bind_body-Nameless source named d mode mp e h = Yields-bind _ _ (λ from.
      Yields-expect _ _ _ (λ mp' k.
        let same = some_injective (sym e ∙ k) in
        Yields-if (has_prefix (str "/") from) _ _ (Yields-pure (host_bind from named mp') refl)
          (bind_volume-Nameless from named d mp' (ap (λ b. is_empty b.replace) (sym same) ∙ h))))
    where
      some_injective : {a b : MountPoint} → some a ≡ some b → a ≡ b
      some_injective k = ground (arith, k)

  detach-append :
      (ms : List Mount) (m : Mount) (w : W)
      → m.name ≡ []
      → detach_each vs c (ms ++ m ∷ []) w ≡ detach_each vs c ms w
  unfolding detach_each
  detach-append [] m w h = rw h refl
  detach-append (x ∷ ms) m w h = detach-append ms m _ h

  place-detach :
      (d : Text) (make : Task (Work W) Err Body) (s t : Gen W) (u : Unit {0}) (w : W)
      → Yields Nameless make
      → place d make s ≡ (done u, t)
      → detach_each vs c t.mounts w ≡ detach_each vs c s.mounts w
  unfolding place Nameless
  place-detach d make s t u w y h = elim (Bool-cases (is_duplicate s.mounts d)) [
    | inl b ↦ ap (λ q. detach_each vs c q.1.mounts w) (sym h) ∙ rw b refl
    | inr b ↦ made (make s.work) refl (rw b at h)
  ]
    where
      made :
          (r : Outcome Err Body × Work W)
          → make s.work ≡ r
          → placed d s r ≡ (done u, t)
          → detach_each vs c t.mounts w ≡ detach_each vs c s.mounts w
      made (done b, v) e k =
          ap (λ q. detach_each vs c q.1.mounts w) (sym k)
          ∙ detach-append s.mounts (mount_at d b) w (y.of s.work v b e)
      made (raised x, v) e k = absurd (ground (arith, k))

  -- After a bind whose mode has a replace word has been read, `detachVolumes` does what it did before, in
  -- every world: it never detaches the volume of the bind, which `getMountPointFromBinds` has attached if
  -- the source is a name.
  pub from_bind-detach :
      (b source d mode : Text) (mp : MountPoint) (s t : Gen W) (u : Unit {0}) (w : W)
      → check_bind b ≡ some (source ∷ d ∷ mode ∷ [])
      → parse_bind_mode no_bind mode ≡ some mp
      → is_empty mp.replace ≡ false
      → from_bind vs c b s ≡ (done u, t)
      → detach_each vs c t.mounts w ≡ detach_each vs c s.mounts w
  unfolding from_bind
  from_bind-detach b source d mode mp s t u w parts e h k =
      let (ps, (l, m)) = expect-then _ _ _ s t u k in
      let same : source ∷ d ∷ mode ∷ [] ≡ ps = list_injective (sym parts ∙ l) in
      place-detach d (bind_body vs c source true d mode) s t u w
        (bind_body-Nameless source true d mode mp e h) (ap (λ qs. bind_parts vs c qs s) same ∙ m)
    where
      list_injective : {a b : List Text} → some a ≡ some b → a ≡ b
      list_injective k = ground (arith, k)
