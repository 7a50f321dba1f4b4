-- ===== src/Storage/Distinct.antt =====
-- No two mount points of container_storage.go's `generateMountPoints` are at one path.
use pouch.Prelude.{
  ◌≡◌, refl, ap, ◌∙◌, Bool, Bool-cases, true, false, ◌||◌, inl, inr, ◌⊎◌, Option, List, [], ◌∷◌,
  ◌++◌, Text, text_eq, text_eq_iff, subst, arith,
}
use pouch.Prelude.Paths.{clean}
use pouch.Prelude.Task.{
  Task, Outcome, done, raised, Keeps, Keeps-bind, Keeps-pure, Keeps-raise, Keeps-expect, Keeps-get,
  Keeps-if,
}
use pouch.Storage.Services.{Mount, VolumeService, Err, Work, Gen, Config, on_work}
use pouch.Storage.Places.{is_duplicate, Body, mount_at, placed, place, in_turn}
use pouch.Storage.Binds.{bind_parts, from_bind, get_mount_point_from_binds}
use pouch.Storage.Mounts.{
  unless_known, from_image_volume, from_volume, get_mount_point_from_volumes,
  get_mount_point_from_image, from_container, get_mount_point_from_containers, cleaned, settled,
  collect, generate_mount_points,
}

-- no mount point is at the cleaned path of another
abbrev pub Distinct : List Mount → Type 0
Distinct [] = Unit
Distinct (m ∷ ms) = (is_duplicate ms m.destination ≡ false) × Distinct ms

differs : (s t : Text) → text_eq s t ≡ false → text_eq t s ≡ false
differs s t h = ground (arith, text_eq_iff s t, text_eq_iff t s, h)

still_new :
    (ms : List Mount) (n : Mount) (d : Text)
    → is_duplicate ms d ≡ false
    → text_eq (clean n.destination) (clean d) ≡ false
    → is_duplicate (ms ++ n ∷ []) d ≡ false
unfolding is_duplicate
still_new [] n d h e = ground (arith, e)
still_new (m ∷ ms) n d h e = ground (arith, h, still_new ms n d (ground (arith, h)) e)

Distinct-append :
    (ms : List Mount) (n : Mount)
    → Distinct ms
    → is_duplicate ms n.destination ≡ false
    → Distinct (ms ++ n ∷ [])
unfolding is_duplicate
Distinct-append [] n h e = (refl, tt)
Distinct-append (m ∷ ms) n (h, hs) e = (
  still_new ms n m.destination h
      (differs (clean m.destination) (clean n.destination) (ground (arith, e))),
  Distinct-append ms n hs (ground (arith, e)),
)

module _ {W : Type 0} where
  record Separated (s : Gen W) : Type 0 where
    separated : Distinct s.mounts

  place-Keeps : (d : Text) (make : Task (Work W) Err Body) → Keeps Separated (place d make)
  unfolding place
  place-Keeps d make = record { at = λ s h. go s h (Bool-cases (is_duplicate s.mounts d)) }
    where
      added :
          (s : Gen W) (r : Outcome Err Body × Work W)
          → Separated s
          → is_duplicate s.mounts d ≡ false
          → Separated (placed d s r).1
      added s (done b, w) h e = record {
        separated = Distinct-append s.mounts (mount_at d b) h.separated e;
      }
      added s (raised e', w) h e = record { separated = h.separated }

      go :
          (s : Gen W)
          → Separated s
          → (is_duplicate s.mounts d ≡ true) ⊎ (is_duplicate s.mounts d ≡ false)
          → Separated (place d make s).1
      go s h (inl e) = rw e h
      go s h (inr e) = rw e (added s (make s.work) h e)

  on_work-Keeps : {A : Type 0} (a : Task (Work W) Err A) → Keeps Separated (on_work a)
  unfolding on_work
  on_work-Keeps a = record { at = λ s h. record { separated = h.separated } }

  in_turn-Keeps :
      {A : Type 0} (f : A → Task (Gen W) Err (Unit {0})) (items : List A)
      → ((a : A) → Keeps Separated (f a))
      → Keeps Separated (in_turn f items)
  unfolding in_turn
  in_turn-Keeps f [] h = Keeps-pure tt
  in_turn-Keeps f (a ∷ items) h = Keeps-bind _ _ (h a) (λ _. in_turn-Keeps f items h)

module _ {W : Type 0} (vs : VolumeService W) (c : Config) where
  bind_parts-Keeps : (parts : List Text) → Keeps Separated (bind_parts vs c parts)
  bind_parts-Keeps [] = Keeps-raise _
  bind_parts-Keeps (d ∷ []) = place-Keeps _ _
  bind_parts-Keeps (source ∷ d ∷ []) = place-Keeps _ _
  bind_parts-Keeps (source ∷ d ∷ mode ∷ []) = place-Keeps _ _
  bind_parts-Keeps (_ ∷ _ ∷ _ ∷ _ ∷ _) = Keeps-raise _

  from_bind-Keeps : (b : Text) → Keeps Separated (from_bind vs c b)
  unfolding from_bind
  from_bind-Keeps b = Keeps-bind _ _ (Keeps-expect _ _) bind_parts-Keeps

  unless_known-Keeps : (name d : Text) (b : Bool) → Keeps Separated (unless_known vs c name d b)
  unless_known-Keeps name d true = Keeps-pure tt
  unless_known-Keeps name d false = place-Keeps _ _

  from_image_volume-Keeps : (d : Text) → Keeps Separated (from_image_volume vs c d)
  unfolding from_image_volume
  from_image_volume-Keeps d =
      Keeps-bind _ _ (on_work-Keeps _)
        (λ name. Keeps-bind _ _ Keeps-get (λ s. unless_known-Keeps name d _))

  from_volume-Keeps : (d : Text) → Keeps Separated (from_volume vs c d)
  unfolding from_volume
  from_volume-Keeps d =
      Keeps-bind _ _ Keeps-get (λ s. Keeps-if _ _ _ (Keeps-pure tt) (from_image_volume-Keeps d))

  from_container-Keeps :
      (container : Text → Option (List Mount)) (v : Text)
      → Keeps Separated (from_container vs c container v)
  unfolding from_container
  from_container-Keeps container v = Keeps-bind _ _ (Keeps-expect _ _) (λ p.
      Keeps-bind _ _ (Keeps-expect _ _) (λ mounts. in_turn-Keeps _ mounts (λ m. place-Keeps _ _)))

  collect-Keeps :
      (container : Text → Option (List Mount)) (image : Option (List Text))
      → Keeps Separated (collect vs c container image)
  unfolding collect get_mount_point_from_containers get_mount_point_from_binds
      get_mount_point_from_image get_mount_point_from_volumes
  collect-Keeps container image =
      Keeps-bind _ _ (in_turn-Keeps _ _ (from_container-Keeps container)) (λ _.
        Keeps-bind _ _ (in_turn-Keeps _ _ from_bind-Keeps) (λ _.
          Keeps-bind _ _
            (Keeps-bind _ _ (Keeps-expect _ _)
              (λ volumes. in_turn-Keeps _ _ from_image_volume-Keeps))
            (λ _. in_turn-Keeps _ _ from_volume-Keeps)))

-- a mount point at a path
abbrev pub has_destination : Text → List Mount → Bool
has_destination d [] = false
has_destination d (m ∷ ms) = text_eq m.destination d || has_destination d ms

abbrev pub Different : List Mount → Type 0
Different [] = Unit
Different (m ∷ ms) = (has_destination m.destination ms ≡ false) × Different ms

cleaned-has_destination :
    (d : Text) (ms : List Mount) → has_destination (clean d) (cleaned ms) ≡ is_duplicate ms d
unfolding is_duplicate
cleaned-has_destination d [] = refl
cleaned-has_destination d (m ∷ ms) =
    ap (λ b. text_eq (clean m.destination) (clean d) || b) (cleaned-has_destination d ms)

cleaned-Different : (ms : List Mount) → Distinct ms → Different (cleaned ms)
cleaned-Different [] h = tt
cleaned-Different (m ∷ ms) (h, hs) =
    (cleaned-has_destination m.destination ms ∙ h, cleaned-Different ms hs)

-- The mount points that a successful `generateMountPoints` leaves have different destinations, whatever
-- the volume manager answers, if those that the container had before are at different paths, as the
-- none of a new container are.
pub generate_mount_points-Different :
    {W : Type 0} (vs : VolumeService W) (c : Config) (container : Text → Option (List Mount))
    (image : Option (List Text)) (s t : Gen W) (u : Unit {0})
    → Distinct s.mounts
    → generate_mount_points vs c container image s ≡ (done u, t)
    → Different t.mounts
unfolding generate_mount_points
generate_mount_points-Different {W = W} vs c container image s t u h e =
    go (collect vs c container image s0) kept.separated e
  where
    s0 : Gen W
    s0 = record s { work = record s.work { volume_set = [] } }

    kept : Separated (collect vs c container image s0).1
    kept = (collect-Keeps vs c container image).at s0 (record { separated = h })

    go :
        (r : Outcome Err (Unit {0}) × Gen W)
        → Distinct r.1.mounts
        → settled vs c r ≡ (done u, t)
        → Different t.mounts
    go (done v, r) d e' = subst (λ q. Different q.1.mounts) e' (cleaned-Different r.mounts d)
    go (raised x, r) d e' = absurd (ground (arith, e'))
