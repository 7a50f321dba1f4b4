-- ===== src/Storage/Places.antt =====
-- daemon/mgr/container_storage.go: how a mount point gets its place among the others.
use pouch.Prelude.{Bool, false, ◌||◌, List, [], ◌∷◌, ◌++◌, Text, text_eq, is_empty, if◌then◌else◌}
use pouch.Prelude.Paths.{clean}
use pouch.Prelude.Task.{Task, Outcome, done, raised, pure, ◌>>◌}
use pouch.Opts.Bind.{MountPoint}
use pouch.Storage.Services.{Mount, Err, Work, Gen}

-- `CheckDuplicateMountPoint`
unfoldable pub is_duplicate : List Mount → Text → Bool
unfolding clean text_eq
is_duplicate [] d = false
is_duplicate (m ∷ ms) d = text_eq (clean m.destination) (clean d) || is_duplicate ms d

unfoldable pub is_in : Text → List Text → Bool
unfolding text_eq
is_in t [] = false
is_in t (u ∷ us) = text_eq u t || is_in t us

abbrev pub no_bind : MountPoint
no_bind = record { rw = false; copy_data = false; replace = []; propagation = []; mode = [] }

-- a mount point but for its destination
pub record Body : Type 0 where
  pub source : Text
  pub driver : Text
  pub name : Text
  pub named : Bool
  pub bind : MountPoint

abbrev pub mount_at : Text → Body → Mount
mount_at d b = record {
  source = b.source;
  destination = d;
  driver = b.driver;
  name = b.name;
  named = b.named;
  bind = b.bind;
}

-- `path.Join` of two texts
unfoldable pub path_join : Text → Text → Text
unfolding clean
path_join a b =
    if is_empty a
    then (if is_empty b then [] else clean b)
    else if is_empty b
    then clean a
    else clean (a ++ 47 ∷ b)

module _ {W : Type 0} where
  abbrev pub placed : Text → Gen W → Outcome Err Body × Work W → Outcome Err (Unit {0}) × Gen W
  placed d s (done b, w) = (done tt, record s { mounts = s.mounts ++ mount_at d b ∷ []; work = w })
  placed d s (raised e, w) = (raised e, record s { work = w })

  -- one turn of a loop over mounts: a destination that is taken is left out, and the mount point is
  -- appended at the end
  unfoldable pub place : Text → Task (Work W) Err Body → Task (Gen W) Err (Unit {0})
  unfolding is_duplicate
  place d make s = if is_duplicate s.mounts d then (done tt, s) else placed d s (make s.work)

  unfoldable pub in_turn :
      {A : Type 0} → (A → Task (Gen W) Err (Unit {0})) → List A → Task (Gen W) Err (Unit {0})
  in_turn f [] = pure tt
  in_turn f (a ∷ as') = f a >> in_turn f as'

  -- `volumeSet[name] = struct{}{}`
  unfoldable pub remember : Text → Task (Work W) Err (Unit {0})
  remember name w = (done tt, record w { volume_set = name ∷ w.volume_set })
