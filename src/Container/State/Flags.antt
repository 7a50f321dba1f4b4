-- ===== src/Container/State/Flags.antt =====
-- The five flags follow the status.
use pouch.Prelude.{ℕ, ◌≡◌, ◌+◌, ◌≤◌, refl, ap, ◌∙◌, Bool, Text, List, [], ◌∷◌, arith, if◌then◌else◌}
use pouch.Prelude.Int.{ℤ}
use pouch.Container.State.{
  Status, running, stopped, paused, restarting, exited, dead, State, is_status, set_status_running,
  set_status_stopped, set_status_exited, set_status_paused, set_status_unpaused, set_status_dead,
  set_status_oom,
}

pub record IsCoherent (s : State) : Type 0 where
  pub dead_iff : s.dead_flag ≡ is_status s.status dead
  pub exited_iff : s.exited_flag ≡ is_status s.status exited
  pub paused_iff : s.paused_flag ≡ is_status s.status paused
  pub restarting_iff : s.restarting_flag ≡ is_status s.status restarting
  pub running_iff : s.running_flag ≡ is_status s.status running

-- The changes of state that the engine makes through the methods of `Container`.
pub data Change : Type 0 where
  run : Text → ℤ → Change
  stop : Text → ℤ → Text → Change
  exit : Text → ℤ → Text → Change
  pause unpause die oom : Change

unfoldable pub apply : Change → State → State
unfolding set_status_running set_status_stopped set_status_exited set_status_paused
    set_status_unpaused set_status_dead set_status_oom
apply (run now pid) s = set_status_running now pid s
apply (stop now code msg) s = set_status_stopped now code msg s
apply (exit now code msg) s = set_status_exited now code msg s
apply pause s = set_status_paused s
apply unpause s = set_status_unpaused s
apply die s = set_status_dead s
apply oom s = set_status_oom s

apply-IsCoherent : (c : Change) (s : State) → IsCoherent s → IsCoherent (apply c s)
unfolding apply
apply-IsCoherent (run now pid) s h = ground arith
apply-IsCoherent _ s h = ground arith

unfoldable pub apply_all : List Change → State → State
apply_all [] s = s
apply_all (c ∷ cs) s = apply_all cs (apply c s)

-- The status that the last change which sets one leaves behind.
abbrev pub new_status : Change → Status → Status
new_status (run _ _) st = running
new_status (stop _ _ _) st = stopped
new_status (exit _ _ _) st = exited
new_status pause st = paused
new_status unpause st = running
new_status die st = dead
new_status oom st = st

abbrev pub final_status : List Change → Status → Status
final_status [] st = st
final_status (c ∷ cs) st = final_status cs (new_status c st)

status-apply : (c : Change) (s : State) → (apply c s).status ≡ new_status c s.status
unfolding apply
status-apply (run now pid) s = refl
status-apply _ s = refl

abbrev pub count : Bool → ℕ
count b = if b then 1 else 0

-- Any sequence of status changes keeps every flag equal to the test of the status that it stands for,
-- so no two of the flags running, paused, restarting, exited and dead are set at once, and the status
-- is the one that the last change set.
pub flags_follow_status :
    (cs : List Change) (s : State)
    → IsCoherent s
    → IsCoherent (apply_all cs s)
      × ((apply_all cs s).status ≡ final_status cs s.status)
      × (let t = apply_all cs s in
          count t.running_flag
            + count t.paused_flag
            + count t.restarting_flag
            + count t.exited_flag
            + count t.dead_flag
          ≤ 1)
unfolding apply_all
flags_follow_status [] s h = (h, refl, ground arith)
flags_follow_status (c ∷ cs) s h =
    let (i, e, n) = flags_follow_status cs (apply c s) (apply-IsCoherent c s h) in
    (i, e ∙ ap (final_status cs) (status-apply c s), n)
