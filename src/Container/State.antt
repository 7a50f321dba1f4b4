-- ===== src/Container/State.antt =====
-- container_state.go
pub mod Flags
use pouch.Prelude.{Bool, true, false, ◌||◌, Text, str}
use pouch.Prelude.Int.{ℤ, pos}

-- `types.Status`
pub data Status : Type 0 where
  created running stopped paused restarting removing exited dead : Status

-- `types.ContainerState`; the times are texts
pub record State : Type 0 where
  pub status : Status
  pub dead_flag : Bool
  pub exited_flag : Bool
  pub paused_flag : Bool
  pub restarting_flag : Bool
  pub running_flag : Bool
  pub oom_killed : Bool
  pub pid : ℤ
  pub exit_code : ℤ
  pub error : Text
  pub started_at : Text
  pub finished_at : Text

abbrev pub is_status : Status → Status → Bool
is_status created created = true
is_status running running = true
is_status stopped stopped = true
is_status paused paused = true
is_status restarting restarting = true
is_status removing removing = true
is_status exited exited = true
is_status dead dead = true
is_status _ _ = false

-- the table `statusFlags`, with its entry for the new status set if it has one
abbrev pub status_flag : Status → Status → Bool
status_flag key status = is_status key status

unfoldable pub set_status_flags : Status → State → State
set_status_flags status s = record s {
  dead_flag = status_flag dead status;
  paused_flag = status_flag paused status;
  running_flag = status_flag running status;
  restarting_flag = status_flag restarting status;
  exited_flag = status_flag exited status;
}

unfoldable pub is_running : State → Bool
is_running s = s.running_flag

unfoldable pub is_running_or_paused : State → Bool
is_running_or_paused s = s.running_flag || s.paused_flag

unfoldable pub is_created : State → Bool
is_created s = is_status s.status created

unfoldable pub is_removing : State → Bool
is_removing s = is_status s.status removing

unfoldable pub is_dead : State → Bool
is_dead s = is_status s.status dead

-- `now` is the formatted time.
unfoldable pub set_status_running : Text → ℤ → State → State
unfolding set_status_flags
set_status_running now pid s =
    set_status_flags running
      (record s { status = running; started_at = now; pid = pid; exit_code = pos 0 })

unfoldable pub set_status_stopped : Text → ℤ → Text → State → State
unfolding set_status_flags
set_status_stopped now code msg s =
    set_status_flags stopped
      (record s { status = stopped; finished_at = now; pid = pos 0; exit_code = code; error = msg })

unfoldable pub set_status_exited : Text → ℤ → Text → State → State
unfolding set_status_flags
set_status_exited now code msg s =
    set_status_flags exited
      (record s { status = exited; finished_at = now; pid = pos 0; exit_code = code; error = msg })

unfoldable pub set_status_paused : State → State
unfolding set_status_flags
set_status_paused s = set_status_flags paused (record s { status = paused })

unfoldable pub set_status_unpaused : State → State
unfolding set_status_flags
set_status_unpaused s = set_status_flags running (record s { status = running })

unfoldable pub set_status_dead : State → State
unfolding set_status_flags
set_status_dead s = set_status_flags dead (record s { status = dead })

unfoldable pub set_status_oom : State → State
set_status_oom s = record s { oom_killed = true; error = str "OOMKilled" }
