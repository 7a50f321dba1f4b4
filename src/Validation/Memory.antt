-- ===== src/Validation/Memory.antt =====
-- daemon/mgr/container_validation.go: the part of `validateResource` on memory.
use pouch.Prelude.{Bool, true, not, ◌&&◌, ◌||◌, Option, none, some, if◌then◌else◌}
use pouch.Prelude.Int.{ℤ, pos, negsuc, ltb_ℤ, eq_ℤ, ◌+ℤ◌, int64}
use pouch.Prelude.Task.{◌>>◌}
use pouch.Validation.Core.{
  MemoryInfo, Resources, Check, is_pos, is_nonzero, is_set, min_memory, adjust, ensure, reset,
  memory_reservation_warn, memory_swap_warn, memory_swappiness_warn, memory_warn, oom_kill_warn,
  swap_size_warn, reservation_too_small, limit_below_reservation, swap_below_limit,
  swap_without_limit, limit_too_small, swappiness_out_of_range,
}

abbrev pub swappiness_in_range : Option ℤ → Bool
swappiness_in_range none = true
swappiness_in_range (some z) =
    eq_ℤ z (negsuc 0) || (not (ltb_ℤ z (pos 0)) && not (ltb_ℤ (pos 100) z))

module _ (info : MemoryInfo) where
  abbrev pub limit_unsupported : Resources → Bool
  limit_unsupported r = is_pos r.memory && not info.memory_limit

  abbrev pub reset_limit : Resources → Resources
  reset_limit r = record r {
    memory = reset r.memory (limit_unsupported r);
    memory_swap = reset r.memory_swap (limit_unsupported r);
  }

  abbrev pub reservation_unsupported : Resources → Bool
  reservation_unsupported r = is_pos r.memory_reservation && not info.memory_reservation

  abbrev pub reset_reservation : Resources → Resources
  reset_reservation r = record r {
    memory_reservation = reset r.memory_reservation (reservation_unsupported r);
  }

  abbrev pub swap_unsupported : Resources → Bool
  swap_unsupported r = is_pos r.memory_swap && not info.memory_swap

  abbrev pub reset_swap : Resources → Resources
  reset_swap r = record r { memory_swap = reset r.memory_swap (swap_unsupported r) }

  abbrev pub swappiness_unsupported : Resources → Bool
  swappiness_unsupported r = is_set r.memory_swappiness && not info.memory_swappiness

  abbrev pub reset_swappiness : Resources → Resources
  reset_swappiness r = record r {
    memory_swappiness = if swappiness_unsupported r then none else r.memory_swappiness;
  }

  abbrev pub oom_kill_unsupported : Resources → Bool
  oom_kill_unsupported r = is_set r.oom_kill_disable && not info.oom_kill_disable

  abbrev pub reset_oom_kill : Resources → Resources
  reset_oom_kill r = record r {
    oom_kill_disable = if oom_kill_unsupported r then none else r.oom_kill_disable;
  }

abbrev pub reservation_test : Resources → Bool
reservation_test r = not (is_nonzero r.memory_reservation && ltb_ℤ r.memory_reservation min_memory)

abbrev pub limit_test : Resources → Bool
limit_test r =
    not (is_pos r.memory && is_pos r.memory_reservation && ltb_ℤ r.memory r.memory_reservation)

abbrev pub swap_test : Resources → Bool
swap_test r = not (is_pos r.memory && is_pos r.memory_swap && ltb_ℤ r.memory_swap r.memory)

abbrev pub swap_alone_test : Bool → Resources → Bool
swap_alone_test update r = not (eq_ℤ r.memory (pos 0) && is_pos r.memory_swap && not update)

abbrev pub minimum_test : Resources → Bool
minimum_test r = not (is_nonzero r.memory && ltb_ℤ r.memory min_memory)

abbrev swap_is_small : Resources → Bool
swap_is_small r =
    is_pos r.memory && is_pos r.memory_swap && ltb_ℤ r.memory_swap (int64 (r.memory +ℤ r.memory))

abbrev pub swappiness_test : Resources → Bool
swappiness_test r = swappiness_in_range r.memory_swappiness

-- the part of `validateResource` on memory
unfoldable pub validate_memory : Bool → MemoryInfo → Check
unfolding adjust ensure int64 ◌+ℤ◌
validate_memory update info = do
  adjust (reset_limit info) (limit_unsupported info) memory_warn
  adjust (reset_reservation info) (reservation_unsupported info) memory_reservation_warn
  ensure reservation_test reservation_too_small
  ensure limit_test limit_below_reservation
  adjust (reset_swap info) (swap_unsupported info) memory_swap_warn
  ensure swap_test swap_below_limit
  ensure (swap_alone_test update) swap_without_limit
  ensure minimum_test limit_too_small
  adjust (λ r. r) swap_is_small swap_size_warn
  adjust (reset_swappiness info) (swappiness_unsupported info) memory_swappiness_warn
  ensure swappiness_test swappiness_out_of_range
  adjust (reset_oom_kill info) (oom_kill_unsupported info) oom_kill_warn
