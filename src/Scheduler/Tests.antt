-- ===== src/Scheduler/Tests.antt =====
-- Runs of the scheduler, and the theorems at concrete inputs.
use pouch.Prelude.{◌≡◌, refl, true, some, [], ◌∷◌, get_elem?, All}
use pouch.Prelude.Int.{ℤ, pos, negsuc, ltb_ℤ}
use pouch.Scheduler.{schedule, find_largest, larger}
use pouch.Scheduler.Choice.{Below, schedule-largest}

-- the first of the largest is chosen
first_largest : schedule (pos 2 ∷ pos 7 ∷ negsuc 0 ∷ pos 7 ∷ []) ≡ some 1
unfolding schedule find_largest larger
first_largest = refl

schedule-largest_example :
    (v : ℤ) × (get_elem? (pos 2 ∷ pos 7 ∷ negsuc 0 ∷ pos 7 ∷ []) 1 ≡ some v)
    × (ltb_ℤ (pos 0) v ≡ true)
    × All (Below v) (pos 2 ∷ pos 7 ∷ negsuc 0 ∷ pos 7 ∷ [])
schedule-largest_example = schedule-largest (pos 2 ∷ pos 7 ∷ negsuc 0 ∷ pos 7 ∷ []) 1 first_largest
