-- ===== src/Scheduler.antt =====
-- pkg/scheduler/scheduler.go: the choice of a containerd client. A factory is what its `Value` returns,
-- an int, and its place in the pool.
pub mod Choice
mod Tests
use pouch.Prelude.{ℕ, suc, Option, none, some, List, [], ◌∷◌, if◌then◌else◌}
use pouch.Prelude.Int.{ℤ, pos, ltb_ℤ}

-- one turn of the loop, at the place `i`, with the place and the value of the largest so far
unfoldable pub larger : ℕ → ℤ → ℕ × ℤ → ℕ × ℤ
larger i v (index, least) = if ltb_ℤ least v then (i, v) else (index, least)

-- the loop of `Schedule` from the place `i` on
unfoldable pub find_largest : ℕ → List ℤ → ℕ × ℤ → ℕ × ℤ
find_largest i [] best = best
find_largest i (v ∷ pool) best = find_largest (suc i) pool (larger i v best)

abbrev pub chosen : ℕ × ℤ → Option ℕ
chosen (index, least) = if ltb_ℤ (pos 0) least then some index else none

-- `Schedule`: the place of the factory in the pool
unfoldable pub schedule : List ℤ → Option ℕ
unfolding find_largest larger
schedule [] = none
schedule (v ∷ pool) = chosen (find_largest 1 pool (0, v))
