-- ===== src/Kmutex.antt =====
-- pkg/kmutex: a lock for each key, taken from a map that a ticker sweeps.
pub mod World
pub mod Invariant
pub mod Exclusion
pub mod Progress
mod Tests
use pouch.Prelude.{
  ℕ, suc, ◌+◌, ◌-◌, Bool, true, false, Option, none, some, [], ◌∷◌, Text, Dict, lookup, insert,
  ◌==◌, if◌then◌else◌,
}

-- `value`: the channel of capacity one, by whether its slot is full and whether it is closed, and
-- the number of waiting callers (an int32, which that many goroutines do not reach).
pub record Value : Type 0 where
  pub full : Bool
  pub closed : Bool
  pub waits : ℕ

-- `KMutex`. A caller that waits holds a pointer to its `value`, so values live at addresses.
pub record Kmutex : Type 0 where
  pub keys : Dict ℕ
  pub values : ℕ → Value
  pub next : ℕ

abbrev pub set_value : (ℕ → Value) → ℕ → Value → ℕ → Value
set_value f k v x = if x == k then v else f x

abbrev pub fresh : Value
fresh = record { full = false; closed = false; waits = 0 }

unfoldable pub new : Kmutex
new = record { keys = []; values = λ _. fresh; next = 0 }

-- `lock`: the value of the key, or `none` for a key that this call has put into the map.
unfoldable pub lock : Text → Kmutex → Option ℕ × Kmutex
lock k m = elim (lookup k m.keys) [
  | some v ↦ (some v, m)
  | none ↦ (
    none,
    record {
      keys = insert k m.next m.keys;
      values = set_value m.values m.next (fresh);
      next = suc m.next;
    },
  )
]

-- `<-v.c` with a default case: takes the token if there is one. A closed channel always answers.
unfoldable pub receive : ℕ → Kmutex → Bool × Kmutex
receive v m =
    if (m.values v).full
    then (true, record m { values = set_value m.values v (record (m.values v) { full = false }) })
    else ((m.values v).closed, m)

unfoldable pub add_wait : ℕ → Kmutex → Kmutex
add_wait v m = record m {
  values = set_value m.values v (record (m.values v) { waits = (m.values v).waits + 1 });
}

unfoldable pub done_wait : ℕ → Kmutex → Kmutex
done_wait v m = record m {
  values = set_value m.values v (record (m.values v) { waits = (m.values v).waits - 1 });
}

unfoldable pub trylock : Text → Kmutex → Bool × Kmutex
unfolding lock receive
trylock k m = elim (lock k m).0 [ none ↦ (true, (lock k m).1) | some v ↦ receive v (lock k m).1 ]

-- The first half of `Lock` and `LockWithTimeout`, up to the select: `none` for the lock taken.
unfoldable pub enter : Text → Kmutex → Option ℕ × Kmutex
unfolding lock add_wait
enter k m = elim (lock k m).0 [
  | none ↦ (none, (lock k m).1)
  | some v ↦ (some v, add_wait v (lock k m).1)
]

-- The select of a waiting caller and the deferred decrement: the token arrives, or (only with a
-- timeout) the time runs out.
unfoldable pub wake : ℕ → Kmutex → Bool × Kmutex
unfolding receive done_wait
wake v m = let r = receive v m in if r.0 then (true, done_wait v r.1) else (false, m)

unfoldable pub time_out : ℕ → Kmutex → Kmutex
unfolding done_wait
time_out v m = done_wait v m

-- `Unlock` puts the token back, unless it is there.
unfoldable pub unlock : Text → Kmutex → Kmutex
unlock k m = elim (lookup k m.keys) [
  | none ↦ m
  | some v ↦
      if (m.values v).full
      then m
      else record m { values = set_value m.values v (record (m.values v) { full = true }) }
]

-- One tick of the goroutine of `New`: every key with no waiting caller leaves the map.
unfoldable pub sweep_keys : (ℕ → Value) → Dict ℕ → Dict ℕ
sweep_keys values [] = []
sweep_keys values ((k, v) ∷ rest) =
    let kept = sweep_keys values rest in if (values v).waits == 0 then kept else (k, v) ∷ kept

-- `close(v.c)` for the same keys
unfoldable pub close_idle : Dict ℕ → (ℕ → Value) → ℕ → Value
close_idle [] values = values
close_idle ((k, v) ∷ rest) values = close_idle rest (
    if (values v).waits == 0
    then set_value values v (record (values v) { closed = true })
    else values)

unfoldable pub sweep : Kmutex → Kmutex
unfolding sweep_keys close_idle
sweep m = record m { keys = sweep_keys m.values m.keys; values = close_idle m.keys m.values }
