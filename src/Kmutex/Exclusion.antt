-- ===== src/Kmutex/Exclusion.antt =====
-- Mutual exclusion: it holds among callers that unlock only what they hold, as long as the ticker does not
-- fire, and fails when it does.
use pouch.Prelude.{
  ℕ, ◌≤◌, ◌≡◌, true, none, [], ◌∷◌, Text, Option-cases, inl, inr, Dict, lookup, insert, arith,
}
use pouch.Kmutex.{Value, Kmutex, trylock, sweep, sweep_keys, fresh, set_value}
use pouch.Kmutex.World.{World, Reach}
use pouch.Kmutex.Invariant.Steps.{reach-Inv}

-- As long as the ticker does not fire and only a caller that holds a key unlocks it, no key is ever held
-- by two callers, in whatever order they try, wait, time out, get and unlock keys. (`Unlock` does not check
-- who calls it.)
pub exclusive : {w : World} → Reach w → (k : Text) → w.holds k ≤ 1
exclusive {w} r k = elim (Option-cases (lookup k w.m.keys)) [
  | inl a ↦ omega (arith, (reach-Inv r).absent k a)
  | inr a ↦ omega (arith, (reach-Inv r).balance k a.0 a.1)
]

-- No deadlock by a lost token: a key that nobody holds can be taken at once.
pub trylock_free : {w : World} → Reach w → (k : Text) → w.holds k ≡ 0 → (trylock k w.m).0 ≡ true
unfolding trylock
trylock_free {w} r k z = elim (Option-cases (lookup k w.m.keys)) [
  | inl a ↦ ground arith
  | inr a ↦ ground (arith, (reach-Inv r).balance k a.0 a.1)
]

sweep-drops :
    (k : Text) (v : ℕ) (values : ℕ → Value) (keys : Dict ℕ)
    → lookup k keys ≡ none
    → (values v).waits ≡ 0
    → lookup k (sweep_keys values (insert k v keys)) ≡ none
unfolding sweep_keys lookup insert
sweep-drops k v values [] a z = ground arith
sweep-drops k v values ((j, u) ∷ rest) a z = ground (arith, sweep-drops k v values rest)

trylock_absent : (k : Text) (m : Kmutex) → lookup k m.keys ≡ none → (trylock k m).0 ≡ true
unfolding trylock
trylock_absent k m a = ground arith

swept :
    (k : Text) (m : Kmutex) → lookup k m.keys ≡ none → lookup k (sweep (trylock k m).1).keys ≡ none
unfolding sweep trylock
swept k m a = ground (arith, sweep-drops k m.next (set_value m.values m.next fresh) m.keys)

-- One tick while the first holder of a key has nobody waiting, and a second caller gets the key too.
pub sweep_breaks_exclusion :
    (k : Text) (m : Kmutex)
    → lookup k m.keys ≡ none
    → ((trylock k m).0 ≡ true) × ((trylock k (sweep (trylock k m).1)).0 ≡ true)
sweep_breaks_exclusion k m a =
    (trylock_absent k m a, trylock_absent k (sweep (trylock k m).1) (swept k m a))
