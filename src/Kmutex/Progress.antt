-- ===== src/Kmutex/Progress.antt =====
-- Every caller that waits in `Lock` or `LockWithTimeout` of kmutex.go can get its key.
use pouch.Prelude.{
  ℕ, ◌<◌, ◌≤◌, ◌≡◌, ◌⊎◌, refl, subst, true, [], ◌∷◌, inl, inr, Text, text_eq_refl, Dict, arith, All,
}
use pouch.Kmutex.{Kmutex, wake, unlock}
use pouch.Kmutex.World.{World, gain, lose, wakes, unlocks, Reach, next}
use pouch.Kmutex.Invariant.{Waits}
use pouch.Kmutex.Invariant.Steps.{reach-Inv}
use pouch.Kmutex.Exclusion.{exclusive}

abbrev pub released : Text → World → World
released k w = record w { m = unlock k w.m; holds = lose k w.holds }

abbrev pub granted : Text → ℕ → Dict ℕ → World → World
granted k v waiting w = record { m = (wake v w.m).1; holds = gain k w.holds; waiting = waiting }

-- A run in which holders unlock and waiting callers get their keys, one after the other in the order of
-- the list, until nobody waits. No caller gives up.
pub data Served : World → Type 0 where
  nobody : (w : World) → w.waiting ≡ [] → Served w
  releases : (w : World) (k : Text) → 0 < w.holds k → Served (released k w) → Served w
  grants :
      (w : World) (k : Text) (v : ℕ) (rest : Dict ℕ)
      → w.waiting ≡ (k, v) ∷ rest
      → (wake v w.m).0 ≡ true
      → Served (granted k v rest w)
      → Served w

wake_full : (v : ℕ) (m : Kmutex) → (m.values v).full ≡ true → (wake v m).0 ≡ true
unfolding wake
wake_full v m f = ground arith

-- the first waiting caller gets its key if nobody holds it
wake_unheld :
    (w : World) (k : Text) (v : ℕ) (rest : Dict ℕ)
    → w.waiting ≡ (k, v) ∷ rest
    → w.holds k ≡ 0
    → Reach w
    → (wake v w.m).0 ≡ true
wake_unheld w k v rest e z r =
    let h = reach-Inv r in
    let here = (subst (All (Waits w.m.keys)) e h.queued).0 in
    wake_full v w.m (ground (arith, h.balance k v here))

lose_last : (k : Text) (f : Text → ℕ) → f k ≤ 1 → lose k f k ≡ 0
lose_last k f h = rw (text_eq_refl k) (omega arith)

zero_or_held : (n : ℕ) → (n ≡ 0) ⊎ (0 < n)
zero_or_held n = ground arith

-- the first waiting caller gets its key, and the others are served after it
module _ (k : Text) (v : ℕ) (rest : Dict ℕ)
    (others : (u : World) → u.waiting ≡ rest → Reach u → Served u) where
  grant : (w : World) → w.waiting ≡ (k, v) ∷ rest → w.holds k ≡ 0 → Reach w → Served w
  grant w e z r =
      let t = wake_unheld w k v rest e z r in
      grants w k v rest e t (others (granted k v rest w) refl (next r (wakes w k v [] rest e t)))

  release_and_grant : (w : World) → w.waiting ≡ (k, v) ∷ rest → Reach w → Served w
  release_and_grant w e r = elim (zero_or_held (w.holds k)) [
    | inl z ↦ grant w e z r
    | inr p ↦
        releases w k p
          (grant (released k w) e (lose_last k w.holds (exclusive r k)) (next r (unlocks w k p)))
  ]

served : (waiting : Dict ℕ) (w : World) → w.waiting ≡ waiting → Reach w → Served w
served [] w e r = nobody w e
served ((k, v) ∷ rest) w e r = release_and_grant k v rest (λ u e' r'. served rest u e' r') w e r

-- As long as the ticker does not fire, no waiting caller is stuck: from each state that the callers reach
-- there is a run in which those that wait get their keys one after the other, in the order of the list of
-- the waiting callers, with nothing but an `Unlock` of a key's holder in between, until nobody waits.
pub reach-Served : {w : World} → Reach w → Served w
reach-Served {w} r = served w.waiting w refl r
