-- ===== src/Kmutex/Invariant/Steps.antt =====
-- Every step of a caller keeps the invariant.
use pouch.Prelude.{
  ℕ, ◌+◌, ◌-◌, ◌<◌, ◌≡◌, refl, sym, true, false, none, some, List, [], ◌∷◌, ◌++◌, Text,
  Option-cases, text_eq_refl, subst, inl, inr, Bool-cases, Dict, lookup, arith, All,
}
use pouch.Kmutex.{Value, Kmutex, done_wait, trylock, enter, wake, time_out, unlock, set_value}
use pouch.Kmutex.World.{
  World, gain, lose, after_try, after_enter, Step, tries, enters, wakes, times_out, unlocks, Reach,
  start, next,
}
use pouch.Kmutex.Invariant.{Waits, Inv, start-Inv, created, created-Inv, changed, changed-Inv}

try_absent : (k : Text) (w : World) → lookup k w.m.keys ≡ none → after_try k w ≡ created k w
unfolding after_try trylock
try_absent k w a = ground arith

try_taken :
    (k : Text) (w : World) (v : ℕ)
    → lookup k w.m.keys ≡ some v
    → (w.m.values v).full ≡ false
    → (w.m.values v).closed ≡ false
    → after_try k w ≡ w
unfolding after_try trylock
try_taken k w v a f c = ground arith

abbrev emptied : World → ℕ → Value
emptied w v = record (w.m.values v) { full = false }

try_free :
    (k : Text) (w : World) (v : ℕ)
    → lookup k w.m.keys ≡ some v
    → (w.m.values v).full ≡ true
    → after_try k w ≡ changed w v (emptied w v) (gain k w.holds) w.waiting
unfolding after_try trylock
try_free k w v a f = ground arith

try-Inv : (k : Text) (w : World) → Inv w → Inv (after_try k w)
try-Inv k w h = elim (Option-cases (lookup k w.m.keys)) [
  | inl a ↦ subst Inv (sym (try_absent k w a)) (created-Inv k w a h)
  | inr a ↦ elim (Bool-cases (w.m.values a.0).full) [
    | inl f ↦ subst Inv (sym (try_free k w a.0 a.1 f)) (
        changed-Inv w k a.0 (emptied w a.0) (gain k w.holds) w.waiting a.1 (h.opened k a.0 a.1)
          (ground (arith, h.balance k a.0, text_eq_refl k)) (λ j ne. ground arith) h.queued h)
    | inr f ↦ subst Inv (sym (try_taken k w a.0 a.1 f (h.opened k a.0 a.1))) h
  ]
]

abbrev joined : World → ℕ → Value
joined w v = record (w.m.values v) { waits = (w.m.values v).waits + 1 }

enter_absent : (k : Text) (w : World) → lookup k w.m.keys ≡ none → after_enter k w ≡ created k w
unfolding after_enter enter
enter_absent k w a = ground arith

enter_present :
    (k : Text) (w : World) (v : ℕ)
    → lookup k w.m.keys ≡ some v
    → after_enter k w ≡ changed w v (joined w v) w.holds ((k, v) ∷ w.waiting)
unfolding after_enter enter
enter_present k w v a = ground arith

enter-Inv : (k : Text) (w : World) → Inv w → Inv (after_enter k w)
enter-Inv k w h = elim (Option-cases (lookup k w.m.keys)) [
  | inl a ↦ subst Inv (sym (enter_absent k w a)) (created-Inv k w a h)
  | inr a ↦ subst Inv (sym (enter_present k w a.0 a.1)) (
      changed-Inv w k a.0 (joined w a.0) w.holds ((k, a.0) ∷ w.waiting) a.1 (h.opened k a.0 a.1)
        (h.balance k a.0 a.1) (λ j ne. refl) (a.1, h.queued) h)
]

wake_free :
    (m : Kmutex) (v : ℕ)
    → (m.values v).closed ≡ false
    → (wake v m).0 ≡ true
    → ((m.values v).full ≡ true)
      × ((wake v m).1
          ≡ done_wait v
              (record m { values = set_value m.values v (record (m.values v) { full = false }) }))
unfolding wake
wake_free m v c t = elim (Bool-cases (m.values v).full) [
  | inl f ↦ (f, simp f)
  | inr f ↦ absurd (ground arith)
]

abbrev parted : World → ℕ → Value
parted w v = record (w.m.values v) { waits = (w.m.values v).waits - 1 }

-- the caller at this place of the waiting list waits for a key of the map
All-split {ℓ} :
    {A : Type ℓ} (P : A → Type 0) (xs : List A) (a : A) (ys : List A)
    → All P (xs ++ a ∷ ys)
    → P a × All P (xs ++ ys)
All-split P [] a ys h = h
All-split P (x ∷ xs) a ys h = let (p, q) = All-split P xs a ys h.1 in (p, (h.0, q))

time_out_lem : (v : ℕ) (m : Kmutex) → done_wait v m ≡ time_out v m
unfolding time_out
time_out_lem v m = refl

-- a caller that stops waiting
parted-Inv :
    (w : World) (k : Text) (v : ℕ) (waiting : Dict ℕ)
    → lookup k w.m.keys ≡ some v
    → All (Waits w.m.keys) waiting
    → Inv w
    → Inv (record w { m = done_wait v w.m; waiting = waiting })
unfolding done_wait
parted-Inv w k v waiting here q h =
    changed-Inv w k v (parted w v) w.holds waiting here (h.opened k v here) (h.balance k v here)
      (λ j ne. refl) q h

wake-Inv :
    (w : World) (k : Text) (v : ℕ) (before after : Dict ℕ)
    → w.waiting ≡ before ++ (k, v) ∷ after
    → (wake v w.m).0 ≡ true
    → Inv w
    → Inv (record { m = (wake v w.m).1; holds = gain k w.holds; waiting = before ++ after })
wake-Inv w k v before after e t h =
    let (here, others) =
      All-split (Waits w.m.keys) before (k, v) after (subst (All (Waits w.m.keys)) e h.queued) in
    let (f, p) = wake_free w.m v (h.opened k v here) t in
    subst (λ m. Inv (record { m = m; holds = gain k w.holds; waiting = before ++ after })) (sym p)
      (parted-Inv (changed w v (emptied w v) (gain k w.holds) (before ++ after)) k v
        (before ++ after) here others
        (changed-Inv w k v (emptied w v) (gain k w.holds) (before ++ after) here (h.opened k v here)
          (ground (arith, h.balance k v, text_eq_refl k)) (λ j ne. ground arith) others h))

unlock_held :
    (k : Text) (w : World) (v : ℕ)
    → lookup k w.m.keys ≡ some v
    → (w.m.values v).full ≡ false
    → unlock k w.m
      ≡ record w.m { values = set_value w.m.values v (record (w.m.values v) { full = true }) }
unfolding unlock
unlock_held k w v a f = ground arith

unlock-Inv :
    (w : World) (k : Text)
    → 0 < w.holds k
    → Inv w
    → Inv (record w { m = unlock k w.m; holds = lose k w.holds })
unlock-Inv w k held h = elim (Option-cases (lookup k w.m.keys)) [
  | inl a ↦ absurd (omega (arith, h.absent k a))
  | inr a ↦
      let v = a.0 in
      let f : (w.m.values v).full ≡ false = ground (arith, h.balance k v a.1) in
      subst (λ m. Inv (record w { m = m; holds = lose k w.holds })) (sym (unlock_held k w v a.1 f))
        (changed-Inv w k v (record (w.m.values v) { full = true }) (lose k w.holds) w.waiting a.1
          (h.opened k v a.1) (ground (arith, h.balance k v, text_eq_refl k)) (λ j ne. ground arith)
          h.queued h)
]

Step-Inv : {w u : World} → Step w u → Inv w → Inv u
Step-Inv (tries w k) h = try-Inv k w h
Step-Inv (enters w k) h = enter-Inv k w h
Step-Inv (wakes w k v before after e t) h = wake-Inv w k v before after e t h
Step-Inv (times_out w k v before after e) h =
    let (here, others) =
      All-split (Waits w.m.keys) before (k, v) after (subst (All (Waits w.m.keys)) e h.queued) in
    subst (λ m. Inv (record w { m = m; waiting = before ++ after })) (time_out_lem v w.m)
      (parted-Inv w k v (before ++ after) here others h)
Step-Inv (unlocks w k held) h = unlock-Inv w k held h

pub reach-Inv : {w : World} → Reach w → Inv w
reach-Inv start = start-Inv
reach-Inv (next r s) = Step-Inv s (reach-Inv r)
