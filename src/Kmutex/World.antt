-- ===== src/Kmutex/World.antt =====
-- The callers of a mutex and their steps: who holds and who waits for a key (kmutex.go).
use pouch.Prelude.{
  ℕ, suc, ◌-◌, ◌<◌, ◌≡◌, true, none, some, [], ◌∷◌, ◌++◌, Text, text_eq, Dict, if◌then◌else◌,
}
use pouch.Kmutex.{Kmutex, new, trylock, enter, wake, time_out, unlock}

-- A mutex, how many callers hold each key, and the callers that wait for one.
pub record World : Type 0 where
  pub m : Kmutex
  pub holds : Text → ℕ
  pub waiting : Dict ℕ

abbrev pub gain : Text → (Text → ℕ) → Text → ℕ
gain k f j = if text_eq k j then suc (f j) else f j

abbrev pub lose : Text → (Text → ℕ) → Text → ℕ
lose k f j = if text_eq k j then f j - 1 else f j

unfoldable pub after_try : Text → World → World
after_try k w =
    let r = trylock k w.m in record w { m = r.1; holds = if r.0 then gain k w.holds else w.holds }

unfoldable pub after_enter : Text → World → World
after_enter k w =
    let r = enter k w.m in
    elim r.0 [
      | none ↦ record w { m = r.1; holds = gain k w.holds }
      | some v ↦ record w { m = r.1; waiting = (k, v) ∷ w.waiting }
    ]

-- One step of any caller. Only a holder unlocks.
pub data Step : World → World → Type 0 where
  tries : (w : World) (k : Text) → Step w (after_try k w)
  enters : (w : World) (k : Text) → Step w (after_enter k w)
  wakes :
      (w : World) (k : Text) (v : ℕ) (before after : Dict ℕ)
      → w.waiting ≡ before ++ (k, v) ∷ after
      → (wake v w.m).0 ≡ true
      → Step w (record { m = (wake v w.m).1; holds = gain k w.holds; waiting = before ++ after })
  times_out :
      (w : World) (k : Text) (v : ℕ) (before after : Dict ℕ)
      → w.waiting ≡ before ++ (k, v) ∷ after
      → Step w (record w { m = time_out v w.m; waiting = before ++ after })
  unlocks :
      (w : World) (k : Text)
      → 0 < w.holds k
      → Step w (record w { m = unlock k w.m; holds = lose k w.holds })

pub data Reach : World → Type 0 where
  start : Reach (record { m = new; holds = λ _. 0; waiting = [] })
  next : {w u : World} → Reach w → Step w u → Reach u
