-- ===== src/Kmutex/Tests.antt =====
-- Runs of the keyed mutex, and the theorems at concrete inputs.
use pouch.Prelude.{◌≡◌, refl, ◌≤◌, true, false, str, text_eq, lookup, insert, []}
use pouch.Kmutex.{new, trylock, enter, wake, unlock, sweep}
use pouch.Kmutex.World.{World, start, next, tries, enters, after_try, after_enter}
use pouch.Kmutex.Progress.{Served, reach-Served}
use pouch.Kmutex.Exclusion.{exclusive, sweep_breaks_exclusion}

abbrev first : World
first = after_try (str "web") (record { m = new; holds = λ _. 0; waiting = [] })

second_refused : (trylock (str "web") first.m).0 ≡ false
unfolding trylock after_try new lookup insert text_eq
second_refused = refl

handed_over : (wake 0 (unlock (str "web") (enter (str "web") first.m).1)).0 ≡ true
unfolding trylock enter wake unlock after_try new lookup insert text_eq
handed_over = refl

exclusive_example : (after_enter (str "web") first).holds (str "web") ≤ 1
exclusive_example =
    exclusive (next (next start (tries _ (str "web"))) (enters _ (str "web"))) (str "web")

sweep_breaks_exclusion_example :
    ((trylock (str "web") new).0 ≡ true)
    × ((trylock (str "web") (sweep (trylock (str "web") new).1)).0 ≡ true)
unfolding new lookup
sweep_breaks_exclusion_example = sweep_breaks_exclusion (str "web") new refl

reach-Served_example : Served (after_enter (str "web") (after_enter (str "web") first))
reach-Served_example =
    reach-Served
      (next (next (next start (tries _ (str "web"))) (enters _ (str "web"))) (enters _ (str "web")))
