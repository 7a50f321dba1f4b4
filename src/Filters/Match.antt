-- ===== src/Filters/Match.antt =====
-- A filter that is added narrows what matches, by just its own test.
use pouch.Prelude.{
  ◌≡◌, refl, Bool, true, false, not, ◌&&◌, Bool-cases, Option-cases, inl, inr, [], ◌∷◌, Text,
  text_eq, text_eq_iff, text_eq_refl, Dict, lookup, insert, lookup-insert, arith,
}
use pouch.Filters.{Args, is_nil, or_nil, add, pair_holds, all_hold, match_kv_list}

all_hold-insert :
    (sources : Dict Text) (value : Text) (d : Dict Bool)
    → all_hold sources (insert value true d) ≡ (pair_holds sources value && all_hold sources d)
unfolding insert
all_hold-insert sources value [] = refl
all_hold-insert sources value ((v, b) ∷ d) = elim (Bool-cases (text_eq v value)) [
  | inl e ↦
      let same : pair_holds sources v ≡ pair_holds sources value =
        ground (arith, e, text_eq_iff v value) in
      ground (arith, e, same)
  | inr e ↦ ground (arith, e, all_hold-insert sources value d)
]

insert-is_nil : (value : Text) (d : Dict Bool) → is_nil (insert value true d) ≡ false
unfolding insert
insert-is_nil value [] = refl
insert-is_nil value ((v, b) ∷ d) = ground arith

one : (value : Text) → insert value true [] ≡ (value, true) ∷ []
unfolding insert
one value = refl

-- the values of a key after one is added to it
added :
    (key value : Text) (args : Args)
    → or_nil (lookup key (add key value args)) ≡ insert value true (or_nil (lookup key args))
unfolding add
added key value args = elim (Option-cases (lookup key args)) [
  | inl e ↦
      ground
        (arith, e, lookup-insert key key ((value, true) ∷ []) args, text_eq_refl key, one value)
  | inr (d, e) ↦
      ground (arith, e, lookup-insert key key (insert value true d) args, text_eq_refl key)
]

-- After a filter is added to a key, what matches there is what matched before, has a source, and has the
-- pair of the new filter.
pub match_kv_list-add :
    (key value : Text) (sources : Dict Text) (args : Args)
    → match_kv_list key sources (add key value args)
      ≡ (not (is_nil sources) && pair_holds sources value && match_kv_list key sources args)
unfolding match_kv_list
match_kv_list-add key value sources args =
    let values = or_nil (lookup key args) in
    rw (added key value args)
      (ground (arith, insert-is_nil value values, all_hold-insert sources value values))
