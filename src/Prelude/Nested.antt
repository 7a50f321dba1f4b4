-- ===== src/Prelude/Nested.antt =====
-- Go maps of maps, `map[string]map[string]V`: a missing inner map reads as an empty one.
use mathlib.Core.Path.{◌≡◌}
use mathlib.Core.Logic.{inl, inr}
use mathlib.Core.Bool.{◌&&◌}
use mathlib.Core.List.{[]}
use mathlib.Core.Option.{Option, none, some}
use native.Mathlib.Omega.{arith}
use pouch.Prelude.Tests.{Option-cases, if◌then◌else◌}
use pouch.Prelude.Strings.{Text, text_eq, text_eq_iff}
use pouch.Prelude.Maps.{Dict, lookup, insert, erase, lookup-insert, lookup-erase, lookup-nil}

module _ {ℓ} {V : Type ℓ} where
  abbrev pub or_nil : Option (Dict V) → Dict V
  or_nil none = []
  or_nil (some d) = d

  -- m[k], where nil reads as the empty map
  unfoldable pub inner : Text → Dict (Dict V) → Dict V
  inner k m = or_nil (lookup k m)

  -- if m[k] == nil { m[k] = make(...) }; m[k][j] = v
  unfoldable pub insert_in : Text → Text → V → Dict (Dict V) → Dict (Dict V)
  insert_in k j v m = insert k (insert j v (inner k m)) m

  -- delete(m[k], j)
  unfoldable pub erase_in : Text → Text → Dict (Dict V) → Dict (Dict V)
  erase_in k j m = elim (lookup k m) [ none ↦ m | some d ↦ insert k (erase j d) m ]

  pub lookup-insert_in :
      (k j k' j' : Text) (v : V) (m : Dict (Dict V))
      → lookup j' (inner k' (insert_in k j v m))
        ≡ (if text_eq k k' && text_eq j j' then some v else lookup j' (inner k' m))
  unfolding inner insert_in
  lookup-insert_in k j k' j' v m = ground (
    arith,
    lookup-insert k k' (insert j v (or_nil (lookup k m))) m,
    lookup-insert j j' v (or_nil (lookup k m)),
    text_eq_iff k k',
  )

  pub lookup-erase_in :
      (k j k' j' : Text) (m : Dict (Dict V))
      → lookup j' (inner k' (erase_in k j m))
        ≡ (if text_eq k k' && text_eq j j' then none else lookup j' (inner k' m))
  unfolding inner erase_in
  lookup-erase_in k j k' j' m = elim (Option-cases (lookup k m)) [
    | inl e ↦ ground (arith, e, text_eq_iff k k', lookup-nil {V = V} j')
    | inr (d, e) ↦
        ground (arith, e, lookup-insert k k' (erase j d) m, lookup-erase j j' d, text_eq_iff k k')
  ]

  -- a map whose inner map is deleted as a whole
  pub lookup-inner-erase :
      (k k' j' : Text) (m : Dict (Dict V))
      → lookup j' (inner k' (erase k m)) ≡ (if text_eq k k' then none else lookup j' (inner k' m))
  unfolding inner
  lookup-inner-erase k k' j' m = ground (arith, lookup-erase k k' m, lookup-nil {V = V} j')
