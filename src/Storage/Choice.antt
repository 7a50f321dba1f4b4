-- ===== src/Storage/Choice.antt =====
-- Which quota container_storage.go's `prepareQuotaMap` chooses for a mount point.
use pouch.Prelude.{
  ◌≡◌, Bool, Bool-cases, Option-cases, inl, inr, true, false, not, ◌&&◌, ◌||◌, Option, none, some,
  [], ◌∷◌, ◌++◌, Text, str, text_eq, split, contains_char, Dict, All, arith, if◌then◌else◌,
}
use pouch.Storage.Services.{Mount}
use pouch.Storage.Places.{is_in}
use pouch.Storage.Quotas.{QMap, map_of, choose}

-- an expression that lists the destination, or that finds all of it and is not the one for all paths
abbrev pub is_chosen : (Text → Text → Option Text) → Text → Text → Bool
is_chosen find d exp = if contains_char 38 exp then is_in d (split 38 exp) else elim (find exp d) [
  | none ↦ false
  | some found ↦ text_eq found d && not (text_eq exp (str ".*"))
]

-- an expression that does neither, but compiles if it is a regular expression
abbrev pub is_passed : (Text → Text → Option Text) → Text → Text → Bool
is_passed find d exp =
    if contains_char 38 exp then not (is_in d (split 38 exp)) else elim (find exp d) [
      | none ↦ false
      | some found ↦ not (text_eq found d) || text_eq exp (str ".*")
    ]

abbrev pub chosen_map : Mount → Text → Text → QMap
chosen_map m exp size = map_of m (if contains_char 38 exp then exp else []) size

chosen-turn :
    (find : Text → Text → Option Text) (m : Mount) (exp size : Text) (after : Dict Text)
    (qm : Option QMap)
    → is_chosen find m.destination exp ≡ true
    → choose find ((exp, size) ∷ after) m qm ≡ some (some (chosen_map m exp size))
unfolding choose
chosen-turn find m exp size after qm h = elim (Bool-cases (contains_char 38 exp)) [
  | inl a ↦ ground (arith, a, h)
  | inr a ↦ elim (Option-cases (find exp m.destination)) [
    | inl f ↦ absurd (ground (arith, a, f, h))
    | inr (found, f) ↦ ground (arith, a, f, h)
  ]
]

passed-turn :
    (find : Text → Text → Option Text) (m : Mount) (exp size : Text) (after : Dict Text)
    (qm : Option QMap) (r : Option (Option QMap))
    → is_passed find m.destination exp ≡ true
    → ((q : Option QMap) → choose find after m q ≡ r)
    → choose find ((exp, size) ∷ after) m qm ≡ r
unfolding choose
passed-turn find m exp size after qm r h k = elim (Bool-cases (contains_char 38 exp)) [
  | inl a ↦ ground (arith, a, h, k qm)
  | inr a ↦ elim (Option-cases (find exp m.destination)) [
    | inl f ↦ absurd (ground (arith, a, f, h))
    | inr (found, f) ↦ ground (arith, a, f, h, k qm, k (some (map_of m [] size)))
  ]
]

-- A quota whose expression is chosen for a mount point is the one that the mount point gets, before any
-- others and behind any whose expressions are not chosen and, if they are regular expressions, compile:
-- among such quotas the order in which Go runs through the map does not matter, nor does an expression
-- for all paths.
pub choose-is_chosen :
    (find : Text → Text → Option Text) (m : Mount) (exp size : Text) (before after : Dict Text)
    (qm : Option QMap)
    → is_chosen find m.destination exp ≡ true
    → All (λ q. is_passed find m.destination q.0 ≡ true) before
    → choose find (before ++ (exp, size) ∷ after) m qm ≡ some (some (chosen_map m exp size))
choose-is_chosen find m exp size [] after qm h k = chosen-turn find m exp size after qm h
choose-is_chosen find m exp size ((e, s) ∷ before) after qm h (k, ks) =
    passed-turn find m e s (before ++ (exp, size) ∷ after) qm _ k
      (λ q. choose-is_chosen find m exp size before after q h ks)
