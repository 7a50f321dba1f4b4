-- ===== src/Filters.antt =====
-- apis/filters/parse.go: the arguments of filters and what they match. `unicode.ToLower` of a code point
-- is the argument `lower`.
pub mod Match
mod Tests
use pouch.Prelude.{
  ℕ, Bool, true, false, not, ◌&&◌, Option, none, some, List, [], ◌∷◌, map, Text, text_eq, Dict,
  lookup, insert, erase, is_empty, contains_char, split2, trim_space, if◌then◌else◌,
}

-- `Args`
abbrev pub Args : Type 0
Args = Dict (Dict Bool)

abbrev pub is_nil : {V : Type 0} → Dict V → Bool
is_nil [] = true
is_nil (_ ∷ _) = false

abbrev pub or_nil : Option (Dict Bool) → Dict Bool
or_nil none = []
or_nil (some d) = d

-- `Contains`
unfoldable pub contains : Text → Args → Bool
contains field args = elim (lookup field args) [ none ↦ false | some _ ↦ true ]

abbrev keys : Dict Bool → List Text
keys [] = []
keys ((k, _) ∷ d) = k ∷ keys d

-- `Get`
unfoldable pub get_values : Text → Args → List Text
get_values key args = keys (or_nil (lookup key args))

-- `Add`
unfoldable pub add : Text → Text → Args → Args
add key value args = elim (lookup key args) [
  | some values ↦ insert key (insert value true values) args
  | none ↦ insert key ((value, true) ∷ []) args
]

-- `Del`
unfoldable pub del : Text → Text → Args → Args
del key value args = elim (lookup key args) [
  | none ↦ args
  | some values ↦
      if is_nil (erase value values) then erase key args else insert key (erase value values) args
]

abbrev pub or_false : Option Bool → Bool
or_false none = false
or_false (some b) = b

abbrev pub exact_in : Text → Dict Bool → Bool
exact_in source values = if is_nil values then true else or_false (lookup source values)

-- `ExactMatch`
unfoldable pub exact_match : Text → Text → Args → Bool
exact_match field source args = exact_in source (or_nil (lookup field args))

-- the fields of one filter against the sources
abbrev pub fields_hold : List Text → Dict Text → Bool
fields_hold [] sources = false
fields_hold (k ∷ []) sources = elim (lookup k sources) [ none ↦ false | some _ ↦ true ]
fields_hold (k ∷ v ∷ _) sources = elim (lookup k sources) [ none ↦ false | some w ↦ text_eq v w ]

-- the body of the loop of `MatchKVList`: whether the sources have the pair `value`
unfoldable pub pair_holds : Dict Text → Text → Bool
pair_holds sources value = fields_hold (split2 61 value) sources

abbrev pub all_hold : Dict Text → Dict Bool → Bool
all_hold sources [] = true
all_hold sources ((value, _) ∷ values) = pair_holds sources value && all_hold sources values

abbrev pub kv_in : Dict Text → Dict Bool → Bool
kv_in sources values =
    if is_nil values then true else if is_nil sources then false else all_hold sources values

-- `MatchKVList`
unfoldable pub match_kv_list : Text → Dict Text → Args → Bool
match_kv_list key sources args = kv_in sources (or_nil (lookup key args))

-- `Validate`: the first key that is not accepted
unfoldable pub validate : Dict Bool → Args → Option Text
validate accepted [] = none
validate accepted ((name, _) ∷ args) =
    let rest = validate accepted args in if or_false (lookup name accepted) then rest else some name

abbrev add_fields : (ℕ → ℕ) → List Text → Args → Args
add_fields lower [] prev = prev
add_fields lower (name ∷ []) prev = prev
add_fields lower (name ∷ value ∷ _) prev = add (map lower (trim_space name)) (trim_space value) prev

-- `ParseFlag`: whether the format is good, and the arguments
unfoldable pub parse_flag : (ℕ → ℕ) → Text → Args → Bool × Args
parse_flag lower arg prev =
    if is_empty arg
    then (true, prev)
    else if not (contains_char 61 arg)
    then (false, prev)
    else (true, add_fields lower (split2 61 arg) prev)

-- `FromFilterOpts`
unfoldable pub from_filter_opts : (ℕ → ℕ) → List Text → Args → Bool × Args
from_filter_opts lower [] args = (true, args)
from_filter_opts lower (f ∷ filter) args =
    let next = from_filter_opts lower filter (parse_flag lower f args).1 in
    if (parse_flag lower f args).0 then next else parse_flag lower f args
