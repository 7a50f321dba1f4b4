-- ===== src/Filters/Tests.antt =====
-- Runs of the filters, and the theorem at a concrete input.
use pouch.Prelude.{
  ◌≡◌, refl, false, [], ◌∷◌, Text, str, text_eq, Dict, lookup, insert, erase, split2, trim_space,
  contains_char,
}
use pouch.Filters.{Args, add, del, exact_match, parse_flag, from_filter_opts}

abbrev labels : Dict Text
labels = (str "env", str "test") ∷ (str "tier", str "db") ∷ []

abbrev by_env : Args
by_env = add (str "label") (str "env=test") []

flags_parse :
    from_filter_opts (λ c. c) (str "label=env=test" ∷ str "name" ∷ []) [] ≡ (false, by_env)
unfolding from_filter_opts parse_flag contains_char split2 trim_space add lookup insert
flags_parse = refl

deleted : del (str "label") (str "env=test") by_env ≡ []
unfolding del add lookup insert erase text_eq
deleted = refl

exact_other : exact_match (str "label") (str "env") by_env ≡ false
unfolding exact_match add lookup insert text_eq
exact_other = refl
