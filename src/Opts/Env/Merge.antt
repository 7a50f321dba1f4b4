-- ===== src/Opts/Env/Merge.antt =====
-- What an environment is after a merge.
use pouch.Prelude.{
  ◌≡◌, refl, ◌≢◌, Bool, true, false, Bool-cases, Option-cases, inl, inr, ◌⊎◌, Option, none, some,
  List, [], ◌∷◌, ◌++◌, Text, text_eq, Dict, lookup, insert, lookup-insert, lookup-erase, split2,
  split2-cases, contains_char, ◌&&◌, ℕ, trim_space, is_empty, if◌then◌else◌, arith,
}
use pouch.Opts.Env.{
  parse_env, parse_envs, add_envs, valid_map_envs_to_slice, merge_fields, merge_envs, merged,
  invalid, merge_env_slice,
}

-- An environment setting that parses is the trimmed text itself, and it has a key.
pub parse_env-trim_space :
    (s r : Text)
    → parse_env s ≡ some r
    → (r ≡ trim_space s) × (is_empty r ≡ false) × ((value : Text) → r ≢ 61 ∷ value)
unfolding parse_env
parse_env-trim_space s r h =
    let env = trim_space s in
    elim (Bool-cases (is_empty env)) [
      | inl b ↦ ground (arith, b, h)
      | inr b ↦ elim (split2-cases 61 env) [
        | inl (e, n) ↦
            (ground (arith, b, e, h), ground (arith, b, e, h), λ value. ground (arith, b, e, h, n))
        | inr (f, g, (e, j, n)) ↦ (
          ground (arith, b, e, h, j),
          ground (arith, b, e, h, j),
          λ value. ground (arith, b, e, h, j),
        )
      ]
    ]

-- what one new setting says of a key: nothing, that it goes, or its value
abbrev said : Text → List Text → Option (Option Text)
said k [] = none
said k (key ∷ []) = if text_eq key k then some none else none
said k (key ∷ value ∷ _) = if text_eq key k then some (some value) else none

-- what the last of the new settings that names the key says of it
unfoldable pub last_said : Text → List Text → Option (Option Text)
unfolding split2
last_said k [] = none
last_said k (env ∷ envs) = elim (last_said k envs) [
  | some v ↦ some v
  | none ↦ said k (split2 61 env)
]

merge_fields-lookup :
    (env k : Text) (m : Dict Text)
    → lookup k (merge_fields env (split2 61 env) m)
      ≡ (elim (said k (split2 61 env)) [ none ↦ lookup k m | some v ↦ v ])
merge_fields-lookup env k m = elim (split2-cases 61 env) [
  | inl (e, n) ↦ rw e (ground (arith, lookup-erase env k m))
  | inr (f, g, (e, j, n)) ↦ rw e (ground (arith, lookup-insert f k g m))
]

-- After the merge a key has the value that the last new setting that names it gives it, or none if that
-- setting is the key alone, and its old value if no new setting names it.
pub merge_envs-lookup :
    (envs : List Text) (k : Text) (m : Dict Text)
    → lookup k (merge_envs envs m) ≡ (elim (last_said k envs) [ none ↦ lookup k m | some v ↦ v ])
unfolding merge_envs last_said
merge_envs-lookup [] k m = refl
merge_envs-lookup (env ∷ envs) k m = ground (
  arith,
  merge_fields-lookup env k m,
  merge_envs-lookup envs k (merge_fields env (split2 61 env) m),
)

-- every setting has a separator
abbrev pub all_full : List Text → Bool
all_full [] = true
all_full (env ∷ envs) = contains_char 61 env && all_full envs

add_envs_full : (envs : List Text) (m : Dict Text) → all_full envs ≡ true → add_envs envs m ≢ none
unfolding add_envs
add_envs_full [] m h = cc
add_envs_full (env ∷ envs) m h = elim (split2-cases 61 env) [
  | inl (e, n) ↦ ground (arith, h, n)
  | inr (f, g, (e, j, n)) ↦ rw (add_envs, e) (add_envs_full envs (insert f g m) (ground (arith, h)))
]

contains-append : (c : ℕ) (f g : Text) → contains_char c (f ++ c ∷ g) ≡ true
unfolding contains_char
contains-append c [] g = ground arith
contains-append c (x ∷ f) g = ground (arith, contains-append c f g)

to_slice_full : (m : Dict Text) → all_full (valid_map_envs_to_slice m) ≡ true
unfolding valid_map_envs_to_slice
to_slice_full [] = refl
to_slice_full ((k, v) ∷ m) = ground (arith, contains-append 61 k v, to_slice_full m)

-- A merge with new settings never panics if all parsed old settings have a value: it is refused, or
-- returns settings that all have a value, so that such a result can be merged into again.
pub merge_is_full :
    (env : Text) (new old olds : List Text)
    → parse_envs old ≡ some olds
    → all_full olds ≡ true
    → let r = merge_env_slice (env ∷ new) old in
      (r ≡ invalid) ⊎ ((envs : List Text) × (r ≡ merged envs) × (all_full envs ≡ true))
unfolding merge_env_slice
merge_is_full env new old olds p f = elim (Option-cases (parse_envs (env ∷ new))) [
  | inl e ↦ inl (ground (arith, p, e))
  | inr (news, e) ↦ elim (Option-cases (add_envs olds [])) [
    | inl a ↦ absurd (add_envs_full olds [] f a)
    | inr (m, a) ↦ inr (
      valid_map_envs_to_slice (merge_envs news m),
      ground (arith, p, e, a),
      to_slice_full (merge_envs news m),
    )
  ]
]
