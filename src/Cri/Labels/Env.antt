-- ===== src/Cri/Labels/Env.antt =====
-- The environment of a container of the CRI service, as text and read again.
use pouch.Prelude.{
  ℕ, ◌≡◌, refl, ap, ◌∙◌, false, List, [], ◌∷◌, ◌++◌, Text, contains_char, split2, arith, All,
}
use pouch.Cri.Labels.{key_value, generate_env_list, parse_envs_from_pouch}

split2-around :
    (c : ℕ) (k v : Text) → contains_char c k ≡ false → split2 c (k ++ c ∷ v) ≡ k ∷ v ∷ []
unfolding split2 contains_char
split2-around c [] v h = ground arith
split2-around c (x ∷ k) v h = ground (arith, h, split2-around c k v)

-- The environment that `generateEnvList` makes of keys without = is read by `parseEnvsFromPouch` as it was.
pub parse_envs_from_pouch-generate_env_list :
    (envs : List (Text × Text))
    → All (λ e. contains_char 61 e.0 ≡ false) envs
    → parse_envs_from_pouch (generate_env_list envs) ≡ envs
unfolding parse_envs_from_pouch generate_env_list
parse_envs_from_pouch-generate_env_list [] h = refl
parse_envs_from_pouch-generate_env_list ((k, v) ∷ envs) (h, hs) =
    ap (λ p. key_value p ∷ parse_envs_from_pouch (generate_env_list envs)) (split2-around 61 k v h)
    ∙ ap (λ es. (k, v) ∷ es) (parse_envs_from_pouch-generate_env_list envs hs)
