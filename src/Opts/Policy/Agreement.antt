-- ===== src/Opts/Policy/Agreement.antt =====
-- How the parsers of the restart policy and the quotas agree with what validates and uses their results.
use pouch.Prelude.{
  ◌≡◌, ap, subst, refl, true, false, not, ◌&&◌, Bool-cases, ◌⊎◌, inl, inr, Option-cases, some, List,
  [], ◌∷◌, Text, str, text_eq, split, is_empty, arith,
}
use pouch.Prelude.Int.{pos}
use pouch.Opts.Policy.{
  atoi, RestartPolicy, is_plain, policy, policy_of, on_failure, parse_restart_policy, is_negative,
  validate_restart_policy,
}

-- the two fields of a policy that the switch gives
policy_of-cases :
    (name : Text) (fields : List Text) (p : RestartPolicy)
    → policy_of (name ∷ fields) ≡ some p
    → (p.name ≡ name)
      × (((is_plain name ≡ true) × (p.maximum_retry_count ≡ pos 0))
          ⊎ ((is_plain name ≡ false) × (text_eq name (str "on-failure") ≡ true)))
unfolding policy_of
policy_of-cases name fields p h = elim (Bool-cases (is_plain name)) [
  | inl b ↦ (ground (arith, b, h), inl (b, ground (arith, b, h)))
  | inr b ↦ elim (Bool-cases (text_eq name (str "on-failure"))) [
    | inr c ↦ absurd (ground (arith, b, c, h))
    | inl c ↦ (on_failure_name fields (ground (arith, b, c, h)), inr (b, c))
  ]
]
  where
    on_failure_name : (fields : List Text) → on_failure name fields ≡ some p → p.name ≡ name
    on_failure_name [] h = ground (arith, h)
    on_failure_name (count ∷ []) h = elim (Option-cases (atoi count)) [
      | inl e ↦ absurd (ground (arith, e, h))
      | inr (n, e) ↦ ground (arith, e, h)
    ]
    on_failure_name (_ ∷ _ ∷ _) h = cc

-- validation refuses just a negative number of retries
abbrev Agrees : RestartPolicy → Type 0
Agrees p =
    validate_restart_policy p
    ≡ not (text_eq p.name (str "on-failure") && is_negative p.maximum_retry_count)

no-Agrees : Agrees (policy (str "no") (pos 0))
unfolding validate_restart_policy text_eq
no-Agrees = refl

policy_of-validate :
    (fields : List Text) (p : RestartPolicy)
    → policy_of fields ≡ some p
    → validate_restart_policy p
      ≡ not (text_eq p.name (str "on-failure") && is_negative p.maximum_retry_count)
unfolding policy_of validate_restart_policy
policy_of-validate [] p h = cc
policy_of-validate (name ∷ fields) p h =
    let (n, r) = policy_of-cases name fields p h in
    elim r [
      | inl (b, z) ↦ ground (arith, ap is_plain n, b, z)
      | inr (b, c) ↦ ground (arith, ap is_plain n, b, c, ap (λ t. text_eq t (str "on-failure")) n)
    ]

-- A restart policy that parses is valid unless it is on-failure with a negative number of retries, which
-- the parser takes and the validation refuses; the number is zero for every other policy.
pub parse-validate :
    (s : Text) (p : RestartPolicy)
    → parse_restart_policy s ≡ some p
    → validate_restart_policy p
      ≡ not (text_eq p.name (str "on-failure") && is_negative p.maximum_retry_count)
unfolding parse_restart_policy
parse-validate s p h = elim (Bool-cases (is_empty s)) [
  | inl b ↦ subst Agrees (ground (arith, b, h)) no-Agrees
  | inr b ↦ policy_of-validate (split 58 s) p (ground (arith, b, h))
]
