-- ===== src/Cri/Security/Refused.antt =====
-- Which security contexts of the kubelet are refused.
use pouch.Prelude.{
  ◌≡◌, refl, ap, ◌∙◌, ◌⊎◌, Bool, Bool-cases, inl, inr, true, false, not, ◌||◌, Option, none, some,
  ℕ, zero, suc, ◌+◌, ◌/◌, ◌%◌, arith, List, [], ◌∷◌, Text, str, text_eq, has_prefix, is_empty,
  if◌then◌else◌,
}
use pouch.Prelude.Int.{ℤ, pos, negsuc}
use pouch.Prelude.Decimal.{decimal_before, format_uint}
use pouch.Prelude.Task.{Outcome, done, raised, ◌>>=◌}
use pouch.Cri.Security.{
  SecurityContext, CreateConfig, Err, group_without_user, seccomp_not_local, apparmor_not_local,
  local_prefix, get_app_armor_security_opts, get_seccomp_security_opts, int_text, format_int,
  user_text, group_text, apply_container_security_context,
}

abbrev pub is_accepted_seccomp : Text → Bool
is_accepted_seccomp p =
    is_empty p
    || text_eq p (str "unconfined")
    || text_eq p (str "docker/default")
    || text_eq p (str "runtime/default")
    || has_prefix local_prefix p

abbrev pub is_accepted_app_armor : Text → Bool
is_accepted_app_armor p =
    is_empty p
    || text_eq p (str "runtime/default")
    || text_eq p (str "unconfined")
    || has_prefix local_prefix p

-- what the context is refused for, if it is refused
abbrev pub verdict : Bool → Bool → Bool → Outcome Err (Unit {0})
verdict false seccomp app_armor = raised group_without_user
verdict true false app_armor = raised seccomp_not_local
verdict true true false = raised apparmor_not_local
verdict true true true = done tt

abbrev is_given : Option (List Text) → Bool
is_given none = false
is_given (some _) = true

four_ways :
    (a b c d e : Bool) (x y z : List Text)
    → is_given
        (if a || b then some x else if c || d then some y else if not e then none else some z)
      ≡ (a || b || c || d || e)
four_ways true b c d e x y z = refl
four_ways false true c d e x y z = refl
four_ways false false true d e x y z = refl
four_ways false false false true e x y z = refl
four_ways false false false false true x y z = refl
four_ways false false false false false x y z = refl

three_ways :
    (a b c d : Bool) (x y z : List Text)
    → is_given (if a || b then some x else if c then some y else if not d then none else some z)
      ≡ (a || b || c || d)
three_ways true b c d x y z = refl
three_ways false true c d x y z = refl
three_ways false false true d x y z = refl
three_ways false false false true x y z = refl
three_ways false false false false x y z = refl

given-cases :
    (o : Option (List Text))
    → ((is_given o ≡ true) × (x : List Text) × (o ≡ some x)) ⊎ ((is_given o ≡ false) × (o ≡ none))
given-cases none = inr (refl, refl)
given-cases (some x) = inl (refl, x, refl)

seccomp-is_given : (p : Text) → is_given (get_seccomp_security_opts p) ≡ is_accepted_seccomp p
unfolding get_seccomp_security_opts
seccomp-is_given p =
    four_ways (is_empty p) (text_eq p (str "unconfined")) (text_eq p (str "docker/default"))
      (text_eq p (str "runtime/default")) (has_prefix local_prefix p) _ _ _

app_armor-is_given : (p : Text) → is_given (get_app_armor_security_opts p) ≡ is_accepted_app_armor p
unfolding get_app_armor_security_opts
app_armor-is_given p =
    three_ways (is_empty p) (text_eq p (str "runtime/default")) (text_eq p (str "unconfined"))
      (has_prefix local_prefix p) _ _ _

user-verdict :
    (sc : SecurityContext) (id : Text) (s : CreateConfig)
    → (apply_container_security_context (some sc) id s).0
      ≡ verdict
          (not (is_empty (user_text sc)) || is_empty (group_text sc))
          (is_given (get_seccomp_security_opts sc.seccomp_profile_path))
          (is_given (get_app_armor_security_opts sc.apparmor_profile))
unfolding apply_container_security_context ◌>>=◌
user-verdict sc id s =
    elim (Bool-cases (not (is_empty (user_text sc)) || is_empty (group_text sc))) [
      | inr b ↦ rw b refl
      | inl b ↦ elim (given-cases (get_seccomp_security_opts sc.seccomp_profile_path)) [
        | inr (g, e) ↦ rw (b, g, e) refl
        | inl (g, o, e) ↦ elim (given-cases (get_app_armor_security_opts sc.apparmor_profile)) [
          | inr (k, f) ↦ rw (b, g, k, e, f) refl
          | inl (k, q, f) ↦ rw (b, g, k, e, f) refl
        ]
      ]
    ]

abbrev is_there : Option ℤ → Bool
is_there none = false
is_there (some _) = true

-- whether the context names a user, by number or by name, or names no group
abbrev pub has_user_or_no_group : SecurityContext → Bool
has_user_or_no_group sc =
    is_there sc.run_as_user || not (is_empty sc.run_as_username) || not (is_there sc.run_as_group)

decimal_before-full :
    (fuel n x : ℕ) (rest : Text) → is_empty (decimal_before fuel n (x ∷ rest)) ≡ false
unfolding decimal_before
decimal_before-full zero n x rest = refl
decimal_before-full (suc fuel) n x rest =
    ground (arith, decimal_before-full fuel (n / 10) (48 + n % 10) (x ∷ rest))

format_uint-full : (n : ℕ) → is_empty (format_uint n) ≡ false
unfolding format_uint decimal_before
format_uint-full n = ground (arith, decimal_before-full 19 (n / 10) (48 + n % 10) [])

int_text-is_empty : (o : Option ℤ) → is_empty (int_text o) ≡ not (is_there o)
unfolding format_int
int_text-is_empty none = refl
int_text-is_empty (some (pos n)) = format_uint-full n
int_text-is_empty (some (negsuc n)) = refl

names_user :
    (sc : SecurityContext)
    → (not (is_empty (user_text sc)) || is_empty (group_text sc)) ≡ has_user_or_no_group sc
names_user sc = ground (arith, int_text-is_empty sc.run_as_user, int_text-is_empty sc.run_as_group)

-- What `applyContainerSecurityContext` answers to a context: an error if it has a group and neither
-- the number nor the name of a user, else
-- one if its seccomp profile is not empty, unconfined, one of the two defaults or a file of the host, else
-- one if its AppArmor profile is not empty, unconfined, the default of the runtime or a file of the
-- host, and no error otherwise, whatever the configuration is.
pub apply_container_security_context-verdict :
    (sc : SecurityContext) (id : Text) (s : CreateConfig)
    → (apply_container_security_context (some sc) id s).0
      ≡ verdict
          (has_user_or_no_group sc)
          (is_accepted_seccomp sc.seccomp_profile_path)
          (is_accepted_app_armor sc.apparmor_profile)
apply_container_security_context-verdict sc id s =
    user-verdict sc id s
    ∙ ap
        (λ b.
          verdict b (is_given (get_seccomp_security_opts sc.seccomp_profile_path))
            (is_given (get_app_armor_security_opts sc.apparmor_profile)))
        (names_user sc)
    ∙ ap
        (verdict (has_user_or_no_group sc)
          (is_given (get_seccomp_security_opts sc.seccomp_profile_path)))
        (app_armor-is_given sc.apparmor_profile)
    ∙ ap (λ b. verdict (has_user_or_no_group sc) b (is_accepted_app_armor sc.apparmor_profile))
        (seccomp-is_given sc.seccomp_profile_path)
