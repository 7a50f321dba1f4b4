-- ===== src/Opts/Policy.antt =====
-- apis/opts/restart_policy.go and diskquota.go, with strconv.Atoi.
pub mod Agreement
pub mod Printed
use pouch.Prelude.{
  ℕ, zero, suc, ◌+◌, ◌-◌, ◌*◌, Bool, true, false, not, ◌&&◌, ◌||◌, Option, none, some, List, [],
  ◌∷◌, Text, str, text_eq, split, is_empty, leb, ltb, ◌==◌, Dict, insert, if◌then◌else◌,
}
use pouch.Prelude.Int.{ℤ, pos, negsuc, two_63}

-- the digits of a number after the value `acc`; `none` for any other character
unfoldable pub digits : ℕ → Text → Option ℕ
digits acc [] = some acc
digits acc (c ∷ cs) = if leb 48 c && leb c 57 then digits (acc * 10 + (c - 48)) cs else none

abbrev to_positive : Option ℕ → Option ℤ
to_positive none = none
to_positive (some n) = if ltb n two_63 then some (pos n) else none

abbrev negated : ℕ → ℤ
negated zero = pos 0
negated (suc n) = negsuc n

abbrev to_negative : Option ℕ → Option ℤ
to_negative none = none
to_negative (some n) = if leb n two_63 then some (negated n) else none

-- `strconv.Atoi` of a 64-bit int
unfoldable pub atoi : Text → Option ℤ
unfolding digits
atoi [] = none
atoi (c ∷ cs) =
    if c == 45
    then (if is_empty cs then none else to_negative (digits 0 cs))
    else if c == 43
    then (if is_empty cs then none else to_positive (digits 0 cs))
    else to_positive (digits 0 (c ∷ cs))

pub record RestartPolicy : Type 0 where
  pub name : Text
  pub maximum_retry_count : ℤ

abbrev pub is_plain : Text → Bool
is_plain name =
    text_eq name (str "always") || text_eq name (str "unless-stopped") || text_eq name (str "no")

abbrev pub policy : Text → ℤ → RestartPolicy
policy name n = record { name = name; maximum_retry_count = n }

abbrev with_count : Text → Option ℤ → Option RestartPolicy
with_count name none = none
with_count name (some n) = some (policy name n)

abbrev pub on_failure : Text → List Text → Option RestartPolicy
on_failure name [] = some (policy name (pos 0))
on_failure name (count ∷ []) = with_count name (atoi count)
on_failure name (_ ∷ _ ∷ _) = none

-- the switch of `ParseRestartPolicy` on the first field
unfoldable pub policy_of : List Text → Option RestartPolicy
policy_of [] = none
policy_of (name ∷ fields) =
    if is_plain name
    then some (policy name (pos 0))
    else if text_eq name (str "on-failure")
    then on_failure name fields
    else none

-- `ParseRestartPolicy`
unfoldable pub parse_restart_policy : Text → Option RestartPolicy
unfolding split
parse_restart_policy s =
    if is_empty s then some (policy (str "no") (pos 0)) else policy_of (split 58 s)

abbrev pub is_zero : ℤ → Bool
is_zero (pos n) = n == 0
is_zero (negsuc n) = false

abbrev pub is_negative : ℤ → Bool
is_negative (pos n) = false
is_negative (negsuc n) = true

-- `ValidateRestartPolicy`: whether there is no error
unfoldable pub validate_restart_policy : RestartPolicy → Bool
validate_restart_policy p =
    if is_plain p.name
    then is_zero p.maximum_retry_count
    else if text_eq p.name (str "on-failure")
    then not (is_negative p.maximum_retry_count)
    else is_empty p.name

-- what one setting adds to the quotas
abbrev pub add_quota : List Text → Dict Text → Option (Dict Text)
add_quota [] quotas = none
add_quota (size ∷ []) quotas = some (insert (str ".*") size quotas)
add_quota (path ∷ size ∷ []) quotas = some (insert path size quotas)
add_quota (_ ∷ _ ∷ _ ∷ _) quotas = none

-- the loop of `ParseDiskQuota`
unfoldable pub add_quotas : List Text → Dict Text → Option (Dict Text)
add_quotas [] quotas = some quotas
add_quotas (quota ∷ rest) quotas =
    if is_empty quota
    then none
    else elim (add_quota (split 61 quota) quotas) [ none ↦ none | some more ↦ add_quotas rest more ]

-- `ParseDiskQuota`
unfoldable pub parse_disk_quota : List Text → Option (Dict Text)
parse_disk_quota quotas = add_quotas quotas []

abbrev pub is_set_quota_id : Text → Bool
is_set_quota_id id = not (is_empty id) && not (text_eq id (str "0"))

abbrev pub is_single : List Text → Bool
is_single (_ ∷ []) = true
is_single _ = false

-- `ParseQuotaID`
unfoldable pub parse_quota_id : Text → List Text → Option Text
parse_quota_id id [] = if is_set_quota_id id then none else some id
parse_quota_id id (quota ∷ []) =
    if is_set_quota_id id
    then some id
    else if is_single (split 61 quota)
    then some (str "-1")
    else some id
parse_quota_id id (_ ∷ _ ∷ _) = if is_set_quota_id id then none else some id
