-- ===== src/Quota.antt =====
-- storage/quota: the IDs of the disk quotas, which both drivers (prjquota.go, grpquota.go) hand out in
-- the same way from the table that `repquota` prints (quota.go).
pub mod Mounts
pub mod Ids
pub mod Calls
pub mod Apply
pub mod Enforce
mod Tests
use pouch.Prelude.{
  ℕ, zero, suc, ◌+◌, ◌%◌, Bool, false, ◌||◌, Option, none, some, List, [], ◌∷◌, Text, split,
  is_empty, ltb, ◌==◌, length, if◌then◌else◌,
}
use pouch.Prelude.Int.{ℤ, uint32, two_32}
use pouch.Opts.Policy.{atoi}

abbrev pub quota_min_id : ℕ
quota_min_id = 16777216

-- `PrjQuotaDriver` and `GrpQuotaDriver`: the map of the IDs in use, and the last one handed out
pub record Driver : Type 0 where
  pub quota_ids : List ℕ
  pub last_id : ℕ

unfoldable pub new_driver : Driver
new_driver = record { quota_ids = []; last_id = 0 }

unfoldable pub has_id : ℕ → List ℕ → Bool
has_id id [] = false
has_id id (x ∷ xs) = (x == id) || has_id id xs

-- parts[0][1:] of a line that starts with '#'
abbrev pub after_hash : List Text → Text
after_hash ((_ ∷ number) ∷ _) = number
after_hash _ = []

abbrev pub counted_id : Option ℤ → Option ℕ
counted_id none = none
counted_id (some z) = if ltb quota_min_id (uint32 z) then some (uint32 z) else none

-- the ID that a line of `repquota` adds to the table
unfoldable pub line_id : Text → Option ℕ
unfolding split atoi uint32
line_id [] = none
line_id (c ∷ line) =
    if c == 35
    then (let number = after_hash (split 32 (c ∷ line)) in
        if is_empty number then none else counted_id (atoi number))
    else none

-- quotaIDs[quotaID] = struct{}{}, with the largest ID so far
unfoldable pub note_id : Option ℕ → List ℕ × ℕ → List ℕ × ℕ
note_id none s = s
note_id (some id) (ids, largest) = (id ∷ ids, if ltb largest id then id else largest)

unfoldable pub note_lines : List Text → List ℕ × ℕ → List ℕ × ℕ
unfolding note_id line_id
note_lines [] s = s
note_lines (l ∷ ls) s = note_lines ls (note_id (line_id l) s)

-- `loadQuotaIDs` on the standard output of `repquota`
unfoldable pub load_quota_ids : Text → List ℕ × ℕ
unfolding note_lines
load_quota_ids output = note_lines (split 10 output) ([], quota_min_id)

-- one turn of the loop of `GetNextQuotaID`, in uint32
unfoldable pub increment : ℕ → ℕ
increment id = ((if ltb id quota_min_id then quota_min_id else id) + 1) % two_32

-- the loop of `GetNextQuotaID`; `none` when the fuel does not suffice
unfoldable pub find_id : ℕ → List ℕ → ℕ → Option ℕ
unfolding has_id increment
find_id zero ids id = none
find_id (suc fuel) ids id =
    let rest = find_id fuel ids (increment id) in
    if has_id (increment id) ids then rest else some (increment id)

-- what a call of `GetNextQuotaID` gives: an ID, the error of `repquota`, or, if the loop turns more often
-- than there are IDs in the table, no answer
pub data Answer : Type 0 where
  next_id : ℕ → Answer
  load_failed : Answer
  no_answer : Answer

abbrev pub take_id : Driver → Option ℕ → Answer × Driver
take_id d none = (no_answer, d)
take_id d (some id) = (next_id id, record { quota_ids = id ∷ d.quota_ids; last_id = id })

unfoldable pub allocate : Driver → Answer × Driver
unfolding find_id
allocate d = take_id d (find_id (suc (length d.quota_ids)) d.quota_ids d.last_id)

abbrev pub loaded : List ℕ × ℕ → Driver
loaded (ids, last) = record { quota_ids = ids; last_id = last }

-- `GetNextQuotaID`, given the output of `repquota`, or none if it fails, should the call need it
unfoldable pub get_next_quota_id : Option Text → Driver → Answer × Driver
unfolding allocate load_quota_ids
get_next_quota_id output d =
    if d.last_id == 0
    then elim output [
      | none ↦ (load_failed, new_driver)
      | some text ↦ allocate (loaded (load_quota_ids text))
    ]
    else allocate d
