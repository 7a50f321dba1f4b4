-- ===== src/Quota/Calls.antt =====
-- What the calls of `GetNextQuotaID` of storage/quota give, and the tables they lead to.
use pouch.Prelude.{
  ℕ, suc, ◌<◌, ◌≡◌, refl, sym, subst, ap, ◌∙◌, ◌⊎◌, inl, inr, Bool-cases, false, Option, none, some,
  ◌∷◌, Text, ltb, ◌==◌, length, if◌then◌else◌, arith,
}
use pouch.Prelude.Int.{two_32}
use pouch.Quota.{
  quota_min_id, Driver, new_driver, has_id, load_quota_ids, increment, find_id, next_id, take_id,
  allocate, loaded, get_next_quota_id,
}
use pouch.Quota.Ids.{
  count_above-length, find_id-total, find_id-fresh, IsTable, unused-Above, unused-Zero,
  load_quota_ids-IsTable, increment-cases, increment-after, InUse-mono, after,
}

-- the table that a call searches: the driver's, or, when its last ID is 0, the one that `repquota` gives
abbrev pub searched : Text → Driver → Driver
searched text d = if d.last_id == 0 then loaded (load_quota_ids text) else d

get_next-allocate :
    (text : Text) (d : Driver) → get_next_quota_id (some text) d ≡ allocate (searched text d)
unfolding get_next_quota_id
get_next-allocate text d = elim (Bool-cases (d.last_id == 0)) [
  | inl b ↦ ground (arith, b)
  | inr b ↦ ground (arith, b)
]

allocate-fresh :
    (d : Driver)
    → d.last_id < two_32
    → has_id 0 d.quota_ids ≡ false
    → (n : ℕ) × (((allocate d).0 ≡ next_id n)
        × (has_id n d.quota_ids ≡ false)
        × ((n ≡ 0) ⊎ ((quota_min_id < n) × (n < two_32))))
unfolding allocate
allocate-fresh d h z =
    let (n, e) =
      find_id-total (suc (length d.quota_ids)) d.quota_ids d.last_id h z
        (omega (arith, count_above-length d.last_id d.quota_ids)) in
    let (unused, range) = find_id-fresh (suc (length d.quota_ids)) d.quota_ids d.last_id n h e in
    (n, (ap (λ o. (take_id d o).0) e, unused, range))

-- Whatever `repquota` prints, and for every driver whose last ID is a uint32 and whose table does not
-- have the ID 0 (if its last ID is not 0), the search of `GetNextQuotaID` ends, after at most one turn
-- more than the table has IDs, with an ID that the table it searches does not have, and which is 0 or
-- greater than 2^24 and a uint32.
pub get_next_quota_id-fresh :
    (text : Text) (d : Driver)
    → d.last_id < two_32
    → (d.last_id ≡ 0) ⊎ (has_id 0 d.quota_ids ≡ false)
    → (n : ℕ) × (((get_next_quota_id (some text) d).0 ≡ next_id n)
        × (has_id n (searched text d).quota_ids ≡ false)
        × ((n ≡ 0) ⊎ ((quota_min_id < n) × (n < two_32))))
get_next_quota_id-fresh text d h z =
    let (n, (e, u, r)) = allocate-fresh (searched text d) searched-Below searched-Zero in
    (n, (ap (λ p. p.0) (get_next-allocate text d) ∙ e, u, r))
  where
    table : IsTable (load_quota_ids text)
    table = load_quota_ids-IsTable text

    searched-Below : (searched text d).last_id < two_32
    searched-Below = ground (arith, h, table.2)

    searched-Zero : has_id 0 (searched text d).quota_ids ≡ false
    searched-Zero = elim (Bool-cases (d.last_id == 0)) [
      | inl b ↦
          ground (arith, b, unused-Zero (load_quota_ids text).0 (load_quota_ids text).1 table.0)
      | inr b ↦ elim z [ inl e ↦ absurd (ground (arith, b, e)) | inr e ↦ ground (arith, b, e) ]
    ]

-- the last ID and the IDs of a table of which none is 0 and none is greater than the last
abbrev pub IsCounter : Driver → Type 0
IsCounter d = (d.last_id ≡ 0) ⊎ IsTable (d.quota_ids, d.last_id)

abbrev pub counted : Driver → Driver
counted d = record { quota_ids = after d.last_id ∷ d.quota_ids; last_id = after d.last_id }

allocate-counts :
    (d : Driver)
    → IsTable (d.quota_ids, d.last_id)
    → allocate d ≡ (next_id (after d.last_id), counted d)
unfolding allocate find_id
allocate-counts d (ids, lo, hi) =
    let step = increment-after d.last_id lo hi in ground (arith, step, unused)
  where
    unused : has_id (increment d.last_id) d.quota_ids ≡ false
    unused = elim (increment-cases d.last_id hi) [
      | inl z ↦
          subst (λ k. has_id k d.quota_ids ≡ false) (sym z) (unused-Zero d.quota_ids d.last_id ids)
      | inr (lt, _, _) ↦ unused-Above d.quota_ids d.last_id (increment d.last_id) ids lt
    ]

counted-IsCounter : (d : Driver) → IsTable (d.quota_ids, d.last_id) → IsCounter (counted d)
counted-IsCounter d (ids, lo, hi) = elim (Bool-cases (ltb (suc d.last_id) two_32)) [
  | inr b ↦ inl (ground (arith, b))
  | inl b ↦
      let next : after d.last_id ≡ suc d.last_id = ground (arith, b) in
      inr (
        subst (λ n. IsTable (n ∷ d.quota_ids, n)) (sym next)
          (
            (
              (omega arith, omega arith),
              InUse-mono d.last_id (suc d.last_id) d.quota_ids (omega arith) ids,
            ),
            omega (arith, lo),
            ground (arith, b),
          ))
]

-- For a driver whose last ID is 0, or at least 2^24 with no ID in its table that is 0 or greater, the
-- call of `GetNextQuotaID` gives the uint32 after the last ID of the table it searches and makes it
-- the last ID, and the driver after the call is again such a driver.
pub get_next_quota_id-counts :
    (text : Text) (d : Driver)
    → IsCounter d
    → (get_next_quota_id (some text) d
        ≡ (next_id (after (searched text d).last_id), counted (searched text d)))
      × IsCounter (get_next_quota_id (some text) d).1
get_next_quota_id-counts text d c =
    let e = get_next-allocate text d ∙ allocate-counts (searched text d) table in
    (e, subst IsCounter (ap (λ p. p.1) (sym e)) (counted-IsCounter (searched text d) table))
  where
    table : IsTable ((searched text d).quota_ids, (searched text d).last_id)
    table = elim (Bool-cases (d.last_id == 0)) [
      | inl b ↦ rw b (load_quota_ids-IsTable text)
      | inr b ↦ elim c [ inl e ↦ absurd (ground (arith, b, e)) | inr t ↦ rw b t ]
    ]

-- the same whether `repquota` answers or not
pub get_next_quota_id-IsCounter :
    (output : Option Text) (d : Driver) → IsCounter d → IsCounter (get_next_quota_id output d).1
unfolding get_next_quota_id new_driver
get_next_quota_id-IsCounter (some text) d c = (get_next_quota_id-counts text d c).1
get_next_quota_id-IsCounter none d c = elim (Bool-cases (d.last_id == 0)) [
  | inl b ↦ rw b (inl refl)
  | inr b ↦ elim c [
    | inl e ↦ absurd (ground (arith, b, e))
    | inr t ↦
        rw b (subst IsCounter (ap (λ p. p.1) (sym (allocate-counts d t))) (counted-IsCounter d t))
  ]
]
