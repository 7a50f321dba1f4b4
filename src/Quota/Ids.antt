-- ===== src/Quota/Ids.antt =====
-- How `GetNextQuotaID` of storage/quota finds an ID that is not in use.
use pouch.Prelude.{
  ℕ, zero, suc, ◌<◌, ◌≤◌, All, ◌≡◌, ap, subst, refl, ◌⊎◌, inl, inr, Bool-cases, true, false, Option,
  none, some, List, [], ◌∷◌, Text, ltb, ◌==◌, length, if◌then◌else◌, arith, split, is_empty,
}
use pouch.Prelude.Int.{ℤ, uint32, two_32, uint32-Below}
use pouch.Opts.Policy.{atoi}
use pouch.Quota.{
  quota_min_id, after_hash, has_id, counted_id, line_id, note_id, note_lines, load_quota_ids,
  increment, find_id,
}

-- the number of the IDs of a table that are greater than `id`
unfoldable pub count_above : ℕ → List ℕ → ℕ
count_above id [] = 0
count_above id (x ∷ xs) = if ltb id x then suc (count_above id xs) else count_above id xs

pub count_above-length : (id : ℕ) (ids : List ℕ) → count_above id ids ≤ length ids
unfolding count_above
count_above-length id [] = omega arith
count_above-length id (x ∷ xs) = ground (arith, count_above-length id xs)

count_above_mono : (i j : ℕ) (ids : List ℕ) → i ≤ j → count_above j ids ≤ count_above i ids
unfolding count_above
count_above_mono i j [] h = omega arith
count_above_mono i j (x ∷ xs) h = ground (arith, count_above_mono i j xs h)

-- an ID of the table no longer counts once the search has passed it
count_above-strict :
    (i j : ℕ) (ids : List ℕ) → i < j → has_id j ids ≡ true → count_above j ids < count_above i ids
unfolding count_above has_id
count_above-strict i j [] h k = cc
count_above-strict i j (x ∷ xs) h k = elim (Bool-cases (x == j)) [
  | inl b ↦ ground (arith, b, count_above_mono i j xs (omega arith))
  | inr b ↦ ground (arith, count_above-strict i j xs h (ground (arith, b, k)))
]

pub increment-cases :
    (id : ℕ)
    → id < two_32
    → (increment id ≡ 0)
      ⊎ ((id < increment id) × (quota_min_id < increment id) × (increment id < two_32))
unfolding increment
increment-cases id h = elim (Bool-cases (ltb id quota_min_id)) [
  | inl b ↦ inr (ground (arith, b), ground (arith, b), ground (arith, b))
  | inr b ↦ elim (Bool-cases (ltb (suc id) two_32)) [
    | inl c ↦ inr (ground (arith, b, c), ground (arith, b, c), ground (arith, b, c))
    | inr c ↦ inl (ground (arith, b, c))
  ]
]

pub increment-Below : (id : ℕ) → increment id < two_32
unfolding increment
increment-Below id = ground arith

-- the next uint32
abbrev pub after : ℕ → ℕ
after n = if ltb (suc n) two_32 then suc n else 0

pub increment-after : (id : ℕ) → quota_min_id ≤ id → id < two_32 → increment id ≡ after id
unfolding increment
increment-after id lo hi = elim (Bool-cases (ltb (suc id) two_32)) [
  | inl b ↦ ground (arith, b, lo)
  | inr b ↦ ground (arith, b, lo, hi)
]

-- the search ends when it has more fuel than there are larger IDs in the table
pub find_id-total :
    (fuel : ℕ) (ids : List ℕ) (id : ℕ)
    → id < two_32
    → has_id 0 ids ≡ false
    → count_above id ids < fuel
    → (n : ℕ) × (find_id fuel ids id ≡ some n)
unfolding find_id
find_id-total zero ids id h z f = absurd (omega arith)
find_id-total (suc fuel) ids id h z f = elim (Bool-cases (has_id (increment id) ids)) [
  | inr b ↦ (increment id, ground (arith, b))
  | inl b ↦ elim (increment-cases id h) [
    | inl e ↦ absurd (ground (arith, ap (λ k. has_id k ids) e, b, z))
    | inr (lt, m, below) ↦
        let (n, e) =
          find_id-total fuel ids (increment id) below z
            (omega (arith, count_above-strict id (increment id) ids lt b, f)) in
        (n, ground (arith, b, e))
  ]
]

-- what the search finds is not in the table, and is 0 after the last uint32
pub find_id-fresh :
    (fuel : ℕ) (ids : List ℕ) (id n : ℕ)
    → id < two_32
    → find_id fuel ids id ≡ some n
    → (has_id n ids ≡ false) × ((n ≡ 0) ⊎ ((quota_min_id < n) × (n < two_32)))
unfolding find_id
find_id-fresh zero ids id n h e = cc
find_id-fresh (suc fuel) ids id n h e = elim (Bool-cases (has_id (increment id) ids)) [
  | inl b ↦ find_id-fresh fuel ids (increment id) n (increment-Below id) (ground (arith, b, e))
  | inr b ↦
      let found : increment id ≡ n = ground (arith, b, e) in
      (
        subst (λ k. has_id k ids ≡ false) found b,
        elim (increment-cases id h) [
          | inl z ↦ inl (omega (arith, z, found))
          | inr (lt, m, below) ↦ inr (omega (arith, m, found), omega (arith, below, found))
        ],
      )
]

-- The IDs of a table that `repquota` gives, and of the drivers that calls lead to: none is 0, and
-- none is greater than the last one.
abbrev pub InUse : ℕ → ℕ → Type 0
InUse last id = (0 < id) × (id ≤ last)

abbrev pub IsTable : List ℕ × ℕ → Type 0
IsTable (ids, last) = All (InUse last) ids × (quota_min_id ≤ last) × (last < two_32)

pub InUse-mono : (i j : ℕ) (ids : List ℕ) → i ≤ j → All (InUse i) ids → All (InUse j) ids
InUse-mono i j [] h a = tt
InUse-mono i j (x ∷ xs) h ((p, q), a) = ((p, omega (arith, q, h)), InUse-mono i j xs h a)

pub unused-Above :
    (ids : List ℕ) (last id : ℕ) → All (InUse last) ids → last < id → has_id id ids ≡ false
unfolding has_id
unused-Above [] last id a h = refl
unused-Above (x ∷ xs) last id ((p, q), a) h = ground (arith, q, h, unused-Above xs last id a h)

pub unused-Zero : (ids : List ℕ) (last : ℕ) → All (InUse last) ids → has_id 0 ids ≡ false
unfolding has_id
unused-Zero [] last a = refl
unused-Zero (x ∷ xs) last ((p, q), a) = ground (arith, p, unused-Zero xs last a)

note_id-IsTable :
    (o : Option ℕ) (ids : List ℕ) (last : ℕ)
    → ((id : ℕ) → o ≡ some id → (quota_min_id < id) × (id < two_32))
    → IsTable (ids, last)
    → IsTable (note_id o (ids, last))
unfolding note_id
note_id-IsTable none ids last b t = t
note_id-IsTable (some id) ids last b (a, p, q) =
    let (lo, hi) = b id refl in
    let larger : last ≤ (note_id (some id) (ids, last)).1 = ground arith in
    (
      ((omega (arith, lo), ground arith), InUse-mono last _ ids larger a),
      ground (arith, lo, p),
      ground (arith, hi, q),
    )

counted_id-Between :
    (o : Option ℤ) (id : ℕ) → counted_id o ≡ some id → (quota_min_id < id) × (id < two_32)
counted_id-Between none id h = cc
counted_id-Between (some z) id h =
    let below = uint32-Below z in
    elim (Bool-cases (ltb quota_min_id (uint32 z))) [
      | inl b ↦ (ground (arith, b, h), ground (arith, b, below, h))
      | inr b ↦ absurd (ground (arith, b, h))
    ]

line_id-Between : (l : Text) (id : ℕ) → line_id l ≡ some id → (quota_min_id < id) × (id < two_32)
unfolding line_id
line_id-Between [] id h = cc
line_id-Between (c ∷ line) id h = elim (Bool-cases (c == 35)) [
  | inr b ↦ absurd (ground (arith, b, h))
  | inl b ↦ elim (Bool-cases (is_empty (after_hash (split 32 (c ∷ line))))) [
    | inl e ↦ absurd (ground (arith, b, e, h))
    | inr e ↦
        counted_id-Between (atoi (after_hash (split 32 (c ∷ line)))) id (ground (arith, b, e, h))
  ]
]

note_lines-IsTable :
    (ls : List Text) (ids : List ℕ) (last : ℕ)
    → IsTable (ids, last)
    → IsTable (note_lines ls (ids, last))
unfolding note_lines
note_lines-IsTable [] ids last t = t
note_lines-IsTable (l ∷ ls) ids last t =
    note_lines-IsTable ls _ _ (note_id-IsTable (line_id l) ids last (line_id-Between l) t)

pub load_quota_ids-IsTable : (output : Text) → IsTable (load_quota_ids output)
unfolding load_quota_ids
load_quota_ids-IsTable output =
    note_lines-IsTable (split 10 output) [] quota_min_id (tt, omega arith, omega arith)
