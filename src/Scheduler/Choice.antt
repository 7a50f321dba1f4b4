-- ===== src/Scheduler/Choice.antt =====
-- The factory that is chosen has the largest value, and one is chosen whenever one has goods.
use pouch.Prelude.{
  ℕ, suc, ◌+◌, ◌≡◌, refl, ◌∙◌, subst, true, Bool-cases, ◌⊎◌, inl, inr, none, some, List, [], ◌∷◌,
  get_elem?, All, arith,
}
use pouch.Prelude.Int.{ℤ, pos, ltb_ℤ, ◌≤ℤ◌}
use pouch.Scheduler.{larger, find_largest, schedule}

abbrev pub Below : ℤ → ℤ → Type 0
Below b w = w ≤ℤ b

abbrev Stands : ℕ → List ℤ → ℕ × ℤ → Type 0
Stands i pool r = (j : ℕ) × (r.0 ≡ i + j) × (get_elem? pool j ≡ some r.1)

-- the largest is the one so far, or in the rest of the pool
abbrev Found : ℕ → List ℤ → ℕ × ℤ → ℕ × ℤ → Type 0
Found i pool best r = (r ≡ best) ⊎ Stands i pool r

larger_lem :
    (i : ℕ) (v : ℤ) (best : ℕ × ℤ)
    → (best.1 ≤ℤ (larger i v best).1)
      × (v ≤ℤ (larger i v best).1)
      × ((larger i v best ≡ best) ⊎ (larger i v best ≡ (i, v)))
unfolding larger
larger_lem i v best = elim (Bool-cases (ltb_ℤ best.1 v)) [
  | inl b ↦ (ground (arith, b), ground (arith, b), inr (ground (arith, b)))
  | inr b ↦ (ground (arith, b), ground (arith, b), inl (ground (arith, b)))
]

stands_next :
    (i : ℕ) (v : ℤ) (pool : List ℤ) (best next r : ℕ × ℤ)
    → (next ≡ best) ⊎ (next ≡ (i, v))
    → Found (suc i) pool next r
    → Found i (v ∷ pool) best r
stands_next i v pool best next r (inl e) (inl f) = inl (f ∙ e)
stands_next i v pool best next r (inr e) (inl f) =
    inr (0, ground (arith, e, f), ground (arith, e, f))
stands_next i v pool best next r e (inr (j, p, q)) = inr (suc j, omega (arith, p), q)

largest :
    (i : ℕ) (pool : List ℤ) (best : ℕ × ℤ)
    → let r = find_largest i pool best in
      (best.1 ≤ℤ r.1) × All (Below r.1) pool × Found i pool best r
unfolding find_largest
largest i [] best = (omega arith, tt, inl refl)
largest i (v ∷ pool) best =
    let next = larger i v best in
    let (old, new, which) = larger_lem i v best in
    let (up, all, at) = largest (suc i) pool next in
    (
      omega (arith, old, up),
      (omega (arith, new, up), all),
      stands_next i v pool best next (find_largest (suc i) pool next) which at,
    )

place :
    (v : ℤ) (pool : List ℤ) (r : ℕ × ℤ) (i : ℕ)
    → Found 1 pool (0, v) r
    → r.0 ≡ i
    → get_elem? (v ∷ pool) i ≡ some r.1
place v pool r i (inl e) h = subst (λ k. get_elem? (v ∷ pool) k ≡ some r.1) h (ground (arith, e))
place v pool r i (inr (j, p, q)) h =
    let k : suc j ≡ i = omega (arith, p, h) in subst (λ k. get_elem? (v ∷ pool) k ≡ some r.1) k q

All-Below : (b : ℤ) (pool : List ℤ) → b ≤ℤ pos 0 → All (Below b) pool → All (Below (pos 0)) pool
All-Below b [] l h = tt
All-Below b (v ∷ pool) l h = (omega (arith, l, h.0), All-Below b pool l h.1)

-- The scheduler chooses a place of the pool whose factory has more than no goods, and no factory of the
-- pool has more.
pub schedule-largest :
    (pool : List ℤ) (i : ℕ)
    → schedule pool ≡ some i
    → (v : ℤ) × (get_elem? pool i ≡ some v) × (ltb_ℤ (pos 0) v ≡ true) × All (Below v) pool
unfolding schedule
schedule-largest [] i h = cc
schedule-largest (v ∷ pool) i h =
    let r = find_largest 1 pool (0, v) in
    let (up, all, at) = largest 1 pool (0, v) in
    elim (Bool-cases (ltb_ℤ (pos 0) r.1)) [
      | inr b ↦ absurd (ground (arith, b, h))
      | inl b ↦
          let here : r.0 ≡ i = ground (arith, b, h) in (r.1, place v pool r i at here, b, (up, all))
    ]

-- The scheduler is exhausted only if no factory of the pool has goods left.
pub schedule-none : (pool : List ℤ) → schedule pool ≡ none → All (Below (pos 0)) pool
unfolding schedule
schedule-none [] h = tt
schedule-none (v ∷ pool) h =
    let r = find_largest 1 pool (0, v) in
    let (up, all, at) = largest 1 pool (0, v) in
    elim (Bool-cases (ltb_ℤ (pos 0) r.1)) [
      | inl b ↦ absurd (ground (arith, b, h))
      | inr b ↦ (ground (arith, b, up), All-Below r.1 pool (ground (arith, b)) all)
    ]
