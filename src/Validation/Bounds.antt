-- ===== src/Validation/Bounds.antt =====
-- What the parts of `validateResource` of container_validation.go on memory and CPUs accept.
use pouch.Prelude.{
  ◌≡◌, refl, ap, subst, sym, ◌∙◌, Bool, Bool-cases, inl, inr, true, false, not, ◌&&◌, Option, none,
  some, if◌then◌else◌,
}
use pouch.Prelude.Int.{ℤ}
use pouch.Prelude.Task.{done, bind-done, require-done, ◌>>◌}
use pouch.Validation.Core.{
  MemoryInfo, CpuInfo, Resources, Warning, oom_kill_warn, cpu_period_out_of_range, Err, Checked,
  Check, is_pos, is_set, reset, adjust, ensure,
}
use pouch.Validation.Memory.{
  limit_unsupported, reset_reservation, reservation_unsupported, reset_swap, swap_unsupported,
  reset_swappiness, swappiness_unsupported, reset_oom_kill, oom_kill_unsupported, reservation_test,
  limit_test, swap_test, swap_alone_test, minimum_test, swappiness_test, validate_memory,
}
use pouch.Validation.Resource.{
  validate_cpu, reset_mems, reset_shares, shares_unsupported, reset_quota, quota_unsupported,
  reset_period, period_unsupported, quota_test, period_test,
}

-- a test that a check ensures holds, and what follows it goes on from the same state
ensure-then :
    (test : Resources → Bool) (e : Err) (k : Check) (s t : Checked) (u : Unit {0})
    → (ensure test e >> k) s ≡ (done u, t)
    → (test s.resources ≡ true) × (k s ≡ (done u, t))
unfolding ensure
ensure-then test e k s t u h =
    let (v, s', (a, b)) = bind-done (ensure test e) (λ _. k) s u t h in
    let (c, same) = require-done (test s.resources) e s s' v a in (c, ap k same ∙ b)

adjust-then :
    (f : Resources → Resources) (c : Resources → Bool) (w : Warning) (k : Check) (s t : Checked)
    (u : Unit {0})
    → (adjust f c w >> k) s ≡ (done u, t)
    → (s' : Checked) × ((s'.resources ≡ f s.resources) × (k s' ≡ (done u, t)))
unfolding adjust
adjust-then f c w k s t u h =
    let (v, s', (a, b)) = bind-done (adjust f c w) (λ _. k) s u t h in
    (s', (ap (λ q. q.1.resources) (sym a), b))

-- what the memory of accepted resources satisfies
abbrev pub MemoryIsValid : Bool → MemoryInfo → Resources → Type 0
MemoryIsValid update info r =
    (reservation_test r ≡ true)
    × (limit_test r ≡ true)
    × (swap_test r ≡ true)
    × (swap_alone_test update r ≡ true)
    × (minimum_test r ≡ true)
    × (swappiness_test r ≡ true)
    × (limit_unsupported info r ≡ false)
    × (reservation_unsupported info r ≡ false)
    × (swap_unsupported info r ≡ false)
    × (swappiness_unsupported info r ≡ false)
    × (oom_kill_unsupported info r ≡ false)

off :
    (z : ℤ) (supported : Bool)
    → (is_pos (reset z (is_pos z && not supported)) && not supported) ≡ false
off z supported = elim (Bool-cases (is_pos z && not supported)) [
  | inl b ↦ rw b refl
  | inr b ↦ rw b b
]

unset :
    {A : Type 0} (o : Option A) (supported : Bool)
    → (is_set (if is_set o && not supported then none else o) && not supported) ≡ false
unset none supported = refl
unset (some a) true = refl
unset (some a) false = refl

pub validate_memory-IsValid :
    (update : Bool) (info : MemoryInfo) (s t : Checked) (u : Unit {0})
    → validate_memory update info s ≡ (done u, t)
    → MemoryIsValid update info t.resources
unfolding validate_memory adjust
validate_memory-IsValid update info s t u h =
    let (s1, (e1, h1)) = adjust-then _ _ _ _ s t u h in
    let (s2, (e2, h2)) = adjust-then _ _ _ _ s1 t u h1 in
    let (c1, h3) = ensure-then _ _ _ s2 t u h2 in
    let (c2, h4) = ensure-then _ _ _ s2 t u h3 in
    let (s3, (e3, h5)) = adjust-then _ _ _ _ s2 t u h4 in
    let (c3, h6) = ensure-then _ _ _ s3 t u h5 in
    let (c4, h7) = ensure-then _ _ _ s3 t u h6 in
    let (c5, h8) = ensure-then _ _ _ s3 t u h7 in
    let (s4, (e4, h9)) = adjust-then _ _ _ _ s3 t u h8 in
    let (s5, (e5, h10)) = adjust-then _ _ _ _ s4 t u h9 in
    let (c6, h11) = ensure-then _ _ _ s5 t u h10 in
    let e6 : t.resources ≡ reset_oom_kill info s5.resources = last-resources s5 h11 in
    let p2 = e2 ∙ ap (reset_reservation info) e1 in
    let p3 = e3 ∙ ap (reset_swap info) p2 in
    let p5 = e5 ∙ ap (reset_swappiness info) (e4 ∙ p3) in
    subst (MemoryIsValid update info) (sym (e6 ∙ ap (reset_oom_kill info) p5)) (
      subst (λ r. reservation_test r ≡ true) p2 c1,
      subst (λ r. limit_test r ≡ true) p2 c2,
      subst (λ r. swap_test r ≡ true) p3 c3,
      subst (λ r. swap_alone_test update r ≡ true) p3 c4,
      subst (λ r. minimum_test r ≡ true) p3 c5,
      subst (λ r. swappiness_test r ≡ true) p5 c6,
      off s.resources.memory info.memory_limit,
      off s.resources.memory_reservation info.memory_reservation,
      off (reset s.resources.memory_swap (limit_unsupported info s.resources)) info.memory_swap,
      unset s.resources.memory_swappiness info.memory_swappiness,
      unset s.resources.oom_kill_disable info.oom_kill_disable,
    )
  where
    last-resources :
        (s5 : Checked)
        → adjust (reset_oom_kill info) (oom_kill_unsupported info) oom_kill_warn s5 ≡ (done u, t)
        → t.resources ≡ reset_oom_kill info s5.resources
    last-resources s5 h = ap (λ q. q.1.resources) (sym h)

-- what the CPU limits of accepted resources satisfy
abbrev pub CpuIsValid : CpuInfo → Resources → Type 0
CpuIsValid info r =
    (quota_test r ≡ true)
    × (period_test r ≡ true)
    × (shares_unsupported info r ≡ false)
    × (quota_unsupported info r ≡ false)
    × (period_unsupported info r ≡ false)

ensure-last :
    (test : Resources → Bool) (e : Err) (s t : Checked) (u : Unit {0})
    → ensure test e s ≡ (done u, t)
    → (test s.resources ≡ true) × (s ≡ t)
unfolding ensure
ensure-last test e s t u h = require-done (test s.resources) e s t u h

pub validate_cpu-IsValid :
    (info : CpuInfo) (s t : Checked) (u : Unit {0})
    → validate_cpu info s ≡ (done u, t)
    → CpuIsValid info t.resources
unfolding validate_cpu
validate_cpu-IsValid info s t u h =
    let (s1, (e1, h1)) = adjust-then _ _ _ _ s t u h in
    let (s2, (e2, h2)) = adjust-then _ _ _ _ s1 t u h1 in
    let (s3, (e3, h3)) = adjust-then _ _ _ _ s2 t u h2 in
    let (s4, (e4, h4)) = adjust-then _ _ _ _ s3 t u h3 in
    let (c1, h5) = ensure-then _ _ _ s4 t u h4 in
    let (s5, (e5, h6)) = adjust-then _ _ _ _ s4 t u h5 in
    let (c2, same) = ensure-last period_test cpu_period_out_of_range s5 t u h6 in
    let p3 = e3 ∙ ap (reset_shares info) (e2 ∙ ap (reset_mems info) e1) in
    let p5 = e5 ∙ ap (reset_period info) (e4 ∙ ap (reset_quota info) p3) in
    let p4 = e4 ∙ ap (reset_quota info) p3 in
    subst (CpuIsValid info) (sym (ap (λ q. q.resources) (sym same) ∙ p5)) (
      subst (λ r. quota_test r ≡ true) p4 c1,
      subst (λ r. period_test r ≡ true) p5 c2,
      off s.resources.cpu_shares info.cpu_shares,
      off s.resources.cpu_quota info.cpu_quota,
      off s.resources.cpu_period info.cpu_period,
    )

abbrev pub IsValid : Bool → MemoryInfo → CpuInfo → Resources → Type 0
IsValid update mi ci r = MemoryIsValid update mi r × CpuIsValid ci r
