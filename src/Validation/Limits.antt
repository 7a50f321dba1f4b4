-- ===== src/Validation/Limits.antt =====
-- The limits of container_validation.go as inequalities between integers.
use pouch.Prelude.{
  zero, suc, ◌≡◌, refl, Bool, true, false, not, ◌&&◌, ◌||◌, ◌⊎◌, inl, inr, Option, none, some,
  arith,
}
use pouch.Prelude.Int.{ℤ, pos, negsuc, ltb_ℤ, eq_ℤ, ◌≤ℤ◌}
use pouch.Validation.Core.{MemoryInfo, CpuInfo, Resources, is_pos, is_nonzero, is_set, min_memory}
use pouch.Validation.Memory.{swappiness_in_range}
use pouch.Validation.Bounds.{IsValid}
use pouch.Validation.Config.{oom_in_range, shm_is_valid}

-- the limits of memory and CPU that a host accepts
pub record Limited (update : Bool) (mi : MemoryInfo) (ci : CpuInfo) (r : Resources) : Type 0 where
  pub reservation : (r.memory_reservation ≡ pos 0) ⊎ (pos 4194304 ≤ℤ r.memory_reservation)
  pub limit : (r.memory ≡ pos 0) ⊎ (pos 4194304 ≤ℤ r.memory)
  pub limit_above :
      pos 1 ≤ℤ r.memory → pos 1 ≤ℤ r.memory_reservation → r.memory_reservation ≤ℤ r.memory
  pub swap_above : pos 1 ≤ℤ r.memory → pos 1 ≤ℤ r.memory_swap → r.memory ≤ℤ r.memory_swap
  pub swap_alone : r.memory ≡ pos 0 → pos 1 ≤ℤ r.memory_swap → update ≡ true
  pub swappiness : (z : ℤ) → r.memory_swappiness ≡ some z → (negsuc 0 ≤ℤ z) × (z ≤ℤ pos 100)
  pub quota : pos 1 ≤ℤ r.cpu_quota → pos 1000 ≤ℤ r.cpu_quota
  pub period : (r.cpu_period ≡ pos 0) ⊎ ((pos 1000 ≤ℤ r.cpu_period) × (r.cpu_period ≤ℤ pos 1000000))

-- what is set is supported
pub record Supported (mi : MemoryInfo) (ci : CpuInfo) (r : Resources) : Type 0 where
  pub limit : pos 1 ≤ℤ r.memory → mi.memory_limit ≡ true
  pub reservation : pos 1 ≤ℤ r.memory_reservation → mi.memory_reservation ≡ true
  pub swap : pos 1 ≤ℤ r.memory_swap → mi.memory_swap ≡ true
  pub swappiness : (z : ℤ) → r.memory_swappiness ≡ some z → mi.memory_swappiness ≡ true
  pub oom_kill : (b : Bool) → r.oom_kill_disable ≡ some b → mi.oom_kill_disable ≡ true
  pub shares : pos 1 ≤ℤ r.cpu_shares → ci.cpu_shares ≡ true
  pub quota : pos 1 ≤ℤ r.cpu_quota → ci.cpu_quota ≡ true
  pub period : pos 1 ≤ℤ r.cpu_period → ci.cpu_period ≡ true

at_least :
    (z : ℤ) → not (is_nonzero z && ltb_ℤ z min_memory) ≡ true → (z ≡ pos 0) ⊎ (pos 4194304 ≤ℤ z)
at_least (pos zero) h = inl refl
at_least (pos (suc n)) h = inr (ground (arith, h))
at_least (negsuc n) h = absurd (ground (arith, h))

ordered :
    (a b : ℤ) → not (is_pos a && is_pos b && ltb_ℤ a b) ≡ true → pos 1 ≤ℤ a → pos 1 ≤ℤ b → b ≤ℤ a
ordered a b h m n = ground (arith, h, m, n)

alone :
    (update : Bool) (a b : ℤ)
    → not (eq_ℤ a (pos 0) && is_pos b && not update) ≡ true
    → a ≡ pos 0
    → pos 1 ≤ℤ b
    → update ≡ true
alone update a b h m n = ground (arith, h, m, n)

swappiness-range :
    (o : Option ℤ) (z : ℤ)
    → swappiness_in_range o ≡ true
    → o ≡ some z
    → (negsuc 0 ≤ℤ z) × (z ≤ℤ pos 100)
swappiness-range none z h e = absurd (ground (arith, e))
swappiness-range (some (pos n)) z h e = ground (arith, h, e)
swappiness-range (some (negsuc n)) z h e = ground (arith, h, e)

quota-range : (z : ℤ) → not (is_pos z && ltb_ℤ z (pos 1000)) ≡ true → pos 1 ≤ℤ z → pos 1000 ≤ℤ z
quota-range z h m = ground (arith, h, m)

period-range :
    (z : ℤ)
    → not (is_nonzero z && (ltb_ℤ z (pos 1000) || ltb_ℤ (pos 1000000) z)) ≡ true
    → (z ≡ pos 0) ⊎ ((pos 1000 ≤ℤ z) × (z ≤ℤ pos 1000000))
period-range (pos zero) h = inl refl
period-range (pos (suc n)) h = inr (ground (arith, h))
period-range (negsuc n) h = absurd (ground (arith, h))

pub oom-range : (z : ℤ) → oom_in_range z ≡ true → (negsuc 999 ≤ℤ z) × (z ≤ℤ pos 1000)
oom-range z h = ground (arith, h)

pub shm-range : (o : Option ℤ) (z : ℤ) → shm_is_valid o ≡ true → o ≡ some z → pos 0 ≤ℤ z
shm-range none z h e = absurd (ground (arith, e))
shm-range (some y) z h e = ground (arith, h, e)

supported : (z : ℤ) (b : Bool) → (is_pos z && not b) ≡ false → pos 1 ≤ℤ z → b ≡ true
supported z b h m = ground (arith, h, m)

set_is_supported :
    {A : Type 0} (o : Option A) (a : A) (b : Bool)
    → (is_set o && not b) ≡ false
    → o ≡ some a
    → b ≡ true
set_is_supported none a b h e = absurd (ground (arith, e))
set_is_supported (some x) a b h e = ground (arith, h)

module _ (update : Bool) (mi : MemoryInfo) (ci : CpuInfo) (r : Resources) where
  pub valid-Limited : IsValid update mi ci r → Limited update mi ci r
  valid-Limited ((a, b, c, d, e, f, _, _, _, _, _), (g, h, _, _, _)) = record {
    reservation = at_least r.memory_reservation a;
    limit = at_least r.memory e;
    limit_above = ordered r.memory r.memory_reservation b;
    swap_above = λ m n. ordered_swap r.memory r.memory_swap c m n;
    swap_alone = alone update r.memory r.memory_swap d;
    swappiness = λ z. swappiness-range r.memory_swappiness z f;
    quota = quota-range r.cpu_quota g;
    period = period-range r.cpu_period h;
  }
    where
      ordered_swap :
          (a b : ℤ)
          → not (is_pos a && is_pos b && ltb_ℤ b a) ≡ true
          → pos 1 ≤ℤ a
          → pos 1 ≤ℤ b
          → a ≤ℤ b
      ordered_swap a b h m n = ground (arith, h, m, n)

  pub valid-Supported : IsValid update mi ci r → Supported mi ci r
  valid-Supported ((_, _, _, _, _, _, a, b, c, d, e), (_, _, f, g, h)) = record {
    limit = supported r.memory mi.memory_limit a;
    reservation = supported r.memory_reservation mi.memory_reservation b;
    swap = supported r.memory_swap mi.memory_swap c;
    swappiness = λ z. set_is_supported r.memory_swappiness z mi.memory_swappiness d;
    oom_kill = λ z. set_is_supported r.oom_kill_disable z mi.oom_kill_disable e;
    shares = supported r.cpu_shares ci.cpu_shares f;
    quota = supported r.cpu_quota ci.cpu_quota g;
    period = supported r.cpu_period ci.cpu_period h;
  }
