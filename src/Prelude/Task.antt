-- ===== src/Prelude/Task.antt =====
-- Calls that change a state and may return an error: what was changed before an error stays changed.
use mathlib.Core.Path.{◌≡◌, refl, ap, subst}
use native.Mathlib.Omega.{arith}
use mathlib.Core.Bool.{Bool, true, false}
use mathlib.Core.Option.{Option, none, some}
use pouch.Prelude.Tests.{if◌then◌else◌}

pub data Outcome (E A : Type 0) : Type 0 where
  done : A → Outcome E A
  raised : E → Outcome E A

abbrev pub Task : Type 0 → Type 0 → Type 0 → Type 0
Task S E A = S → Outcome E A × S

abbrev pub continue : {S E A B : Type 0} → Outcome E A × S → (A → Task S E B) → Outcome E B × S
continue (done a, s) f = f a s
continue (raised e, s) f = (raised e, s)

module _ {S E : Type 0} where
  unfoldable pub pure : {A : Type 0} → A → Task S E A
  pure a s = (done a, s)

  unfoldable pub raise : {A : Type 0} → E → Task S E A
  raise e s = (raised e, s)

  unfoldable pub get : Task S E S
  get s = (done s, s)

  unfoldable pub put : S → Task S E (Unit {0})
  put t s = (done tt, t)

  -- if !b { return e }
  unfoldable pub require : Bool → E → Task S E (Unit {0})
  require true e s = (done tt, s)
  require false e s = (raised e, s)

  -- the value, or the error if there is none
  unfoldable pub expect : {A : Type 0} → Option A → E → Task S E A
  expect (some a) e s = (done a, s)
  expect none e s = (raised e, s)

  -- the outcome as a value, the error included
  unfoldable pub attempt : {A : Type 0} → Task S E A → Task S E (Outcome E A)
  attempt a s = (done (a s).0, (a s).1)

infixl 10 ◌>>=◌ ◌>>◌
-- opening this opens the other parts of a `do` block too
unfoldable pub ◌>>=◌ : {S E A B : Type 0} → Task S E A → (A → Task S E B) → Task S E B
unfolding pure raise get put require expect attempt
◌>>=◌ a f s = continue (a s) f

abbrev pub ◌>>◌ : {S E B : Type 0} → Task S E (Unit {0}) → Task S E B → Task S E B
a >> b = a >>= λ _. b

-- a task that keeps a predicate on the state, whatever its outcome
pub record Keeps {S E A : Type 0} (P : S → Type 0) (a : Task S E A) : Type 0 where
  pub at : (s : S) → P s → P (a s).1

module _ {S E A : Type 0} {P : S → Type 0} where
  pub Keeps-pure : (x : A) → Keeps P (pure {E = E} x)
  unfolding pure
  Keeps-pure x = record { at = λ s h. h }

  pub Keeps-raise : (e : E) → Keeps {A = A} P (raise e)
  unfolding raise
  Keeps-raise e = record { at = λ s h. h }

  pub Keeps-expect : (o : Option A) (e : E) → Keeps P (expect o e)
  unfolding expect
  Keeps-expect none e = record { at = λ s h. h }
  Keeps-expect (some x) e = record { at = λ s h. h }

  pub Keeps-attempt : (a : Task S E A) → Keeps P a → Keeps P (attempt a)
  unfolding attempt
  Keeps-attempt a k = record { at = λ s h. k.at s h }

  pub Keeps-if :
      (b : Bool) (x y : Task S E A) → Keeps P x → Keeps P y → Keeps P (if b then x else y)
  Keeps-if true x y h k = h
  Keeps-if false x y h k = k

module _ {S E : Type 0} {P : S → Type 0} where
  pub Keeps-get : Keeps {E = E} P get
  unfolding get
  Keeps-get = record { at = λ s h. h }

  pub Keeps-require : (b : Bool) (e : E) → Keeps P (require b e)
  unfolding require
  Keeps-require true e = record { at = λ s h. h }
  Keeps-require false e = record { at = λ s h. h }

module _ {S E A B : Type 0} {P : S → Type 0} where
  pub Keeps-bind :
      (a : Task S E A) (f : A → Task S E B)
      → Keeps P a
      → ((x : A) → Keeps P (f x))
      → Keeps P (a >>= f)
  unfolding ◌>>=◌
  Keeps-bind a f h k = record { at = λ s p. go (a s) (h.at s p) }
    where
      go : (r : Outcome E A × S) → P r.1 → P (continue r f).1
      go (done x, s) p = (k x).at s p
      go (raised e, s) p = p

module _ {S E A : Type 0} {P : S → Type 0} where
  -- what follows a reading of the state may use the predicate on what was read
  pub Keeps-read : (f : S → Task S E A) → ((s : S) → P s → Keeps P (f s)) → Keeps P (get >>= f)
  unfolding ◌>>=◌
  Keeps-read f h = record { at = λ s p. (h s p).at s p }

pub ruleset keeps_rules = (
  Keeps-pure, Keeps-raise, Keeps-expect, Keeps-attempt, Keeps-if, Keeps-require, Keeps-bind,
  Keeps-get,
)

module _ {S E A B : Type 0} where
  -- a bind that succeeds has a first part that succeeds, and goes on from where that ends
  pub bind-done :
      (a : Task S E A) (f : A → Task S E B) (s : S) (b : B) (t : S)
      → (a >>= f) s ≡ (done b, t)
      → (x : A) × (u : S) × ((a s ≡ (done x, u)) × (f x u ≡ (done b, t)))
  unfolding ◌>>=◌
  bind-done a f s b t e = go (a s) refl e
    where
      go :
          (r : Outcome E A × S)
          → a s ≡ r
          → continue r f ≡ (done b, t)
          → (x : A) × (u : S) × ((a s ≡ (done x, u)) × (f x u ≡ (done b, t)))
      go (done x, u) h e = (x, u, (h, e))
      go (raised x, u) h e = absurd (ground (arith, e))

module _ {S E : Type 0} where
  pub require-done :
      (b : Bool) (e : E) (s t : S) (u : Unit {0})
      → require b e s ≡ (done u, t)
      → (b ≡ true) × (s ≡ t)
  unfolding require
  require-done true e s t u h = (refl, ap (λ r. r.1) h)
  require-done false e s t u h = absurd (ground (arith, h))

module _ {S E A : Type 0} where
  pub expect-done :
      (o : Option A) (e : E) (s t : S) (a : A) → expect o e s ≡ (done a, t) → (o ≡ some a) × (s ≡ t)
  unfolding expect
  expect-done none e s t a h = absurd (ground (arith, h))
  expect-done (some x) e s t a h = (ground (arith, h), ap (λ r. r.1) h)

-- the states along a `do` block that succeeds
module _ {S E B : Type 0} where
  pub get-then :
      (f : S → Task S E B) (s t : S) (b : B) → (get >>= f) s ≡ (done b, t) → f s s ≡ (done b, t)
  unfolding ◌>>=◌
  get-then f s t b h = h

  pub put-then :
      (u : S) (k : Task S E B) (s t : S) (b : B) → (put u >> k) s ≡ (done b, t) → k u ≡ (done b, t)
  unfolding ◌>>=◌
  put-then u k s t b h = h

  pub require-then :
      (c : Bool) (e : E) (k : Task S E B) (s t : S) (b : B)
      → (require c e >> k) s ≡ (done b, t)
      → (c ≡ true) × (k s ≡ (done b, t))
  unfolding ◌>>=◌
  require-then true e k s t b h = (refl, h)
  require-then false e k s t b h = absurd (ground (arith, h))

  pub expect-then :
      {A : Type 0} (o : Option A) (e : E) (f : A → Task S E B) (s t : S) (b : B)
      → (expect o e >>= f) s ≡ (done b, t)
      → (a : A) × ((o ≡ some a) × (f a s ≡ (done b, t)))
  unfolding ◌>>=◌
  expect-then (some x) e f s t b h = (x, (refl, h))
  expect-then none e f s t b h = absurd (ground (arith, h))

-- a task whose result, if it has one, satisfies a predicate
pub record Yields {S E A : Type 0} (P : A → Type 0) (a : Task S E A) : Type 0 where
  pub of : (s t : S) (x : A) → a s ≡ (done x, t) → P x

module _ {S E A : Type 0} {P : A → Type 0} where
  pub Yields-pure : (x : A) → P x → Yields {S = S} {E = E} P (pure x)
  unfolding pure
  Yields-pure x p = record { of = λ s t y h. subst P (result x y s t h) p }
    where
      result : (x y : A) (s t : S) → ◌≡◌ {A = Outcome E A × S} (done x, s) (done y, t) → x ≡ y
      result x y s t h = ground (arith, h)

  pub Yields-if :
      (b : Bool) (x y : Task S E A) → Yields P x → Yields P y → Yields P (if b then x else y)
  Yields-if true x y h k = h
  Yields-if false x y h k = k

module _ {S E A B : Type 0} {P : B → Type 0} where
  pub Yields-bind :
      (a : Task S E A) (f : A → Task S E B) → ((x : A) → Yields P (f x)) → Yields P (a >>= f)
  Yields-bind a f h = record {
    of = λ s t y e. (let (x, u, (k, l)) = bind-done a f s y t e in (h x).of u t y l);
  }

  -- what follows a value that may be missing may use that it is there
  pub Yields-expect :
      (o : Option A) (e : E) (f : A → Task S E B)
      → ((x : A) → o ≡ some x → Yields P (f x))
      → Yields P (expect o e >>= f)
  Yields-expect o e f h = record {
    of = λ s t y k. (let (x, (l, m)) = expect-then o e f s t y k in (h x l).of s t y m);
  }

  -- what follows a task may use what its result satisfies
  pub Yields-then :
      {Q : A → Type 0} (a : Task S E A) (f : A → Task S E B)
      → Yields Q a
      → ((x : A) → Q x → Yields P (f x))
      → Yields P (a >>= f)
  Yields-then a f h g = record {
    of = λ s t y e. (let (x, u, (k, l)) = bind-done a f s y t e in (g x (h.of s u x k)).of u t y l);
  }
