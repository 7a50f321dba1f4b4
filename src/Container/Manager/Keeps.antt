-- ===== src/Container/Manager/Keeps.antt =====
-- Predicates on the state of every container, and the actions that keep them.
use pouch.Prelude.{Bool, true, false, Text, text_eq, if◌then◌else◌}
use pouch.Container.State.{State}
use pouch.Container.Manager.{Container, Event, Manager, Err, Result, ok, err}
use pouch.Container.Manager.Action.{
  Action, pure, raise, call, lift, get, set_container, set_state, write, log_event, ignore_error,
  ◌>>=◌, then_run,
}

pub record States (P : State → Type 0) (m : Manager) : Type 0 where
  pub of_each : (q : Text) → P (m.heap q).state

pub record Keeps {A : Type 0} (P : State → Type 0) (a : Action A) : Type 0 where
  pub at : (m : Manager) → States P m → States P (a m).1

module _ {A : Type 0} {P : State → Type 0} where
  pub Keeps-pure : (x : A) → Keeps P (pure x)
  unfolding pure
  Keeps-pure x = record { at = λ m h. h }

  pub Keeps-raise : (e : Err) → Keeps P (raise {A = A} e)
  unfolding raise
  Keeps-raise e = record { at = λ m h. h }

  pub Keeps-lift : (f : Manager → Result A) → Keeps P (lift f)
  unfolding lift
  Keeps-lift f = record { at = λ m h. h }

  pub Keeps-if : (b : Bool) (x y : Action A) → Keeps P x → Keeps P y → Keeps P (if b then x else y)
  Keeps-if true x y h k = h
  Keeps-if false x y h k = k

module _ {A B : Type 0} {P : State → Type 0} where
  pub Keeps-bind :
      (a : Action A) (f : A → Action B) → Keeps P a → ((x : A) → Keeps P (f x)) → Keeps P (a >>= f)
  unfolding ◌>>=◌
  Keeps-bind a f h k = record { at = λ m s. go m (a m) (h.at m s) }
    where
      go : (m : Manager) (r : Result A × Manager) → States P r.1 → States P (then_run r f).1
      go m (ok x, m') s = (k x).at m' s
      go m (err e, m') s = s

module _ {P : State → Type 0} where
  pub Keeps-call : (b : Bool) (e : Err) → Keeps P (call b e)
  unfolding call
  Keeps-call true e = record { at = λ m h. h }
  Keeps-call false e = record { at = λ m h. h }

  pub Keeps-get : (p : Text) → Keeps P (get p)
  unfolding get
  Keeps-get p = record { at = λ m h. h }

  pub Keeps-log_event : (p : Text) (e : Event) → Keeps P (log_event p e)
  unfolding log_event
  Keeps-log_event p e = record { at = λ m h. record { of_each = h.of_each } }

  pub Keeps-write : (b : Bool) (p : Text) → Keeps P (write b p)
  unfolding write
  Keeps-write true p = record { at = λ m h. record { of_each = h.of_each } }
  Keeps-write false p = record { at = λ m h. h }

  pub Keeps-ignore_error : (a : Action (Unit {0})) → Keeps P a → Keeps P (ignore_error a)
  unfolding ignore_error
  Keeps-ignore_error a h = record { at = h.at }

  pub Keeps-set_container :
      (p : Text) (f : Container → Container)
      → ((c : Container) → P c.state → P (f c).state)
      → Keeps P (set_container p f)
  unfolding set_container
  Keeps-set_container p f h = record {
    at = λ m s. record {
      of_each = λ q. go m q (text_eq p q) (h (m.heap p) (s.of_each p)) (s.of_each q);
    };
  }
    where
      go :
          (m : Manager) (q : Text) (b : Bool)
          → P (f (m.heap p)).state
          → P (m.heap q).state
          → P (if b then f (m.heap p) else m.heap q).state
      go m q true x y = x
      go m q false x y = y

  pub Keeps-set_state :
      (p : Text) (f : State → State) → ((s : State) → P s → P (f s)) → Keeps P (set_state p f)
  unfolding set_state
  Keeps-set_state p f h =
      Keeps-set_container p (λ c. record c { state = f c.state }) (λ c. h c.state)

pub ruleset keeps_rules = (
  Keeps-pure, Keeps-raise, Keeps-lift, Keeps-if, Keeps-bind, Keeps-call, Keeps-get, Keeps-log_event,
  Keeps-write, Keeps-ignore_error, Keeps-set_container, Keeps-set_state,
)
