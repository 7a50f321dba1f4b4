-- ===== src/Container/Manager/Action.antt =====
-- Methods of the manager: they change its tables and may return an error. What was changed before an
-- error stays changed.
use pouch.Prelude.{Bool, true, false, Text, text_eq, ◌∷◌, if◌then◌else◌, insert}
use pouch.Container.State.{State}
use pouch.Container.Manager.{Container, Event, Manager, Err, failed, Result, ok, err}

abbrev pub Action : Type 0 → Type 0
Action A = Manager → Result A × Manager

unfoldable pub pure : {A : Type 0} → A → Action A
pure a m = (ok a, m)

abbrev pub then_run : {A B : Type 0} → Result A × Manager → (A → Action B) → Result B × Manager
then_run (ok a, m) f = f a m
then_run (err e, m) f = (err e, m)

unfoldable pub raise : {A : Type 0} → Err → Action A
raise e m = (err e, m)

-- A call of the runtime, the network or the disk, by whether it succeeds.
unfoldable pub call : Bool → Err → Action (Unit {0})
call true e m = (ok tt, m)
call false e m = (err e, m)

unfoldable pub lift : {A : Type 0} → (Manager → Result A) → Action A
lift f m = (f m, m)

unfoldable pub get : Text → Action Container
get p m = (ok (m.heap p), m)

abbrev pub set_heap : (Text → Container) → Text → Container → Text → Container
set_heap heap p c q = if text_eq p q then c else heap q

unfoldable pub set_container : Text → (Container → Container) → Action (Unit {0})
set_container p f m = (ok tt, record m { heap = set_heap m.heap p (f (m.heap p)) })

unfoldable pub set_state : Text → (State → State) → Action (Unit {0})
unfolding set_container
set_state p f = set_container p (λ c. record c { state = f c.state })

-- `c.Write(mgr.Store)`
unfoldable pub write : Bool → Text → Action (Unit {0})
write true p m = (ok tt, record m { store = insert p (m.heap p) m.store })
write false p m = (err failed, m)

unfoldable pub log_event : Text → Event → Action (Unit {0})
log_event p e m = (ok tt, record m { events = (p, e) ∷ m.events })

-- an error that is only logged
unfoldable pub ignore_error : Action (Unit {0}) → Action (Unit {0})
ignore_error a m = (ok tt, (a m).1)

infixl 10 ◌>>=◌ ◌>>◌
-- opening this opens the other parts of a `do` block too
unfoldable pub ◌>>=◌ : {A B : Type 0} → Action A → (A → Action B) → Action B
unfolding pure raise call lift get set_container set_state write log_event ignore_error
◌>>=◌ a f m = then_run (a m) f

abbrev pub ◌>>◌ : {B : Type 0} → Action (Unit {0}) → Action B → Action B
a >> b = a >>= λ _. b
