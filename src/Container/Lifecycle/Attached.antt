-- ===== src/Container/Lifecycle/Attached.antt =====
-- The actions of a start that leave alone which volumes are attached.
use pouch.Prelude.{
  ◌≡◌, refl, ◌∙◌, Bool, true, false, Text, Option, none, some, List, [], ◌∷◌, ℕ, if◌then◌else◌,
  arith,
}
use pouch.Container.State.{State}
use pouch.Container.Manager.{Container, Manager, Err, Result, ok, err, container}
use pouch.Container.Manager.Action.{
  Action, pure, raise, call, set_container, set_state, write, ignore_error, ◌>>=◌, then_run,
}
use pouch.Container.Lifecycle.{
  Env, Message, Removal, removed, sandbox_not_found, removal_failed, remove_endpoints, reset_ios,
  release_resources, release_and_write, release_if_known, if_known, finally,
  mark_stopped_and_release, mark_running, create_containerd_container,
}

pub record Leaves {A : Type 0} (a : Action A) : Type 0 where
  pub at : (m : Manager) → (a m).1.attached ≡ m.attached

module _ {A : Type 0} where
  Leaves-pure : (x : A) → Leaves (pure x)
  unfolding pure
  Leaves-pure x = record { at = λ m. refl }

  Leaves-raise : (e : Err) → Leaves (raise {A = A} e)
  unfolding raise
  Leaves-raise e = record { at = λ m. refl }

  Leaves-if : (b : Bool) (x y : Action A) → Leaves x → Leaves y → Leaves (if b then x else y)
  Leaves-if true x y h k = h
  Leaves-if false x y h k = k

module _ {A B : Type 0} where
  Leaves-bind :
      (a : Action A) (f : A → Action B) → Leaves a → ((x : A) → Leaves (f x)) → Leaves (a >>= f)
  unfolding ◌>>=◌
  Leaves-bind a f h k = record { at = λ m. go (a m) ∙ h.at m }
    where
      go : (r : Result A × Manager) → (then_run r f).1.attached ≡ r.1.attached
      go (ok x, m) = (k x).at m
      go (err e, m) = refl

Leaves-call : (b : Bool) (e : Err) → Leaves (call b e)
unfolding call
Leaves-call true e = record { at = λ m. refl }
Leaves-call false e = record { at = λ m. refl }

Leaves-write : (b : Bool) (p : Text) → Leaves (write b p)
unfolding write
Leaves-write true p = record { at = λ m. refl }
Leaves-write false p = record { at = λ m. refl }

Leaves-ignore_error : (a : Action (Unit {0})) → Leaves a → Leaves (ignore_error a)
unfolding ignore_error
Leaves-ignore_error a h = record { at = h.at }

Leaves-set_container : (p : Text) (f : Container → Container) → Leaves (set_container p f)
unfolding set_container
Leaves-set_container p f = record { at = λ m. refl }

Leaves-set_state : (p : Text) (f : State → State) → Leaves (set_state p f)
unfolding set_state
Leaves-set_state p f = record { at = λ m. refl }

ruleset leaves_rules = (
  Leaves-pure, Leaves-raise, Leaves-if, Leaves-bind, Leaves-call, Leaves-write, Leaves-ignore_error,
  Leaves-set_container, Leaves-set_state,
)

reset_ios-Leaves : (p : Text) → Leaves (reset_ios p)
unfolding reset_ios
reset_ios-Leaves p = record { at = λ m. ground arith }

remove_endpoints-Leaves : (rs : List Removal) → Leaves (remove_endpoints rs)
unfolding remove_endpoints
remove_endpoints-Leaves [] = search leaves_rules
remove_endpoints-Leaves (removed ∷ rs) = remove_endpoints-Leaves rs
remove_endpoints-Leaves (sandbox_not_found ∷ rs) = remove_endpoints-Leaves rs
remove_endpoints-Leaves (removal_failed ∷ rs) = search leaves_rules

pub release_resources-Leaves : (env : Env) (p : Text) → Leaves (release_resources env p)
unfolding release_resources
release_resources-Leaves env p = search (leaves_rules, reset_ios-Leaves, remove_endpoints-Leaves)

finally-Leaves : (a b : Action (Unit {0})) → Leaves a → Leaves b → Leaves (finally a b)
unfolding finally
finally-Leaves a b h k = record { at = λ m. k.at (a m).1 ∙ h.at m }

release_and_write-Leaves : (env : Env) (p : Text) → Leaves (release_and_write env p)
unfolding release_and_write
release_and_write-Leaves env p = search (leaves_rules, finally-Leaves, release_resources-Leaves)

release_if_known-Leaves : (env : Env) (p : Text) → Leaves (release_if_known env p)
unfolding release_if_known
release_if_known-Leaves env p = record { at = λ m. go (container (m.heap p).name m) m }
  where
    go :
        (r : Result Text) (m : Manager)
        → (if_known r (release_and_write env p) m).1.attached ≡ m.attached
    go (ok q) m = (release_and_write-Leaves env p).at m
    go (err e) m = (Leaves-pure tt).at m

mark_stopped-Leaves :
    (env : Env) (p : Text) (msg : Option Message) → Leaves (mark_stopped_and_release env p msg)
unfolding mark_stopped_and_release
mark_stopped-Leaves env p msg = search (leaves_rules, release_if_known-Leaves)

mark_running-Leaves : (env : Env) (p : Text) (pid : Option ℕ) → Leaves (mark_running env p pid)
unfolding mark_running
mark_running-Leaves env p none = search leaves_rules
mark_running-Leaves env p (some n) = search leaves_rules

pub network_then_create-Leaves :
    (env : Env) (p : Text) (e : Err)
    → Leaves (call env.network e >>= λ _. create_containerd_container env p)
unfolding create_containerd_container
network_then_create-Leaves env p e =
    search (leaves_rules, mark_running-Leaves, mark_stopped-Leaves) depth 12
