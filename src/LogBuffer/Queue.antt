-- ===== src/LogBuffer/Queue.antt =====
-- list.go: a circular doubly linked list with a sentinel, on a store of elements.
pub mod Chain
use pouch.Prelude.{ℕ, ◌+◌, ◌-◌, ◌||◌, Option, none, some, List, Text, ◌==◌, if◌then◌else◌}

-- `logger.LogMessage`. The time stamp is a number; attributes and error are not used here.
pub record LogMessage : Type 0 where
  pub source : Text
  pub line : List ℕ
  pub timestamp : ℕ

-- nil, and the address of `queue.root`
abbrev pub null : ℕ
null = 0

abbrev pub root : ℕ
root = 1

-- `queue`, with the elements that it reaches: each field of `element` is a map from addresses.
pub record Queue : Type 0 where
  pub next : ℕ → ℕ
  pub prev : ℕ → ℕ
  pub val : ℕ → Option LogMessage
  pub count : ℕ

abbrev pub update {ℓ} : {A : Type ℓ} → (ℕ → A) → ℕ → A → ℕ → A
update f k v x = if x == k then v else f x

unfoldable pub new_queue : Queue
new_queue = record { next = λ _. root; prev = λ _. root; val = λ _. none; count = 0 }

unfoldable pub size : Queue → ℕ
size q = q.count

-- `e` is the element that the pool hands out.
unfoldable pub enqueue : ℕ → LogMessage → Queue → Queue
enqueue e v q =
    let at = q.prev root in
    record {
      next = update (update q.next at e) e root;
      prev = update (update q.prev e at) root e;
      val = update q.val e (some v);
      count = q.count + 1;
    }

-- `at.prev.next = at.next; at.next.prev = at.prev; at.reset(); q.count--`
unfoldable pub unlink : ℕ → Queue → Queue
unlink at q =
    let p = q.prev at in
    let n = q.next at in
    record {
      next = update (update q.next p n) at null;
      prev = update (update q.prev n p) at null;
      val = update q.val at none;
      count = q.count - 1;
    }

-- The outer `none` is the panic on a nil pointer, the inner one the returned nil.
unfoldable pub dequeue : Queue → Option (Option LogMessage × Queue)
unfolding size unlink
dequeue q =
    let at = q.next root in
    if size q == 0
    then some (none, q)
    else if (at == null) || (q.prev at == null) || (q.next at == null)
    then none
    else some (q.val at, unlink at q)
