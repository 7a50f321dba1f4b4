-- ===== src/LogBuffer/Ring.antt =====
-- ringbuff.go. The mutex makes each method one step. `wait.Broadcast()` only wakes the consumers
-- that wait in `Pop`, which is `Popped.waits` here.
pub mod Overfill
pub mod Fifo
use pouch.Prelude.{
  ℕ, zero, suc, Bool, true, false, ◌&&◌, not, Option, none, some, List, [], ◌∷◌, ◌==◌,
  if◌then◌else◌, length,
}
use pouch.Prelude.Int.{ℤ, pos, ◌+ℤ◌, ◌-ℤ◌, ltb_ℤ, int64}
use pouch.LogBuffer.Queue.{LogMessage, Queue, new_queue, size, enqueue, dequeue}

pub record RingBuffer : Type 0 where
  pub closed : Bool
  pub q : Queue
  pub max_bytes : ℤ
  pub current_bytes : ℤ

abbrev pub default_max_bytes : ℤ
default_max_bytes = pos 1000000

unfoldable pub new_ring_buffer : ℤ → RingBuffer
new_ring_buffer max = record {
  closed = false;
  q = new_queue;
  max_bytes = if ltb_ℤ max (pos 0) then default_max_bytes else max;
  current_bytes = pos 0;
}

-- What `Push` did: its error, or nil. `ErrClosed` is the only error.
pub data Pushed : Type 0 where
  err_closed : Pushed
  accepted : Pushed
  ignored : Pushed

-- `e` is the element that the pool would hand out. `Push` returns nil when the message is accepted
-- and when it is ignored, so the two are told apart only here.
unfoldable pub push : ℕ → Option LogMessage → RingBuffer → Pushed × RingBuffer
push e val rb = if rb.closed then (err_closed, rb) else elim val [
  | none ↦ (ignored, rb)
  | some m ↦
      if ltb_ℤ rb.max_bytes (int64 (rb.current_bytes +ℤ pos (length m.line)))
      then (ignored, rb)
      else (accepted, record rb { q = enqueue e m rb.q })
]

pub data Popped : Type 0 where
  waits : Popped
  pop_closed : Popped
  panics : Popped
  popped : LogMessage → Popped

-- `val.Line` panics on a nil message.
unfoldable pub take_off : RingBuffer → Option (Option LogMessage × Queue) → Popped × RingBuffer
take_off rb none = (panics, rb)
take_off rb (some (none, q)) = (panics, record rb { q = q })
take_off rb (some (some m, q)) =
    (popped m, record rb { q = q; current_bytes = int64 (rb.current_bytes -ℤ pos (length m.line)) })

unfoldable pub pop : RingBuffer → Popped × RingBuffer
unfolding take_off
pop rb =
    if (size rb.q == 0) && not rb.closed
    then (waits, rb)
    else if rb.closed
    then (pop_closed, rb)
    else take_off rb (dequeue rb.q)

-- the loop of `Drain`: `none` is a panic in `dequeue`
unfoldable pub drain_loop : ℕ → Queue → Option (List (Option LogMessage) × Queue)
drain_loop zero q = some ([], q)
drain_loop (suc n) q = elim (dequeue q) [
  | none ↦ none
  | some r ↦ elim (drain_loop n r.1) [ none ↦ none | some t ↦ some (r.0 ∷ t.0, t.1) ]
]

unfoldable pub drain : RingBuffer → Option (List (Option LogMessage) × RingBuffer)
drain rb = elim (drain_loop (size rb.q) rb.q) [
  | none ↦ none
  | some r ↦ some (r.0, record rb { q = r.1; current_bytes = pos 0 })
]

-- `Close` on a closed buffer does nothing.
unfoldable pub close : RingBuffer → RingBuffer
close rb = if rb.closed then rb else record rb { closed = true }
