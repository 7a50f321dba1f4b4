-- ===== src/LogBuffer/Driver.antt =====
-- logbuff.go: the log driver that writes through the buffer to another driver. Writing to the inner
-- driver may fail; the failure is only logged.
use pouch.Prelude.{
  ℕ, ◌≡◌, refl, sym, subst, ◌∙◌, Bool, true, Option, none, some, List, [], ◌∷◌, arith,
}
use pouch.Prelude.Int.{ℤ}
use pouch.LogBuffer.Queue.{LogMessage}
use pouch.LogBuffer.Queue.Chain.{Cells, IsQueue}
use pouch.LogBuffer.Ring.{
  RingBuffer, new_ring_buffer, Pushed, err_closed, push, Popped, waits, pop_closed, panics, popped,
  pop, drain, close,
}
use pouch.LogBuffer.Ring.Fifo.{pending, drain-pending, close_lem}

-- `logger.LogDriver`: an interface, with `true` for a write that succeeds.
pub record LogDriver : Type 1 where
  pub State : Type 0
  pub write : Option LogMessage → State → Bool × State
  pub shut : State → Bool × State

-- What one round of `run` did.
pub data Round : Type 0 where
  blocked : Round
  stopped : Round
  crashed : Round
  wrote : Round

module _ (D : LogDriver) where
  open D use {State, write, shut}

  pub record LogBuffer : Type 0 where
    pub ring_buffer : RingBuffer
    pub logger : State

  pub new_log_buffer : State → ℤ → LogBuffer
  new_log_buffer s max = record { ring_buffer = new_ring_buffer max; logger = s }

  pub write_log_message : ℕ → Option LogMessage → LogBuffer → Pushed × LogBuffer
  write_log_message e msg bl =
      let r = push e msg bl.ring_buffer in (r.0, record bl { ring_buffer = r.1 })

  -- the loop of `Close` over the drained messages
  unfoldable pub write_each : List (Option LogMessage) → State → State
  write_each [] s = s
  write_each (m ∷ ms) s = write_each ms (write m s).1

  -- `none` is a panic
  pub close_log_buffer : LogBuffer → Option (Bool × LogBuffer)
  unfolding write_each
  close_log_buffer bl = elim (drain (close bl.ring_buffer)) [
    | none ↦ none
    | some r ↦
        let c = shut (write_each r.0 bl.logger) in
        some (c.0, record { ring_buffer = r.1; logger = c.1 })
  ]

  after_pop : LogBuffer → Popped × RingBuffer → Round × LogBuffer
  after_pop bl (waits, rb) = (blocked, record bl { ring_buffer = rb })
  after_pop bl (pop_closed, rb) = (stopped, record bl { ring_buffer = rb })
  after_pop bl (panics, rb) = (crashed, record bl { ring_buffer = rb })
  after_pop bl (popped m, rb) =
      (wrote, record { ring_buffer = rb; logger = (write (some m) bl.logger).1 })

  -- one round of the loop in `run`
  pub run_round : LogBuffer → Round × LogBuffer
  unfolding after_pop
  run_round bl = after_pop bl (pop bl.ring_buffer)

  -- After `Close`, `run` ends at its next round and a write is refused.
  closed_for_good :
      (bl : LogBuffer) (e : ℕ) (msg : Option LogMessage)
      → bl.ring_buffer.closed ≡ true
      → ((run_round bl).0 ≡ stopped) × ((write_log_message e msg bl).0 ≡ err_closed)
  unfolding run_round write_log_message pop push
  closed_for_good bl e msg c = (ground arith, ground arith)

  -- The inner driver is in state `t` after it was given the messages one by one from state `s` on, whatever
  -- it answered.
  pub data Written : List (Option LogMessage) → State → State → Type 0 where
    nothing_left : (s : State) → Written [] s s
    one_more :
        (m : Option LogMessage) (ms : List (Option LogMessage)) (s t : State)
        → Written ms (write m s).1 t
        → Written (m ∷ ms) s t

  write_each-Written : (ms : List (Option LogMessage)) (s : State) → Written ms s (write_each ms s)
  unfolding write_each
  write_each-Written [] s = nothing_left s
  write_each-Written (m ∷ ms) s = one_more m ms s _ (write_each-Written ms (write m s).1)

  -- `Close` writes every message that is still queued to the inner driver, in order, whether or not
  -- a write fails, closes that driver with its answer, and leaves an empty buffer that ends `run`
  -- and refuses writes.
  pub close_flushes :
      (bl : LogBuffer) (es : Cells)
      → IsQueue bl.ring_buffer.q es
      → (bl' : LogBuffer) × (s : State) × Written (pending es) bl.logger s
        × (close_log_buffer bl ≡ some ((shut s).0, bl'))
        × (bl'.logger ≡ (shut s).1)
        × IsQueue bl'.ring_buffer.q []
        × ((run_round bl').0 ≡ stopped)
        × ((e : ℕ) (msg : Option LogMessage) → (write_log_message e msg bl').0 ≡ err_closed)
  unfolding close_log_buffer
  close_flushes bl es h =
      let (q_same, shut_off) = close_lem bl.ring_buffer in
      let (rb, p, i, c) =
        drain-pending (close bl.ring_buffer) es (subst (λ q. IsQueue q es) (sym q_same) h) in
      let s = write_each (pending es) bl.logger in
      let bl' : LogBuffer = record { ring_buffer = rb; logger = (shut s).1 } in
      let ended = λ (e : ℕ) (msg : Option LogMessage). closed_for_good bl' e msg (c ∙ shut_off) in
      (
        bl',
        s,
        write_each-Written (pending es) bl.logger,
        rw (close_log_buffer, p),
        refl,
        i,
        (ended 0 none).0,
        λ e msg. (ended e msg).1,
      )
