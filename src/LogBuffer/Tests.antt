-- ===== src/LogBuffer/Tests.antt =====
-- Runs of the log buffer, and the theorems at concrete inputs.
use pouch.Prelude.{ℕ, ◌≡◌, refl, ◌≢◌, true, false, Option, none, some, List, [], ◌∷◌, str, arith}
use pouch.Prelude.Int.{pos, ◌+ℤ◌, int64}
use pouch.LogBuffer.Queue.{LogMessage, Queue, null, root, new_queue, enqueue, dequeue}
use pouch.LogBuffer.Queue.Chain.{Cells, Fresh, IsQueue, new_queue-IsQueue, enqueue-IsQueue}
use pouch.LogBuffer.Ring.{new_ring_buffer, pop, panics, drain, drain_loop, push}
use pouch.LogBuffer.Ring.Overfill.{push_all}
use pouch.LogBuffer.Ring.Fifo.{Trace, start, pushes, pops, after_push, Holds, after_pop, fifo}
use pouch.LogBuffer.Driver.{
  LogDriver, LogBuffer, close_log_buffer, close_flushes, Written, run_round, stopped,
  write_log_message,
}
use pouch.LogBuffer.Ring.{err_closed}

abbrev hello : LogMessage
hello = record { source = str "stdout"; line = b'h' ∷ b'i' ∷ []; timestamp = 7 }

abbrev bye : LogMessage
bye = record { source = str "stderr"; line = b'b' ∷ b'y' ∷ b'e' ∷ []; timestamp = 8 }

drained :
    elim (drain (push_all 2 (hello ∷ bye ∷ []) (new_ring_buffer (pos 3)))) [
      | none ↦ []
      | some r ↦ r.0
    ]
    ≡ some hello ∷ some bye ∷ []
unfolding drain drain_loop dequeue push_all push new_ring_buffer enqueue new_queue int64 ◌+ℤ◌
drained = refl

Fresh-at_start : (es : Cells) → IsQueue (new_ring_buffer (pos 3)).q es → Fresh 2 es
unfolding new_ring_buffer new_queue
Fresh-at_start [] h = omega arith
Fresh-at_start (c ∷ es) h = absurd (omega (arith, h.count))

abbrev one_round : Trace
one_round = after_pop (
    after_push 2 (some hello)
      (record { rb = new_ring_buffer (pos 3); taken_in = []; given_out = [] }))

fifo_example :
    (es : Cells) × Holds one_round es
    × ((pop one_round.rb).0 ≢ panics)
    × (drain one_round.rb ≢ none)
    × (one_round.rb.q.prev root ≢ null)
fifo_example = fifo (pos 3) (pops (pushes 2 (some hello) Fresh-at_start start))

one_queued : IsQueue (enqueue 2 hello new_queue) ((2, hello) ∷ [])
one_queued = enqueue-IsQueue new_queue 2 hello [] new_queue-IsQueue (omega arith)

two_queued : IsQueue (enqueue 3 bye (enqueue 2 hello new_queue)) ((2, hello) ∷ (3, bye) ∷ [])
two_queued =
    enqueue-IsQueue (enqueue 2 hello new_queue) 3 bye ((2, hello) ∷ []) one_queued (omega arith)

abbrev first_bye : Queue
first_bye = enqueue 3 bye (enqueue 2 hello new_queue)

-- a driver that keeps what it is given and fails on every write
abbrev keeper : LogDriver
keeper = record {
  State = List (Option LogMessage);
  write = λ m ms. (false, m ∷ ms);
  shut = λ ms. (true, ms);
}

abbrev loaded : LogBuffer keeper
loaded = record { ring_buffer = record (new_ring_buffer (pos 10)) { q = first_bye }; logger = [] }

close_flushes_example :
    (bl : LogBuffer keeper) × (s : List (Option LogMessage)) × Written keeper
      (some hello ∷ some bye ∷ [])
      []
      s
    × (close_log_buffer keeper loaded ≡ some (true, bl))
    × (bl.logger ≡ s)
    × IsQueue bl.ring_buffer.q []
    × ((run_round keeper bl).0 ≡ stopped)
    × ((e : ℕ) (msg : Option LogMessage) → (write_log_message keeper e msg bl).0 ≡ err_closed)
close_flushes_example = close_flushes keeper loaded ((2, hello) ∷ (3, bye) ∷ []) two_queued
