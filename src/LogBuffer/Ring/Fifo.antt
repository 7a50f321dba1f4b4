-- ===== src/LogBuffer/Ring/Fifo.antt =====
-- What goes into the buffer comes out of it: each accepted message once, in order.
use pouch.Prelude.{
  ℕ, ◌≡◌, refl, ap, sym, ◌∙◌, false, true, Option, none, some, List, [], ◌∷◌, ◌++◌, map, subst,
  length, arith, ◌⊎◌, inl, inr, ◌≢◌,
}
use mathlib.Core.List.{append-nil, append_assoc, map-append}
use pouch.Prelude.Int.{ℤ, pos}
use pouch.LogBuffer.Queue.{LogMessage, Queue, null, root, size, enqueue, unlink, dequeue}
use pouch.LogBuffer.Queue.Chain.{
  Cells, IsQueue, Fresh, new_queue-IsQueue, enqueue-IsQueue, unlink-IsQueue, dequeue-head,
  prev-root,
}
use pouch.LogBuffer.Ring.{
  RingBuffer, new_ring_buffer, Pushed, err_closed, accepted, ignored, push, Popped, waits, panics,
  pop_closed, popped, pop, take_off, drain_loop, drain, close,
}

abbrev pub pending : Cells → List (Option LogMessage)
pending [] = []
pending ((_, m) ∷ es) = some m ∷ pending es

pub pending-append :
    (es : Cells) (e : ℕ) (m : LogMessage) → pending (es ++ (e, m) ∷ []) ≡ pending es ++ some m ∷ []
pending-append [] e m = refl
pending-append ((a, n) ∷ es) e m = ap (◌∷◌ (some n)) (pending-append es e m)

-- A buffer, what it has accepted and what it has handed out.
pub record Trace : Type 0 where
  pub rb : RingBuffer
  pub taken_in : List LogMessage
  pub given_out : List (Option LogMessage)

abbrev taken : Pushed → Option LogMessage → List LogMessage
taken accepted (some m) = m ∷ []
taken accepted none = []
taken err_closed _ = []
taken ignored _ = []

abbrev given : Popped → List (Option LogMessage)
given (popped m) = some m ∷ []
given waits = []
given pop_closed = []
given panics = []

pub after_push : ℕ → Option LogMessage → Trace → Trace
after_push e val t =
    let r = push e val t.rb in record t { rb = r.1; taken_in = t.taken_in ++ taken r.0 val }

pub after_pop : Trace → Trace
after_pop t = let r = pop t.rb in record t { rb = r.1; given_out = t.given_out ++ given r.0 }

pub after_drain : Trace → Trace
after_drain t = elim (drain t.rb) [
  | none ↦ t
  | some r ↦ record t { rb = r.1; given_out = t.given_out ++ r.0 }
]

-- any order of calls; the pool hands out an element that the queue does not hold
pub data Reach (max : ℤ) : Trace → Type 0 where
  start : Reach max (record { rb = new_ring_buffer max; taken_in = []; given_out = [] })
  pushes :
      {t : Trace} (e : ℕ) (val : Option LogMessage)
      → ((es : Cells) → IsQueue t.rb.q es → Fresh e es)
      → Reach max t
      → Reach max (after_push e val t)
  pops : {t : Trace} → Reach max t → Reach max (after_pop t)
  drains : {t : Trace} → Reach max t → Reach max (after_drain t)
  closes : {t : Trace} → Reach max t → Reach max (record t { rb = close t.rb })

-- the buffer holds what was taken in and not yet given out
pub record Holds (t : Trace) (es : Cells) : Type 0 where
  pub queue : IsQueue t.rb.q es
  pub balance : t.given_out ++ pending es ≡ map some t.taken_in

push-none :
    (e : ℕ) (rb : RingBuffer) → ((push e none rb).1.q ≡ rb.q) × (taken (push e none rb).0 none ≡ [])
unfolding push
push-none e rb = ground arith

push-cases :
    (e : ℕ) (m : LogMessage) (rb : RingBuffer)
    → let r = push e (some m) rb in
      ((r.1.q ≡ rb.q) × (taken r.0 (some m) ≡ []))
      ⊎ ((r.1.q ≡ enqueue e m rb.q) × (taken r.0 (some m) ≡ m ∷ []))
unfolding push
push-cases e m rb = ground arith

push_Holds :
    (t : Trace) (es : Cells) (e : ℕ) (val : Option LogMessage)
    → Holds t es
    → Fresh e es
    → (fs : Cells) × Holds (after_push e val t) fs
unfolding after_push
push_Holds t es e none h f = (
  es,
  record {
    queue = subst (λ q. IsQueue q es) (sym (push-none e t.rb).0) h.queue;
    balance = rw ((push-none e t.rb).1, append-nil) h.balance;
  },
)
push_Holds t es e (some m) h f = elim (push-cases e m t.rb) [
  | inl p ↦ (
    es,
    record {
      queue = subst (λ q. IsQueue q es) (sym p.0) h.queue;
      balance = rw (p.1, append-nil) h.balance;
    },
  )
  | inr p ↦ (
    es ++ (e, m) ∷ [],
    record {
      queue =
          subst (λ q. IsQueue q (es ++ (e, m) ∷ [])) (sym p.0)
            (enqueue-IsQueue t.rb.q e m es h.queue f);
      balance = rw p.1 (simp (pending-append, map-append, ← append_assoc, h.balance));
    },
  )
]

pop-cases :
    (rb : RingBuffer)
    → let r = pop rb in
      ((r.1.q ≡ rb.q) × (given r.0 ≡ []) × (r.0 ≢ panics))
      ⊎ ((rb.closed ≡ false) × (size rb.q ≢ 0) × (r ≡ take_off rb (dequeue rb.q)))
unfolding pop
pop-cases rb = ground arith

taken_off :
    (t : Trace) (es : Cells)
    → Holds t es
    → size t.rb.q ≢ 0
    → let r = take_off t.rb (dequeue t.rb.q) in
      (fs : Cells) × Holds (record t { rb = r.1; given_out = t.given_out ++ given r.0 }) fs
      × (r.0 ≢ panics)
unfolding take_off size
taken_off t [] h n = absurd (n h.queue.count)
taken_off t ((e, m) ∷ es) h n = rw (dequeue-head t.rb.q ((e, m) ∷ es) h.queue) (
  es,
  record {
    queue = unlink-IsQueue t.rb.q e m es h.queue;
    balance = append_assoc t.given_out (some m ∷ []) (pending es) ∙ h.balance;
  },
  λ p. cc,
)

pop-Holds :
    (t : Trace) (es : Cells)
    → Holds t es
    → (fs : Cells) × Holds (after_pop t) fs × ((pop t.rb).0 ≢ panics)
unfolding after_pop
pop-Holds t es h = elim (pop-cases t.rb) [
  | inl p ↦ (
    es,
    record {
      queue = subst (λ q. IsQueue q es) (sym p.0) h.queue;
      balance = rw (p.1, append-nil) h.balance;
    },
    p.2,
  )
  | inr p ↦ rw p.2 (taken_off t es h p.1)
]

drain_loop_lem :
    (q : Queue) (es : Cells)
    → IsQueue q es
    → (r : Queue) × (drain_loop (length es) q ≡ some (pending es, r)) × IsQueue r []
unfolding drain_loop
drain_loop_lem q [] h = (q, refl, h)
drain_loop_lem q ((e, m) ∷ es) h =
    let (r, p, i) = drain_loop_lem (unlink e q) es (unlink-IsQueue q e m es h) in
    (r, rw (drain_loop, dequeue-head q ((e, m) ∷ es) h, p), i)

-- `Drain` returns everything that is queued, in order, and leaves an empty queue.
pub drain-pending :
    (rb : RingBuffer) (es : Cells)
    → IsQueue rb.q es
    → (rb' : RingBuffer) × (drain rb ≡ some (pending es, rb'))
      × IsQueue rb'.q []
      × (rb'.closed ≡ rb.closed)
unfolding drain size
drain-pending rb es h =
    let (r, p, i) = drain_loop_lem rb.q es h in
    (record rb { q = r; current_bytes = pos 0 }, simp (drain, size, h.count, p), i, refl)

drain_Holds : (t : Trace) (es : Cells) → Holds t es → Holds (after_drain t) []
unfolding after_drain
drain_Holds t es h =
    let (r, p, i, c) = drain-pending t.rb es h.queue in
    rw (p, after_drain) (record { queue = i; balance = rw append-nil h.balance })

pub close_lem : (rb : RingBuffer) → ((close rb).q ≡ rb.q) × ((close rb).closed ≡ true)
unfolding close
close_lem rb = ground arith

reach_Holds : (max : ℤ) {t : Trace} → Reach max t → (es : Cells) × Holds t es
unfolding new_ring_buffer
reach_Holds max start = ([], record { queue = new_queue-IsQueue; balance = refl })
reach_Holds max (pushes {t} e val f r) =
    let (es, h) = reach_Holds max r in push_Holds t es e val h (f es h.queue)
reach_Holds max (pops {t} r) =
    let (es, h) = reach_Holds max r in let p = pop-Holds t es h in (p.0, p.1)
reach_Holds max (drains {t} r) = let (es, h) = reach_Holds max r in ([], drain_Holds t es h)
reach_Holds max (closes {t} r) =
    let (es, h) = reach_Holds max r in
    (
      es,
      record {
        queue = subst (λ q. IsQueue q es) (sym (close_lem t.rb).0) h.queue;
        balance = h.balance;
      },
    )

drain-works : (rb : RingBuffer) (es : Cells) → IsQueue rb.q es → drain rb ≢ none
drain-works rb es h = let (r, p, i, c) = drain-pending rb es h in λ e. cc

-- Whatever the calls and their order, what was handed out followed by what is queued is what was
-- accepted: nothing is lost, repeated or reordered. Nil pointers are not followed: `Pop` and `Drain` do
-- not panic in any state that is reached, and `enqueue` finds an element to link the new one to.
pub fifo :
    (max : ℤ) {t : Trace}
    → Reach max t
    → (es : Cells) × Holds t es
      × ((pop t.rb).0 ≢ panics)
      × (drain t.rb ≢ none)
      × (t.rb.q.prev root ≢ null)
fifo max {t} r =
    let (es, h) = reach_Holds max r in
    (
      es,
      h,
      (pop-Holds _ es h).2,
      drain-works t.rb es h.queue,
      prev-root t.rb.q root es h.queue.chain h.queue.distinct (omega arith),
    )
