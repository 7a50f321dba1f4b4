-- ===== src/LogBuffer/Queue/Chain.antt =====
-- The linked queue holds a list of elements in order.
use pouch.Prelude.{ℕ, ◌≡◌, ◌≢◌, refl, none, some, List, [], ◌∷◌, ◌++◌, length, length-append, arith}
use pouch.LogBuffer.Queue.{LogMessage, Queue, null, root, new_queue, enqueue, unlink, dequeue}

abbrev pub Cells : Type 0
Cells = List (ℕ × LogMessage)

-- from `a` the links run through the cells and back to the root, both ways
abbrev pub Chain : Queue → ℕ → Cells → Type 0
Chain q a [] = (q.next a ≡ root) × (q.prev root ≡ a)
Chain q a ((e, v) ∷ es) = (q.next a ≡ e) × (q.prev e ≡ a) × (q.val e ≡ some v) × Chain q e es

abbrev pub Apart : ℕ → Cells → Type 0
Apart a [] = Unit
Apart a ((e, _) ∷ es) = (a ≢ e) × Apart a es

abbrev pub Distinct : Cells → Type 0
Distinct [] = Unit
Distinct ((e, _) ∷ es) = Apart e es × (e ≢ root) × (e ≢ null) × Distinct es

pub record IsQueue (q : Queue) (es : Cells) : Type 0 where
  pub chain : Chain q root es
  pub distinct : Distinct es
  pub count : q.count ≡ length es

-- an element that the pool may hand out
abbrev pub Fresh : ℕ → Cells → Type 0
Fresh e es = (e ≢ root) × (e ≢ null) × Apart e es

-- the last element is none that stands apart
last-Apart :
    (q : Queue) (a b : ℕ) (es : Cells) → Chain q a es → Apart b es → b ≢ a → b ≢ q.prev root
last-Apart q a b [] c p n = ground arith
last-Apart q a b ((e, v) ∷ es) c p n = last-Apart q e b es c.3 p.1 p.0

-- the last element, or the root, is not nil
pub prev-root :
    (q : Queue) (a : ℕ) (es : Cells) → Chain q a es → Distinct es → a ≢ null → q.prev root ≢ null
prev-root q a [] c d n = ground arith
prev-root q a ((e, v) ∷ es) c d n = prev-root q e es c.3 d.3 d.2

Distinct-root : (es : Cells) → Distinct es → Apart root es
Distinct-root [] d = tt
Distinct-root ((e, v) ∷ es) d = (λ h. d.1 (ground arith), Distinct-root es d.3)

Chain-enqueue :
    (q : Queue) (a e : ℕ) (v : LogMessage) (es : Cells)
    → Chain q a es
    → Distinct es
    → Apart a es
    → a ≢ e
    → Fresh e es
    → Chain (enqueue e v q) a (es ++ (e, v) ∷ [])
unfolding enqueue
Chain-enqueue q a e v [] c d p n f = ground arith
Chain-enqueue q a e v ((b, w) ∷ es) c d p n f = (
  ground (arith, last-Apart q b a es c.3 p.1 p.0),
  ground arith,
  ground arith,
  Chain-enqueue q b e v es c.3 d.3 d.0 (λ h. f.2.0 (ground arith)) (f.0, f.1, f.2.1),
)

Apart-append :
    (a e : ℕ) (v : LogMessage) (es : Cells) → Apart a es → a ≢ e → Apart a (es ++ (e, v) ∷ [])
Apart-append a e v [] p n = (n, tt)
Apart-append a e v ((b, w) ∷ es) p n = (p.0, Apart-append a e v es p.1 n)

Distinct-append :
    (e : ℕ) (v : LogMessage) (es : Cells) → Distinct es → Fresh e es → Distinct (es ++ (e, v) ∷ [])
Distinct-append e v [] d f = (tt, f.0, f.1, tt)
Distinct-append e v ((b, w) ∷ es) d f = (
  Apart-append b e v es d.0 (λ h. f.2.0 (ground arith)),
  d.1,
  d.2,
  Distinct-append e v es d.3 (f.0, f.1, f.2.1),
)

pub new_queue-IsQueue : IsQueue new_queue []
unfolding new_queue
new_queue-IsQueue = record { chain = (refl, refl); distinct = tt; count = refl }

-- Enqueueing a fresh element appends it to the list that the links hold.
pub enqueue-IsQueue :
    (q : Queue) (e : ℕ) (v : LogMessage) (es : Cells)
    → IsQueue q es
    → Fresh e es
    → IsQueue (enqueue e v q) (es ++ (e, v) ∷ [])
unfolding enqueue
enqueue-IsQueue q e v es h f = record {
  chain =
      Chain-enqueue q root e v es h.chain h.distinct (Distinct-root es h.distinct)
        (λ p. f.0 (ground arith)) f;
  distinct = Distinct-append e v es h.distinct f;
  count = omega (arith, h.count, length-append es ((e, v) ∷ []));
}

-- `unlink` of the first element leaves the links behind it alone
Chain-unlink :
    (q : Queue) (e b a : ℕ) (es : Cells)
    → q.prev e ≡ root
    → q.next e ≡ b
    → e ≢ root
    → b ≢ root
    → a ≢ e
    → a ≢ root
    → Apart e es
    → Apart b es
    → Distinct es
    → Chain q a es
    → Chain (unlink e q) a es
unfolding unlink
Chain-unlink q e b a [] hp hn er br ae ar pe pb d c = ground arith
Chain-unlink q e b a ((x, v) ∷ es) hp hn er br ae ar pe pb d c = (
  ground arith,
  ground arith,
  ground arith,
  Chain-unlink q e b x es hp hn er br (λ h. pe.0 (ground arith)) d.1 pe.1 pb.1 d.3 c.3,
)

unlink_first :
    (q : Queue) (e : ℕ) (v : LogMessage) (es : Cells)
    → Chain q root ((e, v) ∷ es)
    → Distinct ((e, v) ∷ es)
    → Chain (unlink e q) root es
unfolding unlink
unlink_first q e v [] c d = ground arith
unlink_first q e v ((b, w) ∷ es) c d = (
  ground arith,
  ground arith,
  ground arith,
  Chain-unlink q e b b es c.1 c.3.0 d.1 d.3.1 (λ h. d.0.0 (ground arith)) d.3.1 d.0.1 d.3.0 d.3.3
      c.3.3,
)

next-ne-null : (q : Queue) (a : ℕ) (es : Cells) → Chain q a es → Distinct es → q.next a ≢ null
next-ne-null q a [] c d = ground arith
next-ne-null q a ((e, v) ∷ es) c d = ground arith

pub unlink-IsQueue :
    (q : Queue) (e : ℕ) (v : LogMessage) (es : Cells)
    → IsQueue q ((e, v) ∷ es)
    → IsQueue (unlink e q) es
unfolding unlink
unlink-IsQueue q e v es h = record {
  chain = unlink_first q e v es h.chain h.distinct;
  distinct = h.distinct.3;
  count = omega (arith, h.count);
}

-- Dequeueing never follows a nil pointer: it takes the first message off, or reports the empty
-- queue and changes nothing.
pub dequeue-head :
    (q : Queue) (es : Cells)
    → IsQueue q es
    → dequeue q
      ≡ elim es [ [] ↦ some (none, q) | cell ∷ rest ↦ some (some cell.1, unlink cell.0 q) ]
unfolding dequeue
dequeue-head q [] h = ground (arith, h.count)
dequeue-head q ((e, v) ∷ es) h = ground (
  arith,
  h.count,
  h.chain.0,
  h.chain.1,
  h.chain.2,
  h.distinct.2,
  next-ne-null q e es h.chain.3 h.distinct.3,
)
