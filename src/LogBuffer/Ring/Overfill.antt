-- ===== src/LogBuffer/Ring/Overfill.antt =====
-- The byte count of the buffer is lowered by `Pop` and never raised, so it bounds nothing.
use pouch.Prelude.{
  ℕ, suc, ◌+◌, ◌≡◌, leb, if◌then◌else◌, Option, none, some, List, [], ◌∷◌, length, arith,
}
use pouch.LogBuffer.Queue.{LogMessage}
use pouch.LogBuffer.Ring.{RingBuffer, push}

-- pushes the messages with elements at consecutive addresses
unfoldable pub push_all : ℕ → List LogMessage → RingBuffer → RingBuffer
push_all e [] rb = rb
push_all e (m ∷ ms) rb = push_all (suc e) ms (push e (some m) rb).1

abbrev pub total_bytes : List LogMessage → ℕ
total_bytes [] = 0
total_bytes (m ∷ ms) = length m.line + total_bytes ms

-- No push, accepted or not, changes the byte count.
pub current_bytes-push :
    (e : ℕ) (val : Option LogMessage) (rb : RingBuffer)
    → (push e val rb).1.current_bytes ≡ rb.current_bytes
unfolding push
current_bytes-push e none rb = ground arith
current_bytes-push e (some m) rb = ground arith

-- how many messages are no longer than `max`
abbrev pub fitting : ℕ → List LogMessage → ℕ
fitting max [] = 0
fitting max (m ∷ ms) = if leb (length m.line) max then suc (fitting max ms) else fitting max ms
