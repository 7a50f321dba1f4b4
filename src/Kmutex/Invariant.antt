-- ===== src/Kmutex/Invariant.antt =====
-- What holds between the steps: one token for each key, in its channel or with its holder.
pub mod Steps
use pouch.Prelude.{
  ℕ, suc, ◌+◌, ◌-◌, ◌<◌, ◌≡◌, refl, Bool, true, false, none, some, [], ◌∷◌, Text, text_eq,
  text_eq_iff, Dict, lookup, insert, lookup-insert, arith, All,
}
use pouch.Kmutex.{Value, new, fresh, set_value}
use pouch.Kmutex.World.{World, gain, next}

abbrev pub token : Bool → ℕ
token true = 1
token false = 0

abbrev pub Waits : Dict ℕ → Text × ℕ → Type 0
Waits keys e = lookup e.0 keys ≡ some e.1

-- Of each key in the map there is one token, in its channel or with its holder.
pub record Inv (w : World) : Type 0 where
  pub bounded : (k : Text) (v : ℕ) → lookup k w.m.keys ≡ some v → v < w.m.next
  pub apart : (j k : Text) (v : ℕ) → lookup j w.m.keys ≡ some v → lookup k w.m.keys ≡ some v → j ≡ k
  pub absent : (k : Text) → lookup k w.m.keys ≡ none → w.holds k ≡ 0
  pub balance :
      (k : Text) (v : ℕ) → lookup k w.m.keys ≡ some v → w.holds k + token (w.m.values v).full ≡ 1
  pub opened : (k : Text) (v : ℕ) → lookup k w.m.keys ≡ some v → (w.m.values v).closed ≡ false
  pub queued : All (Waits w.m.keys) w.waiting

pub start-Inv : Inv (record { m = new; holds = λ _. 0; waiting = [] })
unfolding new lookup
start-Inv = record {
  bounded = λ k v p. cc;
  apart = λ j k v p q. cc;
  absent = λ k p. refl;
  balance = λ k v p. cc;
  opened = λ k v p. cc;
  queued = tt;
}

-- a key that was not in the map
abbrev pub created : Text → World → World
created k w = record w {
  m = record {
    keys = insert k w.m.next w.m.keys;
    values = set_value w.m.values w.m.next fresh;
    next = suc w.m.next;
  };
  holds = gain k w.holds;
}

Waits-insert :
    (k : Text) (n : ℕ) (keys waiting : Dict ℕ)
    → lookup k keys ≡ none
    → All (Waits keys) waiting
    → All (Waits (insert k n keys)) waiting
Waits-insert k n keys [] a h = tt
Waits-insert k n keys ((j, v) ∷ rest) a h =
    (ground (arith, lookup-insert k j n keys, text_eq_iff k j), Waits-insert k n keys rest a h.1)

pub created-Inv : (k : Text) (w : World) → lookup k w.m.keys ≡ none → Inv w → Inv (created k w)
created-Inv k w a h = record {
  bounded = λ j v p. ground (arith, lookup-insert k j w.m.next w.m.keys, h.bounded j v);
  apart = λ i j v p q. ground (
    arith,
    lookup-insert k i w.m.next w.m.keys,
    lookup-insert k j w.m.next w.m.keys,
    h.apart i j v,
    h.bounded i v,
    h.bounded j v,
    text_eq_iff k i,
    text_eq_iff k j,
  );
  absent = λ j p. ground (arith, lookup-insert k j w.m.next w.m.keys, h.absent j);
  balance = λ j v p. ground (
    arith,
    lookup-insert k j w.m.next w.m.keys,
    h.balance j v,
    h.bounded j v,
    h.absent k,
    text_eq_iff k j,
  );
  opened =
      λ j v p. ground (arith, lookup-insert k j w.m.next w.m.keys, h.opened j v, h.bounded j v);
  queued = Waits-insert k w.m.next w.m.keys w.waiting a h.queued;
}

-- a key that was in the map: only its own value and count change
abbrev pub changed : World → ℕ → Value → (Text → ℕ) → Dict ℕ → World
changed w v x holds waiting = record {
  m = record w.m { values = set_value w.m.values v x };
  holds = holds;
  waiting = waiting;
}

pub changed-Inv :
    (w : World) (k : Text) (v : ℕ) (x : Value) (holds : Text → ℕ) (waiting : Dict ℕ)
    → lookup k w.m.keys ≡ some v
    → x.closed ≡ false
    → holds k + token x.full ≡ 1
    → ((j : Text) → (text_eq k j ≡ false) → holds j ≡ w.holds j)
    → All (Waits w.m.keys) waiting
    → Inv w
    → Inv (changed w v x holds waiting)
changed-Inv w k v x holds waiting here op one rest q h = record {
  bounded = h.bounded;
  apart = h.apart;
  absent = λ j p. ground (arith, h.absent j, rest j, text_eq_iff k j);
  balance = λ j u p. ground (arith, h.balance j u, rest j, text_eq_iff k j, h.apart j k v);
  opened = λ j u p. ground (arith, h.opened j u);
  queued = q;
}
