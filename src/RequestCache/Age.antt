-- ===== src/RequestCache/Age.antt =====
-- The list is ordered by age as long as the clock does not run backwards, so that garbage collection,
-- which stops at the first entry that is still alive, leaves no expired one.
use pouch.Prelude.{
  ℕ, ◌+◌, ◌≤◌, ◌≡◌, ◌≢◌, ◌⊎◌, Bool-cases, Option-cases, inl, inr, List, [], ◌∷◌, ◌++◌, Text, Dict,
  erase, length, ltb, ◌==◌, All, All-append, arith,
}
use pouch.RequestCache.Token.{Random}
use pouch.RequestCache.{
  Element, RequestCache, gc_loop, gc, generate_unique_token, push_front, insert_request,
  max_in_flight, cache_ttl, too_many_in_flight,
}

module _ {Request : Type 0} where
  abbrev pub IsBefore : ℕ → Element Request → Type 0
  IsBefore time e = time ≤ e.value.expire_time

  abbrev pub IsAfter : ℕ → Element Request → Type 0
  IsAfter time e = e.value.expire_time ≤ time

  -- from the oldest element on
  abbrev pub Sorted : List (Element Request) → Type 0
  Sorted [] = Unit
  Sorted (e ∷ es) = All (IsBefore e.value.expire_time) es × Sorted es

  -- Entries made up to the time `t`, in the order of their age.
  pub record IsAged (t : ℕ) (c : RequestCache Request) : Type 0 where
    pub sorted : Sorted c.ll
    pub made : All (IsAfter (t + cache_ttl)) c.ll

  All-IsBefore :
      (a b : ℕ) (es : List (Element Request)) → a ≤ b → All (IsBefore b) es → All (IsBefore a) es
  All-IsBefore a b [] l h = tt
  All-IsBefore a b (e ∷ es) l h = (omega (arith, h.0, l), All-IsBefore a b es l h.1)

  All-IsAfter :
      (a b : ℕ) (es : List (Element Request)) → a ≤ b → All (IsAfter a) es → All (IsAfter b) es
  All-IsAfter a b [] l h = tt
  All-IsAfter a b (e ∷ es) l h = (omega (arith, h.0, l), All-IsAfter a b es l h.1)

  collected :
      (now time : ℕ) (es : List (Element Request)) (tokens : Dict (Element Request))
      → Sorted es
      → All (IsAfter time) es
      → let r = (gc_loop now es tokens).0 in Sorted r × All (IsAfter time) r × All (IsBefore now) r
  unfolding gc_loop
  collected now time [] tokens s m = (tt, tt, tt)
  collected now time (e ∷ es) tokens s m = elim (Bool-cases (ltb e.value.expire_time now)) [
    | inl b ↦ rw b (collected now time es (erase e.value.token tokens) s.1 m.1)
    | inr b ↦
        let alive : now ≤ e.value.expire_time = ground (arith, b) in
        rw b (s, m, (alive, All-IsBefore now e.value.expire_time es alive s.0))
  ]

  Sorted-append :
      (es : List (Element Request)) (e : Element Request)
      → Sorted es
      → All (IsAfter e.value.expire_time) es
      → Sorted (es ++ e ∷ [])
  Sorted-append [] e s m = (tt, tt)
  Sorted-append (x ∷ es) e s m = (
    All-append (IsBefore x.value.expire_time) es (e ∷ []) s.0 (m.0, tt),
    Sorted-append es e s.1 m.1,
  )

  push-IsAged :
      (t later : ℕ) (token : Text) (req : Request) (c : RequestCache Request)
      → t ≤ later
      → IsAged t c
      → IsAged later (push_front token req (later + cache_ttl) c)
  unfolding push_front
  push-IsAged t later token req c l h =
      let made = All-IsAfter (t + cache_ttl) (later + cache_ttl) c.ll (omega (arith, l)) h.made in
      record {
        sorted = Sorted-append c.ll _ h.sorted made;
        made = All-append (IsAfter (later + cache_ttl)) c.ll _ made (omega arith, tt);
      }

  -- After an Insert by a clock that has not run backwards, whether it is refused or not, the list is in
  -- the order of age, and no entry that had expired when it started is left. If it is refused as one
  -- too many, `max_in_flight` requests are waiting that have not expired.
  pub insert-IsAged :
      (t now later : ℕ) (random : ℕ → Random) (req : Request) (c : RequestCache Request)
      → t ≤ later
      → now ≤ later
      → IsAged t c
      → let r = insert_request now later random req c in
        IsAged later r.1
        × All (IsBefore now) r.1.ll
        × ((r.0 ≢ inl too_many_in_flight) ⊎ (length r.1.ll ≡ max_in_flight))
  unfolding insert_request gc push_front
  insert-IsAged t now later random req c l k h =
      let g = gc now c in
      let (s, m, a) = collected now (t + cache_ttl) c.ll c.tokens h.sorted h.made in
      let made = All-IsAfter (t + cache_ttl) (later + cache_ttl) g.ll (omega (arith, l)) m in
      elim (Bool-cases (length g.ll == max_in_flight)) [
        | inl b ↦ rw b (record { sorted = s; made = made }, a, inr (ground (arith, b)))
        | inr b ↦ elim (Option-cases (generate_unique_token random g.tokens)) [
          | inl e ↦ rw (b, e) (record { sorted = s; made = made }, a, inl (λ x. cc))
          | inr (token, e) ↦
              rw (b, e)
                (
                  push-IsAged t later token req g l (record { sorted = s; made = m }),
                  All-append (IsBefore now) g.ll _ a (omega (arith, k), tt),
                  inl (λ x. cc),
                )
        ]
      ]
