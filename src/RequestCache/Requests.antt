-- ===== src/RequestCache/Requests.antt =====
-- What the holders of tokens can rely on.
use pouch.Prelude.{
  ℕ, ◌+◌, ◌≤◌, ◌≡◌, refl, false, Bool-cases, Option-cases, none, some, inl, inr, List, [], ◌∷◌,
  Text, text_eq, text_eq_refl, lookup, insert, lookup-insert, lookup-erase, length, ltb, ◌==◌,
  if◌then◌else◌, arith,
}
use pouch.RequestCache.Token.{Random}
use pouch.RequestCache.{
  Element, RequestCache, new_request_cache, gc, generate_unique_token, push_front, insert_request,
  consume, max_in_flight, cache_ttl,
}
use pouch.RequestCache.Links.{find, IsLinked}
use pouch.RequestCache.Operations.{insert-IsLinked, consume-IsLinked}

-- the calls of the streaming server, with the times at which they read the clock
pub data Call (Request : Type 0) : Type 0 where
  inserts : ℕ → ℕ → (ℕ → Random) → Request → Call Request
  consumes : ℕ → Text → Call Request

module _ {Request : Type 0} where
  unfoldable pub after : Call Request → RequestCache Request → RequestCache Request
  after (inserts now later random req) c = (insert_request now later random req c).1
  after (consumes now token) c = (consume now token c).1

  unfoldable pub after_all : List (Call Request) → RequestCache Request → RequestCache Request
  unfolding after
  after_all [] c = c
  after_all (call ∷ calls) c = after_all calls (after call c)

  all-IsLinked :
      (calls : List (Call Request)) (c : RequestCache Request)
      → IsLinked c
      → IsLinked (after_all calls c)
  unfolding after_all after
  all-IsLinked [] c h = h
  all-IsLinked (inserts now later random req ∷ calls) c h =
      all-IsLinked calls _ (insert-IsLinked now later random req c h)
  all-IsLinked (consumes now token ∷ calls) c h =
      all-IsLinked calls _ (consume-IsLinked now token c h)

  -- Whatever requests are inserted and consumed, and whatever the clock and the random source do, the
  -- map of the tokens finds exactly the entries of the list, and the list never has more than
  -- `max_in_flight` of them.
  pub calls_keep_links :
      (calls : List (Call Request)) (t : Text)
      → let c = after_all calls new_request_cache in
        (lookup t c.tokens ≡ find t c.ll) × (length c.ll ≤ max_in_flight)
  unfolding new_request_cache lookup
  calls_keep_links calls t =
      let h =
        all-IsLinked calls new_request_cache
          (record { agrees = λ t. refl; distinct = tt; old = tt; bounded = omega arith }) in
      (h.agrees t, h.bounded)

  -- A token is used once: a second Consume finds nothing and changes nothing.
  pub consume-consume :
      (now later : ℕ) (token : Text) (c : RequestCache Request)
      → let c' = (consume now token c).1 in consume later token c' ≡ (none, c')
  unfolding consume
  consume-consume now later token c =
      ground (arith, lookup-erase token token c.tokens, text_eq_refl token)

  -- an Insert that returns a token has put it in front, behind what garbage collection left
  pub insert-push :
      (now later : ℕ) (random : ℕ → Random) (req : Request) (token : Text)
      (c : RequestCache Request)
      → (insert_request now later random req c).0 ≡ inr token
      → (insert_request now later random req c).1
        ≡ push_front token req (later + cache_ttl) (gc now c)
  unfolding insert_request
  insert-push now later random req token c h =
      let g = gc now c in
      elim (Bool-cases (length g.ll == max_in_flight)) [
        | inl b ↦ ground (arith, b, h)
        | inr b ↦ elim (Option-cases (generate_unique_token random g.tokens)) [
          | inl e ↦ ground (arith, b, e, h)
          | inr (t, e) ↦ ground (arith, b, e, h)
        ]
      ]

  consume-push :
      (at time : ℕ) (req : Request) (token : Text) (c : RequestCache Request)
      → (consume at token (push_front token req time c)).0
        ≡ (if ltb time at then none else some req)
  unfolding consume push_front
  consume-push at time req token c =
      let e : Element Request = record {
        id = c.next;
        value = record { token = token; req = req; expire_time = time };
      } in
      let found : lookup token (insert token e c.tokens) ≡ some e =
        ground (arith, lookup-insert token token e c.tokens, text_eq_refl token) in
      rw (consume, found) refl

  -- The token that Insert returns gives the request that was inserted, until its time is over, and no
  -- request from then on.
  pub consume-insert :
      (now later at : ℕ) (random : ℕ → Random) (req : Request) (token : Text)
      (c : RequestCache Request)
      → (insert_request now later random req c).0 ≡ inr token
      → (consume at token (insert_request now later random req c).1).0
        ≡ (if ltb (later + cache_ttl) at then none else some req)
  consume-insert now later at random req token c h =
      rw (insert-push now later random req token c h)
        (consume-push at (later + cache_ttl) req token (gc now c))

  -- Consuming a token leaves every other token's request where it is.
  pub consume-others :
      (now later : ℕ) (token other : Text) (c : RequestCache Request)
      → text_eq token other ≡ false
      → (consume later other (consume now token c).1).0 ≡ (consume later other c).0
  unfolding consume
  consume-others now later token other c h = ground (arith, lookup-erase token other c.tokens, h)
