-- ===== src/RequestCache/Operations.antt =====
-- Insert and Consume keep the links between the map and the list.
use pouch.Prelude.{
  ℕ, zero, suc, ◌+◌, ◌≤◌, ◌<◌, ◌≡◌, refl, sym, ◌∙◌, subst, true, Bool-cases, Option-cases, none,
  some, inl, inr, List, [], ◌∷◌, ◌++◌, Text, text_eq, text_eq_iff, Dict, lookup, lookup-insert,
  lookup-erase, length, length-append, All, All-append, ◌==◌, if◌then◌else◌, arith,
}
use pouch.RequestCache.Token.{Random, encode, raw_token, first_chars}
use pouch.RequestCache.{
  Element, RequestCache, gc, try_token, generate_unique_token, push_front, insert_request,
  remove_element, consume, max_in_flight, cache_ttl,
}
use pouch.RequestCache.Links.{find, find-others, IsOther, Distinct, IsOld, IsLinked, gc-IsLinked}

-- the encoding of six bytes has eight characters: cutting it to eight changes nothing
first_chars-encode : (f : ℕ → ℕ) → first_chars 8 (encode (raw_token f)) ≡ encode (raw_token f)
unfolding first_chars encode raw_token
first_chars-encode f = refl

module _ {Request : Type 0} where
  -- a token that was generated is not in use
  try_token-unused :
      (tries i : ℕ) (random : ℕ → Random) (tokens : Dict (Element Request)) (t : Text)
      → try_token tries i random tokens ≡ some t
      → lookup t tokens ≡ none
  unfolding try_token
  try_token-unused zero i random tokens t h = cc
  try_token-unused (suc tries) i random tokens t h = elim (Option-cases (random i)) [
    | inl e ↦ ground (arith, e, h)
    | inr (bytes, e) ↦ elim (Option-cases (lookup (encode (raw_token bytes)) tokens)) [
      | inl u ↦ ground (arith, e, u, h, first_chars-encode bytes)
      | inr (el, u) ↦ try_token-unused tries (suc i) random tokens t (ground (arith, e, u, h))
    ]
  ]

  find-append :
      (t : Text) (es : List (Element Request)) (e : Element Request)
      → find t (es ++ e ∷ []) ≡ elim (find t es) [
        | some x ↦ some x
        | none ↦ if text_eq e.value.token t then some e else none
      ]
  find-append t [] e = refl
  find-append t (x ∷ es) e = ground (arith, find-append t es e)

  -- an element whose token is not found and whose identity is new differs from all
  Distinct-append :
      (es : List (Element Request)) (e : Element Request)
      → find e.value.token es ≡ none
      → All (IsOld e.id) es
      → Distinct es
      → Distinct (es ++ e ∷ [])
  Distinct-append [] e h o d = (tt, tt)
  Distinct-append (x ∷ es) e h o d = (
    All-append (IsOther x) es (e ∷ []) d.0 ((ground (arith, h, o.0), ground (arith, h)), tt),
    Distinct-append es e (ground (arith, h)) o.1 d.1,
  )

  All-IsOld : (n : ℕ) (es : List (Element Request)) → All (IsOld n) es → All (IsOld (suc n)) es
  All-IsOld n [] h = tt
  All-IsOld n (e ∷ es) h = (omega (arith, h.0), All-IsOld n es h.1)

  push-IsLinked :
      (token : Text) (req : Request) (expire_time : ℕ) (c : RequestCache Request)
      → lookup token c.tokens ≡ none
      → length c.ll < max_in_flight
      → IsLinked c
      → IsLinked (push_front token req expire_time c)
  unfolding push_front
  push-IsLinked token req expire_time c unused room h =
      let e : Element Request = record {
        id = c.next;
        value = record { token = token; req = req; expire_time = expire_time };
      } in
      record {
        agrees = λ t. ground (
          arith,
          lookup-insert token t e c.tokens,
          find-append t c.ll e,
          h.agrees t,
          h.agrees token,
          unused,
          text_eq_iff token t,
        );
        distinct = Distinct-append c.ll e (sym (h.agrees token) ∙ unused) h.old h.distinct;
        old =
            All-append (IsOld (suc c.next)) c.ll (e ∷ []) (All-IsOld c.next c.ll h.old)
              (omega arith, tt);
        bounded = omega (arith, length-append c.ll (e ∷ []), room);
      }

  pub insert-IsLinked :
      (now later : ℕ) (random : ℕ → Random) (req : Request) (c : RequestCache Request)
      → IsLinked c
      → IsLinked (insert_request now later random req c).1
  unfolding insert_request generate_unique_token
  insert-IsLinked now later random req c h =
      let g = gc now c in
      let k = gc-IsLinked now c h in
      elim (Bool-cases (length g.ll == max_in_flight)) [
        | inl b ↦ rw b k
        | inr b ↦ elim (Option-cases (try_token 10 0 random g.tokens)) [
          | inl e ↦ rw (b, e) k
          | inr (token, e) ↦
              rw (b, e)
                (push-IsLinked token req (later + cache_ttl) g
                  (try_token-unused 10 0 random g.tokens token e) (ground (arith, b, k.bounded)) k)
        ]
      ]

  find-All :
      (P : Element Request → Type 0) (t : Text) (es : List (Element Request)) (e : Element Request)
      → All P es
      → find t es ≡ some e
      → P e
  find-All P t [] e h f = cc
  find-All P t (x ∷ es) e h f = elim (Bool-cases (text_eq x.value.token t)) [
    | inl b ↦ subst P (ground (arith, b, f)) h.0
    | inr b ↦ find-All P t es e h.1 (ground (arith, b, f))
  ]

  find-token :
      (t : Text) (es : List (Element Request)) (e : Element Request)
      → find t es ≡ some e
      → text_eq e.value.token t ≡ true
  find-token t [] e f = cc
  find-token t (x ∷ es) e f = ground (arith, f, find-token t es e)

  -- removing the element found under a token leaves what is found under the others
  find-remove :
      (t u : Text) (es : List (Element Request)) (e : Element Request)
      → Distinct es
      → find t es ≡ some e
      → find u (remove_element e.id es) ≡ (if text_eq t u then none else find u es)
  unfolding remove_element
  find-remove t u [] e d f = cc
  find-remove t u (x ∷ es) e d f = elim (Bool-cases (text_eq x.value.token t)) [
    | inl b ↦
        let same : x ≡ e = ground (arith, b, f) in
        let id : (x.id == e.id) ≡ true = ground (arith, same) in
        ground (
          arith,
          id,
          b,
          find-others x es u d.0,
          text_eq_iff x.value.token t,
          text_eq_iff x.value.token u,
          text_eq_iff t u,
        )
    | inr b ↦
        let later : find t es ≡ some e = ground (arith, b, f) in
        let other = find-All (IsOther x) t es e d.0 later in
        ground (
          arith,
          other.0,
          b,
          find-remove t u es e d.1 later,
          text_eq_iff x.value.token t,
          text_eq_iff x.value.token u,
          text_eq_iff t u,
        )
  ]

  pub remove-All :
      (P : Element Request → Type 0) (id : ℕ) (es : List (Element Request))
      → All P es
      → All P (remove_element id es)
  unfolding remove_element
  remove-All P id [] h = tt
  remove-All P id (x ∷ es) h = elim (Bool-cases (x.id == id)) [
    | inl b ↦ rw b h.1
    | inr b ↦ rw b (h.0, remove-All P id es h.1)
  ]

  Distinct-remove :
      (id : ℕ) (es : List (Element Request)) → Distinct es → Distinct (remove_element id es)
  unfolding remove_element
  Distinct-remove id [] d = tt
  Distinct-remove id (x ∷ es) d = elim (Bool-cases (x.id == id)) [
    | inl b ↦ rw b d.1
    | inr b ↦ rw b (remove-All (IsOther x) id es d.0, Distinct-remove id es d.1)
  ]

  remove_shorter :
      (id : ℕ) (es : List (Element Request)) → length (remove_element id es) ≤ length es
  unfolding remove_element
  remove_shorter id [] = omega arith
  remove_shorter id (x ∷ es) = ground (arith, remove_shorter id es)

  pub consume-IsLinked :
      (now : ℕ) (token : Text) (c : RequestCache Request)
      → IsLinked c
      → IsLinked (consume now token c).1
  unfolding consume
  consume-IsLinked now token c h = elim (Option-cases (lookup token c.tokens)) [
    | inl e ↦ rw (consume, e) h
    | inr (el, e) ↦
        rw (consume, e)
          (record {
            agrees = λ t. ground (
              arith,
              lookup-erase token t c.tokens,
              h.agrees t,
              find-remove token t c.ll el h.distinct (sym (h.agrees token) ∙ e),
            );
            distinct = Distinct-remove el.id c.ll h.distinct;
            old = remove-All (IsOld c.next) el.id c.ll h.old;
            bounded = omega (arith, h.bounded, remove_shorter el.id c.ll);
          })
  ]
