-- ===== src/RequestCache/Links.antt =====
-- The map of the tokens and the list of the entries hold the same requests, under different tokens.
use pouch.Prelude.{
  ℕ, ◌≤◌, ◌<◌, ◌≡◌, refl, true, false, Bool-cases, Option, none, some, inl, inr, List, [], ◌∷◌,
  Text, text_eq, text_eq_iff, Dict, lookup, erase, lookup-erase, length, All, ltb, ◌==◌,
  if◌then◌else◌, arith,
}
use pouch.RequestCache.{Element, RequestCache, gc_loop, gc, max_in_flight}

module _ {Request : Type 0} where
  abbrev pub find : Text → List (Element Request) → Option (Element Request)
  find t [] = none
  find t (e ∷ es) = if text_eq e.value.token t then some e else find t es

  abbrev pub IsOther : Element Request → Element Request → Type 0
  IsOther e f = ((e.id == f.id) ≡ false) × (text_eq e.value.token f.value.token ≡ false)

  -- no two elements have an identity or a token in common
  abbrev pub Distinct : List (Element Request) → Type 0
  Distinct [] = Unit
  Distinct (e ∷ es) = All (IsOther e) es × Distinct es

  abbrev pub IsOld : ℕ → Element Request → Type 0
  IsOld next e = e.id < next

  pub record IsLinked (c : RequestCache Request) : Type 0 where
    pub agrees : (t : Text) → lookup t c.tokens ≡ find t c.ll
    pub distinct : Distinct c.ll
    pub old : All (IsOld c.next) c.ll
    pub bounded : length c.ll ≤ max_in_flight

  pub find-others :
      (e : Element Request) (es : List (Element Request)) (t : Text)
      → All (IsOther e) es
      → text_eq e.value.token t ≡ true
      → find t es ≡ none
  find-others e [] t h q = refl
  find-others e (f ∷ es) t h q = ground (
    arith,
    h.0.1,
    find-others e es t h.1 q,
    text_eq_iff e.value.token t,
    text_eq_iff f.value.token t,
    text_eq_iff e.value.token f.value.token,
  )

  -- collecting garbage keeps a suffix of the list, and the map that goes with it
  gc_loop-links :
      (now : ℕ) (es : List (Element Request)) (tokens : Dict (Element Request))
      → ((t : Text) → lookup t tokens ≡ find t es)
      → Distinct es
      → (t : Text) → lookup t (gc_loop now es tokens).1 ≡ find t (gc_loop now es tokens).0
  unfolding gc_loop
  gc_loop-links now [] tokens h d t = h t
  gc_loop-links now (e ∷ es) tokens h d t =
      let rest =
        gc_loop-links now es (erase e.value.token tokens)
          (λ u. ground (arith, h u, lookup-erase e.value.token u tokens, find-others e es u d.0))
          d.1 t in
      elim (Bool-cases (ltb e.value.expire_time now)) [ inl b ↦ rw b rest | inr b ↦ rw b (h t) ]

  -- what holds of every suffix holds of the list after collecting garbage
  gc_loop-All :
      (P : List (Element Request) → Type 0)
      → ((e : Element Request) (es : List (Element Request)) → P (e ∷ es) → P es)
      → (now : ℕ) (es : List (Element Request)) (tokens : Dict (Element Request)) → P es
      → P (gc_loop now es tokens).0
  unfolding gc_loop
  gc_loop-All P tail now [] tokens h = h
  gc_loop-All P tail now (e ∷ es) tokens h = elim (Bool-cases (ltb e.value.expire_time now)) [
    | inl b ↦ rw b (gc_loop-All P tail now es (erase e.value.token tokens) (tail e es h))
    | inr b ↦ rw b h
  ]

  pub gc-IsLinked : (now : ℕ) (c : RequestCache Request) → IsLinked c → IsLinked (gc now c)
  unfolding gc
  gc-IsLinked now c h = record {
    agrees = gc_loop-links now c.ll c.tokens h.agrees h.distinct;
    distinct = gc_loop-All Distinct (λ e es d. d.1) now c.ll c.tokens h.distinct;
    old = gc_loop-All (All (IsOld c.next)) (λ e es d. d.1) now c.ll c.tokens h.old;
    bounded =
        gc_loop-All (λ es. length es ≤ max_in_flight) (λ e es l. omega (arith, l)) now c.ll c.tokens
          h.bounded;
  }
