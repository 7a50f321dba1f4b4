-- ===== src/RequestCache.antt =====
-- cri/stream/request_cache.go: the cache of streaming requests, each found once by a random token. The
-- time is a count of nanoseconds. `tokens` points to elements of the list; an element is known by `id`.
pub mod Token
pub mod Links
pub mod Operations
pub mod Requests
pub mod Age
mod Tests
use pouch.Prelude.{
  ℕ, zero, suc, ◌+◌, ◌*◌, ◌^◌, Option, none, some, ◌⊎◌, inl, inr, List, [], ◌∷◌, ◌++◌, Text, Dict,
  lookup, insert, erase, length, ltb, ◌==◌, if◌then◌else◌,
}
use pouch.RequestCache.Token.{Random, encode, raw_token, first_chars}

abbrev pub cache_ttl : ℕ
cache_ttl = 60 * 10 ^ 9

abbrev pub max_in_flight : ℕ
max_in_flight = 1000

pub data InsertError : Type 0 where
  too_many_in_flight no_token : InsertError

pub record CacheEntry {ℓ} (Request : Type ℓ) : Type ℓ where
  pub token : Text
  pub req : Request
  pub expire_time : ℕ

pub record Element {ℓ} (Request : Type ℓ) : Type ℓ where
  pub id : ℕ
  pub value : CacheEntry Request

-- `ll` stands from the back of the list, its oldest element, to the front
pub record RequestCache {ℓ} (Request : Type ℓ) : Type ℓ where
  pub tokens : Dict (Element Request)
  pub ll : List (Element Request)
  pub next : ℕ

module _ {ℓ} {Request : Type ℓ} where
  unfoldable pub new_request_cache : RequestCache Request
  new_request_cache = record { tokens = []; ll = []; next = 0 }

  -- the loop of `gc` on the list from its oldest element on
  unfoldable pub gc_loop :
      ℕ
      → List (Element Request)
      → Dict (Element Request)
      → List (Element Request) × Dict (Element Request)
  gc_loop now [] tokens = ([], tokens)
  gc_loop now (oldest ∷ newer) tokens =
      let rest = gc_loop now newer (erase oldest.value.token tokens) in
      if ltb oldest.value.expire_time now then rest else (oldest ∷ newer, tokens)

  unfoldable pub gc : ℕ → RequestCache Request → RequestCache Request
  gc now c = let r = gc_loop now c.ll c.tokens in record c { ll = r.0; tokens = r.1 }

  -- the loop of `generateUniqueToken` with the tries that are left; `none` is either of its errors
  unfoldable pub try_token : ℕ → ℕ → (ℕ → Random) → Dict (Element Request) → Option Text
  try_token zero i random tokens = none
  try_token (suc tries) i random tokens = elim (random i) [
    | none ↦ none
    | some bytes ↦
        let retry = try_token tries (suc i) random tokens in
        let encoded = encode (raw_token bytes) in
        elim (lookup encoded tokens) [ none ↦ some (first_chars 8 encoded) | some _ ↦ retry ]
  ]

  -- `generateUniqueToken`
  unfoldable pub generate_unique_token : (ℕ → Random) → Dict (Element Request) → Option Text
  generate_unique_token random tokens = try_token 10 0 random tokens

  unfoldable pub push_front : Text → Request → ℕ → RequestCache Request → RequestCache Request
  push_front token req expire_time c =
      let e : Element Request = record {
        id = c.next;
        value = record { token = token; req = req; expire_time = expire_time };
      } in
      record { ll = c.ll ++ e ∷ []; tokens = insert token e c.tokens; next = suc c.next }

  -- `Insert`; the clock is read when it starts, for `gc`, and again when the entry is made
  unfoldable pub insert_request :
      ℕ
      → ℕ
      → (ℕ → Random)
      → Request
      → RequestCache Request
      → (InsertError ⊎ Text) × RequestCache Request
  insert_request now later random req c0 =
      let c = gc now c0 in
      if length c.ll == max_in_flight
      then (inl too_many_in_flight, c)
      else elim (generate_unique_token random c.tokens) [
        | none ↦ (inl no_token, c)
        | some token ↦ (inr token, push_front token req (later + cache_ttl) c)
      ]

  -- `list.Remove`
  unfoldable pub remove_element : ℕ → List (Element Request) → List (Element Request)
  remove_element id [] = []
  remove_element id (e ∷ es) =
      let rest = remove_element id es in if e.id == id then es else e ∷ rest

  -- `Consume`; `none` for a request that is not found or has expired
  unfoldable pub consume : ℕ → Text → RequestCache Request → Option Request × RequestCache Request
  consume now token c = elim (lookup token c.tokens) [
    | none ↦ (none, c)
    | some e ↦ (
      if ltb e.value.expire_time now then none else some e.value.req,
      record c { ll = remove_element e.id c.ll; tokens = erase token c.tokens },
    )
  ]
