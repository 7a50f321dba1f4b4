-- ===== src/RequestCache/Tests.antt =====
-- Runs of the request cache, and the theorems at concrete inputs.
use pouch.Prelude.{
  ℕ, ◌+◌, ◌≤◌, ◌≡◌, ◌≢◌, ◌⊎◌, refl, some, inl, inr, [], ◌∷◌, Text, str, text_eq, lookup, insert,
  length, All, arith,
}
use pouch.RequestCache.Token.{Random, encode, raw_token, first_chars}
use pouch.RequestCache.{
  RequestCache, new_request_cache, gc, gc_loop, generate_unique_token, try_token, insert_request,
  push_front, consume, max_in_flight, too_many_in_flight,
}
use pouch.RequestCache.Links.{find}
use pouch.RequestCache.Requests.{inserts, consumes, after_all, calls_keep_links, consume-insert}
use pouch.RequestCache.Age.{IsBefore, IsAged, insert-IsAged}

-- a source of the bytes 0 to 5, then 1 to 6, and so on
abbrev counting : ℕ → Random
counting i = some (λ j. i + j)

abbrev first_token : Text
first_token = str "AAECAwQF"

abbrev with_exec : RequestCache Text
with_exec = (insert_request 5 6 counting (str "exec") new_request_cache).1

first_inserted : (insert_request 5 6 counting (str "exec") new_request_cache).0 ≡ inr first_token
unfolding insert_request new_request_cache gc gc_loop generate_unique_token try_token encode
    raw_token first_chars lookup
first_inserted = refl

-- the second request tries the same bytes first, and takes the next ones
second_inserted : (insert_request 7 8 counting (str "attach") with_exec).0 ≡ inr (str "AQIDBAUG")
unfolding insert_request new_request_cache gc gc_loop generate_unique_token try_token encode
    raw_token first_chars lookup push_front insert text_eq
second_inserted = refl

calls_keep_links_example :
    let c =
      after_all
        (inserts 5 6 counting (str "exec") ∷ consumes 7 first_token ∷ [])
        new_request_cache in
    (lookup first_token c.tokens ≡ find first_token c.ll) × (length c.ll ≤ max_in_flight)
calls_keep_links_example =
    calls_keep_links (inserts 5 6 counting (str "exec") ∷ consumes 7 first_token ∷ []) first_token

consume-insert_example : (consume 7 first_token with_exec).0 ≡ some (str "exec")
consume-insert_example =
    consume-insert 5 6 7 counting (str "exec") first_token new_request_cache first_inserted

insert-IsAged_example :
    let r = insert_request 5 6 counting (str "exec") new_request_cache in
    IsAged 6 r.1
    × All (IsBefore 5) r.1.ll
    × ((r.0 ≢ inl too_many_in_flight) ⊎ (length r.1.ll ≡ max_in_flight))
unfolding new_request_cache
insert-IsAged_example =
    insert-IsAged 4 5 6 counting (str "exec") new_request_cache (omega arith) (omega arith)
      (record { sorted = tt; made = tt })
