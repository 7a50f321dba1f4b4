-- ===== src/ImageStore/Resolve.antt =====
-- What adding and removing a reference does to the images that the references stand for.
use pouch.Prelude.{
  ◌≡◌, refl, ◌∙◌, subst, true, ◌&&◌, ◌||◌, Bool-cases, Option-cases, ◌⊎◌, inl, inr, Option, none,
  some, Text, text_eq, text_eq_iff, text_eq_refl, Dict, lookup, lookup-insert, lookup-erase,
  if◌then◌else◌, arith,
}
use pouch.Prelude.Nested.{inner}
use pouch.Reference.{Named, string_of, trim_tag_for_digest}
use pouch.ImageStore.{ImageStore, StoreError, keys, or_empty, find_tagged, search_ref}
use pouch.ImageStore.Edit.{
  elem, unlink, leave_old_id, link, relate, add_reference, drop_primary, remove_reference,
}
use pouch.ImageStore.Index.{
  unlink-IsIndexed, owns, IsIndexed, elem-keys, lookup-erase_all, drop_primary-maps,
}

-- the image ID that the primary reference found has
abbrev pub id_of : Dict Text → Option Named → Option Text
id_of ids none = none
id_of ids (some p) = some (or_empty (lookup (string_of p) ids))

-- The store seen from outside: the image ID that a searchable reference stands for.
unfoldable pub resolve : Text → ImageStore → Option Text
resolve r s = id_of s.id_index_by_primary_ref (lookup r s.primary_ref_index_by_ref)

leave-maps :
    (id p : Text) (s : ImageStore)
    → ((leave_old_id id p s).primary_ref_index_by_ref ≡ s.primary_ref_index_by_ref)
      × ((leave_old_id id p s).id_index_by_primary_ref ≡ s.id_index_by_primary_ref)
unfolding leave_old_id
leave-maps id p s = ground arith

link-resolve :
    (id : Text) (primary ref : Named) (s : ImageStore) (j : Text)
    → resolve j (link id primary ref s) ≡ (
        if text_eq (string_of ref) j
          || owns (string_of primary) (lookup j s.primary_ref_index_by_ref)
        then some id
        else resolve j s)
unfolding resolve link
link-resolve id primary ref s j =
    let p = string_of primary in
    let maps = leave-maps id p s in
    let refs = lookup-insert (string_of ref) j primary s.primary_ref_index_by_ref in
    elim (Option-cases (lookup j s.primary_ref_index_by_ref)) [
      | inl e ↦ ground (
        arith,
        maps.0,
        maps.1,
        refs,
        e,
        lookup-insert p p id s.id_index_by_primary_ref,
        text_eq_refl p,
      )
      | inr (q, e) ↦ ground (
        arith,
        maps.0,
        maps.1,
        refs,
        e,
        lookup-insert p p id s.id_index_by_primary_ref,
        lookup-insert p (string_of q) id s.id_index_by_primary_ref,
        text_eq_refl p,
        text_eq_iff p (string_of q),
        text_eq_iff (string_of q) p,
      )
    ]

unlink-resolve :
    (p r : Text) (s : ImageStore) (j : Text)
    → let u = unlink p r s in
      (lookup j u.primary_ref_index_by_ref
        ≡ (if text_eq r j then none else lookup j s.primary_ref_index_by_ref))
      × (resolve j u ≡ (if text_eq r j then none else resolve j s))
unfolding unlink resolve
unlink-resolve p r s j =
    let e = lookup-erase r j s.primary_ref_index_by_ref in (ground (arith, e), ground (arith, e))

relate-resolve :
    (id : Text) (primary ref : Named) (s : ImageStore) (j : Text)
    → (relate id primary ref s).0 ≡ inr tt
    → resolve j (relate id primary ref s).1 ≡ (
        if text_eq (string_of ref) j
          || owns (string_of primary) (lookup j s.primary_ref_index_by_ref)
        then some id
        else resolve j s)
unfolding relate
relate-resolve id primary ref s j h =
    let r = string_of ref in
    elim (Option-cases (lookup r s.primary_ref_index_by_ref)) [
      | inl e ↦ ground (arith, e, link-resolve id primary ref s j)
      | inr (old, e) ↦
          let u = unlink (string_of old) r s in
          ground
            (arith, e, h, link-resolve id primary ref u j, unlink-resolve (string_of old) r s j)
    ]

add-relate :
    (id : Text) (primary ref : Named) (s : ImageStore)
    → (add_reference id primary ref s).0 ≡ inr tt
    → add_reference id primary ref s
      ≡ relate id (trim_tag_for_digest primary) (trim_tag_for_digest ref) s
unfolding add_reference
add-relate id primary ref s h = ground (arith, h)

-- Adding a reference, if it is not refused, makes it stand for the given image, together with every
-- reference that already led to the same primary reference, and leaves what all others stand for.
pub add-resolve :
    (id : Text) (primary ref : Named) (s : ImageStore) (j : Text)
    → (add_reference id primary ref s).0 ≡ inr tt
    → resolve j (add_reference id primary ref s).1 ≡ (
        if text_eq (string_of (trim_tag_for_digest ref)) j
          || owns (string_of (trim_tag_for_digest primary)) (lookup j s.primary_ref_index_by_ref)
        then some id
        else resolve j s)
add-resolve id primary ref s j h =
    let e = add-relate id primary ref s h in
    rw e (
      relate-resolve id (trim_tag_for_digest primary) (trim_tag_for_digest ref) s j
        (subst (λ (r : (StoreError ⊎ Unit {0}) × ImageStore). r.0 ≡ inr tt) e h))

nothing_resolves :
    (r j : Text) (s : ImageStore)
    → lookup r s.primary_ref_index_by_ref ≡ none
    → text_eq r j ≡ true
    → resolve j s ≡ none
unfolding resolve
nothing_resolves r j s e b = ground (arith, e, b, text_eq_iff r j)

found :
    (k id : Text) (ref : Named) (s : ImageStore)
    → resolve k s ≡ some id
    → find_tagged k ref s ≡ some (id, ref)
unfolding resolve find_tagged
found k id ref s h = ground (arith, h)

drop-resolve :
    (id p : Text) (s : ImageStore) (j : Text)
    → IsIndexed s
    → resolve j (drop_primary id p s)
      ≡ (if owns p (lookup j s.primary_ref_index_by_ref) then none else resolve j s)
unfolding resolve
drop-resolve id p s j h =
    let ks = keys (inner p s.refs_index_by_primary_ref) in
    let maps = drop_primary-maps id p s in
    let in_keys = elem-keys j (inner p s.refs_index_by_primary_ref) ∙ h.agrees p j in
    let gone = lookup-erase_all ks j s.primary_ref_index_by_ref in
    rw (maps.0, maps.2, gone, in_keys)
      (elim (Bool-cases (owns p (lookup j s.primary_ref_index_by_ref))) [
        | inl b ↦ rw b refl
        | inr b ↦ rw b refl
      ])

-- Removing a reference of an image that the store knows makes it stand for no image any more, and, if
-- it is a primary reference, also every reference that leads to it; all others stand for what they did.
pub remove-resolve :
    (id : Text) (ref : Named) (s : ImageStore) (j : Text)
    → IsIndexed s
    → elem id s.id_set ≡ true
    → let r = string_of (trim_tag_for_digest ref) in
      resolve j (remove_reference id ref s) ≡ (
        if text_eq r j
          || (owns r (lookup r s.primary_ref_index_by_ref)
              && owns r (lookup j s.primary_ref_index_by_ref))
        then none
        else resolve j s)
unfolding remove_reference
remove-resolve id ref s j h known =
    let r = string_of (trim_tag_for_digest ref) in
    let none_resolves = nothing_resolves r j s in
    elim (Option-cases (lookup r s.primary_ref_index_by_ref)) [
      | inl e ↦ ground (arith, e, known, none_resolves)
      | inr (p, e) ↦
          let u = unlink (string_of p) r s in
          let gone = unlink-resolve (string_of p) r s j in
          let all_gone = drop-resolve id (string_of p) u j (unlink-IsIndexed r p s h e) in
          elim (Bool-cases (text_eq r (string_of p))) [
            | inl c ↦ ground (
              arith,
              e,
              c,
              known,
              gone,
              all_gone,
              text_eq_iff r (string_of p),
              text_eq_refl (string_of p),
            )
            | inr c ↦
                ground (
                  arith,
                  e,
                  c,
                  known,
                  gone,
                  text_eq_iff r (string_of p),
                  text_eq_iff (string_of p) r,
                )
          ]
    ]

-- A reference that was added is found: the search answers the image and the reference itself.
pub search-add :
    (id : Text) (primary ref : Named) (s : ImageStore)
    → (add_reference id primary ref s).0 ≡ inr tt
    → search_ref ref (add_reference id primary ref s).1 ≡ inr (id, ref)
unfolding search_ref
search-add id primary ref s h =
    let k = string_of (trim_tag_for_digest ref) in
    let stands : resolve k (add_reference id primary ref s).1 ≡ some id =
      ground (arith, add-resolve id primary ref s k h, text_eq_refl k) in
    rw (found k id ref (add_reference id primary ref s).1 stands) refl
