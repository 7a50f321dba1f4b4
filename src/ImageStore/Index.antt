-- ===== src/ImageStore/Index.antt =====
-- The two indexes of the searchable references agree, whatever is added and removed.
use pouch.Prelude.{
  ◌≡◌, refl, Bool, true, false, not, ◌&&◌, ◌||◌, Bool-cases, Option-cases, ◌⊎◌, inl, inr, Option,
  none, some, List, [], ◌∷◌, Text, text_eq, text_eq_iff, text_eq_refl, Dict, lookup, erase,
  lookup-insert, lookup-erase, if◌then◌else◌, arith,
}
use pouch.Prelude.Nested.{inner, lookup-insert_in, lookup-erase_in, lookup-inner-erase}
use pouch.Reference.{Named, string_of, is_named_only, trim_tag_for_digest}
use pouch.ImageStore.{
  ImageStore, CtrdImageInfo, StoreError, invalid_param, new_image_store, keys,
  cache_ctrd_image_info, clear_ctrd_image_info,
}
use pouch.ImageStore.Edit.{
  elem, unlink, leave_old_id, link, relate, add_reference, erase_all, drop_primary,
  remove_reference,
}

abbrev pub is_some : {A : Type 0} → Option A → Bool
is_some none = false
is_some (some _) = true

-- whether the primary reference found is `p`
abbrev pub owns : Text → Option Named → Bool
owns p none = false
owns p (some q) = text_eq (string_of q) p

-- A reference is among the references of a primary reference if and only if it leads to it.
pub record IsIndexed (s : ImageStore) : Type 0 where
  pub agrees :
      (p r : Text)
      → is_some (lookup r (inner p s.refs_index_by_primary_ref))
        ≡ owns p (lookup r s.primary_ref_index_by_ref)

pub unlink-IsIndexed :
    (r : Text) (q : Named) (s : ImageStore)
    → IsIndexed s
    → lookup r s.primary_ref_index_by_ref ≡ some q
    → IsIndexed (unlink (string_of q) r s)
unfolding unlink
unlink-IsIndexed r q s h e = record {
  agrees = λ p' r'. ground (
    arith,
    h.agrees p' r',
    e,
    lookup-erase r r' s.primary_ref_index_by_ref,
    lookup-erase_in (string_of q) r p' r' s.refs_index_by_primary_ref,
    text_eq_iff (string_of q) p',
    text_eq_iff r r',
  );
}

unlinked : (p r : Text) (s : ImageStore) → lookup r (unlink p r s).primary_ref_index_by_ref ≡ none
unfolding unlink
unlinked p r s = ground (arith, lookup-erase r r s.primary_ref_index_by_ref, text_eq_refl r)

leave-same :
    (id p : Text) (s : ImageStore)
    → ((leave_old_id id p s).primary_ref_index_by_ref ≡ s.primary_ref_index_by_ref)
      × ((leave_old_id id p s).refs_index_by_primary_ref ≡ s.refs_index_by_primary_ref)
unfolding leave_old_id
leave-same id p s = ground arith

link-IsIndexed :
    (id : Text) (primary ref : Named) (s : ImageStore)
    → IsIndexed s
    → lookup (string_of ref) s.primary_ref_index_by_ref ≡ none
    → IsIndexed (link id primary ref s)
unfolding link
link-IsIndexed id primary ref s h e = record {
  agrees = λ p' r'.
      let p = string_of primary in
      let r = string_of ref in
      let same = leave-same id p s in
      ground (
        arith,
        h.agrees p' r',
        e,
        same.0,
        same.1,
        lookup-insert r r' primary s.primary_ref_index_by_ref,
        lookup-insert_in p r p' r' ref s.refs_index_by_primary_ref,
        text_eq_iff r r',
      );
}

pub lookup-erase_all :
    {V : Type 0} (ks : List Text) (j : Text) (d : Dict V)
    → lookup j (erase_all ks d) ≡ (if elem j ks then none else lookup j d)
unfolding erase_all
lookup-erase_all [] j d = refl
lookup-erase_all (k ∷ ks) j d =
    ground (arith, lookup-erase_all ks j (erase k d), lookup-erase k j d)

pub elem-keys : {V : Type 0} (j : Text) (d : Dict V) → elem j (keys d) ≡ is_some (lookup j d)
unfolding lookup
elem-keys j [] = refl
elem-keys j ((k, v) ∷ d) = ground (arith, elem-keys j d)

pub drop_primary-maps :
    (id p : Text) (s : ImageStore)
    → let s' = drop_primary id p s in
      (s'.primary_ref_index_by_ref
        ≡ erase_all (keys (inner p s.refs_index_by_primary_ref)) s.primary_ref_index_by_ref)
      × (s'.refs_index_by_primary_ref ≡ erase p s.refs_index_by_primary_ref)
      × (s'.id_index_by_primary_ref ≡ s.id_index_by_primary_ref)
unfolding drop_primary
drop_primary-maps id p s = ground arith

drop_primary-IsIndexed :
    (id p : Text) (s : ImageStore) → IsIndexed s → IsIndexed (drop_primary id p s)
drop_primary-IsIndexed id p s h = record {
  agrees = λ p' r'.
      let maps = drop_primary-maps id p s in
      let facts =
        lookup-erase_all (keys (inner p s.refs_index_by_primary_ref)) r'
          s.primary_ref_index_by_ref in
      let in_keys = elem-keys r' (inner p s.refs_index_by_primary_ref) in
      let inner_map = lookup-inner-erase p p' r' s.refs_index_by_primary_ref in
      elim (Option-cases (lookup r' s.primary_ref_index_by_ref)) [
        | inl e ↦ ground (
          arith,
          maps.0,
          maps.1,
          h.agrees p' r',
          h.agrees p r',
          facts,
          in_keys,
          inner_map,
          e,
          text_eq_iff p p',
        )
        | inr (q, e) ↦ ground (
          arith,
          maps.0,
          maps.1,
          h.agrees p' r',
          h.agrees p r',
          facts,
          in_keys,
          inner_map,
          e,
          text_eq_iff p p',
          text_eq_iff (string_of q) p,
          text_eq_iff (string_of q) p',
        )
      ];
}

relate-IsIndexed :
    (id : Text) (primary ref : Named) (s : ImageStore)
    → IsIndexed s
    → IsIndexed (relate id primary ref s).1
unfolding relate
relate-IsIndexed id primary ref s h =
    elim (Option-cases (lookup (string_of ref) s.primary_ref_index_by_ref)) [
      | inl e ↦ rw (relate, e) (link-IsIndexed id primary ref s h e)
      | inr (old, e) ↦
          rw (relate, e)
            (elim (Bool-cases (
              text_eq (string_of old) (string_of ref)
              && not (text_eq (string_of old) (string_of primary)))) [
                | inl b ↦ rw b h
                | inr b ↦ rw b (
                    link-IsIndexed id primary ref (unlink (string_of old) (string_of ref) s)
                      (unlink-IsIndexed (string_of ref) old s h e)
                      (unlinked (string_of old) (string_of ref) s))
              ])
    ]

add-IsIndexed :
    (id : Text) (primary ref : Named) (s : ImageStore)
    → IsIndexed s
    → IsIndexed (add_reference id primary ref s).1
unfolding add_reference
add-IsIndexed id primary ref s h =
    guarded (is_named_only ref || is_named_only primary) _ h
      (guarded _ _ h (relate-IsIndexed id _ _ s h))
  where
    guarded :
        (refused : Bool) (r : (StoreError ⊎ Unit {0}) × ImageStore)
        → IsIndexed s
        → IsIndexed r.1
        → IsIndexed (if refused then (inl invalid_param, s) else r).1
    guarded true r h k = h
    guarded false r h k = k

remove-IsIndexed :
    (id : Text) (ref : Named) (s : ImageStore) → IsIndexed s → IsIndexed (remove_reference id ref s)
unfolding remove_reference
remove-IsIndexed id ref s h =
    let r = string_of (trim_tag_for_digest ref) in
    elim (Bool-cases (elem id s.id_set)) [
      | inr b ↦ rw b h
      | inl b ↦ elim (Option-cases (lookup r s.primary_ref_index_by_ref)) [
        | inl e ↦ rw (b, e) h
        | inr (p, e) ↦
            let u = unlink-IsIndexed r p s h e in
            elim (Bool-cases (text_eq r (string_of p))) [
              | inl c ↦
                  rw (b, e, c)
                    (drop_primary-IsIndexed id (string_of p) (unlink (string_of p) r s) u)
              | inr c ↦ rw (b, e, c) u
            ]
      ]
    ]

-- what changes the store
pub data Edit : Type 0 where
  adds : Text → Named → Named → Edit
  removes : Text → Named → Edit
  caches : Text → CtrdImageInfo → Edit
  clears : Text → Edit

unfoldable pub after : Edit → ImageStore → ImageStore
after (adds id primary ref) s = (add_reference id primary ref s).1
after (removes id ref) s = remove_reference id ref s
after (caches id info) s = cache_ctrd_image_info id info s
after (clears id) s = clear_ctrd_image_info id s

unfoldable pub after_all : List Edit → ImageStore → ImageStore
unfolding after
after_all [] s = s
after_all (e ∷ es) s = after_all es (after e s)

after-IsIndexed : (e : Edit) (s : ImageStore) → IsIndexed s → IsIndexed (after e s)
unfolding after cache_ctrd_image_info clear_ctrd_image_info
after-IsIndexed (adds id primary ref) s h = add-IsIndexed id primary ref s h
after-IsIndexed (removes id ref) s h = remove-IsIndexed id ref s h
after-IsIndexed (caches id info) s h = record { agrees = h.agrees }
after-IsIndexed (clears id) s h = record { agrees = h.agrees }

all-IsIndexed : (es : List Edit) (s : ImageStore) → IsIndexed s → IsIndexed (after_all es s)
unfolding after_all
all-IsIndexed [] s h = h
all-IsIndexed (e ∷ es) s h = all-IsIndexed es (after e s) (after-IsIndexed e s h)

-- Whatever is added, removed, cached and cleared, from the empty store on: a reference is among the
-- searchable references of a primary reference if and only if it leads to that primary reference.
pub edits_keep-IsIndexed :
    (es : List Edit) (p r : Text)
    → let s = after_all es new_image_store in
      is_some (lookup r (inner p s.refs_index_by_primary_ref))
      ≡ owns p (lookup r s.primary_ref_index_by_ref)
unfolding new_image_store lookup inner
edits_keep-IsIndexed es p r = (all-IsIndexed es _ (record { agrees = λ p' r'. refl })).agrees p r
