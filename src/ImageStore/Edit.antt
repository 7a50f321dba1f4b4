-- ===== src/ImageStore/Edit.antt =====
-- daemon/mgr/image_store.go: AddReference and RemoveReference.
use pouch.Prelude.{
  Bool, true, false, not, ◌&&◌, ◌||◌, ◌⊎◌, inl, inr, none, some, List, [], ◌∷◌, Text, str, text_eq,
  split, Dict, lookup, insert, erase, if◌then◌else◌,
}
use pouch.Prelude.Nested.{inner, insert_in, erase_in}
use pouch.Reference.{Named, name_of, string_of, is_named_only, trim_tag_for_digest}
use pouch.ImageStore.{ImageStore, StoreError, invalid_param, keys}

abbrev last : Text → List Text → Text
last s [] = s
last s (t ∷ ts) = last t ts

-- `getLastComponentInReferenceName`
unfoldable pub get_last_component_in_reference_name : Named → Text
unfolding split name_of
get_last_component_in_reference_name ref = last [] (split 47 (name_of ref))

-- forgets that the primary reference `p` has the searchable reference `r`
unfoldable pub unlink : Text → Text → ImageStore → ImageStore
unlink p r store = record store {
  primary_ref_index_by_ref = erase r store.primary_ref_index_by_ref;
  refs_index_by_primary_ref = erase_in p r store.refs_index_by_primary_ref;
}

-- forgets that an image other than `id` has the primary reference `p`
unfoldable pub leave_old_id : Text → Text → ImageStore → ImageStore
leave_old_id id p store = elim (lookup p store.id_index_by_primary_ref) [
  | none ↦ store
  | some old_id ↦ if text_eq old_id id then store else record store {
    primary_refs_index_by_id = erase_in old_id p store.primary_refs_index_by_id;
  }
]

abbrev pub elem : Text → List Text → Bool
elem id [] = false
elem id (x ∷ xs) = text_eq x id || elem id xs

abbrev set_id : Text → List Text → List Text
set_id id ids = if elem id ids then ids else id ∷ ids

-- the part of `AddReference` that cannot fail; both references are trimmed
unfoldable pub link : Text → Named → Named → ImageStore → ImageStore
link id primary_ref ref store =
    let p = string_of primary_ref in
    let r = string_of ref in
    let s = leave_old_id id p store in
    record s {
      id_set = set_id id s.id_set;
      id_index_by_primary_ref = insert p id s.id_index_by_primary_ref;
      primary_ref_index_by_ref = insert r primary_ref s.primary_ref_index_by_ref;
      refs_index_by_primary_ref = insert_in p r ref s.refs_index_by_primary_ref;
      primary_refs_index_by_id = insert_in id p primary_ref s.primary_refs_index_by_id;
    }

-- `AddReference` under its lock, on trimmed references
unfoldable pub relate : Text → Named → Named → ImageStore → (StoreError ⊎ Unit {0}) × ImageStore
relate id primary_ref ref store = elim (lookup (string_of ref) store.primary_ref_index_by_ref) [
  | none ↦ (inr tt, link id primary_ref ref store)
  | some old ↦
      if text_eq (string_of old) (string_of ref)
        && not (text_eq (string_of old) (string_of primary_ref))
      then (inl invalid_param, store)
      else (inr tt, link id primary_ref ref (unlink (string_of old) (string_of ref) store))
]

-- `AddReference`
unfoldable pub add_reference :
    Text → Named → Named → ImageStore → (StoreError ⊎ Unit {0}) × ImageStore
add_reference id primary_ref ref store =
    if is_named_only ref || is_named_only primary_ref
    then (inl invalid_param, store)
    else if text_eq (get_last_component_in_reference_name (trim_tag_for_digest ref)) (str "sha256")
    then (inl invalid_param, store)
    else relate id (trim_tag_for_digest primary_ref) (trim_tag_for_digest ref) store

-- for ref := range ... { delete(d, ref) }
unfoldable pub erase_all : {V : Type 0} → List Text → Dict V → Dict V
erase_all [] d = d
erase_all (k ∷ ks) d = erase_all ks (erase k d)

abbrev without_id : Text → List Text → List Text
without_id id [] = []
without_id id (x ∷ xs) = let rest = without_id id xs in if text_eq x id then rest else x ∷ rest

abbrev is_nil : {V : Type 0} → Dict V → Bool
is_nil [] = true
is_nil (_ ∷ _) = false

-- the removal of a primary reference with all that it is found by
unfoldable pub drop_primary : Text → Text → ImageStore → ImageStore
drop_primary id p store =
    let s = record store {
      primary_ref_index_by_ref =
          erase_all (keys (inner p store.refs_index_by_primary_ref)) store.primary_ref_index_by_ref;
      primary_refs_index_by_id = erase_in id p store.primary_refs_index_by_id;
      refs_index_by_primary_ref = erase p store.refs_index_by_primary_ref;
    } in
    if is_nil (inner id s.primary_refs_index_by_id)
    then record s { id_set = without_id id s.id_set }
    else s

-- `RemoveReference`
unfoldable pub remove_reference : Text → Named → ImageStore → ImageStore
remove_reference id ref store =
    let r = string_of (trim_tag_for_digest ref) in
    if not (elem id store.id_set) then store else elim (lookup r store.primary_ref_index_by_ref) [
      | none ↦ store
      | some p ↦
          let s = unlink (string_of p) r store in
          if text_eq r (string_of p) then drop_primary id (string_of p) s else s
    ]
