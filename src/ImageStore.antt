-- ===== src/ImageStore.antt =====
-- daemon/mgr/image_store.go: the references of the images, indexed four ways. A digest is its text. The
-- trie of the image IDs is the set of its keys.
pub mod Edit
pub mod Index
pub mod Resolve
mod Tests
use pouch.Prelude.{
  ◌⊎◌, inl, inr, Option, none, some, List, [], ◌∷◌, ◌++◌, Text, str, has_prefix, Dict, lookup,
  insert, erase, if◌then◌else◌,
}
use pouch.Prelude.Int.{ℤ}
use pouch.Prelude.Nested.{inner}
use pouch.Reference.{
  Named, string_of, is_named_only, trim_tag_for_digest, with_default_tag_if_missing,
}

-- `CtrdImageInfo`; the OCI description is a text that the store only keeps
pub record CtrdImageInfo : Type 0 where
  pub id : Text
  pub size : ℤ
  pub oci_spec : Text

pub record ImageStore : Type 0 where
  pub id_set : List Text
  pub primary_ref_index_by_ref : Dict Named
  pub id_index_by_primary_ref : Dict Text
  pub refs_index_by_primary_ref : Dict (Dict Named)
  pub primary_refs_index_by_id : Dict (Dict Named)
  pub image_info_cache : Dict CtrdImageInfo

pub data StoreError : Type 0 where
  not_found too_many invalid_param info_not_exist : StoreError

unfoldable pub new_image_store : ImageStore
new_image_store = record {
  id_set = [];
  primary_ref_index_by_ref = [];
  id_index_by_primary_ref = [];
  refs_index_by_primary_ref = [];
  primary_refs_index_by_id = [];
  image_info_cache = [];
}

abbrev pub keys : {V : Type 0} → Dict V → List Text
keys [] = []
keys ((k, _) ∷ d) = k ∷ keys d

abbrev values : {V : Type 0} → Dict V → List V
values [] = []
values ((_, v) ∷ d) = v ∷ values d

abbrev refs_of : Dict (Dict Named) → List Text → List Named
refs_of refs [] = []
refs_of refs (p ∷ ps) = values (inner p refs) ++ refs_of refs ps

-- `GetReferences`
unfoldable pub get_references : Text → ImageStore → List Named
unfolding inner
get_references id store =
    refs_of store.refs_index_by_primary_ref (keys (inner id store.primary_refs_index_by_id))

-- `GetPrimaryReferences`
unfoldable pub get_primary_references : Text → ImageStore → List Named
unfolding inner
get_primary_references id store = values (inner id store.primary_refs_index_by_id)

-- `GetPrimaryReference`
unfoldable pub get_primary_reference : Named → ImageStore → StoreError ⊎ Named
unfolding trim_tag_for_digest string_of lookup
get_primary_reference ref store =
    elim (lookup (string_of (trim_tag_for_digest ref)) store.primary_ref_index_by_ref) [
      | some p ↦ inr p
      | none ↦ inl not_found
    ]

-- the keys of the trie under a prefix
abbrev under : Text → List Text → List Text
under prefix [] = []
under prefix (id ∷ ids) =
    let rest = under prefix ids in if has_prefix prefix id then id ∷ rest else rest

abbrev only_id : List Text → StoreError ⊎ Text
only_id [] = inl not_found
only_id (id ∷ []) = inr id
only_id (_ ∷ _ ∷ _) = inl too_many

-- `searchIDs`
unfoldable pub search_ids : Text → ImageStore → StoreError ⊎ Text
unfolding has_prefix
search_ids ref_id store =
    let id = if has_prefix (str "sha256") ref_id then ref_id else str "sha256" ++ 58 ∷ ref_id in
    only_id (under id store.id_set)

-- m[k] of a map of strings, where a missing key reads as the empty string
abbrev pub or_empty : Option Text → Text
or_empty none = []
or_empty (some s) = s

abbrev with_ref : Named → StoreError ⊎ Text → StoreError ⊎ (Text × Named)
with_ref ref (inl e) = inl e
with_ref ref (inr id) = inr (id, ref)

-- the image ID and the reference, if the text stands for a primary reference
unfoldable pub find_tagged : Text → Named → ImageStore → Option (Text × Named)
unfolding lookup string_of
find_tagged key ref store = elim (lookup key store.primary_ref_index_by_ref) [
  | some p ↦ some (or_empty (lookup (string_of p) store.id_index_by_primary_ref), ref)
  | none ↦ none
]

abbrev or_else : Option (Text × Named) → StoreError ⊎ (Text × Named) → StoreError ⊎ (Text × Named)
or_else none r = r
or_else (some p) r = inr p

-- `Search`
unfoldable pub search_ref : Named → ImageStore → StoreError ⊎ (Text × Named)
unfolding find_tagged search_ids trim_tag_for_digest string_of is_named_only
    with_default_tag_if_missing
search_ref ref store =
    let latest_ref = with_default_tag_if_missing ref in
    or_else (find_tagged (string_of (trim_tag_for_digest ref)) ref store) (
      or_else
        (if is_named_only ref then find_tagged (string_of latest_ref) latest_ref store else none)
        (with_ref ref (search_ids (string_of ref) store)))

-- `ListCtrdImageInfo`
unfoldable pub list_ctrd_image_info : ImageStore → List CtrdImageInfo
list_ctrd_image_info store = values store.image_info_cache

-- `GetCtrdImageInfo`
unfoldable pub get_ctrd_image_info : Text → ImageStore → StoreError ⊎ CtrdImageInfo
get_ctrd_image_info id store = elim (lookup id store.image_info_cache) [
  | some info ↦ inr info
  | none ↦ inl info_not_exist
]

-- `CacheCtrdImageInfo`
unfoldable pub cache_ctrd_image_info : Text → CtrdImageInfo → ImageStore → ImageStore
cache_ctrd_image_info id info store = record store {
  image_info_cache = insert id info store.image_info_cache;
}

-- `ClearCtrdImageInfo`
unfoldable pub clear_ctrd_image_info : Text → ImageStore → ImageStore
clear_ctrd_image_info id store = record store { image_info_cache = erase id store.image_info_cache }
