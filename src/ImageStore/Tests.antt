-- ===== src/ImageStore/Tests.antt =====
-- Runs of the image store, and the theorems at concrete inputs.
use pouch.Prelude.{
  ◌≡◌, refl, inl, inr, none, some, [], ◌∷◌, Text, str, text_eq, has_prefix, split, lookup, insert,
  erase,
}
use pouch.Prelude.Nested.{inner, insert_in, erase_in}
use pouch.Reference.{
  Named, named_reference, tagged_reference, name_of, string_of, is_named_only, trim_tag_for_digest,
}
use pouch.ImageStore.{ImageStore, new_image_store, search_ids, get_references, invalid_param}
use pouch.ImageStore.Edit.{
  get_last_component_in_reference_name, add_reference, remove_reference, relate, link, leave_old_id,
  unlink,
}
use pouch.ImageStore.Index.{
  is_some, owns, adds, removes, after, after_all, edits_keep-IsIndexed, IsIndexed,
}
use pouch.ImageStore.Resolve.{resolve, add-resolve, remove-resolve}

abbrev busybox : Named
busybox = tagged_reference (named_reference (str "busybox")) (str "1.26")

abbrev alias : Named
alias = tagged_reference (named_reference (str "box")) (str "v1")

abbrev old_id : Text
old_id = str "sha256:01"

abbrev new_id : Text
new_id = str "sha256:02"

abbrev with_alias : ImageStore
with_alias =
    (add_reference old_id busybox alias (add_reference old_id busybox busybox new_image_store).1).1

-- After the same reference is pulled again and stands for another image, the ID of the first image is
-- still found, though no reference stands for that image.
old_id_stays :
    let s = (add_reference new_id busybox busybox with_alias).1 in
    (search_ids (str "01") s ≡ inr old_id) × (get_references old_id s ≡ [])
unfolding new_image_store add_reference get_last_component_in_reference_name relate link
    leave_old_id unlink is_named_only trim_tag_for_digest search_ids get_references has_prefix split
    lookup insert erase inner insert_in erase_in text_eq string_of
old_id_stays = (refl, refl)

primary_stays : (add_reference new_id alias busybox with_alias).0 ≡ inl invalid_param
unfolding new_image_store add_reference get_last_component_in_reference_name relate link
    leave_old_id unlink is_named_only trim_tag_for_digest split lookup insert erase inner insert_in
    erase_in text_eq string_of
primary_stays = refl

add-resolve_example :
    resolve (str "box:v1") (add_reference new_id busybox busybox with_alias).1 ≡ some new_id
unfolding new_image_store add_reference get_last_component_in_reference_name relate link
    leave_old_id unlink is_named_only trim_tag_for_digest split lookup insert erase inner insert_in
    erase_in text_eq string_of name_of
add-resolve_example = add-resolve new_id busybox busybox with_alias (str "box:v1") refl

edits_keep-IsIndexed_example :
    let s = after_all (adds old_id busybox busybox ∷ removes old_id busybox ∷ []) new_image_store in
    is_some (lookup (str "busybox:1.26") (inner (str "busybox:1.26") s.refs_index_by_primary_ref))
    ≡ owns (str "busybox:1.26") (lookup (str "busybox:1.26") s.primary_ref_index_by_ref)
edits_keep-IsIndexed_example =
    edits_keep-IsIndexed (adds old_id busybox busybox ∷ removes old_id busybox ∷ [])
      (str "busybox:1.26") (str "busybox:1.26")

with_alias-IsIndexed : IsIndexed with_alias
unfolding after_all after
with_alias-IsIndexed = record {
  agrees = edits_keep-IsIndexed (adds old_id busybox busybox ∷ adds old_id busybox alias ∷ []);
}

remove-resolve_example : resolve (str "box:v1") (remove_reference old_id busybox with_alias) ≡ none
unfolding new_image_store add_reference get_last_component_in_reference_name relate link
    leave_old_id unlink is_named_only trim_tag_for_digest split lookup insert erase inner insert_in
    erase_in text_eq string_of name_of resolve
remove-resolve_example =
    remove-resolve old_id busybox with_alias (str "box:v1") with_alias-IsIndexed refl
