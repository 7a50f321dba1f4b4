-- ===== src/Volume/References/Lists.antt =====
-- The references of a volume as a list: what `StringSliceDelete` leaves of the fields of a text.
use pouch.Prelude.{
  ℕ, ◌≡◌, refl, ap, ◌∙◌, subst, Bool-cases, inl, inr, true, false, List, [], ◌∷◌, ◌++◌, Text,
  is_empty, text_eq, text_eq_iff, text_eq_refl, has_prefix, contains_text, contains_char, split,
  split-field, join, ◌==◌, if◌then◌else◌, arith,
}
use pouch.Prelude.Fields.{
  split-both, join-split, contains-of_prefix, contains-after, has_prefix_refl,
}
use pouch.Volume.Manager.{string_slice_delete}

append_nil : (xs : List Text) → xs ++ [] ≡ xs
append_nil [] = refl
append_nil (x ∷ xs) = ap (λ t. x ∷ t) (append_nil xs)

delete-append :
    (xs ys : List Text) (del : Text)
    → string_slice_delete (xs ++ ys) del ≡ string_slice_delete xs del ++ string_slice_delete ys del
unfolding string_slice_delete
delete-append [] ys del = refl
delete-append (x ∷ xs) ys del = ground (arith, delete-append xs ys del)

-- what a field of a text is, when the text does not contain `t`
split-without :
    (c : ℕ) (t s : Text)
    → contains_text t s ≡ false
    → (f : Text) × (fs : List Text) × ((split c s ≡ f ∷ fs)
        × (has_prefix f s ≡ true)
        × (string_slice_delete fs t ≡ fs))
unfolding split contains_text has_prefix string_slice_delete
split-without c t [] h = ([], [], (refl, refl, refl))
split-without c t (x ∷ s) h =
    let (f, fs, (e, p, k)) = split-without c t s (ground (arith, h)) in
    elim (Bool-cases (x == c)) [
      | inr b ↦ (x ∷ f, fs, (ground (arith, b, e), ground (arith, p), k))
      | inl b ↦
          let other : text_eq f t ≡ false = not_first f p in
          ([], f ∷ fs, (ground (arith, b, e), refl, ground (arith, other, k)))
    ]
  where
    not_first : (f : Text) → has_prefix f s ≡ true → text_eq f t ≡ false
    not_first f p = elim (Bool-cases (text_eq f t)) [
      | inr b ↦ b
      | inl b ↦
          let same : f ≡ t = (text_eq_iff f t).0 b in
          absurd
            (ground (arith, h, contains-of_prefix t s (subst (λ k. has_prefix k s ≡ true) same p)))
    ]

-- a text that is not contained is no field
pub delete-without :
    (c : ℕ) (t s : Text) → contains_text t s ≡ false → string_slice_delete (split c s) t ≡ split c s
unfolding string_slice_delete
delete-without c t s h =
    let (f, fs, (e, p, k)) = split-without c t s h in
    elim (Bool-cases (text_eq f t)) [
      | inl b ↦
          let same : f ≡ t = (text_eq_iff f t).0 b in
          absurd
            (ground (arith, h, contains-of_prefix t s (subst (λ k. has_prefix k s ≡ true) same p)))
      | inr b ↦ rw e (ground (arith, b, k))
    ]

-- deleting the field that was appended gives the text back
pub join-delete-appended :
    (c : ℕ) (s t : Text)
    → contains_char c t ≡ false
    → contains_text t s ≡ false
    → join c (string_slice_delete (split c (s ++ c ∷ t)) t) ≡ s
unfolding string_slice_delete
join-delete-appended c s t n h =
    ap (λ fs. join c (string_slice_delete fs t))
      (split-both c s t ∙ ap (λ gs. split c s ++ gs) (split-field c t n))
    ∙ ap (join c) (delete-append (split c s) (t ∷ []) t)
    ∙ rw (text_eq_refl t) (
        ap (join c) (append_nil (string_slice_delete (split c s) t) ∙ delete-without c t s h)
        ∙ join-split c s)

-- the references after an attachment of a container that they do not contain
abbrev pub attached_ref : Text → Text → Text
attached_ref ref cid =
    if is_empty ref then cid else if contains_text cid ref then cid else ref ++ 44 ∷ cid

pub attached_ref-contains : (ref cid : Text) → contains_text cid (attached_ref ref cid) ≡ true
attached_ref-contains [] cid = contains-of_prefix cid cid (has_prefix_refl cid)
attached_ref-contains (x ∷ ref) cid = elim (Bool-cases (contains_text cid (x ∷ ref))) [
  | inl b ↦ rw b (contains-of_prefix cid cid (has_prefix_refl cid))
  | inr b ↦ rw b (contains-after 44 (x ∷ ref) cid)
]

pub attached_ref-full :
    (ref cid : Text) → is_empty cid ≡ false → is_empty (attached_ref ref cid) ≡ false
attached_ref-full [] cid n = n
attached_ref-full (x ∷ ref) cid n = elim (Bool-cases (contains_text cid (x ∷ ref))) [
  | inl b ↦ rw b n
  | inr b ↦ rw b refl
]

pub attached_ref-deleted :
    (ref cid : Text)
    → contains_char 44 cid ≡ false
    → contains_text cid ref ≡ false
    → join 44 (string_slice_delete (split 44 (attached_ref ref cid)) cid) ≡ ref
unfolding string_slice_delete join
attached_ref-deleted [] cid n h =
    ap (λ fs. join 44 (string_slice_delete fs cid)) (split-field 44 cid n)
    ∙ rw (text_eq_refl cid) refl
attached_ref-deleted (x ∷ ref) cid n h = rw h (join-delete-appended 44 (x ∷ ref) cid n h)
