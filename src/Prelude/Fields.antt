-- ===== src/Prelude/Fields.antt =====
-- Substrings, and the fields of a text between separators.
use pouch.Prelude.{
  ℕ, ◌≡◌, refl, ap, sym, ◌∙◌, Bool-cases, inl, inr, true, List, [], ◌∷◌, ◌++◌, Text, has_prefix,
  contains_text, split, join, join-onto_first, ◌==◌, arith,
}

pub has_prefix_refl : (t : Text) → has_prefix t t ≡ true
unfolding has_prefix
has_prefix_refl [] = refl
has_prefix_refl (x ∷ t) = ground (arith, has_prefix_refl t)

pub contains-of_prefix : (t s : Text) → has_prefix t s ≡ true → contains_text t s ≡ true
unfolding contains_text has_prefix
contains-of_prefix [] [] h = refl
contains-of_prefix (x ∷ t) [] h = h
contains-of_prefix t (x ∷ s) h = ground (arith, h)

pub contains-suffix : (s t : Text) → contains_text t (s ++ t) ≡ true
unfolding contains_text
contains-suffix [] t = contains-of_prefix t t (has_prefix_refl t)
contains-suffix (x ∷ s) t = ground (arith, contains-suffix s t)

-- the first field and the others
pub split-fields : (c : ℕ) (s : Text) → (f : Text) × (fs : List Text) × (split c s ≡ f ∷ fs)
unfolding split
split-fields c [] = ([], [], refl)
split-fields c (x ∷ s) =
    let (f, fs, e) = split-fields c s in
    elim (Bool-cases (x == c)) [
      | inl b ↦ ([], f ∷ fs, ground (arith, b, e))
      | inr b ↦ (x ∷ f, fs, ground (arith, b, e))
    ]

pub join-split : (c : ℕ) (s : Text) → join c (split c s) ≡ s
unfolding split join
join-split c [] = refl
join-split c (x ∷ s) =
    let (f, fs, e) = split-fields c s in
    let ih : join c (f ∷ fs) ≡ s = ap (join c) (sym e) ∙ join-split c s in
    elim (Bool-cases (x == c)) [
      | inl b ↦ rw (b, e) (ap (λ t. c ∷ t) ih ∙ ap (λ k. k ∷ s) (ground (arith, b)))
      | inr b ↦ rw (b, e) (join-onto_first c x f fs ∙ ap (λ t. x ∷ t) ih)
    ]

pub split-both : (c : ℕ) (s t : Text) → split c (s ++ c ∷ t) ≡ split c s ++ split c t
unfolding split
split-both c [] t = ground arith
split-both c (x ∷ s) t =
    let (f, fs, e) = split-fields c s in
    elim (Bool-cases (x == c)) [
      | inl b ↦ ground (arith, b, split-both c s t)
      | inr b ↦ ground (arith, b, e, split-both c s t)
    ]

pub contains-after : (c : ℕ) (s t : Text) → contains_text t (s ++ c ∷ t) ≡ true
unfolding contains_text
contains-after c [] t = ground (arith, contains-suffix [] t)
contains-after c (x ∷ s) t = ground (arith, contains-after c s t)
