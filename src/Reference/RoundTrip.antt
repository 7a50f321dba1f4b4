-- ===== src/Reference/RoundTrip.antt =====
-- A reference prints as the text it was parsed from.
use pouch.Prelude.{
  ◌≡◌, refl, ap, ◌∙◌, ℕ, Bool, true, false, Bool-cases, Option-cases, inl, inr, some, [], ◌∷◌, ◌++◌,
  Text, arith,
}
use pouch.Reference.Regexp.{is_ref, is_tag, is_digest}
use pouch.Reference.{
  Named, named_reference, tagged_reference, canonical_digested_reference, reference, is_named_only,
  with_digest, name_of, string_of, cut, or_whole, split_reference, assemble, parse,
  trim_tag_for_digest,
}

-- what a cut took apart is the text
cut-append :
    (c : ℕ) (matches : Text → Bool) (s : Text) (p : Text × Text)
    → cut c matches s ≡ some p
    → p.0 ++ c ∷ p.1 ≡ s
unfolding cut
cut-append c matches [] p h = cc
cut-append c matches (x ∷ xs) p h = elim (Option-cases (cut c matches xs)) [
  | inl e ↦ ground (arith, e, h)
  | inr (q, e) ↦ ground (arith, e, h, cut-append c matches xs q e)
]

-- the separator and the part behind it, if there is such a part
abbrev suffix : ℕ → Text → Text
suffix c [] = []
suffix c (x ∷ xs) = c ∷ x ∷ xs

append-[] : (s : Text) → s ++ [] ≡ s
append-[] [] = refl
append-[] (x ∷ xs) = ap (λ t. x ∷ t) (append-[] xs)

append_assoc : (a b c : Text) → (a ++ b) ++ c ≡ a ++ b ++ c
append_assoc [] b c = refl
append_assoc (x ∷ a) b c = ap (λ t. x ∷ t) (append_assoc a b c)

-- a match holds behind the separator
cut-matches :
    (c : ℕ) (matches : Text → Bool) (s : Text) (p : Text × Text)
    → cut c matches s ≡ some p
    → matches p.1 ≡ true
unfolding cut
cut-matches c matches [] p h = cc
cut-matches c matches (x ∷ xs) p h = elim (Option-cases (cut c matches xs)) [
  | inl e ↦ ground (arith, e, h)
  | inr (q, e) ↦ ground (arith, e, h, cut-matches c matches xs q e)
]

cut-suffix :
    (c : ℕ) (matches : Text → Bool) (s : Text)
    → matches [] ≡ false
    → let p = or_whole s (cut c matches s) in p.0 ++ suffix c p.1 ≡ s
cut-suffix c matches s f = elim (Option-cases (cut c matches s)) [
  | inl e ↦ rw e (append-[] s)
  | inr ((a, []), e) ↦ ground (arith, f, cut-matches c matches s (a, []) e)
  | inr ((a, x ∷ b), e) ↦ rw e (cut-append c matches s (a, x ∷ b) e)
]

assemble-string_of :
    (valid : Text → Bool) (name tag digest : Text) (r : Named)
    → assemble valid (name, tag, digest) ≡ some r
    → string_of r ≡ (name ++ suffix 58 tag) ++ suffix 64 digest
unfolding assemble string_of name_of
assemble-string_of valid name [] [] r h = ground (arith, h, append-[] name, append-[] (name ++ []))
assemble-string_of valid name (t ∷ tag) [] r h = ground (arith, h, append-[] (name ++ 58 ∷ t ∷ tag))
assemble-string_of valid name [] (d ∷ digest) r h = ground (arith, h, append-[] name)
assemble-string_of valid name (t ∷ tag) (d ∷ digest) r h =
    ground (arith, h, append_assoc name (58 ∷ t ∷ tag) (64 ∷ d ∷ digest))

-- A text that parses as a reference is what the reference prints as: nothing of the name, the tag or
-- the digest is lost or changed.
pub parse-string_of :
    (valid : Text → Bool) (s : Text) (r : Named) → parse valid s ≡ some r → string_of r ≡ s
unfolding parse split_reference is_tag is_digest
parse-string_of valid s r h =
    let d = or_whole s (cut 64 is_digest s) in
    let t = or_whole d.0 (cut 58 is_tag d.0) in
    elim (Bool-cases (is_ref s)) [
      | inl e ↦
          assemble-string_of valid t.0 t.1 d.1 r (ground (arith, e, h))
          ∙ ap (λ n. n ++ suffix 64 d.1) (cut-suffix 58 is_tag d.0 refl)
          ∙ cut-suffix 64 is_digest s refl
      | inr e ↦ ground (arith, e, h)
    ]

-- Trimming the tag of a reference twice prints as trimming it once, and a trimmed reference has a tag
-- or a digest if and only if the reference had one.
pub trim-trim :
    (r : Named)
    → let t = trim_tag_for_digest r in
      (string_of (trim_tag_for_digest t) ≡ string_of t)
      × (is_named_only t ≡ is_named_only r)
      × (name_of t ≡ name_of r)
unfolding trim_tag_for_digest with_digest string_of name_of is_named_only
trim-trim (named_reference name) = (refl, refl, refl)
trim-trim (tagged_reference r tag) = (refl, refl, refl)
trim-trim (canonical_digested_reference r digest) = (refl, refl, refl)
trim-trim (reference r tag digest) = (refl, refl, refl)
