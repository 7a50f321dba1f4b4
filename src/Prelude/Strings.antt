-- ===== src/Prelude/Strings.antt =====
-- Go strings as lists of code points, with the functions of the package strings that pouch calls.
use Prim.Native.Nat.{ℕ}
use Prim.Native.Char.{code}
use Prim.Native.String.{String}
use mathlib.Core.Path.{◌≡◌, refl, ap, sym, ◌∙◌}
use mathlib.Core.Logic.{◌⊎◌, inl, inr, ◌↔◌}
use mathlib.Core.Bool.{Bool, true, false, not, ◌&&◌, ◌||◌}
use mathlib.Core.List.{List, [], ◌∷◌, ◌++◌, reverse}
use native.Mathlib.Omega.{arith}
use pouch.Prelude.Tests.{Bool-cases, leb, ◌==◌, if◌then◌else◌}

abbrev pub Text : Type 0
Text = List ℕ

-- A literal of the source.
abbrev pub str : String → Text
str String.[] = []
str (String.◌∷◌ c s) = code c ∷ str s

unfoldable pub text_eq : Text → Text → Bool
text_eq [] [] = true
text_eq [] (_ ∷ _) = false
text_eq (_ ∷ _) [] = false
text_eq (x ∷ xs) (y ∷ ys) = (x == y) && text_eq xs ys

pub text_eq_refl : (xs : Text) → text_eq xs xs ≡ true
unfolding text_eq
text_eq_refl [] = refl
text_eq_refl (x ∷ xs) = ground (arith, text_eq_refl xs)

pub eq_of_text_eq : (xs ys : Text) → text_eq xs ys ≡ true → xs ≡ ys
unfolding text_eq
eq_of_text_eq [] [] h = refl
eq_of_text_eq [] (_ ∷ _) h = cc
eq_of_text_eq (_ ∷ _) [] h = cc
eq_of_text_eq (x ∷ xs) (y ∷ ys) h = ground (arith, eq_of_text_eq xs ys)

pub text_eq_iff : (xs ys : Text) → (text_eq xs ys ≡ true) ↔ (xs ≡ ys)
text_eq_iff xs ys = (eq_of_text_eq xs ys, λ e. ap (text_eq xs) (sym e) ∙ text_eq_refl xs)

abbrev pub is_empty : Text → Bool
is_empty [] = true
is_empty (_ ∷ _) = false

-- strings.HasPrefix(s, prefix)
unfoldable pub has_prefix : Text → Text → Bool
has_prefix [] key = true
has_prefix (_ ∷ _) [] = false
has_prefix (x ∷ xs) (y ∷ ys) = (x == y) && has_prefix xs ys

-- strings.Contains(s, sub)
unfoldable pub contains_text : Text → Text → Bool
unfolding has_prefix
contains_text sub [] = is_empty sub
contains_text sub (x ∷ xs) = has_prefix sub (x ∷ xs) || contains_text sub xs

-- strings.Contains(s, sep) for a separator of one character
unfoldable pub contains_char : ℕ → Text → Bool
contains_char c [] = false
contains_char c (x ∷ xs) = (x == c) || contains_char c xs

-- puts a character at the front of the first field
abbrev pub onto_first : ℕ → List Text → List Text
onto_first x [] = (x ∷ []) ∷ []
onto_first x (f ∷ fs) = (x ∷ f) ∷ fs

-- strings.Split(s, sep) for a separator of one character
unfoldable pub split : ℕ → Text → List Text
split c [] = [] ∷ []
split c (x ∷ xs) = let rest = split c xs in if x == c then [] ∷ rest else onto_first x rest

-- strings.SplitN(s, sep, 2) for a separator of one character
unfoldable pub split2 : ℕ → Text → List Text
split2 c [] = [] ∷ []
split2 c (x ∷ xs) = let rest = split2 c xs in if x == c then [] ∷ xs ∷ [] else onto_first x rest

-- strings.Join(fields, sep) for a separator of one character
unfoldable pub join : ℕ → List Text → Text
join c [] = []
join c (f ∷ []) = f
join c (f ∷ g ∷ fs) = f ++ c ∷ join c (g ∷ fs)

-- unicode.IsSpace
unfoldable pub is_space : ℕ → Bool
is_space c =
    (leb 9 c && leb c 13)
    || (c == 32)
    || (c == 0x85)
    || (c == 0xa0)
    || (c == 0x1680)
    || (leb 0x2000 c && leb c 0x200a)
    || (c == 0x2028)
    || (c == 0x2029)
    || (c == 0x202f)
    || (c == 0x205f)
    || (c == 0x3000)

unfoldable pub trim_left : Text → Text
unfolding is_space
trim_left [] = []
trim_left (x ∷ xs) = let rest = trim_left xs in if is_space x then rest else x ∷ xs

-- strings.TrimSpace
unfoldable pub trim_space : Text → Text
unfolding trim_left
trim_space s = reverse (trim_left (reverse (trim_left s)))

-- joining the fields of a split gives the text back
pub join-onto_first :
    (c x : ℕ) (f : Text) (fs : List Text) → join c ((x ∷ f) ∷ fs) ≡ x ∷ join c (f ∷ fs)
unfolding join
join-onto_first c x f [] = refl
join-onto_first c x f (g ∷ fs) = refl

split2-fields : (c : ℕ) (s : Text) → (f : Text) × (fs : List Text) × (split2 c s ≡ f ∷ fs)
unfolding split2
split2-fields c [] = ([], [], refl)
split2-fields c (x ∷ xs) =
    let (f, fs, e) = split2-fields c xs in
    elim (Bool-cases (x == c)) [
      | inl b ↦ ([], xs ∷ [], ground (arith, b))
      | inr b ↦ (x ∷ f, fs, ground (arith, b, e))
    ]

pub join-split2 : (c : ℕ) (s : Text) → join c (split2 c s) ≡ s
unfolding join split2
join-split2 c [] = refl
join-split2 c (x ∷ xs) =
    let (f, fs, e) = split2-fields c xs in
    elim (Bool-cases (x == c)) [
      | inl b ↦ ground (arith, b)
      | inr b ↦
          rw (b, e)
            (join-onto_first c x f fs ∙ ap (λ t. x ∷ t) (ap (join c) (sym e) ∙ join-split2 c xs))
    ]

-- a text without the separator is one field, and a join of such texts splits into them
pub split-field : (c : ℕ) (f : Text) → contains_char c f ≡ false → split c f ≡ f ∷ []
unfolding split contains_char
split-field c [] h = refl
split-field c (x ∷ xs) h = ground (arith, h, split-field c xs)

pub split-append :
    (c : ℕ) (f s : Text) → contains_char c f ≡ false → split c (f ++ c ∷ s) ≡ f ∷ split c s
unfolding split contains_char
split-append c [] s h = ground arith
split-append c (x ∷ xs) s h = ground (arith, h, split-append c xs s)

abbrev pub have_no : ℕ → List Text → Bool
have_no c [] = true
have_no c (f ∷ fs) = not (contains_char c f) && have_no c fs

pub split-join :
    (c : ℕ) (f : Text) (fs : List Text)
    → have_no c (f ∷ fs) ≡ true
    → split c (join c (f ∷ fs)) ≡ f ∷ fs
unfolding join
split-join c f [] h = split-field c f (ground (arith, h))
split-join c f (g ∷ fs) h =
    split-append c f (join c (g ∷ fs)) (ground (arith, h))
    ∙ ap (λ gs. f ∷ gs) (split-join c g fs (ground (arith, h)))

-- `SplitN(s, sep, 2)` has one field, the text itself, or two, around the first separator
pub split2-cases :
    (c : ℕ) (s : Text)
    → ((split2 c s ≡ s ∷ []) × (contains_char c s ≡ false))
      ⊎ ((f : Text) × (g : Text) × ((split2 c s ≡ f ∷ g ∷ [])
            × (f ++ c ∷ g ≡ s)
            × (contains_char c f ≡ false)))
unfolding split2 contains_char
split2-cases c [] = inl (refl, refl)
split2-cases c (x ∷ xs) = elim (Bool-cases (x == c)) [
  | inl b ↦ inr ([], xs, (ground (arith, b), ground (arith, b), refl))
  | inr b ↦ elim (split2-cases c xs) [
    | inl (e, n) ↦ inl (ground (arith, b, e), ground (arith, b, n))
    | inr (f, g, (e, j, n)) ↦
        inr (x ∷ f, g, (ground (arith, b, e), ap (λ t. x ∷ t) j, ground (arith, b, n)))
  ]
]
