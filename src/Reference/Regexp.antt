-- ===== src/Reference/Regexp.antt =====
-- pkg/reference/regexp.go: the three expressions as scanners. Each expression is deterministic, so that
-- one pass decides whether it matches.
use pouch.Prelude.{ℕ, zero, suc, Bool, true, false, ◌&&◌, ◌||◌, leb, ◌==◌, [], ◌∷◌, Text, str}

-- a test whether a text has one of the characters of a class
abbrev pub one_of : Text → ℕ → Bool
one_of [] c = false
one_of (x ∷ xs) c = (x == c) || one_of xs c

abbrev is_digit : ℕ → Bool
is_digit c = leb 48 c && leb c 57

abbrev is_letter : ℕ → Bool
is_letter c = (leb 65 c && leb c 90) || (leb 97 c && leb c 122)

-- `regAlphanum`
unfoldable pub is_alphanum : ℕ → Bool
is_alphanum c = is_letter c || is_digit c

-- where a match of `regRef` stands: at the first character of a component, after one that is in
-- [A-Za-z0-9], after a separator of one character, after one of two
pub data Place : Type 0 where
  at_component in_component : Place
  after_separator : ℕ → Place
  after_double : Place

-- `regComponent` with its separators `[-._:@+]|--|__`, and `regRef` up to the end of the text
unfoldable pub is_ref_from : Place → Text → Bool
unfolding is_alphanum
is_ref_from in_component [] = true
is_ref_from at_component [] = false
is_ref_from (after_separator d) [] = false
is_ref_from after_double [] = false
is_ref_from at_component (c ∷ cs) = is_alphanum c && is_ref_from in_component cs
is_ref_from in_component (c ∷ cs) =
    (is_alphanum c && is_ref_from in_component cs)
    || ((c == 47) && is_ref_from at_component cs)
    || (one_of (str "-._:@+") c && is_ref_from (after_separator c) cs)
is_ref_from (after_separator d) (c ∷ cs) =
    (is_alphanum c && is_ref_from in_component cs)
    || ((c == d) && one_of (str "-_") c && is_ref_from after_double cs)
is_ref_from after_double (c ∷ cs) = is_alphanum c && is_ref_from in_component cs

-- `regRef.MatchString`
unfoldable pub is_ref : Text → Bool
unfolding is_ref_from
is_ref s = is_ref_from at_component s

abbrev is_word : ℕ → Bool
is_word c = is_letter c || is_digit c || (c == 95)

abbrev all_tag_chars : Text → Bool
all_tag_chars [] = true
all_tag_chars (c ∷ cs) = (is_word c || one_of (str ".-") c) && all_tag_chars cs

-- `regTag` behind its colon: `\w[\w.-]*$`
unfoldable pub is_tag : Text → Bool
is_tag [] = false
is_tag (c ∷ cs) = is_word c && all_tag_chars cs

abbrev is_xdigit : ℕ → Bool
is_xdigit c = is_digit c || (leb 65 c && leb c 70) || (leb 97 c && leb c 102)

abbrev has_xdigits : ℕ → Text → Bool
has_xdigits zero s = true
has_xdigits (suc n) [] = false
has_xdigits (suc n) (c ∷ cs) = is_xdigit c && has_xdigits n cs

-- The name of the algorithm up to its colon; `head` is set where a letter must follow.
abbrev has_algorithm : Bool → Text → Bool
has_algorithm head [] = false
has_algorithm true (c ∷ cs) = is_letter c && has_algorithm false cs
has_algorithm false (c ∷ cs) =
    ((is_letter c || is_digit c) && has_algorithm false cs)
    || (one_of (str "-_+.") c && has_algorithm true cs)
    || ((c == 58) && has_xdigits 32 cs)

-- `regDigest` behind its @
unfoldable pub is_digest : Text → Bool
is_digest s = has_algorithm true s
