-- ===== src/Reference.antt =====
-- pkg/reference: the reference of an image, by name, tag and digest, and its parser.
pub mod Regexp
pub mod RoundTrip
mod Tests
use pouch.Prelude.{
  ℕ, Bool, true, false, Option, none, some, [], ◌∷◌, ◌++◌, ◌==◌, ◌&&◌, Text, str, is_empty, not,
  if◌then◌else◌,
}
use pouch.Reference.Regexp.{is_ref, is_tag, is_digest}

-- The implementations of `Named`. The last three embed another `Named`.
pub data Named : Type 0 where
  named_reference : Text → Named
  tagged_reference : Named → Text → Named
  canonical_digested_reference : Named → Text → Named
  reference : Named → Text → Text → Named

-- `Name()`
unfoldable pub name_of : Named → Text
name_of (named_reference name) = name
name_of (tagged_reference named tag) = name_of named
name_of (canonical_digested_reference named digest) = name_of named
name_of (reference named tag digest) = name_of named

-- `String()`
unfoldable pub string_of : Named → Text
unfolding name_of
string_of (named_reference name) = name
string_of (tagged_reference named tag) = name_of named ++ 58 ∷ tag
string_of (canonical_digested_reference named digest) = name_of named ++ 64 ∷ digest
string_of (reference named tag digest) = name_of named ++ 58 ∷ tag ++ 64 ∷ digest

-- `WithTag`
unfoldable pub with_tag : Named → Text → Named
with_tag named tag = tagged_reference named tag

-- `WithDigest`
unfoldable pub with_digest : Named → Text → Named
with_digest named digest = canonical_digested_reference named digest

-- `IsNamedOnly`
unfoldable pub is_named_only : Named → Bool
is_named_only (named_reference _) = true
is_named_only (tagged_reference _ _) = false
is_named_only (canonical_digested_reference _ _) = false
is_named_only (reference _ _ _) = false

-- `IsCanonicalDigested`
unfoldable pub is_canonical_digested : Named → Bool
is_canonical_digested (named_reference _) = false
is_canonical_digested (tagged_reference _ _) = false
is_canonical_digested (canonical_digested_reference _ _) = true
is_canonical_digested (reference _ _ _) = false

-- `IsNameTagged`
unfoldable pub is_name_tagged : Named → Bool
is_name_tagged (named_reference _) = false
is_name_tagged (tagged_reference _ _) = true
is_name_tagged (canonical_digested_reference _ _) = false
is_name_tagged (reference _ _ _) = false

-- `WithDefaultTagIfMissing`
unfoldable pub with_default_tag_if_missing : Named → Named
unfolding is_named_only
with_default_tag_if_missing named =
    if is_named_only named then tagged_reference named (str "latest") else named

-- `TrimTagForDigest`: the two implementations that have a digest lose their tag
unfoldable pub trim_tag_for_digest : Named → Named
unfolding with_digest
trim_tag_for_digest (named_reference name) = named_reference name
trim_tag_for_digest (tagged_reference named tag) = tagged_reference named tag
trim_tag_for_digest (canonical_digested_reference named digest) =
    with_digest (canonical_digested_reference named digest) digest
trim_tag_for_digest (reference named tag digest) = with_digest (reference named tag digest) digest

abbrev prepend : ℕ → Option (Text × Text) → Option (Text × Text)
prepend x none = none
prepend x (some (a, b)) = some (x ∷ a, b)

-- The text before and after the first character `c` that a match follows.
unfoldable pub cut : ℕ → (Text → Bool) → Text → Option (Text × Text)
cut c matches [] = none
cut c matches (x ∷ xs) =
    let rest = cut c matches xs in if (x == c) && matches xs then some ([], xs) else prepend x rest

abbrev or_whole : Text → Option (Text × Text) → Text × Text
or_whole s none = (s, [])
or_whole s (some p) = p

-- `splitReference`: the name, the tag and the digest
unfoldable pub split_reference : Text → Text × Text × Text
unfolding cut is_tag is_digest
split_reference ref =
    let at_digest = or_whole ref (cut 64 is_digest ref) in
    let at_tag = or_whole at_digest.0 (cut 58 is_tag at_digest.0) in
    (at_tag.0, at_tag.1, at_digest.1)

-- the end of `Parse`; `valid` tells whether `digest.Parse` takes the digest
unfoldable pub assemble : (Text → Bool) → Text × Text × Text → Option Named
assemble valid (name, tag, digest) =
    if not (is_empty digest)
    then (if valid digest
        then some (
            if is_empty tag
            then canonical_digested_reference (named_reference name) digest
            else reference (named_reference name) tag digest)
        else none)
    else if not (is_empty tag)
    then some (tagged_reference (named_reference name) tag)
    else some (named_reference name)

-- `Parse`
unfoldable pub parse : (Text → Bool) → Text → Option Named
unfolding assemble split_reference is_ref
parse valid ref = if is_ref ref then assemble valid (split_reference ref) else none
