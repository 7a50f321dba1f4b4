-- ===== src/Reference/Tests.antt =====
-- Runs of the parser of references, and the theorems at concrete inputs.
use pouch.Prelude.{◌≡◌, refl, true, none, some, str}
use pouch.Reference.Regexp.{is_ref, is_ref_from, is_tag, is_digest, is_alphanum}
use pouch.Reference.{
  Named, named_reference, tagged_reference, reference, string_of, cut, split_reference, assemble,
  parse,
}
use pouch.Reference.RoundTrip.{parse-string_of}

abbrev local : Named
local = tagged_reference (named_reference (str "reg:5000/busybox")) (str "1.26")

local_parses : parse (λ _. true) (str "reg:5000/busybox:1.26") ≡ some local
unfolding parse is_ref is_ref_from is_alphanum split_reference cut is_tag is_digest assemble
local_parses = refl

abbrev pinned : Named
pinned =
    reference (named_reference (str "busybox")) (str "latest")
      (str "sha256:0123456789abcdef0123456789ABCDEF")

pinned_parses :
    parse (λ _. true) (str "busybox:latest@sha256:0123456789abcdef0123456789ABCDEF") ≡ some pinned
unfolding parse is_ref is_ref_from is_alphanum split_reference cut is_tag is_digest assemble
pinned_parses = refl

no_component : parse (λ _. true) (str "busybox/") ≡ none
unfolding parse is_ref is_ref_from is_alphanum
no_component = refl

parse-string_of_example :
    string_of pinned ≡ str "busybox:latest@sha256:0123456789abcdef0123456789ABCDEF"
parse-string_of_example =
    parse-string_of (λ _. true) (str "busybox:latest@sha256:0123456789abcdef0123456789ABCDEF")
      pinned pinned_parses
