-- ===== src/Prelude/Paths.antt =====
-- path.Clean and path.Dir
use mathlib.Core.Bool.{Bool, ◌||◌}
use mathlib.Core.List.{List, [], ◌∷◌, reverse}
use pouch.Prelude.Tests.{◌==◌, if◌then◌else◌}
use pouch.Prelude.Strings.{Text, str, text_eq, is_empty, has_prefix, split, join}

-- the elements of a cleaned path, the last one first
unfoldable pub clean_elements : Bool → List Text → List Text → List Text
unfolding text_eq
clean_elements rooted [] out = out
clean_elements rooted (e ∷ es) out = clean_elements rooted es (
    if is_empty e || text_eq e (str ".")
    then out
    else if text_eq e (str "..")
    then (elim out [
      | [] ↦ if rooted then [] else e ∷ []
      | l ∷ ls ↦ if text_eq l (str "..") then e ∷ l ∷ ls else ls
    ])
    else e ∷ out)

-- `path.Clean`
unfoldable pub clean : Text → Text
unfolding has_prefix split join clean_elements
clean p =
    let rooted = has_prefix (str "/") p in
    let body = join 47 (reverse (clean_elements rooted (split 47 p) [])) in
    if rooted then 47 ∷ body else if is_empty body then str "." else body

-- the part of a path up to its last slash
unfoldable pub before_slash : Text → Text
before_slash [] = []
before_slash (c ∷ cs) =
    let rest = before_slash cs in
    if is_empty rest then (if c == 47 then c ∷ [] else []) else c ∷ rest

-- `path.Dir`
unfoldable pub dir : Text → Text
unfolding clean before_slash
dir p = clean (before_slash p)
