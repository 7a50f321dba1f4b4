-- ===== src/RequestCache/Token.antt =====
-- cri/stream/request_cache.go: the tokens, eight characters of base64 without padding for six random
-- bytes (encoding/base64, RawURLEncoding).
use pouch.Prelude.{
  ℕ, zero, suc, ◌+◌, ◌-◌, ◌*◌, ◌/◌, ◌%◌, Option, List, [], ◌∷◌, Text, ltb, if◌then◌else◌,
}

-- what one `rand.Read` gives: an error, or the bytes
abbrev pub Random : Type 0
Random = Option (ℕ → ℕ)

-- the bytes in the buffer from place `i` on
abbrev bytes_from : (ℕ → ℕ) → ℕ → ℕ → List ℕ
bytes_from f i zero = []
bytes_from f i (suc n) = f i % 256 ∷ bytes_from f (suc i) n

-- `tokenSize`, the ceiling of 8 * 6 / 8
abbrev token_size : ℕ
token_size = 6

unfoldable pub raw_token : (ℕ → ℕ) → List ℕ
raw_token f = bytes_from f 0 token_size

-- the alphabet A-Z a-z 0-9 - _
abbrev digit : ℕ → ℕ
digit i =
    if ltb i 26
    then 65 + i
    else if ltb i 52
    then 97 + (i - 26)
    else if ltb i 62
    then 48 + (i - 52)
    else if ltb i 63
    then 45
    else 95

unfoldable pub encode : List ℕ → Text
encode [] = []
encode (a ∷ []) = digit (a / 4) ∷ digit (a % 4 * 16) ∷ []
encode (a ∷ b ∷ []) = digit (a / 4) ∷ digit (a % 4 * 16 + b / 16) ∷ digit (b % 16 * 4) ∷ []
encode (a ∷ b ∷ c ∷ rest) =
    digit (a / 4)
    ∷ digit (a % 4 * 16 + b / 16)
    ∷ digit (b % 16 * 4 + c / 64)
    ∷ digit (c % 64)
    ∷ encode rest

-- s[:n]
unfoldable pub first_chars : ℕ → Text → Text
first_chars zero s = []
first_chars (suc n) [] = []
first_chars (suc n) (x ∷ xs) = x ∷ first_chars n xs
