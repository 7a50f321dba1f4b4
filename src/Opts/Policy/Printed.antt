-- ===== src/Opts/Policy/Printed.antt =====
-- Decimal numbers that are printed and read again.
use pouch.Prelude.{
  ℕ, zero, suc, ◌+◌, ◌*◌, ◌/◌, ◌%◌, ◌^◌, ◌<◌, ◌≡◌, refl, ap, sym, ◌∙◌, Bool-cases, inl, inr, true,
  ◌⊎◌, false, some, [], ◌∷◌, Text, contains_char, ltb, ◌==◌, arith,
}
use pouch.Prelude.Int.{pos, two_63}
use pouch.Prelude.Decimal.{decimal_before, format_uint}
use pouch.Opts.Policy.{digits, atoi}

digits-step :
    (acc d : ℕ) (rest : Text) → d < 10 → digits acc ((48 + d) ∷ rest) ≡ digits (acc * 10 + d) rest
unfolding digits
digits-step acc d rest h = ground arith

first-step : (d : ℕ) (rest : Text) → d < 10 → digits 0 ((48 + d) ∷ rest) ≡ digits d rest
first-step d rest h = digits-step 0 d rest h ∙ ap (λ m. digits m rest) (omega arith)

pub digits-decimal :
    (fuel n : ℕ) (rest : Text)
    → n < 10 ^ suc fuel
    → digits 0 (decimal_before (suc fuel) n rest) ≡ digits n rest
unfolding decimal_before
digits-decimal zero n rest h =
    let small : ltb n 10 ≡ true = ground arith in rw small (first-step n rest (omega arith))
digits-decimal (suc fuel) n rest h = elim (Bool-cases (ltb n 10)) [
  | inl b ↦ rw b (first-step n rest (ground (arith, b)))
  | inr b ↦
      let d : n / 10 < 10 ^ suc fuel = omega arith in
      rw b (
        digits-decimal fuel (n / 10) ((48 + n % 10) ∷ rest) d
        ∙ digits-step (n / 10) (n % 10) rest (omega arith)
        ∙ ap (λ m. digits m rest) (omega arith))
]

-- the first character of a decimal number is a digit
pub first-digit :
    (fuel n : ℕ) (rest : Text)
    → (d : ℕ) × (cs : Text) × ((decimal_before (suc fuel) n rest ≡ (48 + d) ∷ cs) × (d < 10))
unfolding decimal_before
first-digit zero n rest = elim (Bool-cases (ltb n 10)) [
  | inl b ↦ (n, rest, (ground (arith, b), ground (arith, b)))
  | inr b ↦ (n % 10, rest, (ground (arith, b), omega arith))
]
first-digit (suc fuel) n rest = elim (Bool-cases (ltb n 10)) [
  | inl b ↦ (n, rest, (ground (arith, b), ground (arith, b)))
  | inr b ↦
      let (d, cs, (e, h)) = first-digit fuel (n / 10) ((48 + n % 10) ∷ rest) in (d, cs, (rw b e, h))
]

atoi-digits :
    (d n : ℕ) (cs : Text)
    → d < 10
    → digits 0 ((48 + d) ∷ cs) ≡ some n
    → n < two_63
    → atoi ((48 + d) ∷ cs) ≡ some (pos n)
unfolding atoi
atoi-digits d n cs h e b =
    let not_minus : (48 + d == 45) ≡ false = ground arith in
    let not_plus : (48 + d == 43) ≡ false = ground arith in
    rw (not_minus, not_plus, e) (ground (arith, b))

-- `Atoi` reads what `FormatUint` prints
pub atoi-format_uint : (n : ℕ) → n < two_63 → atoi (format_uint n) ≡ some (pos n)
unfolding format_uint digits
atoi-format_uint n h =
    let (d, cs, (e, b)) = first-digit 19 n [] in
    let read : digits 0 (format_uint n) ≡ some n = digits-decimal 19 n [] (omega arith) in
    ap atoi e ∙ atoi-digits d n cs b (ap (digits 0) (sym e) ∙ read) h

no_char-decimal :
    (c fuel n : ℕ) (rest : Text)
    → 57 < c ⊎ c < 48
    → contains_char c rest ≡ false
    → contains_char c (decimal_before fuel n rest) ≡ false
unfolding decimal_before contains_char
no_char-decimal c zero n rest d h = h
no_char-decimal c (suc fuel) n rest d h =
    let ih = no_char-decimal c fuel (n / 10) ((48 + n % 10) ∷ rest) d (ground (arith, h, d)) in
    elim (Bool-cases (ltb n 10)) [ inl b ↦ rw b (ground (arith, h, d, b)) | inr b ↦ rw b ih ]

-- a character that is not a digit does not stand in a printed number
pub no_char-format_uint : (c n : ℕ) → 57 < c ⊎ c < 48 → contains_char c (format_uint n) ≡ false
unfolding format_uint contains_char
no_char-format_uint c n d = no_char-decimal c 20 n [] d refl
