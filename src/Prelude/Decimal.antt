-- ===== src/Prelude/Decimal.antt =====
-- Decimal numbers: strconv.FormatUint(n, 10), also as strconv.Itoa and fmt's %d print a number from 0 on.
use pouch.Prelude.{ℕ, zero, suc, ◌+◌, ◌/◌, ◌%◌, Text, [], ◌∷◌, ltb, if◌then◌else◌}

-- the digits of a number of at most `fuel` digits, before `rest`
unfoldable pub decimal_before : ℕ → ℕ → Text → Text
decimal_before zero n rest = rest
decimal_before (suc fuel) n rest =
    let more = decimal_before fuel (n / 10) ((48 + n % 10) ∷ rest) in
    if ltb n 10 then (48 + n) ∷ rest else more

-- a uint64 has at most 20 digits
unfoldable pub format_uint : ℕ → Text
unfolding decimal_before
format_uint n = decimal_before 20 n []
