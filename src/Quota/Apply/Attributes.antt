-- ===== src/Quota/Apply/Attributes.antt =====
-- The ID that storage/quota writes into the attributes of a path is the one that it reads there.
use pouch.Prelude.{
  ℕ, ◌<◌, ◌≡◌, refl, ◌∙◌, inr, true, none, List, [], ◌∷◌, Text, text_eq_refl, split, split-join,
  join, have_no, arith, ◌++◌, All,
}
use pouch.Prelude.Int.{uint32, two_32}
use pouch.Prelude.Decimal.{format_uint}
use pouch.Opts.Policy.Printed.{atoi-format_uint, no_char-format_uint}
use pouch.Quota.Apply.{atoi_value, listed_id, parts_id}

printed_id : (id : ℕ) → id < two_32 → uint32 (atoi_value (format_uint id)) ≡ id
unfolding atoi_value uint32
printed_id id b = rw (atoi-format_uint id (omega arith)) (omega arith)

listed_id-named :
    (path id flags l : Text) (ls : List Text)
    → split 32 l ≡ id ∷ flags ∷ path ∷ []
    → listed_id path (l ∷ ls) ≡ uint32 (atoi_value id)
unfolding listed_id
listed_id-named path id flags l ls e = rw (listed_id, e, text_eq_refl path) refl

-- no line names the path in its third field
abbrev pub Others : Text → List Text → Type 0
Others path ls = All (λ l. parts_id path (split 32 l) ≡ none) ls

-- The ID that prjquota.go's `GetQuotaIDInFileAttr` finds in the output of `lsattr` is the one that
-- `FormatUint` printed in the line of the path, for an ID that is a uint32, a path and attributes
-- without a space, whatever lines of other paths stand before it and whatever stands after it.
pub listed_id-format_uint :
    (path flags : Text) (id : ℕ) (before after : List Text)
    → have_no 32 (flags ∷ path ∷ []) ≡ true
    → id < two_32
    → Others path before
    → listed_id path (before ++ join 32 (format_uint id ∷ flags ∷ path ∷ []) ∷ after) ≡ id
unfolding listed_id
listed_id-format_uint path flags id [] after h b o =
    listed_id-named path (format_uint id) flags (join 32 (format_uint id ∷ flags ∷ path ∷ [])) after
      split-line
    ∙ printed_id id b
  where
    split-line :
        split 32 (join 32 (format_uint id ∷ flags ∷ path ∷ [])) ≡ format_uint id ∷ flags ∷ path ∷ []
    split-line =
        split-join 32 (format_uint id) (flags ∷ path ∷ [])
          (ground (arith, no_char-format_uint 32 id (inr (omega arith)), h))
listed_id-format_uint path flags id (l ∷ ls) after h b (o, os) =
    rw (listed_id, o) (listed_id-format_uint path flags id ls after h b os)
