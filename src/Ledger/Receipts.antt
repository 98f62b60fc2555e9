-- ===== src/Ledger/Receipts.antt =====
-- server/src/shared/x402/receipts.py: `valid_settlement`.
use mangrove_agent.Prelude.{
  ℕ, Bool, true, false, ◌&&◌, Option, none, some, [], ◌∷◌, leb, all, drop, take,
}
use mangrove_agent.Prelude.Text.{Text, codes, text_eq, is_digit, is_hex_word, lower}

-- A receipt that is a dict: `success is True`, and the fields that are texts.
pub record Receipt : Type 0 where
  pub success : Bool
  pub transaction : Option Text
  pub payer : Option Text
  pub network : Option Text

abbrev is_nonzero_digit : ℕ → Bool
is_nonzero_digit c = leb b'1' c && leb c b'9'

abbrev is_numeral : Text → Bool
is_numeral [] = false
is_numeral (c ∷ s) = is_nonzero_digit c && all is_digit s

-- `re.fullmatch(r"eip155:[1-9][0-9]*", s)`
unfoldable pub is_eip155 : Text → Bool
is_eip155 s = text_eq (take 7 s) (codes "eip155:") && is_numeral (drop 7 s)

abbrev pub satisfies : (Text → Bool) → Option Text → Bool
satisfies p none = false
satisfies p (some s) = p s

abbrev same_lower : Option Text → Option Text → Bool
same_lower none s = true
same_lower (some want) s = satisfies (λ t. text_eq (lower t) (lower want)) s

abbrev same : Option Text → Option Text → Bool
same none s = true
same (some want) s = satisfies (λ t. text_eq t want) s

-- `none` is a receipt that is no dict.
unfoldable pub valid_settlement : Option Receipt → Option Text → Option Text → Bool
unfolding is_eip155
valid_settlement none payer network = false
valid_settlement (some r) payer network =
    r.success
    && satisfies (is_hex_word 64) r.transaction
    && satisfies (is_hex_word 40) r.payer
    && satisfies is_eip155 r.network
    && same_lower payer r.payer
    && same network r.network
