-- ===== src/Receipt/Fees.antt =====
-- `_fees` of server/src/services/receipt_settlement.py: what a transaction has cost, and what its
-- receipt leaves open.
pub mod Complete
use mangrove_agent.Prelude.{
  ℕ, ◌+◌, ◌*◌, ◌≡◌, Bool, true, false, not, ◌&&◌, ◌||◌, Option, none, some, List, [], ◌∷◌, ◌++◌,
  ◌==◌, if◌then◌else◌, any, is_some,
}
use mangrove_agent.Prelude.Text.{Text, codes, text_eq, lower}
use mangrove_agent.Flow.{Result, ok, err}
use mangrove_agent.Wallet.{Value, Fields, empty, field, lookup}
use mangrove_agent.Receipt.{hex_quantity}

-- `_OP_CHAINS`, `_ARBITRUM_CHAINS` and `_EXECUTION_FEE_CHAINS`
abbrev op_chains : List ℕ
op_chains = 10 ∷ 8453 ∷ 84532 ∷ 11155420 ∷ []

abbrev arbitrum_chains : List ℕ
arbitrum_chains = 42161 ∷ 421614 ∷ []

abbrev execution_fee_chains : List ℕ
execution_fee_chains = 1 ∷ 56 ∷ 97 ∷ 137 ∷ 17000 ∷ 43113 ∷ 43114 ∷ 80002 ∷ 11155111 ∷ []

abbrev is_among : List ℕ → ℕ → Bool
is_among chains chain = any (λ c. c == chain) chains

abbrev pub is_op : ℕ → Bool
is_op chain = is_among op_chains chain

abbrev pub is_arbitrum : ℕ → Bool
is_arbitrum chain = is_among arbitrum_chains chain

abbrev pub is_supported : ℕ → Bool
is_supported chain = is_op chain || is_arbitrum chain || is_among execution_fee_chains chain

-- `issues`; `unsupported_separate` and `malformed` name the charge_of, `l1Fee` or `operatorFee`.
pub data Issue : Type 0 where
  missing_or_malformed_execution_fee unsupported_chain_fee_model missing_l1_fee : Issue
  unsupported_separate malformed : Text → Issue
  missing_or_malformed_blob_fee missing_operator_fee_evidence : Issue
  operator_fee_requires_explicit_total malformed_operator_fee_parameters : Issue
  unrecognized_fee_evidence l1_fee_requires_explicit_total : Issue

-- The issues of a part of the fees, and its component.
pub record Part : Type 0 where
  pub issues : List Issue
  pub component : Option ℕ

abbrev pub charge_of : ℕ → Part
charge_of n = record { issues = []; component = some n }

abbrev pub no_charge : Part
no_charge = record { issues = []; component = none }

abbrev pub issue : Issue → Part
issue i = record { issues = i ∷ []; component = none }

abbrev pub issue_if : Bool → Issue → Part
issue_if b i = if b then issue i else no_charge

abbrev pub has : Text → Fields → Bool
has key raw = is_some (lookup key raw)

abbrev pub product_part : Issue → Result ℕ → Result ℕ → Part
product_part i (ok m) (ok n) = charge_of (m * n)
product_part i (ok m) (err e) = issue i
product_part i (err e) n = issue i

abbrev pub execution_part : Fields → Part
execution_part raw =
    product_part missing_or_malformed_execution_fee (hex_quantity (lookup (codes "gasUsed") raw))
      (hex_quantity (lookup (codes "effectiveGasPrice") raw))

-- A charge that stands beside the execution fee on the OP Stack only.
abbrev pub charged_part : Bool → Text → Result ℕ → Part
charged_part true key (ok n) = charge_of n
charged_part false key (ok n) = issue (unsupported_separate key)
charged_part op key (err e) = issue (malformed key)

-- `l1Fee` or `operatorFee`
abbrev pub separate_part : Bool → Text → Option Value → Part
separate_part op key none = no_charge
separate_part op key (some v) = charged_part op key (hex_quantity (some v))

abbrev pub blob_part : Fields → Part
blob_part raw =
    if has (codes "blobGasUsed") raw || has (codes "blobGasPrice") raw
    then product_part missing_or_malformed_blob_fee
        (hex_quantity (lookup (codes "blobGasUsed") raw))
        (hex_quantity (lookup (codes "blobGasPrice") raw))
    else no_charge

abbrev pub scalar_of : Result ℕ → Part
scalar_of (ok n) = issue_if (not (n == 0)) operator_fee_requires_explicit_total
scalar_of (err e) = issue malformed_operator_fee_parameters

-- `operatorFeeScalar` or `operatorFeeConstant`, without an `operatorFee`
abbrev pub scalar_part : Bool → Option Value → Part
scalar_part has_operator_fee none = no_charge
scalar_part has_operator_fee (some v) =
    if has_operator_fee then no_charge else scalar_of (hex_quantity (some v))

abbrev starts_with : Text → Text → Bool
starts_with [] s = true
starts_with (c ∷ p) [] = false
starts_with (c ∷ p) (d ∷ s) = c == d && starts_with p s

-- `p in s`
abbrev contains : Text → Text → Bool
contains p [] = starts_with p []
contains p (c ∷ s) = starts_with p (c ∷ s) || contains p s

abbrev pub is_evidence : Text → Bool
is_evidence key = contains (codes "fee") (lower key) || contains (codes "gas") (lower key)

-- `informational`
abbrev informational : List Text
informational =
    codes "gasUsed"
    ∷ codes "effectiveGasPrice"
    ∷ codes "cumulativeGasUsed"
    ∷ codes "l1Fee"
    ∷ codes "operatorFee"
    ∷ codes "blobGasUsed"
    ∷ codes "blobGasPrice"
    ∷ codes "l1GasPrice"
    ∷ codes "l1BlobBaseFee"
    ∷ codes "l1GasUsed"
    ∷ codes "l1FeeScalar"
    ∷ codes "l1BaseFeeScalar"
    ∷ codes "l1BlobBaseFeeScalar"
    ∷ codes "feeScalar"
    ∷ codes "operatorFeeScalar"
    ∷ codes "operatorFeeConstant"
    ∷ codes "daFootprintGasScalar"
    ∷ []

unfoldable pub is_informational : ℕ → Text → Bool
is_informational chain key =
    any (text_eq key) informational || is_arbitrum chain && text_eq key (codes "gasUsedForL1")

unfoldable pub has_unknown : ℕ → Fields → Bool
has_unknown chain empty = false
has_unknown chain (field key v raw) =
    is_evidence key && not (is_informational chain key) || has_unknown chain raw

abbrev has_l1_hints : Fields → Bool
has_l1_hints raw =
    has (codes "l1GasUsed") raw || has (codes "l1GasPrice") raw || has (codes "l1BlobBaseFee") raw

abbrev has_operator_scalars : Fields → Bool
has_operator_scalars raw =
    has (codes "operatorFeeScalar") raw && has (codes "operatorFeeConstant") raw

abbrev pub parts : Fields → ℕ → List Part
parts raw chain =
    execution_part raw
    ∷ issue_if (not (is_supported chain)) unsupported_chain_fee_model
    ∷ separate_part (is_op chain) (codes "l1Fee") (lookup (codes "l1Fee") raw)
    ∷ separate_part (is_op chain) (codes "operatorFee") (lookup (codes "operatorFee") raw)
    ∷ issue_if (is_op chain && not (has (codes "l1Fee") raw)) missing_l1_fee
    ∷ blob_part raw
    ∷ issue_if
        (is_op chain && not (has (codes "operatorFee") raw) && not (has_operator_scalars raw))
        missing_operator_fee_evidence
    ∷ scalar_part (has (codes "operatorFee") raw) (lookup (codes "operatorFeeScalar") raw)
    ∷ scalar_part (has (codes "operatorFee") raw) (lookup (codes "operatorFeeConstant") raw)
    ∷ issue_if (has_unknown chain raw) unrecognized_fee_evidence
    ∷ issue_if (has_l1_hints raw && not (has (codes "l1Fee") raw)) l1_fee_requires_explicit_total
    ∷ []

abbrev pub component_or_0 : Option ℕ → ℕ
component_or_0 none = 0
component_or_0 (some n) = n

-- `native_fee_issues` in the order that they are found, and `native_fee_known_amount_wei`.
pub record Fees : Type 0 where
  pub issues : List Issue
  pub known : ℕ

abbrev pub join_parts : List Part → Fees
join_parts [] = record { issues = []; known = 0 }
join_parts (p ∷ ps) =
    let rest = join_parts ps in
    record { issues = p.issues ++ rest.issues; known = component_or_0 p.component + rest.known }

-- `_fees`
unfoldable pub receipt_fees : Fields → ℕ → Fees
unfolding hex_quantity lookup has_unknown
receipt_fees raw chain = join_parts (parts raw chain)

abbrev pub complete_amount : List Issue → ℕ → Option ℕ
complete_amount [] n = some n
complete_amount (i ∷ is) n = none

-- `native_fee_amount_wei`
unfoldable pub native_fee_amount : Fields → ℕ → Option ℕ
unfolding receipt_fees
native_fee_amount raw chain =
    complete_amount (receipt_fees raw chain).issues (receipt_fees raw chain).known
