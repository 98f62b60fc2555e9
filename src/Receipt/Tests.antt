-- ===== src/Receipt/Tests.antt =====
-- A receipt of a swap, and what becomes of it with a foreign log or a third token.
use mangrove_agent.Prelude.{ℕ, ◌≡◌, refl, false, none, some, [], ◌∷◌, ◌++◌}
use mangrove_agent.Prelude.Int.{pos, negsuc}
use mangrove_agent.Prelude.Text.{Text, codes}
use mangrove_agent.Flow.{
  ok, err, unsettled, log_identity_mismatch, transaction_reverted, duplicate_or_unordered_log,
}
use mangrove_agent.Wallet.{
  Value, Values, Fields, boolean, integer, text, items, dict, end, item, empty, field, lookup,
}
use mangrove_agent.Receipt.{
  SignedContext, hex_data, hex_quantity, hex_number, indexed_address, verify_fee_receipt,
}
use mangrove_agent.Receipt.Flows.{
  SignedSwap, TokenFill, scan_logs, read_words, number_of, verify_erc20_flows, verify_erc20_receipt,
}
use mangrove_agent.Receipt.Identified.{Identifies, verify_fee_receipt-Identifies}
use mangrove_agent.Receipt.Fees.{receipt_fees, native_fee_amount, has_unknown, is_informational}
use mangrove_agent.Receipt.Units.{units, whole_text, padded, rstrip_zeros}
use mangrove_agent.Receipt.Units.Exact.{Says, read_units, units_exact}
use mangrove_agent.Receipt.Fees.Complete.{IsSum, native_fee_amount-IsSum}

abbrev tx_hash : Text
tx_hash = codes "0x00000000000000000000000000000000000000000000000000000000000000aa"

abbrev block_hash : Text
block_hash = codes "0x00000000000000000000000000000000000000000000000000000000000000bb"

abbrev wallet : Text
wallet = codes "0xaaaaaaaaaaaaaaaaaaaaaaaaaaaaaaaaaaaaaaaa"

abbrev router : Text
router = codes "0x111111125421ca6dc452d289314280a0f8842a65"

abbrev usdc : Text
usdc = codes "0x833589fcd6edb6e08f4c7c32d4f71b54bda02913"

abbrev weth : Text
weth = codes "0x4200000000000000000000000000000000000006"

abbrev topic_of : Text → Value
topic_of address = text (codes "0x000000000000000000000000" ++ address)

abbrev transfer : Text → Text → Text → Text → Text → Text → Value
transfer hash index token sender recipient amount = dict (
    field (codes "address") (text token) (
      field (codes "removed") (boolean false) (
        field (codes "logIndex") (text index) (
          field (codes "transactionHash") (text hash) (
            field (codes "blockHash") (text block_hash) (
              field (codes "blockNumber") (text (codes "0x10")) (
                field (codes "topics")
                  (items (
                    item
                      (text (
                        codes "0xddf252ad1be2c89b69c2b068fc378daa952ba7f163c4a11628f55a4df523b3ef"))
                      (item (topic_of sender) (item (topic_of recipient) end))))
                  (field (codes "data")
                    (text (
                      codes "0x00000000000000000000000000000000000000000000000000000000000000"
                      ++ amount))
                    empty))))))))

abbrev digits_of : Text → Text
digits_of [] = []
digits_of (z ∷ []) = []
digits_of (z ∷ x ∷ s) = s

abbrev paid : Text → Value
paid hash = transfer hash (codes "0x1") usdc (digits_of wallet) (digits_of router) (codes "64")

abbrev received : Value
received = transfer tx_hash (codes "0x2") weth (digits_of router) (digits_of wallet) (codes "07")

-- A part of the payment comes back.
abbrev returned_part : Value
returned_part =
    transfer tx_hash (codes "0x3") usdc (digits_of router) (digits_of wallet) (codes "04")

abbrev receipt_fields : Text → Values → Fields
receipt_fields status logs =
    (field (codes "transactionHash") (text tx_hash) (
      field (codes "from") (text wallet) (
        field (codes "to") (text router) (
          field (codes "blockNumber") (text (codes "0x10")) (
            field (codes "blockHash") (text block_hash)
              (field (codes "status") (text status) (field (codes "logs") (items logs) empty)))))))

abbrev receipt : Text → Values → Value
receipt status logs = dict (receipt_fields status logs)

abbrev context : SignedContext
context = record {
  tx_hash = text tx_hash;
  chain_id = integer (pos 8453);
  reported_chain_id = integer (pos 8453);
  wallet_address = text wallet;
  recipient_address = text router;
}

abbrev swap : SignedSwap
swap = record {
  input_token = text usdc;
  output_token = text weth;
  input_decimals = integer (pos 6);
  output_decimals = integer (pos 18);
}

abbrev logs : Values
logs = item (paid tx_hash) (item received (item returned_part end))

abbrev fill : TokenFill
fill = record {
  verified = record {
    tx_hash = tx_hash;
    chain_id = 8453;
    block_number = 16;
    block_hash = block_hash;
    transaction_index = none;
    wallet_address = wallet;
    recipient_address = router;
    is_reverted = false;
  };
  tokens = record { input = usdc; output = weth };
  spent = 96;
  received = 7;
  input_amount = codes "0.000096";
  output_amount = codes "0.000000000000000007";
}

reverts :
    verify_erc20_receipt (receipt (codes "0x0") logs) context swap
    ≡ err (unsettled transaction_reverted)
unfolding verify_erc20_receipt verify_fee_receipt hex_data hex_quantity hex_number lookup
reverts = refl

-- A log of another transaction.
foreign_log :
    verify_erc20_receipt (receipt (codes "0x1") (item (paid block_hash) end)) context swap
    ≡ err (unsettled log_identity_mismatch)
unfolding verify_erc20_receipt verify_erc20_flows verify_fee_receipt scan_logs hex_data hex_quantity
    hex_number lookup
foreign_log = refl

is_duplicate :
    verify_erc20_receipt
      (receipt (codes "0x1") (item (paid tx_hash) (item (paid tx_hash) end)))
      context
      swap
    ≡ err (unsettled duplicate_or_unordered_log)
unfolding verify_erc20_receipt verify_erc20_flows verify_fee_receipt scan_logs hex_data hex_quantity
    hex_number indexed_address lookup read_words number_of
is_duplicate = refl

is_identified : verify_fee_receipt (receipt (codes "0x1") logs) context ≡ ok fill.verified
unfolding verify_fee_receipt hex_data hex_quantity hex_number lookup
is_identified = refl

verify_fee_receipt-Identifies_example :
    Identifies (receipt_fields (codes "0x1") logs) context fill.verified
verify_fee_receipt-Identifies_example =
    verify_fee_receipt-Identifies (receipt_fields (codes "0x1") logs) context fill.verified
      is_identified

-- 21000 gas at 10^9 wei, and 100 wei for the data on layer 1.
abbrev charges : Fields
charges = field (codes "gasUsed") (text (codes "0x5208")) (
    field (codes "effectiveGasPrice") (text (codes "0x3b9aca00")) (
      field (codes "l1Fee") (text (codes "0x64"))
        (field (codes "operatorFee") (text (codes "0x0")) empty)))

abbrev charged : ℕ
charged = 21000000000100

is_charged : native_fee_amount charges 8453 ≡ some charged
unfolding native_fee_amount receipt_fees hex_quantity hex_number lookup has_unknown is_informational
is_charged = refl

-- On Arbitrum a separate `l1Fee` is not understood.
is_open : native_fee_amount charges 42161 ≡ none
unfolding native_fee_amount receipt_fees hex_quantity hex_number lookup has_unknown is_informational
is_open = refl

native_fee_amount-IsSum_example : IsSum charges 8453 charged
native_fee_amount-IsSum_example = native_fee_amount-IsSum charges 8453 charged is_charged

-- 1.05 of a token of 6 decimals is received, and spent.
is_written : units (pos 1050000) 6 ≡ codes "1.05"
unfolding units whole_text padded rstrip_zeros
is_written = refl

is_written_spent : units (negsuc 1049999) 6 ≡ codes "-1.05"
unfolding units whole_text padded rstrip_zeros
is_written_spent = refl

units_exact_example :
    ((read_units (units (pos 1050000) 6)).0 ≡ false)
    × Says 1050000 6 (read_units (units (pos 1050000) 6)).1
units_exact_example = units_exact (pos 1050000) 6
