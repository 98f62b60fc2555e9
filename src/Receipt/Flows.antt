-- ===== src/Receipt/Flows.antt =====
-- `verify_erc20_receipt` and `_verify_erc20_flows` of server/src/services/receipt_settlement.py: the
-- tokens that a receipt moves to and from the wallet.
pub mod Net
pub mod Scanned
pub mod Proved
use mangrove_agent.Prelude.{
  ℕ, suc, ◌≡◌, Bool, true, false, not, ◌&&◌, ◌||◌, Option, none, some, List, [], ◌∷◌, ltb, leb,
  ◌==◌, if◌then◌else◌, any, drop, is_some,
}
use mangrove_agent.Prelude.Int.{ℤ, pos, negsuc, sub_ℕ, ◌+ℤ◌}
use mangrove_agent.Prelude.Text.{Text, codes, text_eq}
use mangrove_agent.Flow.{
  Result, ok, err, Error, unsettled, malformed_logs, malformed_transfer, invalid_context,
  recipient_mismatch, router_mismatch, transaction_reverted, unsupported_flow,
  unsupported_native_flow, removed_or_unconfirmed_log, duplicate_or_unordered_log,
  log_identity_mismatch, unexpected_token, unverified_wallet_flow,
}
use mangrove_agent.Wallet.{
  Value, Values, Fields, boolean, integer, text, items, dict, end, item, lookup,
}
use mangrove_agent.Receipt.{
  ◌>>=◌, ◌>>◌, refuse_if, hex_data, hex_quantity, hex_number, indexed_address, Verified,
  SignedContext, verify_fee_receipt,
}
use mangrove_agent.Receipt.Units.{units}

-- `_TRANSFER`
abbrev transfer_topic : Text
transfer_topic = codes "0xddf252ad1be2c89b69c2b068fc378daa952ba7f163c4a11628f55a4df523b3ef"

-- `_NATIVE`
abbrev native_tokens : List Text
native_tokens =
    codes "0x0000000000000000000000000000000000000000"
    ∷ codes "0xeeeeeeeeeeeeeeeeeeeeeeeeeeeeeeeeeeeeeeee"
    ∷ []

pub record Tokens : Type 0 where
  pub input : Text
  pub output : Text

-- A `Transfer` of an ERC-20 token.
pub record Transfer : Type 0 where
  pub token : Text
  pub sender : Text
  pub recipient : Text
  pub amount : ℕ

-- `deltas`, `indices` and `last_index`, which is `none` for -1.
pub record LogScan : Type 0 where
  pub input_delta : ℤ
  pub output_delta : ℤ
  pub indices : List ℕ
  pub last_index : Option ℕ

abbrev pub initial_scan : LogScan
initial_scan = record { input_delta = pos 0; output_delta = pos 0; indices = []; last_index = none }

abbrev pub is_seen : LogScan → ℕ → Bool
is_seen s i = any (λ j. j == i) s.indices

abbrev pub is_late : Option ℕ → ℕ → Bool
is_late none i = false
is_late (some last) i = leb i last

abbrev pub next_index : ℕ → LogScan → LogScan
next_index i s = record s { indices = i ∷ s.indices; last_index = some i }

abbrev pub is_kept : Option Value → Bool
is_kept (some (boolean b)) = not b
is_kept _ = false

-- `"transactionIndex" in log or verified["transaction_index"] is not None`
abbrev check_transaction_index : Option ℕ → Option Value → Result (Unit {0})
check_transaction_index none none = ok tt
check_transaction_index none (some v) =
    hex_quantity (some v) >>= λ i. err (unsettled log_identity_mismatch)
check_transaction_index (some n) v =
    hex_quantity v >>= λ i. refuse_if (not (i == n)) log_identity_mismatch

-- The log is one of the transaction.
abbrev pub check_identity : Verified → Fields → Result (Unit {0})
check_identity v log = do
  hash ← hex_data (some 32) (lookup (codes "transactionHash") log)
  refuse_if (not (text_eq hash v.tx_hash)) log_identity_mismatch
  block_hash ← hex_data (some 32) (lookup (codes "blockHash") log)
  refuse_if (not (text_eq block_hash v.block_hash)) log_identity_mismatch
  block ← hex_quantity (lookup (codes "blockNumber") log)
  refuse_if (not (block == v.block_number)) log_identity_mismatch
  check_transaction_index v.transaction_index (lookup (codes "transactionIndex") log)

unfoldable pub read_words : Values → Result (List Text)
unfolding hex_data
read_words end = ok []
read_words (item v vs) = do
  word ← hex_data (some 32) (some v)
  words ← read_words vs
  ok (word ∷ words)

unfoldable pub number_of : Values → ℕ
number_of end = 0
number_of (item v vs) = suc (number_of vs)

abbrev pub as_items : Option Value → Result Values
as_items (some (items vs)) = ok vs
as_items _ = err (unsettled malformed_logs)

-- At most four words.
abbrev read_topics : Option Value → Result (List Text)
read_topics v = do
  topics ← as_items v
  refuse_if (ltb 4 (number_of topics)) malformed_logs
  read_words topics

abbrev is_transfer : List Text → Bool
is_transfer [] = false
is_transfer (t ∷ ts) = text_eq t transfer_topic

abbrev transfer_topics : List Text → Result (Text × Text)
transfer_topics (t ∷ a ∷ b ∷ []) = ok (a, b)
transfer_topics [] = err (unsettled malformed_transfer)
transfer_topics (t ∷ []) = err (unsettled malformed_transfer)
transfer_topics (t ∷ a ∷ []) = err (unsettled malformed_transfer)
transfer_topics (t ∷ a ∷ b ∷ c ∷ ts) = err (unsettled malformed_transfer)

abbrev decode_words : Text → Option Value → List Text → Result (Option Transfer)
decode_words token word topics = do
  ends ← transfer_topics topics
  sender ← indexed_address (some (text ends.0))
  recipient ← indexed_address (some (text ends.1))
  amount ← hex_data (some 32) word
  ok (
      some (record {
        token = token;
        sender = sender;
        recipient = recipient;
        amount = hex_number 0 (drop 2 amount);
      }))

-- The `Transfer` that a log with these topics reports, if it reports one.
abbrev decode_transfer : Text → Option Value → List Text → Result (Option Transfer)
decode_transfer token word topics =
    if is_transfer topics then decode_words token word topics else ok none

abbrev pub amount_if : Bool → ℕ → ℕ
amount_if b n = if b then n else 0

-- `deltas[address] += ...`
abbrev pub wallet_delta : Text → Transfer → ℤ
wallet_delta wallet t =
    sub_ℕ (amount_if (text_eq t.recipient wallet) t.amount)
      (amount_if (text_eq t.sender wallet) t.amount)

abbrev pub touches : Text → Transfer → Bool
touches wallet t = text_eq t.sender wallet || text_eq t.recipient wallet

abbrev pub add_transfer : Text → Tokens → Transfer → LogScan → Result LogScan
add_transfer wallet k t s =
    if not (touches wallet t)
    then ok s
    else if text_eq t.token k.input
    then ok (record s { input_delta = s.input_delta +ℤ wallet_delta wallet t })
    else if text_eq t.token k.output
    then ok (record s { output_delta = s.output_delta +ℤ wallet_delta wallet t })
    else err (unsettled unexpected_token)

abbrev pub add_if : Text → Tokens → Option Transfer → LogScan → Result LogScan
add_if wallet k none s = ok s
add_if wallet k (some t) s = add_transfer wallet k t s

abbrev pub as_log : Value → Result Fields
as_log (dict log) = ok log
as_log _ = err (unsettled malformed_logs)

-- The checks of a log before its topics, and its index.
abbrev pub check_log : Verified → Fields → LogScan → Result ℕ
check_log v log s = do
  refuse_if (not (is_kept (lookup (codes "removed") log))) removed_or_unconfirmed_log
  i ← hex_quantity (lookup (codes "logIndex") log)
  refuse_if (is_seen s i || is_late s.last_index i) duplicate_or_unordered_log
  check_identity v log
  ok i

-- The topics and the data of a log of a token.
abbrev pub read_transfer : Text → Fields → Result (Option Transfer)
read_transfer token log = do
  topics ← read_topics (lookup (codes "topics") log)
  word ← hex_data none (lookup (codes "data") log)
  decode_transfer token (lookup (codes "data") log) topics

abbrev pub read_log : Verified → Value → LogScan → Result (ℕ × Option Transfer)
read_log v value s = do
  log ← as_log value
  token ← hex_data (some 20) (lookup (codes "address") log)
  i ← check_log v log s
  t ← read_transfer token log
  ok (i, t)

-- The loop over the logs.
unfoldable pub scan_logs : Verified → Tokens → Values → LogScan → Result LogScan
unfolding hex_data hex_quantity lookup read_words number_of indexed_address hex_number
scan_logs v k end s = ok s
scan_logs v k (item value logs) s = read_log v value s >>= λ r.
    add_if v.wallet_address k r.1 (next_index r.0 s) >>= λ t. scan_logs v k logs t

-- A number of decimals: an integer, but no `bool`, up to 255.
abbrev pub as_decimals : Value → Result ℕ
as_decimals (integer (pos n)) = if leb n 255 then ok n else err (unsettled invalid_context)
as_decimals _ = err (unsettled invalid_context)

-- What the agent has retained of the swap.
pub record SignedSwap : Type 0 where
  pub input_token : Value
  pub output_token : Value
  pub input_decimals : Value
  pub output_decimals : Value

pub record TokenFill : Type 0 where
  pub verified : Verified
  pub tokens : Tokens
  pub spent : ℕ
  pub received : ℕ
  pub input_amount : Text
  pub output_amount : Text

abbrev pub is_native : Text → Bool
is_native token = any (text_eq token) native_tokens

-- `-delta`, and a delta, when they are positive.
abbrev pub positive_spent : ℤ → Result ℕ
positive_spent (pos n) = err (unsettled unverified_wallet_flow)
positive_spent (negsuc n) = ok (suc n)

abbrev pub positive_received : ℤ → Result ℕ
positive_received (negsuc n) = err (unsettled unverified_wallet_flow)
positive_received (pos n) = if n == 0 then err (unsettled unverified_wallet_flow) else ok n

-- `_verify_erc20_flows`
unfoldable pub verify_erc20_flows : Fields → Verified → SignedSwap → Result TokenFill
unfolding hex_data lookup
verify_erc20_flows raw v w = do
  input ← hex_data (some 20) (some w.input_token)
  output ← hex_data (some 20) (some w.output_token)
  input_decimals ← as_decimals w.input_decimals
  output_decimals ← as_decimals w.output_decimals
  refuse_if (text_eq input output) unsupported_flow
  refuse_if (is_native input || is_native output) unsupported_native_flow
  logs ← as_items (lookup (codes "logs") raw)
  s ← scan_logs v (record { input = input; output = output }) logs initial_scan
  spent ← positive_spent s.input_delta
  received ← positive_received s.output_delta
  ok (record {
    verified = v;
    tokens = record { input = input; output = output };
    spent = spent;
    received = received;
    input_amount = units (pos spent) input_decimals;
    output_amount = units (pos received) output_decimals;
  })

abbrev router_error : Error → Error
router_error (unsettled recipient_mismatch) = unsettled router_mismatch
router_error e = e

abbrev pub as_router_error : Result Verified → Result Verified
as_router_error (ok v) = ok v
as_router_error (err e) = err (router_error e)

-- The flows of a receipt that is an object, as every receipt with verified fees is.
abbrev pub flows_of : Value → Verified → SignedSwap → Result TokenFill
flows_of (dict raw) v w = verify_erc20_flows raw v w
flows_of _ v w = err (unsettled malformed_logs)

-- `verify_erc20_receipt`
unfoldable pub verify_erc20_receipt : Value → SignedContext → SignedSwap → Result TokenFill
verify_erc20_receipt raw c w = do
  v ← as_router_error (verify_fee_receipt raw c)
  refuse_if v.is_reverted transaction_reverted
  flows_of raw v w
