-- ===== src/Lib.antt =====
-- mangrove-agent: the x402 payments, the signing guards, the strategy life cycle, the broker's
-- journal, the kill switch, and the swaps and receipts of the agent server.
--
-- The agent pays for remote resources by signing USDC authorizations. A budget that a human has
-- agreed to bounds what it may sign; every authorization is a row of a ledger in SQLite, and the
-- parts below read and write that ledger, each call in one transaction that runs alone and rolls
-- back when it raises.
--
--   Prelude   numbers, texts (lists of character codes) and tables (lists of rows with the
--             UPDATE, SELECT and SUM of SQL).
--   Flow      exceptions as values, and actions on a state that may raise; `atomic` is
--             `_budget_transaction` of server/src/services/spend_service.py.
--   Url       `strip_query` of server/src/shared/urls.py, over Python 3.11's urlsplit and
--             urlunsplit.
--   Ledger    the tables of server/src/shared/db/migrations/008_x402_spend.sql to
--             020_x402_shared_recovery.sql as records.
--     Amount, Spent, State    `_coerce_micro_usd`, `_coerce_unix_seconds`, `_to_micro_usd`,
--             `_cap_micro_usd`, `_spent_micro_usd`, `_payment_count`, `_update_state` and
--             `_mark_exhausted` of server/src/services/spend_service.py.
--     Budget  `PaymentBudget` of server/src/services/payment_budget.py.
--     Reserve, Settle         `reserve`, and `settle`, `reconcile`, `release_unsigned`, `release`
--             and `reset` of spend_service.py; `valid_settlement` of
--             server/src/shared/x402/receipts.py is in Receipts.
--     Evidence                `reconcile_authorization`, `reconcile_unspendable` and
--             `_record_evidence` of server/src/services/x402_reconciliation.py, and
--             `apply_confirmed_refund` of server/src/services/refund_service.py.
--     Unsigned, Operations, Operations.Begin    `require_unsigned`, `save_headers`, `complete`,
--             `abandon_unsigned`, `proven_unpaid`, `record_replacement_permission` and `begin` of
--             server/src/services/payment_operations.py, and `watch_failed_operation` of
--             refund_service.py.
--     Steps   the abstract contract of the budget: a call that adds no authorization leaves the
--             ledger, closes open rows, credits refunds or renews the period, and a reservation
--             adds one row that fits. Steps.Spending, Steps.Chain and Steps.Requests show that the
--             calls are such steps.
--     Safety  the invariants, kept by every step; Safety.Marking, Safety.Proving and
--             Safety.Starting show which calls mark an operation as failed.
--     Calls   the calls as data, and a run of them in any order: threads and processes interleave
--             whole transactions, and a call that reads before its transaction takes the ledger
--             that it has read as an argument.
--
--   Wallet    the signing guards of server/src/services/wallet_manager.py over JSON values.
--     Swap, Authorization     `_validate_sign_target` and `_validate_x402_authorization`.
--     Signing `sign`, from the normalized transaction on, and `sign_x402_authorization`: the guard
--             runs before the secret is decrypted, and the state is the list of decryptions.
--
--   Strategy  the life cycle of one strategy: `_update_status` of server/src/services/strategy_service.py
--             with its scheduler effects, over the allocations of
--             server/src/services/allocation_service.py. Lifecycle is about the statuses, Funding
--             about the allocations, Confirmed about the confirmation. What the broker, the venues, the
--             wallet store and the upstream service answer is the record `World`, and so is whether
--             `register_job` of server/src/services/scheduler_service.py raises.
--
--   Broker    the journal of the broker: server/src/services/broker_store.py over the tables of
--             server/src/shared/db/migrations/016_broker_execution.sql and
--             021_confirmed_execution.sql. Reserve is `reserve`, Snapshot is `apply_snapshot`, and
--             `mark` stands with the tables; Steps takes their guards apart for the proofs.
--             Accounts and Balanced are about what the journal adds up to, Reserve.Returns about how a
--             reservation ends, Repeated about snapshots that come twice, Serial about pending orders.
--             Calls are the calls as data: each is one transaction, and processes interleave them.
--
--   Portfolio the kill switch: server/src/services/portfolio_risk_service.py over the strategies of
--             Strategy and the `_stop` of server/src/services/local_deployment.py. Latch is about the
--             checks and the latch, Paused about the strategies that a refused check stops.
--
--   Dex       the swaps that the agent signs itself: `dex_orders` and its `update` and
--             `_authorize_entry` in server/src/services/dex_confirmed.py, and in Execute its `execute`.
--             What the collaborators answer, in the order of the calls, is the record `Answers`, so
--             that a theorem over all answers covers every point where a call may fail; each
--             authorization has its own reading of the database, since other calls run in between.
--             Execute.Recorded and Execute.Durable are about what the row says of what was sent. Fills
--             are its `reserve`, `apply_fill` and `_fee_only` over the tables; Fills.Books and
--             Fills.Journal are about what trades and holdings add up to, and Fills.Again about fills
--             that come twice.
--
--   Receipt   server/src/services/receipt_settlement.py over JSON values: `verify_fee_receipt` and the
--             readings of hexadecimal data; Fees is `_fees`, Flows `verify_erc20_receipt`, and Units
--             `_units`. Flows.Net, Flows.Scanned, Flows.Proved, Fees.Complete, Units.Exact and
--             Identified are about what they prove.
--
--   Delivery  `close_delivery` of server/src/services/confirmed_execution.py: the closed positions that an
--             evaluation reports to the engine; Complete is about those that it leaves out.
--
-- Bounds: amounts are at most 2^63 - 1 (an SQLite integer); `begin` follows at most 64 replacement
-- links, as the source does, and the model raises where the source raises. No other recursion is on
-- fuel.
--
-- Not under server/src, or behind external libraries, and so arguments of the definitions: the
-- check of bracketed hosts, fresh UUIDs, the clock, the configuration, the account library and the
-- vault of secrets, what an inspection of the chain reports, the quotient of two decimals, whether a
-- saved signature proves an authorization unspendable, whether a node confirms a refund, and what the
-- recovery at the start of a payment operation, which asks the chain, does to the ledger. Texts are
-- ASCII. Sealed blobs, hashes and time stamps are numbers that are only compared. Log lines, texts of
-- errors, the retry schedules and the JSON of the evidence are not modelled, and neither are the unit
-- costs and profits of swaps, the HTTP and MCP transports, the creation and backup of wallets, the
-- venues, the marketplace, and what the schedulers do with a job.
pub mod Prelude
pub mod Flow
pub mod Url
pub mod Ledger
pub mod Wallet
pub mod Strategy
pub mod Broker
pub mod Portfolio
pub mod Dex
pub mod Receipt
pub mod Delivery
