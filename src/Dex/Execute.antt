-- ===== src/Dex/Execute.antt =====
-- `execute` of server/src/services/dex_confirmed.py on the row of its order: what each collaborator
-- answers is an argument, and so is what the database holds when an entry is authorized.
pub mod Recorded
pub mod Durable
mod Tests
use mangrove_agent.Prelude.{
  ℕ, Bool, true, false, not, ◌&&◌, ◌||◌, Option, none, some, List, [], ◌∷◌, ltb, leb, ◌==◌,
  if◌then◌else◌,
}
use mangrove_agent.Prelude.Int.{ℤ, pos, negsuc}
use mangrove_agent.Flow.{
  Result, ok, err, Action, pure, modify, lift, gets, raise_if, ◌>>=◌, ◌>>◌, signing, sdk_error,
}
use mangrove_agent.Broker.{IntentAction, enter, exit}
use mangrove_agent.Wallet.Swap.{Transaction, validate_sign_target}
use mangrove_agent.Dex.{
  DexStatus, pending, uncertain, confirmed, fee_only, failed, Context, DexOrder, updated, Seen,
  authorize_entry,
}

-- A transaction as the market service prepared it.
pub record Prepared : Type 0 where
  pub has_value : Bool
  pub transaction : Transaction

pub record Resolved : Type 0 where
  pub amount : ℕ
  pub touches_native : Bool

pub data Settled : Type 0 where
  not_settled as_confirmed as_fee_only : Settled

-- The answers, in the order of the calls. `receipts_available` is the probe of the receipt node,
-- `resolved` the tokens and the quote allocation, `quoted` the quote with its swap, and each `seen`
-- what an authorization reads.
pub record Answers : Type 0 where
  pub slippage : Option ℤ
  pub max_input_amount : Option ℕ
  pub backup_confirmed : Result (Unit {0})
  pub receipts_available : Result (Unit {0})
  pub resolved : Result Resolved
  pub quoted : Result Prepared
  pub approval : Result (Option Prepared)
  pub seen_to_sign_approval : Seen
  pub approval_signed : Result ℕ
  pub seen_to_send_approval : Seen
  pub approval_sent : Result (Unit {0})
  pub approval_polled : Result Bool
  pub refreshed : Result Prepared
  pub seen_to_sign : Seen
  pub signed : Result ℕ
  pub seen_to_send : Seen
  pub sent : Result (Unit {0})
  pub settled : Settled
  pub reconciled : Result (Unit {0})

-- A transaction that was handed to the market service for broadcast, whatever it answered, and the
-- row of its order when it was.
pub record Broadcast : Type 0 where
  pub row : DexOrder
  pub is_approval : Bool
  pub hash : ℕ
  pub transaction : Transaction
  pub seen : Seen

-- The durable row, the local `attempted`, and what has been sent.
pub record Run : Type 0 where
  pub order : DexOrder
  pub attempted : Bool
  pub broadcasts : List Broadcast

-- `_validate_slippage` of server/src/services/order_executor.py, in units of 10 ^ -18
abbrev pub max_slippage : ℕ
max_slippage = 2_500_000_000_000_000

abbrev pub validate_slippage : Option ℤ → Result (Unit {0})
validate_slippage none = err signing
validate_slippage (some (negsuc n)) = err signing
validate_slippage (some (pos n)) = if n == 0 || ltb max_slippage n then err signing else ok tt

abbrev exceeds_cash : IntentAction → Option ℕ → ℕ → Bool
exceeds_cash exit cash amount = false
exceeds_cash enter none amount = false
exceeds_cash enter (some cash) amount = ltb cash amount

-- `_zero_value` and the guard of the wallet
abbrev pub check_payload : Prepared → Result (Unit {0})
check_payload p = if p.has_value then err sdk_error else validate_sign_target p.transaction

abbrev pub save : (Context → Context) → Option DexStatus → Option ℕ → Action Run (Unit {0})
save f status tx_hash = modify (λ r. record r { order = updated f status tx_hash r.order })

abbrev pub authorize : Seen → Action Run (Unit {0})
authorize seen r = (authorize_entry r.order.intent.action r.order.context.expected_revision seen, r)

abbrev pub broadcast_of : Bool → ℕ → Prepared → Seen → DexOrder → Broadcast
broadcast_of is_approval hash p seen row = record {
  row = row;
  is_approval = is_approval;
  hash = hash;
  transaction = p.transaction;
  seen = seen;
}

abbrev pub attempt : Bool → ℕ → Prepared → Seen → Action Run (Unit {0})
attempt is_approval hash p seen = modify (λ r. record r {
  attempted = true;
  broadcasts = broadcast_of is_approval hash p seen r.order ∷ r.broadcasts;
})

-- `broadcast_signed`
abbrev pub broadcast_signed : Bool → ℕ → Prepared → Seen → Result (Unit {0}) → Action Run (Unit {0})
broadcast_signed is_approval hash p seen sent = do
  authorize seen
  attempt is_approval hash p seen
  lift sent

abbrev pub plain_swap : Context → Context
plain_swap c = record c { has_no_native_value = true }

abbrev pub start_context : Context → Context
start_context c = record c { approval_required = false }

abbrev pub approval_context : Context → Context
approval_context c = record c { approval_required = true; has_no_native_value = true }

-- The swap that is prepared again after a mined approval.
abbrev pub refresh : Answers → Action Run Prepared
refresh w = do
  polled ← lift w.approval_polled
  raise_if (not polled) sdk_error
  swap ← lift w.refreshed
  lift (check_payload swap)
  save plain_swap none none
  pure swap

-- The approval transaction, when the token needs one.
abbrev pub approve : Answers → Prepared → Option Prepared → Action Run Prepared
approve w swap none = save plain_swap none none >> pure swap
approve w swap (some p) = do
  lift (check_payload p)
  save approval_context none none
  authorize w.seen_to_sign_approval
  hash ← lift w.approval_signed
  save (λ c. record c { approval_tx_hash = some hash }) none none
  broadcast_signed true hash p w.seen_to_send_approval w.approval_sent
  refresh w

abbrev pub settle_status : Settled → Option DexStatus
settle_status not_settled = none
settle_status as_confirmed = some confirmed
settle_status as_fee_only = some fee_only

-- The signature and the broadcast of the swap, and the reconciliation that follows it.
abbrev pub send_swap : Answers → Prepared → Action Run (Unit {0})
send_swap w swap = do
  authorize w.seen_to_sign
  hash ← lift w.signed
  save (λ c. c) (some pending) (some hash)
  broadcast_signed false hash swap w.seen_to_send w.sent
  save (λ c. c) (settle_status w.settled) none
  lift w.reconciled

abbrev pub prepare : Answers → IntentAction → Action Run Prepared
prepare w action = do
  lift (validate_slippage w.slippage)
  lift w.backup_confirmed
  lift w.receipts_available
  resolved ← lift w.resolved
  raise_if resolved.touches_native sdk_error
  raise_if (exceeds_cash action w.max_input_amount resolved.amount) sdk_error
  save start_context none none
  swap ← lift w.quoted
  lift (check_payload swap)
  pure swap

abbrev pub execute_steps : Answers → IntentAction → Action Run (Unit {0})
execute_steps w action = do
  swap ← prepare w action
  approval ← lift w.approval
  ready ← approve w swap approval
  send_swap w ready

-- `except BaseException`
abbrev pub on_error : Result (Unit {0}) × Run → Result (Unit {0}) × Run
on_error (ok u, r) = (ok u, r)
on_error (err e, r) = (
  err e,
  if r.attempted
      then record r { order = updated (λ c. c) (some uncertain) none r.order }
      else record r {
        order =
            updated (λ c. record c { no_broadcast_confirmed = true }) (some failed) none r.order;
      },
)

-- `execute`
unfoldable pub execute : Answers → DexOrder → Result (Unit {0}) × Run
unfolding validate_sign_target
execute w o =
    on_error
      (execute_steps w o.intent.action (record { order = o; attempted = false; broadcasts = [] }))
