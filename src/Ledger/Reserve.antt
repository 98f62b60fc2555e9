-- ===== src/Ledger/Reserve.antt =====
-- `reserve` of server/src/services/spend_service.py: the gate before every signature.
pub mod Gate
use mangrove_agent.Prelude.{
  ℕ, zero, suc, ◌+◌, ◌-◌, ◌/◌, ◌%◌, Bool, true, false, ◌&&◌, Option, none, some, List, [], ◌∷◌,
  ◌++◌, ltb, leb, ◌==◌, if◌then◌else◌, all, length, drop,
}
use mangrove_agent.Prelude.Text.{Text, codes, is_hex, is_hex_word, lower}
use mangrove_agent.Prelude.Tables.{find_where}
use mangrove_agent.Flow.{
  Result, ok, err, Action, pure, gets, modify, lift, raise_if, atomic, ◌>>=◌, ◌>>◌, Error,
  spend_cap_exceeded, budget_spent, would_exceed_budget, integrity,
}
use mangrove_agent.Url.{strip_query}
use mangrove_agent.Ledger.{Payment, authorized, SpendState, Db}
use mangrove_agent.Ledger.Amount.{
  PyValue, Config, coerce_micro_usd, coerce_unix_seconds, cap_micro_usd,
}
use mangrove_agent.Ledger.Spent.{spent_micro_usd, payment_count}
use mangrove_agent.Ledger.Budget.{PaymentBudget, consume}
use mangrove_agent.Ledger.State.{exhaust, update_state}
use mangrove_agent.Ledger.Unsigned.{require_unsigned}

-- `authorization_nonce`: bytes, a text, or anything else.
pub data NonceValue : Type 0 where
  nonce_bytes nonce_text : Text → NonceValue
  nonce_other : NonceValue

abbrev hex_digit : ℕ → ℕ
hex_digit d = if ltb d 10 then b'0' + d else b'a' + (d - 10)

-- `bytes.hex()`
unfoldable pub hex_of : Text → Text
hex_of [] = []
hex_of (b ∷ bs) = hex_digit (b / 16) ∷ hex_digit (b % 16) ∷ hex_of bs

-- `removeprefix("0x")`
abbrev without_0x : Text → Text
without_0x [] = []
without_0x (c ∷ []) = c ∷ []
without_0x (c ∷ d ∷ s) = if c == b'0' && d == b'x' then s else c ∷ d ∷ s

abbrev is_64_hex : Text → Bool
is_64_hex s = all is_hex s && length s == 64

abbrev nonce_of_text : Text → Option Text
nonce_of_text s =
    if is_64_hex (without_0x s) then some (b'0' ∷ b'x' ∷ lower (without_0x s)) else none

unfoldable pub normal_nonce : NonceValue → Option Text
unfolding hex_of
normal_nonce (nonce_bytes bs) = nonce_of_text (b'0' ∷ b'x' ∷ hex_of bs)
normal_nonce (nonce_text s) = nonce_of_text s
normal_nonce nonce_other = none

-- `asset.lower()` of an address; `none` is also any object that is no text.
abbrev pub normal_asset : Option Text → Option Text
normal_asset none = none
normal_asset (some s) = if is_hex_word 40 s then some (lower s) else none

-- The keyword arguments of `reserve`.
pub record Request : Type 0 where
  pub value : PyValue
  pub wallet_address : Text
  pub payee : Option Text
  pub network : Option Text
  pub resource : Option Text
  pub valid_before : PyValue
  pub valid_after : PyValue
  pub authorization_nonce : NonceValue
  pub asset : Option Text
  pub operation_id : Option ℕ

-- What a call takes from outside: the configuration, urllib's check of bracketed hosts, the fresh
-- UUID, and the clock.
pub record Env : Type 0 where
  pub config : Config
  pub bracketed_is_valid : Text → Bool
  pub uuid : ℕ
  pub now : ℕ

abbrev pub payment_row : Env → Request → ℕ → SpendState → Payment
payment_row env r amount state = record {
  id = env.uuid;
  period_id = state.period_id;
  state = authorized;
  amount_micro_usd = amount;
  wallet_address = r.wallet_address;
  payee = r.payee;
  network = r.network;
  resource = strip_query env.bracketed_is_valid r.resource;
  transaction_hash = none;
  valid_before = coerce_unix_seconds false r.valid_before;
  valid_after = coerce_unix_seconds true r.valid_after;
  authorization_nonce = normal_nonce r.authorization_nonce;
  asset = normal_asset r.asset;
  release_reason = none;
  operation_id = r.operation_id;
  created_at = env.now;
  updated_at = env.now;
}

abbrev pub has_id : ℕ → Db → Bool
has_id id db = elim (find_where (λ (p : Payment). p.id == id) db.payments) [
  | none ↦ false
  | some p ↦ true
]

-- `INSERT INTO x402_payments`: the primary key is unique.
unfoldable pub insert_payment : Payment → Action Db (Unit {0})
unfolding find_where
insert_payment p db =
    (raise_if (has_id p.id db) integrity
        >> modify (λ d. record d { payments = d.payments ++ p ∷ [] }))
      db

abbrev pub require_operation : Option ℕ → Action Db (Unit {0})
require_operation none = pure tt
require_operation (some oid) = require_unsigned oid

-- The latch at the end: the payment filled the budget.
abbrev pub latch_when_full : ℕ → ℕ → ℕ → ℕ → Db → Db
latch_when_full now period spent_after cap db =
    if leb cap spent_after && ltb 0 spent_after
    then update_state
        (exhaust now (record { spent = spent_after; cap = cap; count = payment_count period db }))
        db
    else db

-- The block under `_budget_transaction`.
unfoldable pub reserve_locked : Env → Request → ℕ → Action Db ℕ
unfolding insert_payment require_unsigned
reserve_locked env r amount = do
  require_operation r.operation_id
  state ← gets (λ db. db.spend)
  cap ← lift (cap_micro_usd env.config state)
  spent ← gets (spent_micro_usd state.period_id)
  raise_if state.exhausted (spend_cap_exceeded budget_spent)
  raise_if (ltb cap (spent + amount)) (spend_cap_exceeded would_exceed_budget)
  insert_payment (payment_row env r amount state)
  modify (latch_when_full env.now state.period_id (spent + amount) cap)
  pure env.uuid

-- The ledger, and the request-local budget that `current_budget` holds, if any.
pub record Agent : Type 0 where
  pub db : Db
  pub workflow : Option PaymentBudget

abbrev pub on_workflow : Option PaymentBudget → ℕ → Result (Unit {0}) × Option PaymentBudget
on_workflow none amount = (ok tt, none)
on_workflow (some b) amount = let (r, b') = consume amount b in (r, some b')

abbrev consume_workflow : ℕ → Action Agent (Unit {0})
consume_workflow amount a =
    let (r, w) = on_workflow a.workflow amount in (r, record a { workflow = w })

abbrev pub on_db : {A : Type 0} → Action Db A → Action Agent A
on_db m a = let (r, d) = m a.db in (r, record a { db = d })

unfoldable pub reserve : Env → Request → Action Agent ℕ
unfolding reserve_locked consume
reserve env r = do
  amount ← lift (coerce_micro_usd r.value)
  consume_workflow amount
  on_db (atomic (reserve_locked env r amount))
