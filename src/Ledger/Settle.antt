-- ===== src/Ledger/Settle.antt =====
-- How reservations end: `reconcile`, `settle`, `release_unsigned`, `release` and `reset` of
-- server/src/services/spend_service.py, `_record_evidence` of x402_reconciliation.py and the last
-- transaction of `apply_confirmed_refund` of refund_service.py.
pub mod Undone
pub mod Periods
use mangrove_agent.Prelude.{
  ℕ, ◌+◌, ◌≡◌, Bool, true, false, not, ◌&&◌, ◌||◌, Option, none, some, List, [], ◌∷◌, ltb, leb,
  ◌==◌, if◌then◌else◌, any,
}
use mangrove_agent.Prelude.Text.{Text, is_hex_word}
use mangrove_agent.Prelude.Tables.{update_where, find_where}
use mangrove_agent.Flow.{
  Result, ok, err, Action, pure, gets, modify, lift, raise_if, atomic, ◌>>=◌, ◌>>◌, integrity,
}
use mangrove_agent.Url.{strip_query}
use mangrove_agent.Ledger.{
  Payment, PayState, settled, released, is_authorized, is_settled, is_released, is_confirmed,
  Reason, signature_refused, settled_final, reason_eq, Refund, confirmed, Operation,
  unsigned_failed, is_pending, EvidenceRow, SpendState, Db,
}
use mangrove_agent.Ledger.Amount.{Config, Usd, to_micro_usd, cap_micro_usd}
use mangrove_agent.Ledger.Spent.{spent_micro_usd}
use mangrove_agent.Ledger.State.{unlatch, update_state, update_payments, is_open_row}
use mangrove_agent.Ledger.Unsigned.{live_ids, is_nil}
use mangrove_agent.Ledger.Receipts.{Receipt, valid_settlement, satisfies}
use mangrove_agent.Ledger.Reserve.{Env}

-- `reservation_ids`: `None`, one id, or a sequence with the absent ones left in.
pub data IdArg : Type 0 where
  no_ids : IdArg
  one : ℕ → IdArg
  many : List (Option ℕ) → IdArg

abbrev pub present : List (Option ℕ) → List ℕ
present [] = []
present (none ∷ xs) = present xs
present (some x ∷ xs) = x ∷ present xs

-- `_as_id_list`
abbrev pub as_id_list : IdArg → List ℕ
as_id_list no_ids = []
as_id_list (one id) = id ∷ []
as_id_list (many xs) = present xs

-- `ids[-1]`
abbrev pub last : List ℕ → Option ℕ
last [] = none
last (x ∷ []) = some x
last (x ∷ y ∷ xs) = last (y ∷ xs)

-- `COALESCE(?, resource)`
abbrev pub coalesce : Option Text → Option Text → Option Text
coalesce none old = old
coalesce (some new) old = some new

abbrev pub settle_row : Env → Option Text → Option Text → Payment → Payment
settle_row env transaction resource p = record p {
  state = settled;
  transaction_hash = transaction;
  resource = coalesce (strip_query env.bracketed_is_valid resource) p.resource;
  updated_at = env.now;
}

-- `transaction` is `none` where the source's object is no text.
abbrev pub settle_last : Env → Option ℕ → Option Text → Option Text → Db → Db
settle_last env none transaction resource db = db
settle_last env (some id) transaction resource db =
    if satisfies (is_hex_word 64) transaction
    then update_payments (is_open_row id) (settle_row env transaction resource) db
    else db

unfoldable pub settle : Env → IdArg → Option Text → Option Text → Db → Db
settle env ids transaction resource db =
    settle_last env (last (as_id_list ids)) transaction resource db

abbrev pub transaction_of : Option Receipt → Option Text
transaction_of none = none
transaction_of (some r) = r.transaction

abbrev pub settle_valid : Env → IdArg → Option Payment → Option Receipt → Option Text → Db → Db
settle_valid env ids none settlement resource db = db
settle_valid env ids (some row) settlement resource db =
    if valid_settlement settlement (some row.wallet_address) row.network
    then settle env ids (transaction_of settlement) resource db
    else db

abbrev pub reconcile_last : Env → IdArg → Option ℕ → Option Receipt → Option Text → Db → Db
reconcile_last env ids none settlement resource db = db
reconcile_last env ids (some id) settlement resource db =
    settle_valid env ids (find_where (λ p. p.id == id) db.payments) settlement resource db

unfoldable pub reconcile : Env → IdArg → Option Receipt → Option Text → Db → Db
unfolding settle find_where
reconcile env ids settlement resource db =
    reconcile_last env ids (last (as_id_list ids)) settlement resource db

abbrev pub release_row : ℕ → Reason → Payment → Payment
release_row now reason p = record p {
  state = released;
  release_reason = some reason;
  updated_at = now;
}

-- The period was closed by the row that has just been released.
abbrev pub reopened : ℕ → ℕ → Payment → SpendState → ℕ → Db → Bool
reopened cap before row state period db =
    row.period_id == period
    && state.exhausted
    && ltb 0 row.amount_micro_usd
    && leb cap before
    && ltb (spent_micro_usd period db) cap

abbrev pub release_found : Env → ℕ → Payment → Action Db (Unit {0})
release_found env id row = do
  state ← gets (λ db. db.spend)
  cap ← lift (cap_micro_usd env.config state)
  before ← gets (spent_micro_usd state.period_id)
  modify (update_payments (is_open_row id) (release_row env.now signature_refused))
  modify (λ db.
      if reopened cap before row state state.period_id db
      then update_state (unlatch env.now) db
      else db)

abbrev pub release_if_open : Env → ℕ → Option Payment → Action Db (Unit {0})
release_if_open env id none = pure tt
release_if_open env id (some row) =
    if is_authorized row.state then release_found env id row else pure tt

unfoldable pub release_unsigned : Env → ℕ → Action Db (Unit {0})
unfolding find_where
release_unsigned env id =
    atomic (λ db. release_if_open env id (find_where (λ p. p.id == id) db.payments) db)

-- `id IN (…) AND state = 'authorized'`
abbrev pub is_listed : List ℕ → Payment → Bool
is_listed ids p = any (λ id. p.id == id) ids && is_authorized p.state

unfoldable pub release : ℕ → IdArg → Reason → Db → Db
release now ids reason db = update_payments (is_listed (as_id_list ids)) (release_row now reason) db

abbrev pub next_cap : Option Usd → Option ℕ → Result (Option ℕ)
next_cap none old = ok old
next_cap (some u) old = elim (to_micro_usd u) [ ok micro ↦ ok (some micro) | err e ↦ err e ]

-- A human starts a fresh period; `cap_usd` is the budget that they agreed to, if they named one.
unfoldable pub reset_locked : ℕ → Option Usd → Action Db (Unit {0})
unfolding to_micro_usd
reset_locked now cap_usd = do
  state ← gets (λ db. db.spend)
  cap ← lift (next_cap cap_usd state.period_cap_micro_usd)
  modify (
      update_state (λ s. record s {
        period_id = s.period_id + 1;
        period_started_at = some now;
        period_cap_micro_usd = cap;
        exhausted = false;
        exhausted_at = none;
        exhausted_reason = none;
        updated_at = some now;
      }))

unfoldable pub reset : ℕ → Option Usd → Action Db (Unit {0})
unfolding reset_locked
reset now cap_usd = atomic (reset_locked now cap_usd)
