-- ===== src/Ledger/State.antt =====
-- `_get_state`, `_update_state` and `_mark_exhausted` of server/src/services/spend_service.py, and
-- the single-row writes that its functions share.
use mangrove_agent.Prelude.{ℕ, Bool, true, false, none, some, ◌==◌, ◌&&◌}
use mangrove_agent.Prelude.Tables.{update_where}
use mangrove_agent.Ledger.{Payment, SpendState, Exhaustion, Db, is_authorized}

-- `exhausted=1, exhausted_at=_now(), exhausted_reason=reason`
abbrev pub exhaust : ℕ → Exhaustion → SpendState → SpendState
exhaust now reason s = record s {
  exhausted = true;
  exhausted_at = some now;
  exhausted_reason = some reason;
  updated_at = some now;
}

-- `exhausted=0, exhausted_at=None, exhausted_reason=None`
abbrev pub unlatch : ℕ → SpendState → SpendState
unlatch now s = record s {
  exhausted = false;
  exhausted_at = none;
  exhausted_reason = none;
  updated_at = some now;
}

abbrev pub update_state : (SpendState → SpendState) → Db → Db
update_state f db = record db { spend = f db.spend }

-- `UPDATE x402_payments SET … WHERE …`
abbrev pub update_payments : (Payment → Bool) → (Payment → Payment) → Db → Db
update_payments c g db = record db { payments = update_where c g db.payments }

-- `id = ? AND state = 'authorized'`
abbrev pub is_open_row : ℕ → Payment → Bool
is_open_row id p = p.id == id && is_authorized p.state
