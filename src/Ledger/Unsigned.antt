-- ===== src/Ledger/Unsigned.antt =====
-- `require_unsigned` of server/src/services/payment_operations.py, which a reservation calls inside
-- its transaction, and `reservation_ids`.
use mangrove_agent.Prelude.{
  ℕ, Bool, true, false, not, ◌&&◌, ◌||◌, Option, none, some, List, [], ◌∷◌, ◌==◌,
}
use mangrove_agent.Prelude.Tables.{find_where, select_where}
use mangrove_agent.Flow.{Action, raise_if, payment_uncertain}
use mangrove_agent.Ledger.{Payment, Operation, Db, is_released, is_pending}

-- `operation_id = ?`, which a NULL does not satisfy.
abbrev pub belongs : ℕ → Payment → Bool
belongs oid p = elim p.operation_id [ none ↦ false | some o ↦ o == oid ]

-- `operation_id = ? AND state != 'released'`
abbrev pub is_live : ℕ → Payment → Bool
is_live oid p = belongs oid p && not (is_released p.state)

abbrev pub ids_of : List Payment → List ℕ
ids_of [] = []
ids_of (p ∷ ps) = p.id ∷ ids_of ps

unfoldable pub reservation_ids : ℕ → Db → List ℕ
unfolding select_where
reservation_ids oid db = ids_of (select_where (belongs oid) db.payments)

unfoldable pub live_ids : ℕ → Db → List ℕ
unfolding select_where
live_ids oid db = ids_of (select_where (is_live oid) db.payments)

unfoldable pub find_operation : ℕ → Db → Option Operation
unfolding find_where
find_operation oid db = find_where (λ o. o.id == oid) db.operations

abbrev is_pending_row : Option Operation → Bool
is_pending_row none = false
is_pending_row (some o) = is_pending o.state

abbrev pub is_nil : List ℕ → Bool
is_nil [] = true
is_nil (x ∷ xs) = false

unfoldable pub require_unsigned : ℕ → Action Db (Unit {0})
unfolding find_operation live_ids
require_unsigned oid db =
    raise_if (not (is_pending_row (find_operation oid db)) || not (is_nil (live_ids oid db)))
      (payment_uncertain oid (live_ids oid db)) db
