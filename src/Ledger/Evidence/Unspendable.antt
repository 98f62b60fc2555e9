-- ===== src/Ledger/Evidence/Unspendable.antt =====
-- `reconcile_unspendable` of server/src/services/x402_reconciliation.py: an authorization that can
-- never be settled, because it pays the zero address or its window is empty.
use mangrove_agent.Prelude.{
  ℕ, Bool, false, not, ◌&&◌, ◌||◌, Option, none, some, leb, ◌==◌, if◌then◌else◌, is_some,
}
use mangrove_agent.Prelude.Text.{Text, codes, text_eq, lower}
use mangrove_agent.Prelude.Tables.{find_where}
use mangrove_agent.Flow.{Action, ok}
use mangrove_agent.Ledger.{Payment, Operation, Db, is_authorized, is_pending, unspendable}
use mangrove_agent.Ledger.Unsigned.{find_operation}
use mangrove_agent.Ledger.Reserve.{Env}
use mangrove_agent.Ledger.Evidence.{record_evidence}

-- `"0x" + "00" * 20`
abbrev zero_address : Text
zero_address = codes "0x0000000000000000000000000000000000000000"

abbrev pays_nobody : Option Text → Bool
pays_nobody none = false
pays_nobody (some payee) = text_eq (lower payee) zero_address

abbrev is_empty_window : Option ℕ → Option ℕ → Bool
is_empty_window (some before) (some after) = leb before after
is_empty_window none after = false
is_empty_window (some before) none = false

abbrev pub may_be_unspendable : Payment → Bool
may_be_unspendable p =
    is_authorized p.state
    && is_some p.operation_id
    && not (is_some p.transaction_hash)
    && (pays_nobody p.payee || is_empty_window p.valid_before p.valid_after)

-- The headers that a pending operation has saved.
abbrev headers_of_row : Option Operation → Option ℕ
headers_of_row none = none
headers_of_row (some o) = if is_pending o.state then o.payment_headers else none

abbrev pub saved_headers : Option ℕ → Db → Option ℕ
saved_headers none db = none
saved_headers (some oid) db = headers_of_row (find_operation oid db)

-- `prove` opens the headers and checks the signature against the row (payment_rejection.py).
abbrev pub unspendable_saved : Env → (Payment → ℕ → Bool) → Payment → Option ℕ → Action Db Bool
unspendable_saved env prove p none db = (ok false, db)
unspendable_saved env prove p (some headers) db =
    if prove p headers
    then record_evidence env p (record { outcome = unspendable; transaction = none }) db
    else (ok false, db)

abbrev pub unspendable_row : Env → (Payment → ℕ → Bool) → Db → Option Payment → Action Db Bool
unspendable_row env prove before none db = (ok false, db)
unspendable_row env prove before (some p) db =
    if may_be_unspendable p
    then unspendable_saved env prove p (saved_headers p.operation_id before) db
    else (ok false, db)

unfoldable pub reconcile_unspendable : Env → (Payment → ℕ → Bool) → ℕ → Db → Action Db Bool
unfolding find_operation find_where record_evidence
reconcile_unspendable env prove id before =
    unspendable_row env prove before (find_where (λ p. p.id == id) before.payments)
