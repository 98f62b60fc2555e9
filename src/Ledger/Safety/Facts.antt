-- ===== src/Ledger/Safety/Facts.antt =====
-- Facts about single rows: what closing a row does to the sums.
use mangrove_agent.Prelude.{ℕ, ◌≤◌, ◌≡◌, refl, List, [], ◌∷◌, if◌then◌else◌, arith}
use mangrove_agent.Prelude.Tables.{sum_by, select_where}
use mangrove_agent.Ledger.{Payment, SpendState, Db}
use mangrove_agent.Ledger.Amount.{Config, cap_micro_usd}
use mangrove_agent.Ledger.Spent.{Gentle}
use mangrove_agent.Ledger.Unsigned.{is_live, ids_of, live_ids}
use mangrove_agent.Ledger.Steps.{Closes, budget}

-- The budget depends on the state by its cap alone.
pub budget-eq :
    (cfg : Config) (s t : SpendState)
    → s.period_cap_micro_usd ≡ t.period_cap_micro_usd
    → budget cfg s ≡ budget cfg t
unfolding budget cap_micro_usd
budget-eq cfg s t h = rw h refl

-- Closing an open row raises no sum and lowers no credit.
pub Closes-Gentle :
    (period : ℕ) (ps : List Payment) (g : Payment → Payment) (p : Payment)
    → Closes p (g p)
    → Gentle period ps g p
Closes-Gentle period ps g p k = (ground arith, λ r. ground arith)

abbrev pub live_weight : ℕ → Payment → ℕ
live_weight oid p = if is_live oid p then 1 else 0

-- The reservations of an operation that are not released.
abbrev pub live_count : ℕ → List Payment → ℕ
live_count oid ps = sum_by (live_weight oid) ps

pub Closes-live : (oid : ℕ) (p q : Payment) → Closes p q → live_weight oid q ≤ live_weight oid p
Closes-live oid p q k = ground arith

-- No live reservation is listed, so none is counted.
live_count-nil :
    (oid : ℕ) (ps : List Payment)
    → ids_of (select_where (is_live oid) ps) ≡ []
    → live_count oid ps ≡ 0
unfolding select_where sum_by
live_count-nil oid [] h = refl
live_count-nil oid (p ∷ ps) h = ground (arith, live_count-nil oid ps)

pub live_count-zero : (oid : ℕ) (d : Db) → live_ids oid d ≡ [] → live_count oid d.payments ≡ 0
unfolding live_ids
live_count-zero oid d h = live_count-nil oid d.payments h
