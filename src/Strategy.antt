-- ===== src/Strategy.antt =====
-- The life cycle of one strategy: `_update_status` of server/src/services/strategy_service.py and
-- the allocations of server/src/services/allocation_service.py. What the collaborators answer is an
-- argument; the state is what the database, the scheduler and the upstream service keep of it.
use mangrove_agent.Prelude.{
  ℕ, ◌+◌, Bool, true, false, not, ◌&&◌, ◌||◌, Option, none, some, List, ◌∷◌, ◌==◌, if◌then◌else◌,
  is_some,
}
use mangrove_agent.Prelude.Text.{Text, text_eq, lower}
use mangrove_agent.Prelude.Tables.{update_where, find_where}
use mangrove_agent.Flow.{
  Result, ok, err, Action, pure, gets, modify, lift, raise, raise_if, atomic, ◌>>=◌, ◌>>◌,
  invalid_status_transition, confirmation_required, sdk_error, allocation_insufficient,
  wallet_not_found, scheduler_error,
}
pub mod Lifecycle
pub mod Funding
pub mod Confirmed
mod Tests

pub data Status : Type 0 where
  draft inactive paper live archived : Status

-- `_TRANSITIONS`
unfoldable pub allows : Status → Status → Bool
allows draft inactive = true
allows draft archived = true
allows inactive paper = true
allows inactive live = true
allows inactive archived = true
allows paper live = true
allows paper inactive = true
allows paper archived = true
allows live inactive = true
allows live archived = true
allows _ _ = false

abbrev pub status_eq : Status → Status → Bool
status_eq draft draft = true
status_eq inactive inactive = true
status_eq paper paper = true
status_eq live live = true
status_eq archived archived = true
status_eq _ _ = false

-- A row of `allocations`; `amount` numbers the finite positive amounts.
pub record Allocation : Type 0 where
  pub id : ℕ
  pub wallet_address : Text
  pub token_address : Text
  pub amount : ℕ
  pub slippage : Option ℕ
  pub active : Bool

-- The one row of `execution_capital`.
pub record Capital : Type 0 where
  pub amount : ℕ
  pub token_address : Text

-- `allocations` stands with the newest first; `exit_only` is `exit_only_mode`.
pub record Desk : Type 0 where
  pub status : Status
  pub exit_only : Option Status
  pub allocations : List Allocation
  pub capital : Option Capital
  pub execution_state : Option ℕ
  pub execution_revision : ℕ
  pub upstream : Status
  pub is_scheduled : Bool

-- The allocation block of a request; no amount is one that is not finite or not positive.
pub record AllocationInput : Type 0 where
  pub wallet_address : Text
  pub token_address : Text
  pub amount : Option ℕ
  pub slippage : Option ℕ

-- What the collaborators answer: the broker's route and preflight, the two exposures, the
-- evaluation lane, the wallet store, the history of orders, the upstream call, the registration of
-- a job with the scheduler, and a fresh UUID.
pub record World : Type 0 where
  pub is_broker_bound : Bool
  pub preflight : Result (Unit {0})
  pub has_live_exposure : Bool
  pub has_paper_exposure : Bool
  pub is_stateless : Bool
  pub backup_confirmed : Result (Unit {0})
  pub wallet_exists : Bool
  pub has_history : Bool
  pub upstream_fails : Bool
  pub scheduler_fails : Bool
  pub uuid : ℕ

abbrev pub is_active : Allocation → Bool
is_active a = a.active

-- `get_active_allocation`
unfoldable pub get_active_allocation : Desk → Option Allocation
unfolding find_where
get_active_allocation d = find_where is_active d.allocations

abbrev pub set_inactive : Allocation → Allocation
set_inactive a = record a { active = false }

abbrev pub release_active : Option Allocation → Desk → Desk
release_active none d = d
release_active (some a) d = record d {
  allocations = update_where (λ b. b.id == a.id) set_inactive d.allocations;
}

unfoldable pub release_allocation : Desk → Desk
unfolding get_active_allocation update_where
release_allocation d = release_active (get_active_allocation d) d

abbrev option_eq : Option ℕ → Option ℕ → Bool
option_eq none none = true
option_eq (some a) (some b) = a == b
option_eq none (some b) = false
option_eq (some a) none = false

abbrev is_same : Allocation → AllocationInput → ℕ → Bool
is_same a r amount =
    text_eq (lower a.wallet_address) (lower r.wallet_address)
    && text_eq (lower a.token_address) (lower r.token_address)
    && a.amount == amount
    && option_eq a.slippage r.slippage

abbrev pub same_capital : Capital → AllocationInput → ℕ → Bool
same_capital c r amount =
    c.amount == amount && text_eq (lower c.token_address) (lower r.token_address)

-- The opening budget, which is written once and never changed.
abbrev pub record_capital : World → AllocationInput → ℕ → Option Capital → Action Desk (Unit {0})
record_capital w r amount (some c) d =
    (if same_capital c r amount then ok tt else err allocation_insufficient, d)
record_capital w r amount none d = if w.has_history then (ok tt, d) else (
  ok tt,
  record d {
    capital = some (record { amount = amount; token_address = lower r.token_address });
    execution_state = none;
    execution_revision = d.execution_revision + 1;
  },
)

abbrev pub new_allocation : World → AllocationInput → ℕ → Allocation
new_allocation w r amount = record {
  id = w.uuid;
  wallet_address = r.wallet_address;
  token_address = r.token_address;
  amount = amount;
  slippage = r.slippage;
  active = true;
}

abbrev pub insert_allocation : World → AllocationInput → ℕ → Action Desk (Unit {0})
insert_allocation w r amount = do
  modify (λ d. record d { allocations = new_allocation w r amount ∷ d.allocations })
  capital ← gets (λ d. d.capital)
  record_capital w r amount capital

abbrev pub record_beside : World → AllocationInput → ℕ → Option Allocation → Action Desk (Unit {0})
record_beside w r amount none d = atomic (insert_allocation w r amount) d
record_beside w r amount (some a) d =
    (if is_same a r amount then ok tt else err allocation_insufficient, d)

abbrev pub record_amount : World → AllocationInput → Option ℕ → Action Desk (Unit {0})
record_amount w r none d = (err allocation_insufficient, d)
record_amount w r (some amount) d =
    (raise_if (not w.wallet_exists) wallet_not_found
        >> (gets get_active_allocation >>= record_beside w r amount))
      d

unfoldable pub record_allocation : World → AllocationInput → Action Desk (Unit {0})
unfolding get_active_allocation
record_allocation w r = record_amount w r r.amount

abbrev pub record_dex_allocation : World → Option AllocationInput → Action Desk (Unit {0})
record_dex_allocation w none d = (err invalid_status_transition, d)
record_dex_allocation w (some r) d = (lift w.backup_confirmed >> record_allocation w r) d

abbrev pub fund_broker : World → Option AllocationInput → Action Desk (Unit {0})
fund_broker w none = lift w.preflight
fund_broker w (some r) = raise invalid_status_transition

-- What a transition to `live` needs.
abbrev pub fund : World → Option AllocationInput → Action Desk (Unit {0})
fund w r = if w.is_broker_bound then fund_broker w r else record_dex_allocation w r

abbrev pub is_mode : Status → Option Status → Bool
is_mode s none = false
is_mode s (some t) = status_eq t s

-- `_exit_monitor_mode`
unfoldable pub exit_monitor_mode : World → Option Status → Status → Option Status
exit_monitor_mode w mode current =
    let watches_paper = is_mode paper mode || status_eq current paper && w.is_stateless in
    let exposure = if watches_paper then w.has_paper_exposure else w.has_live_exposure in
    if (status_eq current live || is_mode live mode || watches_paper) && exposure
    then some (if watches_paper then paper else live)
    else none

abbrev pub is_running : Status → Bool
is_running s = status_eq s paper || status_eq s live

-- `register_job`: a job that is there stays when it raises.
abbrev pub register_job : World → Action Desk (Unit {0})
register_job w d =
    if w.scheduler_fails
    then (err scheduler_error, d)
    else (ok tt, record d { is_scheduled = true })

abbrev pub cancel_job : Option Status → Status → Desk → Desk
cancel_job row_mode current d =
    let e = record d { is_scheduled = false } in
    if status_eq current live || is_mode live row_mode then release_allocation e else e

-- The exit monitor is committed before its job is registered.
abbrev pub stop_monitor : World → Option Status → Option Status → Status → Action Desk (Unit {0})
stop_monitor w (some mode) row_mode current d = register_job w (record d { exit_only = some mode })
stop_monitor w none row_mode current d = (ok tt, cancel_job row_mode current d)

unfoldable pub apply_scheduler_effects :
    World → Option Status → Status → Status → Action Desk (Unit {0})
unfolding exit_monitor_mode release_allocation
apply_scheduler_effects w mode target current d =
    if is_running target
    then register_job w d
    else stop_monitor w (exit_monitor_mode w mode current) mode current d

-- `update`: no target is an unknown status.
pub record StatusUpdate : Type 0 where
  pub target : Option Status
  pub confirm : Bool
  pub allocation : Option AllocationInput

abbrev pub needs_confirm : Status → Status → Bool
needs_confirm current target =
    status_eq target live
    || status_eq current live && (status_eq target inactive || status_eq target archived)

-- The upstream call, and the compensation when it fails.
abbrev pub sync_upstream : World → Status → Option Allocation → Action Desk (Unit {0})
sync_upstream w target prior d =
    if w.upstream_fails
    then (
      err sdk_error,
      if status_eq target live && not (is_some prior) then release_allocation d else d,
    )
    else (ok tt, record d { upstream = target })

abbrev pub move_to : World → StatusUpdate → Status → Option Status → Status → Action Desk (Unit {0})
move_to w update current mode target = do
  raise_if (not (allows current target)) invalid_status_transition
  raise_if (status_eq target paper && is_mode live mode) invalid_status_transition
  raise_if (status_eq target paper && w.is_broker_bound) invalid_status_transition
  raise_if (status_eq target live && (is_mode paper mode || w.has_paper_exposure))
      invalid_status_transition
  raise_if (needs_confirm current target && not update.confirm) confirmation_required
  prior ← gets get_active_allocation
  (if status_eq target live then fund w update.allocation else pure tt)
  sync_upstream w target prior
  apply_scheduler_effects w mode target current
  modify (λ d. record d { status = target })

abbrev pub update_to : World → StatusUpdate → Option Status → Action Desk (Unit {0})
update_to w update none d = (err invalid_status_transition, d)
update_to w update (some target) d =
    if status_eq target d.status then (ok tt, d) else move_to w update d.status d.exit_only target d

unfoldable pub update_status : World → StatusUpdate → Action Desk (Unit {0})
unfolding allows get_active_allocation record_allocation apply_scheduler_effects release_allocation
update_status w update = update_to w update update.target
