-- ===== src/Strategy/Tests.antt =====
-- A paper strategy that goes live, with a wallet and against an upstream service that fails.
use mangrove_agent.Prelude.{◌≡◌, ◌⊎◌, refl, true, false, none, some, [], is_some}
use mangrove_agent.Prelude.Text.{codes}
use mangrove_agent.Flow.{ok, err, sdk_error, scheduler_error}
use mangrove_agent.Strategy.{
  Desk, World, AllocationInput, StatusUpdate, inactive, paper, live, status_eq,
  get_active_allocation, update_status,
}
use mangrove_agent.Strategy.Lifecycle.{Ends, update_status-Ends}
use mangrove_agent.Strategy.Confirmed.{update_status_unconfirmed}
use mangrove_agent.Strategy.Funding.{IsUnscheduled, update_status_raised, update_status_funded}

abbrev pub paper_desk : Desk
paper_desk = record {
  status = paper;
  exit_only = none;
  allocations = [];
  capital = none;
  execution_state = some 4;
  execution_revision = 2;
  upstream = paper;
  is_scheduled = true;
}

abbrev pub wallet_world : World
wallet_world = record {
  is_broker_bound = false;
  preflight = ok tt;
  has_live_exposure = false;
  has_paper_exposure = false;
  is_stateless = true;
  backup_confirmed = ok tt;
  wallet_exists = true;
  has_history = false;
  upstream_fails = false;
  scheduler_fails = false;
  uuid = 7;
}

abbrev failing_world : World
failing_world = record wallet_world { upstream_fails = true }

abbrev block : AllocationInput
block = record {
  wallet_address = codes "0xAb";
  token_address = codes "0xUSDC";
  amount = some 50;
  slippage = some 3;
}

abbrev go_live : StatusUpdate
go_live = record { target = some live; confirm = true; allocation = some block }

abbrev live_desk : Desk
live_desk = (update_status wallet_world go_live paper_desk).1

abbrev failed_desk : Desk
failed_desk = (update_status failing_world go_live paper_desk).1

live_status : live_desk.status ≡ live
unfolding update_status
live_status = refl

failed_status : failed_desk.status ≡ paper
unfolding update_status
failed_status = refl

-- The budget that the failed move recorded stays.
failed_capital : is_some failed_desk.capital ≡ true
unfolding update_status
failed_capital = refl

update_status-Ends_example :
    Ends wallet_world paper_desk (update_status wallet_world go_live paper_desk)
update_status-Ends_example = update_status-Ends wallet_world go_live paper_desk

-- A scheduler that refuses the job leaves the upstream service live and the allocation active.
abbrev unscheduled_world : World
unscheduled_world = record wallet_world { scheduler_fails = true }

unscheduled_raises : (update_status unscheduled_world go_live paper_desk).0 ≡ err scheduler_error
unfolding update_status
unscheduled_raises = refl

abbrev unscheduled_desk : Desk
unscheduled_desk = (update_status unscheduled_world go_live paper_desk).1

unscheduled_leaves :
    (unscheduled_desk.status ≡ paper)
    × (unscheduled_desk.upstream ≡ live)
    × (is_some (get_active_allocation unscheduled_desk) ≡ true)
unfolding update_status
unscheduled_leaves = (refl, refl, refl)

update_status_raised_example :
    (get_active_allocation failed_desk ≡ none)
    ⊎ (some live ≡ some live) × IsUnscheduled failing_world true sdk_error failed_desk
unfolding update_status
update_status_raised_example =
    update_status_raised failing_world go_live paper_desk failed_desk sdk_error refl refl

update_status_funded_example : is_some (get_active_allocation live_desk) ≡ true
unfolding update_status
update_status_funded_example =
    update_status_funded wallet_world go_live paper_desk live_desk refl refl refl refl refl

abbrev pause : StatusUpdate
pause = record { target = some inactive; confirm = false; allocation = none }

abbrev paused_desk : Desk
paused_desk = (update_status wallet_world pause paper_desk).1

paused_status : paused_desk.status ≡ inactive
unfolding update_status
paused_status = refl

update_status_unconfirmed_example : status_eq paused_desk.status live ≡ status_eq paper live
unfolding update_status
update_status_unconfirmed_example =
    update_status_unconfirmed wallet_world pause paper_desk paused_desk refl refl
