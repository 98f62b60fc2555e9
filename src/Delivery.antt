-- ===== src/Delivery.antt =====
-- `close_delivery` of server/src/services/confirmed_execution.py: which closed positions an evaluation
-- reports. A time is a number, and `none` is a text that `utc` does not read.
pub mod Complete
mod Tests
use mangrove_agent.Prelude.Tables.{All-mono}
use mangrove_agent.Prelude.{
  ℕ, ◌≤◌, ◌≡◌, ◌⊎◌, inl, inr, refl, Bool, true, false, not, ◌&&◌, ◌||◌, Option, none, some, List,
  [], ◌∷◌, ltb, leb, ◌==◌, if◌then◌else◌, if_cases, any, All, arith,
}

pub record Close : Type 0 where
  pub position_id : ℕ
  pub booked_at : Option ℕ
  pub exit_timestamp : Option ℕ

-- What the state says of the deliveries; `closes_booked_through` and `last_close_seen_at` are `none`
-- when they are not there.
pub record RiskState : Type 0 where
  pub close_history_bootstrapped : Bool
  pub close_delivery_incomplete : Bool
  pub close_ingestion_failed : Bool
  pub closes_booked_through : Option (Option ℕ)
  pub last_close_seen_at : Option (Option ℕ)
  pub receipt_ids : List ℕ

abbrev pub is_receipted : RiskState → Close → Bool
is_receipted r p = any (λ i. i == p.position_id) r.receipt_ids

-- A comparison of two times, which raises when one is not read.
abbrev pub compare_times : (ℕ → ℕ → Bool) → Option ℕ → Option ℕ → Option Bool
compare_times f (some a) (some b) = some (f a b)
compare_times f (some a) none = none
compare_times f none b = none

abbrev pub or_raising : Option Bool → Option Bool → Option Bool
or_raising none rest = none
or_raising (some true) rest = some true
or_raising (some false) rest = rest

-- `any(...)` of tests that may raise.
abbrev pub any_raising : (Close → Option Bool) → List Close → Option Bool
any_raising f [] = some false
any_raising f (p ∷ ps) = or_raising (f p) (any_raising f ps)

abbrev pub keep_if : Close → Option Bool → Option (List Close) → Option (List Close)
keep_if p none rest = none
keep_if p (some b) none = none
keep_if p (some b) (some ps) = some (if b then p ∷ ps else ps)

-- A list of the items whose test, which may raise, holds.
abbrev pub filter_raising : (Close → Option Bool) → List Close → Option (List Close)
filter_raising f [] = some []
filter_raising f (p ∷ ps) = keep_if p (f p) (filter_raising f ps)

-- A test that is made only if the position has no receipt.
abbrev pub unless_receipted : RiskState → Close → Option Bool → Option Bool
unless_receipted r p test = if is_receipted r p then some false else test

-- `utc(a) <= utc(b)`, `utc(a) > utc(b)` and `utc(a) < utc(b)`
abbrev pub not_after : Option ℕ → Close → Option Bool
not_after cursor p = compare_times leb p.booked_at cursor

abbrev pub books_after : Option ℕ → Close → Option Bool
books_after cursor p = compare_times (λ a b. not (leb a b)) p.booked_at cursor

abbrev left_before : Option ℕ → Close → Option Bool
left_before watermark p = compare_times ltb p.exit_timestamp watermark

-- An old close without a receipt is below the cursor.
abbrev pub missed : RiskState → Option ℕ → List Close → Option Bool
missed r cursor closes = any_raising (λ p. unless_receipted r p (not_after cursor p)) closes

abbrev pub out_of_order : RiskState → Option (Option ℕ) → List Close → Option Bool
out_of_order r none selected = some false
out_of_order r (some watermark) selected =
    any_raising (λ p. unless_receipted r p (left_before watermark p)) selected

abbrev pub decide : List Close → List Close → Option Bool → List Close × Bool
decide closes selected none = (closes, true)
decide closes selected (some true) = (closes, true)
decide closes selected (some false) = (selected, false)

abbrev pub deliver_selected : RiskState → List Close → Option (List Close) → List Close × Bool
deliver_selected r closes none = (closes, true)
deliver_selected r closes (some selected) =
    decide closes selected (out_of_order r r.last_close_seen_at selected)

abbrev pub deliver_checked : RiskState → Option ℕ → List Close → Option Bool → List Close × Bool
deliver_checked r cursor closes none = (closes, true)
deliver_checked r cursor closes (some true) = (closes, true)
deliver_checked r cursor closes (some false) =
    deliver_selected r closes (filter_raising (books_after cursor) closes)

abbrev pub deliver_from : RiskState → List Close → Option (Option ℕ) → List Close × Bool
deliver_from r closes none = (closes, true)
deliver_from r closes (some cursor) = deliver_checked r cursor closes (missed r cursor closes)

abbrev pub starts_again : RiskState → Bool
starts_again r =
    not r.close_history_bootstrapped || r.close_delivery_incomplete || r.close_ingestion_failed

-- `close_delivery`: the closes to report, and whether they are the whole history.
unfoldable pub close_delivery : RiskState → List Close → Bool → List Close × Bool
close_delivery r closes complete =
    if not complete
    then ([], false)
    else if starts_again r
    then (closes, true)
    else deliver_from r closes r.closes_booked_through
