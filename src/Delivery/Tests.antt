-- ===== src/Delivery/Tests.antt =====
-- Three closed positions, of which the server has acknowledged the first.
use mangrove_agent.Prelude.{◌≡◌, refl, true, false, some, List, [], ◌∷◌, All}
use mangrove_agent.Delivery.{Close, RiskState, close_delivery}
use mangrove_agent.Delivery.Complete.{Delivers, close_delivery-Delivers}

abbrev first_close : Close
first_close = record { position_id = 1; booked_at = some 10; exit_timestamp = some 10 }

abbrev second_close : Close
second_close = record { position_id = 2; booked_at = some 20; exit_timestamp = some 19 }

abbrev third_close : Close
third_close = record { position_id = 3; booked_at = some 30; exit_timestamp = some 30 }

abbrev closes : List Close
closes = first_close ∷ second_close ∷ third_close ∷ []

abbrev state : RiskState
state = record {
  close_history_bootstrapped = true;
  close_delivery_incomplete = false;
  close_ingestion_failed = false;
  closes_booked_through = some (some 10);
  last_close_seen_at = some (some 10);
  receipt_ids = 1 ∷ [];
}

sends_later : close_delivery state closes true ≡ (second_close ∷ third_close ∷ [], false)
unfolding close_delivery
sends_later = refl

-- A close below the cursor has no receipt: the whole history is sent.
sends_all :
    close_delivery (record state { closes_booked_through = some (some 20) }) closes true
    ≡ (closes, true)
unfolding close_delivery
sends_all = refl

sends_nothing : close_delivery state closes false ≡ ([], false)
unfolding close_delivery
sends_nothing = refl

close_delivery-Delivers_example : All (Delivers state (close_delivery state closes true).0) closes
close_delivery-Delivers_example = close_delivery-Delivers state closes
