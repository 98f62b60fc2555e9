-- ===== src/Dex/Execute/Tests.antt =====
-- A purchase that needs an approval first, and one that is not approved.
use mangrove_agent.Prelude.{◌≡◌, refl, true, false, none, some, length}
use mangrove_agent.Prelude.Int.{pos}
use mangrove_agent.Prelude.Text.{codes}
use mangrove_agent.Flow.{ok, err, sdk_error}
use mangrove_agent.Strategy.{live}
use mangrove_agent.Broker.{buy, enter, engine_order, StrategyRow}
use mangrove_agent.Wallet.Swap.{Transaction, is_oneinch_router, extract_approve_spender}
use mangrove_agent.Dex.{DexOrder, submitting, confirmed, uncertain, failed, Seen}
use mangrove_agent.Dex.Execute.{Answers, as_confirmed, not_settled, execute}
use mangrove_agent.Dex.Execute.Durable.{IsDurable, execute-IsDurable}

abbrev approval : Transaction
approval = record {
  type = some 2;
  has_authorization_list = false;
  to = some (codes "0x833589fcd6edb6e08f4c7c32d4f71b54bda02913");
  data_text =
      some (codes "0x095ea7b3000000000000000000000000111111125421ca6dc452d289314280a0f8842a65ffff");
}

abbrev swap : Transaction
swap = record {
  type = some 2;
  has_authorization_list = false;
  to = some (codes "0x111111125421ca6dc452d289314280a0f8842a65");
  data_text = some (codes "0x07ed2379");
}

abbrev row : StrategyRow
row = record { id = 1; status = live; exit_only = none; execution_revision = 3; book_revision = 0 }

abbrev seen : Seen
seen = record { row = row; portfolio_allows = true }

-- The strategy was confirmed anew.
abbrev seen_changed : Seen
seen_changed = record { row = record row { execution_revision = 4 }; portfolio_allows = true }

abbrev order : DexOrder
order = record {
  id = 9;
  strategy_id = 1;
  intent_key = record { root = engine_order 6; sold = none };
  intent = record {
    action = enter;
    side = buy;
    symbol = codes "ETH";
    amount = 10;
    engine_position_id = some 5;
    engine_order_id = some 6;
  };
  context = record {
    expected_revision = some (3, 0);
    approval_required = false;
    approval_tx_hash = none;
    has_no_native_value = false;
    no_broadcast_confirmed = false;
    financial_complete = false;
  };
  status = submitting;
  tx_hash = none;
}

abbrev world : Answers
world = record {
  slippage = some (pos 2_000_000_000_000_000);
  max_input_amount = some 20;
  backup_confirmed = ok tt;
  receipts_available = ok tt;
  resolved = ok (record { amount = 10; touches_native = false });
  quoted = ok (record { has_value = false; transaction = swap });
  approval = ok (some (record { has_value = false; transaction = approval }));
  seen_to_sign_approval = seen;
  approval_signed = ok 70;
  seen_to_send_approval = seen;
  approval_sent = ok tt;
  approval_polled = ok true;
  refreshed = ok (record { has_value = false; transaction = swap });
  seen_to_sign = seen;
  signed = ok 71;
  seen_to_send = seen;
  sent = ok tt;
  settled = as_confirmed;
  reconciled = ok tt;
}

settles : (execute world order).1.order.status ≡ confirmed
unfolding execute is_oneinch_router extract_approve_spender
settles = refl

both_sent : length (execute world order).1.broadcasts ≡ 2
unfolding execute is_oneinch_router extract_approve_spender
both_sent = refl

-- The broadcast is lost: its outcome is not known.
is_uncertain :
    (execute (record world { sent = err sdk_error; settled = not_settled }) order).1.order.status
    ≡ uncertain
unfolding execute is_oneinch_router extract_approve_spender
is_uncertain = refl

-- The confirmation changes before the approval is signed.
is_failed_unsent :
    (execute (record world { seen_to_sign_approval = seen_changed }) order).1.order.status ≡ failed
unfolding execute is_oneinch_router extract_approve_spender
is_failed_unsent = refl

-- Between the approval and the swap, the confirmation changes: only the approval is sent.
approval_sent_only :
    length (execute (record world { seen_to_sign = seen_changed }) order).1.broadcasts ≡ 1
unfolding execute is_oneinch_router extract_approve_spender
approval_sent_only = refl

execute-IsDurable_example : IsDurable (execute world order).1
execute-IsDurable_example = execute-IsDurable world order refl
