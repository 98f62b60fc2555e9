-- ===== src/Dex/Execute/Durable.antt =====
-- What the row of an order says of what was signed and sent for it: `execute` of
-- server/src/services/dex_confirmed.py.
use mangrove_agent.Prelude.{
  ℕ, ◌≡◌, ◌⊎◌, inl, inr, refl, Bool, true, false, not, Option, none, some, [], if◌then◌else◌, All,
  sym, subst, arith,
}
use mangrove_agent.Flow.{
  Result, ok, err, sdk_error, raise_if_elim, lift_bind_elim, lift_elim, Ends, Ends-bind,
  Ends-weaken,
}
use mangrove_agent.Broker.{IntentAction}
use mangrove_agent.Dex.{submitting, uncertain, failed, DexOrder, updated, authorize_entry}
use mangrove_agent.Dex.Execute.{
  Prepared, Answers, Run, validate_slippage, check_payload, exceeds_cash, save, broadcast_signed,
  refresh, plain_swap, start_context, approval_context, approve, prepare, execute_steps, on_error,
  execute,
}
use mangrove_agent.Dex.Execute.Recorded.{
  IsRecorded, is_dead, IsOpen, IsFresh, IsApproved, IsFresh-IsOpen, IsFresh-IsApproved, Checked,
  check_payload-Checked, save-IsFresh, save_plain-IsApproved, save_status-IsOpen,
  broadcast_signed_elim, attempt-IsOpen, send_swap-IsOpen,
}

-- What is prepared before any approval.
abbrev Ready : (Run → Type 0) → Prepared → Run → Type 0
Ready P p r = P r × Checked p

prepare-Ready :
    (w : Answers) (action : IntentAction) (r : Run)
    → IsFresh r
    → Ends IsFresh (Ready IsFresh) (prepare w action r)
prepare-Ready w action r h =
    lift_elim Q (validate_slippage w.slippage) _ r (λ e. h)
      (lift_elim Q w.backup_confirmed _ r (λ e. h)
        (lift_elim Q w.receipts_available _ r (λ e. h)
          (lift_bind_elim Q w.resolved _ r (λ e. h)
            (λ resolved e. raise_if_elim Q resolved.touches_native sdk_error _ r h (λ e.
              raise_if_elim Q (exceeds_cash action w.max_input_amount resolved.amount) sdk_error _ r
                h
                (λ e.
                  lift_bind_elim Q w.quoted _ started (λ e. fresh)
                    (λ swap e.
                      lift_bind_elim Q (check_payload swap) _ started (λ e. fresh)
                        (λ u e. (fresh, check_payload-Checked swap e)))))))))
  where
    Q : Result Prepared × Run → Type 0
    Q = Ends IsFresh (Ready IsFresh)

    started : Run
    started = (save start_context none none r).1

    fresh : IsFresh started
    fresh = save-IsFresh start_context r h

refresh-Ready :
    (w : Answers) (r : Run) → IsApproved r → Ends IsApproved (Ready IsApproved) (refresh w r)
refresh-Ready w r h =
    lift_bind_elim Q w.approval_polled _ r (λ e. h)
      (λ polled e. raise_if_elim Q (not polled) sdk_error _ r h (λ e.
        lift_bind_elim Q w.refreshed _ r (λ e. h)
          (λ swap e.
            lift_bind_elim Q (check_payload swap) _ r (λ e. h)
              (λ u e. (save_plain-IsApproved r h, check_payload-Checked swap e)))))
  where
    Q : Result Prepared × Run → Type 0
    Q = Ends IsApproved (Ready IsApproved)

-- The approval and what follows it, of a fresh run.
approve-Ready :
    (w : Answers) (swap : Prepared) (approval : Option Prepared) (r : Run)
    → Checked swap
    → IsFresh r
    → Ends IsApproved (Ready IsApproved) (approve w swap approval r)
approve-Ready w swap none r checked h =
    (IsFresh-IsApproved (save plain_swap none none r).1 (save-IsFresh plain_swap r h), checked)
approve-Ready w swap (some p) r checked h =
    lift_bind_elim Q (check_payload p) _ r (λ e. IsFresh-IsApproved r h)
      (λ u checks.
        lift_bind_elim Q
          (authorize_entry r.order.intent.action r.order.context.expected_revision
            w.seen_to_sign_approval)
          _ noted (λ e. IsFresh-IsApproved noted fresh)
          (λ u e.
            lift_bind_elim Q w.approval_signed _ noted (λ e. IsFresh-IsApproved noted fresh)
              (λ hash e.
                Ends-bind IsApproved (λ u. IsApproved) (Ready IsApproved) _ _
                  (approval_sent hash (check_payload-Checked p checks)) (λ u. refresh-Ready w))))
  where
    Q : Result Prepared × Run → Type 0
    Q = Ends IsApproved (Ready IsApproved)

    noted : Run
    noted = (save approval_context none none r).1

    fresh : IsFresh noted
    fresh = save-IsFresh approval_context r h

    signed : ℕ → Run
    signed hash = (save (λ c. record c { approval_tx_hash = some hash }) none none noted).1

    approval_sent :
        (hash : ℕ)
        → Checked p
        → Ends IsApproved
            (λ u. IsApproved)
            (broadcast_signed true hash p w.seen_to_send_approval w.approval_sent (signed hash))
    approval_sent hash permitted =
        let before =
          IsFresh-IsApproved (signed hash)
            (save-IsFresh (λ c. record c { approval_tx_hash = some hash }) noted fresh) in
        broadcast_signed_elim IsApproved true hash p w.seen_to_send_approval w.approval_sent
          (signed hash) before
          (λ allowed. record {
            is_open =
                attempt-IsOpen true hash p w.seen_to_send_approval (signed hash)
                  (record {
                    is_recorded = refl;
                    was_recorded = refl;
                    passes_guard = permitted;
                    was_authorized = allowed;
                  })
                  before.is_open;
            approvals = (refl, before.approvals);
          })

execute_steps-IsOpen :
    (w : Answers) (action : IntentAction) (r : Run)
    → IsFresh r
    → Ends IsOpen (λ u. IsOpen) (execute_steps w action r)
execute_steps-IsOpen w action r h =
    Ends-bind IsOpen (Ready IsFresh) (λ u. IsOpen) (prepare w action r) _
      (Ends-weaken IsFresh IsOpen (Ready IsFresh) _ IsFresh-IsOpen (prepare-Ready w action r h))
      (λ swap s fresh.
        lift_bind_elim (Ends IsOpen (λ u. IsOpen)) w.approval _ s (λ e. IsFresh-IsOpen s fresh.0)
          (λ approval e.
            Ends-bind IsOpen (Ready IsApproved) (λ u. IsOpen) (approve w swap approval s) _
              (Ends-weaken IsApproved IsOpen (Ready IsApproved) _ (λ t o. o.is_open)
                (approve-Ready w swap approval s fresh.1 fresh.0))
              (λ ready t approved. send_swap-IsOpen w ready t approved.1 approved.0)))

-- The row after a call: it names every broadcast, and an order is failed only when nothing was sent
-- for it.
pub record IsDurable (r : Run) : Type 0 where
  pub recorded : All (IsRecorded r.order) r.broadcasts
  pub failed_unsent : (is_dead r.order.status ≡ false) ⊎ (r.broadcasts ≡ [])

on_error-IsDurable :
    (m : Result (Unit {0}) × Run) → Ends IsOpen (λ u. IsOpen) m → IsDurable (on_error m).1
on_error-IsDurable (ok u, r) h = record { recorded = h.recorded; failed_unsent = inl h.alive }
on_error-IsDurable (err e, r) h = go r.attempted refl
  where
    unsent : r.attempted ≡ false → (r.attempted ≡ true) ⊎ (r.broadcasts ≡ []) → r.broadcasts ≡ []
    unsent e (inl sent) = ground (arith, e, sent)
    unsent e (inr none_sent) = none_sent

    go :
        (b : Bool)
        → r.attempted ≡ b
        → IsDurable (
            if b
            then record r { order = updated (λ c. c) (some uncertain) none r.order }
            else record r {
              order =
                  updated
                    (λ c. record c { no_broadcast_confirmed = true })
                    (some failed)
                    none
                    r.order;
            })
    go true e =
        let o = save_status-IsOpen (some uncertain) r refl h in
        record { recorded = o.recorded; failed_unsent = inl o.alive }
    go false e =
        let none_sent = unsent e h.noticed in
        record {
          recorded = subst (All (IsRecorded _)) (sym none_sent) tt;
          failed_unsent = inr none_sent;
        }

-- Whatever the collaborators answer, every transaction that `execute` hands over for broadcast is one
-- that the signing guard lets through and that was authorized just before, and its hash is in the row
-- of the order; the order is failed only when nothing was handed over.
pub execute-IsDurable :
    (w : Answers) (o : DexOrder) → o.status ≡ submitting → IsDurable (execute w o).1
unfolding execute
execute-IsDurable w o h = on_error-IsDurable _ (
    execute_steps-IsOpen w o.intent.action
      (record { order = o; attempted = false; broadcasts = [] })
      (record { unsent = refl; alive = rw h refl }))
