-- ===== src/Dex/Execute/Recorded.antt =====
-- What the row of an order says while `execute` of server/src/services/dex_confirmed.py runs, and the
-- writes and broadcasts that keep it.
use mangrove_agent.Prelude.{
  ℕ, ◌≡◌, ◌⊎◌, inl, inr, refl, Bool, true, false, Option, none, some, List, [], ◌∷◌, if◌then◌else◌,
  All, sym, subst, arith,
}
use mangrove_agent.Prelude.Tables.{All-mono}
use mangrove_agent.Flow.{Result, ok, err, sdk_error, lift_bind_elim, Ends, Ends-lift, Ends-bind}
use mangrove_agent.Wallet.Swap.{validate_sign_target}
use mangrove_agent.Dex.{
  DexStatus, submitting, pending, uncertain, confirmed, fee_only, failed, Context, DexOrder,
  updated, Seen, authorize_entry, new_status,
}
use mangrove_agent.Dex.Execute.{
  Prepared, Answers, Run, Broadcast, Settled, not_settled, as_confirmed, as_fee_only, check_payload,
  save, attempt, broadcast_signed, broadcast_of, plain_swap, settle_status, send_swap,
}

abbrev recorded_hash : Bool → DexOrder → Option ℕ
recorded_hash true o = o.context.approval_tx_hash
recorded_hash false o = o.tx_hash

-- A broadcast that the row names, as it did when it was sent, of a transaction that the guard lets
-- through, and that was authorized as an entry must be.
pub record IsRecorded (o : DexOrder) (b : Broadcast) : Type 0 where
  pub is_recorded : recorded_hash b.is_approval o ≡ some b.hash
  pub was_recorded : recorded_hash b.is_approval b.row ≡ some b.hash
  pub passes_guard : validate_sign_target b.transaction ≡ ok tt
  pub was_authorized : authorize_entry o.intent.action o.context.expected_revision b.seen ≡ ok tt

abbrev pub is_dead : DexStatus → Bool
is_dead failed = true
is_dead submitting = false
is_dead pending = false
is_dead uncertain = false
is_dead confirmed = false
is_dead fee_only = false

-- The row of a run that is not over.
pub record IsOpen (r : Run) : Type 0 where
  pub recorded : All (IsRecorded r.order) r.broadcasts
  pub noticed : (r.attempted ≡ true) ⊎ (r.broadcasts ≡ [])
  pub alive : is_dead r.order.status ≡ false

-- Nothing has been sent.
pub record IsFresh (r : Run) : Type 0 where
  pub unsent : r.broadcasts ≡ []
  pub alive : is_dead r.order.status ≡ false

-- No swap has been sent.
pub record IsApproved (r : Run) : Type 0 where
  pub is_open : IsOpen r
  pub approvals : All (λ b. b.is_approval ≡ true) r.broadcasts

pub IsFresh-IsOpen : (r : Run) → IsFresh r → IsOpen r
IsFresh-IsOpen r h = record {
  recorded = subst (All (IsRecorded r.order)) (sym h.unsent) tt;
  noticed = inr h.unsent;
  alive = h.alive;
}

pub IsFresh-IsApproved : (r : Run) → IsFresh r → IsApproved r
IsFresh-IsApproved r h = record {
  is_open = IsFresh-IsOpen r h;
  approvals = subst (All (λ b. b.is_approval ≡ true)) (sym h.unsent) tt;
}

abbrev pub Checked : Prepared → Type 0
Checked p = validate_sign_target p.transaction ≡ ok tt

pub check_payload-Checked : (p : Prepared) → check_payload p ≡ ok tt → Checked p
check_payload-Checked p h = go p.has_value h
  where
    go :
        (b : Bool)
        → (if b then err sdk_error else validate_sign_target p.transaction) ≡ ok tt
        → Checked p
    go true e = ground (arith, e)
    go false e = e

-- A broadcast stays recorded while its hash, the action and the expected revision stay.
IsRecorded-updated :
    (f : Context → Context) (s : Option DexStatus) (tx_hash : Option ℕ) (o : DexOrder)
    (b : Broadcast)
    → (f o.context).expected_revision ≡ o.context.expected_revision
    → recorded_hash b.is_approval (updated f s tx_hash o) ≡ recorded_hash b.is_approval o
    → IsRecorded o b
    → IsRecorded (updated f s tx_hash o) b
IsRecorded-updated f s tx_hash o b same kept h = record {
  is_recorded = rw kept h.is_recorded;
  was_recorded = h.was_recorded;
  passes_guard = h.passes_guard;
  was_authorized = rw same h.was_authorized;
}

recorded_hash-plain_swap :
    (o : DexOrder) (is_approval : Bool)
    → recorded_hash is_approval (updated plain_swap none none o) ≡ recorded_hash is_approval o
recorded_hash-plain_swap o true = refl
recorded_hash-plain_swap o false = refl

recorded_hash-status :
    (s : Option DexStatus) (o : DexOrder) (is_approval : Bool)
    → recorded_hash is_approval (updated (λ c. c) s none o) ≡ recorded_hash is_approval o
recorded_hash-status s o true = refl
recorded_hash-status s o false = refl

abbrev sets_failed : Option DexStatus → Bool
sets_failed none = false
sets_failed (some s) = is_dead s

-- A status that is not `failed` leaves the row alive.
alive-new_status :
    (old : DexStatus) (s : Option DexStatus)
    → is_dead old ≡ false
    → sets_failed s ≡ false
    → is_dead (new_status old s) ≡ false
alive-new_status confirmed s e h = refl
alive-new_status submitting (some x) e h = h
alive-new_status pending (some x) e h = h
alive-new_status uncertain (some x) e h = h
alive-new_status fee_only (some x) e h = h
alive-new_status failed (some x) e h = h
alive-new_status submitting none e h = e
alive-new_status pending none e h = e
alive-new_status uncertain none e h = e
alive-new_status fee_only none e h = e
alive-new_status failed none e h = e

-- Whatever the row says of its context, a fresh run stays fresh.
pub save-IsFresh : (f : Context → Context) (r : Run) → IsFresh r → IsFresh (save f none none r).1
save-IsFresh f r h = record {
  unsent = h.unsent;
  alive = alive-new_status r.order.status none h.alive refl;
}

pub save_plain-IsApproved : (r : Run) → IsApproved r → IsApproved (save plain_swap none none r).1
save_plain-IsApproved r h = record {
  is_open = record {
    recorded =
        All-mono (IsRecorded r.order) (IsRecorded (updated plain_swap none none r.order))
          r.broadcasts
          (λ b.
            IsRecorded-updated plain_swap none none r.order b refl
              (recorded_hash-plain_swap r.order b.is_approval))
          h.is_open.recorded;
    noticed = h.is_open.noticed;
    alive = alive-new_status r.order.status none h.is_open.alive refl;
  };
  approvals = h.approvals;
}

-- A new status, of a run whose hashes stay.
pub save_status-IsOpen :
    (s : Option DexStatus) (r : Run)
    → sets_failed s ≡ false
    → IsOpen r
    → IsOpen (save (λ c. c) s none r).1
save_status-IsOpen s r keeps h = record {
  recorded =
      All-mono (IsRecorded r.order) (IsRecorded (updated (λ c. c) s none r.order)) r.broadcasts
        (λ b.
          IsRecorded-updated (λ c. c) s none r.order b refl
            (recorded_hash-status s r.order b.is_approval))
        h.recorded;
  noticed = h.noticed;
  alive = alive-new_status r.order.status s h.alive keeps;
}

-- What holds before a broadcast, and after it once it is authorized.
pub broadcast_signed_elim :
    (P : Run → Type 0) (is_approval : Bool) (hash : ℕ) (p : Prepared) (seen : Seen)
    (sent : Result (Unit {0})) (r : Run)
    → P r
    → (authorize_entry r.order.intent.action r.order.context.expected_revision seen ≡ ok tt
        → P (attempt is_approval hash p seen r).1)
    → Ends P (λ u. P) (broadcast_signed is_approval hash p seen sent r)
broadcast_signed_elim P is_approval hash p seen sent r h sends =
    lift_bind_elim (Ends P (λ u. P))
      (authorize_entry r.order.intent.action r.order.context.expected_revision seen) _ r (λ e. h)
      (λ u e. Ends-lift P (λ u. P) sent _ (sends e) (λ v s. sends e))

-- An authorized broadcast of a transaction that may be signed and whose hash the row has.
pub attempt-IsOpen :
    (is_approval : Bool) (hash : ℕ) (p : Prepared) (seen : Seen) (r : Run)
    → IsRecorded r.order (broadcast_of is_approval hash p seen r.order)
    → IsOpen r
    → IsOpen (attempt is_approval hash p seen r).1
attempt-IsOpen is_approval hash p seen r named h = record {
  recorded = (named, h.recorded);
  noticed = inl refl;
  alive = h.alive;
}

-- The hash of the swap, of a run whose broadcasts are approvals.
save_hash-IsOpen :
    (hash : ℕ) (r : Run) → IsApproved r → IsOpen (save (λ c. c) (some pending) (some hash) r).1
save_hash-IsOpen hash r h = record {
  recorded = go r.broadcasts h.is_open.recorded h.approvals;
  noticed = h.is_open.noticed;
  alive = alive-new_status r.order.status (some pending) h.is_open.alive refl;
}
  where
    o : DexOrder
    o = updated (λ c. c) (some pending) (some hash) r.order

    go :
        (bs : List Broadcast)
        → All (IsRecorded r.order) bs
        → All (λ b. b.is_approval ≡ true) bs
        → All (IsRecorded o) bs
    go [] recorded approvals = tt
    go (b ∷ bs) recorded approvals = (
      IsRecorded-updated (λ c. c) (some pending) (some hash) r.order b refl (rw approvals.0)
          recorded.0,
      go bs recorded.1 approvals.1,
    )

settle_status-alive : (x : Settled) → sets_failed (settle_status x) ≡ false
settle_status-alive not_settled = refl
settle_status-alive as_confirmed = refl
settle_status-alive as_fee_only = refl

pub send_swap-IsOpen :
    (w : Answers) (swap : Prepared) (r : Run)
    → Checked swap
    → IsApproved r
    → Ends IsOpen (λ u. IsOpen) (send_swap w swap r)
send_swap-IsOpen w swap r checked h =
    lift_bind_elim (Ends IsOpen (λ u. IsOpen))
      (authorize_entry r.order.intent.action r.order.context.expected_revision w.seen_to_sign) _ r
      (λ e. h.is_open)
      (λ u e.
        lift_bind_elim (Ends IsOpen (λ u. IsOpen)) w.signed _ r (λ e. h.is_open)
          (λ hash e.
            let pending_run = (save (λ c. c) (some pending) (some hash) r).1 in
            let opened = save_hash-IsOpen hash r h in
            Ends-bind IsOpen (λ u. IsOpen) (λ u. IsOpen) _ _
              (broadcast_signed_elim IsOpen false hash swap w.seen_to_send w.sent pending_run opened
                (λ allowed.
                  attempt-IsOpen false hash swap w.seen_to_send pending_run
                    (record {
                      is_recorded = refl;
                      was_recorded = refl;
                      passes_guard = checked;
                      was_authorized = allowed;
                    })
                    opened))
              (λ u s o.
                Ends-lift IsOpen (λ u. IsOpen) w.reconciled
                  (save (λ c. c) (settle_status w.settled) none s).1
                  (save_status-IsOpen (settle_status w.settled) s (settle_status-alive w.settled) o)
                  (λ v e.
                    save_status-IsOpen (settle_status w.settled) s (settle_status-alive w.settled)
                      o))))
