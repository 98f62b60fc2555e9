-- ===== src/Ledger/Operations/Begin/Retries.antt =====
-- Retries and concurrent starts of one request: `begin` and `complete` of
-- server/src/services/payment_operations.py together.
use mangrove_agent.Prelude.{
  ℕ, suc, ◌≡◌, inl, inr, refl, sym, ap, subst, ==_refl, ◌∙◌, Bool, true, false, Option, none, some,
  List, [], ◌∷◌, ◌++◌, arith, ◌==◌, Bool-cases, Option-cases, any,
}
use mangrove_agent.Prelude.Tables.{select_where, find_where-update, find_where-holds}
use mangrove_agent.Flow.{ok, commit, bind_result, modify, ◌>>◌}
use mangrove_agent.Ledger.{Operation, is_pending, Db}
use mangrove_agent.Ledger.Unsigned.{find_operation}
use mangrove_agent.Ledger.Operations.{
  Outcome, complete_operation, is_pending_id, is_failed, watch_headers, finish,
  watch_failed_operation,
}
use mangrove_agent.Ledger.Operations.Begin.{
  Begun, absent, identity, begin, begin_locked, recover_pending, recover_row, pending_of,
  resolve_identity, limited, follow, next_of, follow_row, find_recovery, find_pending, earliest,
  is_pending_digest, insert_operation, new_operation, known,
}

select_where-snoc :
    (c : Operation → Bool) (os : List Operation) (o : Operation)
    → select_where c os ≡ []
    → c o ≡ true
    → select_where c (os ++ o ∷ []) ≡ o ∷ []
unfolding select_where
select_where-snoc c [] o h k = rw k refl
select_where-snoc c (p ∷ os) o h k = ground (arith, select_where-snoc c os o)

earliest-nil : (os : List Operation) → earliest os ≡ none → os ≡ []
unfolding earliest
earliest-nil [] h = refl
earliest-nil (o ∷ os) h = ground arith

-- The operation that was inserted is the pending one.
find_pending-inserted :
    (now uuid digest : ℕ) (d : Db)
    → find_pending digest d ≡ none
    → earliest (
        select_where
          (is_pending_digest digest)
          (d.operations ++ new_operation now uuid digest ∷ []))
      ≡ some (new_operation now uuid digest)
unfolding find_pending
find_pending-inserted now uuid digest d h =
    rw
      (select_where-snoc (is_pending_digest digest) d.operations (new_operation now uuid digest)
        (earliest-nil (select_where (is_pending_digest digest) d.operations) h) (ground arith))
      refl

begin_locked-pending :
    (now uuid digest : ℕ) (d : Db) (o : Operation)
    → find_pending digest d ≡ some o
    → begin_locked now uuid digest none d ≡ (ok (record { operation = o; created = false }), d)
unfolding begin_locked follow_row
begin_locked-pending now uuid digest d o h = rw h refl

inserted :
    (now uuid digest : ℕ) (d e : Db) (b : Begun)
    → find_pending digest d ≡ none
    → commit d (insert_operation now uuid digest d) ≡ (ok b, e)
    → find_pending digest e ≡ some b.operation
unfolding insert_operation find_pending
inserted now uuid digest d e b h k =
    elim (Bool-cases (any (λ (o : Operation). o.id == uuid) d.operations)) [
      | inl taken ↦ ground arith
      | inr fresh ↦ ground (arith, find_pending-inserted now uuid digest d h)
    ]

-- The start of a request without an identity: the recovery of what is pending, and the transaction.
begin_absent :
    (now uuid digest : ℕ) (recover : ℕ → Db → Db) (d : Db)
    → begin now uuid recover digest absent d
      ≡ begin_locked now uuid digest none (recover_row recover (find_pending digest d) d)
unfolding begin recover_pending resolve_identity
begin_absent now uuid digest recover d = refl

find_pending_by_rows :
    (digest : ℕ) (d e : Db)
    → d.operations ≡ e.operations
    → find_pending digest d ≡ find_pending digest e
unfolding find_pending
find_pending_by_rows digest d e h =
    ap (λ os. earliest (select_where (is_pending_digest digest) os)) h

begin_pending :
    (now uuid digest : ℕ) (recover : ℕ → Db → Db) (d : Db) (o : Operation)
    → find_pending digest d ≡ some o
    → (recover o.id d).operations ≡ d.operations
    → begin now uuid recover digest absent d
      ≡ (ok (record { operation = o; created = false }), recover o.id d)
begin_pending now uuid digest recover d o h same =
    begin_absent now uuid digest recover d
    ∙ ap (λ p. begin_locked now uuid digest none (recover_row recover p d)) h
    ∙ begin_locked-pending now uuid digest (recover o.id d) o (kept ∙ h)
  where
    kept : find_pending digest (recover o.id d) ≡ find_pending digest d
    kept = find_pending_by_rows digest (recover o.id d) d same

-- What a start of a request without an identity returns is the pending operation.
begin_locked-find_pending :
    (now uuid digest : ℕ) (d e : Db) (b : Begun)
    → begin_locked now uuid digest none d ≡ (ok b, e)
    → find_pending digest e ≡ some b.operation
unfolding begin_locked follow_row
begin_locked-find_pending now uuid digest d e b h = elim (Option-cases (find_pending digest d)) [
  | inr (o, k) ↦ ground (arith, begin_locked-pending now uuid digest d o k)
  | inl k ↦ inserted now uuid digest d e b k (rw k at h)
]

-- Two starts of the same request without an identity, at any times, with any fresh ids and whatever
-- the first one recovers, get the same operation if the second one's recovery of it writes to no
-- operation; the second is not told that it owns a new attempt, and leaves the ledger as its
-- recovery does.
pub begin-begin :
    (now uuid later uuid' digest : ℕ) (recover recover' : ℕ → Db → Db) (d e : Db) (b : Begun)
    → begin now uuid recover digest absent d ≡ (ok b, e)
    → (recover' b.operation.id e).operations ≡ e.operations
    → begin later uuid' recover' digest absent e
      ≡ (ok (record { operation = b.operation; created = false }), recover' b.operation.id e)
begin-begin now uuid later uuid' digest recover recover' d e b h same =
    begin_pending later uuid' digest recover' e b.operation
      (begin_locked-find_pending now uuid digest (recover_row recover (find_pending digest d) d) e b
        (sym (begin_absent now uuid digest recover d) ∙ h))
      same

-- A watch of refunds changes no operation.
pub watch-operations :
    (now oid : ℕ) (r : Outcome) (d : Db)
    → (watch_failed_operation now oid r d).operations ≡ d.operations
unfolding watch_failed_operation
watch-operations now oid r d = elim (Bool-cases (is_failed r)) [
  | inr h ↦ rw h refl
  | inl h ↦ rw h (go (find_operation oid d))
]
  where
    go : (o : Option Operation) → (watch_headers now oid o d).operations ≡ d.operations
    go none = refl
    go (some o) = ground arith

-- A completed operation is found as `complete` has left it.
completed :
    (now oid : ℕ) (r : Outcome) (d : Db) (o : Operation)
    → find_operation oid d ≡ some o
    → is_pending o.state ≡ true
    → find_operation oid (complete_operation now oid r d) ≡ some (finish now r o)
unfolding find_operation complete_operation
completed now oid r d o h k =
    let same : (o.id == oid) ≡ true =
      find_where-holds (λ (x : Operation). x.id == oid) d.operations o h in
    rw
      (
        watch-operations now oid r d,
        find_where-update (λ (x : Operation). x.id == oid) (is_pending_id oid) (finish now r)
            d.operations (λ x e. refl),
        h,
      )
      (rw (same, k) refl)

followed :
    (rounds : ℕ) (o : Operation) (d : Db)
    → next_of (find_recovery o.id d) ≡ none
    → follow_row (suc rounds) (some o) d ≡ some (some o)
unfolding follow_row
followed rounds o d k = rw (k, follow_row) refl

followed_id :
    (rounds oid : ℕ) (d : Db)
    → next_of (find_recovery oid d) ≡ none
    → follow (suc rounds) oid d ≡ some oid
unfolding follow
followed_id rounds oid d k = rw (k, follow) refl

id-found : (oid : ℕ) (d : Db) (o : Operation) → find_operation oid d ≡ some o → o.id ≡ oid
unfolding find_operation
id-found oid d o h =
    ground (arith, find_where-holds (λ (x : Operation). x.id == oid) d.operations o h)

-- The transaction of a start whose operation is known and not replaced.
begin_locked-known :
    (now uuid digest oid : ℕ) (d : Db) (o : Operation)
    → find_operation oid d ≡ some o
    → next_of (find_recovery o.id d) ≡ none
    → begin_locked now uuid digest (some oid) d ≡ commit d (known now uuid digest o d)
unfolding begin_locked
begin_locked-known now uuid digest oid d o h k = rw (h, followed 63 o d k) refl

-- A start with an identity that is not replaced and whose operation is not pending recovers nothing.
begin_identity :
    (now uuid digest oid : ℕ) (recover : ℕ → Db → Db) (d : Db) (o : Operation)
    → find_operation oid d ≡ some o
    → is_pending o.state ≡ false
    → next_of (find_recovery oid d) ≡ none
    → begin now uuid recover digest (identity oid) d ≡ commit d (known now uuid digest o d)
unfolding begin recover_pending resolve_identity
begin_identity now uuid digest oid recover d o h done k =
    ap
      (λ f.
        bind_result (limited f, d)
          (λ id. modify (recover_pending recover digest id) >> begin_locked now uuid digest id))
      (followed_id 63 oid d k)
    ∙ ap (λ row. begin_locked now uuid digest (some oid) (recover_row recover row d)) nothing
    ∙ begin_locked-known now uuid digest oid d o h
        (subst (λ id. next_of (find_recovery id d) ≡ none) (sym (id-found oid d o h)) k)
  where
    nothing : pending_of digest (find_operation oid d) ≡ none
    nothing = rw h (ground arith)

-- After `complete` has stored the result of a pending operation, a start with its identity and the
-- same request, in any ledger that holds the operation's row as `complete` left it and no link from
-- it to a replacement, returns that operation, complete and with the stored result, recovers nothing,
-- owns no new attempt and writes nothing: the result is replayed, not paid for again.
pub complete_begin :
    (now later uuid oid : ℕ) (recover : ℕ → Db → Db) (r : Outcome) (d e : Db) (o : Operation)
    → find_operation oid d ≡ some o
    → is_pending o.state ≡ true
    → find_operation oid e ≡ find_operation oid (complete_operation now oid r d)
    → next_of (find_recovery oid e) ≡ none
    → begin later uuid recover o.fingerprint (identity oid) e
      ≡ (ok (record { operation = finish now r o; created = false }), e)
complete_begin now later uuid oid recover r d e o h k same unlinked =
    begin_identity later uuid o.fingerprint oid recover e (finish now r o)
      (same ∙ completed now oid r d o h k) refl unlinked
    ∙ rw ==_refl refl
