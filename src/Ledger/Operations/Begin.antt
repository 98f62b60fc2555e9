-- ===== src/Ledger/Operations/Begin.antt =====
-- `begin` of server/src/services/payment_operations.py: which operation a request belongs to.
pub mod Retries
use mangrove_agent.Prelude.{
  ℕ, zero, suc, ◌≡◌, Bool, true, false, not, ◌&&◌, ◌||◌, Option, none, some, List, [], ◌∷◌, ◌++◌,
  ltb, ◌==◌, if◌then◌else◌, is_some, any,
}
use mangrove_agent.Prelude.Tables.{update_where, find_where, select_where}
use mangrove_agent.Flow.{
  Result, ok, err, Action, pure, gets, modify, lift, raise, raise_if, atomic, ◌>>=◌, ◌>>◌,
  payment_uncertain, validation, integrity,
}
use mangrove_agent.Ledger.{Operation, OpState, is_pending, is_unsigned_failed, Recovery, Db}
use mangrove_agent.Ledger.Unsigned.{belongs, find_operation, reservation_ids}
use mangrove_agent.Ledger.Operations.{proven_unpaid, update_operations}

-- `operation_id`: absent, no UUID, or a UUID.
pub data IdentityArg : Type 0 where
  absent malformed : IdentityArg
  identity : ℕ → IdentityArg

unfoldable pub find_recovery : ℕ → Db → Option Recovery
unfolding find_where
find_recovery oid db = find_where (λ (r : Recovery). r.operation_id == oid) db.recoveries

abbrev pub next_of : Option Recovery → Option ℕ
next_of none = none
next_of (some r) = r.next_id

-- `for _ in range(64)`: `none` is the limit. The replacement links are followed to their end.
unfoldable pub follow : ℕ → ℕ → Db → Option ℕ
unfolding find_recovery
follow zero oid db = none
follow (suc rounds) oid db = elim (next_of (find_recovery oid db)) [
  | none ↦ some oid
  | some next ↦ follow rounds next db
]

abbrev pub link_limit : ℕ
link_limit = 64

abbrev pub limited : Option ℕ → Result (Option ℕ)
limited none = err validation
limited (some oid) = ok (some oid)

unfoldable pub resolve_identity : IdentityArg → Db → Result (Option ℕ)
unfolding follow
resolve_identity absent db = ok none
resolve_identity malformed db = err validation
resolve_identity (identity oid) db = limited (follow link_limit oid db)

-- The same walk over rows, in the second transaction.
unfoldable pub follow_row : ℕ → Option Operation → Db → Option (Option Operation)
unfolding find_recovery find_operation
follow_row zero row db = none
follow_row (suc rounds) none db = some none
follow_row (suc rounds) (some o) db = elim (next_of (find_recovery o.id db)) [
  | none ↦ some (some o)
  | some next ↦ follow_row rounds (find_operation next db) db
]

-- The operation, and whether the caller owns a new attempt.
pub record Begun : Type 0 where
  pub operation : Operation
  pub created : Bool

abbrev pub new_operation : ℕ → ℕ → ℕ → Operation
new_operation now oid digest = record {
  id = oid;
  fingerprint = digest;
  state = OpState.pending;
  payment_headers = none;
  response = none;
  created_at = now;
  updated_at = now;
}

-- `INSERT INTO x402_operations`: the primary key is unique.
unfoldable pub insert_operation : ℕ → ℕ → ℕ → Action Db Begun
insert_operation now oid digest db =
    (raise_if (any (λ (o : Operation). o.id == oid) db.operations) integrity
        >> modify (λ d. record d { operations = d.operations ++ new_operation now oid digest ∷ [] })
        >> pure (record { operation = new_operation now oid digest; created = true }))
      db

abbrev link_to : ℕ → Recovery → Recovery
link_to oid r = record r { next_id = some oid }

abbrev pub replace_rows : ℕ → ℕ → Recovery → Db → Db
replace_rows oid old r d = record d {
  recoveries =
      update_where (λ (x : Recovery). x.operation_id == old) (link_to oid)
        (d.recoveries
          ++ record {
            operation_id = oid;
            action_id = r.action_id;
            token = r.token;
            replacement_allowed = false;
            next_id = none;
          }
            ∷ []);
}

-- A replacement attempt carries the action and the token of the one that it replaces.
abbrev pub replace : ℕ → ℕ → ℕ → Operation → Recovery → Action Db Begun
replace now uuid digest row r = do
  begun ← insert_operation now uuid digest
  modify (replace_rows uuid row.id r)
  pure begun

abbrev pub unreplaced : Operation → Action Db Begun
unreplaced row db =
    if is_some row.payment_headers
    then (ok (record { operation = row; created = false }), db)
    else (err (payment_uncertain row.id (reservation_ids row.id db)), db)

abbrev pub closed_unpaid : ℕ → ℕ → ℕ → Operation → Option Recovery → Action Db Begun
closed_unpaid now uuid digest row none = unreplaced row
closed_unpaid now uuid digest row (some r) =
    if r.replacement_allowed then replace now uuid digest row r else unreplaced row

abbrev pub reclaim : ℕ → Operation → Action Db Begun
reclaim now row = do
  modify (
      update_operations (λ o. o.id == row.id)
        (λ o. record o { state = OpState.pending; updated_at = now }))
  pure (record { operation = record row { state = OpState.pending }; created = true })

abbrev pub reopen_failed : ℕ → ℕ → ℕ → Operation → Action Db Begun
reopen_failed now uuid digest row db =
    if any (belongs row.id) db.payments
    then (if proven_unpaid row.id db
        then closed_unpaid now uuid digest row (find_recovery row.id db) db
        else (err validation, db))
    else reclaim now row db

abbrev pub known : ℕ → ℕ → ℕ → Operation → Action Db Begun
known now uuid digest row db =
    if row.fingerprint == digest
    then (if is_unsigned_failed row.state
        then reopen_failed now uuid digest row db
        else (ok (record { operation = row; created = false }), db))
    else (err validation, db)

-- `ORDER BY created_at, id LIMIT 1`
abbrev is_before : Operation → Operation → Bool
is_before a b = ltb a.created_at b.created_at || a.created_at == b.created_at && ltb a.id b.id

unfoldable pub earliest : List Operation → Option Operation
earliest [] = none
earliest (o ∷ os) = elim (earliest os) [
  | none ↦ some o
  | some best ↦ if is_before best o then some best else some o
]

abbrev pub is_pending_digest : ℕ → Operation → Bool
is_pending_digest digest o = o.fingerprint == digest && is_pending o.state

unfoldable pub find_pending : ℕ → Db → Option Operation
unfolding earliest select_where
find_pending digest db = earliest (select_where (is_pending_digest digest) db.operations)

abbrev pub join_pending : ℕ → ℕ → ℕ → Option Operation → Action Db Begun
join_pending now uuid digest none db = insert_operation now uuid digest db
join_pending now uuid digest (some o) db = (ok (record { operation = o; created = false }), db)

abbrev pub unknown : ℕ → ℕ → ℕ → Option ℕ → Action Db Begun
unknown now uuid digest (some oid) db = insert_operation now oid digest db
unknown now uuid digest none db = join_pending now uuid digest (find_pending digest db) db

abbrev pub begin_row : ℕ → ℕ → ℕ → Option ℕ → Option (Option Operation) → Action Db Begun
begin_row now uuid digest oid none db = (err validation, db)
begin_row now uuid digest oid (some none) db = unknown now uuid digest oid db
begin_row now uuid digest oid (some (some row)) db = known now uuid digest row db

abbrev pub row_of : Option ℕ → Db → Option Operation
row_of none db = none
row_of (some oid) db = find_operation oid db

unfoldable pub begin_locked : ℕ → ℕ → ℕ → Option ℕ → Action Db Begun
unfolding follow_row insert_operation
begin_locked now uuid digest oid =
    atomic (λ db. begin_row now uuid digest oid (follow_row link_limit (row_of oid db) db) db)

-- `fingerprint = ? AND state = 'pending' AND (? IS NULL OR id = ?)`, where the id is a primary key.
abbrev pub pending_of : ℕ → Option Operation → Option Operation
pending_of digest none = none
pending_of digest (some o) = if is_pending_digest digest o then some o else none

abbrev pub row_to_recover : ℕ → Option ℕ → Db → Option Operation
row_to_recover digest none db = find_pending digest db
row_to_recover digest (some oid) db = pending_of digest (find_operation oid db)

abbrev pub recover_row : (ℕ → Db → Db) → Option Operation → Db → Db
recover_row recover none db = db
recover_row recover (some o) db = recover o.id db

-- `recover` is what the reconciliation and the worker leave of the ledger for the operation that is
-- pending; what they raise is caught here.
unfoldable pub recover_pending : (ℕ → Db → Db) → ℕ → Option ℕ → Db → Db
unfolding find_pending find_operation
recover_pending recover digest oid db = recover_row recover (row_to_recover digest oid db) db

unfoldable pub begin : ℕ → ℕ → (ℕ → Db → Db) → ℕ → IdentityArg → Action Db Begun
unfolding resolve_identity recover_pending begin_locked
begin now uuid recover digest arg = do
  oid ← (λ db. (resolve_identity arg db, db))
  modify (recover_pending recover digest oid)
  begin_locked now uuid digest oid
