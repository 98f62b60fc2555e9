-- ===== src/Receipt/Flows/Scanned.antt =====
-- What the loop over the logs has found when it did not raise: the logs are those of the transaction,
-- and the deltas are the transfers in them.
use mangrove_agent.Prelude.{
  ℕ, ◌+◌, ◌≡◌, refl, sym, ap, subst, true, false, not, ◌||◌, ◌==◌, ==_iff, of_not-false, Option,
  none, some, arith,
}
use mangrove_agent.Prelude.Int.{ℤ}
use mangrove_agent.Prelude.Text.{Text, codes, text_eq, eq_of_text_eq}
use mangrove_agent.Flow.{
  Result, ok, log_identity_mismatch, removed_or_unconfirmed_log, duplicate_or_unordered_log,
}
use mangrove_agent.Wallet.{
  Value, Values, Fields, boolean, integer, text, bytes, items, dict, null, other, end, item, lookup,
}
use mangrove_agent.Receipt.{hex_data, hex_quantity, Verified, bind_ok, guard_ok, ok_inj}
use mangrove_agent.Receipt.Flows.{
  Tokens, Transfer, LogScan, next_index, add_if, as_log, check_log, check_identity, read_transfer,
  read_log, scan_logs, is_kept, is_seen, is_late,
}
use mangrove_agent.Receipt.Flows.Net.{
  add_if-Adds, Moves, transfer_of, got, gave, total, moves_expected,
}

-- A log of the transaction that was not removed.
pub record IsOwn (v : Verified) (value : Value) : Type 0 where
  pub log : Fields
  pub is_log : value ≡ dict log
  pub not_removed : lookup (codes "removed") log ≡ some (boolean false)
  pub same_transaction : hex_data (some 32) (lookup (codes "transactionHash") log) ≡ ok v.tx_hash
  pub same_block : hex_quantity (lookup (codes "blockNumber") log) ≡ ok v.block_number

unfoldable pub AllLogs : (Value → Type 0) → Values → Type 0
AllLogs P end = Unit {0}
AllLogs P (item value logs) = P value × AllLogs P logs

as_log-dict : (value : Value) (log : Fields) → as_log value ≡ ok log → value ≡ dict log
as_log-dict (dict d) log h = cc
as_log-dict (boolean b) log h = cc
as_log-dict (integer n) log h = cc
as_log-dict (text s) log h = cc
as_log-dict (bytes s) log h = cc
as_log-dict (items vs) log h = cc
as_log-dict null log h = cc
as_log-dict other log h = cc

kept : (v : Option Value) → not (is_kept v) ≡ false → v ≡ some (boolean false)
kept none h = cc
kept (some (boolean true)) h = cc
kept (some (boolean false)) h = refl
kept (some (dict d)) h = cc
kept (some (integer n)) h = cc
kept (some (text s)) h = cc
kept (some (bytes s)) h = cc
kept (some (items vs)) h = cc
kept (some null) h = cc
kept (some other) h = cc

equal_text : (r : Result Text) (s t : Text) → r ≡ ok s → not (text_eq s t) ≡ false → r ≡ ok t
equal_text r s t h e = rw (sym (eq_of_text_eq s t (of_not-false _ e))) h

equal_number : (r : Result ℕ) (m n : ℕ) → r ≡ ok m → not (m == n) ≡ false → r ≡ ok n
equal_number r m n h e = rw (sym ((==_iff m n).0 (of_not-false _ e))) h

check_identity-same :
    (v : Verified) (log : Fields)
    → check_identity v log ≡ ok tt
    → (hex_data (some 32) (lookup (codes "transactionHash") log) ≡ ok v.tx_hash)
      × (hex_quantity (lookup (codes "blockNumber") log) ≡ ok v.block_number)
check_identity-same v log = bind_ok C tt hash _ (λ h read.
    guard_ok C tt (not (text_eq h v.tx_hash)) log_identity_mismatch _ (λ same_hash.
      bind_ok C tt (hex_data (some 32) (lookup (codes "blockHash") log)) _ (λ b read_block_hash.
        guard_ok C tt (not (text_eq b v.block_hash)) log_identity_mismatch _ (λ same_block_hash.
          bind_ok C tt block _ (λ n read_block.
            guard_ok C tt (not (n == v.block_number)) log_identity_mismatch _ (λ same_block rest. (
              equal_text hash h v.tx_hash read same_hash,
              equal_number block n v.block_number read_block same_block,
            )))))))
  where
    hash : Result Text
    hash = hex_data (some 32) (lookup (codes "transactionHash") log)

    block : Result ℕ
    block = hex_quantity (lookup (codes "blockNumber") log)

    C : Type 0
    C = (hash ≡ ok v.tx_hash) × (block ≡ ok v.block_number)

check_log-IsOwn :
    (v : Verified) (log : Fields) (s : LogScan) (i : ℕ)
    → check_log v log s ≡ ok i
    → IsOwn v (dict log)
check_log-IsOwn v log s i =
    guard_ok C i (not (is_kept removed)) removed_or_unconfirmed_log _ (λ keeps.
      bind_ok C i (hex_quantity (lookup (codes "logIndex") log)) _ (λ j read.
        guard_ok C i (is_seen s j || is_late s.last_index j) duplicate_or_unordered_log _ (λ fresh.
          bind_ok C i (check_identity v log) _ (λ u identity rest.
            let (hash, block) = check_identity-same v log identity in
            record {
              log = log;
              is_log = refl;
              not_removed = kept removed keeps;
              same_transaction = hash;
              same_block = block;
            }))))
  where
    removed : Option Value
    removed = lookup (codes "removed") log

    C : Type 0
    C = IsOwn v (dict log)

read_log-IsOwn :
    (v : Verified) (value : Value) (s : LogScan) (r : ℕ × Option Transfer)
    → read_log v value s ≡ ok r
    → IsOwn v value × (transfer_of value ≡ r.1)
unfolding transfer_of
read_log-IsOwn v value s r = bind_ok C r (as_log value) _ (λ log is_log.
    bind_ok C r (hex_data (some 20) (lookup (codes "address") log)) _ (λ token read_token.
      bind_ok C r (check_log v log s) _ (λ i checked.
        bind_ok C r (read_transfer token log) _ (λ t read_t rest. (
          subst (IsOwn v) (sym (as_log-dict value log is_log)) (check_log-IsOwn v log s i checked),
          rw is_log (rw read_token (rw read_t (ap (λ x. x.1) (ok_inj (i, t) r rest)))),
        )))))
  where
    C : Type 0
    C = IsOwn v value × (transfer_of value ≡ r.1)

Moves-trans :
    (d e f : ℤ) (a b a' b' : ℕ) → Moves d e a b → Moves e f a' b' → Moves d f (a + a') (b + b')
Moves-trans d e f a b a' b' m n = omega (arith, m, n)

-- What the loop has found when it did not raise.
pub record Scanned (v : Verified) (k : Tokens) (logs : Values) (s t : LogScan) : Type 0 where
  pub input :
      Moves s.input_delta t.input_delta
        (total (got v.wallet_address k.input) logs)
        (total (gave v.wallet_address k.input) logs)
  pub output :
      Moves s.output_delta t.output_delta
        (total (got v.wallet_address k.output) logs)
        (total (gave v.wallet_address k.output) logs)
  pub own : AllLogs (IsOwn v) logs
  pub expected : AllLogs (λ x. moves_expected v.wallet_address k (transfer_of x) ≡ true) logs

pub scan_logs-Scanned :
    (v : Verified) (k : Tokens) (logs : Values) (s t : LogScan)
    → text_eq k.input k.output ≡ false
    → scan_logs v k logs s ≡ ok t
    → Scanned v k logs s t
unfolding scan_logs total AllLogs
scan_logs-Scanned v k end s t differ = λ h.
    subst (Scanned v k end s) (ok_inj s t h)
      (record { input = omega arith; output = omega arith; own = tt; expected = tt })
scan_logs-Scanned v k (item value logs) s t differ = bind_ok C t (read_log v value s) _ (λ r read.
    bind_ok C t (add_if v.wallet_address k r.1 (next_index r.0 s)) _ (λ s' added rest.
      let (own, is_transfer) = read_log-IsOwn v value s r read in
      let step = add_if-Adds v.wallet_address k r.1 (next_index r.0 s) s' differ added in
      let after = scan_logs-Scanned v k logs s' t differ rest in
      record {
        input =
            Moves-trans s.input_delta s'.input_delta t.input_delta _ _ _ _
              (rw is_transfer step.input) after.input;
        output =
            Moves-trans s.output_delta s'.output_delta t.output_delta _ _ _ _
              (rw is_transfer step.output) after.output;
        own = (own, after.own);
        expected = (rw is_transfer step.expected, after.expected);
      }))
  where
    C : Type 0
    C = Scanned v k (item value logs) s t
