-- ===== src/Flow.antt =====
-- How a call ends: the exceptions of server/src/shared/errors.py that the modelled code raises, and
-- actions that read and write a state and may raise. What was written before a raise stays, except
-- inside `atomic`, which is a SQLite transaction that rolls back.
use mangrove_agent.Prelude.{
  ℕ, ◌≡◌, refl, ◌⊎◌, inl, inr, Bool, true, false, List, Option, none, some, if◌then◌else◌,
}

-- Why an `X402SpendCapExceeded` is raised.
pub data Refusal : Type 0 where
  budget_spent would_exceed_budget payment_limit page_price_increased : Refusal

-- The codes of `ReceiptSettlementError`.
pub data Unsettled : Type 0 where
  malformed_receipt malformed_transfer malformed_logs receipt_pending invalid_context : Unsettled
  chain_mismatch transaction_mismatch wallet_mismatch recipient_mismatch router_mismatch : Unsettled
  transaction_reverted unsupported_flow unsupported_native_flow : Unsettled
  removed_or_unconfirmed_log duplicate_or_unordered_log log_identity_mismatch : Unsettled
  unexpected_token unverified_wallet_flow : Unsettled

pub data Error : Type 0 where
  -- `ValidationError`
  validation : Error
  -- a `ValueError` of `int` that nothing catches
  value_error : Error
  -- `X402SpendCapExceeded`
  spend_cap_exceeded : Refusal → Error
  -- `X402PaymentUncertain`, with its operation and reservations
  payment_uncertain : ℕ → List ℕ → Error
  -- `ReceiptSettlementError`
  unsettled : Unsettled → Error
  -- `SigningError`
  signing : Error
  -- `sqlite3.IntegrityError`, of a constraint of the schema
  integrity : Error
  -- `StrategyInvalidStatusTransition`, `ConfirmationRequired`, `SdkError`, `AllocationInsufficient`,
  -- `WalletNotFound`, `SchedulerError` and what else the registration of a job raises
  invalid_status_transition confirmation_required sdk_error : Error
  allocation_insufficient wallet_not_found scheduler_error : Error

pub data Result (A : Type 0) : Type 0 where
  ok : A → Result A
  err : Error → Result A

abbrev pub Action : Type 0 → Type 0 → Type 0
Action S A = S → Result A × S

abbrev pub pure : {S A : Type 0} → A → Action S A
pure a s = (ok a, s)

abbrev pub raise : {S A : Type 0} → Error → Action S A
raise e s = (err e, s)

abbrev pub gets : {S A : Type 0} → (S → A) → Action S A
gets f s = (ok (f s), s)

abbrev pub modify : {S : Type 0} → (S → S) → Action S (Unit {0})
modify f s = (ok tt, f s)

abbrev pub lift : {S A : Type 0} → Result A → Action S A
lift r s = (r, s)

abbrev pub raise_if : {S : Type 0} → Bool → Error → Action S (Unit {0})
raise_if c e s = (if c then err e else ok tt, s)

abbrev pub bind_result : {S A B : Type 0} → Result A × S → (A → Action S B) → Result B × S
bind_result (ok a, t) f = f a t
bind_result (err e, t) f = (err e, t)

infixl 5 ◌>>=◌ ◌>>◌
abbrev pub ◌>>=◌ : {S A B : Type 0} → Action S A → (A → Action S B) → Action S B
◌>>=◌ m f s = bind_result (m s) f

abbrev pub ◌>>◌ : {S B : Type 0} → Action S (Unit {0}) → Action S B → Action S B
m >> k = m >>= λ _. k

-- `with _budget_transaction() as conn`: a raise undoes every write of the block.
abbrev pub commit : {S A : Type 0} → S → Result A × S → Result A × S
commit s (ok a, t) = (ok a, t)
commit s (err e, t) = (err e, s)

abbrev pub atomic : {S A : Type 0} → Action S A → Action S A
atomic m s = commit s (m s)

-- The value of a call that did not raise.
abbrev pub returned : {A : Type 0} → Result A → Option A
returned (ok a) = some a
returned (err e) = none

pub Result-cases :
    {A : Type 0} (r : Result A) → ((a : A) × (r ≡ ok a)) ⊎ ((e : Error) × (r ≡ err e))
Result-cases (ok a) = inl (a, refl)
Result-cases (err e) = inr (e, refl)

-- What holds of a state that stays, and of every state that a call returns in, holds after `atomic`.
pub atomic_elim {ℓ} :
    {S A : Type 0} (P : S → Type ℓ) (m : Action S A) (s : S)
    → P s
    → ((a : A) (t : S) → m s ≡ (ok a, t) → P t)
    → P (atomic m s).1
atomic_elim {S} {A} P m s h k = go (m s) refl
  where
    go : (r : Result A × S) → m s ≡ r → P (commit s r).1
    go (ok a, t) e = k a t e
    go (err x, t) e = h

-- A guard that raises leaves the state, and one that does not has a false test.
pub raise_if_elim {ℓ} :
    {S A : Type 0} (P : Result A × S → Type ℓ) (c : Bool) (e : Error) (k : Action S A) (s : S)
    → P (err e, s)
    → (c ≡ false → P (k s))
    → P ((raise_if c e >> k) s)
raise_if_elim P true e k s h g = h
raise_if_elim P false e k s h g = g refl

-- What a collaborator raises leaves the state.
pub lift_elim {ℓ} :
    {S A : Type 0} (P : Result A × S → Type ℓ) (r : Result (Unit {0})) (k : Action S A) (s : S)
    → ((e : Error) → P (err e, s))
    → P (k s)
    → P ((lift r >> k) s)
lift_elim P (ok u) k s h g = g
lift_elim P (err e) k s h g = h e

-- What holds of a call, and so of what follows it, holds of both.
pub bind_elim {ℓ κ} :
    {S A B : Type 0} (P : Result A × S → Type ℓ) (Q : Result B × S → Type κ) (m : Result A × S)
    (k : A → Action S B)
    → P m
    → ((e : Error) (t : S) → P (err e, t) → Q (err e, t))
    → ((a : A) (t : S) → P (ok a, t) → Q (k a t))
    → Q (bind_result m k)
bind_elim P Q (ok a, t) k h fails goes = goes a t h
bind_elim P Q (err e, t) k h fails goes = fails e t h

-- The value of a collaborator, or what it raises.
pub lift_bind_elim {ℓ} :
    {S A B : Type 0} (P : Result B × S → Type ℓ) (r : Result A) (k : A → Action S B) (s : S)
    → ((e : Error) → P (err e, s))
    → ((a : A) → r ≡ ok a → P (k a s))
    → P ((lift r >>= k) s)
lift_bind_elim P (ok a) k s h g = g a refl
lift_bind_elim P (err e) k s h g = h e

-- What holds of a state after an error, and of a result with its state.
abbrev pub Ends {ℓ} : {S A : Type 0} → (S → Type ℓ) → (A → S → Type ℓ) → Result A × S → Type ℓ
Ends F G (ok a, s) = G a s
Ends F G (err e, s) = F s

pub Ends-bind {ℓ} :
    {S A B : Type 0} (F : S → Type ℓ) (G : A → S → Type ℓ) (H : B → S → Type ℓ) (m : Result A × S)
    (k : A → Action S B)
    → Ends F G m
    → ((a : A) (s : S) → G a s → Ends F H (k a s))
    → Ends F H (bind_result m k)
Ends-bind F G H (ok a, s) k h goes = goes a s h
Ends-bind F G H (err e, s) k h goes = h

pub Ends-weaken {ℓ} :
    {S A : Type 0} (F F' : S → Type ℓ) (G : A → S → Type ℓ) (m : Result A × S)
    → ((s : S) → F s → F' s)
    → Ends F G m
    → Ends F' G m
Ends-weaken F F' G (ok a, s) weaker h = h
Ends-weaken F F' G (err e, s) weaker h = weaker s h

pub Ends-lift {ℓ} :
    {S A : Type 0} (F : S → Type ℓ) (G : A → S → Type ℓ) (r : Result A) (s : S)
    → F s
    → ((a : A) → r ≡ ok a → G a s)
    → Ends F G (lift r s)
Ends-lift F G (ok a) s f g = g a refl
Ends-lift F G (err e) s f g = f
