-- ===== src/Wallet/Signing.antt =====
-- `sign` and `sign_x402_authorization` of server/src/services/wallet_manager.py: the guard, then the
-- key. The state is the list of wallets whose secret has been decrypted, the last one first.
use mangrove_agent.Prelude.{◌≢◌, inl, inr, refl, Option, none, some, List, ◌∷◌}
use mangrove_agent.Prelude.Text.{Text}
use mangrove_agent.Flow.{Result, ok, err, Action, lift, ◌>>=◌, ◌>>◌, signing}
use mangrove_agent.Wallet.{Value}
use mangrove_agent.Wallet.Swap.{Transaction, validate_sign_target}
use mangrove_agent.Wallet.Swap.Permitted.{IsSwap, validate_sign_target-IsSwap}
use mangrove_agent.Wallet.Authorization.{validate_x402_authorization}

-- The account library, given the secret: it may raise, and every raise is a `SigningError`.
abbrev pub Signer : Type 0 → Type 0
Signer A = Text → A → Option Text

abbrev signed_or_error : Option Text → Result Text
signed_or_error none = err signing
signed_or_error (some s) = ok s

-- `_load_secret`, which raises for a wallet that is not stored or cannot be decrypted, and the
-- signature.
unfoldable pub use_key :
    {A : Type 0} → (Text → Result Text) → Signer A → Text → A → Action (List Text) Text
use_key secrets signer wallet_address payload log = elim (secrets wallet_address) [
  | err e ↦ (err e, log)
  | ok key ↦ (signed_or_error (signer key payload), wallet_address ∷ log)
]

unfoldable pub sign :
    (Text → Result Text) → Signer Transaction → Transaction → Text → Action (List Text) Text
unfolding validate_sign_target use_key
sign secrets signer normalized wallet_address = do
  lift (validate_sign_target normalized)
  use_key secrets signer wallet_address normalized

-- The payload that is signed is the one that was validated.
pub record Payload : Type 0 where
  pub domain : Value
  pub types : Value
  pub primary_type : Text
  pub message : Value

unfoldable pub sign_x402_authorization :
    (Text → Result Text) → Signer Payload → Payload → Text → Action (List Text) Text
unfolding validate_x402_authorization use_key
sign_x402_authorization secrets signer p wallet_address = do
  approved ← validate_x402_authorization p.domain p.types p.primary_type p.message wallet_address
  use_key secrets signer wallet_address p

-- If a call of `sign` has decrypted a secret, then the transaction is one of the swaps and approvals
-- that the guard permits: anything else is refused before the key is touched.
pub sign-IsSwap :
    (secrets : Text → Result Text) (signer : Signer Transaction) (tx : Transaction)
    (wallet_address : Text) (log : List Text)
    → (sign secrets signer tx wallet_address log).1 ≢ log
    → IsSwap tx
unfolding sign
sign-IsSwap secrets signer tx wallet_address log touched = elim (validate_sign_target-IsSwap tx) [
  | inl e ↦ absurd (touched (rw e refl))
  | inr (e, swap) ↦ swap
]
