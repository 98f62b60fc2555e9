-- ===== src/Wallet/Tests.antt =====
-- Payloads that the guards accept and refuse.
use mangrove_agent.Prelude.{◌≡◌, ◌≢◌, ◌⊎◌, refl, sym, ◌∙◌, false, some, List, [], ◌∷◌}
use mangrove_agent.Prelude.Int.{pos}
use mangrove_agent.Prelude.Text.{Text, codes}
use mangrove_agent.Flow.{Result, ok, err, signing, value_error}
use mangrove_agent.Wallet.{
  Value, integer, text, items, dict, end, item, empty, field, int16_after_0x, lookup, keys_within,
}
use mangrove_agent.Wallet.Swap.{
  Transaction, validate_sign_target, is_oneinch_router, extract_approve_spender,
}
use mangrove_agent.Wallet.Swap.Permitted.{IsSwap, validate_sign_target-IsSwap}
use mangrove_agent.Wallet.Authorization.{is_zero_address, primary, declares, nonce_size}
use mangrove_agent.Wallet.Signing.{Signer, Payload, sign, sign_x402_authorization, sign-IsSwap}

abbrev wallet : Text
wallet = codes "0xaaaaaaaaaaaaaaaaaaaaaaaaaaaaaaaaaaaaaaaa"

abbrev secrets : Text → Result Text
secrets w = ok (codes "0xsecret")

-- `approve` of the V6 router.
abbrev approval : Transaction
approval = record {
  type = some 2;
  has_authorization_list = false;
  to = some (codes "0x833589fcd6edb6e08f4c7c32d4f71b54bda02913");
  data_text =
      some (codes "0x095ea7b3000000000000000000000000111111125421ca6dc452d289314280a0f8842a65ffff");
}

approved : validate_sign_target approval ≡ ok tt
unfolding validate_sign_target is_oneinch_router extract_approve_spender
approved = refl

-- The same call as an EIP-7702 transaction.
delegated : validate_sign_target (record approval { type = some 4 }) ≡ err signing
unfolding validate_sign_target
delegated = refl

validate_sign_target-IsSwap_example :
    (validate_sign_target approval ≡ err signing)
    ⊎ ((validate_sign_target approval ≡ ok tt) × IsSwap approval)
validate_sign_target-IsSwap_example = validate_sign_target-IsSwap approval

abbrev swap_signer : Signer Transaction
swap_signer key tx = some (codes "0x02f8")

not_nil : (xs : List Text) (x : Text) → xs ≡ x ∷ [] → xs ≢ []
not_nil xs x e h = nil_cons x (sym h ∙ e)
  where
    nil_cons : (y : Text) → Path (List Text) [] (y ∷ []) → ⊥
    nil_cons y k = cc

swap_log : (sign secrets swap_signer approval wallet []).1 ≡ wallet ∷ []
unfolding sign is_oneinch_router extract_approve_spender
swap_log = refl

swap_touched : (sign secrets swap_signer approval wallet []).1 ≢ []
swap_touched = not_nil (sign secrets swap_signer approval wallet []).1 wallet swap_log

sign-IsSwap_example : IsSwap approval
sign-IsSwap_example = sign-IsSwap secrets swap_signer approval wallet [] swap_touched

abbrev struct_field : Text → Text → Value
struct_field name type =
    dict (field (codes "name") (text name) (field (codes "type") (text type) empty))

abbrev struct : Value
struct = items (
    item (struct_field (codes "from") (codes "address")) (
      item (struct_field (codes "to") (codes "address")) (
        item (struct_field (codes "value") (codes "uint256")) (
          item (struct_field (codes "validAfter") (codes "uint256")) (
            item (struct_field (codes "validBefore") (codes "uint256"))
              (item (struct_field (codes "nonce") (codes "bytes32")) end))))))

abbrev nonce : Text
nonce = codes "0x0101010101010101010101010101010101010101010101010101010101010101"

abbrev payment_to : Text → Payload
payment_to payee = record {
  domain = dict (
      field (codes "name") (text (codes "USD Coin")) (
        field (codes "version") (text (codes "2")) (
          field (codes "chainId") (integer (pos 8453)) (
            field (codes "verifyingContract")
              (text (codes "0x833589fCD6eDb6E08f4c7C32D4f71b54bdA02913")) empty))));
  types = dict (field primary struct empty);
  primary_type = primary;
  message = dict (
      field (codes "from") (text wallet) (
        field (codes "to") (text payee) (
          field (codes "value") (integer (pos 40_000)) (
            field (codes "validAfter") (integer (pos 0)) (
              field (codes "validBefore") (integer (pos 1_900_000_000))
                (field (codes "nonce") (text nonce) empty))))));
}

abbrev payment : Payload
payment = payment_to (codes "0xbbbbbbbbbbbbbbbbbbbbbbbbbbbbbbbbbbbbbbbb")

abbrev payment_signer : Signer Payload
payment_signer key p = some (codes "0x1b")

-- The zero address is refused.
zero_refused :
    (sign_x402_authorization secrets payment_signer
      (payment_to (codes "0x0000000000000000000000000000000000000000"))
      wallet
      []).0
    ≡ err signing
unfolding sign_x402_authorization lookup declares keys_within int16_after_0x is_zero_address
zero_refused = refl

-- A payee with an underscore after the prefix passes `_is_hex_address`, and `int` then raises a
-- `ValueError` that is no `SigningError`.
underscore_raises :
    (sign_x402_authorization secrets payment_signer
      (payment_to (codes "0x_bbbbbbbbbbbbbbbbbbbbbbbbbbbbbbbbbbbbbbb"))
      wallet
      []).0
    ≡ err value_error
unfolding sign_x402_authorization lookup declares keys_within int16_after_0x is_zero_address
underscore_raises = refl

-- Inside the digits it is signed.
underscore_signed :
    (sign_x402_authorization secrets payment_signer
      (payment_to (codes "0xb_bbbbbbbbbbbbbbbbbbbbbbbbbbbbbbbbbbbbbb"))
      wallet
      []).0
    ≡ ok (codes "0x1b")
unfolding sign_x402_authorization lookup declares keys_within int16_after_0x is_zero_address
    nonce_size
underscore_signed = refl
