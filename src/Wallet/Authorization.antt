-- ===== src/Wallet/Authorization.antt =====
-- `_validate_x402_authorization` of server/src/services/wallet_manager.py: the guard of payments.
pub mod Guarded
use mangrove_agent.Prelude.{
  ℕ, ◌+◌, ◌-◌, ◌^◌, Bool, true, false, not, ◌&&◌, ◌||◌, Option, none, some, List, [], ◌∷◌, leb,
  ◌==◌, if◌then◌else◌, all, drop, length, is_some,
}
use mangrove_agent.Prelude.Int.{ℤ, pos, negsuc}
use mangrove_agent.Prelude.Text.{Text, codes, text_eq, is_hex, is_ascii_blank, lower, strip_ascii}
use mangrove_agent.Flow.{
  Result, ok, err, Action, pure, lift, raise_if, ◌>>=◌, ◌>>◌, signing, value_error,
}
use mangrove_agent.Wallet.{
  Value, Values, Fields, boolean, integer, text, bytes, items, dict, other, end, item, empty, field,
  lookup, keys_within, is_text, hex_numeral, starts_with_0x, is_hex_address_text,
}

-- `_X402_PRIMARY_TYPE`
abbrev pub primary : Text
primary = codes "TransferWithAuthorization"

-- `_X402_USDC_BY_CHAIN_ID`, and the names of the tokens' domains
abbrev pub usdc_of : ℕ → Option Text
usdc_of chain =
    if chain == 8453
    then some (codes "0x833589fcd6edb6e08f4c7c32d4f71b54bda02913")
    else if chain == 84532
    then some (codes "0x036cbd53842c5426634e7929541ec2318f3dcf7e")
    else none

abbrev same_text : Text → Option Text → Bool
same_text s none = false
same_text s (some t) = text_eq s t

-- `verifying_contract.lower() == expected_usdc`
abbrev pub is_usdc : ℕ → Text → Bool
is_usdc chain contract = same_text (lower contract) (usdc_of chain)

abbrev pub usdc_name : ℕ → Text
usdc_name chain = if chain == 8453 then codes "USD Coin" else codes "USDC"

-- `_X402_AUTHORIZATION_FIELDS`
abbrev pub authorization_fields : List (Text × Text)
authorization_fields =
    (codes "from", codes "address")
    ∷ (codes "to", codes "address")
    ∷ (codes "value", codes "uint256")
    ∷ (codes "validAfter", codes "uint256")
    ∷ (codes "validBefore", codes "uint256")
    ∷ (codes "nonce", codes "bytes32")
    ∷ []

abbrev names_of : List (Text × Text) → List Text
names_of [] = []
names_of (f ∷ fs) = f.0 ∷ names_of fs

abbrev pub domain_keys : List Text
domain_keys = codes "name" ∷ codes "version" ∷ codes "chainId" ∷ codes "verifyingContract" ∷ []

-- A list of dicts that declares these fields in this order.
unfoldable pub declares : List (Text × Text) → Values → Bool
unfolding lookup
declares [] end = true
declares [] (item v vs) = false
declares (f ∷ fs) end = false
declares (f ∷ fs) (item (dict d) vs) =
    is_text f.0 (lookup (codes "name") d) && is_text f.1 (lookup (codes "type") d) && declares fs vs
declares (f ∷ fs) (item v vs) = false

abbrev pub is_struct : Option Value → Bool
is_struct (some (items vs)) = declares authorization_fields vs
is_struct _ = false

-- `set(message) == expected_keys`
abbrev has_all : List Text → Fields → Bool
has_all keys m = all (λ k. is_some (lookup k m)) keys

abbrev pub has_exactly : List Text → Fields → Bool
has_exactly keys m = has_all keys m && keys_within keys m

abbrev pub message_keys : List Text
message_keys = names_of authorization_fields

abbrev pub as_dict : Value → Result Fields
as_dict (dict d) = ok d
as_dict _ = err signing

-- An `int` that is no `bool`, in the range of the chains.
abbrev pub as_chain : Option Value → Result ℕ
as_chain (some (integer (pos n))) = if is_some (usdc_of n) then ok n else err signing
as_chain _ = err signing

abbrev pub address_text : Text → Result Text
address_text s = if is_hex_address_text s then ok s else err signing

abbrev pub as_address : Option Value → Result Text
as_address (some (text s)) = address_text s
as_address _ = err signing

-- `_UINT256_MAX`
abbrev pub uint256_max : ℕ
uint256_max = 2 ^ 256 - 1

-- `_as_uint256`
abbrev pub as_uint256 : Option Value → Result ℕ
as_uint256 (some (integer (pos n))) = if leb n uint256_max then ok n else err signing
as_uint256 _ = err signing

abbrev is_zero_digit : ℕ → Bool
is_zero_digit c = c == b'0'

abbrev zero_digits : Option Text → Result Bool
zero_digits none = err value_error
zero_digits (some ds) = ok (all is_zero_digit ds)

-- `int(payee[2:], 16) == 0`, which raises if the text begins with an underscore.
unfoldable pub is_zero_address : Text → Result Bool
unfolding hex_numeral
is_zero_address payee = zero_digits (hex_numeral false (strip_ascii (drop 2 payee)))

-- `bytes.fromhex` skips ASCII blanks between the bytes.
pub data Scan : Type 0 where
  between half failed : Scan

abbrev scan : Scan → ℕ → Scan
scan between c = if is_hex c then half else if is_ascii_blank c then between else failed
scan half c = if is_hex c then between else failed
scan failed c = failed

abbrev count_byte : Scan → ℕ → ℕ
count_byte half n = 1 + n
count_byte between n = n
count_byte failed n = n

-- The number of bytes; a `ValueError` counts as none.
unfoldable pub hex_bytes : Scan → Text → ℕ → ℕ
hex_bytes between [] n = n
hex_bytes half [] n = 0
hex_bytes failed [] n = 0
hex_bytes st (c ∷ s) n = hex_bytes (scan st c) s (count_byte st n)

abbrev pub without_prefix : Text → Text
without_prefix s = if starts_with_0x s then drop 2 s else s

-- `len(nonce_bytes)`
unfoldable pub nonce_size : Option Value → ℕ
unfolding hex_bytes
nonce_size (some (text s)) = hex_bytes between (without_prefix s) 0
nonce_size (some (bytes bs)) = length bs
nonce_size _ = 0

-- What the guard returns for the log.
pub record Approved : Type 0 where
  pub payee : Text
  pub value : ℕ
  pub chain_id : ℕ

-- The struct that is signed.
unfoldable pub check_types : {S : Type 0} → Text → Fields → Action S (Unit {0})
check_types primary_type ts = do
  raise_if (not (text_eq primary_type primary)) signing
  raise_if (not (is_struct (lookup primary_type ts))) signing
  raise_if (not (keys_within (primary_type ∷ codes "EIP712Domain" ∷ []) ts)) signing
  pure tt

-- The token and its chain.
unfoldable pub check_domain : {S : Type 0} → Fields → Action S ℕ
check_domain d = do
  raise_if (not (keys_within domain_keys d)) signing
  chain ← lift (as_chain (lookup (codes "chainId") d))
  contract ← lift (as_address (lookup (codes "verifyingContract") d))
  raise_if (not (is_usdc chain contract)) signing
  raise_if
      (not (
        is_text (usdc_name chain) (lookup (codes "name") d)
        && is_text (codes "2") (lookup (codes "version") d)))
      signing
  pure chain

-- Who pays whom.
unfoldable pub check_parties : {S : Type 0} → Fields → Text → Action S Text
check_parties m wallet_address = do
  raise_if (not (has_exactly message_keys m)) signing
  payer ← lift (as_address (lookup (codes "from") m))
  payee ← lift (as_address (lookup (codes "to") m))
  zero ← lift (is_zero_address payee)
  raise_if zero signing
  raise_if (not (text_eq (lower payer) (lower wallet_address))) signing
  pure payee

-- The amount, the window and the nonce.
unfoldable pub check_amount : {S : Type 0} → Fields → Action S ℕ
check_amount m = do
  value ← lift (as_uint256 (lookup (codes "value") m))
  valid_after ← lift (as_uint256 (lookup (codes "validAfter") m))
  valid_before ← lift (as_uint256 (lookup (codes "validBefore") m))
  raise_if (leb valid_before valid_after) signing
  raise_if (not (nonce_size (lookup (codes "nonce") m) == 32)) signing
  pure value

unfoldable pub validate_x402_authorization :
    {S : Type 0} → Value → Value → Text → Value → Text → Action S Approved
unfolding check_types check_domain check_parties check_amount
validate_x402_authorization domain types primary_type message wallet_address = do
  d ← lift (as_dict domain)
  ts ← lift (as_dict types)
  m ← lift (as_dict message)
  check_types primary_type ts
  chain ← check_domain d
  payee ← check_parties m wallet_address
  value ← check_amount m
  pure (record { payee = payee; value = value; chain_id = chain })
