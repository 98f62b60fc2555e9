-- ===== src/Receipt.antt =====
-- server/src/services/receipt_settlement.py: what the receipt of a transaction says of it. A raw
-- receipt is a JSON object, addresses and hashes are texts, and quantities are numbers.
pub mod Flows
pub mod Fees
pub mod Identified
pub mod Units
mod Tests
use mangrove_agent.Prelude.{
  ℕ, ◌+◌, ◌*◌, ◌-◌, ◌%◌, ◌^◌, ◌≡◌, refl, Bool, true, false, not, ◌&&◌, ◌||◌, Option, none, some,
  List, [], ◌∷◌, ltb, leb, ◌==◌, if◌then◌else◌, all, length, take, drop, is_some,
}
use mangrove_agent.Prelude.Int.{ℤ, pos, negsuc}
use mangrove_agent.Prelude.Text.{Text, codes, text_eq, is_digit, is_hex, lower}
use mangrove_agent.Flow.{
  Result, ok, err, Error, unsettled, Unsettled, malformed_receipt, malformed_transfer,
  receipt_pending, invalid_context, chain_mismatch, transaction_mismatch, wallet_mismatch,
  recipient_mismatch,
}
use mangrove_agent.Wallet.{Value, Fields, integer, text, null, lookup, starts_with_0x}

infixl 5 ◌>>=◌ ◌>>◌
abbrev pub ◌>>=◌ : {A B : Type 0} → Result A → (A → Result B) → Result B
ok a >>= f = f a
err e >>= f = err e

abbrev pub ◌>>◌ : {B : Type 0} → Result (Unit {0}) → Result B → Result B
r >> k = r >>= λ u. k

abbrev pub refuse_if : Bool → Unsettled → Result (Unit {0})
refuse_if c reason = if c then err (unsettled reason) else ok tt

abbrev has_length : Option ℕ → Text → Bool
has_length none body = true
has_length (some n) body = length body == 2 * n

abbrev is_hex_body : Option ℕ → Text → Bool
is_hex_body n body = length body % 2 == 0 && all is_hex body && has_length n body

abbrev hex_text : Option ℕ → Text → Result Text
hex_text n s =
    if starts_with_0x s && is_hex_body n (drop 2 s)
    then ok (b'0' ∷ b'x' ∷ lower (drop 2 s))
    else err (unsettled malformed_receipt)

-- `_data`
unfoldable pub hex_data : Option ℕ → Option Value → Result Text
hex_data n (some (text s)) = hex_text n s
hex_data n _ = err (unsettled malformed_receipt)

-- `0|[1-9a-fA-F][0-9a-fA-F]*`
abbrev pub is_canonical : Text → Bool
is_canonical [] = false
is_canonical (c ∷ []) = is_hex c
is_canonical (c ∷ d ∷ s) = is_hex c && not (c == b'0') && all is_hex (d ∷ s)

abbrev pub hex_value : ℕ → ℕ
hex_value c = if is_digit c then c - b'0' else if leb c b'F' then c - 55 else c - 87

-- `int(digits, 16)`
unfoldable pub hex_number : ℕ → Text → ℕ
hex_number n [] = n
hex_number n (c ∷ s) = hex_number (16 * n + hex_value c) s

abbrev quantity_text : Text → Result ℕ
quantity_text s =
    if starts_with_0x s && is_canonical (drop 2 s) && ltb (hex_number 0 (drop 2 s)) (2 ^ 256)
    then ok (hex_number 0 (drop 2 s))
    else err (unsettled malformed_receipt)

-- `_quantity`
unfoldable pub hex_quantity : Option Value → Result ℕ
unfolding hex_number
hex_quantity (some (text s)) = quantity_text s
hex_quantity _ = err (unsettled malformed_receipt)

abbrev is_zero_char : ℕ → Bool
is_zero_char c = c == b'0'

-- `_indexed_address`
unfoldable pub indexed_address : Option Value → Result Text
unfolding hex_data
indexed_address topic = do
  encoded ← hex_data (some 32) topic
  refuse_if (not (all is_zero_char (take 24 (drop 2 encoded)))) malformed_transfer
  ok (b'0' ∷ b'x' ∷ drop 26 encoded)

-- A chain identifier: an integer, but no `bool`, that is positive.
abbrev pub positive : Value → Result ℕ
positive (integer (pos n)) = if n == 0 then err (unsettled invalid_context) else ok n
positive _ = err (unsettled invalid_context)

abbrev pub is_none : Option Value → Bool
is_none none = true
is_none (some null) = true
is_none (some _) = false

-- `key in raw`, with a quantity that is not the one expected.
abbrev pub differs : Option Value → ℕ → Result Bool
differs none n = ok false
differs (some v) n = hex_quantity (some v) >>= λ m. ok (not (m == n))

abbrev pub optional_quantity : Option Value → Result (Option ℕ)
optional_quantity none = ok none
optional_quantity (some v) = hex_quantity (some v) >>= λ m. ok (some m)

-- What the agent has signed, and the chain that the provider serves.
pub record SignedContext : Type 0 where
  pub tx_hash : Value
  pub chain_id : Value
  pub reported_chain_id : Value
  pub wallet_address : Value
  pub recipient_address : Value

-- The result of `verify_fee_receipt`, less its fees, which Fees computes from the same arguments.
pub record Verified : Type 0 where
  pub tx_hash : Text
  pub chain_id : ℕ
  pub block_number : ℕ
  pub block_hash : Text
  pub transaction_index : Option ℕ
  pub wallet_address : Text
  pub recipient_address : Text
  pub is_reverted : Bool

-- The block and the outcome of a transaction that was found to be the signed one.
abbrev pub verify_mined : Fields → ℕ → Text → Text → Text → Result Verified
verify_mined raw chain expected wallet recipient = do
  other_chain ← differs (lookup (codes "chainId") raw) chain
  refuse_if other_chain chain_mismatch
  refuse_if (is_none (lookup (codes "blockNumber") raw) || is_none (lookup (codes "blockHash") raw))
      receipt_pending
  block ← hex_quantity (lookup (codes "blockNumber") raw)
  block_hash ← hex_data (some 32) (lookup (codes "blockHash") raw)
  status ← hex_quantity (lookup (codes "status") raw)
  refuse_if (ltb 1 status) malformed_receipt
  index ← optional_quantity (lookup (codes "transactionIndex") raw)
  ok (record {
    tx_hash = expected;
    chain_id = chain;
    block_number = block;
    block_hash = block_hash;
    transaction_index = index;
    wallet_address = wallet;
    recipient_address = recipient;
    is_reverted = status == 0;
  })

-- The receipt of an object; `None` is a receipt that is not there yet.
abbrev pub verify_object : Fields → SignedContext → Result Verified
verify_object raw c = do
  chain ← positive c.chain_id
  reported ← positive c.reported_chain_id
  refuse_if (not (reported == chain)) chain_mismatch
  expected ← hex_data (some 32) (some c.tx_hash)
  hash ← hex_data (some 32) (lookup (codes "transactionHash") raw)
  refuse_if (not (text_eq hash expected)) transaction_mismatch
  wallet ← hex_data (some 20) (some c.wallet_address)
  recipient ← hex_data (some 20) (some c.recipient_address)
  from ← hex_data (some 20) (lookup (codes "from") raw)
  refuse_if (not (text_eq from wallet)) wallet_mismatch
  to ← hex_data (some 20) (lookup (codes "to") raw)
  refuse_if (not (text_eq to recipient)) recipient_mismatch
  verify_mined raw chain expected wallet recipient

-- `verify_fee_receipt`
unfoldable pub verify_fee_receipt : Value → SignedContext → Result Verified
unfolding hex_data hex_quantity lookup
verify_fee_receipt (Value.dict raw) c = verify_object raw c
verify_fee_receipt null c = err (unsettled receipt_pending)
verify_fee_receipt _ c = err (unsettled malformed_receipt)

-- What a sequence that did not raise shows of its first part, and of what follows it.
pub bind_ok {ℓ} :
    {A B : Type 0} (C : Type ℓ) (b : B) (r : Result A) (f : A → Result B)
    → ((a : A) → r ≡ ok a → f a ≡ ok b → C)
    → (r >>= f) ≡ ok b
    → C
bind_ok C b (ok a) f k h = k a refl h
bind_ok C b (err e) f k h = cc

-- The same of a guard.
pub guard_ok {ℓ} :
    {B : Type 0} (C : Type ℓ) (b : B) (c : Bool) (reason : Unsettled) (k : Result B)
    → (c ≡ false → k ≡ ok b → C)
    → (refuse_if c reason >> k) ≡ ok b
    → C
guard_ok C b true reason k g h = cc
guard_ok C b false reason k g h = g refl h

pub ok_inj : {A : Type 0} (a b : A) → Path (Result A) (ok a) (ok b) → a ≡ b
ok_inj a b h = cc
