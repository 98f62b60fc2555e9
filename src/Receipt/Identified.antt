-- ===== src/Receipt/Identified.antt =====
-- What `verify_fee_receipt` of server/src/services/receipt_settlement.py has compared.
use mangrove_agent.Prelude.{
  ℕ, ◌≡◌, ◌⊎◌, inl, inr, refl, sym, ap, subst, ◌∙◌, Bool, false, not, ◌||◌, ◌==◌, ==_iff, ltb,
  if_cases, of_not-false, Option, none, some,
}
use mangrove_agent.Prelude.Int.{pos, negsuc}
use mangrove_agent.Prelude.Text.{Text, codes, text_eq, eq_of_text_eq}
use mangrove_agent.Flow.{
  Result, ok, err, chain_mismatch, transaction_mismatch, wallet_mismatch, recipient_mismatch,
  receipt_pending, malformed_receipt,
}
use mangrove_agent.Wallet.{
  Value, Fields, boolean, integer, text, bytes, items, dict, null, other, lookup,
}
use mangrove_agent.Receipt.{
  hex_data, hex_quantity, positive, is_none, differs, optional_quantity, SignedContext, Verified,
  ◌>>=◌, verify_mined, verify_object, verify_fee_receipt, ok_inj, bind_ok, guard_ok,
}

-- The chain that the receipt names, when it names one.
abbrev pub IsChain : Fields → ℕ → Type 0
IsChain raw n =
    (lookup (codes "chainId") raw ≡ none) ⊎ hex_quantity (lookup (codes "chainId") raw) ≡ ok n

-- The receipt is the one of the transaction that the agent has signed, on its chain, which a chain
-- that the receipt itself names cannot contradict, and it is mined in the block that it names.
pub record Identifies (raw : Fields) (c : SignedContext) (v : Verified) : Type 0 where
  pub chain : c.chain_id ≡ integer (pos v.chain_id)
  pub same_chain : c.reported_chain_id ≡ integer (pos v.chain_id)
  pub own_chain : IsChain raw v.chain_id
  pub signed : hex_data (some 32) (some c.tx_hash) ≡ ok v.tx_hash
  pub same_hash : hex_data (some 32) (lookup (codes "transactionHash") raw) ≡ ok v.tx_hash
  pub wallet : hex_data (some 20) (some c.wallet_address) ≡ ok v.wallet_address
  pub same_sender : hex_data (some 20) (lookup (codes "from") raw) ≡ ok v.wallet_address
  pub recipient : hex_data (some 20) (some c.recipient_address) ≡ ok v.recipient_address
  pub same_recipient : hex_data (some 20) (lookup (codes "to") raw) ≡ ok v.recipient_address
  pub is_mined : hex_quantity (lookup (codes "blockNumber") raw) ≡ ok v.block_number

positive-eq : (x : Value) (n : ℕ) → positive x ≡ ok n → x ≡ integer (pos n)
positive-eq (integer (pos m)) n =
    if_cases (λ r. r ≡ ok n → integer (pos m) ≡ integer (pos n)) (m == 0) _ _ (λ e h. cc)
      (λ e h. cc)
positive-eq (integer (negsuc m)) n = λ h. cc
positive-eq (boolean b) n = λ h. cc
positive-eq (text s) n = λ h. cc
positive-eq (bytes s) n = λ h. cc
positive-eq (items vs) n = λ h. cc
positive-eq (dict d) n = λ h. cc
positive-eq null n = λ h. cc
positive-eq other n = λ h. cc

same_text : (r : Result Text) (s t : Text) → r ≡ ok s → not (text_eq s t) ≡ false → r ≡ ok t
same_text r s t h e = rw (sym (eq_of_text_eq s t (of_not-false _ e))) h

differs-IsChain :
    (v : Option Value) (n : ℕ) (b : Bool)
    → differs v n ≡ ok b
    → b ≡ false
    → (v ≡ none) ⊎ hex_quantity v ≡ ok n
differs-IsChain none n b h k = inl refl
differs-IsChain (some v) n b h k = inr (go (hex_quantity (some v)) h)
  where
    go : (r : Result ℕ) → (r >>= λ m. ok (not (m == n))) ≡ ok b → r ≡ ok n
    go (ok m) e = ap ok ((==_iff m n).0 (of_not-false _ (ok_inj _ _ e ∙ k)))
    go (err x) e = cc

record IsMined (raw : Fields) (chain : ℕ) (expected wallet recipient : Text) (v : Verified)
    : Type 0 where
  of_chain : chain ≡ v.chain_id
  own_chain : IsChain raw v.chain_id
  of_hash : expected ≡ v.tx_hash
  of_wallet : wallet ≡ v.wallet_address
  of_recipient : recipient ≡ v.recipient_address
  block : hex_quantity (lookup (codes "blockNumber") raw) ≡ ok v.block_number

verify_mined-IsMined :
    (raw : Fields) (chain : ℕ) (expected wallet recipient : Text) (v : Verified)
    → verify_mined raw chain expected wallet recipient ≡ ok v
    → IsMined raw chain expected wallet recipient v
verify_mined-IsMined raw chain expected wallet recipient v =
    bind_ok C v (differs (lookup (codes "chainId") raw) chain) _ (λ differing is_differing.
      guard_ok C v differing chain_mismatch _ (λ same.
        guard_ok C v
          (is_none (lookup (codes "blockNumber") raw) || is_none (lookup (codes "blockHash") raw))
          receipt_pending _
          (λ there. bind_ok C v (hex_quantity (lookup (codes "blockNumber") raw)) _ (λ n is_block.
            bind_ok C v (hex_data (some 32) (lookup (codes "blockHash") raw)) _ (λ hash is_hash.
              bind_ok C v (hex_quantity (lookup (codes "status") raw)) _ (λ status is_status.
                guard_ok C v (ltb 1 status) malformed_receipt _ (λ in_range.
                  bind_ok C v (optional_quantity (lookup (codes "transactionIndex") raw)) _
                    (λ i is_index e.
                      subst (IsMined raw chain expected wallet recipient) (ok_inj _ v e) (record {
                        of_chain = refl;
                        own_chain =
                            differs-IsChain (lookup (codes "chainId") raw) chain differing
                              is_differing same;
                        of_hash = refl;
                        of_wallet = refl;
                        of_recipient = refl;
                        block = is_block;
                      })))))))))
  where
    C : Type 0
    C = IsMined raw chain expected wallet recipient v

verify_object-Identifies :
    (raw : Fields) (c : SignedContext) (v : Verified)
    → verify_object raw c ≡ ok v
    → Identifies raw c v
verify_object-Identifies raw c v = bind_ok C v (positive c.chain_id) _ (λ chain is_chain.
    bind_ok C v (positive c.reported_chain_id) _ (λ reported is_reported.
      guard_ok C v (not (reported == chain)) chain_mismatch _ (λ same_chain.
        bind_ok C v (hex_data (some 32) (some c.tx_hash)) _ (λ expected signed.
          bind_ok C v (hex_data (some 32) (lookup (codes "transactionHash") raw)) _ (λ hash is_hash.
            guard_ok C v (not (text_eq hash expected)) transaction_mismatch _ (λ same_hash.
              bind_ok C v (hex_data (some 20) (some c.wallet_address)) _ (λ wallet is_wallet.
                bind_ok C v (hex_data (some 20) (some c.recipient_address)) _
                  (λ recipient is_recipient.
                    bind_ok C v (hex_data (some 20) (lookup (codes "from") raw)) _ (λ from is_from.
                      guard_ok C v (not (text_eq from wallet)) wallet_mismatch _ (λ same_wallet.
                        bind_ok C v (hex_data (some 20) (lookup (codes "to") raw)) _ (λ to is_to.
                          guard_ok C v (not (text_eq to recipient)) recipient_mismatch _ (λ same_to.
                            λ rest.
                              let m =
                                verify_mined-IsMined raw chain expected wallet recipient v rest in
                              let same_reported =
                                (==_iff reported chain).0 (of_not-false _ same_chain) in
                              record {
                                chain = rw (sym m.of_chain) (positive-eq c.chain_id chain is_chain);
                                same_chain = rw (sym m.of_chain) (
                                    rw (sym same_reported)
                                      (positive-eq c.reported_chain_id reported is_reported));
                                own_chain = m.own_chain;
                                signed = rw (sym m.of_hash) signed;
                                same_hash =
                                    rw (sym m.of_hash)
                                      (same_text _ hash expected is_hash same_hash);
                                wallet = rw (sym m.of_wallet) is_wallet;
                                same_sender =
                                    rw (sym m.of_wallet)
                                      (same_text _ from wallet is_from same_wallet);
                                recipient = rw (sym m.of_recipient) is_recipient;
                                same_recipient =
                                    rw (sym m.of_recipient)
                                      (same_text _ to recipient is_to same_to);
                                is_mined = m.block;
                              }))))))))))))
  where
    C : Type 0
    C = Identifies raw c v

-- A receipt is accepted only if it is the receipt of the signed transaction: of its hash, sender,
-- recipient and chain, where the chain is the one that the provider serves and the one that the
-- receipt names, when it names one, and in the block whose number it has.
pub verify_fee_receipt-Identifies :
    (raw : Fields) (c : SignedContext) (v : Verified)
    → verify_fee_receipt (dict raw) c ≡ ok v
    → Identifies raw c v
unfolding verify_fee_receipt
verify_fee_receipt-Identifies = verify_object-Identifies
