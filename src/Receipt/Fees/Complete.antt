-- ===== src/Receipt/Fees/Complete.antt =====
-- A native fee that is reported as complete is the sum of what the receipt charges.
use mangrove_agent.Prelude.{
  ℕ, ◌+◌, ◌*◌, ◌≡◌, ◌⊎◌, inl, inr, refl, Bool, true, false, not, ◌&&◌, ◌||◌, Option, none, some,
  List, [], ◌∷◌, ◌++◌, All, if_cases, of_not-false, arith,
}
use mangrove_agent.Prelude.Text.{Text, codes}
use mangrove_agent.Flow.{Result, ok, err}
use mangrove_agent.Wallet.{Value, Fields, lookup}
use mangrove_agent.Receipt.{hex_quantity}
use mangrove_agent.Receipt.Fees.{
  is_op, is_supported, Issue, Part, issue_if, has, product_part, execution_part, charged_part,
  separate_part, blob_part, scalar_of, scalar_part, has_unknown, parts, component_or_0, join_parts,
  complete_amount, receipt_fees, native_fee_amount,
}

-- A charge is what its key says, and nothing without the key.
abbrev pub IsCharged : Option Value → ℕ → Type 0
IsCharged v n = (v ≡ none) × (n ≡ 0) ⊎ hex_quantity v ≡ ok n

-- The product of two quantities.
abbrev pub IsProduct : Option Value → Option Value → ℕ → Type 0
IsProduct u v n =
    (a : ℕ) × (b : ℕ) × (hex_quantity u ≡ ok a) × (hex_quantity v ≡ ok b) × (n ≡ a * b)

pub record IsSum (raw : Fields) (chain total : ℕ) : Type 0 where
  pub execution : ℕ
  pub l1 : ℕ
  pub operator : ℕ
  pub blob : ℕ
  pub is_execution :
      IsProduct (lookup (codes "gasUsed") raw) (lookup (codes "effectiveGasPrice") raw) execution
  pub is_l1 : IsCharged (lookup (codes "l1Fee") raw) l1
  pub is_operator : IsCharged (lookup (codes "operatorFee") raw) operator
  pub is_blob :
      ((has (codes "blobGasUsed") raw || has (codes "blobGasPrice") raw ≡ false) × (blob ≡ 0))
      ⊎ IsProduct (lookup (codes "blobGasUsed") raw) (lookup (codes "blobGasPrice") raw) blob
  pub l1_reported : is_op chain ≡ true → has (codes "l1Fee") raw ≡ true
  pub supported : is_supported chain ≡ true
  pub all_known : has_unknown chain raw ≡ false
  pub is_total : total ≡ execution + l1 + operator + blob

append-nil : {A : Type 0} (xs ys : List A) → xs ++ ys ≡ [] → (xs ≡ []) × (ys ≡ [])
append-nil [] ys h = (refl, h)
append-nil (x ∷ xs) ys h = cc

join_parts-settled : (ps : List Part) → (join_parts ps).issues ≡ [] → All (λ p. p.issues ≡ []) ps
join_parts-settled [] h = tt
join_parts-settled (p ∷ ps) h =
    let (one, others) = append-nil p.issues (join_parts ps).issues h in
    (one, join_parts-settled ps others)

complete_amount-some :
    (is : List Issue) (k n : ℕ) → complete_amount is k ≡ some n → (is ≡ []) × (k ≡ n)
complete_amount-some [] k n h = (refl, cc)
complete_amount-some (i ∷ is) k n h = cc

issue_if-0 :
    (b : Bool) (i : Issue)
    → (issue_if b i).issues ≡ []
    → (b ≡ false) × (component_or_0 (issue_if b i).component ≡ 0)
issue_if-0 true i h = cc
issue_if-0 false i h = (refl, refl)

scalar_part-0 : (b : Bool) (v : Option Value) → component_or_0 (scalar_part b v).component ≡ 0
scalar_part-0 b none = refl
scalar_part-0 true (some v) = refl
scalar_part-0 false (some v) = go (hex_quantity (some v))
  where
    go : (r : Result ℕ) → component_or_0 (scalar_of r).component ≡ 0
    go (ok n) = ground arith
    go (err e) = refl

product_part-IsProduct :
    (i : Issue) (u v : Option Value)
    → (product_part i (hex_quantity u) (hex_quantity v)).issues ≡ []
    → IsProduct u v (component_or_0 (product_part i (hex_quantity u) (hex_quantity v)).component)
product_part-IsProduct i u v = go (hex_quantity u) (hex_quantity v) refl refl
  where
    go :
        (r s : Result ℕ)
        → hex_quantity u ≡ r
        → hex_quantity v ≡ s
        → (product_part i r s).issues ≡ []
        → IsProduct u v (component_or_0 (product_part i r s).component)
    go (ok a) (ok b) e f h = (a, b, e, f, refl)
    go (ok a) (err x) e f h = cc
    go (err x) s e f h = cc

separate_part-IsCharged :
    (op : Bool) (key : Text) (v : Option Value)
    → (separate_part op key v).issues ≡ []
    → IsCharged v (component_or_0 (separate_part op key v).component)
separate_part-IsCharged op key none h = inl (refl, refl)
separate_part-IsCharged op key (some v) h = inr (go op (hex_quantity (some v)) h)
  where
    go :
        (op : Bool) (r : Result ℕ)
        → (charged_part op key r).issues ≡ []
        → r ≡ ok (component_or_0 (charged_part op key r).component)
    go true (ok n) g = refl
    go false (ok n) g = cc
    go op (err x) g = cc

blob_part-IsProduct :
    (raw : Fields)
    → (blob_part raw).issues ≡ []
    → ((has (codes "blobGasUsed") raw || has (codes "blobGasPrice") raw ≡ false)
        × (component_or_0 (blob_part raw).component ≡ 0))
      ⊎ IsProduct
          (lookup (codes "blobGasUsed") raw)
          (lookup (codes "blobGasPrice") raw)
          (component_or_0 (blob_part raw).component)
blob_part-IsProduct raw =
    if_cases P (has (codes "blobGasUsed") raw || has (codes "blobGasPrice") raw) _ _
      (λ e h. inr (
        product_part-IsProduct _ (lookup (codes "blobGasUsed") raw)
          (lookup (codes "blobGasPrice") raw) h))
      (λ e h. inl (e, refl))
  where
    P : Part → Type 0
    P p =
        p.issues ≡ []
        → ((has (codes "blobGasUsed") raw || has (codes "blobGasPrice") raw ≡ false)
            × (component_or_0 p.component ≡ 0))
          ⊎ IsProduct (lookup (codes "blobGasUsed") raw) (lookup (codes "blobGasPrice") raw)
              (component_or_0 p.component)

implied : (a b : Bool) → a && not b ≡ false → a ≡ true → b ≡ true
implied true true h e = refl
implied true false h e = cc
implied false b h e = cc

-- A native fee is reported as complete only on a chain whose fees are understood, only if the receipt
-- names no other fee or gas than those, and only if the charge for the data on layer 1 is there where
-- there is one; it is then the execution fee, the charges for layer 1 and for the operator, each as
-- the receipt has it and nothing without its key, and the product of the blob gas and its price, or,
-- when the receipt has neither of the two, nothing for blobs.
pub native_fee_amount-IsSum :
    (raw : Fields) (chain total : ℕ)
    → native_fee_amount raw chain ≡ some total
    → IsSum raw chain total
unfolding native_fee_amount receipt_fees
native_fee_amount-IsSum raw chain total h =
    let (no_issues, known) = complete_amount-some _ _ total h in
    let (execution, s1) = join_parts-settled (parts raw chain) no_issues in
    let (supported, s2) = s1 in
    let (l1, s3) = s2 in
    let (operator, s4) = s3 in
    let (l1_there, s5) = s4 in
    let (blob, s6) = s5 in
    let (operator_there, s7) = s6 in
    let (scalar, s8) = s7 in
    let (constant, s9) = s8 in
    let (unknown, s10) = s9 in
    let (hints, s11) = s10 in
    let (is_supported_or, zero_supported) = issue_if-0 (not (is_supported chain)) _ supported in
    let (l1_reported, zero_l1) =
      issue_if-0 (is_op chain && not (has (codes "l1Fee") raw)) _ l1_there in
    let (operator_reported, zero_operator) = issue_if-0 _ _ operator_there in
    let (all_known, zero_unknown) = issue_if-0 (has_unknown chain raw) _ unknown in
    let (no_hints, zero_hints) = issue_if-0 _ _ hints in
    record {
      execution = component_or_0 (execution_part raw).component;
      l1 =
          component_or_0
            (separate_part (is_op chain) (codes "l1Fee") (lookup (codes "l1Fee") raw)).component;
      operator =
          component_or_0
            (separate_part (is_op chain) (codes "operatorFee")
              (lookup (codes "operatorFee") raw)).component;
      blob = component_or_0 (blob_part raw).component;
      is_execution =
          product_part-IsProduct _ (lookup (codes "gasUsed") raw)
            (lookup (codes "effectiveGasPrice") raw) execution;
      is_l1 = separate_part-IsCharged (is_op chain) _ (lookup (codes "l1Fee") raw) l1;
      is_operator =
          separate_part-IsCharged (is_op chain) _ (lookup (codes "operatorFee") raw) operator;
      is_blob = blob_part-IsProduct raw blob;
      l1_reported = λ op. implied (is_op chain) (has (codes "l1Fee") raw) l1_reported op;
      supported = of_not-false (is_supported chain) is_supported_or;
      all_known = all_known;
      is_total = omega (
        arith,
        known,
        zero_supported,
        zero_l1,
        zero_operator,
        zero_unknown,
        zero_hints,
        scalar_part-0 (has (codes "operatorFee") raw) (lookup (codes "operatorFeeScalar") raw),
        scalar_part-0 (has (codes "operatorFee") raw) (lookup (codes "operatorFeeConstant") raw),
      );
    }
