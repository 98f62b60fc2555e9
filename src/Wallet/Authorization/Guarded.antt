-- ===== src/Wallet/Authorization/Guarded.antt =====
-- What the guard of payments lets through.
use mangrove_agent.Prelude.{
  ℕ, ◌≡◌, ◌≤◌, ◌<◌, refl, sym, ap, ◌∙◌, subst, true, false, ◌&&◌, Option, none, some, [], ◌∷◌, leb,
  ◌==◌, arith, Bool-cases, ◌⊎◌, inl, inr,
}
use mangrove_agent.Prelude.Int.{pos, negsuc}
use mangrove_agent.Prelude.Text.{Text, codes, text_eq, eq_of_text_eq, lower}
use mangrove_agent.Flow.{
  Result, ok, err, Error, Result-cases, Action, pure, bind_result, ◌>>=◌, ◌>>◌,
}
use mangrove_agent.Wallet.{
  Value, Fields, boolean, integer, text, bytes, items, dict, null, other, lookup, keys_within,
  is_text, is_hex_address_text,
}
use mangrove_agent.Wallet.Authorization.{
  primary, usdc_of, usdc_name, is_usdc, is_struct, has_exactly, message_keys, domain_keys, as_dict,
  as_chain, as_address, address_text, as_uint256, uint256_max, is_zero_address, nonce_size,
  Approved, check_types, check_domain, check_parties, check_amount, validate_x402_authorization,
}

-- A key that holds this text.
abbrev Holds : Fields → Text → Text → Type 0
Holds d key s = lookup key d ≡ some (text s)

abbrev HoldsInt : Fields → Text → ℕ → Type 0
HoldsInt d key n = lookup key d ≡ some (integer (pos n))

pub record IsStruct (types : Fields) : Type 0 where
  pub struct : is_struct (lookup primary types) ≡ true
  pub no_other_types : keys_within (primary ∷ codes "EIP712Domain" ∷ []) types ≡ true

-- The domain of USDC on the chain.
pub record IsUsdc (domain : Fields) (chain : ℕ) : Type 0 where
  pub no_other_keys : keys_within domain_keys domain ≡ true
  pub is_chain : HoldsInt domain (codes "chainId") chain
  pub contract : Text
  pub is_contract : Holds domain (codes "verifyingContract") contract
  pub is_token : usdc_of chain ≡ some (lower contract)
  pub is_named : is_text (usdc_name chain) (lookup (codes "name") domain) ≡ true

-- The wallet pays somebody.
pub record Pays (message : Fields) (wallet_address payee : Text) : Type 0 where
  pub exact_keys : has_exactly message_keys message ≡ true
  pub payer : Text
  pub is_payer : Holds message (codes "from") payer
  pub is_wallet : lower payer ≡ lower wallet_address
  pub is_payee : Holds message (codes "to") payee
  pub not_zero : is_zero_address payee ≡ ok false

-- An amount that fits, a window that is not empty, and a nonce of 32 bytes.
pub record IsOnce (message : Fields) (value : ℕ) : Type 0 where
  pub is_value : HoldsInt message (codes "value") value
  pub fits : value ≤ uint256_max
  pub valid_after : ℕ
  pub valid_before : ℕ
  pub is_after : HoldsInt message (codes "validAfter") valid_after
  pub is_before : HoldsInt message (codes "validBefore") valid_before
  pub window : valid_after < valid_before
  pub nonce : nonce_size (lookup (codes "nonce") message) ≡ 32

pub record IsPayment (domain types message : Value) (wallet_address : Text) (a : Approved)
    : Type 0 where
  pub domain_fields : Fields
  pub type_fields : Fields
  pub message_fields : Fields
  pub is_domain : domain ≡ dict domain_fields
  pub is_types : types ≡ dict type_fields
  pub is_message : message ≡ dict message_fields
  pub signs : IsStruct type_fields
  pub token : IsUsdc domain_fields a.chain_id
  pub parties : Pays message_fields wallet_address a.payee
  pub once : IsOnce message_fields a.value

as_dict-eq : (v : Value) (d : Fields) → as_dict v ≡ ok d → v ≡ dict d
as_dict-eq (dict e) d h = ground arith
as_dict-eq (boolean b) d h = cc
as_dict-eq (integer n) d h = cc
as_dict-eq (text s) d h = cc
as_dict-eq (bytes s) d h = cc
as_dict-eq (items vs) d h = cc
as_dict-eq other d h = cc
as_dict-eq null d h = cc

as_uint256-eq :
    (v : Option Value) (n : ℕ)
    → as_uint256 v ≡ ok n
    → (v ≡ some (integer (pos n))) × (n ≤ uint256_max)
as_uint256-eq (some (integer (pos m))) n h = ground arith
as_uint256-eq (some (integer (negsuc m))) n h = cc
as_uint256-eq (some (dict e)) n h = cc
as_uint256-eq (some (boolean b)) n h = cc
as_uint256-eq (some (text s)) n h = cc
as_uint256-eq (some (bytes s)) n h = cc
as_uint256-eq (some (items vs)) n h = cc
as_uint256-eq (some other) n h = cc
as_uint256-eq (some null) n h = cc
as_uint256-eq none n h = cc

as_chain-eq : (v : Option Value) (n : ℕ) → as_chain v ≡ ok n → v ≡ some (integer (pos n))
as_chain-eq (some (integer (pos m))) n h = ground arith
as_chain-eq (some (integer (negsuc m))) n h = cc
as_chain-eq (some (dict e)) n h = cc
as_chain-eq (some (boolean b)) n h = cc
as_chain-eq (some (text s)) n h = cc
as_chain-eq (some (bytes s)) n h = cc
as_chain-eq (some (items vs)) n h = cc
as_chain-eq (some other) n h = cc
as_chain-eq (some null) n h = cc
as_chain-eq none n h = cc

address_text-eq : (s t : Text) → address_text s ≡ ok t → s ≡ t
address_text-eq s t h = elim (Bool-cases (is_hex_address_text s)) [
  | inl k ↦ ground (arith, rw k at h)
  | inr k ↦ cc (rw k at h)
]

as_address-eq : (v : Option Value) (t : Text) → as_address v ≡ ok t → v ≡ some (text t)
as_address-eq (some (text s)) t h = ground (arith, address_text-eq s t h)
as_address-eq (some (integer n)) t h = cc
as_address-eq (some (dict e)) t h = cc
as_address-eq (some (boolean b)) t h = cc
as_address-eq (some (bytes s)) t h = cc
as_address-eq (some (items vs)) t h = cc
as_address-eq (some other) t h = cc
as_address-eq (some null) t h = cc
as_address-eq none t h = cc

is_usdc-eq : (chain : ℕ) (c : Text) → is_usdc chain c ≡ true → usdc_of chain ≡ some (lower c)
is_usdc-eq chain c h = go (usdc_of chain) refl h
  where
    go :
        (o : Option Text)
        → usdc_of chain ≡ o
        → is_usdc chain c ≡ true
        → usdc_of chain ≡ some (lower c)
    go none e h' = ground arith
    go (some t) e h' = e ∙ ap some (sym (eq_of_text_eq (lower c) t (rw e at h')))

returned-eq :
    {A S : Type 0} (a b : A) (s t : S) → Path (Result A × S) (ok a, s) (ok b, t) → (a ≡ b) × (t ≡ s)
returned-eq a b s t h = ground arith

pub Reply-cases :
    {A S : Type 0} (r : Result A × S)
    → ((a : A) × (u : S) × (r ≡ (ok a, u))) ⊎ ((e : Error) × (u : S) × (r ≡ (err e, u)))
Reply-cases (ok a, u) = inl (a, u, refl)
Reply-cases (err e, u) = inr (e, u, refl)

-- The checks one after the other, on the parsed parts.
abbrev checks : {S : Type 0} → Text → Fields → Fields → Fields → Text → Action S Approved
checks primary_type d ts m wallet_address = do
  check_types primary_type ts
  chain ← check_domain d
  payee ← check_parties m wallet_address
  value ← check_amount m
  pure (record { payee = payee; value = value; chain_id = chain })

module _ {S : Type 0} (s : S) where
  check_types-IsStruct :
      (primary_type : Text) (ts : Fields) (t : S)
      → check_types primary_type ts s ≡ (ok tt, t)
      → (t ≡ s) × IsStruct ts
  unfolding check_types
  check_types-IsStruct primary_type ts t h = elim (Bool-cases (text_eq primary_type primary)) [
    | inr a ↦ ground (arith, rw a at h)
    | inl a ↦
        let same = eq_of_text_eq primary_type primary a in
        elim (Bool-cases (is_struct (lookup primary_type ts))) [
          | inr b ↦ ground (arith, rw (a, b) at h)
          | inl b ↦ elim (Bool-cases (keys_within (primary_type ∷ codes "EIP712Domain" ∷ []) ts)) [
            | inr c ↦ ground (arith, rw (a, b, c) at h)
            | inl c ↦ (
              (returned-eq tt tt s t (rw (a, b, c) at h)).1,
              record { struct = rw same at b; no_other_types = rw same at c },
            )
          ]
        ]
  ]

  check_domain-IsUsdc :
      (d : Fields) (chain : ℕ) (t : S) → check_domain d s ≡ (ok chain, t) → (t ≡ s) × IsUsdc d chain
  unfolding check_domain
  check_domain-IsUsdc d chain t h = elim (Bool-cases (keys_within domain_keys d)) [
    | inr a ↦ ground (arith, rw a at h)
    | inl a ↦ elim (Result-cases (as_chain (lookup (codes "chainId") d))) [
      | inr (x, b) ↦ ground (arith, rw (a, b) at h)
      | inl (n, b) ↦ elim (Result-cases (as_address (lookup (codes "verifyingContract") d))) [
        | inr (x, c) ↦ ground (arith, rw (a, b, c) at h)
        | inl (contract, c) ↦ elim (Bool-cases (is_usdc n contract)) [
          | inr e ↦ ground (arith, rw (a, b, c, e) at h)
          | inl e ↦
              elim (Bool-cases (
                is_text (usdc_name n) (lookup (codes "name") d)
                && is_text (codes "2") (lookup (codes "version") d))) [
                  | inr f ↦ ground (arith, rw (a, b, c, e, f) at h)
                  | inl f ↦
                      let (same, stays) = returned-eq n chain s t (rw (a, b, c, e, f) at h) in
                      (
                        stays,
                        subst (IsUsdc d) same (record {
                          no_other_keys = a;
                          is_chain = as_chain-eq (lookup (codes "chainId") d) n b;
                          contract = contract;
                          is_contract =
                              as_address-eq (lookup (codes "verifyingContract") d) contract c;
                          is_token = is_usdc-eq n contract e;
                          is_named = ground arith;
                        }),
                      )
                ]
        ]
      ]
    ]
  ]

  check_parties-Pays :
      (m : Fields) (wallet_address payee : Text) (t : S)
      → check_parties m wallet_address s ≡ (ok payee, t)
      → (t ≡ s) × Pays m wallet_address payee
  unfolding check_parties
  check_parties-Pays m wallet_address payee t h = elim (Bool-cases (has_exactly message_keys m)) [
    | inr a ↦ ground (arith, rw a at h)
    | inl a ↦ elim (Result-cases (as_address (lookup (codes "from") m))) [
      | inr (x, b) ↦ ground (arith, rw (a, b) at h)
      | inl (payer, b) ↦ elim (Result-cases (as_address (lookup (codes "to") m))) [
        | inr (x, c) ↦ ground (arith, rw (a, b, c) at h)
        | inl (to, c) ↦ elim (Result-cases (is_zero_address to)) [
          | inr (x, e) ↦ ground (arith, rw (a, b, c, e) at h)
          | inl (true, e) ↦ ground (arith, rw (a, b, c, e) at h)
          | inl (false, e) ↦ elim (Bool-cases (text_eq (lower payer) (lower wallet_address))) [
            | inr f ↦ ground (arith, rw (a, b, c, e, f) at h)
            | inl f ↦
                let (same, stays) = returned-eq to payee s t (rw (a, b, c, e, f) at h) in
                (
                  stays,
                  subst (Pays m wallet_address) same (record {
                    exact_keys = a;
                    payer = payer;
                    is_payer = as_address-eq (lookup (codes "from") m) payer b;
                    is_wallet = eq_of_text_eq (lower payer) (lower wallet_address) f;
                    is_payee = as_address-eq (lookup (codes "to") m) to c;
                    not_zero = e;
                  }),
                )
          ]
        ]
      ]
    ]
  ]

  check_amount-IsOnce :
      (m : Fields) (value : ℕ) (t : S) → check_amount m s ≡ (ok value, t) → (t ≡ s) × IsOnce m value
  unfolding check_amount
  check_amount-IsOnce m value t h = elim (Result-cases (as_uint256 (lookup (codes "value") m))) [
    | inr (x, e) ↦ ground (arith, rw e at h)
    | inl (v, e) ↦ elim (Result-cases (as_uint256 (lookup (codes "validAfter") m))) [
      | inr (x, f) ↦ ground (arith, rw (e, f) at h)
      | inl (va, f) ↦ elim (Result-cases (as_uint256 (lookup (codes "validBefore") m))) [
        | inr (x, g) ↦ ground (arith, rw (e, f, g) at h)
        | inl (vb, g) ↦ elim (Bool-cases (leb vb va)) [
          | inl k ↦ ground (arith, rw (e, f, g, k) at h)
          | inr k ↦ elim (Bool-cases (nonce_size (lookup (codes "nonce") m) == 32)) [
            | inr l ↦ ground (arith, rw (e, f, g, k, l) at h)
            | inl l ↦
                let (same, stays) = returned-eq v value s t (rw (e, f, g, k, l) at h) in
                let (is_v, fit) = as_uint256-eq (lookup (codes "value") m) v e in
                (
                  stays,
                  subst (IsOnce m) same (record {
                    is_value = is_v;
                    fits = fit;
                    valid_after = va;
                    valid_before = vb;
                    is_after = (as_uint256-eq (lookup (codes "validAfter") m) va f).0;
                    is_before = (as_uint256-eq (lookup (codes "validBefore") m) vb g).0;
                    window = ground arith;
                    nonce = ground arith;
                  }),
                )
          ]
        ]
      ]
    ]
  ]

checks-returns :
    {S : Type 0} (p : Text) (d ts m : Fields) (w : Text) (a : Approved) (s t : S)
    → checks p d ts m w s ≡ (ok a, t)
    → (t ≡ s) × IsStruct ts × IsUsdc d a.chain_id × Pays m w a.payee × IsOnce m a.value
checks-returns p d ts m w a s t h = elim (Reply-cases (check_types p ts s)) [
  | inr (x, u, e) ↦ ground (arith, rw e at h)
  | inl (x, s1, e) ↦ elim (Reply-cases (check_domain d s1)) [
    | inr (y, u, f) ↦ ground (arith, rw (e, f) at h)
    | inl (chain, s2, f) ↦ elim (Reply-cases (check_parties m w s2)) [
      | inr (y, u, g) ↦ ground (arith, rw (e, f, g) at h)
      | inl (payee, s3, g) ↦ elim (Reply-cases (check_amount m s3)) [
        | inr (y, u, k) ↦ ground (arith, rw (e, f, g, k) at h)
        | inl (value, s4, k) ↦
            let (same, stays) = returned-eq _ a s4 t (rw (e, f, g, k) at h) in
            let (e1, is_struct) = check_types-IsStruct s p ts s1 e in
            let (e2, usdc) = check_domain-IsUsdc s1 d chain s2 f in
            let (e3, pays) = check_parties-Pays s2 m w payee s3 g in
            let (e4, once) = check_amount-IsOnce s3 m value s4 k in
            (
              stays ∙ e4 ∙ e3 ∙ e2 ∙ e1,
              is_struct,
              subst (λ b. IsUsdc d b.chain_id) same usdc,
              subst (λ b. Pays m w b.payee) same pays,
              subst (λ b. IsOnce m b.value) same once,
            )
      ]
    ]
  ]
]

-- A payload that the guard lets through is a payment in USDC: its struct, keys and domain are the
-- canonical ones, the contract is the one of USDC on the chain that it names, the payer is the
-- signing wallet, the payee is not the zero address, the amount fits a uint256, the window is not
-- empty and the nonce has 32 bytes; and the payee, the amount and the chain that go to the log are
-- those of the payload. The guard leaves the state as it was.
pub validate_x402_authorization-IsPayment :
    {S : Type 0} (domain types message : Value) (primary_type wallet_address : Text) (a : Approved)
    (s t : S)
    → validate_x402_authorization domain types primary_type message wallet_address s ≡ (ok a, t)
    → (t ≡ s) × IsPayment domain types message wallet_address a
unfolding validate_x402_authorization
validate_x402_authorization-IsPayment domain types message primary_type wallet_address a s t h =
    elim (Result-cases (as_dict domain)) [
      | inr (x, e) ↦ ground (arith, rw e at h)
      | inl (d, e) ↦ elim (Result-cases (as_dict types)) [
        | inr (x, f) ↦ ground (arith, rw (e, f) at h)
        | inl (ts, f) ↦ elim (Result-cases (as_dict message)) [
          | inr (x, g) ↦ ground (arith, rw (e, f, g) at h)
          | inl (m, g) ↦
              let (stays, signs, token, parties, once) =
                checks-returns primary_type d ts m wallet_address a s t (rw (e, f, g) at h) in
              (
                stays,
                record {
                  domain_fields = d;
                  type_fields = ts;
                  message_fields = m;
                  is_domain = as_dict-eq domain d e;
                  is_types = as_dict-eq types ts f;
                  is_message = as_dict-eq message m g;
                  signs = signs;
                  token = token;
                  parties = parties;
                  once = once;
                },
              )
        ]
      ]
    ]

module _ {S : Type 0} where
  bind-keeps :
      {A B : Type 0} (r : Result A × S) (f : A → Action S B) (s : S)
      → r.1 ≡ s
      → ((a : A) (u : S) → (f a u).1 ≡ u)
      → (bind_result r f).1 ≡ s
  bind-keeps (ok a, u) f s h k = k a u ∙ h
  bind-keeps (err e, u) f s h k = h

  check_types-keeps : (p : Text) (ts : Fields) (s : S) → (check_types p ts s).1 ≡ s
  unfolding check_types
  check_types-keeps p ts s = ground arith

  check_domain-keeps : (d : Fields) (s : S) → (check_domain d s).1 ≡ s
  unfolding check_domain
  check_domain-keeps d s = ground arith

  check_parties-keeps : (m : Fields) (w : Text) (s : S) → (check_parties m w s).1 ≡ s
  unfolding check_parties
  check_parties-keeps m w s = ground arith

  check_amount-keeps : (m : Fields) (s : S) → (check_amount m s).1 ≡ s
  unfolding check_amount
  check_amount-keeps m s = ground arith

  checks-keeps : (p : Text) (d ts m : Fields) (w : Text) (s : S) → (checks p d ts m w s).1 ≡ s
  checks-keeps p d ts m w s = bind-keeps (check_types p ts s) _ s (check_types-keeps p ts s) (λ _ u.
      bind-keeps (check_domain d u) _ u (check_domain-keeps d u) (λ _ v.
        bind-keeps (check_parties m w v) _ v (check_parties-keeps m w v)
          (λ _ x. bind-keeps (check_amount m x) _ x (check_amount-keeps m x) (λ _ y. refl))))

  -- The guard writes nothing.
  pub validate_x402_authorization-keeps :
      (domain types message : Value) (p w : Text) (s : S)
      → (validate_x402_authorization domain types p message w s).1 ≡ s
  unfolding validate_x402_authorization
  validate_x402_authorization-keeps domain types message p w s =
      elim (Result-cases (as_dict domain)) [
        | inr (x, e) ↦ rw e refl
        | inl (d, e) ↦ elim (Result-cases (as_dict types)) [
          | inr (x, f) ↦ rw (e, f) refl
          | inl (ts, f) ↦ elim (Result-cases (as_dict message)) [
            | inr (x, g) ↦ rw (e, f, g) refl
            | inl (m, g) ↦ rw (e, f, g) (checks-keeps p d ts m w s)
          ]
        ]
      ]
