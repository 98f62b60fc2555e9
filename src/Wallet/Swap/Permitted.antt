-- ===== src/Wallet/Swap/Permitted.antt =====
-- What the guard of transactions lets through.
use mathlib.Core.List.{append_assoc}
use mangrove_agent.Prelude.{
  ◌≡◌, ◌≢◌, ◌⊎◌, inl, inr, refl, sym, ap, ◌∙◌, true, false, Option, none, some, [], ◌∷◌, ◌++◌, any,
  take, drop, leb, length, length-take, length-drop, take-drop, arith, Bool-cases,
}
use mangrove_agent.Prelude.Text.{Text, text_eq, eq_of_text_eq, lower}
use mangrove_agent.Flow.{ok, err, signing}
use mangrove_agent.Wallet.Swap.{
  Transaction, oneinch_routers, is_oneinch_router, approve_selector, extract_approve_spender,
  spender_of, validate_sign_target, is_refused_type,
}

-- An address of a 1inch router, in any case of its letters.
abbrev pub IsRouter : Text → Type 0
IsRouter addr = any (text_eq (lower addr)) oneinch_routers ≡ true

-- The call data, in lower case, is `approve` for a router: the selector, 24 digits of padding, the
-- 40 digits of the router and the rest.
pub record Approves (call : Text) : Type 0 where
  pub padding : Text
  pub digits : Text
  pub rest : Text
  pub shape : lower call ≡ approve_selector ++ padding ++ digits ++ rest
  pub padding_length : length padding ≡ 24
  pub digits_length : length digits ≡ 40
  pub router : IsRouter (b'0' ∷ b'x' ∷ digits)

pub record IsSwap (tx : Transaction) : Type 0 where
  pub not_blob : tx.type ≢ some 3
  pub not_delegation : tx.type ≢ some 4
  pub no_authorizations : tx.has_authorization_list ≡ false
  pub to : Text
  pub is_sent : tx.to ≡ some to
  pub target : IsRouter to ⊎ ((call : Text) × (tx.data_text ≡ some call) × Approves call)

-- The 32 bytes of the spender.
abbrev slot : Text → Text
slot s = take 64 (drop 10 s)

slot-length : (s : Text) → leb 74 (length s) ≡ true → length (slot s) ≡ 64
slot-length s h = length-take 64 (drop 10 s) (ground (arith, length-drop 10 s))

shape-cut :
    (s : Text)
    → text_eq (take 10 s) approve_selector ≡ true
    → s ≡ approve_selector ++ take 24 (slot s) ++ drop 24 (slot s) ++ drop 64 (drop 10 s)
shape-cut s h =
    sym (take-drop 10 s)
    ∙ ap (λ t. t ++ drop 10 s) (eq_of_text_eq (take 10 s) approve_selector h)
    ∙ ap (λ t. approve_selector ++ t) (sym (take-drop 64 (drop 10 s)))
    ∙ sym (append_assoc approve_selector (slot s) (drop 64 (drop 10 s)))
    ∙ ap (λ t. approve_selector ++ t ++ drop 64 (drop 10 s)) (sym (take-drop 24 (slot s)))
    ∙ ap (λ t. t ++ drop 64 (drop 10 s))
        (sym (append_assoc approve_selector (take 24 (slot s)) (drop 24 (slot s))))

Approves-intro :
    (call s : Text) → lower call ≡ s → is_oneinch_router (spender_of s) ≡ true → Approves call
unfolding is_oneinch_router
Approves-intro call s e h = elim (Bool-cases (text_eq (take 10 s) approve_selector)) [
  | inr bad ↦ cc (rw bad at h)
  | inl same ↦ elim (Bool-cases (leb 74 (length s))) [
    | inr short ↦ cc (rw (same, short) at h)
    | inl long ↦ record {
      padding = take 24 (slot s);
      digits = drop 24 (slot s);
      rest = drop 64 (drop 10 s);
      shape = e ∙ shape-cut s same;
      padding_length = length-take 24 (slot s) (ground (arith, slot-length s long));
      digits_length = ground (arith, length-drop 24 (slot s), slot-length s long);
      router = rw (same, long) at h;
    }
  ]
]

target_of :
    (call : Option Text)
    → is_oneinch_router (extract_approve_spender call) ≡ true
    → (c : Text) × (call ≡ some c) × Approves c
unfolding extract_approve_spender is_oneinch_router
target_of none h = cc
target_of (some c) h = (c, refl, Approves-intro c (lower c) refl h)

IsRouter-of : (to : Text) → is_oneinch_router (some to) ≡ true → IsRouter to
unfolding is_oneinch_router
IsRouter-of to h = h

-- A transaction that the guard lets through has neither of the refused types and no authorization
-- list, and is sent to a 1inch router, or its call data is an `approve` whose spender is one. A
-- refused transaction is refused with a `SigningError`.
pub validate_sign_target-IsSwap :
    (tx : Transaction)
    → (validate_sign_target tx ≡ err signing) ⊎ ((validate_sign_target tx ≡ ok tt) × IsSwap tx)
unfolding validate_sign_target
validate_sign_target-IsSwap tx = elim (Bool-cases (is_refused_type tx.type)) [
  | inl a ↦ inl (rw a refl)
  | inr a ↦ elim (Bool-cases tx.has_authorization_list) [
    | inl b ↦ inl (rw (a, b) refl)
    | inr b ↦ go tx.to refl a b
  ]
]
  where
    permitted :
        (to : Text)
        → tx.to ≡ some to
        → is_refused_type tx.type ≡ false
        → tx.has_authorization_list ≡ false
        → IsRouter to ⊎ ((call : Text) × (tx.data_text ≡ some call) × Approves call)
        → IsSwap tx
    permitted to e a b t = record {
      not_blob = λ k. cc (rw k at a);
      not_delegation = λ k. cc (rw k at a);
      no_authorizations = b;
      to = to;
      is_sent = e;
      target = t;
    }

    go :
        (o : Option Text)
        → tx.to ≡ o
        → is_refused_type tx.type ≡ false
        → tx.has_authorization_list ≡ false
        → (validate_sign_target tx ≡ err signing) ⊎ ((validate_sign_target tx ≡ ok tt) × IsSwap tx)
    go none e a b = inl (rw (a, b, e) refl)
    go (some []) e a b = inl (rw (a, b, e) refl)
    go (some (c ∷ s)) e a b = elim (Bool-cases (is_oneinch_router (some (c ∷ s)))) [
      | inl k ↦ inr (rw (a, b, e, k) refl, permitted (c ∷ s) e a b (inl (IsRouter-of (c ∷ s) k)))
      | inr k ↦ elim (Bool-cases (is_oneinch_router (extract_approve_spender tx.data_text))) [
        | inl l ↦
            inr (rw (a, b, e, k, l) refl, permitted (c ∷ s) e a b (inr (target_of tx.data_text l)))
        | inr l ↦ inl (rw (a, b, e, k, l) refl)
      ]
    ]
