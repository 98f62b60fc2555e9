-- ===== src/Wallet/Swap.antt =====
-- `_validate_sign_target` of server/src/services/wallet_manager.py: the guard of transactions.
pub mod Permitted
use mangrove_agent.Prelude.{
  ℕ, ◌≡◌, ◌⊎◌, inl, inr, refl, Bool, true, false, ◌&&◌, ◌||◌, Option, none, some, List, [], ◌∷◌,
  ◌++◌, leb, ◌==◌, if◌then◌else◌, any, take, drop, length, arith, Bool-cases, Option-cases,
}
use mangrove_agent.Prelude.Text.{Text, codes, text_eq, lower}
use mangrove_agent.Flow.{Result, ok, err, Error, signing}

-- The fields of a normalized transaction that the guard reads; `data` is its text.
pub record Transaction : Type 0 where
  pub type : Option ℕ
  pub has_authorization_list : Bool
  pub to : Option Text
  pub data_text : Option Text

-- `_ONEINCH_ROUTERS`
abbrev pub oneinch_routers : List Text
oneinch_routers =
    codes "0x1111111254eeb25477b68fb85ed929f73a960582"
    ∷ codes "0x111111125421ca6dc452d289314280a0f8842a65"
    ∷ []

unfoldable pub is_oneinch_router : Option Text → Bool
is_oneinch_router none = false
is_oneinch_router (some addr) = any (text_eq (lower addr)) oneinch_routers

-- `_APPROVE_SELECTOR`
abbrev approve_selector : Text
approve_selector = codes "0x095ea7b3"

abbrev spender_of : Text → Option Text
spender_of s =
    if text_eq (take 10 s) approve_selector && leb 74 (length s)
    then some (b'0' ∷ b'x' ∷ drop 24 (take 64 (drop 10 s)))
    else none

unfoldable pub extract_approve_spender : Option Text → Option Text
extract_approve_spender none = none
extract_approve_spender (some s) = spender_of (lower s)

abbrev is_refused_type : Option ℕ → Bool
is_refused_type none = false
is_refused_type (some t) = t == 3 || t == 4

abbrev is_blank : Option Text → Bool
is_blank none = true
is_blank (some []) = true
is_blank (some (c ∷ s)) = false

unfoldable pub validate_sign_target : Transaction → Result (Unit {0})
validate_sign_target tx =
    if is_refused_type tx.type
    then err signing
    else if tx.has_authorization_list
    then err signing
    else if is_blank tx.to
    then err signing
    else if is_oneinch_router tx.to
    then ok tt
    else if is_oneinch_router (extract_approve_spender tx.data_text)
    then ok tt
    else err signing
