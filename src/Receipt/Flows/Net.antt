-- ===== src/Receipt/Flows/Net.antt =====
-- What a confirmed fill proves: the net transfers of the wallet in the logs of its own transaction.
use mangrove_agent.Prelude.{
  ℕ, ◌+◌, ◌≡◌, refl, subst, Bool, true, false, not, ◌&&◌, ◌||◌, Option, none, some, if_cases, arith,
}
use mangrove_agent.Prelude.Int.{ℤ, sub_ℕ, ◌+ℤ◌, pos_part, neg_part}
use mangrove_agent.Prelude.Text.{Text, codes, text_eq, eq_of_text_eq}
use mangrove_agent.Flow.{Result, ok, err}
use mangrove_agent.Wallet.{Value, Values, end, item, lookup}
use mangrove_agent.Receipt.{◌>>=◌, hex_data, ok_inj}
use mangrove_agent.Receipt.Flows.{
  Tokens, Transfer, LogScan, amount_if, wallet_delta, touches, add_transfer, add_if, as_log,
  read_transfer,
}

abbrev or_none : Result (Option Transfer) → Option Transfer
or_none (ok t) = t
or_none (err e) = none

-- The `Transfer` that a log reports, read without the rest of the receipt.
unfoldable pub transfer_of : Value → Option Transfer
transfer_of value = or_none (
    as_log value >>= λ log.
    hex_data (some 20) (lookup (codes "address") log) >>= λ token. read_transfer token log)

-- What a transfer of a token brings to the wallet, and what it takes from it.
abbrev pub got : Text → Text → Option Transfer → ℕ
got wallet token none = 0
got wallet token (some t) = amount_if (text_eq t.token token && text_eq t.recipient wallet) t.amount

abbrev pub gave : Text → Text → Option Transfer → ℕ
gave wallet token none = 0
gave wallet token (some t) = amount_if (text_eq t.token token && text_eq t.sender wallet) t.amount

unfoldable pub total : (Option Transfer → ℕ) → Values → ℕ
total f end = 0
total f (item value logs) = f (transfer_of value) + total f logs

-- The transfer moves no third token of the wallet.
abbrev pub moves_expected : Text → Tokens → Option Transfer → Bool
moves_expected wallet k none = true
moves_expected wallet k (some t) =
    not (touches wallet t) || text_eq t.token k.input || text_eq t.token k.output

-- A delta before and after a transfer that brings and takes these amounts.
abbrev pub Moves : ℤ → ℤ → ℕ → ℕ → Type 0
Moves before after brings takes =
    pos_part after + neg_part before + takes ≡ neg_part after + pos_part before + brings

sub_ℕ-parts : (a b : ℕ) → pos_part (sub_ℕ a b) + b ≡ neg_part (sub_ℕ a b) + a
sub_ℕ-parts a b = ground arith

Moves-add : (d : ℤ) (a b : ℕ) → Moves d (d +ℤ sub_ℕ a b) a b
Moves-add d a b = omega (
  arith,
  sub_ℕ-parts a b,
  sub_ℕ-parts (pos_part d + pos_part (sub_ℕ a b)) (neg_part d + neg_part (sub_ℕ a b)),
)

-- What a step of the loop does with a transfer.
pub record Adds (wallet : Text) (k : Tokens) (t : Option Transfer) (s s' : LogScan) : Type 0 where
  pub input : Moves s.input_delta s'.input_delta (got wallet k.input t) (gave wallet k.input t)
  pub output : Moves s.output_delta s'.output_delta (got wallet k.output t) (gave wallet k.output t)
  pub expected : moves_expected wallet k t ≡ true

Moves-none : (d : ℤ) → Moves d d 0 0
Moves-none d = omega arith

untouched :
    (wallet : Text) (t : Transfer)
    → not (touches wallet t) ≡ true
    → (text_eq t.sender wallet ≡ false) × (text_eq t.recipient wallet ≡ false)
untouched wallet t h = ground (arith, h)

Moves-with : (d d' : ℤ) (a b a' b' : ℕ) → (a' ≡ a) × (b' ≡ b) → Moves d d' a b → Moves d d' a' b'
Moves-with d d' a b a' b' e m = omega (arith, e.0, e.1, m)

-- A transfer of another token, and one of this token.
module _ (wallet token : Text) (t : Transfer) where
  of_other :
      text_eq t.token token ≡ false
      → (got wallet token (some t) ≡ 0) × (gave wallet token (some t) ≡ 0)
  of_other h = (rw h refl, rw h refl)

  of_same :
      text_eq t.token token ≡ true
      → (got wallet token (some t) ≡ amount_if (text_eq t.recipient wallet) t.amount)
        × (gave wallet token (some t) ≡ amount_if (text_eq t.sender wallet) t.amount)
  of_same h = (rw h refl, rw h refl)

  of_untouched :
      not (touches wallet t) ≡ true
      → (got wallet token (some t) ≡ 0) × (gave wallet token (some t) ≡ 0)
  of_untouched h =
      let (sends, receives) = untouched wallet t h in
      (ground (arith, receives), ground (arith, sends))

add_transfer-Adds :
    (wallet : Text) (k : Tokens) (t : Transfer) (s s' : LogScan)
    → text_eq k.input k.output ≡ false
    → add_transfer wallet k t s ≡ ok s'
    → Adds wallet k (some t) s s'
add_transfer-Adds wallet k t s s' differ =
    if_cases P (not (touches wallet t)) _ _
      (λ q e. subst (Adds wallet k (some t) s) (ok_inj _ s' e) (idle q))
      (λ q.
        if_cases P (text_eq t.token k.input) _ _
          (λ i e. subst (Adds wallet k (some t) s) (ok_inj _ s' e) (of_input i))
          (λ i.
            if_cases P (text_eq t.token k.output) _ _
              (λ o e. subst (Adds wallet k (some t) s) (ok_inj _ s' e) (of_output i o))
              (λ o e. cc)))
  where
    P : Result LogScan → Type 0
    P r = r ≡ ok s' → Adds wallet k (some t) s s'

    idle : not (touches wallet t) ≡ true → Adds wallet k (some t) s s
    idle q = record {
      input =
          Moves-with s.input_delta s.input_delta 0 0 _ _ (of_untouched wallet k.input t q)
            (Moves-none s.input_delta);
      output =
          Moves-with s.output_delta s.output_delta 0 0 _ _ (of_untouched wallet k.output t q)
            (Moves-none s.output_delta);
      expected = ground (arith, q);
    }

    other_token : text_eq t.token k.input ≡ true → text_eq t.token k.output ≡ false
    other_token i = rw (eq_of_text_eq t.token k.input i) differ

    of_input :
        text_eq t.token k.input ≡ true
        → Adds wallet k
            (some t)
            s
            (record s { input_delta = s.input_delta +ℤ wallet_delta wallet t })
    of_input i = record {
      input =
          Moves-with s.input_delta (s.input_delta +ℤ wallet_delta wallet t) _ _ _ _
            (of_same wallet k.input t i) (Moves-add s.input_delta _ _);
      output =
          Moves-with s.output_delta s.output_delta 0 0 _ _
            (of_other wallet k.output t (other_token i)) (Moves-none s.output_delta);
      expected = ground (arith, i);
    }

    of_output :
        text_eq t.token k.input ≡ false
        → text_eq t.token k.output ≡ true
        → Adds wallet k
            (some t)
            s
            (record s { output_delta = s.output_delta +ℤ wallet_delta wallet t })
    of_output i o = record {
      input =
          Moves-with s.input_delta s.input_delta 0 0 _ _ (of_other wallet k.input t i)
            (Moves-none s.input_delta);
      output =
          Moves-with s.output_delta (s.output_delta +ℤ wallet_delta wallet t) _ _ _ _
            (of_same wallet k.output t o) (Moves-add s.output_delta _ _);
      expected = ground (arith, o);
    }

pub add_if-Adds :
    (wallet : Text) (k : Tokens) (t : Option Transfer) (s s' : LogScan)
    → text_eq k.input k.output ≡ false
    → add_if wallet k t s ≡ ok s'
    → Adds wallet k t s s'
add_if-Adds wallet k none s s' differ h = subst (Adds wallet k none s) (ok_inj s s' h) (record {
  input = Moves-none s.input_delta;
  output = Moves-none s.output_delta;
  expected = refl;
})
add_if-Adds wallet k (some t) s s' differ h = add_transfer-Adds wallet k t s s' differ h
