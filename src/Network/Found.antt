-- ===== src/Network/Found.antt =====
-- Which payment a lookup finds (`StellarNetwork.payment_for` of `infrastructure/billing/stellar.py`).
use mathlib.Core.Path.{subst}
use code_zard.Prelude.{
  ◌<◌, ◌==◌, String, false, Option, none, some, List, [], ◌∷◌, ◌++◌, ◌≡◌, refl, ap, arith,
  Option-cases, Bool-cases, inl, inr, Each, leb, ◌⊎◌, ℕ,
}
use code_zard.Prelude.Text.{same_iff}
use code_zard.Prelude.Result.{ok}
use code_zard.Json.{Json, Fields}
use code_zard.Billing.Invoice.{Invoice, memo_of, ObservedPayment}
use code_zard.Network.{HttpReply, failed, replied}
use code_zard.Network.Records.{Horizon, records, payment_of}
use code_zard.Network.Horizon.{with_memo, first_with_memo, payments_url, payment_for, found_in}

module _ (h : Horizon) where
  -- A record that is no payment with this memo.
  abbrev pub Without : String → Fields → Type 0
  Without memo r = with_memo h memo (payment_of h r) ≡ none

  -- The payment is that of the first record with the memo, or there is none with it.
  abbrev pub IsFirst : String → List Fields → Option ObservedPayment → Type 0
  IsFirst memo rs none = Each (Without memo) rs
  IsFirst memo rs (some p) =
      (before : List Fields) × (r : Fields) × (after : List Fields) × (rs ≡ before ++ r ∷ after)
      × Each (Without memo) before
      × (payment_of h r ≡ some p)
      × (p.memo ≡ memo)

  with_memo_lem :
      (memo : String) (found : Option ObservedPayment) (p : ObservedPayment)
      → with_memo h memo found ≡ some p
      → (found ≡ some p) × (p.memo ≡ memo)
  with_memo_lem memo none p e = absurd (cc)
  with_memo_lem memo (some q) p e = ground (arith, same_iff q.memo memo)

  pass :
      (memo : String) (r : Fields) (rs : List Fields) (found : Option ObservedPayment)
      → Without memo r
      → IsFirst memo rs found
      → IsFirst memo (r ∷ rs) found
  pass memo r rs none first rest = (first, rest)
  pass memo r rs (some p) first (before, s, after, is_split, none_before, reads, its) =
      (r ∷ before, s, after, ap (λ xs. r ∷ xs) is_split, (first, none_before), reads, its)

  first_with_memo-IsFirst :
      (memo : String) (rs : List Fields) → IsFirst memo rs (first_with_memo h memo rs)
  unfolding first_with_memo
  first_with_memo-IsFirst memo [] = tt
  first_with_memo-IsFirst memo (r ∷ rs) = elim (Option-cases (with_memo h memo (payment_of h r))) [
    | inl other ↦
        let rest = first_with_memo-IsFirst memo rs in
        let same_result : first_with_memo h memo rs ≡ first_with_memo h memo (r ∷ rs) =
          rw (other, first_with_memo) in
        subst (λ f. IsFirst memo (r ∷ rs) f) same_result (pass memo r rs _ other rest)
    | inr (p, it) ↦
        let (reads, its) = with_memo_lem memo (payment_of h r) p it in
        let found_here : some p ≡ first_with_memo h memo (r ∷ rs) = rw (it, first_with_memo) in
        subst (λ f. IsFirst memo (r ∷ rs) f) found_here ([], r, rs, refl, tt, reads, its)
  ]

  found_in-IsFirst :
      (i : Invoice) (found : Option ObservedPayment) (b : Json) (status : ℕ) (body : Option Json)
      → body ≡ some b
      → leb 400 status ≡ false
      → (status == 404) ≡ false
      → found_in h i (replied status body) ≡ ok found
      → IsFirst (memo_of i) (records b) found
  found_in-IsFirst i found b status body is_json fine there e =
      let result : first_with_memo h (memo_of i) (records b) ≡ found = ground arith in
      subst (λ f. IsFirst (memo_of i) (records b) f) result
        (first_with_memo-IsFirst (memo_of i) (records b))

  -- A lookup that returns was answered by Horizon: with 404, and then it finds nothing, or with a status
  -- below 400 and a JSON body, of whose records it finds the first payment with the invoice's memo, or
  -- nothing when no record is one.
  pub payment_for-IsFirst :
      (i : Invoice) (found : Option ObservedPayment)
      → payment_for h i ≡ ok found
      → (status : ℕ) × (body : Option Json) × (h.fetch
            (payments_url h i)
            (("order", "desc") ∷ ("limit", "50") ∷ ("join", "transactions") ∷ [])
          ≡ replied status body)
        × (((status ≡ 404) × (found ≡ none))
            ⊎ ((b : Json) × (body ≡ some b)
                × (status < 400)
                × IsFirst (memo_of i) (records b) found))
  unfolding payment_for
  payment_for-IsFirst i found returns = go _ refl returns
    where
      request : List (String × String)
      request = ("order", "desc") ∷ ("limit", "50") ∷ ("join", "transactions") ∷ []

      go :
          (reply : HttpReply)
          → h.fetch (payments_url h i) request ≡ reply
          → found_in h i reply ≡ ok found
          → (status : ℕ) × (body : Option Json) × (h.fetch (payments_url h i) request
              ≡ replied status body)
            × (((status ≡ 404) × (found ≡ none))
                ⊎ ((b : Json) × (body ≡ some b)
                    × (status < 400)
                    × IsFirst (memo_of i) (records b) found))
      go (failed message) answers e = absurd (cc)
      go (replied status body) answers e = elim (Bool-cases (status == 404)) [
        | inl missing ↦ (status, body, answers, inl (ground arith, ground arith))
        | inr there ↦ elim (Bool-cases (leb 400 status)) [
          | inl refuses ↦ absurd (ground arith)
          | inr fine ↦ elim (Option-cases body) [
            | inl nothing ↦ absurd (ground arith)
            | inr (b, is_json) ↦ (
              status,
              body,
              answers,
              inr (
                b,
                is_json,
                ground arith,
                found_in-IsFirst i found b status body is_json fine there e,
              ),
            )
          ]
        ]
      ]
