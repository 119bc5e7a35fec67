-- ===== src/Network/Paying.antt =====
-- What it takes for a signed envelope to be accepted (`StellarNetwork.verify` of
-- `infrastructure/billing/stellar.py`).
use code_zard.Prelude.{
  String, Option, none, true, false, some, List, [], ◌∷◌, ◌≡◌, refl, arith, Bool-cases, inl, inr,
}
use code_zard.Prelude.Text.{same, same_iff}
use code_zard.Prelude.Result.{Result, ok, err}
use code_zard.Billing.Invoice.{Invoice, memo_of}
use code_zard.X402.{VerifyResult}
use code_zard.Network.{StellarConfig, passphrase_of, NetworkError}
use code_zard.Network.Amounts.{text_amount, covers, amount_text}
use code_zard.Network.Envelopes.{
  Account, Asset, Operation, payment, another, Envelope, Sdk, account_text, asset_code, memo_text,
  signed_by, concerns, judged_payment, judge_operations, judge_envelope, judge_parsed, verify,
}

abbrev pub map_option : (String → String) → Option String → Option String
map_option f none = none
map_option f (some s) = some (f s)

asset_code-reissued :
    (new : String → String) (a : Asset)
    → asset_code (record a { issuer = map_option new a.issuer }) ≡ asset_code a
unfolding asset_code
asset_code-reissued new a = go a.issuer
  where
    go :
        (issuer : Option String)
        → asset_code (record a { issuer = map_option new issuer })
          ≡ asset_code (record a { issuer = issuer })
    go none = refl
    go (some s) = refl

module _ (sdk : Sdk) (i : Invoice) where
  -- The first payment of the invoice's asset to its destination is one of this amount.
  pub data First : List Operation → String → Type 0 where
    here :
        (to : Account) (asset : Asset) (amount : String) (more : List Operation)
        → concerns sdk i to asset ≡ true
        → First (payment to asset amount ∷ more) amount
    past_other :
        (amount : String) (more : List Operation)
        → First more amount
        → First (another ∷ more) amount
    past :
        (to : Account) (asset : Asset) (other amount : String) (more : List Operation)
        → concerns sdk i to asset ≡ false
        → First more amount
        → First (payment to asset other ∷ more) amount

  -- What a verification says of an envelope that it accepts.
  pub record Pays (e : Envelope) (r : VerifyResult) : Type 0 where
    pub for_invoice : memo_text sdk e.memo ≡ memo_of i
    pub signed : signed_by sdk e (account_text e.source) ≡ true
    pub amount : String
    pub first : First e.operations amount
    pub enough : covers (text_amount amount) (text_amount i.amount) ≡ true
    pub is_payer : r.payer ≡ account_text e.source

  judged_payment_lem :
      (payer amount : String) (r : VerifyResult)
      → judged_payment sdk i payer amount ≡ ok r
      → r.valid ≡ true
      → (covers (text_amount amount) (text_amount i.amount) ≡ true) × (r.payer ≡ payer)
  unfolding judged_payment
  judged_payment_lem payer amount r h valid = go (amount_text (text_amount amount)) refl
    where
      go :
          (shown : Result NetworkError String)
          → amount_text (text_amount amount) ≡ shown
          → (covers (text_amount amount) (text_amount i.amount) ≡ true) × (r.payer ≡ payer)
      go (err e) is_shown = absurd (ground arith)
      go (ok s) is_shown = ground arith

  judge_operations-First :
      (payer : String) (ops : List Operation) (r : VerifyResult)
      → judge_operations sdk i payer ops ≡ ok r
      → r.valid ≡ true
      → (amount : String) × First ops amount × (judged_payment sdk i payer amount ≡ ok r)
  unfolding judge_operations
  judge_operations-First payer [] r h valid = absurd (ground arith)
  judge_operations-First payer (another ∷ ops) r h valid =
      let (amount, first, judged) = judge_operations-First payer ops r h valid in
      (amount, past_other amount ops first, judged)
  judge_operations-First payer (payment to asset paid ∷ ops) r h valid =
      elim (Bool-cases (concerns sdk i to asset)) [
        | inl does ↦ (paid, here to asset paid ops does, rw does at h)
        | inr not_this ↦
            let (amount, first, judged) =
              judge_operations-First payer ops r (rw not_this at h) valid in
            (amount, past to asset paid amount ops not_this first, judged)
      ]

  -- The first payment that concerns the invoice decides.
  judge_operations_lem :
      (payer : String) {ops : List Operation} {amount : String}
      → First ops amount
      → judge_operations sdk i payer ops ≡ judged_payment sdk i payer amount
  unfolding judge_operations
  judge_operations_lem payer (here to asset amount more does) = rw does
  judge_operations_lem payer (past_other amount more first) = judge_operations_lem payer first
  judge_operations_lem payer (past to asset other amount more not_this first) =
      rw not_this (judge_operations_lem payer first)

  judge_envelope-Pays :
      (c : StellarConfig) (e : Envelope) (r : VerifyResult)
      → judge_envelope sdk c i e ≡ ok r
      → r.valid ≡ true
      → Pays e r
  unfolding judge_envelope
  judge_envelope-Pays c e r h valid = elim (Bool-cases (same (memo_text sdk e.memo) (memo_of i))) [
    | inr other ↦ absurd (ground arith)
    | inl its ↦ elim (Bool-cases (signed_by sdk e (account_text e.source))) [
      | inr unsigned ↦ absurd (ground arith)
      | inl signed ↦
          let judged : judge_operations sdk i (account_text e.source) e.operations ≡ ok r =
            rw (its, signed) at h in
          let (amount, first, paid) = judge_operations-First _ e.operations r judged valid in
          let (enough, payer) = judged_payment_lem _ amount r paid valid in
          record {
            for_invoice = (same_iff _ _).0 its;
            signed = signed;
            amount = amount;
            first = first;
            enough = enough;
            is_payer = payer;
          }
    ]
  ]

  -- When the verification of a transaction for an invoice is valid, the transaction reads, under the
  -- network's passphrase, as an envelope that has the invoice's memo and its source account's signature,
  -- the payer is that account, and the first of its operations that pays the invoice's asset to the
  -- invoice's destination pays at least the invoice's amount.
  pub verify-Pays :
      (c : StellarConfig) (transaction : String) (r : VerifyResult)
      → verify sdk c transaction i ≡ ok r
      → r.valid ≡ true
      → (e : Envelope) × (sdk.from_xdr transaction (passphrase_of c) ≡ ok e) × Pays e r
  unfolding verify
  verify-Pays c transaction r h valid = elim (Bool-cases sdk.installed) [
    | inr missing ↦ absurd (ground arith)
    | inl installed ↦ go (sdk.from_xdr transaction (passphrase_of c)) refl (rw installed at h)
  ]
    where
      go :
          (parsed : Result String Envelope)
          → sdk.from_xdr transaction (passphrase_of c) ≡ parsed
          → judge_parsed sdk c i parsed ≡ ok r
          → (e : Envelope) × (sdk.from_xdr transaction (passphrase_of c) ≡ ok e) × Pays e r
      go (err message) reads judged = absurd (ground arith)
      go (ok e) reads judged = (e, reads, judge_envelope-Pays c e r judged valid)

  -- The operations with other issuers of the assets that they pay.
  unfoldable pub reissued : (String → String) → List Operation → List Operation
  reissued new [] = []
  reissued new (another ∷ ops) = another ∷ reissued new ops
  reissued new (payment to asset amount ∷ ops) =
      payment to (record asset { issuer = map_option new asset.issuer }) amount ∷ reissued new ops

  judge_operations-reissued :
      (new : String → String) (payer : String) (ops : List Operation)
      → judge_operations sdk i payer (reissued new ops) ≡ judge_operations sdk i payer ops
  unfolding judge_operations reissued
  judge_operations-reissued new payer [] = refl
  judge_operations-reissued new payer (another ∷ ops) = judge_operations-reissued new payer ops
  judge_operations-reissued new payer (payment to asset amount ∷ ops) =
      rw (asset_code-reissued new asset, judge_operations-reissued new payer ops) refl

  -- The issuers of the assets that an envelope pays do not count: a transaction whose envelope is another's
  -- with each issuer replaced, equal ones alike, and then with another hash and other signatures, is
  -- verified for an invoice as the other one is, if the source account has signed both or neither.
  pub verify-reissued :
      (c : StellarConfig) (transaction transaction' : String) (e e' : Envelope)
      (new : String → String)
      → sdk.from_xdr transaction (passphrase_of c) ≡ ok e
      → sdk.from_xdr transaction' (passphrase_of c) ≡ ok e'
      → e'.source ≡ e.source
      → e'.memo ≡ e.memo
      → e'.operations ≡ reissued new e.operations
      → signed_by sdk e' (account_text e'.source) ≡ signed_by sdk e (account_text e.source)
      → verify sdk c transaction' i ≡ verify sdk c transaction i
  unfolding verify judge_envelope
  verify-reissued c transaction transaction' e e' new reads reads' source memo operations signed =
      rw
        (
          reads,
          reads',
          signed,
          source,
          memo,
          operations,
          judge_operations-reissued new (account_text e.source) e.operations,
        )
        refl
