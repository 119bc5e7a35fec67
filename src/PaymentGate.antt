-- ===== src/PaymentGate.antt =====
-- src/gateway/api/payment_gate.py: who pays for a run, decided before anything is generated.
pub mod Payers
mod Tests
use Prim.Native.Char.{Char, code}
use Prim.Native.String.{[] as empty_text, ◌∷◌ as ◌then_char◌}
use code_zard.Prelude.{
  ℕ, ◌==◌, String, Bool, true, false, not, ◌||◌, Option, none, some, List, [], if◌then◌else◌,
}
use code_zard.Prelude.Int.{ℤ, pos}
use code_zard.Prelude.Text.{same, strip, lower}
use code_zard.Prelude.Result.{Result, ok, err}
use code_zard.Json.{IntError}
use code_zard.Billing.Errors.{BillingError, insufficient_funds}
use code_zard.Billing.Ledger.{Balance}
use code_zard.Service.World.{Env, World}
use code_zard.Service.Periods.{authorize}
use code_zard.Identity.{Identity, Refusal, not_an_integer, account_of}
use code_zard.X402.{Facilitator, PaymentRequired, SettleResult}
use code_zard.X402.Payments.{Unredeemed, challenge, redeem}

-- The parts of the container that the gate looks at, the time, and the texts of errors.
pub record Container : Type 0 where
  pub billing : Option Env
  pub identity : Option Identity
  pub x402 : Option Facilitator
  pub now : ℤ
  pub unredeemed_text : Unredeemed → String
  pub funds_text : BillingError → String

-- `PaymentRequiredError`, and what the gate lets pass: errors of billing, and what `int` raises.
pub data GateError : Type 0 where
  payment_required : PaymentRequired → GateError
  billing_error : BillingError → GateError
  int_error : IntError → GateError

-- The account, and the settlement that is kept for the response.
pub record Payer : Type 0 where
  pub account : String
  settlement : Option SettleResult

abbrev pub nobody : Payer
nobody = record { account = ""; settlement = none }

abbrev pub Gate : Type 0 → Type 0
Gate A = Result GateError A × World

-- `authorization.partition(" ")`
unfoldable pub split_scheme : String → String × String
split_scheme empty_text = ("", "")
split_scheme (c then_char s) =
    let rest = split_scheme s in if code c == 32 then ("", s) else (c then_char rest.0, rest.1)

-- An `IdentityError` is no error here.
abbrev account_or_none : Result Refusal String → Result GateError String
account_or_none (ok account) = ok account
account_or_none (err (not_an_integer e)) = err (int_error e)
account_or_none (err refusal) = ok ""

abbrev bearer : Option Identity → ℤ → String × String → Result GateError String
bearer none now parts = ok ""
bearer (some i) now (scheme, token) =
    if not (same (lower scheme) "bearer") || same token ""
    then ok ""
    else account_or_none (account_of i (strip token) now)

-- `_session_account`
unfoldable pub session_account : Container → String → Result GateError String
unfolding split_scheme lower strip account_of
session_account c authorization = bearer c.identity c.now (split_scheme authorization)

abbrev document_or : String → Result BillingError PaymentRequired → PaymentRequired
document_or reason (ok document) = document
document_or reason (err e) = record { error = reason; accepts = [] }

-- `_refuse`, which always raises.
unfoldable pub refuse : {A : Type 0} → Container → String → String → String → World → Gate A
unfolding challenge
refuse c account reason path w = elim c.x402 [
  | none ↦ (err (payment_required (record { error = reason; accepts = [] })), w)
  | some f ↦
      let (answer, w') = challenge f account reason path w in
      (err (payment_required (document_or reason answer)), w')
]

abbrev pub settled :
    Container
    → String
    → Result BillingError (Result Unredeemed (String × SettleResult)) × World
    → Gate Payer
settled c path (err e, w) = (err (billing_error e), w)
settled c path (ok (err e), w) = refuse c "" (c.unredeemed_text e) path w
settled c path (ok (ok (account, result)), w) =
    (ok (record { account = account; settlement = some result }), w)

-- `_paid_account`, asked only where there is a facilitator.
unfoldable pub paid_account : Container → Facilitator → String → String → World → Gate Payer
unfolding redeem refuse
paid_account c f header path w = settled c path (redeem f header path w)

abbrev pub paying : Container → Option Facilitator → String → String → World → Gate Payer
paying c none header path w = (ok nobody, w)
paying c (some f) header path w =
    if same header "" then (ok nobody, w) else paid_account c f header path w

-- The session's account, or else that of the payment.
abbrev pub asked_for : Container → Result GateError String → String → String → World → Gate Payer
asked_for c (err e) header path w = (err e, w)
asked_for c (ok account) header path w =
    if same account ""
    then paying c c.x402 header path w
    else (ok (record { account = account; settlement = none }), w)

abbrev pub authorized :
    Container → Payer → String → Result BillingError Balance × World → Gate Payer
authorized c p path (ok b, w) = (ok p, w)
authorized c p path (err (insufficient_funds required available), w) =
    refuse c p.account (c.funds_text (insufficient_funds required available)) path w
authorized c p path (err e, w) = (err (billing_error e), w)

abbrev pub charged_to : Container → Env → String → Gate Payer → Gate Payer
charged_to c env path (err e, w) = (err e, w)
charged_to c env path (ok p, w) =
    if same p.account ""
    then refuse c "" "this gateway charges for runs: sign in or pay per call" path w
    else authorized c p path (authorize env p.account (pos 0) w)

abbrev pub payer_with : Container → Option Env → String → String → String → World → Gate Payer
payer_with c none authorization header path w = (ok nobody, w)
payer_with c (some env) authorization header path w =
    charged_to c env path (asked_for c (session_account c authorization) header path w)

-- `payer_of`; the path is that of the request.
unfoldable pub payer_of : Container → String → String → String → World → Gate Payer
unfolding session_account paid_account refuse authorize
payer_of c authorization header path w = payer_with c c.billing authorization header path w
