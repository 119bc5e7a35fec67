-- ===== src/PaymentGate/Payers.antt =====
-- Who gets past the gate (`payer_of` of `api/payment_gate.py`).
use code_zard.Prelude.{String, Option, none, some, ◌≡◌, ◌≢◌, refl, Bool-cases, inl, inr}
use code_zard.Prelude.Int.{pos}
use code_zard.Prelude.Text.{same, same_iff}
use code_zard.Prelude.Result.{Result, ok, err}
use code_zard.Billing.Errors.{BillingError, insufficient_funds}
use code_zard.Billing.Ledger.{Balance}
use code_zard.Service.World.{Env, World}
use code_zard.Service.Periods.{authorize}
use code_zard.PaymentGate.{
  Container, Payer, nobody, Gate, refuse, authorized, charged_to, payer_with, payer_of, asked_for,
  session_account,
}

-- The account is not empty, and authorising it was the last thing that was done, and succeeded.
pub record IsPaid (env : Env) (p : Payer) (after : World) : Type 0 where
  pub named : p.account ≢ ""
  pub before : World
  pub balance : Balance
  allowed : authorize env p.account (pos 0) before ≡ (ok balance, after)

abbrev Passes : Env → Gate Payer → Type 0
Passes env (ok p, w) = IsPaid env p w
Passes env (err e, w) = Unit

refuse-Passes :
    (env : Env) (c : Container) (account reason path : String) (w : World)
    → Passes env (refuse c account reason path w)
unfolding refuse
refuse-Passes env c account reason path w =
    elim c.x402 as (λ x. Passes env (refuse (record c { x402 = x }) account reason path w)) [
      | none ↦ tt
      | some f ↦ tt
    ]

authorized-Passes :
    (env : Env) (c : Container) (p : Payer) (path : String) (w : World)
    (r : Result BillingError Balance × World)
    → authorize env p.account (pos 0) w ≡ r
    → p.account ≢ ""
    → Passes env (authorized c p path r)
authorized-Passes env c p path w (ok b, w') allowed named = record {
  named = named;
  before = w;
  balance = b;
  allowed = allowed;
}
authorized-Passes env c p path w (err (insufficient_funds required available), w') refused named =
    refuse-Passes env c p.account _ path w'
authorized-Passes env c p path w (err e, w') refused named = tt

charged_to-Passes :
    (env : Env) (c : Container) (path : String) (g : Gate Payer)
    → Passes env (charged_to c env path g)
charged_to-Passes env c path (err e, w) = tt
charged_to-Passes env c path (ok p, w) = elim (Bool-cases (same p.account "")) [
  | inl nobody_pays ↦ rw nobody_pays (refuse-Passes env c "" _ path w)
  | inr payer ↦ rw payer (
      authorized-Passes env c p path w (authorize env p.account (pos 0) w) refl
        (λ nothing. cc ((same_iff p.account "").1 nothing)))
]

-- What the gate gives where billing is off, and where it is on.
abbrev pub Guarded : Option Env → Gate Payer → World → Type 0
Guarded none g w = (g ≡ (ok nobody, w))
Guarded (some env) g w = Passes env g

payer_with-Guarded :
    (c : Container) (billing : Option Env) (authorization header path : String) (w : World)
    → Guarded billing (payer_with c billing authorization header path w) w
payer_with-Guarded c none authorization header path w = refl
payer_with-Guarded c (some env) authorization header path w =
    charged_to-Passes env c path (asked_for c (session_account c authorization) header path w)

-- With billing on, a caller who gets past the gate has an account that is not empty and that billing
-- authorised as the last thing before; with billing off, every caller passes without an account and
-- nothing changes.
pub payer_of-Guarded :
    (c : Container) (authorization header path : String) (w : World)
    → Guarded c.billing (payer_of c authorization header path w) w
unfolding payer_of
payer_of-Guarded c authorization header path w =
    payer_with-Guarded c c.billing authorization header path w
