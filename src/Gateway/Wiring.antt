-- ===== src/Gateway/Wiring.antt =====
-- `_billing` of src/gateway/bootstrap.py: the billing and x402 services on the payment network.
use code_zard.Prelude.{ℕ, Option, none, some, ◌≡◌, refl, ◌⊎◌, Bool-cases, inl, inr}
use code_zard.Prelude.Result.{Result, ok, err}
use code_zard.Billing.Errors.{BillingError}
use code_zard.Billing.Invoice.{Invoice}
use code_zard.Store.{invoice}
use code_zard.Service.World.{Env, World, ◌>>=◌}
use code_zard.Service.Keeps.{Keeps}
use code_zard.X402.{PaymentRequirements, PaymentPayload, transaction, VerifyResult, Facilitator}
use code_zard.X402.Payments.{verify, after_verify, settle}
use code_zard.X402.Books.{verify-Keeps, settle_lem}
use code_zard.X402.Verified.{named_invoice, Backed, IfValid, verify-Backed}
use code_zard.Network.{StellarConfig, passphrase_of, x402_network, NetworkError}
use code_zard.Network.Records.{Horizon}
use code_zard.Network.Horizon as Calls
use code_zard.Network.Envelopes as Envelopes
use code_zard.Network.Envelopes.{Envelope, Sdk}
use code_zard.Network.Paying.{Pays, verify-Pays}

-- What a call of the network returns; `none` is a raise.
abbrev returned : {A : Type 0} → Result NetworkError A → Option A
returned (ok a) = some a
returned (err e) = none

returned_ok :
    {A : Type 0} (result : Result NetworkError A) (a : A) → returned result ≡ some a → result ≡ ok a
returned_ok (ok b) a e = cc
returned_ok (err f) a e = absurd (cc)

-- The SDK, the configuration, and Horizon as it is at the reading of that number.
module _ (sdk : Sdk) (config : StellarConfig) (horizon : ℕ → Horizon) where
  -- `BillingService(store, network, ...)`
  abbrev env_on : Env → Env
  env_on env = record env {
    asset = config.asset;
    destination = config.destination;
    quote = λ n price asset. returned (Calls.quote (horizon n) price asset);
    payment_for = λ n i. returned (Calls.payment_for (horizon n) i);
  }

  -- `X402Service(billing, network, ...)`
  abbrev pub on_network : Facilitator → Facilitator
  on_network f = record f {
    env = env_on f.env;
    network = x402_network config;
    verify_envelope = λ n envelope i. returned (Envelopes.verify sdk config envelope i);
    settle_envelope = λ n envelope. some (Calls.settle (horizon n) envelope);
  }

  module _ (f : Facilitator) (p : PaymentPayload) (r : PaymentRequirements) (w : World) where
    -- The payment's transaction is an envelope that pays the stored invoice that the requirements name.
    abbrev pub IsPaid : Type 0
    IsPaid =
        (i : Invoice) × (e : Envelope) × (v : VerifyResult) × (invoice
            (named_invoice (on_network f) p r) w.db
          ≡ some i)
        × (sdk.from_xdr (transaction p) (passphrase_of config) ≡ ok e)
        × Pays sdk i e v

    after_verified :
        (result : Result BillingError VerifyResult) (w' : World)
        → w'.db ≡ w.db
        → IfValid (on_network f) p r (Backed (on_network f) p r w) result
        → ((◌>>=◌ {R = VerifyResult} (λ _. (result, w')) (after_verify (on_network f) p r) w).1.db
            ≡ w.db)
          ⊎ IsPaid
    after_verified (err e) w' kept backed = inl kept
    after_verified (ok v) w' kept backed = elim (Bool-cases v.valid) [
      | inr invalid ↦ inl (rw invalid kept)
      | inl valid ↦
          let (i, n, stored, verified) = backed valid in
          let (e, reads, pays) =
            verify-Pays sdk i config (transaction p) v (returned_ok _ v verified) valid in
          inr (i, e, v, stored, reads, pays)
    ]

    -- On the payment network, settling a payment leaves all tables as they were, whatever Horizon answers,
    -- unless the payment's transaction reads, under the network's passphrase, as an envelope that pays
    -- the stored invoice that the requirements name: with its memo, its source account's signature, and a
    -- first payment of the invoice's asset to its destination of at least its amount.
    pub settle_needs_payment : ((settle (on_network f) p r w).1.db ≡ w.db) ⊎ IsPaid
    settle_needs_payment =
        let verifying : Keeps (λ db. db ≡ w.db) (verify (on_network f) p r) =
          verify-Keeps (on_network f) p r in
        rw (settle_lem (on_network f) p r) (
          after_verified (verify (on_network f) p r w).0 (verify (on_network f) p r w).1
            (verifying.at w refl) (verify-Backed (on_network f) p r w))
