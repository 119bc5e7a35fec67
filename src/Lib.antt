-- ===== src/Lib.antt =====
-- CodeZard's gateway: a model of its core, and the theorems about it.
--
-- The gateway (`src/gateway`) stands between a browser and the agents that turn an idea into a
-- project. The orchestrator carries a run through a state machine, asks one agent for a plan and another
-- for the project, and forwards the stream of the latter, of which a log keeps what was said for readers
-- that come back. Calls of the agents go through a chain that balances, retries and breaks. Each
-- generation is paid for in tokens from a ledger in SQLite, which is fed by periodic grants, by invoices
-- that are paid on a network, and by payments that come with a request. Callers sign in with the key that
-- pays.
--
-- What models what, with the modules of this library first:
--   Json               the values of `json.loads` and Python's readings of them
--   Billing            src/gateway/domain/billing.py: Money, Pricing, Products, Catalog, Ledger
--                      (`balance_of`, `usage_of`), Subscription, Invoice, Settlement
--                      (`ObservedPayment.settles`), Agent (`Money.parse`, `Usage.from_agent`),
--                      Rendering (`Money.__str__`, `as_json`)
--   OnChain            src/gateway/infrastructure/billing/subscriptions.py: `OnChainSubscription`, in
--                      Values `_read` over the SDK's objects, in Contract `SubscriptionContract`
--   Network            src/gateway/infrastructure/billing/stellar.py: Amounts `_decimal`, `_amount`
--                      and the division of a quote, Records `_records`, `_payment` and `_json`,
--                      Horizon `payment_for`, `quote` and `settle`, Envelopes `verify` and
--                      `StellarSignatures`
--   Store              src/gateway/infrastructure/billing/sqlite_store.py: one function of the three
--                      tables for each method
--   Service            src/gateway/application/billing_service.py: World has the state, Accounts
--                      `balance`, `credit` and `charge`, Periods `settle_period` and `authorize`,
--                      Sales `checkout`, `confirm`, `_deliver` and `reconcile`, Views `view`,
--                      Subscribing `subscribe_transaction` and `submit_subscription`
--   X402               src/gateway/domain/x402.py, and in X402.Payments
--                      src/gateway/application/x402_service.py over the actions of Service; Wire
--                      has the documents that are sent
--   Identity           src/gateway/application/identity_service.py
--   PaymentGate        src/gateway/api/payment_gate.py, over Identity, X402 and Service
--   Runs               src/gateway/domain/runs.py: `TRANSITIONS` and the methods of `Run`
--   RunStore           src/gateway/infrastructure/runs.py
--   RunLog             src/gateway/infrastructure/run_log.py
--   Resilience         src/gateway/infrastructure/resilience: Breaker, Retry and Balancer, over the
--                      services and requests of src/gateway/domain/models.py (Upstream), and Chain,
--                      which puts them together as src/gateway/bootstrap.py does
--   Services           src/gateway/domain/models.py and src/gateway/infrastructure/registry.py: what a
--                      service is, the registry, and when a health report is healthy
--   Proxy              src/gateway/application/header_policy.py, `_outbound` of
--                      src/gateway/application/proxy_service.py, in Forwarding its `forward` and
--                      `stream`, and in Address the URL of src/gateway/domain/models.py
--   Health             src/gateway/application/health_service.py, over Services
--   Orchestration      src/gateway/application/orchestration.py: Answers and Prompt read and write what
--                      the agents say, Planner has the calls of the PM and the planning, Scan
--                      `StreamScan`, Moves the state and `start`, `answer`, `reject`, `approve` and
--                      `read`, Generation `generate` and `_charge`, Project `open_console` and
--                      `open_download`, Rendering `Run.as_json`; the runs are those of Runs, in a
--                      RunStore, with a RunLog
--   Config             src/gateway/config/settings.py: the settings of a service and of the billing,
--                      and `_billing` of src/gateway/bootstrap.py
--   Gateway            src/gateway/bootstrap.py: the orchestrator, the billing and x402 services on one
--                      state, and in Wiring the two services on the payment network
--   Api                src/gateway/api: Errors errors.py, Requests middleware.py and
--                      `to_inbound_request`, Answers `to_streaming_response`, Routes the proxy's route
--                      and two parts of routes/billing.py
--   Prelude            numbers, lists, texts, decimals and results, shared by the others
-- The modules below a part are about its definitions: Billing.Ledger.Conservation,
-- Billing.Ledger.Spending, Billing.Ledger.UsageWindow, Billing.Pricing.Bounds and
-- Billing.Agent.Reports; Store.Append and Store.Invoices; Service.Reachable, Service.Exactness,
-- Service.Mirror and Service.Undelivered, with Service.Keeps, Service.Soundness and
-- Service.Conserves for the invariant of the first; X402.Books, X402.Settling and X402.Verified; Identity.Tokens
-- and Identity.SignIn; PaymentGate.Payers; Runs.Gate and Runs.Plans; RunStore.Laws; Services.Laws;
-- RunLog.Laws, RunLog.History and RunLog.Readers; Proxy.Policy; Health.Report; Network.Paying,
-- Network.Found and Network.Quotes; OnChain.Readings; Config.Accepted; Orchestration.Metered for Gateway;
-- Orchestration.Scan.Cut and Orchestration.Scan.Chunks, Orchestration.Machine and
-- Orchestration.Stored for Orchestration.Refinement, Orchestration.Settles for
-- Orchestration.Delivery, and Orchestration.Charges; and the modules below Resilience. Each part
-- has its examples in Tests.
--
-- State and errors. A method that changes an object is a function from the state to the state. The
-- methods of the services are actions, which take a state and give a result with the new state; what
-- was written before a raise stays written. What the code raises is a value. Calls that may interleave
-- are sequences of events, each of them one method that runs without a pause. A stream is the list of
-- what arrives on it: a chunk, a break, a cancellation, or the close of the caller's end.
--
-- Numbers. Python's integers are the integers of Prelude.Int. Instants, sizes and delays are natural
-- numbers: microseconds in the billing parts, milliseconds for the delays of the retries, and elsewhere
-- any unit; the sign-in's seconds are integers. Loops are structural recursion, but for the retries,
-- which run on as much fuel as attempts are allowed; each turn makes one attempt, so that is enough.
-- The delay before attempt 1,026 is no float, and its `OverflowError` ends the attempts. The columns of the
-- ledger hold 64 signed bits, and the refusal of a longer integer is modelled; the columns of the invoices
-- and the subscriptions are taken to hold what is written to them.
-- Digits of a number are counted on as much fuel as the number itself, which has fewer digits, and the
-- places of a quotient below one on as much as the divisor, which that many powers of ten exceed. A
-- decimal is a fraction over a power of ten; a quotient has the 28 digits of Python's context. A class
-- of exceptions has at most three above it, and its line is read on fuel for four.
--
-- Parameters. What the gateway asks of others is an argument: the clock, random ids, the payment
-- network and the subscriptions contract (the fields of `Env` and of `Facilitator`), the agents behind
-- the balancer, the replies of the attempts, the proxy and the meter of the orchestrator (`Outside`,
-- `RunMeter`), the replies of Horizon and what the Stellar SDK computes (`Horizon`, `Sdk`), JSON, base64,
-- HMAC and the check of signatures (`Crypto`, `Verifier`). They may answer anything, and differently each
-- time; a function of the request stands for one call.
--
-- In the chain of clients a call runs to its end before the next one begins. A header of a request is a
-- list of pairs whose names are in small letters, as the server hands them over.
--
-- Not modelled: the routes that only hand their arguments on, the OpenAPI documents and schemas, the
-- reading of settings by pydantic, the SQLite driver, the HTTP client, and the contract, which is written
-- in Rust; of the modelled parts, logging, time limits and the texts of some exceptions.
pub mod Prelude
pub mod Json
pub mod Billing
pub mod OnChain
pub mod Network
pub mod Store
pub mod Service
pub mod X402
pub mod Identity
pub mod PaymentGate
pub mod Runs
pub mod RunStore
pub mod RunLog
pub mod Resilience
pub mod Services
pub mod Proxy
pub mod Health
pub mod Orchestration
pub mod Config
pub mod Gateway
pub mod Api
