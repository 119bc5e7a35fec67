-- ===== src/Service/Mirror.antt =====
-- Mirroring the subscriptions contract (`_mirror_chain` of `application/billing_service.py`) twice.
use code_zard.Prelude.{String, Option, some, ◌≡◌, arith, refl, ap, sym, ◌∙◌}
use code_zard.Prelude.Text.{concat, concat-ne-empty}
use code_zard.Prelude.Int.{pos, ◌≤ℤ◌}
use code_zard.Prelude.Result.{Result, ok, err}
use code_zard.Billing.Errors.{BillingError}
use code_zard.Billing.Money.{zero_money}
use code_zard.Billing.Products.{Plan}
use code_zard.Billing.Ledger.{LedgerEntry, grant}
use code_zard.Billing.Subscription.{Subscription, active}
use code_zard.OnChain.{OnChainSubscription, chain_period_key}
use code_zard.Store.{append, put_subscription, find_reference}
use code_zard.Store.Append.{find_reference_after, append_found}
use code_zard.Service.World.{Env, World, Action, pure, lift, ◌>>=◌}
use code_zard.Service.Accounts.{credit}
use code_zard.Service.Exactness.{credit_row, appended, credit_appends, nonneg_test}
use code_zard.Service.Periods.{mirror_plan, chain_reference}

-- The world once the subscription is written, and the row that the grant asks for.
abbrev mirrored_world : String → OnChainSubscription → Plan → World → World
mirrored_world account c plan w =
    let s : Subscription = record {
      account = account;
      plan_id = plan.id;
      started_at = c.started;
      renews_at = c.expires;
      status = active;
    } in
    record w { db = (put_subscription s w.db).1 }

abbrev mirror_row : Env → String → OnChainSubscription → Plan → World → LedgerEntry
mirror_row env account c plan w =
    credit_row env account plan.tokens grant (chain_reference c) zero_money
      (concat plan.name " · on-chain") (mirrored_world account c plan w)

after_result :
    {R S : Type 0} (r : Result BillingError R) (x : S) (w : World)
    → ((lift r >>= λ _. pure x) w).1.db ≡ w.db
after_result (ok a) x w = refl
after_result (err e) x w = refl

-- What an action writes stays written whatever it is made to return.
after_action :
    {R S : Type 0} (act : Action R) (x : S) (w : World)
    → ((act >>= λ _. pure x) w).1.db ≡ (act w).1.db
after_action act x w = after_result (act w).0 x (act w).1

returns :
    {R S : Type 0} (r : Result BillingError R) (x y : S) (w : World)
    → ((lift r >>= λ _. pure x) w).0 ≡ ok y
    → (a : R) × (r ≡ ok a)
returns (ok a) x y w h = (a, refl)
returns (err e) x y w h = absurd (cc)

abbrev granting : Env → String → OnChainSubscription → Plan → Action LedgerEntry
granting env account c plan =
    credit env account plan.tokens grant (chain_reference c) zero_money
      (concat plan.name " · on-chain")

granting_appends :
    (env : Env) (account : String) (c : OnChainSubscription) (plan : Plan) (w : World)
    → pos 0 ≤ℤ plan.tokens
    → granting env account c plan (mirrored_world account c plan w)
      ≡ appended (mirror_row env account c plan w) (mirrored_world account c plan w)
granting_appends env account c plan w h =
    credit_appends env account plan.tokens grant (chain_reference c) zero_money
      (concat plan.name " · on-chain") (mirrored_world account c plan w) (nonneg_test plan.tokens h)

mirror_appends :
    (env : Env) (account : String) (c : OnChainSubscription) (plan : Plan) (w : World)
    → pos 0 ≤ℤ plan.tokens
    → (mirror_plan env account c (some plan) w).1.db
      ≡ (append (mirror_row env account c plan w) (mirrored_world account c plan w).db).1
unfolding mirror_plan
mirror_appends env account c plan w h =
    after_action (granting env account c plan) _ (mirrored_world account c plan w)
    ∙ ap (λ x. x.1.db) (granting_appends env account c plan w h)

mirror_returns :
    (env : Env) (account : String) (c : OnChainSubscription) (plan : Plan) (w : World)
    (s : Option Subscription)
    → pos 0 ≤ℤ plan.tokens
    → (mirror_plan env account c (some plan) w).0 ≡ ok s
    → (row : LedgerEntry) × ((append
          (mirror_row env account c plan w)
          (mirrored_world account c plan w).db).0
        ≡ ok row)
unfolding mirror_plan
mirror_returns env account c plan w s h r =
    let (row, e) =
      returns (granting env account c plan (mirrored_world account c plan w)).0 _ s
        (granting env account c plan (mirrored_world account c plan w)).1 r in
    (row, ap (λ x. x.0) (sym (granting_appends env account c plan w h)) ∙ e)

-- Once a period of the contract was mirrored, mirroring the same plan from the same instant adds
-- nothing to the ledger, for that account or for another one.
pub mirrored_once :
    (env : Env) (account account' : String) (c : OnChainSubscription) (plan : Plan) (w : World)
    (s : Option Subscription)
    → pos 0 ≤ℤ plan.tokens
    → (mirror_plan env account c (some plan) w).0 ≡ ok s
    → let w' = (mirror_plan env account c (some plan) w).1 in
      (mirror_plan env account' c (some plan) w').1.db.ledger ≡ w'.db.ledger
unfolding put_subscription
mirrored_once env account account' c plan w s h r =
    let w' = (mirror_plan env account c (some plan) w).1 in
    let (row, first) = mirror_returns env account c plan w s h r in
    let named = concat-ne-empty "chain:" (chain_period_key c) (omega arith) in
    let left =
      find_reference_after (mirror_row env account c plan w) row
        (mirrored_world account c plan w).db named first in
    let found : find_reference (chain_reference c) w'.db.ledger ≡ some row =
      ap (λ db. find_reference (chain_reference c) db.ledger)
        (mirror_appends env account c plan w h)
      ∙ left in
    ap (λ db. db.ledger) (mirror_appends env account' c plan w' h)
    ∙ ap (λ db. db.ledger)
        (append_found (mirror_row env account' c plan w') row (mirrored_world account' c plan w').db
          found)
