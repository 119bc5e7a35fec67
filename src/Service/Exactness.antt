-- ===== src/Service/Exactness.antt =====
-- Idempotence and refusals of `application/billing_service.py`.
use code_zard.Prelude.{
  ◌+◌, String, Option, some, true, false, ◌≡◌, ◌≢◌, ◌⊎◌, inl, inr, arith, refl, ap, sym, ◌∙◌,
  Bool-cases,
}
use code_zard.Prelude.Text.{concat-ne-empty}
use code_zard.Prelude.Int.{ℤ, pos, neg, ◌≤ℤ◌, ltb_ℤ, leb_ℤ, max_ℤ}
use code_zard.Prelude.Result.{Result, ok, err}
use code_zard.Billing.Errors.{BillingError, insufficient_funds}
use code_zard.Billing.Money.{Money}
use code_zard.Billing.Pricing.{Usage, billable}
use code_zard.Billing.Ledger.{EntryKind, LedgerEntry, usage, total, balance_of, can_afford}
use code_zard.Billing.Subscription.{Subscription}
use code_zard.Store.{append, all_entries, fits_column, fits_row}
use code_zard.Store.Append.{append_again, append_fits}
use code_zard.Service.World.{Env, World}
use code_zard.Service.Accounts.{balance, credit, charge, charge_memo, debit_run, run_reference}
use code_zard.Service.Periods.{settle_period, authorize}

pub nonneg_test : (t : ℤ) → pos 0 ≤ℤ t → ltb_ℤ t (pos 0) ≡ false
nonneg_test t h = ground arith

abbrev pub credit_row : Env → String → ℤ → EntryKind → String → Money → String → World → LedgerEntry
credit_row env account tokens kind reference amount memo w = record {
  id = env.entry_id w.readings;
  account = account;
  kind = kind;
  tokens = tokens;
  at = env.clock (w.readings + 1);
  amount = amount;
  reference = reference;
  memo = memo;
}

-- What an append leaves, two readings later.
abbrev pub appended : LedgerEntry → World → Result BillingError LedgerEntry × World
appended e w = ((append e w.db).0, record { db = (append e w.db).1; readings = w.readings + 1 + 1 })

pub credit_appends :
    (env : Env) (account : String) (tokens : ℤ) (kind : EntryKind) (reference : String)
    (amount : Money) (memo : String) (w : World)
    → ltb_ℤ tokens (pos 0) ≡ false
    → credit env account tokens kind reference amount memo w
      ≡ appended (credit_row env account tokens kind reference amount memo w) w
unfolding credit
credit_appends env account tokens kind reference amount memo w h = rw h

credit_returns :
    (env : Env) (account : String) (tokens : ℤ) (kind : EntryKind) (reference : String)
    (amount : Money) (memo : String) (w : World) {row : LedgerEntry}
    → (credit env account tokens kind reference amount memo w).0 ≡ ok row
    → ltb_ℤ tokens (pos 0) ≡ false
unfolding credit
credit_returns env account tokens kind reference amount memo w h =
    elim (Bool-cases (ltb_ℤ tokens (pos 0))) [ inl below ↦ cc (rw below at h) | inr fine ↦ fine ]

both_fit :
    (e : LedgerEntry)
    → fits_column e.tokens ≡ true
    → fits_column e.amount.micros ≡ true
    → fits_row e ≡ true
unfolding fits_row
both_fit e t a = ground arith

-- Crediting twice under one reference that is not empty credits once: when the first call has returned a
-- row, the second, whoever makes it and whatever it asks for, of tokens that are not negative and of
-- integers that the ledger's columns hold, leaves the tables alone and returns that row.
pub credit_once :
    (env : Env) (account account' reference : String) (tokens tokens' : ℤ) (kind kind' : EntryKind)
    (amount amount' : Money) (memo memo' : String) (w : World) (row : LedgerEntry)
    → reference ≢ ""
    → (credit env account tokens kind reference amount memo w).0 ≡ ok row
    → pos 0 ≤ℤ tokens'
    → fits_column tokens' ≡ true
    → fits_column amount'.micros ≡ true
    → let w' = (credit env account tokens kind reference amount memo w).1 in
      let again = credit env account' tokens' kind' reference amount' memo' w' in
      (again.0 ≡ ok row) × (again.1.db ≡ w'.db)
credit_once env account account' reference tokens tokens' kind kind' amount amount' memo memo' w row
      named h t tokens_fit amount_fits =
    let first =
      credit_appends env account tokens kind reference amount memo w
        (credit_returns env account tokens kind reference amount memo w h) in
    let e = credit_row env account tokens kind reference amount memo w in
    let w' = (appended e w).1 in
    let next = credit_row env account' tokens' kind' reference amount' memo' w' in
    let again =
      append_again e row next w.db named (ap (λ x. x.0) (sym first) ∙ h) refl
        (both_fit next tokens_fit amount_fits) in
    rw
      (
        first,
        credit_appends env account' tokens' kind' reference amount' memo' w'
            (nonneg_test tokens' t),
      )
      (ap (λ x. x.0) again, ap (λ x. x.1) again)

abbrev usage_row : Env → String → String → Usage → ℤ → World → LedgerEntry
usage_row env account run_id u tokens w = record {
  id = env.entry_id w.readings;
  account = account;
  kind = usage;
  tokens = neg tokens;
  at = env.clock (w.readings + 1);
  amount = u.cost;
  reference = run_reference run_id;
  memo = charge_memo u;
}

run_reference-ne-empty : (run_id : String) → run_reference run_id ≢ ""
run_reference-ne-empty run_id = concat-ne-empty "run:" run_id (omega arith)

same_integers_fit :
    (env : Env) (account account' run_id : String) (u : Usage) (tokens : ℤ) (w w' : World)
    → fits_row (usage_row env account run_id u tokens w) ≡ true
    → fits_row (usage_row env account' run_id u tokens w') ≡ true
unfolding fits_row
same_integers_fit env account account' run_id u tokens w w' fits = fits

debit_run_once :
    (env : Env) (account account' run_id : String) (u : Usage) (tokens : ℤ) (w : World)
    (row : LedgerEntry)
    → (debit_run env account run_id u tokens w).0 ≡ ok (some row)
    → let w' = (debit_run env account run_id u tokens w).1 in
      let again = debit_run env account' run_id u tokens w' in
      (again.0 ≡ ok (some row)) × (again.1.db ≡ w'.db)
unfolding debit_run
debit_run_once env account account' run_id u tokens w row h =
    let e = usage_row env account run_id u tokens w in
    let w' = (appended e w).1 in
    let e' = usage_row env account' run_id u tokens w' in
    let stored : (append e w.db).0 ≡ ok row = ground arith in
    let fits =
      same_integers_fit env account account' run_id u tokens w w' (append_fits e row w.db stored) in
    let once = append_again e row e' w.db (run_reference-ne-empty run_id) stored refl fits in
    ground (arith, once)

-- Charging a run twice debits it once.
pub charge_once :
    (env : Env) (account account' run_id : String) (u : Usage) (w : World) (row : LedgerEntry)
    → (charge env account run_id u w).0 ≡ ok (some row)
    → let w' = (charge env account run_id u w).1 in
      let again = charge env account' run_id u w' in
      (again.0 ≡ ok (some row)) × (again.1.db ≡ w'.db)
unfolding charge
charge_once env account account' run_id u w row h = go (billable env.catalog.pricing u) refl
  where
    go :
        (r : Result BillingError ℤ)
        → billable env.catalog.pricing u ≡ r
        → let w' = (charge env account run_id u w).1 in
          let again = charge env account' run_id u w' in
          (again.0 ≡ ok (some row)) × (again.1.db ≡ w'.db)
    go (ok tokens) e = rw e (debit_run_once env account account' run_id u tokens w row (rw e at h))
    go (err x) e = cc (rw e at h)

-- A run is authorised only if, once the account's period is settled, its rows hold what is asked for
-- and the reserve; and a refusal after a settled period says how much was needed and how much there
-- was, which was less.
pub authorize_lem :
    (env : Env) (account : String) (needed : ℤ) (w : World) {s : Option Subscription}
    → (settle_period env account w).0 ≡ ok s
    → let settled = (settle_period env account w).1 in
      let b = balance_of account (all_entries account settled.db) in
      let required = max_ℤ needed env.reserve in
      ((required ≤ℤ total b) × (authorize env account needed w ≡ (ok b, settled)))
      ⊎ ((¬ (required ≤ℤ total b))
          × (authorize env account needed w
              ≡ (err (insufficient_funds required (total b)), settled)))
unfolding authorize balance can_afford
authorize_lem env account needed w h =
    let settled = (settle_period env account w).1 in
    let b = balance_of account (all_entries account settled.db) in
    let required = max_ℤ needed env.reserve in
    elim (Bool-cases (leb_ℤ required (total b))) [
      | inl enough ↦ inl (ground arith, ground arith)
      | inr short ↦ inr (ground arith, ground arith)
    ]
