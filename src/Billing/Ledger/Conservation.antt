-- ===== src/Billing/Ledger/Conservation.antt =====
-- `balance_of` (`domain/billing.py`) against the plain sum of the rows.
use code_zard.Prelude.{String, List, [], ◌∷◌, ◌≡◌, arith, ◌∙◌, ap}
use code_zard.Prelude.Int.{
  ℤ, pos, ◌+ℤ◌, neg, ◌≤ℤ◌, max_ℤ, +ℤ_assoc, int_laws, clamp_lem, clamp_of_nonneg, eq_of_parts,
  min_ℤ-le_left,
}
use code_zard.Billing.Ledger.{
  EntryKind, grant, purchase, usage, refund, adjustment, expiry, LedgerEntry, total, Pools, debit,
  replay_kind, replay, settle_pools, no_pools, balance_of,
}

-- The sum of the rows' signed tokens.
abbrev pub net : List LedgerEntry → ℤ
net [] = pos 0
net (e ∷ es) = e.tokens +ℤ net es

-- What a row must respect: a grant adds, and an expiry takes no more than the pool holds.
abbrev pub Fits : EntryKind → Pools → ℤ → Type 0
Fits grant s tokens = pos 0 ≤ℤ tokens
Fits expiry s tokens = pos 0 ≤ℤ s.granted +ℤ tokens
Fits _ s tokens = Unit

-- Every row of the ledger fits the pools that the rows before it leave.
abbrev pub Sound : Pools → List LedgerEntry → Type 0
Sound s [] = Unit
Sound s (e ∷ es) = Fits e.kind s e.tokens × Sound (replay_kind e.kind s e.tokens) es

abbrev pool_sum : Pools → ℤ
pool_sum s = s.granted +ℤ s.purchased

pool_sum-replay_kind :
    (k : EntryKind) (s : Pools) (t : ℤ)
    → Fits k s t
    → pool_sum (replay_kind k s t) ≡ pool_sum s +ℤ t
unfolding replay_kind debit
pool_sum-replay_kind grant s t h = omega int_laws
pool_sum-replay_kind expiry s t h = rw (clamp_of_nonneg (s.granted +ℤ t) h) (omega int_laws)
pool_sum-replay_kind purchase s t h = omega int_laws
pool_sum-replay_kind refund s t h = omega int_laws
pool_sum-replay_kind usage s t h = omega int_laws
pool_sum-replay_kind adjustment s t h = omega int_laws

-- The pools hold exactly the rows, on every kind of row.
pool_sum-replay :
    (s : Pools) (es : List LedgerEntry) → Sound s es → pool_sum (replay s es) ≡ pool_sum s +ℤ net es
unfolding replay
pool_sum-replay s [] h = omega int_laws
pool_sum-replay s (e ∷ es) h =
    pool_sum-replay (replay_kind e.kind s e.tokens) es h.1
    ∙ ap (λ x. x +ℤ net es) (pool_sum-replay_kind e.kind s e.tokens h.0)
    ∙ +ℤ_assoc (pool_sum s) e.tokens (net es)

granted_nonneg-replay_kind :
    (k : EntryKind) (s : Pools) (t : ℤ)
    → pos 0 ≤ℤ s.granted
    → Fits k s t
    → pos 0 ≤ℤ (replay_kind k s t).granted
unfolding replay_kind debit
granted_nonneg-replay_kind grant s t g h = omega int_laws
granted_nonneg-replay_kind expiry s t g h = rw (clamp_lem (s.granted +ℤ t)) (omega arith)
granted_nonneg-replay_kind purchase s t g h = g
granted_nonneg-replay_kind refund s t g h = g
granted_nonneg-replay_kind usage s t g h = omega (int_laws, min_ℤ-le_left s.granted (neg t))
granted_nonneg-replay_kind adjustment s t g h = omega (int_laws, min_ℤ-le_left s.granted (neg t))

pub granted_nonneg-replay :
    (s : Pools) (es : List LedgerEntry)
    → pos 0 ≤ℤ s.granted
    → Sound s es
    → pos 0 ≤ℤ (replay s es).granted
unfolding replay
granted_nonneg-replay s [] g h = g
granted_nonneg-replay s (e ∷ es) g h =
    granted_nonneg-replay (replay_kind e.kind s e.tokens) es
      (granted_nonneg-replay_kind e.kind s e.tokens g h.0) h.1

-- With a granted pool that is not negative, the two pools are shown as their sum, down to zero.
total-settle_pools :
    (a : String) (s : Pools)
    → pos 0 ≤ℤ s.granted
    → total (settle_pools a s) ≡ max_ℤ (pos 0) (pool_sum s)
unfolding total settle_pools max_ℤ ◌+ℤ◌
total-settle_pools a s g = ground arith

-- In a ledger whose grants add and whose expiries take no more than is left, the balance is the sum
-- of the rows, or zero when more was spent than came in: nothing is lost and no overspend is forgiven.
pub total-balance_of :
    (account : String) (entries : List LedgerEntry)
    → Sound no_pools entries
    → total (balance_of account entries) ≡ max_ℤ (pos 0) (net entries)
unfolding balance_of
total-balance_of account entries h =
    total-settle_pools account (replay no_pools entries)
      (granted_nonneg-replay no_pools entries (omega arith) h)
    ∙ ap (max_ℤ (pos 0)) (pool_sum-replay no_pools entries h ∙ eq_of_parts _ _ (omega int_laws))
