-- ===== src/Billing/Ledger/Spending.antt =====
-- What one more row does to the balance, and the sums of `usage_of` (`domain/billing.py`).
use native.Mathlib.Decide.{dec_le}
use code_zard.Prelude.{ℕ, ◌-◌, String, List, [], ◌∷◌, ◌++◌, ◌≡◌, ◌≤◌, arith, refl, ap, sym, ◌∙◌}
use code_zard.Prelude.Int.{ℤ, pos, negsuc, ◌+ℤ◌, ◌-ℤ◌, neg, ◌≤ℤ◌, max_ℤ, min_ℤ}
use code_zard.Billing.Ledger.{
  usage, expiry, LedgerEntry, Balance, Pools, debit, replay_kind, replay, settle_pools, no_pools,
  balance_of,
}
use code_zard.Billing.Ledger.Conservation.{Sound, granted_nonneg-replay}

replay-append :
    (s : Pools) (xs ys : List LedgerEntry) → replay s (xs ++ ys) ≡ replay (replay s xs) ys
unfolding replay
replay-append s [] ys = refl
replay-append s (e ∷ xs) ys = replay-append (replay_kind e.kind s e.tokens) xs ys

balance_of-snoc :
    (a : String) (xs : List LedgerEntry) (e : LedgerEntry)
    → balance_of a (xs ++ e ∷ [])
      ≡ settle_pools a (replay_kind e.kind (replay no_pools xs) e.tokens)
unfolding balance_of replay
balance_of-snoc a xs e = ap (settle_pools a) (replay-append no_pools xs (e ∷ []))

-- A debit as the account sees it: out of the grant first, then out of what was bought, and the
-- rest stays owed.
abbrev pub spent : Balance → ℤ → Balance
spent b owed =
    let from_grant = min_ℤ b.granted owed in
    record b {
      granted = b.granted -ℤ from_grant;
      purchased = max_ℤ (pos 0) (b.purchased -ℤ (owed -ℤ from_grant));
    }

abbrev pools : ℤ → ℤ → Pools
pools granted purchased = record { granted = granted; purchased = purchased }

-- The sides of a debit, by whether the grant covers it.
debit_covered :
    (a : String) (g o : ℕ) (p : ℤ) → o ≤ g → debit (pools (pos g) p) (pos o) ≡ pools (pos (g - o)) p
unfolding debit min_ℤ ◌-ℤ◌
debit_covered a g o p h = ground arith

debit_short :
    (a : String) (g o : ℕ) (p : ℤ)
    → g ≤ o
    → debit (pools (pos g) p) (pos o) ≡ pools (pos 0) (p -ℤ pos (o - g))
unfolding debit min_ℤ ◌-ℤ◌
debit_short a g o p h = ground arith

covered_spent :
    (a : String) (g o : ℕ) (p : ℤ)
    → o ≤ g
    → settle_pools a (pools (pos (g - o)) p) ≡ spent (settle_pools a (pools (pos g) p)) (pos o)
unfolding settle_pools max_ℤ min_ℤ ◌-ℤ◌ ◌+ℤ◌
covered_spent a g o (pos p) h = ground arith
covered_spent a g o (negsuc p) h = ground arith

owing_only :
    (a : String) (p : ℤ)
    → settle_pools a (pools (pos 0) p)
      ≡ record { account = a; granted = pos 0; purchased = max_ℤ (pos 0) p }
unfolding settle_pools max_ℤ ◌+ℤ◌
owing_only a (pos p) = ground arith
owing_only a (negsuc p) = ground arith

spent_short :
    (b : Balance) (g o : ℕ)
    → g ≤ o
    → b.granted ≡ pos g
    → spent b (pos o)
      ≡ record b { granted = pos 0; purchased = max_ℤ (pos 0) (b.purchased -ℤ pos (o - g)) }
unfolding min_ℤ ◌-ℤ◌
spent_short b g o h e = rw e (ground arith)

solvent :
    (a : String) (g p : ℕ)
    → settle_pools a (pools (pos g) (pos p))
      ≡ record { account = a; granted = pos g; purchased = pos p }
unfolding settle_pools max_ℤ
solvent a g p = ground arith

short_spent :
    (a : String) (g o : ℕ) (p : ℤ)
    → g ≤ o
    → settle_pools a (pools (pos 0) (p -ℤ pos (o - g)))
      ≡ spent (settle_pools a (pools (pos g) p)) (pos o)
short_spent a g o (pos p) h = rw (solvent a g p) (
    owing_only a (pos p -ℤ pos (o - g))
    ∙ sym (spent_short (record { account = a; granted = pos g; purchased = pos p }) g o h refl))
short_spent a g o (negsuc p) h = unfold settle_pools max_ℤ min_ℤ ◌-ℤ◌ ◌+ℤ◌ in ground arith

debit_by_sign :
    (a : String) (g p owed : ℤ)
    → pos 0 ≤ℤ g
    → pos 0 ≤ℤ owed
    → settle_pools a (debit (pools g p) owed) ≡ spent (settle_pools a (pools g p)) owed
debit_by_sign a (pos g) p (pos o) hg ho = elim (dec_le o g) [
  | yes h ↦ ap (settle_pools a) (debit_covered a g o p h) ∙ covered_spent a g o p h
  | no h ↦
      ap (settle_pools a) (debit_short a g o p (omega arith)) ∙ short_spent a g o p (omega arith)
]
debit_by_sign a (negsuc g) p o hg ho = absurd (omega arith)
debit_by_sign a (pos g) p (negsuc o) hg ho = absurd (omega arith)

settle_pools-debit :
    (a : String) (s : Pools) (owed : ℤ)
    → pos 0 ≤ℤ s.granted
    → pos 0 ≤ℤ owed
    → settle_pools a (debit s owed) ≡ spent (settle_pools a s) owed
settle_pools-debit a s owed = debit_by_sign a s.granted s.purchased owed

settle_pools-expiry :
    (a : String) (s : Pools)
    → pos 0 ≤ℤ s.granted
    → settle_pools a (replay_kind expiry s (neg (settle_pools a s).granted))
      ≡ record (settle_pools a s) { granted = pos 0 }
unfolding settle_pools replay_kind max_ℤ ◌+ℤ◌ neg
settle_pools-expiry a s g = ground arith

-- A row of the kind: a debit of `owed` tokens.
abbrev Debits : LedgerEntry → ℤ → Type 0
Debits e owed = (e.kind ≡ usage) × (neg e.tokens ≡ owed)

-- In a ledger whose grants are not negative and whose expiries take no more than the granted pool holds,
-- one more usage row of a number of tokens that is not negative is taken out of the granted balance first
-- and only its rest out of the purchased one, which stops at zero.
pub balance_of-usage :
    (a : String) (xs : List LedgerEntry) (e : LedgerEntry) (owed : ℤ)
    → Sound no_pools xs
    → Debits e owed
    → pos 0 ≤ℤ owed
    → balance_of a (xs ++ e ∷ []) ≡ spent (balance_of a xs) owed
unfolding balance_of replay_kind
balance_of-usage a xs e owed sound h owes =
    let s = replay no_pools xs in
    balance_of-snoc a xs e
    ∙ rw (h.0, replay_kind, h.1)
        (settle_pools-debit a s owed (granted_nonneg-replay no_pools xs (omega arith) sound) owes)

-- An expiry row of exactly what the balance shows as granted empties the grant and leaves the
-- purchased tokens alone.
balance_of-expiry :
    (a : String) (xs : List LedgerEntry) (e : LedgerEntry)
    → Sound no_pools xs
    → e.kind ≡ expiry
    → e.tokens ≡ neg (balance_of a xs).granted
    → balance_of a (xs ++ e ∷ []) ≡ record (balance_of a xs) { granted = pos 0 }
unfolding balance_of
balance_of-expiry a xs e sound k t =
    balance_of-snoc a xs e
    ∙ rw (k, t)
        (settle_pools-expiry a (replay no_pools xs)
          (granted_nonneg-replay no_pools xs (omega arith) sound))
