-- ===== src/Billing/Ledger/UsageWindow.antt =====
-- `usage_of` (`domain/billing.py`) against a description of the rows that it counts.
use code_zard.Prelude.{
  ℕ, ◌+◌, Option, List, [], ◌∷◌, ◌≡◌, Bool, true, false, not, ◌&&◌, arith, ap, ◌∙◌, keep, length,
  Bool-cases, inl, inr,
}
use code_zard.Prelude.Int.{ℤ, pos, ◌+ℤ◌, neg, int_laws, eq_of_parts}
use code_zard.Billing.Money.{zero_money, add}
use code_zard.Billing.Ledger.{
  LedgerEntry, UsageSummary, is_usage, before, count_usage, usage_from, usage_of,
}
use code_zard.Billing.Ledger.Conservation.{net}

-- A run debited at or after the start of the window.
abbrev pub counts : Option ℕ → LedgerEntry → Bool
counts since e = is_usage e.kind && not (before e.at since)

-- What the rows cost at the provider, in micros.
abbrev amounts : List LedgerEntry → ℤ
amounts [] = pos 0
amounts (e ∷ es) = e.amount.micros +ℤ amounts es

abbrev plus : UsageSummary → List LedgerEntry → UsageSummary
plus s es = record {
  tokens = s.tokens +ℤ neg (net es);
  runs = s.runs + length es;
  cost = record { micros = s.cost.micros +ℤ amounts es };
  since = s.since;
}

same_summary :
    {a b c d : ℤ} {m n : ℕ} (since : Option ℕ)
    → a ≡ b
    → m ≡ n
    → c ≡ d
    → ◌≡◌ {A = UsageSummary}
        (record { tokens = a; runs = m; cost = record { micros = c }; since = since })
        (record { tokens = b; runs = n; cost = record { micros = d }; since = since })
same_summary since p q r =
    λ i. record { tokens = p i; runs = q i; cost = record { micros = r i }; since = since }

plus-nil : (s : UsageSummary) → s ≡ plus s []
plus-nil s =
    same_summary s.since (eq_of_parts _ _ (omega int_laws)) (omega arith)
      (eq_of_parts _ _ (omega int_laws))

abbrev counted : UsageSummary → LedgerEntry → UsageSummary
counted s e = record s {
  tokens = s.tokens +ℤ neg e.tokens;
  runs = s.runs + 1;
  cost = add s.cost e.amount;
}

count_usage_skips :
    (s : UsageSummary) (e : LedgerEntry) → counts s.since e ≡ false → count_usage s e ≡ s
unfolding count_usage
count_usage_skips s e h = ground arith

count_usage_takes :
    (s : UsageSummary) (e : LedgerEntry) → counts s.since e ≡ true → count_usage s e ≡ counted s e
unfolding count_usage
count_usage_takes s e h = ground arith

plus-counted :
    (s : UsageSummary) (e : LedgerEntry) (es : List LedgerEntry)
    → plus (counted s e) es ≡ plus s (e ∷ es)
unfolding add
plus-counted s e es =
    same_summary s.since (eq_of_parts _ _ (omega int_laws)) (omega arith)
      (eq_of_parts _ _ (omega int_laws))

usage_from-eq-plus :
    (s : UsageSummary) (es : List LedgerEntry) → usage_from s es ≡ plus s (keep (counts s.since) es)
unfolding usage_from
usage_from-eq-plus s [] = plus-nil s
usage_from-eq-plus s (e ∷ es) =
    let kept = keep (counts s.since) es in
    elim (Bool-cases (counts s.since e)) [
      | inl taken ↦
          rw (taken, keep)
            (ap (λ t. usage_from t es) (count_usage_takes s e taken)
              ∙ usage_from-eq-plus (counted s e) es
              ∙ plus-counted s e kept)
      | inr skipped ↦
          rw (skipped, keep)
            (ap (λ t. usage_from t es) (count_usage_skips s e skipped) ∙ usage_from-eq-plus s es)
    ]

-- The tokens, the runs and the cost used in a window are the sums over exactly the usage rows
-- written at or after its start, or over all usage rows when there is no start.
usage_of_lem :
    (es : List LedgerEntry) (since : Option ℕ)
    → let counted = keep (counts since) es in
      ((usage_of es since).tokens ≡ neg (net counted))
      × ((usage_of es since).runs ≡ length counted)
      × ((usage_of es since).cost.micros ≡ amounts counted)
unfolding usage_of
usage_of_lem es since =
    let start : UsageSummary = record {
      tokens = pos 0;
      runs = 0;
      cost = zero_money;
      since = since;
    } in
    let e = usage_from-eq-plus start es in
    (
      ap (λ s. s.tokens) e ∙ eq_of_parts _ _ (omega int_laws),
      ap (λ s. s.runs) e ∙ omega arith,
      ap (λ s. s.cost.micros) e ∙ eq_of_parts _ _ (omega int_laws),
    )
