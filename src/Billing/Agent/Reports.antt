-- ===== src/Billing/Agent/Reports.antt =====
-- What reading an agent's report can come to (`Usage.from_agent` of `domain/billing.py`).
use code_zard.Prelude.{String, Option, none, some, ◌≡◌, ◌⊎◌, inl, inr, refl, arith}
use code_zard.Prelude.Int.{ℤ, pos, ◌≤ℤ◌, max_ℤ, max_ℤ-le_left}
use code_zard.Prelude.Result.{Result, ok, err}
use code_zard.Json.{
  Json, null, Fields, get, as_object, IntResult, int_ok, int_err, type_error, value_error,
  overflow_error, int,
}
use code_zard.Billing.Money.{Money, zero_money}
use code_zard.Billing.Pricing.{Usage}
use code_zard.Billing.Agent.{
  ReadError, not_an_amount, invalid_operation, overflow, parse, caught, money_or_zero,
  at_least_zero, int_or_zero, usage_source, read_usage, read_panel, from_agent,
}

-- A reading gives a usage that takes nothing back, or one of two exceptions that nothing catches.
abbrev pub Readable : Result ReadError Usage → Type 0
Readable (ok u) = (pos 0 ≤ℤ u.tokens) × (pos 0 ≤ℤ u.calls)
Readable (err e) = (e ≡ overflow) ⊎ (e ≡ invalid_operation)

at_least_zero_lem :
    (r : IntResult)
    → ((n : ℤ) × (at_least_zero r ≡ ok n) × (pos 0 ≤ℤ n)) ⊎ (at_least_zero r ≡ err overflow)
at_least_zero_lem (int_ok n) = inl (max_ℤ (pos 0) n, refl, max_ℤ-le_left (pos 0) n)
at_least_zero_lem (int_err type_error) = inl (pos 0, refl, omega arith)
at_least_zero_lem (int_err value_error) = inl (pos 0, refl, omega arith)
at_least_zero_lem (int_err overflow_error) = inr refl

caught_lem :
    (r : Result ReadError Money)
    → ((m : Money) × (caught r ≡ ok m))
      ⊎ ((e : ReadError) × (caught r ≡ err e) × ((e ≡ overflow) ⊎ (e ≡ invalid_operation)))
caught_lem (ok m) = inl (m, refl)
caught_lem (err not_an_amount) = inl (zero_money, refl)
caught_lem (err invalid_operation) = inr (invalid_operation, refl, inr refl)
caught_lem (err overflow) = inr (overflow, refl, inl refl)

module _ (render : Json → String) where
  money_lem :
      (v : Json)
      → ((m : Money) × (money_or_zero render v ≡ ok m))
        ⊎ ((e : ReadError) × (money_or_zero render v ≡ err e)
            × ((e ≡ overflow) ⊎ (e ≡ invalid_operation)))
  unfolding money_or_zero
  money_lem null = inl (zero_money, refl)
  money_lem v = caught_lem (parse render v)

  read_usage-Readable : (source : Fields) → Readable (read_usage render source)
  unfolding read_usage int_or_zero
  read_usage-Readable source = elim (at_least_zero_lem (int (get "tokens" source))) [
    | inr over ↦ rw (over, Readable) (inl refl)
    | inl (t, t_is, t_pos) ↦ elim (at_least_zero_lem (int (get "calls" source))) [
      | inr over ↦ rw (t_is, over, Readable) (inl refl)
      | inl (c, c_is, c_pos) ↦ elim (money_lem (get "cost_usd" source)) [
        | inl (m, m_is) ↦ rw (t_is, c_is, m_is, Readable) (t_pos, c_pos)
        | inr (e, e_is, which) ↦ rw (t_is, c_is, e_is, Readable) which
      ]
    ]
  ]

  read_panel-Readable : (panel : Option Fields) → Readable (read_panel render panel)
  read_panel-Readable none = (omega arith, omega arith)
  read_panel-Readable (some panel) =
      read_usage-Readable (usage_source panel (as_object (get "usage" panel)))

  -- Whatever an agent reports, reading it gives numbers of tokens and calls that are not negative, or
  -- an overflow or an invalid operation; what is missing or of a wrong type is never an error.
  pub from_agent-Readable : (v : Json) → Readable (from_agent render v)
  unfolding from_agent
  from_agent-Readable v = read_panel-Readable (as_object v)

  -- A report with an infinite number of tokens raises, though it is meant to read as zero.
  from_agent_infinite :
      (v : Json) (panel : Fields)
      → as_object v ≡ some panel
      → int (get "tokens" (usage_source panel (as_object (get "usage" panel))))
        ≡ int_err overflow_error
      → from_agent render v ≡ err overflow
  unfolding from_agent read_usage int_or_zero
  from_agent_infinite v panel is_panel infinite = rw (is_panel, read_panel, infinite)
