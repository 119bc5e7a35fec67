-- ===== src/Billing/Pricing/Bounds.antt =====
-- What a sale and a charge amount to (`Pricing` of `domain/billing.py`).
use code_zard.Prelude.{
  ℕ, suc, ◌+◌, ◌*◌, ◌/◌, ◌≤◌, ◌<◌, ◌||◌, true, false, ◌≡◌, ◌⊎◌, inl, inr, refl, arith, Bool-cases,
}
use native.Mathlib.Nat.{div-add-mod, mod-lt}
use code_zard.Prelude.Int.{
  ℤ, pos, ◌*ℤ◌, ◌//ℤ◌, ◌≤ℤ◌, leb_ℤ, max_ℤ, *ℤ_pos, max_ℤ-le_left, clamp_of_nonneg, ◌+ℤ◌,
}
use code_zard.Prelude.Result.{ok}
use code_zard.Billing.Money.{is_zero, scaled}
use code_zard.Billing.Pricing.{Pricing, Usage, is_empty, tokens_for, billable, per_million_tokens}

tokens_for-pos :
    (p : Pricing) (amount price : ℕ)
    → p.per_million.micros ≡ pos (suc price)
    → tokens_for p (record { micros = pos amount }) ≡ pos (amount * per_million_tokens / suc price)
unfolding tokens_for ◌//ℤ◌
tokens_for-pos p amount price h =
    let sold = amount * per_million_tokens / suc price in
    let priced : leb_ℤ (pos (suc price)) (pos 0) ≡ false = ground arith in
    rw (h, priced, *ℤ_pos amount per_million_tokens) (clamp_of_nonneg (pos sold) (omega arith))

-- An amount buys as many tokens as it pays for at the price of a million, rounded down: the tokens
-- cost no more than the amount, and one more would cost more.
pub tokens_for_lem :
    (p : Pricing) (amount price : ℕ)
    → p.per_million.micros ≡ pos (suc price)
    → (t : ℕ) × (tokens_for p (record { micros = pos amount }) ≡ pos t)
      × (t * suc price ≤ amount * per_million_tokens)
      × (amount * per_million_tokens < (t + 1) * suc price)
tokens_for_lem p amount price h =
    let paid = amount * per_million_tokens in
    let t = paid / suc price in
    let whole = div-add-mod paid (suc price) in
    let rest = mod-lt paid {m = suc price} (omega arith) in
    (t, tokens_for-pos p amount price h, grind (arith, whole, rest), grind (arith, whole, rest))

-- A run is always priced: at nothing when it was simulated or made no call and used no token, and
-- otherwise at no less than the minimum.
billable_lem :
    (p : Pricing) (u : Usage)
    → (t : ℤ) × (billable p u ≡ ok t)
      × (((u.simulated || is_empty u ≡ true) × (t ≡ pos 0))
          ⊎ ((u.simulated || is_empty u ≡ false) × (p.minimum_charge ≤ℤ t)))
unfolding billable scaled
billable_lem p u = elim (Bool-cases (u.simulated || is_empty u)) [
  | inl free ↦ (pos 0, rw free, inl (free, refl))
  | inr real ↦ elim (Bool-cases (is_zero u.cost)) [
    | inl unpriced ↦
        (max_ℤ p.minimum_charge u.tokens, rw (real, unpriced), inr (real, max_ℤ-le_left _ _))
    | inr priced ↦
        let micros =
          (u.cost.micros *ℤ (pos 10_000 +ℤ p.margin_bps) +ℤ pos 10_000 //ℤ pos 2) //ℤ pos 10_000 in
        (
          max_ℤ p.minimum_charge (tokens_for p (record { micros = micros })),
          rw (real, priced),
          inr (real, max_ℤ-le_left _ _),
        )
  ]
]
