-- ===== src/Network/Quotes.antt =====
-- What a quote comes to (`StellarNetwork.quote` of `infrastructure/billing/stellar.py`).
pub mod Precision
use native.Mathlib.Nat.{
  pow-le-pow_right, pow-succ', le_of_mul-le-mul_right, mul-lt-mul_of_pos_right, div-mul-le_self,
}
use code_zard.Prelude.{◌∙◌, zero, suc, ◌-◌, ◌/◌, ◌==◌, sym, ap}
use code_zard.Network.Records.{Horizon}
use code_zard.Prelude.Rounding.{digits_in, round_half_even, round_up}
use code_zard.Prelude.Rounding.Bounds.{round_half_even_lem, round_up_lem, ten_pow_add, digits_in-le}
use code_zard.Network.Amounts.{places_below}
