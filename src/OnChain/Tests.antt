-- ===== src/OnChain/Tests.antt =====
-- A subscription to the plan "pro" that began on the first day of the epoch, and one that never ends.
use code_zard.Prelude.{some, true, ◌≡◌, ◌≢◌, refl, arith, String}
use code_zard.Prelude.Result.{ok, err}
use code_zard.OnChain.Values.{out_of_range, Spelling, read}
use code_zard.OnChain.Readings.{contract_value, read-contract_value}

abbrev spelling : Spelling
spelling = record { decode_utf8 = λ s. s; show = λ v. "" }

named : ◌≢◌ {A = String} "pro" ""
named e = cc

read-contract_value_example :
    read spelling (contract_value true "pro" 86_400 2_678_400 3)
    ≡ ok (
        some (record {
          plan = "pro";
          started = 86_400_000_000;
          expires = 2_678_400_000_000;
          periods = 3;
        }))
read-contract_value_example =
    read-contract_value spelling (λ s. refl) true "pro" 86_400 2_678_400 3 named (omega arith)
      (omega arith)

-- One that ends beyond the year 9999.
endless : read spelling (contract_value true "pro" 86_400 253_402_300_800 3) ≡ err out_of_range
unfolding read
endless = refl
