-- ===== src/OnChain/Readings.antt =====
-- What reading the contract's answer comes to (`_read` of `infrastructure/billing/subscriptions.py`).
use code_zard.Prelude.{
  ℕ, ◌*◌, ◌<◌, ◌==◌, String, Bool, true, false, some, ◌≡◌, ◌≢◌, refl, arith, leb, Bool-cases, inl,
  inr, if◌then◌else◌,
}
use code_zard.Prelude.Text.{same, same_iff}
use code_zard.Prelude.Result.{ok, err}
use code_zard.OnChain.Values.{
  Value, Values, number, bytes, instance_with, sequence, nil, value, end, attribute, out_of_range,
  end_of_time, Spelling, read_entries, read,
}

-- The SDK's values of a symbol, of an integer of 64 bits, and of an entry.
abbrev symbol_value : String → Value
symbol_value s =
    instance_with (attribute "sym" (instance_with (attribute "sc_symbol" (bytes s) end)) end)

abbrev integer_value : ℕ → Value
integer_value n =
    instance_with (attribute "u64" (instance_with (attribute "uint64" (number n) end)) end)

abbrev entry_value : String → Value → Value
entry_value key v = instance_with (attribute "key" (symbol_value key) (attribute "val" v end))

-- The entries of the contract's `Subscription`, in the order of their names.
abbrev entries_value : String → ℕ → ℕ → ℕ → Values
entries_value plan started expires periods = value (entry_value "expires" (integer_value expires)) (
    value (entry_value "periods" (integer_value periods)) (
      value (entry_value "plan" (symbol_value plan))
        (value (entry_value "started" (integer_value started)) nil)))

-- In some versions of the SDK the entries are the `map` itself, and in others they are the `sc_map` of it.
abbrev shaped : Bool → Value → Value
shaped true entries = instance_with (attribute "sc_map" entries end)
shaped false entries = entries

abbrev pub contract_value : Bool → String → ℕ → ℕ → ℕ → Value
contract_value nested plan started expires periods =
    instance_with
      (attribute "map" (shaped nested (sequence (entries_value plan started expires periods))) end)

module _ (spelling : Spelling) (decodes : (s : String) → spelling.decode_utf8 s ≡ s) where
  read_entries_lem :
      (plan : String) (started expires periods : ℕ)
      → plan ≢ ""
      → 0 < expires
      → started < end_of_time
      → read_entries spelling (entries_value plan started expires periods) ≡ (
          if leb end_of_time expires
          then err out_of_range
          else ok (
              some (record {
                plan = plan;
                started = started * 1_000_000;
                expires = expires * 1_000_000;
                periods = periods;
              })))
  unfolding read_entries
  read_entries_lem plan started expires periods named later fits =
      let is_named : same plan "" ≡ false = ground (arith, same_iff plan "") in
      let ends : (expires == 0) ≡ false = ground arith in
      let began : leb end_of_time started ≡ false = ground arith in
      rw
        (
          decodes "expires",
          decodes "periods",
          decodes "plan",
          decodes "started",
          decodes plan,
          is_named,
          ends,
          began,
        )
        (elim (Bool-cases (leb end_of_time expires)) [
          | inl late ↦ rw late refl
          | inr dated ↦ rw dated refl
        ])

  -- The contract's record of a plan with a name, which expires after the epoch and began before the year
  -- 10000, is read back in both shapes, when it expires before that year too; otherwise the reading
  -- raises.
  pub read-contract_value :
      (nested : Bool) (plan : String) (started expires periods : ℕ)
      → plan ≢ ""
      → 0 < expires
      → started < end_of_time
      → read spelling (contract_value nested plan started expires periods) ≡ (
          if leb end_of_time expires
          then err out_of_range
          else ok (
              some (record {
                plan = plan;
                started = started * 1_000_000;
                expires = expires * 1_000_000;
                periods = periods;
              })))
  unfolding read
  read-contract_value true plan started expires periods named later fits =
      read_entries_lem plan started expires periods named later fits
  read-contract_value false plan started expires periods named later fits =
      read_entries_lem plan started expires periods named later fits
