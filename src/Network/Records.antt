-- ===== src/Network/Records.antt =====
-- How `infrastructure/billing/stellar.py` reads the JSON of Horizon: `_records`, `_payment` and `_json`.
use Prim.Native.Char.{code}
use Prim.Native.String.{[] as empty_text, ◌∷◌ as ◌then_char◌}
use code_zard.Prelude.{
  ℕ, ◌==◌, String, Bool, false, ◌||◌, Option, none, some, List, [], ◌∷◌, if◌then◌else◌,
}
use code_zard.Prelude.Text.{same, concat, upper}
use code_zard.Json.{
  Json, text, Fields, end, field, get, as_object, as_list, truthy, str, str_or_empty,
}
use code_zard.Billing.Invoice.{ObservedPayment}
use code_zard.Network.{StellarConfig, HttpReply}

-- A reading of `fromisoformat`, in microseconds: with a zone, or of a clock that is taken for UTC.
pub data Instant : Type 0 where
  aware naive : ℕ → Instant

pub record Horizon : Type 0 where
  pub config : StellarConfig
  pub fetch : String → List (String × String) → HttpReply
  pub post : String → String → HttpReply
  pub render : Json → String
  pub fromisoformat : String → Option Instant
  pub now : ℕ

-- `fields.get(key, default)`
unfoldable pub get_or : String → Json → Fields → Json
get_or key default end = default
get_or key default (field k v fs) = if same k key then v else get_or key default fs

-- `a or b`
abbrev pub or_value : Json → Json → Json
or_value a b = if truthy a then a else b

-- `v == s`, of a value and a text.
abbrev pub is_text : String → Json → Bool
is_text s (text t) = same t s
is_text s _ = false

abbrev pub dictionaries : List Json → List Fields
dictionaries [] = []
dictionaries (v ∷ vs) =
    let rest = dictionaries vs in elim (as_object v) [ none ↦ rest | some fs ↦ fs ∷ rest ]

abbrev pub listed : Option Fields → List Fields
listed none = []
listed (some embedded) = dictionaries (as_list (get "records" embedded))

abbrev pub embedded_in : Option Fields → List Fields
embedded_in none = []
embedded_in (some body) = listed (as_object (get "_embedded" body))

-- `_records`
unfoldable pub records : Json → List Fields
unfolding get as_list
records body = embedded_in (as_object body)

-- `text.replace("Z", "+00:00")`
unfoldable pub zone_spelled : String → String
zone_spelled empty_text = ""
zone_spelled (c then_char s) =
    let rest = zone_spelled s in if code c == b'Z' then concat "+00:00" rest else (c then_char rest)

-- `_json`
abbrev pub json_or_empty : Option Json → Fields
json_or_empty none = end
json_or_empty (some body) = elim (as_object body) [ none ↦ end | some fs ↦ fs ]

-- `", ".join(str(code) for code in codes)`
unfoldable pub joined : (Json → String) → List Json → String
unfolding str
joined render [] = ""
joined render (v ∷ []) = str render v
joined render (v ∷ w ∷ vs) = concat (str render v) (concat ", " (joined render (w ∷ vs)))

module _ (h : Horizon) where
  abbrev pub time_or_now : Option Instant → ℕ
  time_or_now none = h.now
  time_or_now (some (aware t)) = t
  time_or_now (some (naive t)) = t

  -- `_time`
  unfoldable pub time_of : Json → ℕ
  unfolding zone_spelled str
  time_of v = time_or_now (h.fromisoformat (zone_spelled (str h.render v)))

  abbrev pub memo_in : Option Fields → String
  memo_in none = ""
  memo_in (some transaction) =
      if is_text "text" (get "memo_type" transaction)
      then str_or_empty h.render (get "memo" transaction)
      else ""

  abbrev pub asset_in : Fields → String
  asset_in r =
      if is_text "native" (get_or "asset_type" (text "native") r)
      then "XLM"
      else upper (str h.render (or_value (get "asset_code" r) (text "?")))

  abbrev pub or_empty : Fields → String → String → String
  or_empty r key other = str_or_empty h.render (or_value (get key r) (get other r))

  -- `_payment`
  unfoldable pub payment_of : Fields → Option ObservedPayment
  unfolding get get_or truthy str str_or_empty upper time_of
  payment_of r =
      if is_text "payment" (get "type" r) || is_text "create_account" (get "type" r)
      then some (record {
        tx_hash = str_or_empty h.render (get "transaction_hash" r);
        payer = or_empty r "from" "funder";
        destination = or_empty r "to" "account";
        asset = asset_in r;
        amount =
            str h.render
              (or_value (get "amount" r) (or_value (get "starting_balance" r) (text "0")));
        memo = memo_in (as_object (get "transaction" r));
        at = time_of (get "created_at" r);
      })
      else none
