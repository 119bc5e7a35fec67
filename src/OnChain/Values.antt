-- ===== src/OnChain/Values.antt =====
-- `_read`, `_map`, `_symbol` and `_u64` of `infrastructure/billing/subscriptions.py`: the contract's answer,
-- read from the SDK's objects. An object is a list of the attributes that it has.
use code_zard.Prelude.{
  ℕ, ◌*◌, ◌==◌, String, Bool, true, false, Option, none, some, leb, if◌then◌else◌, ◌||◌,
}
use code_zard.Prelude.Text.{same}
use code_zard.Prelude.Result.{Result, ok, err}
use code_zard.OnChain.{OnChainSubscription}

mutual
  -- A value of the SDK: `None`, an integer, a text, bytes, an object, or a list. The SDK's integers are
  -- not negative.
  pub data Value : Type 0 where
    nothing : Value
    number : ℕ → Value
    word bytes : String → Value
    instance_with : Attributes → Value
    sequence : Values → Value

  pub data Values : Type 0 where
    nil : Values
    value : Value → Values → Values

  pub data Attributes : Type 0 where
    end : Attributes
    attribute : String → Value → Attributes → Attributes

-- `getattr(v, name, default)`
unfoldable pub attribute_of : String → Value → Attributes → Value
attribute_of name default end = default
attribute_of name default (attribute k v more) =
    if same k name then v else attribute_of name default more

unfoldable pub get_attribute : Value → String → Value → Value
unfolding attribute_of
get_attribute (instance_with attributes) name default = attribute_of name default attributes
get_attribute nothing name default = default
get_attribute (number _) name default = default
get_attribute (word _) name default = default
get_attribute (bytes _) name default = default
get_attribute (sequence _) name default = default

-- What is not caught on the way: a `TypeError`, and the exceptions of `datetime.fromtimestamp`.
pub data ValueError : Type 0 where
  type_error out_of_range : ValueError

-- The seconds from the epoch to the end of the year 9999.
abbrev pub end_of_time : ℕ
end_of_time = 253_402_300_800

-- What the SDK's texts become: `bytes.decode("utf-8", "replace")`, and `str` of another object.
pub record Spelling : Type 0 where
  pub decode_utf8 : String → String
  pub show : Value → String

-- `v if v is not None else other`
abbrev or_else : Value → Value → Value
or_else nothing other = other
or_else v other = v

-- What a `for` goes through; a text and bytes give single characters, which have no attributes.
abbrev iterated : Value → Result ValueError Values
iterated nothing = ok nil
iterated (number _) = err type_error
iterated (word _) = ok nil
iterated (bytes _) = ok nil
iterated (instance_with _) = err type_error
iterated (sequence vs) = ok vs

module _ (spelling : Spelling) where
  abbrev symbol_text : Value → String
  symbol_text nothing = ""
  symbol_text (bytes b) = spelling.decode_utf8 b
  symbol_text (word s) = s
  symbol_text (number n) = spelling.show (number n)
  symbol_text (instance_with attributes) = spelling.show (instance_with attributes)
  symbol_text (sequence vs) = spelling.show (sequence vs)

  -- `_symbol`
  unfoldable pub symbol : Value → String
  unfolding get_attribute
  symbol v =
      let raw = get_attribute v "sym" nothing in symbol_text (get_attribute raw "sc_symbol" raw)

  -- The entries as the dictionary has them: the last entry of a key is its value.
  unfoldable pub field_in : String → Values → Value → Value
  unfolding symbol get_attribute
  field_in key nil found = found
  field_in key (value entry entries) found = field_in key entries (
      if same (symbol (get_attribute entry "key" nothing)) key
      then get_attribute entry "val" nothing
      else found)

  -- Whether an entry has a key.
  unfoldable pub has_fields : Values → Bool
  unfolding symbol get_attribute
  has_fields nil = false
  has_fields (value entry entries) =
      let rest = has_fields entries in
      if same (symbol (get_attribute entry "key" nothing)) "" then rest else true

-- `_map`, as the entries.
unfoldable pub entries_of : Value → Result ValueError Values
unfolding get_attribute
entries_of v =
    let plain = get_attribute v "map" nothing in
    iterated (or_else (get_attribute plain "sc_map" nothing) plain)

abbrev integer_of : Value → Result ValueError ℕ
integer_of (number n) = ok n
integer_of nothing = err type_error
integer_of (word _) = err type_error
integer_of (bytes _) = err type_error
integer_of (instance_with _) = err type_error
integer_of (sequence _) = err type_error

abbrev unwrapped : Value → Value
unwrapped raw = get_attribute raw "uint64" (get_attribute raw "uint32" raw)

abbrev narrow : Value → Result ValueError ℕ
narrow nothing = ok 0
narrow raw = integer_of (unwrapped raw)

abbrev wide : Value → Value → Result ValueError ℕ
wide nothing v = narrow (get_attribute v "u32" nothing)
wide raw v = integer_of (unwrapped raw)

-- `_u64`
unfoldable pub u64 : Value → Result ValueError ℕ
unfolding get_attribute
u64 v = wide (get_attribute v "u64" nothing) v

-- `datetime.fromtimestamp(seconds, UTC)`, in microseconds.
abbrev instant : ℕ → Result ValueError ℕ
instant seconds = if leb end_of_time seconds then err out_of_range else ok (seconds * 1_000_000)

abbrev dated :
    String
    → ℕ
    → Result ValueError ℕ
    → Result ValueError ℕ
    → Result ValueError (Option OnChainSubscription)
dated plan periods (ok started) (ok expires) =
    ok (some (record { plan = plan; started = started; expires = expires; periods = periods }))
dated plan periods (err e) expires = err e
dated plan periods (ok started) (err e) = err e

-- The `try` of `_read`, whose errors are no subscription, and what follows it.
abbrev assembled :
    String
    → Result ValueError ℕ
    → Result ValueError ℕ
    → Result ValueError ℕ
    → Result ValueError (Option OnChainSubscription)
assembled plan (ok started) (ok expires) (ok periods) =
    if same plan "" || expires == 0
    then ok none
    else dated plan periods (instant started) (instant expires)
assembled plan (err _) _ _ = ok none
assembled plan (ok _) (err _) _ = ok none
assembled plan (ok _) (ok _) (err _) = ok none

module _ (spelling : Spelling) where
  unfoldable pub read_entries : Values → Result ValueError (Option OnChainSubscription)
  unfolding field_in has_fields symbol u64
  read_entries entries =
      if has_fields spelling entries
      then assembled (symbol spelling (field_in spelling "plan" entries nothing))
          (u64 (field_in spelling "started" entries nothing))
          (u64 (field_in spelling "expires" entries nothing))
          (u64 (field_in spelling "periods" entries nothing))
      else ok none

  abbrev read_found : Result ValueError Values → Result ValueError (Option OnChainSubscription)
  read_found (err e) = err e
  read_found (ok entries) = read_entries entries

  -- `_read`
  unfoldable pub read : Value → Result ValueError (Option OnChainSubscription)
  unfolding entries_of read_entries
  read v = read_found (entries_of v)
