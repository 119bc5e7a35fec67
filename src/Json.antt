-- ===== src/Json.antt =====
-- The values that `json.loads` gives, and Python's readings of them: `dict.get`, truth, `str`, `int`
-- and `isinstance`. A float is kept as the text that `str` gives for it; how `str` spells a list or a
-- dictionary is a parameter.
use Prim.Native.Char.{code}
use Prim.Native.String.{[] as empty_text, ◌∷◌ as ◌then_char◌}
use code_zard.Prelude.{
  ℕ, zero, suc, ◌+◌, ◌-◌, ◌*◌, ◌/◌, ◌^◌, ◌==◌, String, Bool, true, false, not, ◌&&◌, Option, none,
  some, List, [], ◌∷◌, leb, if◌then◌else◌, ◌≡◌, refl,
}
use code_zard.Prelude.Int.{ℤ, pos, negsuc, neg}
use code_zard.Prelude.Text.{same, strip, spell}
use code_zard.Prelude.Decimal.{Decimal, finite, infinite, nan, decimal}

mutual
  pub data Json : Type 0 where
    null : Json
    boolean : Bool → Json
    integer : ℤ → Json
    real : String → Json
    text : String → Json
    array : Items → Json
    object : Fields → Json

  pub data Items : Type 0 where
    nil : Items
    item : Json → Items → Items

  pub data Fields : Type 0 where
    end : Fields
    field : String → Json → Fields → Fields

-- `fields.get(key)`, with `null` for the `None` of a key that is not there.
unfoldable pub get : String → Fields → Json
get key end = null
get key (field k v fs) = if same k key then v else get key fs

-- `s < t` on texts, by their code points.
unfoldable pub text_before : String → String → Bool
text_before empty_text empty_text = false
text_before empty_text (d then_char t) = true
text_before (c then_char s) empty_text = false
text_before (c then_char s) (d then_char t) =
    let rest = text_before s t in if code c == code d then rest else not (leb (code d) (code c))

unfoldable pub insert_field : String → Json → Fields → Fields
unfolding text_before
insert_field key v end = field key v end
insert_field key v (field k w fs) =
    let rest = insert_field key v fs in
    if text_before k key then field k w rest else field key v (field k w fs)

-- The order of `json.dumps(fields, sort_keys=True)`, of fields that hold no objects.
unfoldable pub sort_keys : Fields → Fields
unfolding insert_field
sort_keys end = end
sort_keys (field k v fs) = insert_field k v (sort_keys fs)

-- `isinstance(v, dict)`, with the dictionary.
abbrev pub as_object : Json → Option Fields
as_object (object fs) = some fs
as_object _ = none

-- `v if isinstance(v, str) else ""`
abbrev pub as_text : Json → String
as_text (text s) = s
as_text _ = ""

-- `list(v) if isinstance(v, list) else []`
unfoldable to_list : Items → List Json
to_list nil = []
to_list (item v vs) = v ∷ to_list vs

unfoldable pub as_list : Json → List Json
unfolding to_list
as_list (array vs) = to_list vs
as_list _ = []

abbrev is_zero_ℤ : ℤ → Bool
is_zero_ℤ (pos zero) = true
is_zero_ℤ _ = false

abbrev is_zero_decimal : Option Decimal → Bool
is_zero_decimal (some (finite c k)) = is_zero_ℤ c
is_zero_decimal _ = false

-- `bool(v)`
unfoldable pub truthy : Json → Bool
unfolding decimal
truthy null = false
truthy (boolean b) = b
truthy (integer n) = not (is_zero_ℤ n)
truthy (real s) = not (is_zero_decimal (decimal s))
truthy (text s) = not (same s "")
truthy (array nil) = false
truthy (array (item _ _)) = true
truthy (object end) = false
truthy (object (field _ _ _)) = true

module _ (render : Json → String) where
  -- `str(v)`
  unfoldable pub str : Json → String
  str null = "None"
  str (boolean true) = "True"
  str (boolean false) = "False"
  str (integer n) = spell n
  str (real s) = s
  str (text s) = s
  str (array vs) = render (array vs)
  str (object fs) = render (object fs)

  -- `str(v or "")`
  unfoldable pub str_or_empty : Json → String
  unfolding str truthy
  str_or_empty v = if truthy v then str v else ""

-- What `int(v)` raises.
pub data IntError : Type 0 where
  type_error value_error overflow_error : IntError

pub data IntResult : Type 0 where
  int_ok : ℤ → IntResult
  int_err : IntError → IntResult

-- The digits of an integer's text, with single underscores between digits; `fresh` where an underscore
-- may not stand.
digits_of : Bool → ℕ → String → Option ℕ
digits_of fresh value empty_text = if fresh then none else some value
digits_of fresh value (c then_char s) =
    let n = code c in
    let next = digits_of false (value * 10 + (n - b'0')) s in
    let skipped = digits_of true value s in
    if leb b'0' n && leb n b'9' then next else if n == b'_' && not fresh then skipped else none

abbrev from_digits : Bool → Option ℕ → IntResult
from_digits minus none = int_err value_error
from_digits true (some n) = int_ok (neg (pos n))
from_digits false (some n) = int_ok (pos n)

int_of_text : String → IntResult
unfolding digits_of
int_of_text empty_text = int_err value_error
int_of_text (c then_char s) =
    let n = code c in
    if n == b'-'
    then from_digits true (digits_of true 0 s)
    else if n == b'+'
    then from_digits false (digits_of true 0 s)
    else from_digits false (digits_of true 0 (c then_char s))

-- A float is cut off towards zero.
abbrev truncated : Option Decimal → IntResult
truncated none = int_err value_error
truncated (some nan) = int_err value_error
truncated (some (infinite minus)) = int_err overflow_error
truncated (some (finite (pos n) k)) = int_ok (pos (n / 10 ^ k))
truncated (some (finite (negsuc n) k)) = int_ok (neg (pos (suc n / 10 ^ k)))

-- `int(v)`
unfoldable pub int : Json → IntResult
unfolding int_of_text strip decimal neg
int null = int_err type_error
int (boolean true) = int_ok (pos 1)
int (boolean false) = int_ok (pos 0)
int (integer n) = int_ok n
int (real s) = truncated (decimal s)
int (text s) = int_of_text (strip s)
int (array _) = int_err type_error
int (object _) = int_err type_error

int_spaced : int (text " -1_024 ") ≡ int_ok (negsuc 1_023)
unfolding int
int_spaced = refl

int_cut : int (real "-2.75") ≡ int_ok (negsuc 1)
unfolding int
int_cut = refl
