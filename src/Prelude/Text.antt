-- ===== src/Prelude/Text.antt =====
-- Text: equality tests and the cat of f-strings.
use Prim.Native.Char.{Char, code}
use Prim.Native.String.{String, [], ◌∷◌, count, ◌++◌ as ◌cat◌}
use mathlib.Core.Path.{◌≡◌, refl, ap}
use mathlib.Core.Bool.{Bool, true, false, not, ◌&&◌, ◌||◌}
use Prim.Native.Nat.{ℕ, zero, suc, ◌+◌, ◌/◌, ◌%◌, ◌^◌, ◌<◌}
use code_zard.Prelude.Int.{ℤ, pos, negsuc}
use mathlib.Core.Logic.{◌↔◌, ◌≢◌}
use native.Mathlib.Omega.{arith}
use text.Mathlib.Text.{◌==◌}
use code_zard.Prelude.Tests.{◌==◌ as same_number, ltb, if◌then◌else◌}
use text.Mathlib.TextLemmas.{length-append, nil-append, cons-append}
use text.Mathlib.TextEquality.{eq_iff}

-- `s == t` on texts.
abbrev pub same : String → String → Bool
same s t = s == t

pub same_iff : (s t : String) → (same s t ≡ true) ↔ (s ≡ t)
same_iff s t = eq_iff s t

pub same_refl : (s : String) → same s s ≡ true
same_refl s = (eq_iff s s).1 refl

-- The f-string `{s}{t}`.
abbrev pub concat : String → String → String
concat s t = ◌cat◌ s t

-- The letter of the second text that stands where the character stands in the first; any other
-- character is its own.
capital : Char → String → String → Char
capital c [] _ = c
capital c (a ∷ small) [] = c
capital c (a ∷ small) (b ∷ large) =
    let rest = capital c small large in if same_number (code c) (code a) then b else rest

-- `text.upper()` on ASCII text.
unfoldable pub upper : String → String
unfolding capital
upper [] = []
upper (c ∷ s) = capital c "abcdefghijklmnopqrstuvwxyz" "ABCDEFGHIJKLMNOPQRSTUVWXYZ" ∷ upper s

-- `text.lower()` on ASCII text.
unfoldable pub lower : String → String
unfolding capital
lower [] = []
lower (c ∷ s) = capital c "ABCDEFGHIJKLMNOPQRSTUVWXYZ" "abcdefghijklmnopqrstuvwxyz" ∷ lower s

digit_text : ℕ → String
digit_text d =
    if same_number d 0
    then "0"
    else if same_number d 1
    then "1"
    else if same_number d 2
    then "2"
    else if same_number d 3
    then "3"
    else if same_number d 4
    then "4"
    else if same_number d 5
    then "5"
    else if same_number d 6
    then "6"
    else if same_number d 7
    then "7"
    else if same_number d 8
    then "8"
    else "9"

-- The decimal digits of a number in front of a text, with a comma behind every third one when
-- `grouped`; `run` counts the digits since the last comma. The fuel is a bound on the digits.
decimal_digits : ℕ → Bool → ℕ → ℕ → String → String
unfolding digit_text
decimal_digits zero grouped n run text = text
decimal_digits (suc fuel) grouped n run text =
    let full = grouped && same_number run 3 in
    let text' = concat (digit_text (n % 10)) (if full then concat "," text else text) in
    let rest = decimal_digits fuel grouped (n / 10) (if full then 1 else run + 1) text' in
    if ltb n 10 then text' else rest

signed_text : Bool → ℤ → String
unfolding decimal_digits
signed_text grouped (pos n) = decimal_digits (n + 1) grouped n 0 ""
signed_text grouped (negsuc n) = concat "-" (decimal_digits (n + 2) grouped (n + 1) 0 "")

-- The f-string `{n}`.
unfoldable pub spell : ℤ → String
unfolding signed_text
spell n = signed_text false n

-- The f-string `{n:,}`.
unfoldable pub spell_grouped : ℤ → String
unfolding signed_text
spell_grouped n = signed_text true n

-- The last digits of a number, as many as are asked for.
unfoldable pub last_digits : ℕ → ℕ → String
unfolding digit_text
last_digits zero n = ""
last_digits (suc k) n = concat (digit_text (n / 10 ^ k % 10)) (last_digits k n)

spell_grouped_test : spell_grouped (pos 1_234_567) ≡ "1,234,567"
unfolding spell_grouped
spell_grouped_test = refl

upper_test : upper "xLm-7" ≡ "XLM-7"
unfolding upper
upper_test = refl

-- An f-string that begins with text is not empty.
pub concat-ne-empty : (s t : String) → 0 < count s → concat s t ≢ ""
concat-ne-empty s t h e = omega (arith, ap count e, length-append s t)

-- ASCII white space, as `str.strip` takes it away.
unfoldable pub is_space : Char → Bool
is_space c = let n = code c in same_number n 32 || (ltb 8 n && ltb n 14) || (ltb 27 n && ltb n 32)

is_empty_text : String → Bool
is_empty_text [] = true
is_empty_text (c ∷ s) = false

strip_end : String → String
unfolding is_space is_empty_text
strip_end [] = []
strip_end (c ∷ s) =
    let rest = strip_end s in if is_space c && is_empty_text rest then [] else c ∷ rest

-- `text.rstrip(character)`, of the character with that code.
unfoldable pub rstrip : ℕ → String → String
unfolding is_empty_text
rstrip n [] = []
rstrip n (c ∷ s) =
    let rest = rstrip n s in if same_number (code c) n && is_empty_text rest then [] else c ∷ rest

strip_start : String → String
unfolding is_space
strip_start [] = []
strip_start (c ∷ s) = let rest = strip_start s in if is_space c then rest else c ∷ s

-- `text.strip()` on ASCII text.
unfoldable pub strip : String → String
unfolding strip_start strip_end
strip s = strip_end (strip_start s)

strip_test : strip "  an idea \n" ≡ "an idea"
unfolding strip
strip_test = refl

-- Whether each character passes a test.
unfoldable pub all_chars : (Char → Bool) → String → Bool
all_chars test [] = true
all_chars test (c ∷ s) = test c && all_chars test s

pub all_chars-concat :
    (test : Char → Bool) (s t : String)
    → all_chars test s ≡ true
    → all_chars test t ≡ true
    → all_chars test (concat s t) ≡ true
unfolding all_chars
all_chars-concat test [] t h k = rw (nil-append t) k
all_chars-concat test (c ∷ s) t h k =
    rw (cons-append c s t) (ground (arith, all_chars-concat test s t))

-- `text.strip()` leaves a text without white space alone.
abbrev pub is_black : Char → Bool
is_black c = not (is_space c)

strip_end-black : (s : String) → all_chars is_black s ≡ true → strip_end s ≡ s
unfolding strip_end all_chars
strip_end-black [] h = refl
strip_end-black (c ∷ s) h =
    let first : is_space c ≡ false = ground arith in
    rw first (ap (λ rest. c ∷ rest) (strip_end-black s (ground arith)))

pub strip-black : (s : String) → all_chars is_black s ≡ true → strip s ≡ s
unfolding strip strip_start all_chars
strip-black [] h = refl
strip-black (c ∷ s) h =
    let first : is_space c ≡ false = ground arith in rw first (strip_end-black (c ∷ s) h)
