-- ===== src/Orchestration/Scan.antt =====
-- `StreamScan` of `application/orchestration.py`: the artifact and the usage, read from an agent's
-- stream as it goes past. A chunk is a text with one character for each byte; `loads` stands for
-- `json.loads`, with `none` for its `ValueError`.
pub mod Cut
pub mod Chunks
use Prim.Native.Char.{Char, code}
use Prim.Native.String.{[] as empty_text, ◌∷◌ as ◌then_char◌, count}
use code_zard.Prelude.{
  ℕ, zero, suc, ◌-◌, ◌==◌, String, Bool, true, false, not, ◌&&◌, ◌||◌, Option, none, some, List, [],
  ◌∷◌, leb, if◌then◌else◌,
}
use code_zard.Prelude.Text.{same, concat}
use code_zard.Prelude.Result.{Result, ok, err, ◌>>=◌}
use code_zard.Json.{Json, text, object, Fields, get, as_object, truthy, str}
use code_zard.Billing.Pricing.{Usage}
use code_zard.Billing.Agent.{ReadError, no_usage, from_agent}

abbrev pub max_tail : ℕ
max_tail = 8_192

pub record StreamScan : Type 0 where
  pub tail : String
  pub artifact : String
  pub usage : Usage

abbrev pub fresh : StreamScan
fresh = record { tail = ""; artifact = ""; usage = no_usage }

-- A character in front of the first line of a split text.
abbrev pub put_first : Char → List String × String → List String × String
put_first c ([], last) = ([], c then_char last)
put_first c (line ∷ lines, last) = ((c then_char line) ∷ lines, last)

-- `buffer.split(b"\n")`: all its parts but the last one, and the last one.
unfoldable pub cut : String → List String × String
cut empty_text = ([], "")
cut (c then_char s) =
    let rest = cut s in if code c == b'\n' then ("" ∷ rest.0, rest.1) else put_first c rest

abbrev drop_text : ℕ → String → String
drop_text zero s = s
drop_text (suc n) empty_text = empty_text
drop_text (suc n) (c then_char s) = drop_text n s

-- `line[-n:]`, for n above zero
unfoldable pub keep_last : ℕ → String → String
keep_last n s = drop_text (count s - n) s

abbrev pub within : ℕ → ℕ → ℕ → Bool
within low high n = leb low n && leb n high

abbrev is_hex : Char → Bool
is_hex c = within b'0' b'9' (code c) || within b'a' b'f' (code c)

-- The characters between which `\b` sees no boundary.
abbrev is_word : Char → Bool
is_word c =
    within b'0' b'9' (code c)
    || within b'a' b'z' (code c)
    || within b'A' b'Z' (code c)
    || code c == b'_'

abbrev word_starts : String → Bool
word_starts empty_text = false
word_starts (c then_char s) = is_word c

-- `[0-9a-f]{n}\b` at the start of a text
unfoldable hex_run : ℕ → String → Option String
hex_run zero s = if word_starts s then none else some ""
hex_run (suc n) empty_text = none
hex_run (suc n) (c then_char s) =
    let rest = hex_run n s in
    if is_hex c then elim rest [ none ↦ none | some id ↦ some (c then_char id) ] else none

-- `ARTIFACT_ID.search`; the first argument tells whether a word character stands before the text.
unfoldable pub search_id : Bool → String → Option String
unfolding hex_run
search_id in_word empty_text = none
search_id in_word (c then_char s) =
    let rest = search_id (is_word c) s in
    if in_word then rest else elim (hex_run 24 (c then_char s)) [ none ↦ rest | some id ↦ some id ]

-- `line[6:]` of a line that starts with `data: `
unfoldable pub data_of : String → Option String
data_of line =
    let rest = drop_text 6 line in if same line (concat "data: " rest) then some rest else none

-- `v == "…"`
abbrev pub is_text : String → Json → Bool
is_text s (text t) = same t s
is_text s _ = false

module _ (loads : String → Option Json) (render : Json → String) where
  -- `if isinstance(project, Mapping) and project.get("id"): …`
  abbrev pub take_project : Option Fields → StreamScan → StreamScan
  take_project none s = s
  take_project (some project) s =
      if truthy (get "id" project) then record s { artifact = str render (get "id" project) } else s

  -- `if isinstance(cost, Mapping): …`
  abbrev pub take_cost : Json → StreamScan → Result ReadError StreamScan
  take_cost (object cost) s =
      from_agent render (object cost) >>= λ usage. ok (record s { usage = usage })
  take_cost _ s = ok s

  abbrev pub take_found : Option String → StreamScan → StreamScan
  take_found none s = s
  take_found (some id) s = record s { artifact = id }

  unfoldable pub read_event : String → Fields → StreamScan → Result ReadError StreamScan
  unfolding get search_id
  read_event line event s =
      if is_text "done" (get "type" event)
      then take_cost (get "cost" event) (take_project (as_object (get "project" event)) s)
      else if same s.artifact "" && is_text "artifact" (get "name" event)
      then ok (take_found (search_id false line) s)
      else ok s

  abbrev pub read_data : String → Option Json → StreamScan → Result ReadError StreamScan
  read_data line (some (object event)) s = read_event line event s
  read_data line _ s = ok s

  abbrev pub read_document : String → Option String → StreamScan → Result ReadError StreamScan
  read_document line none s = ok s
  read_document line (some document) s = read_data line (loads document) s

  -- `_read`
  unfoldable pub read : String → StreamScan → Result ReadError StreamScan
  unfolding read_event data_of
  read line s = read_document line (data_of line) s

  unfoldable pub read_lines : List String → StreamScan → Result ReadError StreamScan
  unfolding read
  read_lines [] s = ok s
  read_lines (line ∷ lines) s = read line s >>= read_lines lines

  -- `feed`
  unfoldable pub feed : String → StreamScan → Result ReadError StreamScan
  unfolding read_lines cut keep_last
  feed chunk s =
      let (lines, last) = cut (concat s.tail chunk) in
      read_lines lines (record s { tail = keep_last max_tail last })
