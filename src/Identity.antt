-- ===== src/Identity.antt =====
-- src/gateway/application/identity_service.py: who is calling, proved by the key that pays. HMAC, base64,
-- JSON and the check of signatures are parameters.
pub mod Tokens
pub mod SignIn
mod Tests
use Prim.Native.Char.{Char, code}
use Prim.Native.String.{[] as empty_text, ◌∷◌ as ◌then_char◌, count}
use code_zard.Prelude.{
  ℕ, ◌==◌, String, Bool, true, false, not, ◌&&◌, ◌||◌, Option, none, some, leb, ltb, if◌then◌else◌,
}
use code_zard.Prelude.Int.{ℤ, pos, ◌+ℤ◌, ◌-ℤ◌, leb_ℤ, ltb_ℤ}
use code_zard.Prelude.Text.{same, strip, concat, spell, all_chars}
use code_zard.Prelude.Result.{Result, ok, err, ◌>>=◌}
use code_zard.Json.{
  Json, text, integer, object, Fields, end, field, get, sort_keys, truthy, str_or_empty, IntError,
  IntResult, int_ok, int_err, int,
}

abbrev challenge_ttl : ℤ
challenge_ttl = pos 300

abbrev pub max_token_bytes : ℕ
max_token_bytes = 4_096

-- The library calls, with this gateway's secret in `mac`. `dumps` writes the fields in their order, and a
-- `none` is a `ValueError`.
pub record Crypto : Type 0 where
  pub mac : String → String
  pub b64 : String → String
  pub unb64 : String → Option String
  pub dumps : Fields → String
  pub loads : String → Option Json
  pub render : Json → String

-- `SignatureVerifier`
pub record Verifier : Type 0 where
  pub available : Bool
  pub verify : String → String → String → Bool

pub record Identity : Type 0 where
  pub crypto : Crypto
  pub verifier : Verifier
  pub audience : String
  pub session_ttl : ℤ

-- The `IdentityError`s, `UnverifiableError`, and what `int` raises, which no clause catches.
pub data Refusal : Type 0 where
  not_an_address unverifiable other_service challenge_expired wrong_signature : Refusal
  names_no_account session_expired no_token malformed not_issued_here : Refusal
  not_an_integer : IntError → Refusal

abbrev is_base32 : Char → Bool
is_base32 c = let n = code c in (leb b'A' n && leb n b'Z') || (leb b'2' n && leb n b'7')

-- `is_address`
unfoldable pub is_address : String → Bool
unfolding all_chars
is_address empty_text = false
is_address (c then_char s) = code c == b'G' && count s == 55 && all_chars is_base32 s

pub record Challenge : Type 0 where
  pub address : String
  pub nonce : String
  pub issued_at : ℤ
  pub audience : String

-- `Challenge.message`
unfoldable pub message : Challenge → String
unfolding spell
message c = concat "CodeZard sign-in\naccount: " (
    concat c.address (
      concat "\naudience: " (
        concat c.audience
          (concat "\nissued: " (concat (spell c.issued_at) (concat "\nnonce: " c.nonce))))))

-- `Challenge.expired`
unfoldable pub is_expired : Challenge → ℤ → Bool
unfolding ◌-ℤ◌
is_expired c now = ltb_ℤ challenge_ttl (now -ℤ c.issued_at)

pub record Session : Type 0 where
  pub address : String
  pub expires_at : ℤ

-- `raw.partition(".")`: what stands before the first dot and after it.
unfoldable pub partition : String → String × String
partition empty_text = ("", "")
partition (c then_char s) =
    let rest = partition s in if code c == b'.' then ("", s) else (c then_char rest.0, rest.1)

abbrev pub challenge_claims : Challenge → Fields
challenge_claims c =
    field "a" (text c.address)
      (field "n" (text c.nonce) (field "i" (integer c.issued_at) (field "d" (text c.audience) end)))

abbrev pub session_claims : Session → Fields
session_claims s = field "a" (text s.address) (field "e" (integer s.expires_at) end)

abbrev from_int : IntResult → Result Refusal ℤ
from_int (int_ok n) = ok n
from_int (int_err e) = err (not_an_integer e)

-- `int(v or 0)`
unfoldable pub int_or : Json → Result Refusal ℤ
unfolding truthy int
int_or v = if truthy v then from_int (int v) else ok (pos 0)

module _ (i : Identity) where
  -- `_seal`
  unfoldable pub seal : Fields → String
  unfolding sort_keys
  seal claims =
      let body = i.crypto.dumps (sort_keys claims) in
      concat (i.crypto.b64 body) (concat "." (i.crypto.b64 (i.crypto.mac body)))

  abbrev pub claims_in : Option Json → Result Refusal Fields
  claims_in (some (object claims)) = ok claims
  claims_in _ = err malformed

  abbrev pub checked : Option String → Option String → Result Refusal Fields
  checked (some body) (some signature) =
      if same signature (i.crypto.mac body)
      then claims_in (i.crypto.loads body)
      else err not_issued_here
  checked _ _ = err malformed

  abbrev pub opened_parts : String × String → Result Refusal Fields
  opened_parts (head, tail) =
      if same tail "" then err malformed else checked (i.crypto.unb64 head) (i.crypto.unb64 tail)

  -- `_open`
  unfoldable pub open_token : String → Result Refusal Fields
  unfolding strip partition
  open_token token =
      let raw = strip token in
      if same raw "" || ltb max_token_bytes (count raw)
      then err no_token
      else opened_parts (partition raw)

  -- `challenge`; the nonce and the instant come from outside.
  unfoldable pub challenge : String → String → ℤ → Result Refusal (Challenge × String)
  unfolding is_address seal
  challenge address nonce now =
      if not (is_address address)
      then err not_an_address
      else if not i.verifier.available
      then err unverifiable
      else let c : Challenge = record {
        address = address;
        nonce = nonce;
        issued_at = now;
        audience = i.audience;
      } in
        ok (c, seal (challenge_claims c))

  abbrev pub text_of : String → Fields → String
  text_of key claims = str_or_empty i.crypto.render (get key claims)

  -- What `verify` makes of the challenge that it read; the clock is read twice.
  unfoldable pub judged : Challenge → String → ℤ → ℤ → Result Refusal (Session × String)
  unfolding is_expired message seal ◌+ℤ◌
  judged c signature now later =
      if not (same c.audience i.audience)
      then err other_service
      else if is_expired c now
      then err challenge_expired
      else if not i.verifier.available
      then err unverifiable
      else if not (i.verifier.verify c.address (message c) signature)
      then err wrong_signature
      else let s : Session = record { address = c.address; expires_at = later +ℤ i.session_ttl } in
        ok (s, seal (session_claims s))

  unfoldable pub read_challenge : Fields → Result Refusal Challenge
  unfolding int_or get str_or_empty
  read_challenge claims = int_or (get "i" claims) >>= λ issued_at. ok (record {
    address = text_of "a" claims;
    nonce = text_of "n" claims;
    issued_at = issued_at;
    audience = text_of "d" claims;
  })

  -- `verify`
  unfoldable pub verify : String → String → ℤ → ℤ → Result Refusal (Session × String)
  unfolding open_token read_challenge judged
  verify token signature now later =
      open_token token >>= λ claims. read_challenge claims >>= λ c. judged c signature now later

  unfoldable pub session_account : Fields → ℤ → Result Refusal String
  unfolding int_or get str_or_empty is_address
  session_account claims now = int_or (get "e" claims) >>= λ expires_at.
      if not (is_address (text_of "a" claims))
      then err names_no_account
      else if leb_ℤ expires_at now
      then err session_expired
      else ok (text_of "a" claims)

  -- `account_of`
  unfoldable pub account_of : String → ℤ → Result Refusal String
  unfolding open_token session_account
  account_of token now = open_token token >>= λ claims. session_account claims now
