-- ===== src/Config.antt =====
-- src/gateway/config/settings.py: which settings of a service and of the billing are accepted, and what is
-- built of them (`to_definition`, and `_billing` of src/gateway/bootstrap.py). A URL is the text that
-- pydantic has made of it.
pub mod Accepted
mod Tests
use Prim.Native.Char.{Char, code}
use Prim.Native.String.{[] as empty_text, ◌∷◌ as ◌then_char◌}
use code_zard.Prelude.{
  ◌==◌, String, Bool, true, false, not, ◌&&◌, ◌||◌, Option, none, some, List, [], ◌∷◌, map, leb,
  if◌then◌else◌,
}
use code_zard.Prelude.Text.{same, all_chars, rstrip}
use code_zard.Prelude.Result.{Result}
use code_zard.Resilience.Upstream.{Headers, ServiceDefinition, ServiceError, one_of}
use code_zard.Services.{define_service}
use code_zard.Network.{StellarConfig}

pub record ServiceSettings : Type 0 where
  pub name : String
  pub base_url : Option String
  pub base_urls : List String
  pub health_path : String
  pub headers : Headers

abbrev is_small_or_digit : Char → Bool
is_small_or_digit c = let n = code c in (leb b'a' n && leb n b'z') || (leb b'0' n && leb n b'9')

abbrev is_name_char : Char → Bool
is_name_char c = is_small_or_digit c || code c == b'_' || code c == b'-'

-- The pattern of a service's name.
unfoldable is_service_name : String → Bool
unfolding all_chars
is_service_name empty_text = false
is_service_name (c then_char s) = is_small_or_digit c && all_chars is_name_char s

-- `HeaderName`: one or more characters of a token.
abbrev is_token_char : Char → Bool
is_token_char c =
    let n = code c in
    (leb b'0' n && leb n b'9')
    || (leb b'A' n && leb n b'Z')
    || (leb b'^' n && leb n b'z')
    || (leb b'#' n && leb n b'\'')
    || n == b'!'
    || n == b'*'
    || n == b'+'
    || n == b'-'
    || n == b'.'
    || n == b'|'
    || n == b'~'

unfoldable is_header_name : String → Bool
unfolding all_chars
is_header_name empty_text = false
is_header_name (c then_char s) = all_chars is_token_char (c then_char s)

-- Not one of "\r\n\0".
abbrev pub is_line_char : Char → Bool
is_line_char c = let n = code c in not (n == 13 || n == 10 || n == 0)

unfoldable pub is_single_line : String → Bool
unfolding all_chars
is_single_line value = not (same value "") && all_chars is_line_char value

-- `_header_values_are_single_line`, with the pattern of the names.
unfoldable pub are_headers : Headers → Bool
unfolding is_header_name is_single_line
are_headers [] = true
are_headers (h ∷ hs) = is_header_name h.0 && is_single_line h.1 && are_headers hs

-- `_normalized_urls`
abbrev pub given_urls : Option String → List String → List String
given_urls none urls = urls
given_urls (some url) urls = url ∷ []

unfoldable pub normalized_urls : ServiceSettings → List String
unfolding rstrip
normalized_urls s = map (rstrip b'/') (given_urls s.base_url s.base_urls)

-- `len(set(urls)) != len(urls)`
unfoldable pub has_twice : List String → Bool
has_twice [] = false
has_twice (u ∷ us) = one_of u us || has_twice us

abbrev given_once : Option String → List String → Bool
given_once none [] = false
given_once none (u ∷ us) = true
given_once (some url) [] = true
given_once (some url) (u ∷ us) = false

-- Whether the settings of a service are accepted: its patterns and validators.
unfoldable pub is_accepted : ServiceSettings → Bool
unfolding is_service_name are_headers normalized_urls has_twice
is_accepted s =
    is_service_name s.name
    && are_headers s.headers
    && given_once s.base_url s.base_urls
    && not (has_twice (normalized_urls s))

-- `to_definition`, with the digest that names an instance.
unfoldable pub to_definition :
    (String → String) → ServiceSettings → Result ServiceError ServiceDefinition
unfolding normalized_urls define_service
to_definition digest s = define_service digest s.name (normalized_urls s) s.health_path s.headers

pub record BillingSettings : Type 0 where
  pub enabled : Bool
  pub network : String
  pub allow_mainnet : Bool
  pub horizon_url : String
  pub destination : String
  pub asset : String
  pub usdc_issuer : String
  pub xlm_usd : String
  pub secret : String
  pub contract_id : String

unfoldable starts_with_c : String → Bool
starts_with_c empty_text = false
starts_with_c (c then_char s) = code c == b'C'

-- `_mainnet_is_deliberate`
unfoldable mainnet_is_deliberate : BillingSettings → Bool
mainnet_is_deliberate b = not (same b.network "public" && not b.allow_mainnet)

-- `_sellable`
unfoldable sellable : BillingSettings → Bool
unfolding starts_with_c
sellable b =
    not b.enabled
    || (not (same b.secret "")
        && not (not (same b.contract_id "") && not (starts_with_c b.contract_id))
        && not (same b.asset "USDC" && same b.usdc_issuer ""))

-- The networks and the assets that the types allow, and the validators.
unfoldable pub is_billing : BillingSettings → Bool
unfolding mainnet_is_deliberate sellable
is_billing b =
    one_of b.network ("testnet" ∷ "public" ∷ [])
    && one_of b.asset ("XLM" ∷ "USDC" ∷ [])
    && mainnet_is_deliberate b
    && sellable b

-- The configuration of the payment network that `_billing` makes; `none` where billing is off.
unfoldable pub network_config : BillingSettings → Option StellarConfig
network_config b =
    if not b.enabled
    then none
    else some (record {
      network = b.network;
      horizon_url = b.horizon_url;
      destination = b.destination;
      asset = b.asset;
      usdc_issuer = b.usdc_issuer;
      xlm_usd = b.xlm_usd;
    })
