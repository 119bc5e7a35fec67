-- ===== src/Network.antt =====
-- src/gateway/infrastructure/billing/stellar.py: the payment network, reached over Horizon. What Horizon
-- answers and what the Stellar SDK computes are parameters.
pub mod Amounts
pub mod Records
pub mod Horizon
pub mod Envelopes
pub mod Paying
pub mod Quotes
pub mod Found
mod Tests
use code_zard.Prelude.{ℕ, String, Option, if◌then◌else◌}
use code_zard.Prelude.Text.{same, concat, rstrip}
use code_zard.Json.{Json}

pub record NetworkSettings : Type 0 where
  pub horizon : String
  pub passphrase : String
  pub x402 : String
  pub explorer : String

abbrev testnet : NetworkSettings
testnet = record {
  horizon = "https://horizon-testnet.stellar.org";
  passphrase = "Test SDF Network ; September 2015";
  x402 = "stellar-testnet";
  explorer = "https://stellar.expert/explorer/testnet";
}

abbrev public_network : NetworkSettings
public_network = record {
  horizon = "https://horizon.stellar.org";
  passphrase = "Public Global Stellar Network ; September 2015";
  x402 = "stellar";
  explorer = "https://stellar.expert/explorer/public";
}

pub record StellarConfig : Type 0 where
  pub network : String
  pub horizon_url : String
  pub destination : String
  pub asset : String
  pub usdc_issuer : String
  pub xlm_usd : String

-- `NETWORKS.get(self.network, NETWORKS[TESTNET])`
unfoldable pub settings_of : StellarConfig → NetworkSettings
settings_of c = if same c.network "public" then public_network else testnet

-- `StellarConfig.horizon`
unfoldable pub horizon_of : StellarConfig → String
unfolding settings_of rstrip
horizon_of c =
    rstrip b'/' (if same c.horizon_url "" then (settings_of c).horizon else c.horizon_url)

unfoldable pub passphrase_of : StellarConfig → String
unfolding settings_of
passphrase_of c = (settings_of c).passphrase

-- `StellarNetwork.network`
unfoldable pub x402_network : StellarConfig → String
unfolding settings_of
x402_network c = (settings_of c).x402

unfoldable explorer_tx : StellarConfig → String → String
unfolding settings_of
explorer_tx c tx_hash = concat (settings_of c).explorer (concat "/tx/" tx_hash)

-- What a request of Horizon gives: an `httpx.HTTPError` with its text, or a status with the JSON of the
-- body, where the body is JSON.
pub data HttpReply : Type 0 where
  failed : String → HttpReply
  replied : ℕ → Option Json → HttpReply

-- What stops a call: a `PaymentNetworkError`; the `ValueError` of a body that is not JSON; and the
-- `InvalidOperation` of an amount with more digits than the precision.
pub data NetworkError : Type 0 where
  not_reached : String → NetworkError
  refused_with : ℕ → NetworkError
  no_rate not_json invalid_operation : NetworkError
