-- ===== src/Config/Tests.antt =====
-- A service with two servers, and a billing on the test network.
use code_zard.Prelude.{true, false, none, [], ◌∷◌, map, ◌≡◌, ◌≢◌, ◌⊎◌, refl, Each, if◌then◌else◌}
use code_zard.Prelude.Text.{all_chars}
use code_zard.Prelude.Result.{ok, err}
use code_zard.Resilience.Upstream.{ServiceDefinition, same_base_url_twice}
use code_zard.Services.{instance_of}
use code_zard.Network.{StellarConfig, passphrase_of, x402_network}
use code_zard.Config.{
  ServiceSettings, is_accepted, is_line_char, normalized_urls, has_twice, to_definition,
  BillingSettings, is_billing, network_config,
}
use code_zard.Config.Accepted.{to_definition_lem, network_config-Deliberate}

abbrev planner : ServiceSettings
planner = record {
  name = "pm-agent";
  base_url = none;
  base_urls = "http://a/" ∷ "http://b" ∷ [];
  health_path = "/health";
  headers = ("X-Mirag-Token", "secret") ∷ [];
}

to_definition_lem_example :
    if has_twice (map (λ s. s) (normalized_urls planner))
    then to_definition (λ s. s) planner ≡ err same_base_url_twice
    else (d : ServiceDefinition) × (to_definition (λ s. s) planner ≡ ok d)
      × (d.name ≡ planner.name)
      × (d.instances ≡ map (instance_of (λ s. s)) (normalized_urls planner))
      × (d.headers ≡ planner.headers)
      × Each (λ h. (h.1 ≢ "") × (all_chars is_line_char h.1 ≡ true)) d.headers
unfolding is_accepted
to_definition_lem_example = to_definition_lem (λ s. s) planner refl

abbrev trial : BillingSettings
trial = record {
  enabled = true;
  network = "testnet";
  allow_mainnet = false;
  horizon_url = "";
  destination = "GD";
  asset = "XLM";
  usdc_issuer = "";
  xlm_usd = "0.35";
  secret = "s";
  contract_id = "";
}

abbrev trial_config : StellarConfig
trial_config = record {
  network = "testnet";
  horizon_url = "";
  destination = "GD";
  asset = "XLM";
  usdc_issuer = "";
  xlm_usd = "0.35";
}

network_config-Deliberate_example :
    (trial.secret ≢ "")
    × ((trial.asset ≢ "USDC") ⊎ (trial.usdc_issuer ≢ ""))
    × (if trial.allow_mainnet
        then Unit
        else (passphrase_of trial_config ≡ "Test SDF Network ; September 2015")
          × (x402_network trial_config ≡ "stellar-testnet"))
unfolding is_billing network_config
network_config-Deliberate_example = network_config-Deliberate trial trial_config refl refl
