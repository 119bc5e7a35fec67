-- ===== src/Config/Accepted.antt =====
-- What accepted settings promise (src/gateway/config/settings.py).
use code_zard.Prelude.{
  sym, ◌≤◌, ◌<◌, ℕ, suc, ◌==◌, String, true, false, Option, none, some, List, [], ◌∷◌, ◌≡◌, ◌≢◌,
  ◌⊎◌, refl, arith, map, length, Each, Bool-cases, inl, inr, if◌then◌else◌,
}
use code_zard.Prelude.Text.{same, same_iff, all_chars, rstrip}
use code_zard.Prelude.Result.{ok, err}
use code_zard.Resilience.Upstream.{Headers, ServiceDefinition, one_of, same_base_url_twice}
use code_zard.Services.{instance_of, find_instance, count_ids, define_service, is_there}
use code_zard.Network.{StellarConfig, passphrase_of, x402_network}
use code_zard.Config.{
  ServiceSettings, is_accepted, is_single_line, is_line_char, are_headers, given_urls, given_once,
  normalized_urls, has_twice, to_definition, BillingSettings, is_billing, network_config,
}

length-map : {A B : Type 0} (f : A → B) (xs : List A) → length (map f xs) ≡ length xs
length-map f [] = refl
length-map f (x ∷ xs) = omega (arith, length-map f xs)

refl_number : (n : ℕ) → (suc n == suc n) ≡ true
refl_number n = ground arith

not_zero : (n : ℕ) → (suc n == 0) ≡ false
not_zero n = ground arith

single_lines :
    (hs : Headers)
    → are_headers hs ≡ true
    → Each (λ h. (h.1 ≢ "") × (all_chars is_line_char h.1 ≡ true)) hs
unfolding are_headers is_single_line
single_lines [] fine = tt
single_lines (h ∷ hs) fine =
    let (value, later) : (is_single_line h.1 ≡ true) × (are_headers hs ≡ true) =
      (ground arith, ground arith) in
    (((λ e. ground (arith, same_iff h.1 "", e)), ground arith), single_lines hs later)

same_sym : (s t : String) → same s t ≡ same t s
same_sym s t = elim (Bool-cases (same s t)) [
  | inl meet ↦ ground (arith, same_iff s t, same_iff t s, sym ((same_iff s t).0 meet))
  | inr apart ↦ elim (Bool-cases (same t s)) [
    | inl meet ↦ absurd (ground (arith, same_iff s t, sym ((same_iff t s).0 meet)))
    | inr apart' ↦ rw (apart, apart') refl
  ]
]

module _ (digest : String → String) where
  is_there-instances :
      (id : String) (us : List String)
      → is_there (find_instance (map (instance_of digest) us) id) ≡ one_of id (map digest us)
  unfolding find_instance instance_of
  is_there-instances id [] = refl
  is_there-instances id (u ∷ us) = elim (Bool-cases (same (digest u) id)) [
    | inl meet ↦ rw (← same_sym (digest u) id, meet) refl
    | inr apart ↦ rw (← same_sym (digest u) id, apart) (is_there-instances id us)
  ]

  count_ids-le : (us : List String) → count_ids (map (instance_of digest) us) ≤ length us
  unfolding count_ids
  count_ids-le [] = omega arith
  count_ids-le (u ∷ us) = ground (arith, count_ids-le us)

  -- There are as many ids as URLs exactly when the digests differ.
  count_ids-lem :
      (us : List String)
      → if has_twice (map digest us)
        then count_ids (map (instance_of digest) us) < length us
        else count_ids (map (instance_of digest) us) ≡ length us
  unfolding count_ids has_twice instance_of
  count_ids-lem [] = refl
  count_ids-lem (u ∷ us) =
      ground (arith, is_there-instances (digest u) us, count_ids-le us, count_ids-lem us)

  defined_of :
      (name health_path : String) (headers : Headers) (urls : List String)
      → urls ≢ []
      → count_ids (map (instance_of digest) urls) ≡ length urls
      → define_service digest name urls health_path headers
        ≡ ok (record {
          name = name;
          instances = map (instance_of digest) urls;
          health_path = health_path;
          headers = headers;
        })
  unfolding define_service
  defined_of name health_path headers [] some_url all = absurd (some_url refl)
  defined_of name health_path headers (u ∷ us) some_url all =
      rw (all, length-map (instance_of digest) us, not_zero (length us), refl_number (length us))
        refl

  refused_of :
      (name health_path : String) (headers : Headers) (urls : List String)
      → urls ≢ []
      → (count_ids (map (instance_of digest) urls) == length urls) ≡ false
      → define_service digest name urls health_path headers ≡ err same_base_url_twice
  unfolding define_service
  refused_of name health_path headers [] some_url fewer = absurd (some_url refl)
  refused_of name health_path headers (u ∷ us) some_url fewer =
      rw (length-map (instance_of digest) us, not_zero (length us), fewer) refl

  urls_given : (s : ServiceSettings) → is_accepted s ≡ true → normalized_urls s ≢ []
  unfolding is_accepted normalized_urls
  urls_given s accepted = go s.base_url s.base_urls (ground arith)
    where
      go :
          (url : Option String) (urls : List String)
          → given_once url urls ≡ true
          → map (rstrip b'/') (given_urls url urls) ≢ []
      go none [] once e = cc
      go none (u ∷ us) once e = cc
      go (some u) urls once e = cc

  -- Accepted settings of a service make a definition exactly when the digests of their normalised URLs
  -- differ: of that name, with one instance for each of the URLs, in their order, and with the configured
  -- headers, none of whose values is empty or has a line break or a NUL. Otherwise they are refused as
  -- giving a URL twice.
  pub to_definition_lem :
      (s : ServiceSettings)
      → is_accepted s ≡ true
      → if has_twice (map digest (normalized_urls s))
        then to_definition digest s ≡ err same_base_url_twice
        else (d : ServiceDefinition) × (to_definition digest s ≡ ok d)
          × (d.name ≡ s.name)
          × (d.instances ≡ map (instance_of digest) (normalized_urls s))
          × (d.headers ≡ s.headers)
          × Each (λ h. (h.1 ≢ "") × (all_chars is_line_char h.1 ≡ true)) d.headers
  unfolding to_definition is_accepted
  to_definition_lem s accepted =
      let us = normalized_urls s in
      let counted = count_ids-lem us in
      elim (Bool-cases (has_twice (map digest us))) [
        | inl twice ↦
            let fewer : count_ids (map (instance_of digest) us) < length us = rw twice at counted in
            rw twice
              (refused_of s.name s.health_path s.headers us (urls_given s accepted) (ground arith))
        | inr once ↦
            let all : count_ids (map (instance_of digest) us) ≡ length us = rw once at counted in
            rw once (
              _,
              defined_of s.name s.health_path s.headers us (urls_given s accepted) all,
              refl,
              refl,
              refl,
              single_lines s.headers (ground arith),
            )
      ]

same_network :
    (b : BillingSettings) (c : StellarConfig) → network_config b ≡ some c → b.network ≡ c.network
unfolding network_config
same_network b c built = ground arith

on_testnet :
    (c : StellarConfig)
    → same c.network "public" ≡ false
    → (passphrase_of c ≡ "Test SDF Network ; September 2015") × (x402_network c ≡ "stellar-testnet")
unfolding passphrase_of x402_network
on_testnet c elsewhere = (ground arith, ground arith)

-- Settings of the billing that are accepted name the public network only where mainnet is allowed: with
-- mainnet not allowed, the payment network that is built of them signs and is quoted on the test network;
-- and what is built has a secret to sign with, and an issuer where the asset is USDC.
pub network_config-Deliberate :
    (b : BillingSettings) (c : StellarConfig)
    → is_billing b ≡ true
    → network_config b ≡ some c
    → (b.secret ≢ "")
      × ((b.asset ≢ "USDC") ⊎ (b.usdc_issuer ≢ ""))
      × (if b.allow_mainnet
          then Unit
          else (passphrase_of c ≡ "Test SDF Network ; September 2015")
            × (x402_network c ≡ "stellar-testnet"))
unfolding is_billing network_config
network_config-Deliberate b c accepted built = (
  (λ e. ground (arith, same_iff b.secret "", e)),
  elim (Bool-cases (same b.asset "USDC")) [
    | inl usdc ↦ inr (λ e. ground (arith, same_iff b.usdc_issuer "", e))
    | inr other ↦ inl (λ e. ground (arith, same_iff b.asset "USDC", e))
  ],
  elim (Bool-cases b.allow_mainnet) [
    | inl on ↦ rw on tt
    | inr off ↦
        let elsewhere : same c.network "public" ≡ false = ground (arith, same_network b c built) in
        rw off (on_testnet c elsewhere)
  ],
)
