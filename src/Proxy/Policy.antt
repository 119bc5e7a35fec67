-- ===== src/Proxy/Policy.antt =====
-- What crosses the gateway, name by name (`application/header_policy.py`).
use code_zard.Prelude.{
  String, Option, none, some, true, false, List, [], ◌∷◌, ◌++◌, ◌≡◌, ◌≢◌, refl, arith, map, keep,
  if◌then◌else◌, Bool-cases, inl, inr, ap,
}
use code_zard.Prelude.Text.{same, same_iff, same_refl, lower}
use code_zard.Resilience.Upstream.{Headers, one_of}
use code_zard.Proxy.{
  InboundRequest, values_named, without_names, connection_tokens, dropped_upstream, dropped_client,
  forwarding_headers, for_upstream, for_client, forwarding_names, header_if, forwarded_for,
  values_if, hop_by_hop_headers, recomputed_request_headers,
}

values_named-append :
    (name : String) (hs ks : Headers)
    → values_named name (hs ++ ks) ≡ values_named name hs ++ values_named name ks
values_named-append name [] ks = refl
values_named-append name (h ∷ hs) ks = ground (arith, values_named-append name hs ks)

-- Dropping takes all values of a dropped name and no value of another one.
values_named-without_names :
    (name : String) (dropped : List String) (hs : Headers)
    → values_named name (without_names dropped hs)
      ≡ (if one_of name dropped then [] else values_named name hs)
unfolding without_names
values_named-without_names name dropped [] = ground arith
values_named-without_names name dropped (h ∷ hs) =
    let ih = values_named-without_names name dropped hs in
    elim (Bool-cases (same (lower h.0) name)) [
      | inl named ↦
          let is_name = (same_iff _ _).0 named in
          elim (Bool-cases (one_of name dropped)) [
            | inl gone ↦
                let head_gone : one_of (lower h.0) dropped ≡ true = rw is_name gone in
                rw (without_names, keep, head_gone, gone) (rw gone at ih)
            | inr stays ↦
                let head_stays : one_of (lower h.0) dropped ≡ false = rw is_name stays in
                rw (without_names, keep, head_stays, stays, named)
                  (ap (λ vs. h.1 ∷ vs) (rw stays at ih))
          ]
      | inr other ↦ elim (Bool-cases (one_of (lower h.0) dropped)) [
        | inl gone ↦ rw (without_names, keep, gone, other) ih
        | inr stays ↦ rw (without_names, keep, stays, other) ih
      ]
    ]

for_upstream_parts :
    (r : InboundRequest) (service_headers : Headers)
    → for_upstream r service_headers
      ≡ without_names (dropped_upstream r.headers service_headers) r.headers
        ++ (forwarding_headers r ++ service_headers)
unfolding for_upstream
for_upstream_parts r service_headers = refl

-- What the service is sent under a name: the client's values, unless the gateway drops that name, then
-- the gateway's own and those configured for the service.
values_named-for_upstream :
    (name : String) (r : InboundRequest) (service_headers : Headers)
    → values_named name (for_upstream r service_headers)
      ≡ (if one_of name (dropped_upstream r.headers service_headers)
          then []
          else values_named name r.headers)
        ++ (values_named name (forwarding_headers r) ++ values_named name service_headers)
values_named-for_upstream name r service_headers = rw (
  for_upstream_parts r service_headers,
  values_named-append name (without_names (dropped_upstream r.headers service_headers) r.headers)
      (forwarding_headers r ++ service_headers),
  values_named-without_names name (dropped_upstream r.headers service_headers) r.headers,
  values_named-append name (forwarding_headers r) service_headers,
)

one_of-append_right :
    (name : String) (xs ys : List String) → one_of name ys ≡ true → one_of name (xs ++ ys) ≡ true
one_of-append_right name [] ys h = h
one_of-append_right name (x ∷ xs) ys h = ground (arith, one_of-append_right name xs ys h)

-- A name under which the service has a header of its own is dropped from what the client sends.
configured-dropped :
    (name : String) (hs : Headers)
    → values_named name hs ≢ []
    → one_of name (map (λ h. lower h.0) hs) ≡ true
configured-dropped name [] n = absurd (n refl)
configured-dropped name (h ∷ hs) n = elim (Bool-cases (same (lower h.0) name)) [
  | inl named ↦ let is_name = (same_iff _ _).0 named in rw (is_name, same_refl name)
  | inr other ↦
      let rest = configured-dropped name hs (λ none_there. n (rw other none_there)) in
      rw rest (ground arith)
]

apart : (s t : String) → same s t ≡ false → same t s ≡ false
apart s t h = ground (arith, same_iff s t, same_iff t s)

silent_if :
    (name header : String) (v : Option String)
    → same (lower header) name ≡ false
    → values_named name (header_if header v) ≡ []
silent_if name header none h = refl
silent_if name header (some v) h = elim (Bool-cases (same v "")) [
  | inl empty ↦ rw empty
  | inr full ↦ rw (full, h)
]

silent_chain :
    (name : String) (chain : List String)
    → same "x-forwarded-for" name ≡ false
    → values_named name (forwarded_for chain) ≡ []
unfolding lower
silent_chain name [] h = refl
silent_chain name (v ∷ vs) h = rw h

-- The gateway's own headers have the four forwarding names.
forwarding-silent :
    (name : String) (r : InboundRequest)
    → one_of name forwarding_names ≡ false
    → values_named name (forwarding_headers r) ≡ []
unfolding forwarding_headers lower
forwarding-silent name r plain =
    let proto : same "x-forwarded-proto" name ≡ false =
      apart name "x-forwarded-proto" (ground arith) in
    let for_ : same "x-forwarded-for" name ≡ false = apart name "x-forwarded-for" (ground arith) in
    let host : same "x-forwarded-host" name ≡ false =
      apart name "x-forwarded-host" (ground arith) in
    let id : same "x-request-id" name ≡ false = apart name "x-request-id" (ground arith) in
    let chain = values_named "x-forwarded-for" r.headers ++ values_if r.client_host in
    rw (
      proto,
      values_named-append name (forwarded_for chain)
          (header_if "x-forwarded-host" r.host ++ header_if "x-request-id" r.request_id),
      silent_chain name chain for_,
      values_named-append name (header_if "x-forwarded-host" r.host)
          (header_if "x-request-id" r.request_id),
      silent_if name "x-forwarded-host" r.host host,
      silent_if name "x-request-id" r.request_id id,
    )

credential-dropped :
    (name : String) (r : InboundRequest) (service_headers : Headers)
    → values_named name service_headers ≢ []
    → one_of name (dropped_upstream r.headers service_headers) ≡ true
unfolding dropped_upstream
credential-dropped name r service_headers configured =
    let own = map (λ h. lower h.0) service_headers in
    let tokens = connection_tokens r.headers in
    one_of-append_right name hop_by_hop_headers
      (recomputed_request_headers ++ (forwarding_names ++ (tokens ++ own)))
      (one_of-append_right name recomputed_request_headers (forwarding_names ++ (tokens ++ own)) (
        one_of-append_right name forwarding_names (tokens ++ own) (
          one_of-append_right name tokens own
            (configured-dropped name service_headers configured))))

-- A credential that is configured for a service reaches it as configured: whatever the client sends
-- under that name, in capitals or not, is gone, and the gateway adds no value of its own.
pub credential_wins :
    (name : String) (r : InboundRequest) (service_headers : Headers)
    → values_named name service_headers ≢ []
    → one_of name forwarding_names ≡ false
    → values_named name (for_upstream r service_headers) ≡ values_named name service_headers
credential_wins name r service_headers configured plain = rw (
  values_named-for_upstream name r service_headers,
  credential-dropped name r service_headers configured,
  forwarding-silent name r plain,
)

for_client_parts :
    (headers : Headers) → for_client headers ≡ without_names (dropped_client headers) headers
unfolding for_client
for_client_parts headers = refl

-- What the client is sent under a name: the service's values, unless the name is hop-by-hop, named by
-- a Connection header, or no longer true of the decoded body.
values_named-for_client :
    (name : String) (headers : Headers)
    → values_named name (for_client headers)
      ≡ (if one_of name (dropped_client headers) then [] else values_named name headers)
values_named-for_client name headers =
    rw (for_client_parts headers) (values_named-without_names name (dropped_client headers) headers)
