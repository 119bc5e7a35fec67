-- ===== src/Api/Routes.antt =====
-- Routes of src/gateway/api/routes: the proxy's (proxy.py), and of billing.py who is signed in and the
-- reading of an invoice.
use code_zard.Prelude.{ℕ, String, List, not, ◌||◌, if◌then◌else◌}
use code_zard.Prelude.Int.{ℤ}
use code_zard.Prelude.Text.{same, lower, strip}
use code_zard.Prelude.Result.{Result, ok, err}
use code_zard.Resilience.Upstream.{Headers, ServiceDefinition}
use code_zard.Proxy.{OutboundRequest}
use code_zard.Proxy.Forwarding.{UpstreamResponse, ProxyError, forward}
use code_zard.Identity.{Identity, Refusal, account_of}
use code_zard.Billing.Errors.{invoice_not_found}
use code_zard.Billing.Invoice.{Invoice}
use code_zard.Service.World.{Env, Action, pure, raise, ◌>>=◌}
use code_zard.Service.Sales.{confirm}
use code_zard.PaymentGate.{split_scheme}
use code_zard.Api.Requests.{Received, to_inbound_request, pinned}
use code_zard.Api.Answers.{streaming_headers}

-- The answer to the caller.
pub record Proxied (Body : Type 0) : Type 0 where
  pub status : ℕ
  pub headers : Headers
  pub body : Body

module _ {E Body : Type 0} (client : OutboundRequest → Result E (UpstreamResponse Body)) where
  abbrev pub relayed :
      Result (ProxyError E) (UpstreamResponse Body) → Result (ProxyError E) (Proxied Body)
  relayed (err e) = err e
  relayed (ok up) = ok (record {
    status = up.status_code;
    headers = streaming_headers up.headers up.instance_id;
    body = up.body;
  })

  -- `_forward`
  unfoldable pub proxied :
      List ServiceDefinition → Received → String → String → Result (ProxyError E) (Proxied Body)
  unfolding forward pinned to_inbound_request streaming_headers
  proxied registry received service_name path =
      let (name, id) = pinned service_name in
      relayed (forward client registry name (to_inbound_request received path) id)

-- What stops a sign-in: the identity's refusals, and a request without a bearer token.
pub data SignInError : Type 0 where
  sign_in_first : SignInError
  refused_by : Refusal → SignInError

abbrev known_account : Result Refusal String → Result SignInError String
known_account (ok account) = ok account
known_account (err e) = err (refused_by e)

-- `account_of`
unfoldable pub signed_in : Identity → String → ℤ → Result SignInError String
unfolding split_scheme account_of lower strip
signed_in identity authorization now =
    let (scheme, token) = split_scheme authorization in
    if not (same (lower scheme) "bearer") || same token ""
    then err sign_in_first
    else known_account (account_of identity (strip token) now)

abbrev pub own_invoice : String → String → Invoice → Action Invoice
own_invoice account id i =
    if not (same i.account account) then raise (invoice_not_found id) else pure i

-- `invoice`
unfoldable pub read_invoice : Env → String → String → Action Invoice
unfolding confirm
read_invoice env account id = do confirmed ← confirm env id; own_invoice account id confirmed
