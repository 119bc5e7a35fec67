-- ===== src/Resilience/Upstream.antt =====
-- src/gateway/domain/models.py and src/gateway/domain/exceptions.py: services, their instances, and
-- what a call of one gives.
use code_zard.Prelude.{ℕ, String, Bool, false, ◌||◌, List, [], ◌∷◌}
use code_zard.Prelude.Text.{same, upper}

-- Pairs of a name and a value, in order; a name may occur again.
abbrev pub Headers : Type 0
Headers = List (String × String)

pub record ServiceInstance : Type 0 where
  pub base_url : String
  pub id : String

pub record ServiceDefinition : Type 0 where
  pub name : String
  pub instances : List ServiceInstance
  pub health_path : String
  pub headers : Headers

-- The `ValueError`s of `ServiceDefinition`.
pub data ServiceError : Type 0 where
  no_base_url same_base_url_twice : ServiceError

-- What a call gives: an answer with its status; the two kinds of `UpstreamError`, with whether the
-- request was sent; `CircuitOpenError`; or any other exception, such as a cancellation.
pub data Reply : Type 0 where
  answered : ℕ → Reply
  timed_out unreachable : Bool → Reply
  circuit_open interrupted : Reply

abbrev pub one_of : String → List String → Bool
one_of s [] = false
one_of s (t ∷ ts) = same s t || one_of s ts

-- `IDEMPOTENT_METHODS`
unfoldable is_idempotent : String → Bool
is_idempotent method = one_of (upper method) ("GET" ∷ "HEAD" ∷ "OPTIONS" ∷ "PUT" ∷ "DELETE" ∷ [])
