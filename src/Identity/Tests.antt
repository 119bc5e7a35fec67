-- ===== src/Identity/Tests.antt =====
-- A gateway whose HMAC and base64 are spelled out, and a caller who signs in.
use Prim.Native.String.{count}
use code_zard.Prelude.{
  ◌≤◌, String, Bool, true, false, none, some, ◌≡◌, ◌≢◌, refl, arith, if◌then◌else◌,
}
use code_zard.Prelude.Int.{pos, ◌+ℤ◌}
use code_zard.Prelude.Text.{same, same_iff, concat, all_chars, is_space}
use code_zard.Prelude.Result.{ok, err}
use code_zard.Json.{object, text, integer, Fields, end, field, sort_keys}
use code_zard.Identity.{
  Crypto, Identity, not_issued_here, session_expired, other_service, Challenge, Session,
  challenge_claims, session_claims, seal, open_token, verify, account_of, is_address, is_expired,
  max_token_bytes,
}
use code_zard.Identity.Tokens.{Encodes, open_token-Sealed, Sealed}
use code_zard.Identity.SignIn.{sign_in, tokens_apart}

abbrev address : String
address = "GAAAAAAAAAAAAAAAAAAAAAAAAAAAAAAAAAAAAAAAAAAAAAAAAAAAAAAA"

abbrev issued_here : Challenge
issued_here = record { address = address; nonce = "n1"; issued_at = pos 100; audience = "codezard" }

abbrev session : Session
session = record { address = address; expires_at = pos 43_350 }

abbrev has_key : String → Fields → Bool
has_key key end = false
has_key key (field k v fs) = if same k key then true else has_key key fs

-- The texts of the claims, as `json.dumps` writes them with sorted keys.
abbrev challenge_text : String
challenge_text =
    "{\"a\":\"GAAAAAAAAAAAAAAAAAAAAAAAAAAAAAAAAAAAAAAAAAAAAAAAAAAAAAAA\",\"d\":\"codezard\",\"i\":100,\"n\":\"n1\"}"

abbrev session_text : String
session_text = "{\"a\":\"GAAAAAAAAAAAAAAAAAAAAAAAAAAAAAAAAAAAAAAAAAAAAAAAAAAAAAAA\",\"e\":43350}"

-- JSON reads its objects in the order of the text. The texts are their own base64.
abbrev crypto : Crypto
crypto = record {
  mac = λ s. concat "mac-" s;
  b64 = λ s. s;
  unb64 = λ s. some s;
  dumps = λ fs. if has_key "d" fs then challenge_text else session_text;
  loads = λ s.
      if same s challenge_text
      then some (
          object (
            field "a" (text address) (
              field "d" (text "codezard")
                (field "i" (integer (pos 100)) (field "n" (text "n1") end)))))
      else if same s session_text
      then some (object (field "a" (text address) (field "e" (integer (pos 43_350)) end)))
      else none;
  render = λ v. "";
}

abbrev gateway : Identity
gateway = record {
  crypto = crypto;
  verifier = record {
    available = true;
    verify = λ account text signature. same signature "signed";
  };
  audience = "codezard";
  session_ttl = pos 43_200;
}

challenge_token :
    seal gateway (challenge_claims issued_here)
    ≡ concat challenge_text (concat "." (concat "mac-" challenge_text))
unfolding seal
challenge_token = refl

-- A token with another HMAC is refused.
forged : open_token gateway (concat challenge_text ".mac-other") ≡ err not_issued_here
unfolding open_token
forged = refl

no_text : (s : String) → same s "" ≡ false → s ≢ ""
no_text s h e = absurd (cc ((same_iff s "").1 e))

challenge-Encodes : Encodes crypto (sort_keys (challenge_claims issued_here))
unfolding all_chars is_space sort_keys
challenge-Encodes = record {
  body = record { decodes = refl; plain = refl };
  signature = record { decodes = refl; plain = refl };
  not_empty = no_text (concat "mac-" challenge_text) refl;
  reads = refl;
}

session-Encodes : Encodes crypto (sort_keys (session_claims session))
unfolding all_chars is_space sort_keys
session-Encodes = record {
  body = record { decodes = refl; plain = refl };
  signature = record { decodes = refl; plain = refl };
  not_empty = no_text (concat "mac-" session_text) refl;
  reads = refl;
}

challenge_fits : count (seal gateway (challenge_claims issued_here)) ≤ max_token_bytes
unfolding seal
challenge_fits = omega arith

session_fits : count (seal gateway (session_claims session)) ≤ max_token_bytes
unfolding seal
session_fits = omega arith

open_token-Sealed_example :
    Sealed gateway
      (concat challenge_text (concat "." (concat "mac-" challenge_text)))
      (sort_keys (challenge_claims issued_here))
unfolding open_token sort_keys
open_token-Sealed_example =
    open_token-Sealed gateway (concat challenge_text (concat "." (concat "mac-" challenge_text)))
      (sort_keys (challenge_claims issued_here)) refl

sign_in_example :
    (verify gateway (seal gateway (challenge_claims issued_here)) "signed" (pos 140) (pos 150)
      ≡ ok (session, seal gateway (session_claims session)))
    × (account_of gateway (seal gateway (session_claims session)) (pos 43_349) ≡ ok address)
unfolding is_expired is_address ◌+ℤ◌
sign_in_example =
    sign_in gateway issued_here "signed" (pos 140) (pos 150) (pos 43_349) challenge-Encodes
      session-Encodes challenge_fits session_fits refl refl refl refl refl refl

tokens_apart_example :
    (account_of gateway (seal gateway (challenge_claims issued_here)) (pos 140)
      ≡ err session_expired)
    × (verify gateway (seal gateway (session_claims session)) "signed" (pos 140) (pos 150)
        ≡ err other_service)
unfolding is_address
tokens_apart_example =
    tokens_apart gateway issued_here session "signed" (pos 140) (pos 150) challenge-Encodes
      session-Encodes challenge_fits session_fits refl refl (no_text "codezard" refl)
