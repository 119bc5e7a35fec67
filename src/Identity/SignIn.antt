-- ===== src/Identity/SignIn.antt =====
-- Signing in, and what the two kinds of tokens are good for (`application/identity_service.py`).
use Prim.Native.String.{count}
use code_zard.Prelude.{
  zero, suc, ◌≤◌, String, true, false, not, ◌≡◌, ◌≢◌, refl, sym, Bool-cases, inl, inr,
  if◌then◌else◌,
}
use code_zard.Prelude.Int.{ℤ, pos, negsuc, ◌+ℤ◌, leb_ℤ}
use code_zard.Prelude.Text.{same, same_iff}
use code_zard.Prelude.Result.{ok, err, ◌>>=◌}
use code_zard.Json.{Json, null, text, integer, Fields, get, sort_keys, str_or_empty}
use code_zard.Identity.{
  Identity, other_service, challenge_expired, unverifiable, wrong_signature, session_expired,
  names_no_account, max_token_bytes, is_address, Challenge, message, is_expired, Session, text_of,
  challenge_claims, session_claims, int_or, seal, open_token, judged, read_challenge, verify,
  session_account, account_of,
}
use code_zard.Identity.Tokens.{Encodes, open_token-seal, not_same}

int_or-integer : (n : ℤ) → int_or (integer n) ≡ ok n
unfolding int_or
int_or-integer (pos zero) = refl
int_or-integer (pos (suc n)) = refl
int_or-integer (negsuc n) = refl

str_or_empty-text : (render : Json → String) (s : String) → str_or_empty render (text s) ≡ s
unfolding str_or_empty
str_or_empty-text render s = elim (Bool-cases (same s "")) [
  | inl empty ↦ rw (empty, (same_iff s "").0 empty)
  | inr full ↦ rw full
]

int_or-null : int_or null ≡ ok (pos 0)
unfolding int_or
int_or-null = refl

str_or_empty-null : (render : Json → String) → str_or_empty render null ≡ ""
unfolding str_or_empty
str_or_empty-null render = refl

module _ (i : Identity) where
  read_challenge_lem :
      (claims : Fields)
      → read_challenge i claims ≡ (
          int_or (get "i" claims) >>= λ issued_at. ok (record {
            address = text_of i "a" claims;
            nonce = text_of i "n" claims;
            issued_at = issued_at;
            audience = text_of i "d" claims;
          }))
  unfolding read_challenge
  read_challenge_lem claims = refl

  read_challenge-claims : (c : Challenge) → read_challenge i (sort_keys (challenge_claims c)) ≡ ok c
  unfolding get sort_keys
  read_challenge-claims c =
      let render = i.crypto.render in
      rw (
        read_challenge_lem (sort_keys (challenge_claims c)),
        int_or-integer c.issued_at,
        str_or_empty-text render c.address,
        str_or_empty-text render c.nonce,
        str_or_empty-text render c.audience,
      )

  session_account_lem :
      (claims : Fields) (now : ℤ)
      → session_account i claims now ≡ (
          int_or (get "e" claims) >>= λ expires_at.
          if not (is_address (text_of i "a" claims))
          then err names_no_account
          else if leb_ℤ expires_at now
          then err session_expired
          else ok (text_of i "a" claims))
  unfolding session_account
  session_account_lem claims now = refl

  verify_lem :
      (token signature : String) (now later : ℤ)
      → verify i token signature now later ≡ (
          open_token i token >>= λ claims.
          read_challenge i claims >>= λ c. judged i c signature now later)
  unfolding verify
  verify_lem token signature now later = refl

  account_of_lem :
      (token : String) (now : ℤ)
      → account_of i token now ≡ (open_token i token >>= λ claims. session_account i claims now)
  unfolding account_of
  account_of_lem token now = refl

  judged_lem :
      (c : Challenge) (signature : String) (now later : ℤ)
      → let s : Session = record { address = c.address; expires_at = later +ℤ i.session_ttl } in
        judged i c signature now later ≡ (
          if not (same c.audience i.audience)
          then err other_service
          else if is_expired c now
          then err challenge_expired
          else if not i.verifier.available
          then err unverifiable
          else if not (i.verifier.verify c.address (message c) signature)
          then err wrong_signature
          else ok (s, seal i (session_claims s)))
  unfolding judged
  judged_lem c signature now later = refl

  judged-good :
      (c : Challenge) (signature : String) (now later : ℤ)
      → c.audience ≡ i.audience
      → is_expired c now ≡ false
      → i.verifier.available ≡ true
      → i.verifier.verify c.address (message c) signature ≡ true
      → let s : Session = record { address = c.address; expires_at = later +ℤ i.session_ttl } in
        judged i c signature now later ≡ ok (s, seal i (session_claims s))
  judged-good c signature now later here fresh available signed =
      let ours : same c.audience i.audience ≡ true = (same_iff c.audience i.audience).1 here in
      rw (judged_lem c signature now later, ours, fresh, available, signed)

  -- Signing in: a challenge of this gateway that has not expired, with a signature that its address
  -- verifies, gives a session for that address, and the session's token proves the address until the
  -- session expires.
  pub sign_in :
      (c : Challenge) (signature : String) (now later at : ℤ)
      → let s : Session = record { address = c.address; expires_at = later +ℤ i.session_ttl } in
        Encodes i.crypto (sort_keys (challenge_claims c))
        → Encodes i.crypto (sort_keys (session_claims s))
        → count (seal i (challenge_claims c)) ≤ max_token_bytes
        → count (seal i (session_claims s)) ≤ max_token_bytes
        → c.audience ≡ i.audience
        → is_address c.address ≡ true
        → is_expired c now ≡ false
        → i.verifier.available ≡ true
        → i.verifier.verify c.address (message c) signature ≡ true
        → leb_ℤ s.expires_at at ≡ false
        → (verify i (seal i (challenge_claims c)) signature now later
            ≡ ok (s, seal i (session_claims s)))
          × (account_of i (seal i (session_claims s)) at ≡ ok c.address)
  unfolding get sort_keys
  sign_in c signature now later at codec codec' fits fits' here address fresh available signed
        live =
      let s : Session = record { address = c.address; expires_at = later +ℤ i.session_ttl } in
      (
        rw
            (
              verify_lem (seal i (challenge_claims c)) signature now later,
              open_token-seal i (challenge_claims c) codec fits,
              read_challenge-claims c,
            )
            (judged-good c signature now later here fresh available signed),
        rw (
          account_of_lem (seal i (session_claims s)) at,
          open_token-seal i (session_claims s) codec' fits',
          session_account_lem (sort_keys (session_claims s)) at,
          int_or-integer s.expires_at,
          str_or_empty-text i.crypto.render c.address,
          address,
          live,
        ),
      )

  -- The two kinds of tokens do not stand in for one another: a challenge, though sealed by this gateway,
  -- proves no account at any time from the epoch on, and a session's token is no challenge, since it
  -- names no service, unless this gateway has no name either.
  pub tokens_apart :
      (c : Challenge) (s : Session) (signature : String) (now later : ℤ)
      → Encodes i.crypto (sort_keys (challenge_claims c))
      → Encodes i.crypto (sort_keys (session_claims s))
      → count (seal i (challenge_claims c)) ≤ max_token_bytes
      → count (seal i (session_claims s)) ≤ max_token_bytes
      → is_address c.address ≡ true
      → leb_ℤ (pos 0) now ≡ true
      → i.audience ≢ ""
      → (account_of i (seal i (challenge_claims c)) now ≡ err session_expired)
        × (verify i (seal i (session_claims s)) signature now later ≡ err other_service)
  unfolding get sort_keys
  tokens_apart c s signature now later codec codec' fits fits' address after_epoch named =
      let silent : same "" i.audience ≡ false = not_same "" i.audience (λ e. named (sym e)) in
      (
        rw (
          account_of_lem (seal i (challenge_claims c)) now,
          open_token-seal i (challenge_claims c) codec fits,
          session_account_lem (sort_keys (challenge_claims c)) now,
          int_or-null,
          str_or_empty-text i.crypto.render c.address,
          address,
          after_epoch,
        ),
        rw (
          verify_lem (seal i (session_claims s)) signature now later,
          open_token-seal i (session_claims s) codec' fits',
          read_challenge_lem (sort_keys (session_claims s)),
          int_or-null,
          judged_lem _ signature now later,
          str_or_empty-null i.crypto.render,
          silent,
        ),
      )
