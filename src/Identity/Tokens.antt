-- ===== src/Identity/Tokens.antt =====
-- Which tokens are opened (`_seal` and `_open` of `application/identity_service.py`).
use Prim.Native.Char.{Char, code}
use Prim.Native.String.{[] as empty_text, ◌∷◌ as ◌then_char◌, count}
use text.Mathlib.TextLemmas.{nil-append, cons-append}
use code_zard.Prelude.{
  ℕ, ◌==◌, ◌≤◌, String, Bool, true, false, not, ◌&&◌, ◌||◌, Option, none, some, ◌≡◌, ◌≢◌, refl, sym,
  ◌∙◌, arith, ap, ltb, Bool-cases, inl, inr, if◌then◌else◌,
}
use code_zard.Prelude.Text.{
  same, same_iff, same_refl, strip, concat, all_chars, all_chars-concat, is_black, strip-black,
}
use code_zard.Prelude.Result.{Result, ok, err}
use code_zard.Json.{Json, object, Fields, sort_keys}
use code_zard.Identity.{
  Crypto, Identity, Refusal, max_token_bytes, not_issued_here, malformed, no_token, partition, seal,
  open_token, claims_in, checked, opened_parts,
}

-- A character of URL-safe base64 is no dot and no white space.
abbrev is_plain : Char → Bool
is_plain c = not (code c == b'.') && is_black c

-- What the code relies on, of a text that is encoded: base64 decodes it, without dots or white space.
pub record IsEncoded (crypto : Crypto) (s : String) : Type 0 where
  pub decodes : crypto.unb64 (crypto.b64 s) ≡ some s
  pub plain : all_chars is_plain (crypto.b64 s) ≡ true

-- And of claims: their text and its HMAC are encoded, the latter not to nothing, and JSON reads back what
-- it wrote.
pub record Encodes (crypto : Crypto) (claims : Fields) : Type 0 where
  pub body : IsEncoded crypto (crypto.dumps claims)
  pub signature : IsEncoded crypto (crypto.mac (crypto.dumps claims))
  pub not_empty : crypto.b64 (crypto.mac (crypto.dumps claims)) ≢ ""
  pub reads : crypto.loads (crypto.dumps claims) ≡ some (object claims)

dot_concat : (t : String) → partition (concat "." t) ≡ ("", t)
unfolding partition
dot_concat t = rw (cons-append _ "" t, nil-append t)

partition-plain :
    (s t : String) → all_chars is_plain s ≡ true → partition (concat s (concat "." t)) ≡ (s, t)
unfolding partition all_chars
partition-plain empty_text t plain = rw (nil-append (concat "." t)) (dot_concat t)
partition-plain (c then_char s) t plain =
    let no_dot : (code c == b'.') ≡ false = ground arith in
    rw (cons-append c s (concat "." t), no_dot, partition-plain s t (ground arith))

all_chars-black : (s : String) → all_chars is_plain s ≡ true → all_chars is_black s ≡ true
unfolding all_chars
all_chars-black empty_text plain = refl
all_chars-black (c then_char s) plain = ground (arith, all_chars-black s)

sealed-black :
    (s t : String)
    → all_chars is_plain s ≡ true
    → all_chars is_plain t ≡ true
    → all_chars is_black (concat s (concat "." t)) ≡ true
unfolding all_chars code_zard.Prelude.Text.is_space
sealed-black s t plain plain' =
    all_chars-concat is_black s (concat "." t) (all_chars-black s plain)
      (all_chars-concat is_black "." t refl (all_chars-black t plain'))

pub not_same : (s t : String) → s ≢ t → same s t ≡ false
not_same s t apart = ground (arith, same_iff s t)

not_ok : (e : Refusal) (claims : Fields) → ¬ (◌≡◌ {A = Result Refusal Fields} (err e) (ok claims))
not_ok e claims h = cc

module _ (i : Identity) where
  open_token_lem :
      (token : String)
      → open_token i token ≡ (
          if same (strip token) "" || ltb max_token_bytes (count (strip token))
          then err no_token
          else opened_parts i (partition (strip token)))
  unfolding open_token
  open_token_lem token = refl

  -- A token that this gateway sealed opens to its claims, in the order of their keys, unless it is too long.
  pub open_token-seal :
      (claims : Fields)
      → Encodes i.crypto (sort_keys claims)
      → count (seal i claims) ≤ max_token_bytes
      → open_token i (seal i claims) ≡ ok (sort_keys claims)
  unfolding open_token seal
  open_token-seal claims codec fits =
      let body = i.crypto.dumps (sort_keys claims) in
      let head = i.crypto.b64 body in
      let tail = i.crypto.b64 (i.crypto.mac body) in
      let token = concat head (concat "." tail) in
      let parts = partition-plain head tail (codec.body.plain) in
      let not_empty : same token "" ≡ false =
        not_same token ""
          (λ nothing. codec.not_empty (ap (λ x. x.1) (sym parts ∙ (ap partition nothing)))) in
      let short : ltb max_token_bytes (count token) ≡ false = ground arith in
      rw (
        strip-black token (sealed-black head tail (codec.body.plain) (codec.signature.plain)),
        not_empty,
        short,
        parts,
        not_same tail "" (codec.not_empty),
        codec.body.decodes,
        codec.signature.decodes,
        same_refl (i.crypto.mac body),
        codec.reads,
      )

  -- The parts of a token, and the text that it seals.
  pub record Sealed (token : String) (claims : Fields) : Type 0 where
    pub body : String
    pub head : i.crypto.unb64 (partition (strip token)).0 ≡ some body
    pub tail : i.crypto.unb64 (partition (strip token)).1 ≡ some (i.crypto.mac body)
    pub reads : i.crypto.loads body ≡ some (object claims)

  claims_in_lem :
      (v : Option Json) (claims : Fields) → claims_in i v ≡ ok claims → v ≡ some (object claims)
  claims_in_lem (some (object fs)) claims h = cc
  claims_in_lem _ claims h = absurd (cc)

  checked_lem :
      (head tail : Option String) (claims : Fields)
      → checked i head tail ≡ ok claims
      → (body : String) × (head ≡ some body)
        × (tail ≡ some (i.crypto.mac body))
        × (i.crypto.loads body ≡ some (object claims))
  checked_lem (some body) (some signature) claims h =
      elim (Bool-cases (same signature (i.crypto.mac body))) [
        | inl genuine ↦ (
          body,
          refl,
          ap some ((same_iff signature (i.crypto.mac body)).0 genuine),
          claims_in_lem (i.crypto.loads body) claims (rw genuine at h),
        )
        | inr forged ↦ absurd (
            let refused : ◌≡◌ {A = Result Refusal Fields} (err not_issued_here) (ok claims) =
              rw forged at h in
            cc)
      ]
  checked_lem _ _ claims h = absurd (cc)

  opened_parts_lem :
      (parts : String × String) (claims : Fields)
      → opened_parts i parts ≡ ok claims
      → checked i (i.crypto.unb64 parts.0) (i.crypto.unb64 parts.1) ≡ ok claims
  opened_parts_lem (head, tail) claims h = elim (Bool-cases (same tail "")) [
    | inl missing ↦ absurd (not_ok malformed claims (rw missing at h))
    | inr there ↦ rw there at h
  ]

  -- Every token that is opened carries this gateway's own HMAC of the text that it seals, and the claims
  -- are what that text says.
  pub open_token-Sealed :
      (token : String) (claims : Fields) → open_token i token ≡ ok claims → Sealed token claims
  open_token-Sealed token claims h =
      let raw = strip token in
      elim (Bool-cases (same raw "" || ltb max_token_bytes (count raw))) [
        | inl refused ↦
            absurd (not_ok no_token claims (rw refused at (rw (open_token_lem token) at h)))
        | inr fits ↦
            let parts : opened_parts i (partition raw) ≡ ok claims =
              rw fits at (rw (open_token_lem token) at h) in
            let (body, head, tail, reads) =
              checked_lem (i.crypto.unb64 (partition raw).0) (i.crypto.unb64 (partition raw).1)
                claims (opened_parts_lem (partition raw) claims parts) in
            record { body = body; head = head; tail = tail; reads = reads }
      ]
