-- ===== src/Client/Confidential/Token.antt =====
-- The checks of a Confidential Space token that leave the client alone.
use fidrouter.Base.{
  Text, lit, Bool, false, not, ◌&&◌, [], Result, ok, err, verification, type_error, refuse, guard,
  or_raise, ◌>>=◌, ◌>>◌, same, if◌then◌else◌,
}
use fidrouter.Text.Base64.{b64url}
use fidrouter.Json.{
  Json, str, arr, obj, end, get, get_or, is_text, truthy, or_else, contains_text, has_key,
}
use fidrouter.Env.{Env}
use fidrouter.Jwt.{Parts, signing_input, decode_part, select_key, rsa_numbers, has_expired}
use fidrouter.Quote.Token.{signature_error}
use fidrouter.Client.State.{FidClient}

abbrev pub cs_iss : Text
cs_iss = lit "https://confidentialcomputing.googleapis.com"

abbrev pub cs_jwks_url : Text
cs_jwks_url =
    lit
      "https://www.googleapis.com/service_accounts/v1/metadata/jwk/signer@confidentialspace-sign.iam.gserviceaccount.com"

unfoldable pub require_rs256 : Json → Result (Unit {0})
require_rs256 alg =
    guard (is_text alg (lit "RS256")) (verification (lit "unexpected CS token alg "))

-- `_cs_verify_jwt`, from the choice of the key on
unfoldable pub check_cs_token : Env → Parts → Json → Json → Result Json
check_cs_token env parts header jwks = do
  kid ← get header (lit "kid")
  found ← select_key env.floats jwks kid
  jwk ← or_raise found (verification (lit "CS JWKS has no key for kid="))
  key ← rsa_numbers jwk
  sig ← b64url parts.signature
  signature_error (verification (lit "CS token signature invalid"))
      (env.rsa_pkcs1_sha256 key sig (signing_input parts.header parts.payload))
  decode_part env parts.payload

-- `expected_bind not in eat`, with `[eat] if isinstance(eat, str) else (eat or [])`
unfoldable pub nonce_in : Json → Text → Result Bool
nonce_in (str s) b = ok (same s b)
nonce_in (arr xs) b = ok (contains_text xs b)
nonce_in (obj fs) b = has_key (obj fs) b
nonce_in j b = if truthy j then err type_error else ok false

-- `((claims.get("submods") or {}).get("container") or {}).get("image_digest", "")`
unfoldable pub image_digest : Json → Result Json
image_digest claims = do
  submods ← get claims (lit "submods")
  container ← get (or_else submods (obj end)) (lit "container")
  get_or (or_else container (obj end)) (lit "image_digest") (str [])

-- `_verify_cs`, from the claims on
unfoldable pub check_claims : Env → FidClient → Text → Json → Result (Unit {0})
check_claims env c expected_bind claims = do
  iss ← get claims (lit "iss")
  guard (is_text iss cs_iss) (verification (lit "CS token iss mismatch: "))
  late ← has_expired env claims
  refuse late (verification (lit "CS token expired"))
  aud ← get claims (lit "aud")
  refuse (not (same c.cs_audience []) && not (is_text aud c.cs_audience))
      (verification (lit "CS token aud mismatch: "))
  eat ← get claims (lit "eat_nonce")
  bound ← nonce_in eat expected_bind
  guard bound (verification (lit "eat_nonce not bound to nonce+keys (replay/mismatch)"))
  digest ← image_digest claims
  refuse (not (same c.pin_measurement []) && not (is_text digest c.pin_measurement))
      (verification (lit "image_digest mismatch\n  got:    "))
  swname ← get claims (lit "swname")
  guard (is_text swname (lit "CONFIDENTIAL_SPACE"))
      (verification (lit "not Confidential Space (swname="))
