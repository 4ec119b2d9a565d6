-- ===== src/Quote/Token.antt =====
-- The parts of `IntelTrustAuthorityBackend` that leave the object alone: its requests, and the check
-- of a token against a key set. A message that shows a value ends where the value would stand.
use mathlib.Core.List.{foldr}
use fidrouter.Base.{
  Text, Bytes, lit, Bool, not, ◌&&◌, Option, none, some, List, [], ◌∷◌, ◌++◌, Result, ok, err,
  Error, dcap, type_error, index_error, invalid_signature, if◌then◌else◌, refuse, or_raise, ◌>>=◌,
  ◌>>◌, same,
}
use fidrouter.Text.Base64.{b64url, b64_decode}
use fidrouter.Text.Strip.{lower}
use fidrouter.Json.{
  Json, str, arr, obj, Items, nil, cons, Fields, end, field, get, get_or, item, as_text, is_text,
  truthy,
}
use fidrouter.Env.{Env, RsaKey}
use fidrouter.Jwt.{Parts, signing_input, select_key, rsa_numbers, has_expired}

-- `TcbResult`
pub record TcbResult : Type 0 where
  pub verified : Bool
  pub tcb_status : Json
  pub detail : Text
  pub claims : Json

-- The constructor's fields, its two URLs without their last slashes; and the cached key set.
pub record TrustAuthority : Type 0 where
  pub api_key : Text
  pub api_url : Text
  pub portal_url : Text
  pub ver : Text
  pub policy_ids : List Text
  pub use_nonce : Bool
  pub user_data_b64 : Text
  pub jwks : Option Json

abbrev pub base_headers : TrustAuthority → List (Text × Text)
base_headers ita = (lit "x-api-key", ita.api_key) ∷ (lit "Accept", lit "application/json") ∷ []

unfoldable pub get_nonce : Env → TrustAuthority → Result Json
get_nonce env ita = env.fetch (record {
  url = ita.api_url ++ (lit "/appraisal/" ++ (ita.ver ++ lit "/nonce"));
  headers = base_headers ita;
  body = none;
})

abbrev text_items : List Text → Items
text_items = foldr (λ s xs. cons (str s) xs) nil

-- The members that are sent only where they hold something.
abbrev when : Bool → Text → Json → Fields → Fields
when b k v fs = if b then field k v fs else fs

unfoldable pub attest_body : TrustAuthority → Text → Json → Json
attest_body ita quote_b64 nonce = obj (
    field (lit "quote") (str quote_b64) (
      when (truthy nonce) (lit "verifier_nonce") nonce (
        when (truthy (str ita.user_data_b64)) (lit "user_data") (str ita.user_data_b64) (
          when (truthy (arr (text_items ita.policy_ids))) (lit "policy_ids")
            (arr (text_items ita.policy_ids)) end))))

unfoldable pub attest : Env → TrustAuthority → Text → Json → Result Json
unfolding attest_body
attest env ita quote_b64 nonce = do
  answer ← env.fetch (record {
    url = ita.api_url ++ (lit "/appraisal/" ++ (ita.ver ++ lit "/attest"));
    headers = base_headers ita ++ ((lit "Content-Type", lit "application/json") ∷ []);
    body = some (attest_body ita quote_b64 nonce);
  })
  item answer (lit "token")

unfoldable pub first_item : Json → Result Json
first_item (arr (cons x xs)) = ok x
first_item (arr nil) = err index_error
first_item (str (c ∷ s)) = ok (str (c ∷ []))
first_item j = err type_error

-- The leaf certificate if there is one, and the bare numbers if not.
unfoldable pub pubkey_from_jwk : Env → Json → Result RsaKey
unfolding first_item
pubkey_from_jwk env jwk = do
  x5c ← get jwk (lit "x5c")
  if truthy x5c
      then (do leaf ← first_item x5c; s ← as_text leaf; der ← b64_decode s; env.certificate_key der)
      else rsa_numbers jwk

-- `except InvalidSignature: raise e`
abbrev pub signature_error : Error → Result (Unit {0}) → Result (Unit {0})
signature_error e (ok u) = ok u
signature_error e (err invalid_signature) = err e
signature_error e (err other) = err other

unfoldable pub check_alg : Env → Json → RsaKey → Bytes → Text → Result (Unit {0})
check_alg env alg key sig body =
    if is_text alg (lit "PS384")
    then env.rsa_pss_sha384 key sig body
    else if is_text alg (lit "RS256")
    then env.rsa_pkcs1_sha256 key sig body
    else err (dcap (lit "unsupported token alg "))

-- `verify_token`, from the choice of the key on
unfoldable pub check_token : Env → Parts → Json → Json → Json → Json → Result Json
unfolding check_alg
check_token env parts kid alg claims jwks = do
  found ← select_key env.floats jwks kid
  jwk ← or_raise found (dcap (lit "ITA JWKS has no key for kid="))
  key ← pubkey_from_jwk env jwk
  sig ← b64url parts.signature
  signature_error (dcap (lit "ITA token signature invalid"))
      (check_alg env alg key sig (signing_input parts.header parts.payload))
  late ← has_expired env claims
  refuse late (dcap (lit "ITA token expired"))
  ok claims

-- The token's own measurement: `claims["tdx_mrtd"]`, or that of the nested claims.
unfoldable pub token_mrtd : Json → Result Text
token_mrtd claims = do
  flat ← get claims (lit "tdx_mrtd")
  chosen ← if truthy flat then ok flat else (do
    nested ← get_or claims (lit "tdx") (obj end)
    get_or nested (lit "tdx_mrtd") (str []))
  s ← as_text chosen
  ok (lower s)

-- The token must describe the quote that was presented.
unfoldable pub cross_check : Json → Text → Result (Unit {0})
unfolding token_mrtd
cross_check claims mrtd_hex = do
  tok_mrtd ← token_mrtd claims
  refuse (not (same tok_mrtd []) && not (same tok_mrtd mrtd_hex))
      (dcap (lit "ITA token tdx_mrtd does not match the presented quote"))
