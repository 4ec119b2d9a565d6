-- ===== src/Quote/TrustAuthority.antt =====
-- `IntelTrustAuthorityBackend.verify`: the object fetches the key set once and keeps it.
pub mod Laws
use fidrouter.Base.{
  Text, Bytes, lit, Option, none, some, [], ◌∷◌, ◌++◌, Result, ok, if◌then◌else◌, true,
}
use fidrouter.Text.Base64.{b64_encode}
use fidrouter.Text.Hex.{hex}
use fidrouter.Json.{Json, null, str, get, get_or, as_text}
use fidrouter.Env.{Env, Request}
use fidrouter.Exec.{Exec, pure, lift, gets, modify, ◌>>=◌, ◌>>◌}
use fidrouter.Jwt.{Parts, split_token, decode_part}
use fidrouter.Quote.Parse.{ParsedTdxQuote, parse_tdx_quote}
use fidrouter.Quote.Token.{TcbResult, TrustAuthority, get_nonce, attest, check_token, cross_check}

fetch_when_none : Env → Text → Option Json → Exec TrustAuthority Json
fetch_when_none env portal_url (some jwks) = pure jwks
fetch_when_none env portal_url none = do
  jwks ← lift (
      env.fetch (record {
        url = portal_url ++ lit "/certs";
        headers = (lit "Accept", lit "application/json") ∷ [];
        body = none;
      }))
  modify (λ s. record s { jwks = some jwks })
  pure jwks

unfoldable pub fetch_jwks : Env → Exec TrustAuthority Json
unfolding fetch_when_none
fetch_jwks env ita = fetch_when_none env ita.portal_url ita.jwks ita

unfoldable pub verify_token : Env → Text → Exec TrustAuthority Json
verify_token env token = do
  parts ← lift (split_token token)
  header ← lift (decode_part env parts.header)
  claims ← lift (decode_part env parts.payload)
  kid ← lift (get header (lit "kid"))
  alg ← lift (get header (lit "alg"))
  jwks ← fetch_jwks env
  lift (check_token env parts kid alg claims jwks)

unfoldable pub verify : Env → Bytes → Exec TrustAuthority TcbResult
verify env raw_quote = do
  ita ← gets (λ s. s)
  nonce ← lift (if ita.use_nonce then get_nonce env ita else ok null)
  answer ← lift (attest env ita (b64_encode raw_quote) nonce)
  token ← lift (as_text answer)
  claims ← verify_token env token
  parsed ← lift (parse_tdx_quote raw_quote)
  lift (cross_check claims (hex parsed.mrtd_bytes))
  tcb ← lift (get_or claims (lit "attester_tcb_status") (str (lit "unknown")))
  pure (record {
    verified = true;
    tcb_status = tcb;
    detail = lit "ITA token verified (advisories=";
    claims = claims;
  })
