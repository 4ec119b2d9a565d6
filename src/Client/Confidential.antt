-- ===== src/Client/Confidential.antt =====
-- `_cs_verify_jwt` and `_verify_cs`: the attestation token of a Confidential Space workload.
pub mod Token
pub mod Laws
use fidrouter.Base.{
  Text, Bytes, lit, Option, none, some, [], ◌∷◌, ◌++◌, Result, ok, verification, guard, same,
}
use fidrouter.Text.Hex.{hex}
use fidrouter.Text.Utf8.Decode.{decode}
use fidrouter.Json.{Json, get, item}
use fidrouter.Env.{Env}
use fidrouter.Exec.{Exec, pure, lift, gets, modify, ◌>>=◌, ◌>>◌}
use fidrouter.Jwt.{Parts, split_token, decode_part}
use fidrouter.Client.State.{FidClient, Channel, http_get}
use fidrouter.Client.Binding.{bytes_item, tls_binding}
use Token.{cs_jwks_url, require_rs256, check_cs_token, check_claims}

-- The key set is fetched once.
unfoldable pub jwks_or_fetch : Env → Option Json → Exec FidClient Json
jwks_or_fetch env (some jwks) = pure jwks
jwks_or_fetch env none = do
  jwks ← http_get env cs_jwks_url
  modify (λ c. record c { cs_jwks = some jwks })
  pure jwks

unfoldable pub cached_jwks : Env → Exec FidClient Json
unfolding jwks_or_fetch
cached_jwks env c = jwks_or_fetch env c.cs_jwks c

-- `_cs_verify_jwt`
unfoldable pub cs_verify_jwt : Env → Text → Exec FidClient Json
cs_verify_jwt env token = do
  parts ← lift (split_token token)
  header ← lift (decode_part env parts.header)
  alg ← lift (get header (lit "alg"))
  lift (require_rs256 alg)
  jwks ← cached_jwks env
  lift (check_cs_token env parts header jwks)

-- `_verify_cs`
unfoldable pub verify_cs : Env → Json → Text → Exec FidClient Channel
verify_cs env qj nonce_hex = do
  c ← gets (λ c. c)
  raw ← lift (bytes_item qj (lit "raw_quote"))
  token ← lift (decode raw)
  eph ← lift (bytes_item qj (lit "ephemeral_pub"))
  idpub ← lift (bytes_item qj (lit "identity_pub"))
  nonce_echo ← lift (bytes_item qj (lit "nonce"))
  lift (
      guard (same nonce_echo nonce_hex)
        (verification (lit "enclave did not echo our nonce (possible replay)")))
  tls ← lift (tls_binding env c.base_url qj)
  claims ← cs_verify_jwt env token
  lift (check_claims env c (hex (env.sha256 (nonce_echo ++ (eph ++ (idpub ++ tls))))) claims)
  session ← lift (item qj (lit "session"))
  pure (record { session = session; ephemeral_pub = eph; identity_pub = idpub })
