-- ===== src/Client/Attest/Keeps.antt =====
-- What an attestation leaves as it was: any property that survives a request without a body, a key
-- set that is kept, and a backend that is kept.
use fidrouter.Base.{
  Text, Bytes, lit, Bool, true, false, Option, none, some, List, [], ◌∷◌, ◌++◌, append-nil, guard,
  same, ◌≡◌, refl, ap, ◌∙◌, if◌then◌else◌,
}
use fidrouter.Text.Hex.{hex}
use fidrouter.Text.Strip.{starts_with}
use fidrouter.Text.Utf8.Decode.{decode}
use fidrouter.Json.{Json, item, get, as_text}
use fidrouter.Env.{Env}
use fidrouter.Exec.{Exec, Keeps, Keeps-after, Keeps-bind}
use fidrouter.Jwt.{split_token, decode_part}
use fidrouter.Quote.Policy.{Backend}
use fidrouter.Client.State.{FidClient, Event, got, posted, http_get}
use fidrouter.Client.Binding.{bytes_item, tls_binding}
use fidrouter.Client.Confidential.{jwks_or_fetch, cached_jwks, cs_verify_jwt, verify_cs}
use fidrouter.Client.Confidential.Token.{require_rs256, check_claims}
use fidrouter.Client.Tdx.{keep_backend, run_policy, verify_tdx}
use fidrouter.Client.Attest.{dispatch, attest_and_verify}

module _ (env : Env) (P : FidClient → Type 0)
    (asks : (c : FidClient) (url : Text) → P c → P (record c { log = c.log ++ (got url ∷ []) }))
    (keeps_jwks : (c : FidClient) (jwks : Json) → P c → P (record c { cs_jwks = some jwks }))
    (keeps_backend : (c : FidClient) (b : Backend)
      → P c
      → P (record c { dcap_backend = some b })) where
  http_get-Keeps : (url : Text) → Keeps P (http_get env url)
  unfolding http_get
  http_get-Keeps url c h = asks c url h

  jwks_or_fetch-Keeps : (o : Option Json) → Keeps P (jwks_or_fetch env o)
  unfolding jwks_or_fetch
  jwks_or_fetch-Keeps (some jwks) c h = h
  jwks_or_fetch-Keeps none c h =
      Keeps-bind P (http_get env _) _ (http_get-Keeps _) (λ jwks c h. keeps_jwks c jwks h) c h

  cached_jwks-Keeps : Keeps P (cached_jwks env)
  unfolding cached_jwks
  cached_jwks-Keeps c = jwks_or_fetch-Keeps c.cs_jwks c

  cs_verify_jwt-Keeps : (token : Text) → Keeps P (cs_verify_jwt env token)
  unfolding cs_verify_jwt
  cs_verify_jwt-Keeps token = Keeps-after P (split_token token) _ λ parts.
      Keeps-after P (decode_part env parts.header) _ λ header.
        Keeps-after P (get header (lit "alg")) _ λ alg.
          Keeps-after P (require_rs256 alg) _
            λ _. Keeps-bind P (cached_jwks env) _ cached_jwks-Keeps (λ jwks c h. h)

  verify_cs-Keeps : (qj : Json) (nonce_hex : Text) → Keeps P (verify_cs env qj nonce_hex)
  unfolding verify_cs
  verify_cs-Keeps qj nonce_hex c =
      Keeps-after P (bytes_item qj (lit "raw_quote")) _
        (λ raw. Keeps-after P (decode raw) _ λ token.
          Keeps-after P (bytes_item qj (lit "ephemeral_pub")) _ λ eph.
            Keeps-after P (bytes_item qj (lit "identity_pub")) _ λ idpub.
              Keeps-after P (bytes_item qj (lit "nonce")) _ λ echo.
                Keeps-after P (guard (same echo nonce_hex) _) _ λ _.
                  Keeps-after P (tls_binding env c.base_url qj) _ λ tls.
                    Keeps-bind P (cs_verify_jwt env token) _ (cs_verify_jwt-Keeps token) λ claims.
                      Keeps-after P (check_claims env c _ claims) _
                        λ _. Keeps-after P (item qj (lit "session")) _ λ session s h. h)
        c

  backend_kept :
      (o : Option Backend) (c : FidClient) (b : Backend)
      → P c
      → P (elim o [ some _ ↦ record c { dcap_backend = some b } | none ↦ c ])
  backend_kept none c b h = h
  backend_kept (some _) c b h = keeps_backend c b h

  run_policy-Keeps : (raw expected_rd : Bytes) → Keeps P (run_policy env raw expected_rd)
  unfolding run_policy keep_backend
  run_policy-Keeps raw expected_rd c h = backend_kept c.dcap_backend c _ h

  verify_tdx-Keeps : (qj : Json) (nonce_hex : Text) → Keeps P (verify_tdx env qj nonce_hex)
  unfolding verify_tdx
  verify_tdx-Keeps qj nonce_hex c =
      Keeps-after P (bytes_item qj (lit "raw_quote")) _
        (λ raw. Keeps-after P (bytes_item qj (lit "ephemeral_pub")) _ λ eph.
          Keeps-after P (bytes_item qj (lit "identity_pub")) _ λ idpub.
            Keeps-after P (bytes_item qj (lit "nonce")) _ λ echo.
              Keeps-after P (guard (same echo nonce_hex) _) _ λ _.
                Keeps-after P (tls_binding env c.base_url qj) _ λ tls.
                  Keeps-bind P (run_policy env raw _) _ (run_policy-Keeps raw _)
                    λ v. Keeps-after P (item qj (lit "session")) _ λ session s h. h)
        c

  Keeps-branch :
      {A : Type 0} (b : Bool) (m n : Exec FidClient A)
      → Keeps P m
      → Keeps P n
      → Keeps P (if b then m else n)
  Keeps-branch true m n km kn = km
  Keeps-branch false m n km kn = kn

  dispatch-Keeps :
      (plat : Text) (qj : Json) (nonce_hex : Text) → Keeps P (dispatch env plat qj nonce_hex)
  unfolding dispatch
  dispatch-Keeps plat qj nonce_hex =
      Keeps-branch (same plat (lit "gcp-cs")) _ _ (verify_cs-Keeps qj nonce_hex) (
        Keeps-branch (starts_with plat (lit "mock")) _ _ (λ c h. h) (verify_tdx-Keeps qj nonce_hex))

  pub attest_and_verify-Keeps : Keeps P (attest_and_verify env)
  unfolding attest_and_verify
  attest_and_verify-Keeps c =
      Keeps-bind P (http_get env _) _ (http_get-Keeps _)
        (λ qj. Keeps-after P (item qj (lit "platform")) _ λ platform.
          Keeps-after P (as_text platform) _ λ plat. dispatch-Keeps plat qj (hex env.token_bytes))
        c

-- The requests of a log that carry a body.
abbrev pub posts : List Event → List (Text × Json)
posts [] = []
posts (got url ∷ log) = posts log
posts (posted url body ∷ log) = (url, body) ∷ posts log

pub posts-append : (l m : List Event) → posts (l ++ m) ≡ posts l ++ posts m
posts-append [] m = refl
posts-append (got url ∷ l) m = posts-append l m
posts-append (posted url body ∷ l) m = ap (λ r. (url, body) ∷ r) (posts-append l m)

-- Whatever the enclave answers, and whether it is accepted or not, an attestation posts nothing.
pub attest_and_verify-posts :
    (env : Env) (c : FidClient) → posts (attest_and_verify env c).1.log ≡ posts c.log
attest_and_verify-posts env c =
    attest_and_verify-Keeps env (λ s. posts s.log ≡ posts c.log)
      (λ s url h. posts-append s.log (got url ∷ []) ∙ append-nil (posts s.log) ∙ h) (λ s jwks h. h)
      (λ s b h. h) c refl

-- The fields that a client is made with and never changes.
pub record SameSettings (c s : FidClient) : Type 0 where
  pub base_url : s.base_url ≡ c.base_url
  pub token : s.token ≡ c.token
  pub pin_measurement : s.pin_measurement ≡ c.pin_measurement
  pub pin_idpub : s.pin_idpub ≡ c.pin_idpub
  pub allow_unverified : s.dcap_allow_unverified ≡ c.dcap_allow_unverified
  pub cs_audience : s.cs_audience ≡ c.cs_audience

-- Whether an attestation is accepted or raises, the address, the token, the pins, the permission for
-- unverified quotes and the audience of the client are what they were.
pub attest_and_verify-SameSettings :
    (env : Env) (c : FidClient) → SameSettings c (attest_and_verify env c).1
attest_and_verify-SameSettings env c =
    attest_and_verify-Keeps env (SameSettings c)
      (λ s url h. restated s _ h refl refl refl refl refl refl)
      (λ s jwks h. restated s _ h refl refl refl refl refl refl)
      (λ s b h. restated s _ h refl refl refl refl refl refl) c
      (record {
        base_url = refl;
        token = refl;
        pin_measurement = refl;
        pin_idpub = refl;
        allow_unverified = refl;
        cs_audience = refl;
      })
  where
    restated :
        (s t : FidClient)
        → SameSettings c s
        → t.base_url ≡ s.base_url
        → t.token ≡ s.token
        → t.pin_measurement ≡ s.pin_measurement
        → t.pin_idpub ≡ s.pin_idpub
        → t.dcap_allow_unverified ≡ s.dcap_allow_unverified
        → t.cs_audience ≡ s.cs_audience
        → SameSettings c t
    restated s t h a b d e f g = record {
      base_url = a ∙ h.base_url;
      token = b ∙ h.token;
      pin_measurement = d ∙ h.pin_measurement;
      pin_idpub = e ∙ h.pin_idpub;
      allow_unverified = f ∙ h.allow_unverified;
      cs_audience = g ∙ h.cs_audience;
    }
