-- ===== src/Client/Confidential/Laws.antt =====
-- What a verified Confidential Space token proves.
use mathlib.Core.Path.{subst₃}
use fidrouter.Base.{
  Text, Bytes, lit, true, false, not, ◌&&◌, Option, none, some, [], ◌++◌, ok, refuse, guard,
  or_raise, refuse-eq-ok, guard-eq-ok, >>=-eq-ok, same, same_iff, ◌≡◌, refl, ap, ◌∙◌, ◌⊎◌, inl, inr,
}
use fidrouter.Text.Base64.{b64url}
use fidrouter.Text.Hex.{hex}
use fidrouter.Text.Utf8.Decode.{decode}
use fidrouter.Json.{Json, str, get, item, is_text}
use fidrouter.Json.Laws.{is_text-eq, pinned-eq}
use fidrouter.Env.{Env, RsaKey}
use fidrouter.Exec.{Returns, bind-Returns, lift-Returns, pure-Returns}
use fidrouter.Jwt.{
  Parts, split_token, decode_part, select_key, rsa_numbers, signing_input, has_expired,
}
use fidrouter.Quote.Token.{signature_error}
use fidrouter.Quote.TrustAuthority.Laws.{signature_error-eq-ok, or_raise-eq-ok}
use fidrouter.Client.State.{FidClient, Channel, http_get}
use fidrouter.Client.Binding.{bytes_item, tls_binding}
use fidrouter.Client.Binding.Laws.{TlsBound, tls_binding-TlsBound}
use fidrouter.Client.Confidential.{jwks_or_fetch, cached_jwks, cs_verify_jwt, verify_cs}
use fidrouter.Client.Confidential.Token.{
  cs_iss, cs_jwks_url, require_rs256, check_cs_token, nonce_in, image_digest, check_claims,
}

-- A token with a signature by the key that the key set has under its id.
pub record CsSigned (env : Env) (token : Text) (jwks claims : Json) : Type 0 where
  pub parts : Parts
  pub header : Json
  pub kid : Json
  pub jwk : Json
  pub key : RsaKey
  pub sig : Bytes
  pub parts_eq : split_token token ≡ ok parts
  pub header_eq : decode_part env parts.header ≡ ok header
  pub alg_eq : get header (lit "alg") ≡ ok (str (lit "RS256"))
  pub kid_eq : get header (lit "kid") ≡ ok kid
  pub found : select_key env.floats jwks kid ≡ ok (some jwk)
  pub key_eq : rsa_numbers jwk ≡ ok key
  pub sig_eq : b64url parts.signature ≡ ok sig
  pub signed : env.rsa_pkcs1_sha256 key sig (signing_input parts.header parts.payload) ≡ ok tt
  pub claims_eq : decode_part env parts.payload ≡ ok claims

-- The key set is the one that the client has kept, or the one that Google's address answers with now.
abbrev pub GoogleKeys : Env → Option Json → Json → Type 0
GoogleKeys env kept jwks =
    (kept ≡ some jwks)
    ⊎ (kept ≡ none)
      × (env.fetch (record {
        url =
            lit
              "https://www.googleapis.com/service_accounts/v1/metadata/jwk/signer@confidentialspace-sign.iam.gserviceaccount.com";
        headers = [];
        body = none;
      })
          ≡ ok jwks)

-- What the claims say.
pub record CsClaims (env : Env) (c : FidClient) (expected_bind : Text) (claims : Json)
    : Type 0 where
  pub issued :
      get claims (lit "iss") ≡ ok (str (lit "https://confidentialcomputing.googleapis.com"))
  pub unexpired : has_expired env claims ≡ ok false
  pub aud : Json
  pub aud_eq : get claims (lit "aud") ≡ ok aud
  pub audience : (c.cs_audience ≡ []) ⊎ (aud ≡ str c.cs_audience)
  pub eat : Json
  pub eat_eq : get claims (lit "eat_nonce") ≡ ok eat
  pub bound : nonce_in eat expected_bind ≡ ok true
  pub digest : Json
  pub digest_eq : image_digest claims ≡ ok digest
  pub image_pinned : (c.pin_measurement ≡ []) ⊎ (digest ≡ str c.pin_measurement)
  pub confidential : get claims (lit "swname") ≡ ok (str (lit "CONFIDENTIAL_SPACE"))

module _ (env : Env) where
  check_claims_sound :
      (c : FidClient) (expected_bind : Text) (claims : Json)
      → check_claims env c expected_bind claims ≡ ok tt
      → CsClaims env c expected_bind claims
  unfolding check_claims
  check_claims_sound c expected_bind claims h =
      let (iss, ei, h0) = >>=-eq-ok (get claims (lit "iss")) _ h in
      let (_, gi, h1) = >>=-eq-ok (guard (is_text iss cs_iss) _) _ h0 in
      let (late, el, h2) = >>=-eq-ok (has_expired env claims) _ h1 in
      let (_, gl, h3) = >>=-eq-ok (refuse late _) _ h2 in
      let (aud, ea, h4) = >>=-eq-ok (get claims (lit "aud")) _ h3 in
      let (_, ga, h5) =
        >>=-eq-ok (refuse (not (same c.cs_audience []) && not (is_text aud c.cs_audience)) _) _
          h4 in
      let (eat, ee, h6) = >>=-eq-ok (get claims (lit "eat_nonce")) _ h5 in
      let (inside, en, h7) = >>=-eq-ok (nonce_in eat expected_bind) _ h6 in
      let (_, gn, h8) = >>=-eq-ok (guard inside _) _ h7 in
      let (digest, ed, h9) = >>=-eq-ok (image_digest claims) _ h8 in
      let (_, gd, h10) =
        >>=-eq-ok
          (refuse (not (same c.pin_measurement []) && not (is_text digest c.pin_measurement)) _) _
          h9 in
      let (sw, es, h11) = >>=-eq-ok (get claims (lit "swname")) _ h10 in
      record {
        issued = ei ∙ ap ok (is_text-eq iss cs_iss (guard-eq-ok _ _ gi));
        unexpired = el ∙ ap ok (refuse-eq-ok late _ gl);
        aud = aud;
        aud_eq = ea;
        audience = pinned-eq c.cs_audience aud (refuse-eq-ok _ _ ga);
        eat = eat;
        eat_eq = ee;
        bound = en ∙ ap ok (guard-eq-ok inside _ gn);
        digest = digest;
        digest_eq = ed;
        image_pinned = pinned-eq c.pin_measurement digest (refuse-eq-ok _ _ gd);
        confidential = es ∙ ap ok (is_text-eq sw _ (guard-eq-ok _ _ h11));
      }

  jwks_or_fetch-GoogleKeys :
      (kept : Option Json) (c c' : FidClient) (jwks : Json)
      → Returns (jwks_or_fetch env kept) c jwks c'
      → GoogleKeys env kept jwks
  unfolding jwks_or_fetch http_get
  jwks_or_fetch-GoogleKeys (some k) c c' jwks h = inl (ap some (pure-Returns k jwks c c' h).0)
  jwks_or_fetch-GoogleKeys none c c' jwks h =
      let (k, s, e, h0) = bind-Returns (http_get env cs_jwks_url) _ c h in
      inr (refl, ap (λ p. p.0) e ∙ ap (λ p. p.0) h0)

  cached_jwks-GoogleKeys :
      (c c' : FidClient) (jwks : Json)
      → Returns (cached_jwks env) c jwks c'
      → GoogleKeys env c.cs_jwks jwks
  unfolding cached_jwks
  cached_jwks-GoogleKeys c = jwks_or_fetch-GoogleKeys c.cs_jwks c

  pub cs_verify_jwt_sound :
      (token : Text) (c c' : FidClient) (claims : Json)
      → Returns (cs_verify_jwt env token) c claims c'
      → (jwks : Json) × GoogleKeys env c.cs_jwks jwks × CsSigned env token jwks claims
  unfolding cs_verify_jwt check_cs_token require_rs256
  cs_verify_jwt_sound token c c' claims h =
      let (parts, ep, h0) = lift-Returns (split_token token) _ c h in
      let (header, eh, h1) = lift-Returns (decode_part env parts.header) _ c h0 in
      let (alg, ea, h2) = lift-Returns (get header (lit "alg")) _ c h1 in
      let (_, ga, h3) = lift-Returns (guard (is_text alg (lit "RS256")) _) _ c h2 in
      let (jwks, s, eg, h4) = bind-Returns (cached_jwks env) _ c h3 in
      let k = ap (λ p. p.0) h4 in
      let (kid, ek, k0) = >>=-eq-ok (get header (lit "kid")) _ k in
      let (found, ef, k1) = >>=-eq-ok (select_key env.floats jwks kid) _ k0 in
      let (jwk, ej, k2) = >>=-eq-ok (or_raise found _) _ k1 in
      let (key, eq, k3) = >>=-eq-ok (rsa_numbers jwk) _ k2 in
      let (sig, es, k4) = >>=-eq-ok (b64url parts.signature) _ k3 in
      let body = signing_input parts.header parts.payload in
      let (_, ev, k5) = >>=-eq-ok (signature_error _ (env.rsa_pkcs1_sha256 key sig body)) _ k4 in
      (
        jwks,
        cached_jwks-GoogleKeys c s jwks eg,
        record {
          parts = parts;
          header = header;
          kid = kid;
          jwk = jwk;
          key = key;
          sig = sig;
          parts_eq = ep;
          header_eq = eh;
          alg_eq = ea ∙ ap ok (is_text-eq alg _ (guard-eq-ok _ _ ga));
          kid_eq = ek;
          found = ef ∙ ap ok (or_raise-eq-ok found _ ej);
          key_eq = eq;
          sig_eq = es;
          signed = signature_error-eq-ok _ _ ev;
          claims_eq = k5;
        },
      )

  -- What stands behind a channel to a Confidential Space workload.
  pub record CsVerified (c : FidClient) (qj : Json) (nonce_hex : Text) (ch : Channel) : Type 0 where
    pub token : Text
    pub jwks : Json
    pub claims : Json
    pub keys : GoogleKeys env c.cs_jwks jwks
    pub signed : CsSigned env token jwks claims
    pub tls : Bytes
    pub tls_bound : TlsBound env c.base_url qj tls
    pub nonce_eq : bytes_item qj (lit "nonce") ≡ ok nonce_hex
    pub ephemeral_eq : bytes_item qj (lit "ephemeral_pub") ≡ ok ch.ephemeral_pub
    pub identity_eq : bytes_item qj (lit "identity_pub") ≡ ok ch.identity_pub
    pub token_eq :
        (raw : Bytes) × (bytes_item qj (lit "raw_quote") ≡ ok raw) × (decode raw ≡ ok token)
    pub checked :
        CsClaims env c
          (hex (env.sha256 (nonce_hex ++ (ch.ephemeral_pub ++ (ch.identity_pub ++ tls)))))
          claims

  -- A Confidential Space workload is accepted only with a token that is signed with RS256 by the key
  -- of its id, in the key set that the client has kept or else fetched now from Google's address; that
  -- names Google's service as its issuer and the client's audience, if the client has one; that has not
  -- expired, whose
  -- software is Confidential Space, whose image digest is the pinned one, if one is pinned, and
  -- whose nonces include the digest over the fresh nonce, the channel's key, the key that signs
  -- receipts and the TLS key.
  pub verify_cs_sound :
      (c c' : FidClient) (qj : Json) (nonce_hex : Text) (ch : Channel)
      → Returns (verify_cs env qj nonce_hex) c ch c'
      → CsVerified c qj nonce_hex ch
  unfolding verify_cs
  verify_cs_sound c c' qj nonce_hex ch h =
      let (raw, er, h0) = lift-Returns (bytes_item qj (lit "raw_quote")) _ c h in
      let (token, et, h1) = lift-Returns (decode raw) _ c h0 in
      let (eph, ee, h2) = lift-Returns (bytes_item qj (lit "ephemeral_pub")) _ c h1 in
      let (idpub, ei, h3) = lift-Returns (bytes_item qj (lit "identity_pub")) _ c h2 in
      let (echo, en, h4) = lift-Returns (bytes_item qj (lit "nonce")) _ c h3 in
      let (_, gn, h5) = lift-Returns (guard (same echo nonce_hex) _) _ c h4 in
      let (tls, eb, h6) = lift-Returns (tls_binding env c.base_url qj) _ c h5 in
      let (claims, s, ec, h7) = bind-Returns (cs_verify_jwt env token) _ c h6 in
      let (_, ek, h8) =
        lift-Returns
          (check_claims env c (hex (env.sha256 (echo ++ (eph ++ (idpub ++ tls))))) claims) _ s h7 in
      let (session, es, h9) = lift-Returns (item qj (lit "session")) _ s h8 in
      let (e, _) = pure-Returns _ ch s c' h9 in
      let fresh : echo ≡ nonce_hex = (same_iff echo nonce_hex).0 (guard-eq-ok _ _ gn) in
      let e1 : eph ≡ ch.ephemeral_pub = ap (λ k. k.ephemeral_pub) e in
      let e2 : idpub ≡ ch.identity_pub = ap (λ k. k.identity_pub) e in
      let (jwks, keys, signed) = cs_verify_jwt_sound token c s claims ec in
      record {
        token = token;
        jwks = jwks;
        claims = claims;
        keys = keys;
        signed = signed;
        tls = tls;
        tls_bound = tls_binding-TlsBound env c.base_url qj tls eb;
        nonce_eq = en ∙ ap ok fresh;
        ephemeral_eq = ee ∙ ap ok e1;
        identity_eq = ei ∙ ap ok e2;
        token_eq = (raw, er, et);
        checked =
            subst₃ (λ n k i. CsClaims env c (hex (env.sha256 (n ++ (k ++ (i ++ tls))))) claims)
              fresh e1 e2 (check_claims_sound c _ claims ek);
      }
