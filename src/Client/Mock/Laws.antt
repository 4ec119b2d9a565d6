-- ===== src/Client/Mock/Laws.antt =====
-- What a verified development quote proves.
use fidrouter.Base.{
  Text, Bytes, not, ◌&&◌, [], ◌++◌, ok, refuse, guard, refuse-eq-ok, guard-eq-ok, >>=-eq-ok, same,
  same_iff, ◌≡◌, ap, ◌∙◌, sym, ◌⊎◌,
}
use fidrouter.Text.Hex.{hex}
use fidrouter.Json.{Json, str, is_text}
use fidrouter.Json.Laws.{is_text-eq, pinned-eq, pinned_bytes-eq}
use fidrouter.Env.{Env}
use fidrouter.Exec.{ok-injective}
use fidrouter.Quote.TrustAuthority.Laws.{signature_error-eq-ok}
use fidrouter.Quote.Token.{signature_error}
use fidrouter.Client.State.{FidClient, Channel}
use fidrouter.Client.Binding.{tls_binding}
use fidrouter.Client.Binding.Laws.{TlsBound, tls_binding-TlsBound}
use fidrouter.Client.Mock.{MockQuote, read_mock, signed_body, verify_mock}

pub record MockVerified (env : Env) (c : FidClient) (qj : Json) (nonce_hex : Text) (ch : Channel)
    : Type 0 where
  pub quote : MockQuote
  pub quote_eq : read_mock qj ≡ ok quote
  pub measurement_pinned : (c.pin_measurement ≡ []) ⊎ (quote.measurement ≡ str c.pin_measurement)
  pub identity_pinned : (c.pin_idpub ≡ []) ⊎ (quote.identity_pub ≡ c.pin_idpub)
  pub body : Bytes
  pub body_eq : signed_body quote ≡ ok body
  pub signed : env.ed25519_verify quote.identity_pub quote.sig body ≡ ok tt
  pub fresh : quote.nonce ≡ nonce_hex
  pub tls : Bytes
  pub tls_bound : TlsBound env c.base_url qj tls
  pub bound : quote.report_data ≡ str (hex (env.sha256 (nonce_hex ++ (ch.ephemeral_pub ++ tls))))
  pub channel : ch ≡ record {
    session = quote.session;
    ephemeral_pub = quote.ephemeral_pub;
    identity_pub = quote.identity_pub;
  }

-- A development enclave is accepted only if its quote agrees with both pins, is signed by its
-- identity key, echoes the fresh nonce, and binds the nonce, the channel's key and the TLS key by
-- the digest in its report data.
pub verify_mock_sound :
    (env : Env) (c : FidClient) (qj : Json) (nonce_hex : Text) (ch : Channel)
    → verify_mock env c qj nonce_hex ≡ ok ch
    → MockVerified env c qj nonce_hex ch
unfolding verify_mock
verify_mock_sound env c qj nonce_hex ch h =
    let (q, eq, h0) = >>=-eq-ok (read_mock qj) _ h in
    let (_, em, h1) =
      >>=-eq-ok
        (refuse (not (same c.pin_measurement []) && not (is_text q.measurement c.pin_measurement))
          _)
        _ h0 in
    let (_, ei, h2) =
      >>=-eq-ok (refuse (not (same c.pin_idpub []) && not (same q.identity_pub c.pin_idpub)) _) _
        h1 in
    let (body, eb, h3) = >>=-eq-ok (signed_body q) _ h2 in
    let (_, es, h4) =
      >>=-eq-ok (signature_error _ (env.ed25519_verify q.identity_pub q.sig body)) _ h3 in
    let (_, en, h5) = >>=-eq-ok (guard (same q.nonce nonce_hex) _) _ h4 in
    let (tls, et, h6) = >>=-eq-ok (tls_binding env c.base_url qj) _ h5 in
    let (_, er, h7) =
      >>=-eq-ok
        (guard (is_text q.report_data (hex (env.sha256 (q.nonce ++ (q.ephemeral_pub ++ tls))))) _) _
        h6 in
    let e = ok-injective _ ch h7 in
    let fresh = (same_iff q.nonce nonce_hex).0 (guard-eq-ok _ _ en) in
    let named = is_text-eq q.report_data _ (guard-eq-ok _ _ er) in
    record {
      quote = q;
      quote_eq = eq;
      measurement_pinned = pinned-eq c.pin_measurement q.measurement (refuse-eq-ok _ _ em);
      identity_pinned = pinned_bytes-eq c.pin_idpub q.identity_pub (refuse-eq-ok _ _ ei);
      body = body;
      body_eq = eb;
      signed = signature_error-eq-ok _ _ es;
      fresh = fresh;
      tls = tls;
      tls_bound = tls_binding-TlsBound env c.base_url qj tls et;
      bound =
          named
          ∙ ap (λ n. str (hex (env.sha256 (n ++ (q.ephemeral_pub ++ tls))))) fresh
          ∙ ap (λ k. str (hex (env.sha256 (nonce_hex ++ (Channel.ephemeral_pub k ++ tls))))) e;
      channel = sym e;
    }
