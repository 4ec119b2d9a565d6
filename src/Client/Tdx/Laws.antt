-- ===== src/Client/Tdx/Laws.antt =====
-- What a verified TDX attestation proves.
use mathlib.Core.Path.{subst₃}
use fidrouter.Base.{
  Text, Bytes, lit, some, ◌++◌, Result, ok, err, dcap, guard, guard-eq-ok, same, same_iff, ◌≡◌, ap,
  ◌∙◌,
}
use fidrouter.Json.{Json, item}
use fidrouter.Env.{Env}
use fidrouter.Exec.{Returns, bind-Returns, lift-Returns, pure-Returns}
use fidrouter.Quote.Token.{TcbResult}
use fidrouter.Quote.Policy.{Backend, VerifiedQuote, run_backend, verify_tdx_quote}
use fidrouter.Quote.Policy.Laws.{Policy, verify_tdx_quote_sound}
use fidrouter.Client.State.{FidClient, Channel}
use fidrouter.Client.Binding.{bytes_item, tls_binding}
use fidrouter.Client.Binding.Laws.{TlsBound, tls_binding-TlsBound}
use fidrouter.Client.Tdx.{chosen_backend, dcap_error, run_policy, verify_tdx}

dcap_error-eq-ok : (r : Result VerifiedQuote) (v : VerifiedQuote) → dcap_error r ≡ ok v → r ≡ ok v
dcap_error-eq-ok (ok u) v h = h
dcap_error-eq-ok (err (dcap m)) v h = cc
dcap_error-eq-ok (err e) v h = cc

module _ (env : Env) where
  run_policy_sound :
      (raw expected_rd : Bytes) (c c' : FidClient) (v : VerifiedQuote)
      → Returns (run_policy env raw expected_rd) c v c'
      → (tcb : TcbResult) × (b : Backend) × Returns (run_backend env raw) (chosen_backend c) tcb b
        × Policy raw c.pin_measurement (some expected_rd) c.dcap_allow_unverified tcb v
  unfolding run_policy
  run_policy_sound raw expected_rd c c' v h =
      let run =
        verify_tdx_quote env raw c.pin_measurement (some expected_rd) c.dcap_allow_unverified
          (chosen_backend c) in
      let e : run.0 ≡ ok v = dcap_error-eq-ok run.0 v (ap (λ p. p.0) h) in
      let (tcb, er, p) =
        verify_tdx_quote_sound env raw c.pin_measurement (some expected_rd) c.dcap_allow_unverified
          (chosen_backend c) run.1 v (λ i. (e i, run.1)) in
      (tcb, run.1, er, p)

  -- What stands behind a channel to a TDX machine.
  pub record TdxVerified (c : FidClient) (qj : Json) (nonce_hex : Text) (ch : Channel)
      : Type 0 where
    pub raw : Bytes
    pub raw_eq : bytes_item qj (lit "raw_quote") ≡ ok raw
    pub tls : Bytes
    pub tls_bound : TlsBound env c.base_url qj tls
    pub nonce_eq : bytes_item qj (lit "nonce") ≡ ok nonce_hex
    pub ephemeral_eq : bytes_item qj (lit "ephemeral_pub") ≡ ok ch.ephemeral_pub
    pub identity_eq : bytes_item qj (lit "identity_pub") ≡ ok ch.identity_pub
    pub tcb : TcbResult
    pub backend : Backend
    pub ran : Returns (run_backend env raw) (chosen_backend c) tcb backend
    pub answer : VerifiedQuote
    pub policy :
        Policy raw c.pin_measurement
          (some (env.sha256 (nonce_hex ++ (ch.ephemeral_pub ++ (ch.identity_pub ++ tls)))))
          c.dcap_allow_unverified
          tcb
          answer

  -- A TDX machine is accepted only if the client's backend gave a result for its quote, the nonce is
  -- the fresh one, and the policy holds of the quote with the client's pin and with the digest over
  -- the nonce, the channel's key, the key that signs receipts and the TLS key as report data.
  pub verify_tdx_sound :
      (c c' : FidClient) (qj : Json) (nonce_hex : Text) (ch : Channel)
      → Returns (verify_tdx env qj nonce_hex) c ch c'
      → TdxVerified c qj nonce_hex ch
  unfolding verify_tdx
  verify_tdx_sound c c' qj nonce_hex ch h =
      let (raw, er, h0) = lift-Returns (bytes_item qj (lit "raw_quote")) _ c h in
      let (eph, ee, h1) = lift-Returns (bytes_item qj (lit "ephemeral_pub")) _ c h0 in
      let (idpub, ei, h2) = lift-Returns (bytes_item qj (lit "identity_pub")) _ c h1 in
      let (echo, en, h3) = lift-Returns (bytes_item qj (lit "nonce")) _ c h2 in
      let (_, gn, h4) = lift-Returns (guard (same echo nonce_hex) _) _ c h3 in
      let (tls, eb, h5) = lift-Returns (tls_binding env c.base_url qj) _ c h4 in
      let (v, s, ev, h6) =
        bind-Returns (run_policy env raw (env.sha256 (echo ++ (eph ++ (idpub ++ tls))))) _ c h5 in
      let (session, es, h7) = lift-Returns (item qj (lit "session")) _ s h6 in
      let (e, _) = pure-Returns _ ch s c' h7 in
      let fresh : echo ≡ nonce_hex = (same_iff echo nonce_hex).0 (guard-eq-ok _ _ gn) in
      let e1 : eph ≡ ch.ephemeral_pub = ap (λ k. k.ephemeral_pub) e in
      let e2 : idpub ≡ ch.identity_pub = ap (λ k. k.identity_pub) e in
      let (tcb, b, ran, p) = run_policy_sound raw _ c s v ev in
      record {
        raw = raw;
        raw_eq = er;
        tls = tls;
        tls_bound = tls_binding-TlsBound env c.base_url qj tls eb;
        nonce_eq = en ∙ ap ok fresh;
        ephemeral_eq = ee ∙ ap ok e1;
        identity_eq = ei ∙ ap ok e2;
        tcb = tcb;
        backend = b;
        ran = ran;
        answer = v;
        policy =
            subst₃
              (λ n k i.
                Policy raw c.pin_measurement (some (env.sha256 (n ++ (k ++ (i ++ tls)))))
                  c.dcap_allow_unverified tcb v)
              fresh e1 e2 p;
      }
