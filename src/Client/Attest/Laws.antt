-- ===== src/Client/Attest/Laws.antt =====
-- What a successful attestation proves.
use fidrouter.Base.{
  Text, lit, true, false, none, [], ◌∷◌, ◌++◌, ok, same, ◌≡◌, ap, ◌∙◌, inl, inr, Bool-cases,
  same_iff,
}
use fidrouter.Text.Hex.{hex}
use fidrouter.Text.Strip.{starts_with}
use fidrouter.Json.{Json, str, item, as_text}
use fidrouter.Json.Laws.{as_text-eq}
use fidrouter.Env.{Env}
use fidrouter.Exec.{Returns, lift-Returns}
use fidrouter.Client.State.{FidClient, Channel, got, http_get}
use fidrouter.Client.Mock.Laws.{MockVerified, verify_mock_sound}
use fidrouter.Client.Confidential.Laws.{CsVerified, verify_cs_sound}
use fidrouter.Client.Tdx.Laws.{TdxVerified, verify_tdx_sound}
use fidrouter.Client.Attest.{dispatch, attest_and_verify}

-- The three ways in which a document can make a channel, each for the platforms that call for it.
pub data VerifiedAs (env : Env) (c : FidClient) (qj : Json) (plat : Text) (ch : Channel)
    : Type 0 where
  by_cs :
      plat ≡ lit "gcp-cs"
      → CsVerified env c qj (hex env.token_bytes) ch
      → VerifiedAs env c qj plat ch
  by_mock :
      starts_with plat (lit "mock") ≡ true
      → MockVerified env c qj (hex env.token_bytes) ch
      → VerifiedAs env c qj plat ch
  by_tdx :
      same plat (lit "gcp-cs") ≡ false
      → starts_with plat (lit "mock") ≡ false
      → TdxVerified env c qj (hex env.token_bytes) ch
      → VerifiedAs env c qj plat ch

-- The document that the client's own address answers with to the fresh nonce, verified as its platform
-- calls for.
pub record Verified (env : Env) (c : FidClient) (ch : Channel) : Type 0 where
  pub document : Json
  pub fetched :
      env.fetch (record {
        url = c.base_url ++ (lit "/attestation?nonce=" ++ hex env.token_bytes);
        headers = [];
        body = none;
      })
      ≡ ok document
  pub platform : Text
  pub platform_eq : item document (lit "platform") ≡ ok (str platform)
  pub verified : VerifiedAs env c document platform ch

module _ (env : Env) where
  dispatch_sound :
      (plat : Text) (qj : Json) (c c' : FidClient) (ch : Channel)
      → Returns (dispatch env plat qj (hex env.token_bytes)) c ch c'
      → VerifiedAs env c qj plat ch
  unfolding dispatch
  dispatch_sound plat qj c c' ch h = elim (Bool-cases (same plat (lit "gcp-cs"))) [
    | inl cs ↦
        by_cs ((same_iff plat (lit "gcp-cs")).0 cs) (verify_cs_sound env c c' qj _ ch (rw cs at h))
    | inr other ↦ elim (Bool-cases (starts_with plat (lit "mock"))) [
      | inl mock ↦
          by_mock mock
            (verify_mock_sound env c qj _ ch (ap (λ p. p.0) (rw mock at (rw other at h))))
      | inr raw ↦ by_tdx other raw (verify_tdx_sound env c c' qj _ ch (rw raw at (rw other at h)))
    ]
  ]

  abbrev attestation_url : FidClient → Text
  attestation_url c = c.base_url ++ (lit "/attestation?nonce=" ++ hex env.token_bytes)

  -- The client after its request.
  abbrev pub asked : FidClient → FidClient
  asked c = record c { log = c.log ++ (got (attestation_url c) ∷ []) }

  -- A channel is returned only if the document that the client's own address gave, in answer to the
  -- request with the fresh nonce, was verified in the way that its platform calls for: `gcp-cs` by the
  -- Confidential Space token, a platform that begins with `mock` by the signed development quote, and
  -- every other by the TDX quote.
  pub attest_and_verify_sound :
      (c c' : FidClient) (ch : Channel)
      → Returns (attest_and_verify env) c ch c'
      → Verified env (asked c) ch
  unfolding attest_and_verify http_get
  attest_and_verify_sound c c' ch h =
      let (qj, eq, h0) = lift-Returns (env.fetch _) _ (asked c) h in
      let (platform, ep, h1) = lift-Returns (item qj (lit "platform")) _ (asked c) h0 in
      let (plat, et, h2) = lift-Returns (as_text platform) _ (asked c) h1 in
      record {
        document = qj;
        fetched = eq;
        platform = plat;
        platform_eq = ep ∙ ap ok (as_text-eq platform plat et);
        verified = dispatch_sound plat qj (asked c) c' ch h2;
      }
