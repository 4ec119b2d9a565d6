-- ===== src/Sdk/Tools/Laws.antt =====
-- What it takes for an endpoint to be reported as verified.
use fidrouter.Base.{
  Text, lit, Bool, true, false, none, [], Result, ok, err, >>=-eq-ok, if-cases, ◌≡◌, refl, sym, ap,
  ◌∙◌, subst, arith, inl, inr,
}
use fidrouter.Text.Strip.{rstrip}
use fidrouter.Exec.{ok-injective}
use fidrouter.Json.{Json, str, get_or, as_text, truthy}
use fidrouter.Json.Laws.{as_text-eq}
use fidrouter.Env.{Env}
use fidrouter.Client.State.{FidClient, Channel, new_client}
use fidrouter.Client.Attest.{attest_and_verify}
use fidrouter.Client.Attest.Laws.{Verified, asked, attest_and_verify_sound}
use fidrouter.Sdk.Tools.{
  get_json, registry, build_of, Checked, attested_with, attempted, verify_endpoint,
}

module _ (env : Env) where
  -- A client for the address that pins the measurement and allows no unverified quote, and a channel
  -- that it verified.
  pub record PinnedRun (url : Text) (meas : Json) : Type 0 where
    pub pin : Text
    pub measurement_eq : meas ≡ str pin
    pub client : FidClient
    pub client_eq :
        new_client (record {
          base_url = rstrip b'/' url;
          token = [];
          pin_measurement = pin;
          pin_idpub_hex = [];
          pccs_url = [];
          dcap_backend = none;
          dcap_allow_unverified = false;
          cs_audience = lit "fidrouter";
        })
        ≡ ok client
    pub channel : Channel
    pub verified : Verified env (asked env client) channel

  attested_with-PinnedRun :
      (url : Text) (meas : Json) (ch : Channel)
      → attested_with env (rstrip b'/' url) meas ≡ ok ch
      → PinnedRun url meas
  unfolding attested_with
  attested_with-PinnedRun url meas ch h =
      let (pin, ep, h0) = >>=-eq-ok (as_text meas) _ h in
      let (c, ec, h1) = >>=-eq-ok (new_client _) _ h0 in
      record {
        pin = pin;
        measurement_eq = as_text-eq meas pin ep;
        client = c;
        client_eq = ec;
        channel = ch;
        verified =
            attest_and_verify_sound env c (attest_and_verify env c).1 ch
              (λ i. (h1 i, (attest_and_verify env c).1));
      }

  attempted-PinnedRun :
      (url : Text) (meas : Json) (r : Result Channel)
      → attested_with env (rstrip b'/' url) meas ≡ r
      → (attempted (rstrip b'/' url) meas r).ok_flag ≡ true
      → PinnedRun url meas
  unfolding attempted
  attempted-PinnedRun url meas (ok ch) e h = attested_with-PinnedRun url meas ch e
  attempted-PinnedRun url meas (err x) e h = absurd (ground (arith, h))

  -- The measurement that is reported, the registry's build for it, and the run that pinned it.
  pub record EndpointVerified (platform url : Text) (r : Checked) : Type 0 where
    pub reg : Json
    pub reg_eq : registry env platform ≡ ok reg
    pub build : Json
    pub build_eq : build_of reg r.measurement ≡ ok build
    pub listed : truthy build ≡ true
    pub base_url_eq : r.base_url ≡ rstrip b'/' url
    pub run : PinnedRun url r.measurement

  attempted-measurement :
      (base : Text) (meas : Json) (r : Result Channel) → (attempted base meas r).measurement ≡ meas
  unfolding attempted
  attempted-measurement base meas (ok ch) = refl
  attempted-measurement base meas (err e) = refl

  attempted-base_url :
      (base : Text) (meas : Json) (r : Result Channel) → (attempted base meas r).base_url ≡ base
  unfolding attempted
  attempted-base_url base meas (ok ch) = refl
  attempted-base_url base meas (err e) = refl

  -- An endpoint is reported as verified only if the registry has a build under the measurement that is
  -- reported, and a client for the address that was asked about, without the slashes at its end, which
  -- pins this very measurement, expects the audience `fidrouter` and allows no unverified quote,
  -- verified what that address answered to a fresh nonce.
  pub verify_endpoint_sound :
      (platform url : Text) (r : Checked)
      → verify_endpoint env platform url ≡ ok r
      → r.ok_flag ≡ true
      → EndpointVerified platform url r
  unfolding verify_endpoint
  verify_endpoint_sound platform url r h says =
      let (reg, er, h0) = >>=-eq-ok (registry env platform) _ h in
      let (att, ea, h1) = >>=-eq-ok (get_json env _) _ h0 in
      let (meas, em, h2) = >>=-eq-ok (get_or att (lit "measurement") (str [])) _ h1 in
      let (build, eb, h3) = >>=-eq-ok (build_of reg meas) _ h2 in
      let base = rstrip b'/' url in
      elim (if-cases (truthy build) _ _ (ok-injective _ r h3)) [
        | inl (listed, e) ↦
            let same_measurement : meas ≡ r.measurement =
              sym (attempted-measurement base meas (attested_with env base meas))
              ∙ ap (λ (t : Checked). t.measurement) e in
            record {
              reg = reg;
              reg_eq = er;
              build = build;
              build_eq = subst (λ m. build_of reg m ≡ ok build) same_measurement eb;
              listed = listed;
              base_url_eq =
                  sym (ap (λ (t : Checked). t.base_url) e) ∙ attempted-base_url base meas _;
              run = subst (PinnedRun url) same_measurement (
                  attempted-PinnedRun url meas (attested_with env base meas) refl
                    (ap (λ (t : Checked). t.ok_flag) e ∙ says));
            }
        | inr (_, e) ↦
            let no : ◌≡◌ {A = Bool} false true = ap (λ (t : Checked). t.ok_flag) e ∙ says in
            absurd (ground (arith, no))
      ]
