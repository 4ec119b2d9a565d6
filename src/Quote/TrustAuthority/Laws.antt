-- ===== src/Quote/TrustAuthority/Laws.antt =====
-- What a verified token proves, and when the key set is asked for.
use fidrouter.Base.{
  Text, Bytes, lit, true, false, Option, none, some, Result, ok, err, Error, invalid_signature,
  or_raise, refuse, refuse-eq-ok, >>=-eq-ok, ◌≡◌, refl, ap, sym, subst, ◌∙◌, arith, ◌⊎◌, inl, inr,
  same_iff, if◌then◌else◌, [], Bool-cases,
}
use fidrouter.Text.Base64.{b64url, b64_encode}
use fidrouter.Text.Hex.{hex}
use fidrouter.Json.{Json, null, str, get, get_or, as_text, is_text}
use fidrouter.Env.{Env, RsaKey}
use fidrouter.Exec.{Returns, bind-Returns, lift-Returns, pure-Returns}
use fidrouter.Jwt.{Parts, split_token, decode_part, select_key, signing_input, has_expired}
use fidrouter.Quote.Parse.{ParsedTdxQuote, parse_tdx_quote}
use fidrouter.Quote.Token.{
  TcbResult, TrustAuthority, get_nonce, attest, check_token, cross_check, pubkey_from_jwk,
  check_alg, signature_error, token_mrtd,
}
use fidrouter.Quote.TrustAuthority.{fetch_when_none, fetch_jwks, verify_token, verify}

-- A signature by one of the two algorithms that the header may name.
abbrev pub SignedBy : Env → Json → RsaKey → Bytes → Text → Type 0
SignedBy env alg key sig body =
    (is_text alg (lit "PS384") ≡ true) × (env.rsa_pss_sha384 key sig body ≡ ok tt)
    ⊎ (is_text alg (lit "RS256") ≡ true) × (env.rsa_pkcs1_sha256 key sig body ≡ ok tt)

-- A token that verified: its parts, the key that the key set has under its id, and a signature by
-- that key over its header and its payload; and its claims, not expired.
pub record Trusted (env : Env) (token : Text) (jwks claims : Json) : Type 0 where
  pub parts : Parts
  pub header : Json
  pub kid : Json
  pub alg : Json
  pub jwk : Json
  pub key : RsaKey
  pub sig : Bytes
  pub parts_eq : split_token token ≡ ok parts
  pub header_eq : decode_part env parts.header ≡ ok header
  pub claims_eq : decode_part env parts.payload ≡ ok claims
  pub kid_eq : get header (lit "kid") ≡ ok kid
  pub alg_eq : get header (lit "alg") ≡ ok alg
  pub found : select_key env.floats jwks kid ≡ ok (some jwk)
  pub key_eq : pubkey_from_jwk env jwk ≡ ok key
  pub sig_eq : b64url parts.signature ≡ ok sig
  pub signed : SignedBy env alg key sig (signing_input parts.header parts.payload)
  pub fresh : has_expired env claims ≡ ok false

pub or_raise-eq-ok :
    {A : Type 0} (o : Option A) (e : Error) {a : A} → or_raise o e ≡ ok a → o ≡ some a
or_raise-eq-ok none e h = cc
or_raise-eq-ok (some b) e h = cc

pub signature_error-eq-ok :
    (e : Error) (r : Result (Unit {0})) {u : Unit {0}} → signature_error e r ≡ ok u → r ≡ ok tt
signature_error-eq-ok e (ok u) h = refl
signature_error-eq-ok e (err invalid_signature) h = cc
signature_error-eq-ok e (err other) h = cc

module _ (env : Env) where
  check_alg-SignedBy :
      (alg : Json) (key : RsaKey) (sig : Bytes) (body : Text)
      → check_alg env alg key sig body ≡ ok tt
      → SignedBy env alg key sig body
  unfolding check_alg
  check_alg-SignedBy alg key sig body h = elim (Bool-cases (is_text alg (lit "PS384"))) [
    | inl ps ↦ inl (ps, rw ps at h)
    | inr other ↦ elim (Bool-cases (is_text alg (lit "RS256"))) [
      | inl rs ↦ inr (rs, rw rs at (rw other at h))
      | inr neither ↦ absurd (ground (arith))
    ]
  ]

  -- What `check_token` adds to the parts that were decoded before it.
  check_token-Trusted :
      (token : Text) (parts : Parts) (header kid alg claims jwks : Json) {claims' : Json}
      → split_token token ≡ ok parts
      → decode_part env parts.header ≡ ok header
      → decode_part env parts.payload ≡ ok claims
      → get header (lit "kid") ≡ ok kid
      → get header (lit "alg") ≡ ok alg
      → check_token env parts kid alg claims jwks ≡ ok claims'
      → Trusted env token jwks claims × (claims ≡ claims')
  unfolding check_token
  check_token-Trusted token parts header kid alg claims jwks ep eh ec ek ea h =
      let (found, e0, h0) = >>=-eq-ok (select_key env.floats jwks kid) _ h in
      let (jwk, e1, h1) = >>=-eq-ok (or_raise found _) _ h0 in
      let (key, e2, h2) = >>=-eq-ok (pubkey_from_jwk env jwk) _ h1 in
      let (sig, e3, h3) = >>=-eq-ok (b64url parts.signature) _ h2 in
      let body = signing_input parts.header parts.payload in
      let (_, e4, h4) = >>=-eq-ok (signature_error _ (check_alg env alg key sig body)) _ h3 in
      let (late, e5, h5) = >>=-eq-ok (has_expired env claims) _ h4 in
      let (_, e6, h6) = >>=-eq-ok (refuse late _) _ h5 in
      let t : Trusted env token jwks claims = record {
        parts = parts;
        header = header;
        kid = kid;
        alg = alg;
        jwk = jwk;
        key = key;
        sig = sig;
        parts_eq = ep;
        header_eq = eh;
        claims_eq = ec;
        kid_eq = ek;
        alg_eq = ea;
        found = e0 ∙ ap ok (or_raise-eq-ok found _ e1);
        key_eq = e2;
        sig_eq = e3;
        signed = check_alg-SignedBy alg key sig body (signature_error-eq-ok _ _ e4);
        fresh = e5 ∙ ap ok (refuse-eq-ok late _ e6);
      } in
      (t, cc)

  -- The key set of a run: the one in the object, or the service's answer, which the object keeps.
  fetch_when_none-Returns :
      (url : Text) (o : Option Json) (ita ita' : TrustAuthority) (jwks : Json)
      → ita.jwks ≡ o
      → Returns (fetch_when_none env url o) ita jwks ita'
      → ita'.jwks ≡ some jwks
  unfolding fetch_when_none
  fetch_when_none-Returns url (some j) ita ita' jwks e h = ground arith
  fetch_when_none-Returns url none ita ita' jwks e h =
      let (j, _, h') = lift-Returns (env.fetch _) _ ita h in ground arith

  pub fetch_jwks-Returns :
      (ita ita' : TrustAuthority) (jwks : Json)
      → Returns (fetch_jwks env) ita jwks ita'
      → ita'.jwks ≡ some jwks
  unfolding fetch_jwks
  fetch_jwks-Returns ita ita' jwks =
      fetch_when_none-Returns ita.portal_url ita.jwks ita ita' jwks refl

  -- A call of `verify_token` that returns claims has checked them against the key set that the
  -- object holds afterwards.
  pub verify_token-Trusted :
      (token : Text) (ita ita' : TrustAuthority) (claims : Json)
      → Returns (verify_token env token) ita claims ita'
      → (jwks : Json) × (ita'.jwks ≡ some jwks) × Trusted env token jwks claims
  unfolding verify_token
  verify_token-Trusted token ita ita' claims h =
      let (parts, ep, h0) = lift-Returns (split_token token) _ ita h in
      let (header, eh, h1) = lift-Returns (decode_part env parts.header) _ ita h0 in
      let (body, ec, h2) = lift-Returns (decode_part env parts.payload) _ ita h1 in
      let (kid, ek, h3) = lift-Returns (get header (lit "kid")) _ ita h2 in
      let (alg, ea, h4) = lift-Returns (get header (lit "alg")) _ ita h3 in
      let (jwks, s, ej, h5) = bind-Returns (fetch_jwks env) _ ita h4 in
      let (t, same_claims) =
        check_token-Trusted token parts header kid alg body jwks ep eh ec ek ea
          (ap (λ p. p.0) h5) in
      let state : s ≡ ita' = ap (λ p. p.1) h5 in
      (
        jwks,
        subst (λ u. u.jwks ≡ some jwks) state (fetch_jwks-Returns ita s jwks ej),
        subst (Trusted env token jwks) same_claims t,
      )

  -- The quote's own measurement, where the token names one.
  abbrev Describes : Json → ParsedTdxQuote → Type 0
  Describes claims q = (m : Text) × (token_mrtd claims ≡ ok m) × ((m ≡ []) ⊎ (m ≡ hex q.mrtd_bytes))

  cross_check-Describes :
      (claims : Json) (q : ParsedTdxQuote)
      → cross_check claims (hex q.mrtd_bytes) ≡ ok tt
      → Describes claims q
  unfolding cross_check
  cross_check-Describes claims q h =
      let (m, em, h') = >>=-eq-ok (token_mrtd claims) _ h in
      (m, em, ground (arith, same_iff m [], same_iff m (hex q.mrtd_bytes)))

  -- What stands behind a result of the backend.
  pub record Attested (raw : Bytes) (ita' : TrustAuthority) (r : TcbResult) : Type 0 where
    pub is_verified : r.verified ≡ true
    pub quote : ParsedTdxQuote
    pub quote_eq : parse_tdx_quote raw ≡ ok quote
    pub token : Text
    pub jwks : Json
    pub jwks_eq : ita'.jwks ≡ some jwks
    pub trusted : Trusted env token jwks r.claims
    pub describes : Describes r.claims quote

  -- A backend that returns a result marks it as verified, and has checked a token for it: the
  -- quote parses; the token's key is in the key set, its signature holds, it has not expired, and
  -- it names either no measurement or the measurement of the very quote that was given.
  pub verify_sound :
      (raw : Bytes) (ita ita' : TrustAuthority) (r : TcbResult)
      → Returns (verify env raw) ita r ita'
      → Attested raw ita' r
  unfolding verify
  verify_sound raw ita ita' r h =
      let (nonce, _, h0) =
        lift-Returns (if ita.use_nonce then get_nonce env ita else ok null) _ ita h in
      let (answer, _, h1) = lift-Returns (attest env ita (b64_encode raw) nonce) _ ita h0 in
      let (token, _, h2) = lift-Returns (as_text answer) _ ita h1 in
      let (claims, s, ev, h3) = bind-Returns (verify_token env token) _ ita h2 in
      let (q, eq, h4) = lift-Returns (parse_tdx_quote raw) _ s h3 in
      let (_, ec, h5) = lift-Returns (cross_check claims (hex q.mrtd_bytes)) _ s h4 in
      let (tcb, _, h6) =
        lift-Returns (get_or claims (lit "attester_tcb_status") (str (lit "unknown"))) _ s h5 in
      let (jwks, ej, t) = verify_token-Trusted token ita s claims ev in
      let (er, state) = pure-Returns _ r s ita' h6 in
      let same_claims : claims ≡ r.claims = ap (λ t. t.claims) er in
      record {
        is_verified = sym (ap (λ t. t.verified) er);
        quote = q;
        quote_eq = eq;
        token = token;
        jwks = jwks;
        jwks_eq = subst (λ u. u.jwks ≡ some jwks) state ej;
        trusted = subst (Trusted env token jwks) same_claims t;
        describes = subst (λ c. Describes c q) same_claims (cross_check-Describes claims q ec);
      }
