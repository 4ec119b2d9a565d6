-- ===== src/Client/Tdx.antt =====
-- `_verify_tdx`: a raw TDX quote, whose report data binds the nonce and both keys.
pub mod Laws
use fidrouter.Base.{
  Text, Bytes, lit, Bool, Option, none, some, [], ◌∷◌, ◌++◌, Result, ok, err, Error, dcap,
  verification, guard, same, if◌then◌else◌,
}
use fidrouter.Json.{Json, item}
use fidrouter.Env.{Env}
use fidrouter.Exec.{Exec, pure, lift, gets, ◌>>=◌, ◌>>◌}
use fidrouter.Quote.Policy.{Backend, stub, qvl, VerifiedQuote, verify_tdx_quote}
use fidrouter.Client.State.{FidClient, Channel}
use fidrouter.Client.Binding.{bytes_item, tls_binding}

-- `self.dcap_backend or (QvlBackend(url) if url else StubBackend())`
abbrev pub chosen_backend : FidClient → Backend
chosen_backend c = elim c.dcap_backend [
  | some b ↦ b
  | none ↦ if same c.pccs_url [] then stub else qvl c.pccs_url
]

-- `except DcapError as e: raise FidVerificationError(…)`
abbrev pub dcap_error : Result VerifiedQuote → Result VerifiedQuote
dcap_error (ok v) = ok v
dcap_error (err (dcap m)) = err (verification (lit "TDX quote verification failed: " ++ m))
dcap_error (err e) = err e

-- The client's own backend keeps what it learnt; one made for the call is dropped.
unfoldable pub keep_backend : FidClient → Backend → FidClient
keep_backend c b = elim c.dcap_backend [ some _ ↦ record c { dcap_backend = some b } | none ↦ c ]

unfoldable pub run_policy : Env → Bytes → Bytes → Exec FidClient VerifiedQuote
unfolding keep_backend
run_policy env raw expected_rd c =
    let (r, b) =
      verify_tdx_quote env raw c.pin_measurement (some expected_rd) c.dcap_allow_unverified
        (chosen_backend c) in
    (dcap_error r, keep_backend c b)

unfoldable pub verify_tdx : Env → Json → Text → Exec FidClient Channel
verify_tdx env qj nonce_hex = do
  c ← gets (λ c. c)
  raw ← lift (bytes_item qj (lit "raw_quote"))
  eph ← lift (bytes_item qj (lit "ephemeral_pub"))
  idpub ← lift (bytes_item qj (lit "identity_pub"))
  nonce_echo ← lift (bytes_item qj (lit "nonce"))
  lift (
      guard (same nonce_echo nonce_hex)
        (verification (lit "enclave did not echo our nonce (possible replay)")))
  tls ← lift (tls_binding env c.base_url qj)
  _ ← run_policy env raw (env.sha256 (nonce_echo ++ (eph ++ (idpub ++ tls))))
  session ← lift (item qj (lit "session"))
  pure (record { session = session; ephemeral_pub = eph; identity_pub = idpub })
