-- ===== src/Client/Mock.antt =====
-- `_attest_and_verify` for a development enclave, whose quote is signed by its identity key.
pub mod Laws
use fidrouter.Base.{
  Text, Bytes, lit, Bool, true, false, not, ◌&&◌, List, [], ◌∷◌, ◌++◌, Result, ok, err,
  verification, refuse, guard, ◌>>=◌, ◌>>◌, same,
}
use fidrouter.Text.Hex.{hex}
use fidrouter.Text.Utf8.{encode}
use fidrouter.Json.{Json, item, as_text, is_text}
use fidrouter.Env.{Env}
use fidrouter.Quote.Token.{signature_error}
use fidrouter.Client.State.{FidClient, Channel}
use fidrouter.Client.Binding.{bytes_item, tls_binding}

-- The quote `q`
pub record MockQuote : Type 0 where
  pub platform : Json
  pub measurement : Json
  pub session : Json
  pub report_data : Json
  pub nonce : Bytes
  pub ephemeral_pub : Bytes
  pub identity_pub : Bytes
  pub sig : Bytes

unfoldable pub read_mock : Json → Result MockQuote
read_mock qj = do
  platform ← item qj (lit "platform")
  measurement ← item qj (lit "measurement")
  session ← item qj (lit "session")
  report_data ← item qj (lit "report_data")
  nonce ← bytes_item qj (lit "nonce")
  ephemeral_pub ← bytes_item qj (lit "ephemeral_pub")
  identity_pub ← bytes_item qj (lit "identity_pub")
  sig ← bytes_item qj (lit "sig")
  ok (record {
    platform = platform;
    measurement = measurement;
    session = session;
    report_data = report_data;
    nonce = nonce;
    ephemeral_pub = ephemeral_pub;
    identity_pub = identity_pub;
    sig = sig;
  })

-- `(q["measurement"] + q["report_data"]).encode() + q["ephemeral_pub"]`
unfoldable pub signed_body : MockQuote → Result Bytes
signed_body q = do
  m ← as_text q.measurement
  r ← as_text q.report_data
  head ← encode (m ++ r)
  ok (head ++ q.ephemeral_pub)

-- An ASCII text is its own encoding: `nonce_hex.encode()`.
unfoldable pub verify_mock : Env → FidClient → Json → Text → Result Channel
unfolding read_mock signed_body
verify_mock env c qj nonce_hex = do
  q ← read_mock qj
  refuse (not (same c.pin_measurement []) && not (is_text q.measurement c.pin_measurement))
      (verification (lit "measurement mismatch\n  got:    "))
  refuse (not (same c.pin_idpub []) && not (same q.identity_pub c.pin_idpub))
      (verification (lit "identity pubkey mismatch (not the enclave we trust)"))
  body ← signed_body q
  signature_error (verification (lit "quote signature invalid"))
      (env.ed25519_verify q.identity_pub q.sig body)
  guard (same q.nonce nonce_hex)
      (verification (lit "enclave did not echo our nonce (possible replay)"))
  tls ← tls_binding env c.base_url qj
  guard (is_text q.report_data (hex (env.sha256 (q.nonce ++ (q.ephemeral_pub ++ tls)))))
      (verification (lit "report_data not bound to nonce+key (possible replay)"))
  ok (record {
    session = q.session;
    ephemeral_pub = q.ephemeral_pub;
    identity_pub = q.identity_pub;
  })
