-- ===== src/Client/Attest.antt =====
-- `_attest_and_verify`: ask for an attestation over a fresh nonce, and verify it as its platform says.
pub mod Keeps
pub mod Laws
use fidrouter.Base.{
  Text, lit, Bool, true, false, ◌&&◌, List, [], ◌∷◌, ◌++◌, ◌==◌, same, if◌then◌else◌,
}
use fidrouter.Text.Hex.{hex}
use fidrouter.Text.Strip.{starts_with}
use fidrouter.Json.{Json, item, as_text, is_text}
use fidrouter.Env.{Env}
use fidrouter.Exec.{Exec, lift, gets, ◌>>=◌}
use fidrouter.Client.State.{FidClient, Channel, http_get}
use fidrouter.Client.Mock.{verify_mock}
use fidrouter.Client.Confidential.{verify_cs}
use fidrouter.Client.Tdx.{verify_tdx}

abbrev mock_step : Env → Json → Text → Exec FidClient Channel
mock_step env qj nonce_hex c = (verify_mock env c qj nonce_hex, c)

unfoldable pub dispatch : Env → Text → Json → Text → Exec FidClient Channel
dispatch env plat qj nonce_hex =
    if same plat (lit "gcp-cs")
    then verify_cs env qj nonce_hex
    else if starts_with plat (lit "mock")
    then mock_step env qj nonce_hex
    else verify_tdx env qj nonce_hex

unfoldable pub attest_and_verify : Env → Exec FidClient Channel
unfolding dispatch
attest_and_verify env = do
  let nonce_hex = hex env.token_bytes
  base_url ← gets (λ c. c.base_url)
  qj ← http_get env (base_url ++ (lit "/attestation?nonce=" ++ nonce_hex))
  platform ← lift (item qj (lit "platform"))
  plat ← lift (as_text platform)
  dispatch env plat qj nonce_hex
