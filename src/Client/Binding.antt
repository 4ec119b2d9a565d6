-- ===== src/Client/Binding.antt =====
-- `_tls_binding`, and the reading of the base64 members of an attestation.
pub mod Laws
use fidrouter.Base.{
  Text, Bytes, lit, Bool, true, false, not, Option, none, some, List, [], ◌∷◌, Result, ok, err,
  verification, refuse, ◌>>=◌, ◌>>◌, if◌then◌else◌, same,
}
use fidrouter.Text.Base64.{b64_decode}
use fidrouter.Json.{Json, get, item, as_text, truthy}
use fidrouter.Env.{Env}

-- `_b64d(qj[k])`
unfoldable pub bytes_item : Json → Text → Result Bytes
bytes_item qj k = do v ← item qj k; s ← as_text v; b64_decode s

-- `peer is not None and peer != spki`
abbrev pub differs : Option Bytes → Bytes → Bool
differs none spki = false
differs (some peer) spki = not (same peer spki)

-- The key is bound only if the server's certificate agrees with it.
unfoldable pub bind_key : Env → Text → Text → Result Bytes
bind_key env base_url tp = do
  spki ← b64_decode tp
  peer ← env.peer_spki base_url
  refuse (differs peer spki) (
      verification
        (lit "RA-TLS: server TLS cert does not match the attested TLS key (possible MITM)"))
  ok spki

unfoldable pub tls_binding : Env → Text → Json → Result Bytes
unfolding bind_key
tls_binding env base_url qj = do
  tp ← get qj (lit "tls_pub")
  if truthy tp then (do s ← as_text tp; bind_key env base_url s) else ok []
