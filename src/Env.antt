-- ===== src/Env.antt =====
-- What the SDK calls and the repository does not hold: the `cryptography` package, the digests of
-- the interpreter, the clock, the source of random bytes and the network.
use fidrouter.Base.{ℕ, Text, Bytes, Result, Option, List}
use fidrouter.Json.{Json, Floats}

-- An RSA public key: modulus and exponent.
pub record RsaKey : Type 0 where
  pub modulus : ℕ
  pub exponent : ℕ

-- `urllib.request.Request`: a body makes it a POST.
pub record Request : Type 0 where
  pub url : Text
  pub headers : List (Text × Text)
  pub body : Option Json

pub record Env : Type 0 where
  -- `hashlib.sha256(b).digest()`
  pub sha256 : Bytes → Bytes
  -- `Ed25519PublicKey.from_public_bytes(key).verify(sig, body)`: `invalid_signature`, or
  -- `value_error` for bytes that are no key
  pub ed25519_verify : Bytes → Bytes → Bytes → Result (Unit {0})
  -- `pub.verify` with PSS over SHA-384 and with PKCS#1 v1.5 over SHA-256: key, signature, body
  pub rsa_pss_sha384 : RsaKey → Bytes → Bytes → Result (Unit {0})
  pub rsa_pkcs1_sha256 : RsaKey → Bytes → Bytes → Result (Unit {0})
  -- the key of a DER certificate
  pub certificate_key : Bytes → Result RsaKey
  -- a fresh private key, its public half and the exchange
  pub x25519_private : Bytes
  pub x25519_public : Bytes → Bytes
  pub x25519_exchange : Bytes → Bytes → Result Bytes
  -- `AESGCM(key).encrypt(nonce, text, aad)` and `decrypt`
  pub aes_encrypt : Bytes → Bytes → Bytes → Bytes → Result Bytes
  pub aes_decrypt : Bytes → Bytes → Bytes → Bytes → Result Bytes
  -- `secrets.token_bytes(16)` and `os.urandom(12)`
  pub token_bytes : Bytes
  pub aes_nonce : Bytes
  -- `time.time()`, and the arithmetic of floats
  pub now : ℕ
  pub floats : Floats
  -- `json.loads(urlopen(request).read())`, which raises for a status past 399
  pub fetch : Request → Result Json
  -- a POST that answers with a status, also one past 399, and a body
  pub post : Text → Json → Result (ℕ × Bytes)
  -- the key of the certificate that the server presents over TLS; `none` for a plain URL
  pub peer_spki : Text → Result (Option Bytes)
