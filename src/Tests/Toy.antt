-- ===== src/Tests/Toy.antt =====
-- A development enclave, a Confidential Space machine and a TDX machine that answer alike, and an
-- environment whose cryptography accepts everything.
use fidrouter.Base.{
  Text, Bytes, lit, true, false, none, some, [], ◌∷◌, ◌++◌, ok, length, replicate, pos, true,
}
use fidrouter.Json.{Json, bool, num, str, arr, obj, nil, cons, end, field, Floats}
use fidrouter.Env.{Env}
use fidrouter.Quote.Policy.{Backend, custom, VerifiedQuote}
use fidrouter.Quote.Token.{TcbResult}
use fidrouter.Client.State.{FidClient, Channel}

abbrev pub floats : Floats
floats = record {
  truncate = λ w. ok (pos w);
  of_int = λ i. ok 0;
  of_text = λ s. ok 0;
  to_text = λ w. [];
  times = λ a b. a;
  over = λ a b. ok a;
  plus = λ a b. a;
  minus = λ a b. a;
  less = λ a b. false;
  int_less = λ i b. false;
  less_int = λ a i. true;
  equals_int = λ a i. false;
  is_number = λ a. true;
  container_text = λ j. [];
}

abbrev pub receipt : Json
receipt = obj (
    field (lit "ts_unix") (num (pos 7)) (
      field (lit "tenant") (str (lit "t")) (
        field (lit "model") (str (lit "m1")) (
          field (lit "account") (str (lit "a")) (
            field (lit "req_hash") (str (lit "x")) (
              field (lit "resp_hash") (str (lit "y")) (
                field (lit "prompt_tokens") (num (pos 2)) (
                  field (lit "completion_tokens") (num (pos 3)) (
                    field (lit "cache_hit") (bool false)
                      (field (lit "measurement") (str (lit "m")) end))))))))))

-- A receipt with its signature, the answer that carries it and the plain text sealed in it.
abbrev pub signed_base64 : Text
signed_base64 =
    lit "eyJyZWNlaXB0IjogeyJ0c191bml4IjogNywgInRlbmFudCI6ICJ0IiwgIm1vZGVsIjogIm"
    ++ (lit "0xIiwgImFjY291bnQiOiAiYSIsICJyZXFfaGFzaCI6ICJ4IiwgInJlc3BfaGFzaCI6ICJ5"
        ++ (lit "IiwgInByb21wdF90b2tlbnMiOiAyLCAiY29tcGxldGlvbl90b2tlbnMiOiAzLCAiY2FjaG"
            ++ (lit "VfaGl0IjogZmFsc2UsICJtZWFzdXJlbWVudCI6ICJtIn0sICJzaWciOiAiQXc9PSJ9")))

abbrev pub plain_text : Bytes
plain_text =
    lit "{\"completion\": \"hi\", \"cache_hit\": false, \"prompt_tokens\": 2, \"completi"
    ++ (lit "on_tokens\": 3}")

-- Twelve zeros and the plain text
abbrev pub sealed_base64 : Text
sealed_base64 =
    lit "AAAAAAAAAAAAAAAAeyJjb21wbGV0aW9uIjogImhpIiwgImNhY2hlX2hpdCI6IGZhbHNlLC"
    ++ (lit "AicHJvbXB0X3Rva2VucyI6IDIsICJjb21wbGV0aW9uX3Rva2VucyI6IDN9")

abbrev pub answer_text : Bytes
answer_text =
    lit "{\"receipt\": {\"receipt\": {\"ts_unix\": 7, \"tenant\": \"t\", \"model\": \"m1\", \""
    ++ (lit "account\": \"a\", \"req_hash\": \"x\", \"resp_hash\": \"y\", \"prompt_tokens\": 2, "
        ++ (lit "\"completion_tokens\": 3, \"cache_hit\": false, \"measurement\": \"m\"}, \"sig\""
            ++ (lit ": \"Aw==\"}, \"sealed_resp\": \"AAAAAAAAAAAAAAAAeyJjb21wbGV0aW9uIjogImhpIiw"
                ++ (lit "gImNhY2hlX2hpdCI6IGZhbHNlLCAicHJvbXB0X3Rva2VucyI6IDIsICJjb21wbGV0aW9uX"
                    ++ (lit
                        "3Rva2VucyI6IDN9\", \"route\": {\"account\": \"a\", \"affinity\": \"f\"}}")))))

abbrev pub jwks : Json
jwks = obj (
    field (lit "keys")
      (arr (
        cons
          (obj (
            field (lit "kid") (str (lit "1"))
              (field (lit "n") (str (lit "Aw")) (field (lit "e") (str (lit "Aw")) end))))
          nil))
      end)

-- The environment of an enclave that attests with the given document.
abbrev pub env : Json → Env
env attestation = record {
  sha256 = λ b. length b ∷ [];
  ed25519_verify = λ key sig body. ok tt;
  rsa_pss_sha384 = λ key sig body. ok tt;
  rsa_pkcs1_sha256 = λ key sig body. ok tt;
  certificate_key = λ der. ok (record { modulus = 3; exponent = 3 });
  x25519_private = 5 ∷ [];
  x25519_public = λ k. k;
  x25519_exchange = λ k p. ok (k ++ p);
  aes_encrypt = λ k n t a. ok t;
  aes_decrypt = λ k n t a. ok t;
  token_bytes = 9 ∷ [];
  aes_nonce = replicate 12 0;
  now = 0;
  floats = floats;
  fetch = λ r. ok attestation;
  post = λ url body. ok (200, answer_text);
  peer_spki = λ url. ok none;
}

abbrev pub mock : Json
mock = obj (
    field (lit "platform") (str (lit "mock")) (
      field (lit "measurement") (str (lit "m")) (
        field (lit "session") (str (lit "s")) (
          field (lit "report_data") (str (b'0' ∷ b'3' ∷ [])) (
            field (lit "nonce") (str (lit "MDk=")) (
              field (lit "ephemeral_pub") (str (lit "AQ==")) (
                field (lit "identity_pub") (str (lit "Ag=="))
                  (field (lit "sig") (str (lit "Aw==")) end))))))))

-- An attestation that carries a token or a quote.
abbrev pub with_quote : Text → Text → Json
with_quote platform raw = obj (
    field (lit "platform") (str platform) (
      field (lit "raw_quote") (str raw) (
        field (lit "session") (str (lit "s")) (
          field (lit "nonce") (str (lit "MDk=")) (
            field (lit "ephemeral_pub") (str (lit "AQ=="))
              (field (lit "identity_pub") (str (lit "Ag==")) end))))))

abbrev pub token_text : Text
token_text =
    lit "ZXlKaGJHY2lPaUpTVXpJMU5pSXNJbXRwWkNJNklqRWlmUS5leUpwYzNNaU9pSm9kSFJ3Y3pvdkwyTnZi"
    ++ (lit "bVpwWkdWdWRHbGhiR052YlhCMWRHbHVaeTVuYjI5bmJHVmhjR2x6TG1OdmJTSXNJbUYxWkNJNkltRjFa"
        ++ (lit "Q0lzSW1WaGRGOXViMjVqWlNJNld5SXdOQ0pkTENKemQyNWhiV1VpT2lKRFQwNUdTVVJGVGxSSlFVeGZV"
            ++ (lit
                  "MUJCUTBVaUxDSnpkV0p0YjJSeklqcDdJbU52Ym5SaGFXNWxjaUk2ZXlKcGJXRm5aVjlrYVdkbGMzUWlP"
                ++ (lit "aUp0SW4xOWZRLkF3"))))

abbrev pub confidential : Json
confidential = with_quote (lit "gcp-cs") token_text

-- A quote of zeros, but for its type and the first byte of its report data.
abbrev pub quote : Bytes
quote = replicate 4 0 ++ 0x81 ∷ (replicate 563 0 ++ 4 ∷ replicate 67 0)

abbrev pub quote_text : Text
quote_text = lit "AAAAAIEA" ++ (replicate 748 b'A' ++ (lit "AAQA" ++ replicate 88 b'A'))

abbrev pub tdx : Json
tdx = with_quote (lit "tdx") quote_text

abbrev pub tcb : TcbResult
tcb = record { verified = true; tcb_status = str (lit "UpToDate"); detail = []; claims = obj end }

abbrev pub backend : Backend
backend = custom (λ raw. ok tcb)

abbrev pub client : FidClient
client = record {
  base_url = lit "u";
  token = lit "k";
  pin_measurement = lit "m";
  pin_idpub = 2 ∷ [];
  pccs_url = [];
  dcap_backend = some backend;
  dcap_allow_unverified = false;
  cs_audience = lit "aud";
  cs_jwks = some jwks;
  log = [];
}

-- The channel that all three machines attest.
abbrev pub channel : Channel
channel = record { session = str (lit "s"); ephemeral_pub = 1 ∷ []; identity_pub = 2 ∷ [] }

abbrev pub tdx_client : FidClient
tdx_client = record client { pin_measurement = replicate 96 b'0' }

abbrev pub verified : VerifiedQuote
verified = record {
  measurement = replicate 96 b'0';
  report_data = 4 ∷ replicate 63 0;
  rtmr = replicate 4 (replicate 48 0);
  tcb_status = str (lit "UpToDate");
  backend_verified = true;
}
