-- ===== src/Tests/Texts.antt =====
-- Encodings, and receipts under a key that has signed one.
use fidrouter.Base.{
  Bytes, lit, true, false, All, [], ◌∷◌, ◌++◌, ok, err, invalid_signature, same, same_iff,
  if◌then◌else◌, pos, ◌||◌, ◌⊎◌, length, replicate, Bool-cases, inl, inr, ◌≡◌, refl, ap, sym, ◌∙◌,
  ◌↔◌, arith,
}
use fidrouter.Text.Hex.{hex, from_hex, from_hex-hex}
use fidrouter.Text.Utf8.{encode}
use fidrouter.Text.Utf8.Laws.{encode-injective}
use fidrouter.Text.Base64.{b64u, b64url, b64_decode}
use fidrouter.Text.Base64.Laws.{b64url-b64u}
use fidrouter.Text.Decimal.{show_int}
use fidrouter.Json.Loads.{loads}
use fidrouter.Json.{item, as_text, truthy}
use fidrouter.Json.Numbers.{to_int}
use fidrouter.Env.{Env}
use fidrouter.Receipt.Escape.{jstr, go_jstr}
use fidrouter.Receipt.Escape.Laws.{IsPlain, jstr-eq-go_jstr}
use fidrouter.Receipt.Canonical.{Receipt, receipt_text, read_receipt, canonical_receipt}
use fidrouter.Receipt.Canonical.Laws.{receipt_text-injective, receipt_text-go}
use fidrouter.Receipt.Verify.{ReceiptVerdict, parse_signed, check_signature, verify_receipt}
use fidrouter.Receipt.Verify.Laws.{NoReceipt, verify_receipt_authentic}
use fidrouter.Tests.Toy.{signed_base64, env, mock, floats, receipt}

from_hex-hex_example : from_hex (hex (0 ∷ 171 ∷ 255 ∷ [])) ≡ ok (0 ∷ 171 ∷ 255 ∷ [])
from_hex-hex_example =
    from_hex-hex (0 ∷ 171 ∷ 255 ∷ []) (omega arith, (omega arith, (omega arith, tt)))

b64url-b64u_example : b64url (b64u (0 ∷ 251 ∷ 255 ∷ 7 ∷ [])) ≡ ok (0 ∷ 251 ∷ 255 ∷ 7 ∷ [])
b64url-b64u_example =
    b64url-b64u (0 ∷ 251 ∷ 255 ∷ 7 ∷ [])
      (omega arith, (omega arith, (omega arith, (omega arith, tt))))

encode-injective_example : lit "é" ≡ lit "é"
unfolding encode
encode-injective_example = encode-injective (lit "é") (lit "é") refl refl

jstr-eq-go_jstr_example : (jstr (lit "a<\n") ≡ go_jstr (lit "a<\n")) ↔ All IsPlain (lit "a<\n")
jstr-eq-go_jstr_example = jstr-eq-go_jstr (lit "a<\n")

abbrev issued : Receipt
issued = record {
  ts_unix = pos 7;
  tenant = lit "t";
  model = lit "m1";
  account = lit "a";
  req_hash = lit "x";
  resp_hash = lit "y";
  prompt_tokens = pos 2;
  completion_tokens = pos 3;
  cache_hit = false;
  measurement = lit "m";
}

receipt_text-injective_example : issued ≡ issued
receipt_text-injective_example = receipt_text-injective issued issued refl

receipt_text-go_example : issued ≡ issued
unfolding receipt_text jstr go_jstr
receipt_text-go_example = receipt_text-go issued issued refl

abbrev body : Bytes
body =
    lit "{\"ts_unix\":7,\"tenant\":\"t\",\"model\":\"m1\",\"account\":\"a\",\"req_hash\":\"x\","
    ++ lit
        "\"resp_hash\":\"y\",\"prompt_tokens\":2,\"completion_tokens\":3,\"cache_hit\":false,\"measurement\":\"m\"}"

-- A key that has signed that one receipt, and a key of 32 bytes.
abbrev sealing_key : Bytes
sealing_key = replicate 32 7

abbrev one_receipt : Env
one_receipt = record (env mock) {
  ed25519_verify =
      λ key sig b. if same b body || same b sealing_key then ok tt else err invalid_signature;
}

abbrev Issued : Receipt → Type 0
Issued r = r ≡ issued

encoded : encode (receipt_text go_jstr issued) ≡ ok body
unfolding encode receipt_text go_jstr show_int
encoded = refl

signed_only :
    (b : Bytes)
    → one_receipt.ed25519_verify [] [] b ≡ ok tt
    → ((r : Receipt) × Issued r × (encode (receipt_text go_jstr r) ≡ ok b))
      ⊎ NoReceipt one_receipt b
signed_only b h = elim (Bool-cases (same b body)) [
  | inl e ↦ inl (issued, refl, encoded ∙ ap ok (sym ((same_iff b body).0 e)))
  | inr e ↦ elim (Bool-cases (same b sealing_key)) [
    | inl k ↦ inr (inl (ap length ((same_iff b sealing_key).0 k)))
    | inr k ↦ absurd (cc (rw (e, k) at h))
  ]
]

abbrev verdict : ReceiptVerdict
verdict = record {
  ok_flag = true;
  reason = lit "signature valid — this receipt was signed by the registered enclave key";
  receipt = receipt;
  signature_ok = true;
}

verify_receipt_authentic_example : (r : Receipt) × (read_receipt floats receipt ≡ ok r) × Issued r
unfolding verify_receipt parse_signed b64_decode item as_text check_signature from_hex
    canonical_receipt same to_int truthy encode jstr show_int loads
verify_receipt_authentic_example =
    verify_receipt_authentic one_receipt (b'0' ∷ b'2' ∷ []) Issued
      (λ key sig b _ h. signed_only b h) signed_base64 verdict refl refl
