-- ===== src/Receipt/Verify.antt =====
-- `verify_receipt`: the public check of a receipt under the registered key of an enclave.
pub mod Laws
use fidrouter.Base.{
  Text, Bytes, lit, Bool, true, false, Result, ok, err, Error, invalid_signature, ◌>>=◌, ◌>>◌,
  if◌then◌else◌,
}
use fidrouter.Text.Base64.{b64_decode}
use fidrouter.Text.Hex.{from_hex}
use fidrouter.Json.{Json, obj, end, item, as_text}
use fidrouter.Json.Loads.{loads}
use fidrouter.Env.{Env}
use fidrouter.Receipt.Canonical.{canonical_receipt}

pub record ReceiptVerdict : Type 0 where
  pub ok_flag : Bool
  pub reason : Text
  pub receipt : Json
  pub signature_ok : Bool

-- `json.loads(base64.b64decode(receipt_b64))` with its receipt and its signature
unfoldable pub parse_signed : Env → Text → Result (Json × Bytes)
unfolding b64_decode
parse_signed env receipt_b64 = do
  bytes ← b64_decode receipt_b64
  signed ← loads env.floats bytes
  rec ← item signed (lit "receipt")
  sig_b64 ← (do v ← item signed (lit "sig"); as_text v)
  sig ← b64_decode sig_b64
  ok (rec, sig)

-- `except InvalidSignature`: any other exception goes on.
abbrev pub signature_holds : Result (Unit {0}) → Result Bool
signature_holds (ok u) = ok true
signature_holds (err invalid_signature) = ok false
signature_holds (err e) = err e

unfoldable pub check_signature : Env → Bytes → Text → Json → Result Bool
check_signature env sig idpub_hex rec = signature_holds (do
  key ← from_hex idpub_hex
  body ← canonical_receipt env.floats rec
  env.ed25519_verify key sig body)

abbrev verdict_reason : Bool → Text
verdict_reason true = lit "signature valid — this receipt was signed by the registered enclave key"
verdict_reason false =
    lit "signature invalid — not signed by the registered enclave key (forged/tampered)"

-- The reason of a malformed receipt is given without the text of its exception.
judge : Env → Text → Result (Json × Bytes) → Result ReceiptVerdict
judge env idpub_hex (err e) = ok (record {
  ok_flag = false;
  reason = lit "malformed receipt: ";
  receipt = obj end;
  signature_ok = false;
})
judge env idpub_hex (ok (rec, sig)) = do
  sig_ok ← check_signature env sig idpub_hex rec
  ok (record {
    ok_flag = sig_ok;
    reason = verdict_reason sig_ok;
    receipt = rec;
    signature_ok = sig_ok;
  })

unfoldable pub verify_receipt : Env → Text → Text → Result ReceiptVerdict
unfolding judge
verify_receipt env receipt_b64 idpub_hex = judge env idpub_hex (parse_signed env receipt_b64)
