-- ===== src/Receipt/Verify/Laws.antt =====
-- What an accepted receipt proves.
use fidrouter.Base.{
  Text, Bytes, lit, true, false, length, ◌⊎◌, inl, inr, arith, Result, ok, err, invalid_signature,
  >>=-eq-ok, ◌≡◌, refl, ap, ◌∙◌, subst,
}
use fidrouter.Text.Hex.{from_hex}
use fidrouter.Text.Utf8.{encode}
use fidrouter.Json.{Json}
use fidrouter.Env.{Env}
use fidrouter.Receipt.Escape.{jstr, go_jstr}
use fidrouter.Receipt.Canonical.{Receipt, receipt_text, read_receipt, canonical_receipt}
use fidrouter.Text.Strip.{starts_with}
use fidrouter.Receipt.Canonical.Forms.{receipt_text-starts, receipt_text-long}
use fidrouter.Receipt.Canonical.Laws.{encoded_receipts-eq}
use fidrouter.Receipt.Verify.{
  ReceiptVerdict, parse_signed, signature_holds, check_signature, judge, verify_receipt,
}

signature_holds-true : (m : Result (Unit {0})) → signature_holds m ≡ ok true → m ≡ ok tt
signature_holds-true (ok u) h = refl
signature_holds-true (err invalid_signature) h = cc
signature_holds-true (err e) h = cc

-- What is known of a receipt once `verify_receipt` has accepted it.
pub record Accepted (env : Env) (idpub_hex : Text) (rec : Json) : Type 0 where
  pub key : Bytes
  pub sig : Bytes
  pub body : Bytes
  pub key_eq : from_hex idpub_hex ≡ ok key
  pub body_eq : canonical_receipt env.floats rec ≡ ok body
  pub signed : env.ed25519_verify key sig body ≡ ok tt

module _ (env : Env) where
  canonical_receipt-eq-ok :
      (rec : Json) (body : Bytes)
      → canonical_receipt env.floats rec ≡ ok body
      → (r : Receipt) × (read_receipt env.floats rec ≡ ok r)
        × (encode (receipt_text jstr r) ≡ ok body)
  unfolding canonical_receipt
  canonical_receipt-eq-ok rec body h = >>=-eq-ok (read_receipt env.floats rec) _ h

  check_signature-Accepted :
      (sig : Bytes) (idpub_hex : Text) (rec : Json)
      → check_signature env sig idpub_hex rec ≡ ok true
      → Accepted env idpub_hex rec
  unfolding check_signature
  check_signature-Accepted sig idpub_hex rec h =
      let m = signature_holds-true _ h in
      let (key, ek, m1) = >>=-eq-ok (from_hex idpub_hex) _ m in
      let (body, eb, m2) = >>=-eq-ok (canonical_receipt env.floats rec) _ m1 in
      record { key = key; sig = sig; body = body; key_eq = ek; body_eq = eb; signed = m2 }

  judge-Accepted :
      (idpub_hex : Text) (p : Result (Json × Bytes)) (v : ReceiptVerdict)
      → judge env idpub_hex p ≡ ok v
      → v.ok_flag ≡ true
      → Accepted env idpub_hex v.receipt
  unfolding judge
  judge-Accepted idpub_hex (err e) v h accepted = cc
  judge-Accepted idpub_hex (ok (rec, sig)) v h accepted =
      let (b, eb, ev) = >>=-eq-ok (check_signature env sig idpub_hex rec) _ h in
      let holds : b ≡ true = cc in
      let same_receipt : rec ≡ v.receipt = cc in
      subst (Accepted env idpub_hex) same_receipt
        (check_signature-Accepted sig idpub_hex rec (eb ∙ ap ok holds))

  -- A verdict of `ok` means that the key's bytes and the canonical form of the receipt could be
  -- read, and that a signature over that form verified under the key.
  pub verify_receipt-Accepted :
      (receipt_b64 idpub_hex : Text) (v : ReceiptVerdict)
      → verify_receipt env receipt_b64 idpub_hex ≡ ok v
      → v.ok_flag ≡ true
      → Accepted env idpub_hex v.receipt
  unfolding verify_receipt
  verify_receipt-Accepted receipt_b64 idpub_hex v =
      judge-Accepted idpub_hex (parse_signed env receipt_b64) v

  -- The other bytes that an enclave's identity key signs: a key of 32 bytes, or a quote, which does not
  -- begin as the JSON of a receipt does.
  abbrev pub NoReceipt : Bytes → Type 0
  NoReceipt body = (length body ≡ 32) ⊎ (starts_with body (lit "{\"ts_unix\":") ≡ false)

  not-NoReceipt :
      (r : Receipt) (body : Bytes) → encode (receipt_text jstr r) ≡ ok body → NoReceipt body → ⊥
  not-NoReceipt r body e (inl short) = omega (arith, receipt_text-long jstr r body e)
  not-NoReceipt r body e (inr other) = cc (receipt_text-starts jstr r body e, other)

  -- Suppose that signatures verify under the registered key only over bytes that the enclave has
  -- signed: the JSON form, by Go's encoder, of receipts that it issued, and beside these only bytes
  -- that are as long as a key, 32, or that do not begin with `{"ts_unix":`. Then a receipt that
  -- `verify_receipt` accepts reads, field by field, as one that the enclave issued.
  pub verify_receipt_authentic :
      (idpub_hex : Text) (Issued : Receipt → Type 0)
      → ((key sig body : Bytes)
          → from_hex idpub_hex ≡ ok key
          → env.ed25519_verify key sig body ≡ ok tt
          → ((r : Receipt) × Issued r × (encode (receipt_text go_jstr r) ≡ ok body))
            ⊎ NoReceipt body)
      → (receipt_b64 : Text) (v : ReceiptVerdict) → verify_receipt env receipt_b64 idpub_hex ≡ ok v
      → v.ok_flag ≡ true
      → (r : Receipt) × (read_receipt env.floats v.receipt ≡ ok r) × Issued r
  verify_receipt_authentic idpub_hex Issued unforgeable receipt_b64 v h accepted =
      let a = verify_receipt-Accepted receipt_b64 idpub_hex v h accepted in
      let (r', read, enc) = canonical_receipt-eq-ok v.receipt a.body a.body_eq in
      elim (unforgeable a.key a.sig a.body a.key_eq a.signed) [
        | inl (r, issued, er) ↦ (r, read ∙ ap ok (encoded_receipts-eq r' r enc er), issued)
        | inr other ↦ absurd (not-NoReceipt r' a.body enc other)
      ]
