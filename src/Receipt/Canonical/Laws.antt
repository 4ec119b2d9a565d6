-- ===== src/Receipt/Canonical/Laws.antt =====
-- The canonical form determines the receipt.
use mathlib.Core.List.{append_cancel_left}
use fidrouter.Base.{
  Text, Bytes, lit, Bool, true, false, ◌∷◌, ◌++◌, ◌≡◌, refl, ap, sym, ◌∙◌, ℤ, ok, arith,
}
use fidrouter.Text.Decimal.{show_int, is_digit}
use fidrouter.Text.Decimal.Laws.{read_int, read_int-show_int}
use fidrouter.Text.Utf8.{encode}
use fidrouter.Text.Utf8.Laws.{encode-injective}
use fidrouter.Receipt.Escape.{jstr, go_jstr}
use fidrouter.Receipt.Escape.Laws.{jstr-append-injective, jstr-append-go_jstr}
use fidrouter.Receipt.Canonical.{Receipt, receipt_text, bool_text}

-- A number can be told from the comma after it.
show_int-append-injective :
    (a b : ℤ) (r r' : Text) → show_int a ++ b',' ∷ r ≡ show_int b ++ b',' ∷ r' → (a ≡ b) × (r ≡ r')
unfolding is_digit
show_int-append-injective a b r r' h =
    let both : (a, b',' ∷ r) ≡ (b, b',' ∷ r') =
      sym (read_int-show_int a b',' r refl) ∙ ap read_int h ∙ read_int-show_int b b',' r' refl in
    (cc both, cc both)

t-ne-f : (s t : Text) → b't' ∷ s ≡ b'f' ∷ t → ⊥
t-ne-f s t h = ground arith

bool_text-append-injective :
    (a b : Bool) (r r' : Text) → bool_text a ++ r ≡ bool_text b ++ r' → (a ≡ b) × (r ≡ r')
bool_text-append-injective true true r r' h = (refl, append_cancel_left (lit "true") r r' h)
bool_text-append-injective true false r r' h = absurd (t-ne-f _ _ h)
bool_text-append-injective false true r r' h = absurd (t-ne-f _ _ (sym h))
bool_text-append-injective false false r r' h = (refl, append_cancel_left (lit "false") r r' h)

module _ (quote quote' : Text → Text)
    (separate : (s t r r' : Text) → quote s ++ r ≡ quote' t ++ r' → (s ≡ t) × (r ≡ r')) where
  receipt_text-eq : (r r' : Receipt) → receipt_text quote r ≡ receipt_text quote' r' → r ≡ r'
  unfolding receipt_text
  receipt_text-eq r r' h =
      let k0 = append_cancel_left (lit "{\"ts_unix\":") _ _ h in
      let (e0, h0) = show_int-append-injective r.ts_unix r'.ts_unix _ _ k0 in
      let k1 = append_cancel_left (lit "\"tenant\":") _ _ h0 in
      let (e1, h1) = separate r.tenant r'.tenant _ _ k1 in
      let k2 = append_cancel_left (lit ",\"model\":") _ _ h1 in
      let (e2, h2) = separate r.model r'.model _ _ k2 in
      let k3 = append_cancel_left (lit ",\"account\":") _ _ h2 in
      let (e3, h3) = separate r.account r'.account _ _ k3 in
      let k4 = append_cancel_left (lit ",\"req_hash\":") _ _ h3 in
      let (e4, h4) = separate r.req_hash r'.req_hash _ _ k4 in
      let k5 = append_cancel_left (lit ",\"resp_hash\":") _ _ h4 in
      let (e5, h5) = separate r.resp_hash r'.resp_hash _ _ k5 in
      let k6 = append_cancel_left (lit ",\"prompt_tokens\":") _ _ h5 in
      let (e6, h6) = show_int-append-injective r.prompt_tokens r'.prompt_tokens _ _ k6 in
      let k7 = append_cancel_left (lit "\"completion_tokens\":") _ _ h6 in
      let (e7, h7) = show_int-append-injective r.completion_tokens r'.completion_tokens _ _ k7 in
      let k8 = append_cancel_left (lit "\"cache_hit\":") _ _ h7 in
      let (e8, h8) = bool_text-append-injective r.cache_hit r'.cache_hit _ _ k8 in
      let k9 = append_cancel_left (lit ",\"measurement\":") _ _ h8 in
      let (e9, h9) = separate r.measurement r'.measurement _ _ k9 in
      λ i. record {
        ts_unix = e0 i;
        tenant = e1 i;
        model = e2 i;
        account = e3 i;
        req_hash = e4 i;
        resp_hash = e5 i;
        prompt_tokens = e6 i;
        completion_tokens = e7 i;
        cache_hit = e8 i;
        measurement = e9 i;
      }

-- Receipts with one canonical text are one receipt: each of the ten fields is the same.
pub receipt_text-injective : (r r' : Receipt) → receipt_text jstr r ≡ receipt_text jstr r' → r ≡ r'
receipt_text-injective = receipt_text-eq jstr jstr jstr-append-injective

-- If the text that the SDK writes of one receipt is the text that Go's encoder writes of another, they
-- are one receipt: each of the ten fields is the same.
pub receipt_text-go : (r r' : Receipt) → receipt_text jstr r ≡ receipt_text go_jstr r' → r ≡ r'
receipt_text-go = receipt_text-eq jstr go_jstr jstr-append-go_jstr

pub encoded_receipts-eq :
    (r r' : Receipt) {b : Bytes}
    → encode (receipt_text jstr r) ≡ ok b
    → encode (receipt_text go_jstr r') ≡ ok b
    → r ≡ r'
encoded_receipts-eq r r' h k = receipt_text-go r r' (encode-injective _ _ h k)
