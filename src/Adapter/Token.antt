-- ===== src/Adapter/Token.antt =====
-- `mint_capability` and `tenant_for`: the capability token that the enclave verifies.
pub mod Laws
use fidrouter.Base.{
  ℕ, Text, Bytes, lit, Bool, false, List, [], ◌∷◌, ◌++◌, Result, ok, ◌>>=◌, take, same, ℤ, pos,
  ◌+ℤ◌, leb_ℤ, is_zero, Option, none, some, if◌then◌else◌,
}
use fidrouter.Text.Utf8.{encode}
use fidrouter.Text.Hex.{hex}
use fidrouter.Text.Base64.{b64u}
use fidrouter.Json.{Json, bool, num, str, arr, obj, Items, nil, cons, end, field, Floats}
use fidrouter.Json.Dump.{dumps_compact}
use fidrouter.Adapter.Verdict.{Verdict}

-- What the adapter calls: the signature of its key, the digest, the clock and floats.
pub record Host : Type 0 where
  pub sign : Bytes → Bytes
  pub sha256 : Bytes → Bytes
  pub now : ℕ
  pub floats : Floats

-- The module's configuration.
pub record Settings : Type 0 where
  pub enclave_url : Text
  pub expected_measurement : Text
  pub verify_url : Text
  pub default_pool : Text
  pub models : List Text
  pub ttl : ℤ
  pub quota_per_usd : ℤ
  pub allowed_groups : List Text
  pub validator_kind : Text
  -- `_VALIDATE(key, _VCFG)`
  pub validate : Text → Result Verdict
  pub quota_unknown : Text
  pub quota_cap : ℕ

abbrev pub texts_items : List Text → Items
texts_items [] = nil
texts_items (t ∷ ts) = cons (str t) (texts_items ts)

abbrev pub texts : List Text → Json
texts ts = arr (texts_items ts)

-- `xs or ys`
abbrev pub or_default : List Text → List Text → List Text
or_default [] ds = ds
or_default (t ∷ ts) ds = t ∷ ts

abbrev pub int_or : ℤ → ℤ → ℤ
int_or a b = if is_zero a then b else a

abbrev pub claims : Settings → Text → ℤ → List Text → ℤ → ℤ → Json
claims s tenant max_tok models ttl now = obj (
    field (lit "tenant") (str tenant) (
      field (lit "pool") (str s.default_pool) (
        field (lit "models") (texts (or_default models s.models)) (
          field (lit "max_tok") (num max_tok) (
            field (lit "exp") (num (now +ℤ int_or ttl s.ttl))
              (field (lit "isolated") (bool false) end))))))

unfoldable pub mint_capability : Host → Settings → Text → ℤ → List Text → ℤ → Result Text
mint_capability h s tenant max_tok models ttl = do
  now ← h.floats.truncate h.now
  body ← encode (dumps_compact h.floats (claims s tenant max_tok models ttl now))
  ok (b64u body ++ b'.' ∷ b64u (h.sign body))

unfoldable pub tenant_for : Host → Text → Result Text
tenant_for h subject = do bytes ← encode subject; ok (lit "u_" ++ take 16 (hex (h.sha256 bytes)))

abbrev pub min_ℤ : ℤ → ℤ → ℤ
min_ℤ a b = if leb_ℤ a b then a else b

abbrev pub max_ℤ : ℤ → ℤ → ℤ
max_ℤ a b = if leb_ℤ b a then a else b

-- `TTL`, or `max(60, min(TTL, int(v.expires_at - time.time())))` for a key that expires
unfoldable pub token_ttl : Host → Settings → Option ℤ → Result ℤ
token_ttl h s none = ok s.ttl
token_ttl h s (some e) = if is_zero e then ok s.ttl else (do
  end_time ← h.floats.of_int e
  left ← h.floats.truncate (h.floats.minus end_time h.now)
  ok (max_ℤ (pos 60) (min_ℤ s.ttl left)))
