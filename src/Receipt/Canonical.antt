-- ===== src/Receipt/Canonical.antt =====
-- `_canonical_receipt`: the bytes that the enclave's signature is checked over.
pub mod Laws
pub mod Forms
use fidrouter.Base.{
  ℕ, Text, Bytes, lit, Bool, true, false, List, [], ◌∷◌, ◌++◌, Result, ok, err, type_error, ◌>>=◌,
  ℤ, if◌then◌else◌,
}
use fidrouter.Text.Decimal.{show_int}
use fidrouter.Text.Utf8.{encode}
use fidrouter.Json.{
  Json, null, bool, num, real, str, arr, obj, Items, nil, cons, Fields, end, field, Floats,
}
use fidrouter.Json.{item, truthy}
use fidrouter.Json.Numbers.{to_int}
use fidrouter.Receipt.Escape.{jstr}

-- The fields of Go's `receipt.Receipt`, in its order.
pub record Receipt : Type 0 where
  pub ts_unix : ℤ
  pub tenant : Text
  pub model : Text
  pub account : Text
  pub req_hash : Text
  pub resp_hash : Text
  pub prompt_tokens : ℤ
  pub completion_tokens : ℤ
  pub cache_hit : Bool
  pub measurement : Text

abbrev bool_text : Bool → Text
bool_text b = if b then lit "true" else lit "false"

-- The f-string, over the function that quotes a text.
unfoldable pub receipt_text : (Text → Text) → Receipt → Text
receipt_text quote r =
    lit "{\"ts_unix\":"
    ++ (show_int r.ts_unix
        ++ (lit ",\"tenant\":"
            ++ (quote r.tenant
                ++ (lit ",\"model\":"
                    ++ (quote r.model
                        ++ (lit ",\"account\":"
                            ++ (quote r.account
                                ++ (lit ",\"req_hash\":"
                                    ++ (quote r.req_hash
                                        ++ (lit ",\"resp_hash\":"
                                            ++ (quote r.resp_hash
                                                ++ (lit ",\"prompt_tokens\":"
                                                    ++ (show_int r.prompt_tokens
                                                        ++ (lit ",\"completion_tokens\":"
                                                            ++ (show_int r.completion_tokens
                                                            ++ (lit ",\"cache_hit\":"
                                                            ++ (bool_text r.cache_hit
                                                            ++ (lit ",\"measurement\":"
                                                            ++ (quote r.measurement
                                                            ++ lit "}")))))))))))))))))))

-- `for ch in s` with `ord(ch)`: a text, or any other iterable of texts of one character.
one_char : Json → Result ℕ
one_char (str (c ∷ [])) = ok c
one_char j = err type_error

list_chars : Items → Result Text
unfolding one_char
list_chars nil = ok []
list_chars (cons x xs) = do c ← one_char x; s ← list_chars xs; ok (c ∷ s)

key_chars : Fields → Result Text
unfolding one_char
key_chars end = ok []
key_chars (field k v fs) = do c ← one_char (str k); s ← key_chars fs; ok (c ∷ s)

unfoldable pub iterate : Json → Result Text
unfolding list_chars key_chars
iterate (str s) = ok s
iterate (arr xs) = list_chars xs
iterate (obj fs) = key_chars fs
iterate j = err type_error

abbrev text_item : Json → Text → Result Text
text_item r k = do v ← item r k; iterate v

abbrev int_item : Floats → Json → Text → Result ℤ
int_item fl r k = do v ← item r k; to_int fl v

-- The values that the f-string interpolates, in its order.
unfoldable pub read_receipt : Floats → Json → Result Receipt
unfolding iterate
read_receipt fl r = do
  ts_unix ← int_item fl r (lit "ts_unix")
  tenant ← text_item r (lit "tenant")
  model ← text_item r (lit "model")
  account ← text_item r (lit "account")
  req_hash ← text_item r (lit "req_hash")
  resp_hash ← text_item r (lit "resp_hash")
  prompt_tokens ← int_item fl r (lit "prompt_tokens")
  completion_tokens ← int_item fl r (lit "completion_tokens")
  cache_hit ← item r (lit "cache_hit")
  measurement ← text_item r (lit "measurement")
  ok (record {
    ts_unix = ts_unix;
    tenant = tenant;
    model = model;
    account = account;
    req_hash = req_hash;
    resp_hash = resp_hash;
    prompt_tokens = prompt_tokens;
    completion_tokens = completion_tokens;
    cache_hit = truthy cache_hit;
    measurement = measurement;
  })

unfoldable pub canonical_receipt : Floats → Json → Result Bytes
unfolding read_receipt receipt_text
canonical_receipt fl j = do r ← read_receipt fl j; encode (receipt_text jstr r)
