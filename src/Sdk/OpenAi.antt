-- ===== src/Sdk/OpenAi.antt =====
-- `OpenAI` of sdk/python/fid.py: its constructor, which pins the measurement that the registry publishes,
-- and trades a key for a token. A token or a measurement that is no text is refused at once.
pub mod Laws
pub mod Exchange
use fidrouter.Base.{
  ℕ, Text, lit, Bool, false, not, Option, none, some, List, [], ◌∷◌, ◌++◌, Result, ok, err,
  verification, type_error, ◌>>=◌, ◌>>◌, guard, or_raise, same, if◌then◌else◌,
}
use fidrouter.Exec.{Exec, after}
use fidrouter.Text.Strip.{rstrip}
use fidrouter.Json.{
  Json, str, arr, obj, Items, nil, cons, end, field, get, get_or, item, as_text, truthy, or_else,
}
use fidrouter.Env.{Env}
use fidrouter.Client.State.{FidClient, Config, new_client}

abbrev json_type : List (Text × Text)
json_type = (lit "Content-Type", lit "application/json") ∷ []

-- The body that `_exchange` sends, and `_exchange`
abbrev pub exchange_body : Text → Text → Json
exchange_body api_token pool =
    obj (field (lit "api_token") (str api_token) (field (lit "pool") (str pool) end))

unfoldable pub exchange_token : Env → Text → Text → Text → Result Json
exchange_token env cp_adapter api_token pool = do
  answer ← env.fetch (record {
    url = rstrip b'/' cp_adapter ++ lit "/exchange";
    headers = json_type;
    body = some (exchange_body api_token pool);
  })
  tok ← get answer (lit "token")
  guard (truthy tok)
      (verification (lit "cp-adapter did not return a capability token (bad New API key?)"))
  ok tok

-- `e.get("base_url", "").rstrip("/") == want`
unfoldable pub row_matches : Text → Json → Result Bool
row_matches want e = do
  url ← get_or e (lit "base_url") (str [])
  s ← as_text url
  ok (same (rstrip b'/' s) want)

-- `e.get("expected") or e.get("measurement")`
unfoldable pub row_measurement : Json → Result Json
row_measurement e = do
  expected ← get e (lit "expected")
  if truthy expected then ok expected else get e (lit "measurement")

-- `if m: return m`, and else on to the next row
abbrev pub measured_or : Result Json → Result (Option Json) → Result (Option Json)
measured_or (err e) rest = err e
measured_or (ok m) rest = if truthy m then ok (some m) else rest

abbrev pub matched_or :
    Result Bool → Result (Option Json) → Result (Option Json) → Result (Option Json)
matched_or (err e) found rest = err e
matched_or (ok b) found rest = if b then found else rest

-- `for e in rows`
unfoldable pub find_measurement : Text → Items → Result (Option Json)
find_measurement want nil = ok none
find_measurement want (cons e es) =
    let rest = find_measurement want es in
    matched_or (row_matches want e) (measured_or (row_measurement e) rest) rest

-- The rows of the answer; of a text or a dict that is not empty the first item has no `get`.
unfoldable pub rows_of : Json → Result Items
rows_of (arr xs) = ok xs
rows_of (obj end) = ok nil
rows_of (str []) = ok nil
rows_of j = err type_error

-- `_resolve_expected`
unfoldable pub resolve_expected : Env → Text → Text → Result Json
resolve_expected env registry_url base_url = do
  answer ←
      env.fetch
        (record { url = rstrip b'/' registry_url ++ lit "/api/status"; headers = []; body = none })
  rows ← rows_of answer
  found ← find_measurement (rstrip b'/' base_url) rows
  or_raise found (
      verification (
        lit "no published measurement for "
        ++ (base_url ++ (lit " in registry " ++ (registry_url ++ lit " — refusing to send")))))

-- The arguments of the constructor.
pub record Options : Type 0 where
  pub api_key : Text
  pub base_url : Text
  pub verify_registry : Text
  pub pin_measurement : Text
  pub cs_audience : Text
  pub cp_adapter : Text
  pub pool : Text

unfoldable pub api_token : Env → Options → Result Text
api_token env o =
    if same o.cp_adapter []
    then ok o.api_key
    else (do tok ← exchange_token env o.cp_adapter o.api_key o.pool; as_text tok)

-- The pin: the one that is given, or the registry's.
unfoldable pub pin_of : Env → Options → Result Text
pin_of env o =
    if same o.pin_measurement []
    then (do
      guard (not (same o.verify_registry [])) (
          verification (
            lit
              "pass verify_registry=<public verification page URL> (or pin_measurement=...) so verification has an independent expected value"))
      m ← resolve_expected env o.verify_registry o.base_url
      as_text m)
    else ok o.pin_measurement

-- `OpenAI.__init__`, for a token and a measurement that are texts
unfoldable pub new_openai : Env → Options → Result FidClient
new_openai env o = do
  token ← api_token env o
  pin ← pin_of env o
  new_client (record {
    base_url = o.base_url;
    token = token;
    pin_measurement = pin;
    pin_idpub_hex = [];
    pccs_url = [];
    dcap_backend = none;
    dcap_allow_unverified = false;
    cs_audience = o.cs_audience;
  })
