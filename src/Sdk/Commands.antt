-- ===== src/Sdk/Commands.antt =====
-- The call that the command line makes, the one of the MCP server, and the tools without a check.
pub mod Laws
use fidrouter.Base.{
  ℕ, Text, lit, Bool, false, none, some, [], ◌∷◌, ◌++◌, Result, ok, err, Error, unfollowed, ◌>>=◌,
  pos, if◌then◌else◌,
}
use fidrouter.Text.Strip.{rstrip}
use fidrouter.Json.{
  Json, num, str, arr, obj, nil, cons, end, field, get, get_or, item, as_text, truthy,
}
use fidrouter.Json.Convert.{to_text}
use fidrouter.Json.Dump.{dumps}
use fidrouter.Env.{Env}
use fidrouter.Quote.Token.{first_item}
use fidrouter.Client.State.{FidClient, Config, new_client}
use fidrouter.Client.Attest.{attest_and_verify}
use fidrouter.Client.Infer.{chat}
use fidrouter.Client.Infer.Reply.{InferResult}
use fidrouter.Adapter.NewApi.{mentions}
use fidrouter.Sdk.Tools.{registry, attested_with}

-- `_post(u, b)`
abbrev pub post_json : Env → Text → Json → Result Json
post_json env url body = env.fetch (record {
  url = url;
  headers = (lit "Content-Type", lit "application/json") ∷ [];
  body = some body;
})

-- `cmd_endpoints` and `list_endpoints`
unfoldable pub endpoints : Env → Text → Result Json
endpoints env platform = do reg ← registry env platform; get_or reg (lit "endpoints") (arr nil)

-- `cmd_enable` and `enable_command`
abbrev pub enable_line : Text
enable_line = lit "curl -fsSL https://app.fidcore.xyz/enable.sh | bash"

-- The exchange of a key for a capability token
unfoldable pub exchange : Env → Text → ℕ → Text → Result Json
exchange env platform endpoint key =
    post_json env (platform ++ lit "/api/exchange")
      (obj (field (lit "endpoint") (num (pos endpoint)) (field (lit "key") (str key) end)))

-- What `cmd_call` prints: the error of the exchange, the failure of the verified call or the completion.
-- The first two end with status 1.
pub data Outcome : Type 0 where
  refused : Json → Outcome
  failed : Error → Outcome
  answered : Json → Outcome

abbrev pub call_config : Text → Text → Text → Config
call_config base token pin = record {
  base_url = base;
  token = token;
  pin_measurement = pin;
  pin_idpub_hex = [];
  pccs_url = [];
  dcap_backend = none;
  dcap_allow_unverified = false;
  cs_audience = lit "fidrouter";
}

-- A pin that is false, such as JSON's `null`, is none. Any other that is no text is compared with what
-- the enclave says.
unfoldable pub pin_text : Json → Result Text
unfolding truthy
pin_text (str s) = ok s
pin_text j = if truthy j then err unfollowed else ok []

-- A token that is no text goes into the body of the request as it is.
unfoldable pub token_text : Json → Result Text
token_text (str s) = ok s
token_text j = err unfollowed

-- `{"role": "user", "content": message}`
abbrev pub user_message : Text → Json
user_message message =
    obj (field (lit "role") (str (lit "user")) (field (lit "content") (str message) end))

-- The block that is tried.
unfoldable pub verified_call : Env → Text → Json → Json → Text → Text → Result InferResult
unfolding token_text pin_text
verified_call env base tok meas model message = do
  token ← token_text tok
  pin ← pin_text meas
  c ← new_client (call_config base token pin)
  (chat env model (user_message message ∷ []) c).0

-- `except Exception`, and the completion
abbrev pub outcome_of : Result InferResult → Outcome
outcome_of (ok res) = answered res.completion
outcome_of (err e) = failed e

unfoldable pub call_with : Env → Text → Text → Json → Json → Result Outcome
unfolding verified_call
call_with env model message ex tok = do
  url ← (do u ← item ex (lit "enclave_url"); as_text u)
  meas ← get_or ex (lit "expected_measurement") (str [])
  ok (outcome_of (verified_call env (rstrip b'/' url) tok meas model message))

unfoldable pub cmd_call : Env → Text → ℕ → Text → Text → Text → Result Outcome
unfolding exchange call_with
cmd_call env platform endpoint key model message = do
  ex ← exchange env platform endpoint key
  tok ← get ex (lit "capability_token")
  if truthy tok
      then call_with env model message ex tok
      else (do e ← get_or ex (lit "error") (str (lit "exchange failed")); ok (refused e))

-- `call` of the MCP server: the enclave is attested, and the prompt is posted beside that.
unfoldable pub reply_text : Env → Json → Result Json
reply_text env resp = do
  found ← mentions resp (lit "choices")
  if found
      then (do
        choices ← item resp (lit "choices")
        first ← first_item choices
        message ← item first (lit "message")
        item message (lit "content"))
      else ok (str (dumps env.floats resp))

unfoldable pub user_prompt : Text → Text → Json
user_prompt model message = obj (
    field (lit "model") (str model) (
      field (lit "messages")
        (arr (
          cons
            (obj (field (lit "role") (str (lit "user")) (field (lit "content") (str message) end)))
            nil))
        end))

unfoldable pub call_after : Env → Text → Text → Json → Result Json
unfolding attested_with pin_text user_prompt reply_text
call_after env model message ex = do
  url ← (do u ← item ex (lit "enclave_url"); as_text u)
  meas ← get_or ex (lit "expected_measurement") (str [])
  pin ← pin_text meas
  channel ← attested_with env (rstrip b'/' url) (str pin)
  resp ← post_json env (rstrip b'/' url ++ lit "/v1/chat/completions") (user_prompt model message)
  reply_text env resp

unfoldable pub call : Env → Text → ℕ → Text → Text → Text → Result Json
unfolding exchange call_after
call env platform endpoint key model message = do
  ex ← exchange env platform endpoint key
  tok ← get ex (lit "capability_token")
  if truthy tok
      then call_after env model message ex
      else (do e ← get ex (lit "error"); ok (str (lit "exchange failed: " ++ to_text env.floats e)))
