-- ===== src/Deploy/Gcp.antt =====
-- deploy/gcp/gcp.py: the token of the session, and the calls of the cloud's API.
pub mod Laws
pub mod Calls
use fidrouter.Base.{Text, lit, Option, none, some, Result, ok, negsuc, ◌+ℤ◌, if◌then◌else◌}
use fidrouter.Json.{Json, as_text}
use fidrouter.Exec.{Exec, pure, lift, ◌>>=◌}
use fidrouter.Deploy.Settings.{Assignments, read_env}
use fidrouter.Deploy.Account.{
  read_account, token_address, assertion, exchange_call, exchanged, read_grant, encode_body,
  api_call, api_answer,
}
use fidrouter.Deploy.Machine.{
  Machine, Session, send, asks, keep_env, keep_account, keep_token, join_path,
}

-- `load_env()`: the file is read once.
unfoldable pub read_env_file : Machine → Exec Session Assignments
unfolding join_path read_env
read_env_file m = do
  body ← asks (λ events. m.read_file events (join_path m.here (lit "../../.env")))
  keep_env (read_env body)

unfoldable pub env_or_read : Machine → Option Assignments → Exec Session Assignments
unfolding read_env_file
env_or_read m (some env) = pure env
env_or_read m none = read_env_file m

unfoldable pub load_env : Machine → Exec Session Assignments
unfolding env_or_read
load_env m s = env_or_read m s.settings s

-- `_sa()`: the credentials are read once.
unfoldable pub load_account : Machine → Exec Session Json
unfolding load_env read_account
load_account m = do
  env ← load_env m
  sa ← asks (λ events. read_account m events env)
  keep_account sa

unfoldable pub account_or_load : Machine → Option Json → Exec Session Json
unfolding load_account
account_or_load m (some sa) = pure sa
account_or_load m none = load_account m

unfoldable pub account : Machine → Exec Session Json
unfolding account_or_load
account m s = account_or_load m s.account s

-- An assertion is traded for a token, which is kept.
unfoldable pub trade : Machine → Json → Exec Session Json
unfolding assertion token_address send exchanged read_grant
trade m sa = do
  now ← asks (λ events. m.floats.truncate (m.now events))
  a ← lift (assertion m sa now)
  uri ← lift (token_address sa)
  answer ← send m (exchange_call uri a)
  raw ← lift (exchanged answer)
  grant ← lift (read_grant m now raw)
  keep_token grant

-- `token()`, where the cached one is about to expire or there is none
unfoldable pub new_token : Machine → Exec Session Json
unfolding account trade
new_token m = account m >>= trade m

-- `_TOKEN and _TOKEN[1] - 60 > time.time()`
unfoldable pub fresh : Machine → Session → Option Json
fresh m s = elim s.cached [
  | none ↦ none
  | some grant ↦
      if m.floats.less_int (m.now s.events) (grant.1 +ℤ negsuc 59) then some grant.0 else none
]

unfoldable pub token_or_new : Machine → Option Json → Exec Session Json
unfolding new_token
token_or_new m (some t) = pure t
token_or_new m none = new_token m

unfoldable pub token : Machine → Exec Session Json
unfolding fresh token_or_new
token m s = token_or_new m (fresh m s) s

-- `api(method, url, body)`
unfoldable pub api : Machine → Text → Text → Option Json → Exec Session Json
unfolding token encode_body send api_answer
api m method url body = do
  payload ← lift (encode_body m body)
  t ← token m
  bearer ← lift (as_text t)
  answer ← send m (api_call method url payload bearer)
  lift (api_answer m answer)

abbrev pub api_get : Machine → Text → Exec Session Json
api_get m path = api m (lit "GET") path none

abbrev pub api_post : Machine → Text → Json → Exec Session Json
api_post m path body = api m (lit "POST") path (some body)

abbrev pub api_delete : Machine → Text → Exec Session Json
api_delete m path = api m (lit "DELETE") path none
