-- ===== src/Adapter/Config.antt =====
-- The adapter's configuration: `from_env` and `quota_policy` of the validators, and the settings that
-- the adapter reads when it is loaded.
pub mod Laws
use fidrouter.Base.{
  ℕ, Text, Bytes, lit, Bool, not, Option, none, some, List, [], ◌∷◌, Result, ok, err, Error,
  system_exit, value_error, ◌>>=◌, ◌>>◌, guard, drop, same, ℤ, if◌then◌else◌,
}
use mathlib.Core.List.{map}
use fidrouter.Text.Strip.{strip, lower, starts_with}
use fidrouter.Text.Hex.{from_hex}
use fidrouter.Json.{Floats}
use fidrouter.Json.Numbers.{int_of_text}
use fidrouter.Jwt.{split}
use fidrouter.Adapter.Verdict.{Verdict}
use fidrouter.Adapter.Gateway.{World, HttpConfig, ExecConfig, validate_http, validate_exec}
use fidrouter.Adapter.NewApi.{NewApiConfig, validate_newapi}
use fidrouter.Adapter.Token.{Settings}

-- `os.environ`
abbrev pub Environ : Type 0
Environ = Text → Option Text

-- `e.get(k, d)`, and `e.get(k) or d`
abbrev pub env_get : Environ → Text → Text → Text
env_get e k d = elim (e k) [ none ↦ d | some v ↦ v ]

abbrev pub env_or : Environ → Text → Text → Text
env_or e k d = if same (env_get e k []) [] then d else env_get e k []

-- A validator with its configuration.
pub data Validator : Type 0 where
  newapi : NewApiConfig → Validator
  http : HttpConfig → Validator
  exec : ExecConfig → Validator

-- `fn(key, cfg)`
unfoldable pub run_validator : World → Validator → Text → Result Verdict
run_validator w (newapi cfg) key = validate_newapi w key cfg
run_validator w (http cfg) key = validate_http w key cfg
run_validator w (exec cfg) key = validate_exec w key cfg

unfoldable pub newapi_config : Environ → Result NewApiConfig
newapi_config e = do
  let base = env_or e (lit "NEWAPI_BASE") []
  guard (not (same base [])) (system_exit (lit "VALIDATOR=newapi needs NEWAPI_BASE"))
  ok (record {
    base = base;
    path = env_get e (lit "NEWAPI_VALIDATE_PATH") (lit "/v1/dashboard/billing/subscription");
    admin_token = env_get e (lit "NEWAPI_ADMIN_TOKEN") [];
    admin_user_id = env_get e (lit "NEWAPI_ADMIN_USER_ID") (lit "1");
    quota_per_usd = env_get e (lit "QUOTA_PER_USD") (lit "500000");
  })

unfoldable pub http_config : Environ → Result HttpConfig
http_config e = do
  let url = env_or e (lit "VALIDATOR_URL") []
  guard (not (same url [])) (system_exit (lit "VALIDATOR=http needs VALIDATOR_URL"))
  ok (record { url = url; secret = env_get e (lit "VALIDATOR_SECRET") [] })

unfoldable pub exec_config : Environ → Result ExecConfig
exec_config e = do
  let cmd = env_or e (lit "VALIDATOR_CMD") []
  guard (not (same cmd [])) (system_exit (lit "VALIDATOR=exec needs VALIDATOR_CMD"))
  ok (record { cmd = cmd; timeout = env_get e (lit "VALIDATOR_TIMEOUT") (lit "8") })

abbrev pub validator_kind : Environ → Text
validator_kind e = lower (strip (env_or e (lit "VALIDATOR") (lit "newapi")))

unfoldable pub from_env : Environ → Result (Text × Validator)
from_env e =
    let kind = validator_kind e in
    if same kind (lit "newapi")
    then (do cfg ← newapi_config e; ok (kind, newapi cfg))
    else if same kind (lit "http")
    then (do cfg ← http_config e; ok (kind, http cfg))
    else if same kind (lit "exec")
    then (do cfg ← exec_config e; ok (kind, exec cfg))
    else err (system_exit (lit "VALIDATOR must be one of newapi, http, exec (got "))

abbrev bad_policy : Error
bad_policy = system_exit (lit "QUOTA_UNKNOWN must be 'refuse' or 'cap:<usd>'")

-- `except ValueError: pass`, and then the exit
abbrev pub cap_of : Result ℕ → Result (Text × ℕ)
cap_of (ok w) = ok (lit "cap", w)
cap_of (err value_error) = err bad_policy
cap_of (err e) = err e

abbrev pub quota_text : Environ → Text
quota_text e = lower (strip (env_or e (lit "QUOTA_UNKNOWN") (lit "refuse")))

unfoldable pub quota_policy : Floats → Environ → Result (Text × ℕ)
quota_policy fl e =
    let raw = quota_text e in
    if same raw (lit "refuse")
    then ok (lit "refuse", 0)
    else if starts_with raw (lit "cap:")
    then cap_of (fl.of_text (drop 4 raw))
    else err bad_policy

-- The texts of a list between commas that are not empty.
abbrev non_empty : List Text → List Text
non_empty [] = []
non_empty ([] ∷ ts) = non_empty ts
non_empty ((c ∷ t) ∷ ts) = (c ∷ t) ∷ non_empty ts

-- The module, loaded: its settings and what it signs with. `key_of` is the library's constructor of a
-- private key.
unfoldable pub load :
    World → (Bytes → Result (Bytes → Bytes)) → Environ → Result (Settings × (Bytes → Bytes))
load w key_of e = do
  ttl ← int_of_text (env_get e (lit "TTL") (lit "3600"))
  quota_per_usd ← int_of_text (env_get e (lit "QUOTA_PER_USD") (lit "500000"))
  (kind, validator) ← from_env e
  (quota_unknown, quota_cap) ← quota_policy w.floats e
  let seed_hex = env_get e (lit "CP_SEED_HEX") []
  guard (not (same seed_hex []))
      (system_exit (lit "CP_SEED_HEX (control-plane ed25519 seed, hex) is required"))
  seed ← from_hex seed_hex
  sign ← key_of seed
  ok (
    record {
      enclave_url = env_get e (lit "ENCLAVE_URL") [];
      expected_measurement = env_get e (lit "EXPECTED_MEASUREMENT") [];
      verify_url = env_get e (lit "VERIFY_URL") [];
      default_pool = env_get e (lit "POOL") (lit "shared");
      models =
          non_empty (split b',' (env_get e (lit "MODELS") (lit "claude-3,gpt-4o,claude-opus-5")));
      ttl = ttl;
      quota_per_usd = quota_per_usd;
      allowed_groups = non_empty (map strip (split b',' (env_get e (lit "ALLOWED_GROUPS") [])));
      validator_kind = kind;
      validate = run_validator w validator;
      quota_unknown = quota_unknown;
      quota_cap = quota_cap;
    },
    sign,
  )
