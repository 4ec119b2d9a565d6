-- ===== src/Adapter/Gateway.antt =====
-- The validators that ask over our own contract, `_http` and `_exec`, and what they ask.
pub mod Laws
use fidrouter.Base.{
  ℕ, Text, Bytes, lit, Bool, true, false, not, Option, none, some, List, [], ◌∷◌, ◌++◌, Result, ok,
  err, Error, unavailable, value_error, ◌>>=◌, same, ◌==◌, if◌then◌else◌, ℤ, pos,
}
use fidrouter.Text.Decimal.{show_int}
use fidrouter.Json.Loads.{loads}
use fidrouter.Json.{Json, str, obj, end, field, Floats}
use fidrouter.Env.{Request}
use fidrouter.Adapter.Url.{has_scheme}
use fidrouter.Adapter.Verdict.{Verdict, from_json}

-- What comes of a request: the JSON of an answer, `HTTPError` with its status, or any other failure.
pub data Response : Type 0 where
  answer : Json → Response
  http_status : ℕ → Response
  failed : Response

-- What comes of running a command: its output, or a failure to run it or to wait for its end.
pub data Ran : Type 0 where
  exited : ℕ → Bytes → Text → Ran
  not_run : Ran

-- The world that a validator asks. The command is given what it reads on its standard input.
pub record World : Type 0 where
  pub request : Request → Response
  pub run : Text → Json → Text → Ran
  pub floats : Floats

pub record HttpConfig : Type 0 where
  pub url : Text
  pub secret : Text

pub record ExecConfig : Type 0 where
  pub cmd : Text
  pub timeout : Text

-- `{"key": key}`
abbrev pub key_body : Text → Json
key_body key = obj (field (lit "key") (str key) end)

abbrev bearer : Text → List (Text × Text)
bearer secret = if same secret [] then [] else (lit "Authorization", lit "Bearer " ++ secret) ∷ []

-- `except Exception`: whatever went wrong is an outage. The messages end where `{e}` stands.
abbrev pub outage {ℓ} : {A : Type ℓ} → Text → Result A → Result A
outage m (ok a) = ok a
outage m (err e) = err (unavailable m)

unfoldable pub http_answer : Floats → Response → Result Verdict
http_answer fl (answer j) = outage (lit "validator endpoint unreachable: ") (from_json fl j)
http_answer fl (http_status code) =
    err (unavailable (lit "validator endpoint HTTP " ++ show_int (pos code)))
http_answer fl failed = err (unavailable (lit "validator endpoint unreachable: "))

-- `_http`: the request is made before the block that is tried.
unfoldable pub validate_http : World → Text → HttpConfig → Result Verdict
unfolding http_answer has_scheme
validate_http w key cfg =
    if has_scheme cfg.url
    then http_answer w.floats (
        w.request (record {
          url = cfg.url;
          headers = (lit "Content-Type", lit "application/json") ∷ bearer cfg.secret;
          body = some (key_body key);
        }))
    else err value_error

-- `except ValidatorUnavailable: raise`, then `except Exception`
abbrev pub unparseable : Result Verdict → Result Verdict
unparseable (ok v) = ok v
unparseable (err (unavailable m)) = err (unavailable m)
unparseable (err e) = err (unavailable (lit "validator command returned unparseable output: "))

-- `p.stdout or b"{}"`
abbrev pub or_braces : Bytes → Bytes
or_braces out = if same out [] then lit "{}" else out

unfoldable pub exec_answer : World → Ran → Result Verdict
exec_answer w not_run = err (unavailable (lit "validator command failed to run: "))
exec_answer w (exited code out stderr) =
    if code == 0
    then unparseable (do j ← loads w.floats (or_braces out); from_json w.floats j)
    else err (unavailable (lit "validator command exited " ++ (show_int (pos code) ++ lit ": ")))

-- `_exec`
unfoldable pub validate_exec : World → Text → ExecConfig → Result Verdict
unfolding exec_answer
validate_exec w key cfg = exec_answer w (w.run cfg.cmd (key_body key) cfg.timeout)
