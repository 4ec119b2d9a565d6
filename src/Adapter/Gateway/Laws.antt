-- ===== src/Adapter/Gateway/Laws.antt =====
-- What the validators over our own contract come to.
use fidrouter.Base.{
  if-elim, Text, true, false, Result, ok, err, unavailable, value_error, ◌==◌, ◌≡◌, refl, ◌⊎◌, inl,
  inr, Bool-cases,
}
use fidrouter.Adapter.Url.{has_scheme}
use fidrouter.Adapter.Verdict.{Verdict, from_json}
use fidrouter.Adapter.Gateway.{
  Response, answer, http_status, failed, Ran, exited, not_run, World, HttpConfig, ExecConfig,
  outage, unparseable, http_answer, validate_http, exec_answer, validate_exec,
}

-- A verdict, or the one exception that callers are told of.
pub data Answered : Result Verdict → Type 0 where
  verdict : (v : Verdict) → Answered (ok v)
  outage_of : (m : Text) → Answered (err (unavailable m))

outage-Answered : (m : Text) (r : Result Verdict) → Answered (outage m r)
outage-Answered m (ok v) = verdict v
outage-Answered m (err e) = outage_of m

unparseable-Answered : (r : Result Verdict) → Answered (unparseable r)
unparseable-Answered (ok v) = verdict v
unparseable-Answered (err (unavailable m)) = outage_of m
unparseable-Answered (err _) = outage_of _

http_answer-Answered : (w : World) (r : Response) → Answered (http_answer w.floats r)
unfolding http_answer
http_answer-Answered w (answer j) = outage-Answered _ (from_json w.floats j)
http_answer-Answered w (http_status code) = outage_of _
http_answer-Answered w failed = outage_of _

exec_answer-Answered : (w : World) (r : Ran) → Answered (exec_answer w r)
unfolding exec_answer
exec_answer-Answered w (exited code out stderr) =
    if-elim Answered (code == 0) _ _ (unparseable-Answered _) (outage_of _)
exec_answer-Answered w not_run = outage_of _

-- What `_http` comes to: for an address with a scheme a verdict or an outage, for one without the
-- exception of the request that cannot be made.
abbrev pub HttpOutcome : World → Text → HttpConfig → Type 0
HttpOutcome w key cfg =
    (has_scheme cfg.url ≡ true) × Answered (validate_http w key cfg)
    ⊎ (has_scheme cfg.url ≡ false) × (validate_http w key cfg ≡ err value_error)

validate_http-HttpOutcome : (w : World) (key : Text) (cfg : HttpConfig) → HttpOutcome w key cfg
unfolding validate_http
validate_http-HttpOutcome w key cfg = elim (Bool-cases (has_scheme cfg.url)) [
  | inl e ↦ inl (e, rw e (http_answer-Answered w (w.request _)))
  | inr e ↦ inr (e, rw e refl)
]

-- Whatever an endpoint or a command answers, and whether it can be asked at all, the validator over a
-- command returns a verdict or raises `ValidatorUnavailable`, and no other exception, and so does the
-- one over HTTP for every address with a scheme. For an address without one, `_http` raises
-- `ValueError` whatever the key is.
pub validators-Answered :
    (w : World) (key : Text) (http : HttpConfig) (exec : ExecConfig)
    → HttpOutcome w key http × Answered (validate_exec w key exec)
unfolding validate_exec
validators-Answered w key http exec =
    (validate_http-HttpOutcome w key http, exec_answer-Answered w (w.run _ _ _))
